-- ===== src/Diff/Preamble.antt =====
-- crates/revoot-core/src/diff.rs: the lines before the first hunk. A cursor is kept with the lines from it on.
use revoot.Prelude.{
  ℕ, ◌+◌, Bool, true, false, not, ◌&&◌, ◌||◌, none, some, List, [], ◌∷◌, ◌++◌, if◌then◌else◌, ok,
  and_then,
}
use revoot.Text.{Str, lit, str_eq}
use revoot.Text.Search.{starts_with, strip_prefix}
use revoot.Snapshot.Change.{added, deleted, is_kind, ChangedPath}
use revoot.Diff.{
  old_side, new_side, Parse, reject, refuse_if, incomplete_file_header, duplicate_file_header,
  file_header_mismatch, unexpected_prelude, no_hunks,
}
use revoot.Diff.Header.{is_hunk_header, is_metadata_line, reject_unsupported}
use revoot.Diff.Lines.{number_of}

abbrev expected_old_header : ChangedPath → Str
expected_old_header path =
    if is_kind path.kind added then lit "/dev/null" else lit "a/" ++ path.old_path.as_str

abbrev expected_new_header : ChangedPath → Str
expected_new_header path =
    if is_kind path.kind deleted then lit "/dev/null" else lit "b/" ++ path.new_path.as_str

-- which headers `parse_prelude` has seen
pub record Seen : Type 0 where
  pub diff_header : Bool
  pub old_header : Bool
  pub new_header : Bool

abbrev pub seen_nothing : Seen
seen_nothing = record { diff_header = false; old_header = false; new_header = false }

-- `saw_old_header != saw_new_header || (saw_diff_header && !saw_new_header)`
abbrev pub half_seen : Seen → Bool
half_seen s =
    (s.old_header && not s.new_header)
    || (not s.old_header && s.new_header)
    || (s.diff_header && not s.new_header)

unfoldable see_old : ChangedPath → Str → ℕ → Seen → Parse Seen
unfolding str_eq
see_old path header_path line s =
    and_then (refuse_if (s.old_header || s.new_header) (duplicate_file_header line)) λ _.
      and_then
        (refuse_if (not (str_eq header_path (expected_old_header path)))
          (file_header_mismatch line old_side))
        λ _. ok (record s { old_header = true })

unfoldable see_new : ChangedPath → Str → ℕ → Seen → Parse Seen
unfolding str_eq
see_new path header_path line s =
    and_then (refuse_if (not s.old_header || s.new_header) (duplicate_file_header line)) λ _.
      and_then
        (refuse_if (not (str_eq header_path (expected_new_header path)))
          (file_header_mismatch line new_side))
        λ _. ok (record s { new_header = true })

-- the lines of a prelude that name no file
unfoldable see_other : Str → ℕ → Seen → Parse Seen
unfolding starts_with is_metadata_line
see_other line line_number s =
    if starts_with line (lit "diff --git ")
    then (if s.diff_header || s.old_header || s.new_header
        then reject (unexpected_prelude line_number)
        else ok (record s { diff_header = true }))
    else if is_metadata_line line && not s.old_header
    then ok s
    else reject (unexpected_prelude line_number)

unfoldable pub see_line : ChangedPath → Str → ℕ → Seen → Parse Seen
unfolding strip_prefix see_old see_new see_other
see_line path line line_number s = elim (strip_prefix line (lit "--- ")) [
  | some header_path ↦ see_old path header_path line_number s
  | none ↦ elim (strip_prefix line (lit "+++ ")) [
    | some header_path ↦ see_new path header_path line_number s
    | none ↦ see_other line line_number s
  ]
]

-- The loop of `parse_prelude`: the cursor at the first header of a hunk, and the lines from it on.
unfoldable pub parse_prelude : ChangedPath → Seen → ℕ → List Str → Parse (ℕ × List Str)
unfolding reject_unsupported is_hunk_header see_line
parse_prelude path s cursor [] =
    if half_seen s then reject (incomplete_file_header (number_of cursor)) else reject no_hunks
parse_prelude path s cursor (line ∷ lines) =
    and_then (reject_unsupported line (number_of cursor)) λ _. elim (is_hunk_header line) [
      | true ↦
          and_then (refuse_if (half_seen s) (incomplete_file_header (number_of cursor)))
            λ _. ok (cursor, line ∷ lines)
      | false ↦
          and_then (see_line path line (number_of cursor) s)
            λ t. parse_prelude path t (cursor + 1) lines
    ]
