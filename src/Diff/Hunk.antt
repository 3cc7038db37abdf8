-- ===== src/Diff/Hunk.antt =====
-- crates/revoot-core/src/diff.rs: the lines of a hunk, and the account of its two sides.
use revoot.Prelude.{
  ℕ, ◌+◌, Bool, true, false, not, ◌&&◌, Option, none, some, List, [], ◌∷◌, ltb, leb, ◌==◌,
  if◌then◌else◌, Result, ok, err, and_then, map_err, u32_max, checked_add,
}
use revoot.Text.{Str}
use revoot.Snapshot.Change.{FileChangeKind, modified, renamed, added, deleted, ChangedPath}
use revoot.Snapshot.Position.{
  AnchorPosition, InvalidAnchorPosition, addition_at, deletion_at, context_at,
}
use revoot.Diff.{
  DiffSide, old_side, new_side, UnifiedDiffError, rejected, panicked, Parse, reject, refuse_if,
  unexpected_hunk_line, invalid_range_start, hunk_count_exceeded, line_number_overflow,
  hunk_count_mismatch, file_change_line_mismatch, no_newline_marker_without_content,
  duplicate_no_newline_marker,
}
use revoot.Diff.Header.{HunkHeader}

pub data HunkLineKind : Type 0 where
  context_line deletion_line addition_line : HunkLineKind

pub record HunkLine : Type 0 where
  pub kind : HunkLineKind
  pub position : AnchorPosition
  pub content : Str
  pub no_newline : Bool

pub record HunkAccounting : Type 0 where
  pub header : HunkHeader
  pub old_seen : ℕ  -- u32, as are the three below
  pub new_seen : ℕ
  pub old_line : ℕ
  pub new_line : ℕ

abbrev pub new_accounting : HunkHeader → HunkAccounting
new_accounting header = record {
  header = header;
  old_seen = 0;
  new_seen = 0;
  old_line = header.old.first;
  new_line = header.new.first;
}

abbrev pub complete : HunkAccounting → Bool
complete a = a.old_seen == a.header.old.count && a.new_seen == a.header.new.count

abbrev pub mismatch : HunkAccounting → UnifiedDiffError
mismatch a =
    hunk_count_mismatch a.header.line a.header.old.count a.old_seen a.header.new.count a.new_seen

abbrev pub line_kind_valid : FileChangeKind → HunkLineKind → Bool
line_kind_valid modified k = true
line_kind_valid renamed k = true
line_kind_valid added addition_line = true
line_kind_valid added k = false
line_kind_valid deleted deletion_line = true
line_kind_valid deleted k = false

abbrev pub validate_line_kind : FileChangeKind → HunkLineKind → ℕ → Parse (Unit {0})
validate_line_kind file_kind line_kind line =
    refuse_if (not (line_kind_valid file_kind line_kind)) (file_change_line_mismatch line)

abbrev pub require_remaining : DiffSide → ℕ → HunkAccounting → Parse (Unit {0})
require_remaining old_side line a =
    refuse_if (leb a.header.old.count a.old_seen) (hunk_count_exceeded line old_side)
require_remaining new_side line a =
    refuse_if (leb a.header.new.count a.new_seen) (hunk_count_exceeded line new_side)

-- `checked_add(1).ok_or(..)`, if there are lines to come on this side
abbrev pub next_line : Bool → ℕ → ℕ → DiffSide → Parse ℕ
next_line false at line side = ok at
next_line true at line side = elim (checked_add u32_max at 1) [
  | none ↦ reject (line_number_overflow line side)
  | some n ↦ ok n
]

unfoldable pub consume_old : ℕ → HunkAccounting → Parse HunkAccounting
consume_old line a =
    and_then (next_line (ltb (a.old_seen + 1) a.header.old.count) a.old_line line old_side)
      λ at. ok (record a { old_seen = a.old_seen + 1; old_line = at })

unfoldable pub consume_new : ℕ → HunkAccounting → Parse HunkAccounting
consume_new line a =
    and_then (next_line (ltb (a.new_seen + 1) a.header.new.count) a.new_line line new_side)
      λ at. ok (record a { new_seen = a.new_seen + 1; new_line = at })

abbrev pub or_invalid :
    ℕ → DiffSide → Result InvalidAnchorPosition AnchorPosition → Parse AnchorPosition
or_invalid line side r = map_err (λ _. rejected (invalid_range_start line side)) r

abbrev hunk_line : HunkLineKind → AnchorPosition → Str → HunkLine
hunk_line kind position content = record {
  kind = kind;
  position = position;
  content = content;
  no_newline = false;
}

-- the three branches of `consume`
unfoldable pub consume_context :
    ChangedPath → Str → ℕ → HunkAccounting → Parse (HunkLine × HunkAccounting)
unfolding consume_old consume_new context_at
consume_context path content line a = and_then (validate_line_kind path.kind context_line line) λ _.
    and_then (require_remaining old_side line a) λ _.
      and_then (require_remaining new_side line a) λ _.
        and_then
          (or_invalid line (if a.old_line == 0 then old_side else new_side)
            (context_at a.old_line a.new_line))
          λ position.
            and_then (consume_old line a) λ b.
              and_then (consume_new line b) λ c. ok (hunk_line context_line position content, c)

unfoldable pub consume_deletion :
    ChangedPath → Str → ℕ → HunkAccounting → Parse (HunkLine × HunkAccounting)
unfolding consume_old deletion_at
consume_deletion path content line a =
    and_then (validate_line_kind path.kind deletion_line line) λ _.
      and_then (require_remaining old_side line a) λ _.
        and_then (or_invalid line old_side (deletion_at a.old_line)) λ position.
          and_then (consume_old line a) λ b. ok (hunk_line deletion_line position content, b)

unfoldable pub consume_addition :
    ChangedPath → Str → ℕ → HunkAccounting → Parse (HunkLine × HunkAccounting)
unfolding consume_new addition_at
consume_addition path content line a =
    and_then (validate_line_kind path.kind addition_line line) λ _.
      and_then (require_remaining new_side line a) λ _.
        and_then (or_invalid line new_side (addition_at a.new_line)) λ position.
          and_then (consume_new line a) λ b. ok (hunk_line addition_line position content, b)

-- `&line[1..]` comes before the first byte is looked at, and panics where that byte is not the
-- whole of a character.
unfoldable pub consume : ChangedPath → Str → ℕ → HunkAccounting → Parse (HunkLine × HunkAccounting)
unfolding consume_context consume_deletion consume_addition
consume path [] line a = reject (unexpected_hunk_line line)
consume path (c ∷ content) line a =
    if leb 0x80 c
    then err panicked
    else if c == b' '
    then consume_context path content line a
    else if c == b'-'
    then consume_deletion path content line a
    else if c == b'+'
    then consume_addition path content line a
    else reject (unexpected_hunk_line line)

pub data MarkerState : Type 0 where
  no_record content_read marker_read : MarkerState

-- a write to the last record, if there is one
abbrev pub mark_last : List HunkLine → Option (List HunkLine)
mark_last [] = none
mark_last (r ∷ []) = some (record r { no_newline = true } ∷ [])
mark_last (r ∷ s ∷ rs) = elim (mark_last (s ∷ rs)) [ none ↦ none | some marked ↦ some (r ∷ marked) ]

-- the records after the marker; the state is then `marker_read`
unfoldable pub apply_no_newline_marker : List HunkLine → MarkerState → ℕ → Parse (List HunkLine)
apply_no_newline_marker records no_record line = reject (no_newline_marker_without_content line)
apply_no_newline_marker records marker_read line = reject (duplicate_no_newline_marker line)
apply_no_newline_marker records content_read line = elim (mark_last records) [
  | none ↦ reject (no_newline_marker_without_content line)
  | some marked ↦ ok marked
]
