-- ===== src/Diff/Parser.antt =====
-- crates/revoot-core/src/diff.rs: the parser. Its cursor is kept with the lines from it on.
use revoot.Prelude.{
  ℕ, zero, suc, ◌+◌, not, ◌||◌, Option, none, some, List, [], ◌∷◌, ◌++◌, ltb, ◌==◌, if◌then◌else◌,
  length, ok, err, and_then, u32_max, u64_max, checked_add, is_none_or,
}
use revoot.Text.{Str}
use revoot.Snapshot.{Sha256Digest}
use revoot.Snapshot.Change.{ChangedPath, semantic_issue}
use revoot.Snapshot.Position.{CommentableLine}
use revoot.Diff.{
  UnifiedDiffLimits, limits_valid, Parse, reject, refuse_if, ParsedFileDiff, invalid_limits,
  invalid_changed_path, no_hunks, too_many_commentable_lines, unexpected_trailing_content,
  too_many_hunks,
}
use revoot.Diff.Header.{is_hunk_header, reject_unsupported, parse_hunk_header}
use revoot.Diff.Hunk.{HunkLine, new_accounting, no_record}
use revoot.Diff.Digest.{exact_line_digest, context_digest}
use revoot.Diff.Lines.{number_of, validated_lines}
use revoot.Diff.Preamble.{parse_prelude, seen_nothing}
use revoot.Diff.Rounds.{parse_hunk}

pub record Parser : Type 0 where
  pub cursor : ℕ
  pub lines : List Str
  pub hunk_count : ℕ  -- u32
  pub commentable_lines : List CommentableLine

abbrev pub option_map {ℓ κ} : {A : Type ℓ} {B : Type κ} → (A → B) → Option A → Option B
option_map f none = none
option_map f (some a) = some (f a)

abbrev pub path_issue : ChangedPath → Parse (Unit {0})
path_issue path = elim (semantic_issue path) [
  | none ↦ ok tt
  | some issue ↦ reject (invalid_changed_path issue)
]

module _ (sha256 : List ℕ → Sha256Digest) where
  unfoldable pub commentable :
      ChangedPath → UnifiedDiffLimits → List HunkLine → ℕ → List HunkLine → List CommentableLine
  commentable path limits records index [] = []
  commentable path limits records index (r ∷ rs) =
      record {
        path = path;
        position = r.position;
        exact_line_digest = exact_line_digest sha256 r;
        context_digest = context_digest sha256 records index limits.context_radius_lines;
      }
      ∷ commentable path limits records (index + 1) rs

  unfoldable pub append_commentable_lines :
      ChangedPath
      → UnifiedDiffLimits
      → List HunkLine
      → List CommentableLine
      → Parse (List CommentableLine)
  unfolding commentable
  append_commentable_lines path limits records lines =
      and_then
        (refuse_if
          (is_none_or (checked_add u64_max (length lines) (length records))
            (λ n. ltb u32_max n || ltb limits.max_commentable_lines n))
          (too_many_commentable_lines limits.max_commentable_lines))
        λ _. ok (lines ++ commentable path limits records 0 records)

  -- one round of the loop of `parse_hunks`, at the line `line`
  unfoldable pub hunks_round :
      ChangedPath → UnifiedDiffLimits → Parser → Str → List Str → Parse Parser
  unfolding reject_unsupported is_hunk_header parse_hunk_header parse_hunk append_commentable_lines
  hunks_round path limits p line lines =
      and_then (reject_unsupported line (number_of p.cursor)) λ _.
        and_then
          (refuse_if (not (is_hunk_header line)) (unexpected_trailing_content (number_of p.cursor)))
          λ _.
            and_then
              (refuse_if (p.hunk_count == limits.max_hunks) (too_many_hunks limits.max_hunks))
              λ _. and_then (parse_hunk_header line (number_of p.cursor) limits) λ header.
                and_then
                  (parse_hunk path limits (new_accounting header) [] no_record (p.cursor + 1) lines)
                  λ hunk.
                    and_then (append_commentable_lines path limits hunk.0 p.commentable_lines)
                      λ all_lines. ok (record {
                        cursor = hunk.1;
                        lines = hunk.2;
                        hunk_count = p.hunk_count + 1;
                        commentable_lines = all_lines;
                      })

  -- The loop of `parse_hunks`, on fuel.
  unfoldable pub parse_hunks : ℕ → ChangedPath → UnifiedDiffLimits → Parser → Option (Parse Parser)
  unfolding hunks_round
  parse_hunks zero path limits p = none
  parse_hunks (suc fuel) path limits p = elim p.lines [
    | [] ↦ some (if p.hunk_count == 0 then reject no_hunks else ok p)
    | line ∷ lines ↦ elim (hunks_round path limits p line lines) [
      | err e ↦ some (err e)
      | ok q ↦ parse_hunks fuel path limits q
    ]
  ]

  abbrev pub result_of : List ℕ → Parse Parser → Parse ParsedFileDiff
  result_of input r = and_then r λ p. ok (record {
    input_sha256 = sha256 input;
    hunk_count = p.hunk_count;
    commentable_lines = p.commentable_lines;
  })

  -- Each hunk takes a line at least, so one round more than there are lines is enough.
  unfoldable pub parse_lines : ChangedPath → UnifiedDiffLimits → List Str → Option (Parse Parser)
  unfolding parse_prelude parse_hunks
  parse_lines path limits lines = elim (parse_prelude path seen_nothing 0 lines) [
    | err e ↦ some (err e)
    | ok (cursor, rest) ↦
        parse_hunks (length lines + 1) path limits
          (record { cursor = cursor; lines = rest; hunk_count = 0; commentable_lines = [] })
  ]

  unfoldable pub parse_gitlab_file_diff :
      ChangedPath → List ℕ → UnifiedDiffLimits → Option (Parse ParsedFileDiff)
  unfolding limits_valid semantic_issue validated_lines parse_lines
  parse_gitlab_file_diff path input limits =
      elim (and_then (refuse_if (not (limits_valid limits)) invalid_limits)
        λ _. and_then (path_issue path) λ _. validated_lines input limits) [
          | err e ↦ some (err e)
          | ok lines ↦ option_map (result_of input) (parse_lines path limits lines)
        ]
