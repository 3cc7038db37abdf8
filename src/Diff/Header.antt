-- ===== src/Diff/Header.antt =====
-- crates/revoot-core/src/diff.rs: lines outside of hunks, and the headers of hunks.
use revoot.Prelude.{
  ℕ, ◌-◌, Bool, not, ◌&&◌, ◌||◌, none, some, List, [], ◌∷◌, ltb, ◌==◌, if◌then◌else◌, is_empty,
  is_some, any, ok, and_then, u32_max, checked_add,
}
use revoot.Text.{Str, lit, len, str_eq, all_bytes, is_ascii_digit}
use revoot.Text.Search.{starts_with, strip_prefix, ends_with, contains}
use revoot.Text.Split.{split_once, parse_u32}
use revoot.Diff.{
  UnifiedDiffLimits, DiffSide, old_side, new_side, combined_diff, binary_diff,
  malformed_hunk_header, numeric_overflow, invalid_range_start, empty_hunk, declared_hunk_too_large,
  Parse, reject, refuse_if,
}

unfoldable pub is_hunk_header : Str → Bool
unfolding starts_with
is_hunk_header line = starts_with line (lit "@@ ") || starts_with line (lit "@@-")

abbrev metadata_prefixes : List Str
metadata_prefixes =
    lit "index "
    ∷ lit "old mode "
    ∷ lit "new mode "
    ∷ lit "deleted file mode "
    ∷ lit "new file mode "
    ∷ lit "similarity index "
    ∷ lit "dissimilarity index "
    ∷ lit "rename from "
    ∷ lit "rename to "
    ∷ lit "copy from "
    ∷ lit "copy to "
    ∷ []

unfoldable pub is_metadata_line : Str → Bool
unfolding starts_with
is_metadata_line line = any (starts_with line) metadata_prefixes

unfoldable pub reject_unsupported : Str → ℕ → Parse (Unit {0})
unfolding starts_with ends_with str_eq
reject_unsupported line line_number =
    and_then
      (refuse_if
        (starts_with line (lit "diff --cc ")
          || starts_with line (lit "diff --combined ")
          || starts_with line (lit "@@@"))
        (combined_diff line_number))
      λ _.
        refuse_if
          (str_eq line (lit "GIT binary patch")
            || (starts_with line (lit "Binary files ") && ends_with line (lit " differ")))
          (binary_diff line_number)

pub record HunkRange : Type 0 where
  pub first : ℕ  -- u32, `start` in the source
  pub count : ℕ  -- u32

pub record HunkHeader : Type 0 where
  pub line : ℕ  -- u32
  pub old : HunkRange
  pub new : HunkRange

unfoldable pub parse_decimal : Str → ℕ → Parse ℕ
unfolding len starts_with parse_u32
parse_decimal value line =
    and_then
      (refuse_if
        (is_empty value
          || not (all_bytes is_ascii_digit value)
          || (ltb 1 (len value) && starts_with value (lit "0")))
        (malformed_hunk_header line))
      λ _. elim (parse_u32 value) [ none ↦ reject (numeric_overflow line) | some n ↦ ok n ]

-- the two numbers of a range; a count that is left out is 1
unfoldable pub range_numbers : Str → ℕ → Parse (ℕ × ℕ)
unfolding split_once contains parse_decimal
range_numbers value line = elim (split_once (lit ",") value) [
  | none ↦ and_then (parse_decimal value line) λ first. ok (first, 1)
  | some (before, after) ↦
      if contains after (lit ",")
      then reject (malformed_hunk_header line)
      else and_then (parse_decimal before line)
          λ first. and_then (parse_decimal after line) λ count. ok (first, count)
]

unfoldable pub parse_hunk_range : Str → ℕ → DiffSide → Parse HunkRange
unfolding range_numbers
parse_hunk_range value line side = and_then (range_numbers value line) λ numbers.
    let (first, count) = numbers in
    and_then (refuse_if (ltb 0 count && first == 0) (invalid_range_start line side)) λ _.
      and_then
        (refuse_if (ltb 0 count && not (is_some (checked_add u32_max first (count - 1))))
          (numeric_overflow line))
        λ _. ok (record { first = first; count = count })

-- one round of the loop over the two sides
abbrev pub check_declared : UnifiedDiffLimits → ℕ → DiffSide → HunkRange → Parse (Unit {0})
check_declared limits line side range =
    refuse_if (ltb limits.max_lines_per_hunk range.count)
      (declared_hunk_too_large line side range.count limits.max_lines_per_hunk)

-- the ranges and what follows the second `@@`
unfoldable pub header_ranges : Str → ℕ → Parse (Str × Str)
unfolding starts_with strip_prefix split_once
header_ranges value line = elim (strip_prefix value (lit "@@ -")) [
  | none ↦ reject (malformed_hunk_header line)
  | some rest ↦ elim (split_once (lit " @@") rest) [
    | none ↦ reject (malformed_hunk_header line)
    | some (ranges, section) ↦
        and_then
          (refuse_if (not (is_empty section) && not (starts_with section (lit " ")))
            (malformed_hunk_header line))
          λ _. elim (split_once (lit " +") ranges) [
            | none ↦ reject (malformed_hunk_header line)
            | some sides ↦ ok sides
          ]
  ]
]

unfoldable pub parse_hunk_header : Str → ℕ → UnifiedDiffLimits → Parse HunkHeader
unfolding starts_with header_ranges parse_hunk_range
parse_hunk_header value line limits =
    and_then (refuse_if (starts_with value (lit "@@@")) (combined_diff line)) λ _.
      and_then (header_ranges value line) λ sides.
        and_then (parse_hunk_range sides.0 line old_side) λ old.
          and_then (parse_hunk_range sides.1 line new_side) λ new.
            and_then (refuse_if (old.count == 0 && new.count == 0) (empty_hunk line)) λ _.
              and_then (check_declared limits line old_side old) λ _.
                and_then (check_declared limits line new_side new)
                  λ _. ok (record { line = line; old = old; new = new })
