-- ===== src/Diff/Lines.antt =====
-- crates/revoot-core/src/diff.rs: the lines of the input, and their numbers.
use revoot.Prelude.{
  ℕ, ◌+◌, not, List, [], ◌∷◌, ltb, leb, ◌==◌, if◌then◌else◌, is_empty, any, length, ok, and_then,
  map_err, u32_max, saturating_add,
}
use revoot.Text.{Str, lit, len}
use revoot.Text.Search.{ends_with}
use revoot.Text.Split.{split, from_utf8}
use revoot.Diff.{
  UnifiedDiffLimits, rejected, Parse, refuse_if, empty_input, input_too_large, invalid_utf8,
  missing_final_line_feed, too_many_input_lines, line_too_long, embedded_carriage_return,
}

-- `u32::try_from(..).unwrap_or(MAX).saturating_add(1)`
abbrev pub number_of : ℕ → ℕ
number_of n = saturating_add u32_max (if leb n u32_max then n else u32_max) 1

-- `text[..text.len() - 1]`, where the text ends with a line feed
abbrev pub drop_last : Str → Str
drop_last [] = []
drop_last (c ∷ []) = []
drop_last (c ∷ d ∷ s) = c ∷ drop_last (d ∷ s)

-- `strip_suffix('\r').unwrap_or(..)`
unfoldable pub strip_cr : Str → Str
strip_cr [] = []
strip_cr (c ∷ []) = if c == 0xd then [] else c ∷ []
strip_cr (c ∷ d ∷ s) = c ∷ strip_cr (d ∷ s)

-- the checks on one raw line
unfoldable pub check_raw : UnifiedDiffLimits → ℕ → Str → Parse (Unit {0})
unfolding len strip_cr
check_raw limits line raw =
    and_then
      (refuse_if (ltb limits.max_input_lines line)
        (too_many_input_lines line limits.max_input_lines))
      λ _.
        and_then
          (refuse_if (ltb limits.max_line_bytes (len raw))
            (line_too_long line (len raw) limits.max_line_bytes))
          λ _. refuse_if (any (λ c. c == 0xd) (strip_cr raw)) (embedded_carriage_return line)

-- the loop over the raw lines, after that many
unfoldable pub normalized_lines : UnifiedDiffLimits → ℕ → List Str → Parse (List Str)
unfolding check_raw
normalized_lines limits done [] = ok []
normalized_lines limits done (raw ∷ raws) =
    and_then (check_raw limits (number_of done) raw)
      λ _. and_then (normalized_lines limits (done + 1) raws) λ lines. ok (strip_cr raw ∷ lines)

unfoldable pub validated_lines : List ℕ → UnifiedDiffLimits → Parse (List Str)
unfolding from_utf8 ends_with normalized_lines
validated_lines input limits = and_then (refuse_if (is_empty input) empty_input) λ _.
    and_then
      (refuse_if (ltb limits.max_input_bytes (length input))
        (input_too_large (length input) limits.max_input_bytes))
      λ _. and_then (map_err (λ at. rejected (invalid_utf8 at)) (from_utf8 input)) λ text.
        and_then (refuse_if (not (ends_with text (lit "\n"))) missing_final_line_feed)
          λ _. normalized_lines limits 0 (split 0xa (drop_last text))
