-- ===== src/Diff/Ending.antt =====
-- crates/revoot-core/src/diff.rs: the fuel of the parser.
use revoot.Prelude.{
  ℕ, zero, suc, ◌+◌, ◌<◌, ◌≢◌, refl, ap, not, List, [], arith, Option, some, none, length,
  length-append, and_then, inl, inr, List-cases, Result-cases,
}
use revoot.Text.{Str}
use revoot.Snapshot.{Sha256Digest}
use revoot.Snapshot.Change.{ChangedPath}
use revoot.Diff.{UnifiedDiffLimits, limits_valid, refuse_if, invalid_limits}
use revoot.Diff.Lines.{validated_lines}
use revoot.Diff.Preamble.{parse_prelude, seen_nothing}
use revoot.Diff.Parser.{
  Parser, hunks_round, parse_hunks, parse_lines, result_of, option_map, path_issue,
  parse_gitlab_file_diff,
}
use revoot.Diff.Added.{hunks_round-IsParsed}
use revoot.Diff.Sound.{parse_prelude-Splits}

option_map-ne-none : {A B : Type 0} (f : A → B) (o : Option A) → o ≢ none → option_map f o ≢ none
option_map-ne-none f (some a) h e = cc
option_map-ne-none f none h e = h refl

module _ (sha256 : List ℕ → Sha256Digest) (path : ChangedPath) (limits : UnifiedDiffLimits) where
  parse_hunks-ne-none :
      (fuel : ℕ) (p : Parser) → length p.lines < fuel → parse_hunks sha256 fuel path limits p ≢ none
  unfolding parse_hunks
  parse_hunks-ne-none zero p h e = absurd (omega (arith, h))
  parse_hunks-ne-none (suc fuel) p h e = elim (List-cases p.lines) [
    | inl ended ↦ ground (arith, rw (parse_hunks, ended) at e)
    | inr (line, lines, at) ↦ elim (Result-cases (hunks_round sha256 path limits p line lines)) [
      | inl (next, went) ↦
          let shorter = (hunks_round-IsParsed sha256 path limits p line lines at went).2 in
          let all = ap length at in
          parse_hunks-ne-none fuel next (omega (arith, h, shorter, all))
            (rw went at rw (parse_hunks, at) at e)
      | inr (e', failed) ↦ ground (arith, rw failed at rw (parse_hunks, at) at e)
    ]
  ]

  parse_lines-ne-none : (lines : List Str) → parse_lines sha256 path limits lines ≢ none
  unfolding parse_lines
  parse_lines-ne-none lines e = elim (Result-cases (parse_prelude path seen_nothing 0 lines)) [
    | inl ((cursor, rest), went) ↦
        let before =
          parse_prelude-Splits path seen_nothing 0 lines {end = cursor} {rest = rest} went in
        let all = ap length before.1 in
        parse_hunks-ne-none (length lines + 1)
          (record { cursor = cursor; lines = rest; hunk_count = 0; commentable_lines = [] })
          (omega (arith, all, length-append before.0 rest)) (rw (parse_lines, went) at e)
    | inr (e', failed) ↦ ground (arith, rw (parse_lines, failed) at e)
  ]

  -- The parser ends on every input, whatever the path and the limits: one round of its loop over the
  -- hunks more than there are lines is enough.
  pub parse_gitlab_file_diff-ends :
      (input : List ℕ) → parse_gitlab_file_diff sha256 path input limits ≢ none
  unfolding parse_gitlab_file_diff
  parse_gitlab_file_diff-ends input e =
      elim (Result-cases (
        and_then (refuse_if (not (limits_valid limits)) invalid_limits)
          λ _. and_then (path_issue path) λ _. validated_lines input limits)) [
            | inl (lines, went) ↦
                option_map-ne-none (result_of sha256 input) (parse_lines sha256 path limits lines)
                  (parse_lines-ne-none lines) (rw (parse_gitlab_file_diff, went) at e)
            | inr (e', failed) ↦ ground (arith, rw (parse_gitlab_file_diff, failed) at e)
          ]
