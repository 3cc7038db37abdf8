-- ===== src/Diff/Account.antt =====
-- crates/revoot-core/src/diff.rs: the result of the parser, against the text that it was given.
use revoot.Prelude.{
  ℕ, ◌+◌, ◌≤◌, ◌<◌, ◌≡◌, ◌∙◌, refl, sym, ap, subst, map, All, not, List, [], ◌++◌, append_nil,
  arith, ok, Option, some, none, some_inj, ok_inj, length, and_then, and_then-ok, inl, inr,
  Result-cases,
}
use revoot.Text.{Str}
use revoot.Snapshot.{Sha256Digest}
use revoot.Snapshot.Change.{ChangedPath}
use revoot.Snapshot.Position.{CommentableLine}
use revoot.Diff.{UnifiedDiffLimits, limits_valid, refuse_if, ParsedFileDiff, invalid_limits}
use revoot.Diff.Lines.{validated_lines}
use revoot.Diff.Preamble.{parse_prelude, seen_nothing}
use revoot.Diff.Hunks.{Hunk, all_printed, AllHunks}
use revoot.Diff.Parser.{
  Parser, parse_lines, result_of, option_map, path_issue, parse_gitlab_file_diff,
}
use revoot.Diff.Added.{commentable_of}
use revoot.Diff.Declared.{Declares}
use revoot.Diff.Received.{IsText, validated_lines-IsText}
use revoot.Diff.Commented.{
  IsHeadless, NoHeader-IsHeadless, positions, AllHunks-Declares, commentable_of-positions,
  commentable_of-path,
}
use revoot.Diff.Sound.{parse_hunks-IsParsed, parse_prelude-Splits}

module _ (sha256 : List ℕ → Sha256Digest) (path : ChangedPath) (limits : UnifiedDiffLimits) where
  -- The lines are those before the first header and then, in order, those that the hunks spell; each
  -- hunk has the two numbers of lines that the text of its header declares, numbered from where it
  -- says; and the lines to comment on are those of the hunks.
  pub record IsAccount (lines : List Str) (hunk_count : ℕ) (commentable : List CommentableLine)
      : Type 0 where
    pub prelude : List Str
    pub hunks : List Hunk
    pub spelled : lines ≡ prelude ++ all_printed hunks
    pub headless : IsHeadless prelude
    pub each : AllHunks path limits hunks
    pub declared : All (λ h. Declares h.header_line h.header) hunks
    pub counted : hunk_count ≡ length hunks
    pub some_hunk : 0 < hunk_count
    pub hunks_within : hunk_count ≤ limits.max_hunks
    pub comments : commentable ≡ commentable_of sha256 path limits hunks
    pub placed : map (λ c. c.position) commentable ≡ positions hunks
    pub of_path : All (λ c. c.path ≡ path) commentable
    pub comments_within : length commentable ≤ limits.max_commentable_lines

  parse_lines-IsAccount :
      (lines : List Str) {p : Parser}
      → parse_lines sha256 path limits lines ≡ some (ok p)
      → IsAccount lines p.hunk_count p.commentable_lines
  unfolding parse_lines
  parse_lines-IsAccount lines {p} h =
      elim (Result-cases (parse_prelude path seen_nothing 0 lines)) [
        | inl ((cursor, rest), e) ↦
            let before =
              parse_prelude-Splits path seen_nothing 0 lines {end = cursor} {rest = rest} e in
            let found =
              parse_hunks-IsParsed sha256 path limits (length lines + 1)
                (record { cursor = cursor; lines = rest; hunk_count = 0; commentable_lines = [] })
                {q = p} (rw (parse_lines, e) at h) in
            record {
              prelude = before.0;
              hunks = found.0;
              spelled =
                  before.1
                  ∙ ap (λ l. before.0 ++ l)
                      (found.1.lines
                        ∙ ap (λ l. all_printed found.0 ++ l) found.2
                        ∙ append_nil (all_printed found.0));
              headless = NoHeader-IsHeadless before.0 before.2;
              each = found.1.each;
              declared = AllHunks-Declares sha256 path limits found.0 found.1.each;
              counted = omega (arith, found.1.count);
              some_hunk = found.3;
              hunks_within = found.1.hunks_within (omega arith);
              comments = found.1.commentable;
              placed =
                  ap (map (λ c. c.position)) found.1.commentable
                  ∙ commentable_of-positions sha256 path limits found.0;
              of_path =
                  subst (All (λ c. c.path ≡ path)) (sym found.1.commentable)
                    (commentable_of-path sha256 path limits found.0);
              comments_within = found.1.lines_within (omega arith);
            }
        | inr (e, failed) ↦ absurd (ground (arith, rw (parse_lines, failed) at h))
      ]

  option_map-some :
      {A B : Type 0} (f : A → B) (o : Option A) {b : B}
      → option_map f o ≡ some b
      → (a : A) × (o ≡ some a) × (f a ≡ b)
  option_map-some f (some a) h = (a, refl, some_inj h)
  option_map-some f none h = cc

  -- What is parsed accounts for every line of the input: the input is the UTF-8 of the lines, each
  -- with its end; the lines are those before the first header of a hunk, and then the lines that one
  -- hunk or more spell, with their markers; each hunk has as many lines on either side as the text of
  -- its header declares, where a number that is left out is 1, numbered from where the header says,
  -- of kinds that the change allows; the lines to comment on are those of the hunks, in order, at
  -- their positions and of the path; and the limits on both hold.
  pub parse_gitlab_file_diff-IsAccount :
      (input : List ℕ) {d : ParsedFileDiff}
      → parse_gitlab_file_diff sha256 path input limits ≡ some (ok d)
      → (lines : List Str) × (validated_lines input limits ≡ ok lines)
        × IsText input lines
        × IsAccount lines d.hunk_count d.commentable_lines
        × (d.input_sha256 ≡ sha256 input)
  unfolding parse_gitlab_file_diff
  parse_gitlab_file_diff-IsAccount input {d} h =
      elim (Result-cases (
        and_then (refuse_if (not (limits_valid limits)) invalid_limits)
          λ _. and_then (path_issue path) λ _. validated_lines input limits)) [
            | inl (lines, e) ↦
                let s1 = and_then-ok (refuse_if (not (limits_valid limits)) invalid_limits) _ e in
                let s2 = and_then-ok (path_issue path) _ s1.2 in
                let o =
                  option_map-some (result_of sha256 input) (parse_lines sha256 path limits lines)
                    (rw (parse_gitlab_file_diff, e) at h) in
                let p = and_then-ok o.0 _ o.2 in
                let account = parse_lines-IsAccount lines (o.1 ∙ ap some p.1) in
                subst
                  (λ d.
                    (lines : List Str) × (validated_lines input limits ≡ ok lines)
                    × IsText input lines
                    × IsAccount lines d.hunk_count d.commentable_lines
                    × (d.input_sha256 ≡ sha256 input))
                  (ok_inj p.2)
                  (lines, s2.2, validated_lines-IsText input limits s2.2, account, refl)
            | inr (e, failed) ↦ absurd (ground (arith, rw (parse_gitlab_file_diff, failed) at h))
          ]
