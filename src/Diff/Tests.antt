-- ===== src/Diff/Tests.antt =====
-- The parser on a small diff, and uses of its theorems there.
use revoot.Prelude.{◌≡◌, ◌≢◌, ◌↔◌, refl, List, [], ◌∷◌, some, none, ok, err}
use revoot.Text.{Str, lit}
use revoot.Diff.{default_limits, panicked}
use revoot.Diff.Hunk.{new_accounting, no_record}
use revoot.Diff.Lines.{validated_lines}
use revoot.Diff.Rounds.{hunk_round}
use revoot.Diff.Parser.{parse_gitlab_file_diff}
use revoot.Diff.Received.{IsText}
use revoot.Diff.Account.{IsAccount, parse_gitlab_file_diff-IsAccount}
use revoot.Diff.Ending.{parse_gitlab_file_diff-ends}
use revoot.Diff.Calm.{StartsWide, hunk_round-panicked_iff}
use revoot.Diff.Samples.{source_file, one_digest, one_hash, small_input, small_result, small_header}

small_parsed :
    parse_gitlab_file_diff one_hash source_file small_input default_limits ≡ some (ok small_result)
unfolding parse_gitlab_file_diff revoot.Text.Split.split_first revoot.Diff.Digest.exact_line_digest
    revoot.Diff.Digest.context_digest
small_parsed = refl

parse_gitlab_file_diff-IsAccount_example :
    (lines : List Str) × (validated_lines small_input default_limits ≡ ok lines)
    × IsText small_input lines
    × IsAccount one_hash source_file default_limits lines 1 small_result.commentable_lines
    × (one_digest ≡ one_digest)
parse_gitlab_file_diff-IsAccount_example =
    parse_gitlab_file_diff-IsAccount one_hash source_file default_limits small_input
      {d = small_result} small_parsed

parse_gitlab_file_diff-ends_example :
    parse_gitlab_file_diff one_hash source_file small_input default_limits ≢ none
parse_gitlab_file_diff-ends_example =
    parse_gitlab_file_diff-ends one_hash source_file default_limits small_input

-- a line that starts with a letter beyond ASCII
hunk_round-panicked_iff_example :
    (hunk_round source_file default_limits
        (0xe9 ∷ lit "t")
        4
        (new_accounting small_header)
        []
        no_record
      ≡ err panicked)
    ↔ StartsWide (0xe9 ∷ lit "t")
hunk_round-panicked_iff_example =
    hunk_round-panicked_iff source_file default_limits (0xe9 ∷ lit "t") 4
      (new_accounting small_header) [] no_record
