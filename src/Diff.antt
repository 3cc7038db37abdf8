-- ===== src/Diff.antt =====
-- crates/revoot-core/src/diff.rs: limits, errors and results of the parser of one file's diff.
pub mod Header
pub mod Hunk
pub mod Digest
pub mod Lines
pub mod Preamble
pub mod Rounds
pub mod Parser
pub mod Hunks
pub mod Stepped
pub mod Consumed
pub mod Marks
pub mod Parts
pub mod Ends
pub mod Added
pub mod Sound
pub mod Declared
pub mod Received
pub mod Commented
pub mod Account
pub mod Ending
pub mod Calls
pub mod Calm
pub mod Samples
pub mod Tests
use revoot.Prelude.{ℕ, ◌*◌, Bool, ◌&&◌, List, ltb, leb, Result, err, reject_if}
use revoot.Snapshot.{Sha256Digest}
use revoot.Snapshot.Change.{ChangedPathIssue}
use revoot.Snapshot.Position.{CommentableLine}

pub record UnifiedDiffLimits : Type 0 where
  pub max_input_bytes : ℕ  -- usize
  pub max_input_lines : ℕ  -- u32
  pub max_line_bytes : ℕ  -- usize
  pub max_hunks : ℕ  -- u32
  pub max_lines_per_hunk : ℕ  -- u32
  pub max_commentable_lines : ℕ  -- u32
  pub context_radius_lines : ℕ  -- u32

abbrev pub default_limits : UnifiedDiffLimits
default_limits = record {
  max_input_bytes = 2 * 1024 * 1024;
  max_input_lines = 100_000;
  max_line_bytes = 64 * 1024;
  max_hunks = 4_096;
  max_lines_per_hunk = 50_000;
  max_commentable_lines = 100_000;
  context_radius_lines = 3;
}

unfoldable pub limits_valid : UnifiedDiffLimits → Bool
limits_valid l =
    ltb 0 l.max_input_bytes
    && ltb 0 l.max_input_lines
    && ltb 0 l.max_line_bytes
    && ltb 0 l.max_hunks
    && ltb 0 l.max_lines_per_hunk
    && ltb 0 l.max_commentable_lines
    && leb l.context_radius_lines l.max_lines_per_hunk

pub data DiffSide : Type 0 where
  old_side new_side : DiffSide

pub data UnifiedDiffError : Type 0 where
  invalid_limits empty_input missing_final_line_feed no_hunks : UnifiedDiffError
  invalid_changed_path : ChangedPathIssue → UnifiedDiffError
  input_too_large too_many_input_lines : (observed maximum : ℕ) → UnifiedDiffError
  line_too_long : (line observed maximum : ℕ) → UnifiedDiffError
  invalid_utf8 : (valid_up_to : ℕ) → UnifiedDiffError
  embedded_carriage_return combined_diff binary_diff : (line : ℕ) → UnifiedDiffError
  unexpected_prelude duplicate_file_header : (line : ℕ) → UnifiedDiffError
  incomplete_file_header malformed_hunk_header : (line : ℕ) → UnifiedDiffError
  numeric_overflow empty_hunk unexpected_hunk_line : (line : ℕ) → UnifiedDiffError
  no_newline_marker_without_content : (line : ℕ) → UnifiedDiffError
  duplicate_no_newline_marker file_change_line_mismatch : (line : ℕ) → UnifiedDiffError
  unexpected_trailing_content : (line : ℕ) → UnifiedDiffError
  file_header_mismatch invalid_range_start : (line : ℕ) → DiffSide → UnifiedDiffError
  hunk_count_exceeded line_number_overflow : (line : ℕ) → DiffSide → UnifiedDiffError
  too_many_hunks too_many_commentable_lines : (maximum : ℕ) → UnifiedDiffError
  declared_hunk_too_large : (line : ℕ) → DiffSide → (declared maximum : ℕ) → UnifiedDiffError
  too_many_lines_in_hunk : (hunk_header_line maximum : ℕ) → UnifiedDiffError
  hunk_count_mismatch :
      (hunk_header_line expected_old observed_old expected_new observed_new : ℕ) → UnifiedDiffError

-- How a call ends without a result: by an error that it returns, or by a panic, here that of a
-- slice which cuts a character in two.
pub data DiffFailure : Type 0 where
  rejected : UnifiedDiffError → DiffFailure
  panicked : DiffFailure

abbrev pub Parse : Type 0 → Type 0
Parse A = Result DiffFailure A

abbrev pub reject : {A : Type 0} → UnifiedDiffError → Parse A
reject e = err (rejected e)

abbrev pub refuse_if : Bool → UnifiedDiffError → Parse (Unit {0})
refuse_if b e = reject_if b (rejected e)

pub record ParsedFileDiff : Type 0 where
  pub input_sha256 : Sha256Digest
  pub hunk_count : ℕ  -- u32
  pub commentable_lines : List CommentableLine
