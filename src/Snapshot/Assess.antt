-- ===== src/Snapshot/Assess.antt =====
-- crates/revoot-core/src/snapshot.rs: `SnapshotEvidence::assess`, up to the blobs.
use revoot.Prelude.{
  ℕ, Bool, true, false, not, ◌||◌, Option, none, some, List, [], ◌∷◌, ◌==◌, length, u32_max,
  filter_by,
}
use revoot.Set.{has, insert}
use revoot.Snapshot.Change.{ChangedPath, path_key, semantic_issue}
use revoot.Snapshot.Pages.{PaginationCompleteness, complete, partial, completeness, clamp}
use revoot.Snapshot.Evidence.{
  DiffVersionState, overflow, without_files, unknown, ChangedFileCount, exact, capped_at,
  unavailable, ChangedFile, unavailable_reason, CoverageGap, gap_key, diff_version_overflow,
  reported_changed_files_capped, reported_changed_files_unavailable,
  reported_changed_files_mismatch, current_diff_pagination_incomplete, current_diff_count_mismatch,
  current_diff_path_mismatch, diff_unavailable, SnapshotBlocker, blocker_key,
  diff_version_without_files, unknown_diff_version_state, duplicate_exact_changed_path,
  duplicate_current_changed_path, invalid_changed_path, SnapshotEvidence,
}

-- the two sets that the methods write to
pub record Found : Type 0 where
  pub blockers : List SnapshotBlocker
  pub gaps : List CoverageGap

abbrev pub block : Option SnapshotBlocker → Found → Found
block none f = f
block (some b) f = record f { blockers = insert blocker_key b f.blockers }

abbrev pub miss : Option CoverageGap → Found → Found
miss none f = f
miss (some g) f = record f { gaps = insert gap_key g f.gaps }

abbrev pub only_if {ℓ} : {A : Type ℓ} → Bool → A → Option A
only_if true a = some a
only_if false a = none

abbrev pub over {ℓ κ} : {A : Type ℓ} {B : Type κ} → (A → B) → Option A → Option B
over f none = none
over f (some a) = some (f a)

abbrev pub count_u32 {ℓ} : {A : Type ℓ} → List A → ℕ
count_u32 xs = clamp u32_max (length xs)

abbrev pub state_gap : DiffVersionState → Option CoverageGap
state_gap overflow = some diff_version_overflow
state_gap _ = none

abbrev pub state_blocker : DiffVersionState → Option SnapshotBlocker
state_blocker without_files = some diff_version_without_files
state_blocker (unknown value) = some (unknown_diff_version_state value)
state_blocker _ = none

abbrev pub reported_gap : ChangedFileCount → ℕ → Option CoverageGap
reported_gap (exact reported) exact_count =
    only_if (not (reported == exact_count)) (reported_changed_files_mismatch reported exact_count)
reported_gap (capped_at lower_bound) exact_count = some (reported_changed_files_capped lower_bound)
reported_gap unavailable exact_count = some reported_changed_files_unavailable

abbrev pub pages_gap : PaginationCompleteness → Option CoverageGap
pages_gap (complete pages items) = none
pages_gap (partial pages items reasons) = some (current_diff_pagination_incomplete reasons)

unfoldable pub assess_diff_evidence : SnapshotEvidence → Found → Found
unfolding completeness
assess_diff_evidence e f =
    let g = block (state_blocker e.diff_version_state) (miss (state_gap e.diff_version_state) f) in
    let h = miss (reported_gap e.reported_changed_files (count_u32 e.exact_version_files)) g in
    miss (pages_gap (completeness e.current_diffs)) h

abbrev pub invalid_path : ChangedPath → Option SnapshotBlocker
invalid_path path = over (invalid_changed_path path) (semantic_issue path)

-- The loops over paths; the set holds the paths before these.
unfoldable pub assess_exact_paths :
    List ChangedFile → List ChangedPath → Found → List ChangedPath × Found
unfolding semantic_issue unavailable_reason
assess_exact_paths [] paths f = (paths, f)
assess_exact_paths (file ∷ files) paths f =
    let g = block (invalid_path file.path) f in
    let known = has path_key (path_key file.path) paths in
    let h = block (only_if known (duplicate_exact_changed_path file.path)) g in
    let i = miss (over (diff_unavailable file.path) (unavailable_reason file.diff)) h in
    assess_exact_paths files (insert path_key file.path paths) i

unfoldable pub current_paths_of :
    List ChangedPath → List ChangedPath → Found → List ChangedPath × Found
unfolding semantic_issue
current_paths_of [] paths f = (paths, f)
current_paths_of (path ∷ rest) paths f =
    let g = block (invalid_path path) f in
    let known = has path_key (path_key path) paths in
    let h = block (only_if known (duplicate_current_changed_path path)) g in
    current_paths_of rest (insert path_key path paths) h

-- `difference`
abbrev pub difference : List ChangedPath → List ChangedPath → List ChangedPath
difference s t = filter_by (λ p. not (has path_key (path_key p) t)) s

abbrev pub count_gap : ℕ → ℕ → Option CoverageGap
count_gap current exact_count =
    only_if (not (current == exact_count)) (current_diff_count_mismatch current exact_count)

abbrev pub difference_gap : ℕ → ℕ → Option CoverageGap
difference_gap only_current only_exact =
    only_if (not (only_current == 0) || not (only_exact == 0))
      (current_diff_path_mismatch only_current only_exact)

unfoldable pub assess_current_paths : SnapshotEvidence → List ChangedPath → Found → Found
unfolding current_paths_of
assess_current_paths e exact_paths f =
    let (current_paths, g) = current_paths_of e.current_diffs.items [] f in
    let h =
      miss (count_gap (count_u32 e.current_diffs.items) (count_u32 e.exact_version_files)) g in
    miss
      (difference_gap (count_u32 (difference current_paths exact_paths))
        (count_u32 (difference exact_paths current_paths)))
      h
