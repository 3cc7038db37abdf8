-- ===== src/Snapshot/Blobs.antt =====
-- crates/revoot-core/src/snapshot.rs: `SnapshotEvidence::assess`, from the blobs on.
use revoot.Prelude.{
  ℕ, ◌+◌, ◌-◌, Bool, true, false, not, ◌&&◌, Option, none, some, List, [], ◌∷◌, leb, all, u32_max,
  u64_max, saturating_add, checked_add, is_empty, is_some, if◌then◌else◌,
}
use revoot.Set.{Key, has, insert, put, find}
use revoot.Snapshot.{DiffRefs}
use revoot.Snapshot.Change.{BlobRequest, request_key, expected_blobs}
use revoot.Snapshot.Evidence.{
  ChangedFileCount, exact, capped_at, unavailable, UnrepresentedFileCount, exactly, at_least,
  not_known, DiffAvailability, available, ChangedFile, file_content, lfs_pointer, BlobAcquisition,
  acquired, not_acquired, request, CoverageGap, blob_not_observed, blob_unavailable,
  lfs_pointer_not_expanded, duplicate_blob_evidence, unexpected_blob_evidence,
  included_byte_count_overflow, SnapshotEvidence, SnapshotReadiness, ready, incomplete, blocked_by,
  SnapshotAssessment,
}
use revoot.Snapshot.Assess.{
  Found, block, miss, only_if, count_u32, assess_diff_evidence, assess_exact_paths,
  assess_current_paths,
}

abbrev pub acquisition_key : BlobAcquisition → Key
acquisition_key a = request_key (request a)

abbrev pub insert_all : List BlobRequest → List BlobRequest → List BlobRequest
insert_all [] s = s
insert_all (r ∷ rs) s = insert_all rs (insert request_key r s)

unfoldable pub expected_requests : DiffRefs → List ChangedFile → List BlobRequest → List BlobRequest
unfolding expected_blobs
expected_requests refs [] s = s
expected_requests refs (file ∷ files) s =
    expected_requests refs files (insert_all (expected_blobs file.path refs) s)

-- The loop over the blobs. The map is kept as the set of its values, whose requests are its keys.
unfoldable pub observe :
    List BlobRequest
    → List BlobAcquisition
    → List BlobAcquisition
    → Found
    → List BlobAcquisition × Found
observe expected [] observed f = (observed, f)
observe expected (a ∷ blobs) observed f =
    let key = acquisition_key a in
    if not (has request_key key expected)
    then observe expected blobs observed (block (some (unexpected_blob_evidence (request a))) f)
    else observe expected blobs (put acquisition_key a observed) (
        block
          (only_if (is_some (find acquisition_key key observed))
            (duplicate_blob_evidence (request a)))
          f)

abbrev pub blob_gap : BlobRequest → Option BlobAcquisition → Option CoverageGap
blob_gap r none = some (blob_not_observed r)
blob_gap r (some (not_acquired wanted reason)) = some (blob_unavailable r reason)
blob_gap r (some (acquired identity)) = elim identity.representation [
  | lfs_pointer ↦ some (lfs_pointer_not_expanded r)
  | file_content ↦ none
]

unfoldable pub blob_gaps : List BlobRequest → List BlobAcquisition → Found → Found
unfolding find
blob_gaps [] observed f = f
blob_gaps (r ∷ rs) observed f =
    blob_gaps rs observed (miss (blob_gap r (find acquisition_key (request_key r) observed)) f)

unfoldable pub assess_blobs :
    SnapshotEvidence → Found → (List BlobRequest × List BlobAcquisition) × Found
unfolding expected_requests observe blob_gaps
assess_blobs e f =
    let refs = e.identity.version.diff_version.refs in
    let expected = expected_requests refs e.exact_version_files [] in
    let (observed, g) = observe expected e.blobs [] f in
    ((expected, observed), blob_gaps expected observed g)

abbrev pub is_file_content : Option BlobAcquisition → Bool
is_file_content (some (acquired identity)) = elim identity.representation [
  | file_content ↦ true
  | lfs_pointer ↦ false
]
is_file_content _ = false

abbrev pub is_available : DiffAvailability → Bool
is_available (available digest) = true
is_available _ = false

abbrev is_reviewable : DiffRefs → List BlobAcquisition → ChangedFile → Bool
is_reviewable refs observed file =
    is_available file.diff
    && all (λ r. is_file_content (find acquisition_key (request_key r) observed))
        (expected_blobs file.path refs)

unfoldable pub files_reviewable : DiffRefs → List BlobAcquisition → List ChangedFile → ℕ → ℕ
unfolding expected_blobs find
files_reviewable refs observed [] n = n
files_reviewable refs observed (file ∷ files) n =
    files_reviewable refs observed files
      (if is_reviewable refs observed file then saturating_add u32_max n 1 else n)

-- the loop over `observed.values()`
unfoldable pub included : List BlobAcquisition → ℕ → ℕ → Found → (ℕ × ℕ) × Found
included [] blobs bytes f = ((blobs, bytes), f)
included (not_acquired wanted reason ∷ observed) blobs bytes f = included observed blobs bytes f
included (acquired identity ∷ observed) blobs bytes f =
    let sum = checked_add u64_max bytes identity.size_bytes in
    let more = saturating_add u32_max blobs 1 in
    included observed more (if is_some sum then bytes + identity.size_bytes else u64_max)
      (block (only_if (not (is_some sum)) included_byte_count_overflow) f)

abbrev pub unrepresented_files : ChangedFileCount → ℕ → UnrepresentedFileCount
unrepresented_files (exact reported) represented =
    if leb represented reported then exactly (reported - represented) else not_known
unrepresented_files unavailable represented = not_known
unrepresented_files (capped_at lower_bound) represented = at_least (lower_bound - represented)

abbrev pub readiness_of : Found → SnapshotReadiness
readiness_of f =
    if not (is_empty f.blockers)
    then blocked_by f.blockers f.gaps
    else if is_empty f.gaps
    then ready
    else incomplete f.gaps

unfoldable pub assess : SnapshotEvidence → SnapshotAssessment
unfolding assess_diff_evidence assess_exact_paths assess_current_paths assess_blobs files_reviewable
    included
assess e =
    let refs = e.identity.version.diff_version.refs in
    let exact_count = count_u32 e.exact_version_files in
    let f0 = assess_diff_evidence e (record { blockers = []; gaps = [] }) in
    let (exact_paths, f1) = assess_exact_paths e.exact_version_files [] f0 in
    let f2 = assess_current_paths e exact_paths f1 in
    let ((expected, observed), f3) = assess_blobs e f2 in
    let reviewable = files_reviewable refs observed e.exact_version_files 0 in
    let ((blobs_included, bytes_included), f4) = included observed 0 0 f3 in
    record {
      readiness = readiness_of f4;
      files_represented = exact_count;
      files_reviewable = reviewable;
      represented_files_unreviewable = exact_count - reviewable;
      unrepresented_files = unrepresented_files e.reported_changed_files exact_count;
      blobs_expected = count_u32 expected;
      blobs_included = blobs_included;
      bytes_included = bytes_included;
    }
