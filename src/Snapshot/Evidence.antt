-- ===== src/Snapshot/Evidence.antt =====
-- crates/revoot-core/src/snapshot.rs: what was acquired of a snapshot, and what can be wrong with it.
use revoot.Prelude.{ℕ, Option, none, some, List, [], ◌∷◌, ◌++◌, map}
use revoot.Text.{Str}
use revoot.Set.{Key}
use revoot.Snapshot.{GitSha, Sha256Digest, GitLabSnapshotIdentity}
use revoot.Snapshot.Change.{
  ChangedPath, path_key, ChangedPathIssue, same_path_required, distinct_paths_required, BlobRequest,
  request_key,
}
use revoot.Snapshot.Pages.{PaginatedAcquisition, PaginationIssue, issue_text}

pub data DiffVersionState : Type 0 where
  collected overflow without_files : DiffVersionState
  unknown : (value : Str) → DiffVersionState

pub data ChangedFileCount : Type 0 where
  exact capped_at : ℕ → ChangedFileCount
  unavailable : ChangedFileCount

pub data UnrepresentedFileCount : Type 0 where
  exactly at_least : ℕ → UnrepresentedFileCount
  not_known : UnrepresentedFileCount

pub data DiffAvailability : Type 0 where
  available : (digest : Sha256Digest) → DiffAvailability
  collapsed too_large binary missing undetermined : DiffAvailability

pub record ChangedFile : Type 0 where
  pub path : ChangedPath
  pub diff : DiffAvailability

pub data BlobRepresentation : Type 0 where
  file_content lfs_pointer : BlobRepresentation

pub record BlobIdentity : Type 0 where
  pub request : BlobRequest
  pub blob_sha : GitSha
  pub content_sha256 : Sha256Digest
  pub size_bytes : ℕ  -- u64
  pub representation : BlobRepresentation

pub data BlobUnavailableReason : Type 0 where
  blob_missing unauthorized_private_fork blob_too_large unsupported_encoding : BlobUnavailableReason
  skipped_by_policy fetch_failed : BlobUnavailableReason

abbrev blob_reason_rank : BlobUnavailableReason → ℕ
blob_reason_rank blob_missing = 0
blob_reason_rank unauthorized_private_fork = 1
blob_reason_rank blob_too_large = 2
blob_reason_rank unsupported_encoding = 3
blob_reason_rank skipped_by_policy = 4
blob_reason_rank fetch_failed = 5

pub data BlobAcquisition : Type 0 where
  acquired : (identity : BlobIdentity) → BlobAcquisition
  not_acquired : (request : BlobRequest) → (reason : BlobUnavailableReason) → BlobAcquisition

abbrev pub request : BlobAcquisition → BlobRequest
request (acquired identity) = identity.request
request (not_acquired wanted reason) = wanted

pub data DiffUnavailableReason : Type 0 where
  diff_collapsed diff_too_large diff_binary diff_missing diff_unknown : DiffUnavailableReason

abbrev diff_reason_rank : DiffUnavailableReason → ℕ
diff_reason_rank diff_collapsed = 0
diff_reason_rank diff_too_large = 1
diff_reason_rank diff_binary = 2
diff_reason_rank diff_missing = 3
diff_reason_rank diff_unknown = 4

unfoldable pub unavailable_reason : DiffAvailability → Option DiffUnavailableReason
unavailable_reason (available digest) = none
unavailable_reason collapsed = some diff_collapsed
unavailable_reason too_large = some diff_too_large
unavailable_reason binary = some diff_binary
unavailable_reason missing = some diff_missing
unavailable_reason undetermined = some diff_unknown

pub data CoverageGap : Type 0 where
  diff_version_overflow reported_changed_files_unavailable : CoverageGap
  reported_changed_files_capped : (lower_bound : ℕ) → CoverageGap
  reported_changed_files_mismatch : (reported represented : ℕ) → CoverageGap
  current_diff_pagination_incomplete : (reasons : List PaginationIssue) → CoverageGap
  current_diff_count_mismatch : (current exact_version : ℕ) → CoverageGap
  current_diff_path_mismatch : (only_current only_exact : ℕ) → CoverageGap
  diff_unavailable : (path : ChangedPath) → (reason : DiffUnavailableReason) → CoverageGap
  blob_not_observed : (request : BlobRequest) → CoverageGap
  blob_unavailable : (request : BlobRequest) → (reason : BlobUnavailableReason) → CoverageGap
  lfs_pointer_not_expanded : (request : BlobRequest) → CoverageGap

-- the rank of the variant, and then its fields
abbrev pub gap_key : CoverageGap → Key
gap_key diff_version_overflow = (0 ∷ []) ∷ []
gap_key (reported_changed_files_capped n) = (1 ∷ []) ∷ (n ∷ []) ∷ []
gap_key reported_changed_files_unavailable = (2 ∷ []) ∷ []
gap_key (reported_changed_files_mismatch r s) = (3 ∷ []) ∷ (r ∷ []) ∷ (s ∷ []) ∷ []
gap_key (current_diff_pagination_incomplete reasons) = (4 ∷ []) ∷ map issue_text reasons
gap_key (current_diff_count_mismatch c e) = (5 ∷ []) ∷ (c ∷ []) ∷ (e ∷ []) ∷ []
gap_key (current_diff_path_mismatch c e) = (6 ∷ []) ∷ (c ∷ []) ∷ (e ∷ []) ∷ []
gap_key (diff_unavailable path reason) =
    (7 ∷ []) ∷ (path_key path ++ (diff_reason_rank reason ∷ []) ∷ [])
gap_key (blob_not_observed request) = (8 ∷ []) ∷ request_key request
gap_key (blob_unavailable request reason) =
    (9 ∷ []) ∷ (request_key request ++ (blob_reason_rank reason ∷ []) ∷ [])
gap_key (lfs_pointer_not_expanded request) = (10 ∷ []) ∷ request_key request

pub data SnapshotBlocker : Type 0 where
  diff_version_without_files included_byte_count_overflow : SnapshotBlocker
  unknown_diff_version_state : (value : Str) → SnapshotBlocker
  duplicate_exact_changed_path duplicate_current_changed_path :
      (path : ChangedPath) → SnapshotBlocker
  invalid_changed_path : (path : ChangedPath) → (reason : ChangedPathIssue) → SnapshotBlocker
  duplicate_blob_evidence unexpected_blob_evidence : (request : BlobRequest) → SnapshotBlocker

abbrev path_issue_rank : ChangedPathIssue → ℕ
path_issue_rank same_path_required = 0
path_issue_rank distinct_paths_required = 1

abbrev pub blocker_key : SnapshotBlocker → Key
blocker_key diff_version_without_files = (0 ∷ []) ∷ []
blocker_key (unknown_diff_version_state value) = (1 ∷ []) ∷ value ∷ []
blocker_key (duplicate_exact_changed_path path) = (2 ∷ []) ∷ path_key path
blocker_key (duplicate_current_changed_path path) = (3 ∷ []) ∷ path_key path
blocker_key (invalid_changed_path path reason) =
    (4 ∷ []) ∷ (path_key path ++ (path_issue_rank reason ∷ []) ∷ [])
blocker_key (duplicate_blob_evidence request) = (5 ∷ []) ∷ request_key request
blocker_key (unexpected_blob_evidence request) = (6 ∷ []) ∷ request_key request
blocker_key included_byte_count_overflow = (7 ∷ []) ∷ []

pub record SnapshotEvidence : Type 0 where
  pub identity : GitLabSnapshotIdentity
  pub diff_version_state : DiffVersionState
  pub reported_changed_files : ChangedFileCount
  pub exact_version_files : List ChangedFile
  pub current_diffs : PaginatedAcquisition ChangedPath
  pub blobs : List BlobAcquisition

pub data SnapshotReadiness : Type 0 where
  ready : SnapshotReadiness  -- `Complete`
  incomplete : (reasons : List CoverageGap) → SnapshotReadiness  -- `Partial`
  blocked_by :
      (reasons : List SnapshotBlocker) → (coverage_gaps : List CoverageGap) → SnapshotReadiness

pub record SnapshotAssessment : Type 0 where
  pub readiness : SnapshotReadiness
  pub files_represented : ℕ  -- u32
  pub files_reviewable : ℕ  -- u32
  pub represented_files_unreviewable : ℕ  -- u32
  pub unrepresented_files : UnrepresentedFileCount
  pub blobs_expected : ℕ  -- u32
  pub blobs_included : ℕ  -- u32
  pub bytes_included : ℕ  -- u64
