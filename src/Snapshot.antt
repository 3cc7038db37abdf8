-- ===== src/Snapshot.antt =====
-- crates/revoot-core/src/snapshot.rs: the identity of what is reviewed.
pub mod Change
pub mod Position
pub mod Pages
pub mod Anchors
pub mod Sorted
pub mod Search
pub mod Resolved
pub mod Samples
pub mod Tests
pub mod Binding
pub mod Unblocked
pub mod Bound
pub mod Evidence
pub mod Assess
pub mod Blobs
pub mod Clear
pub mod Gathered
pub mod Paths
pub mod Observed
pub mod Requests
pub mod Complete
use revoot.Prelude.{ℕ, Bool, not, ◌&&◌, ◌||◌, ◌==◌, Result, ok, and_then, reject_if, is_empty, any}
use revoot.Text.{Str, len, all_bytes, in_range, is_ascii_digit}

pub data HexIdentityError : Type 0 where
  length character : HexIdentityError

abbrev pub is_lower_hex : Str → Bool
is_lower_hex value = all_bytes (λ byte. is_ascii_digit byte || in_range b'a' b'f' byte) value

abbrev pub git_sha_min_len : ℕ
git_sha_min_len = 40

abbrev pub git_sha_max_len : ℕ
git_sha_max_len = 64

abbrev pub sha256_hex_len : ℕ
sha256_hex_len = 64

pub record GitSha : Type 0 where
  pub as_str : Str

pub record Sha256Digest : Type 0 where
  pub as_str : Str

unfoldable pub git_sha : Str → Result HexIdentityError GitSha
unfolding len
git_sha value =
    and_then
      (reject_if (not (len value == git_sha_min_len) && not (len value == git_sha_max_len)) length)
      λ _.
        and_then (reject_if (not (is_lower_hex value)) character)
          λ _. ok (record { as_str = value })

unfoldable pub sha256_digest : Str → Result HexIdentityError Sha256Digest
unfolding len
sha256_digest value = and_then (reject_if (not (len value == sha256_hex_len)) length) λ _.
    and_then (reject_if (not (is_lower_hex value)) character) λ _. ok (record { as_str = value })

pub record RepositoryPath : Type 0 where
  pub as_str : Str

data RepositoryPathError : Type 0 where
  empty nul : RepositoryPathError

unfoldable repository_path : Str → Result RepositoryPathError RepositoryPath
repository_path value =
    and_then (reject_if (is_empty value) empty)
      λ _. and_then (reject_if (any (λ c. c == 0) value) nul) λ _. ok (record { as_str = value })

pub record DiffRefs : Type 0 where
  pub base_sha : GitSha
  pub start_sha : GitSha
  pub head_sha : GitSha

pub record DiffVersionRecord : Type 0 where
  pub id : ℕ  -- a positive u64, as are the ids below
  pub refs : DiffRefs

pub record SnapshotScope : Type 0 where
  pub instance_origin_digest : Sha256Digest
  pub project_id : ℕ
  pub merge_request_iid : ℕ

pub record GitLabDiffVersionIdentity : Type 0 where
  pub scope : SnapshotScope
  pub diff_version : DiffVersionRecord

pub record GitLabSnapshotIdentity : Type 0 where
  pub version : GitLabDiffVersionIdentity
  pub exact_diff_manifest_sha256 : Sha256Digest

pub record GitHubSnapshotIdentity : Type 0 where
  pub api_origin_digest : Sha256Digest
  pub repository_id : ℕ
  pub pull_request_number : ℕ
  pub base_sha : GitSha
  pub head_sha : GitSha
  pub exact_diff_manifest_sha256 : Sha256Digest

pub record LocalSnapshotIdentity : Type 0 where
  pub repository_identity_sha256 : Sha256Digest
  pub base_sha : GitSha
  pub head_sha : GitSha
  pub working_tree_sha256 : Sha256Digest
  pub exact_diff_manifest_sha256 : Sha256Digest

pub data ReviewSnapshotIdentity : Type 0 where
  git_lab : GitLabSnapshotIdentity → ReviewSnapshotIdentity
  git_hub : GitHubSnapshotIdentity → ReviewSnapshotIdentity
  local : LocalSnapshotIdentity → ReviewSnapshotIdentity
