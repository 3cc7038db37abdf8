-- ===== src/Snapshot/Samples.antt =====
-- A small snapshot, for the tests.
use revoot.Prelude.{ℕ, false, List, [], ◌∷◌}
use revoot.Text.{Str, lit}
use revoot.Snapshot.{
  Sha256Digest, DiffRefs, DiffVersionRecord, SnapshotScope, GitLabDiffVersionIdentity,
  GitLabSnapshotIdentity, ReviewSnapshotIdentity, git_lab,
}
use revoot.Snapshot.Change.{ChangedPath, modified, BlobRequest, old_blob, new_blob}
use revoot.Snapshot.Position.{addition, context, CommentableLine}
use revoot.Snapshot.Pages.{PageReceipt, PaginatedAcquisition}
use revoot.Snapshot.Evidence.{
  collected, exact, available, file_content, BlobAcquisition, acquired, SnapshotEvidence,
}

abbrev digest : Sha256Digest
digest = record { as_str = lit "d0" }

abbrev pub source_path : ChangedPath
source_path = record {
  old_path = record { as_str = lit "a.rs" };
  new_path = record { as_str = lit "a.rs" };
  kind = modified;
}

abbrev first_refs : DiffRefs
first_refs = record {
  base_sha = record { as_str = lit "b1" };
  start_sha = record { as_str = lit "b1" };
  head_sha = record { as_str = lit "h1" };
}

abbrev pub second_refs : DiffRefs
second_refs = record {
  base_sha = record { as_str = lit "b1" };
  start_sha = record { as_str = lit "b1" };
  head_sha = record { as_str = lit "h2" };
}

abbrev one_page : ℕ → List PageReceipt
one_page n = record { page_number = 1; item_count = n; has_next_page = false } ∷ []

abbrev pub two_versions : PaginatedAcquisition DiffVersionRecord
two_versions = record {
  items = record { id = 8; refs = second_refs } ∷ record { id = 5; refs = first_refs } ∷ [];
  pages = one_page 2;
}

abbrev pub scope : SnapshotScope
scope = record { instance_origin_digest = digest; project_id = 3; merge_request_iid = 4 }

abbrev pub newest : GitLabDiffVersionIdentity
newest = record { scope = scope; diff_version = record { id = 8; refs = second_refs } }

abbrev snapshot_identity : GitLabSnapshotIdentity
snapshot_identity = record { version = newest; exact_diff_manifest_sha256 = digest }

abbrev blob_of : BlobRequest → BlobAcquisition
blob_of r = acquired (record {
  request = r;
  blob_sha = record { as_str = lit "f0" };
  content_sha256 = digest;
  size_bytes = 10;
  representation = file_content;
})

abbrev pub whole_evidence : SnapshotEvidence
whole_evidence = record {
  identity = snapshot_identity;
  diff_version_state = collected;
  reported_changed_files = exact 1;
  exact_version_files = record { path = source_path; diff = available digest } ∷ [];
  current_diffs = record { items = source_path ∷ []; pages = one_page 1 };
  blobs =
      blob_of (old_blob source_path second_refs) ∷ blob_of (new_blob source_path second_refs) ∷ [];
}

abbrev pub review_identity : ReviewSnapshotIdentity
review_identity = git_lab snapshot_identity

abbrev pub fifth_line : CommentableLine
fifth_line = record {
  path = source_path;
  position = addition 5;
  exact_line_digest = digest;
  context_digest = digest;
}

abbrev pub sixth_line : CommentableLine
sixth_line = record {
  path = source_path;
  position = context 5 6;
  exact_line_digest = digest;
  context_digest = digest;
}

-- The hasher stands for SHA-256: it returns what it was fed.
abbrev pub fed_hex : List ℕ → Str
fed_hex input = input
