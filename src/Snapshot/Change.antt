-- ===== src/Snapshot/Change.antt =====
-- crates/revoot-core/src/snapshot.rs: a changed path, its contradictions, and its blobs.
use revoot.Prelude.{ℕ, Bool, true, false, Option, none, some, List, [], ◌∷◌, ◌==◌}
use revoot.Text.{str_eq}
use revoot.Set.{Key}
use revoot.Snapshot.{RepositoryPath, GitSha, DiffRefs}

pub data FileChangeKind : Type 0 where
  modified renamed added deleted : FileChangeKind

-- the order of the variants
abbrev change_rank : FileChangeKind → ℕ
change_rank modified = 0
change_rank renamed = 1
change_rank added = 2
change_rank deleted = 3

abbrev pub is_kind : FileChangeKind → FileChangeKind → Bool
is_kind k l = change_rank k == change_rank l

pub record ChangedPath : Type 0 where
  pub old_path : RepositoryPath
  pub new_path : RepositoryPath
  pub kind : FileChangeKind

abbrev pub path_key : ChangedPath → Key
path_key p = p.old_path.as_str ∷ p.new_path.as_str ∷ (change_rank p.kind ∷ []) ∷ []

pub data ChangedPathIssue : Type 0 where
  same_path_required distinct_paths_required : ChangedPathIssue

abbrev pub same_paths : ChangedPath → Bool
same_paths p = str_eq p.old_path.as_str p.new_path.as_str

-- the `match` of `semantic_issue`, given whether the two paths are equal
abbrev issue_of : FileChangeKind → Bool → Option ChangedPathIssue
issue_of renamed true = some distinct_paths_required
issue_of renamed false = none
issue_of modified false = some same_path_required
issue_of added false = some same_path_required
issue_of deleted false = some same_path_required
issue_of _ true = none

unfoldable pub semantic_issue : ChangedPath → Option ChangedPathIssue
semantic_issue p = issue_of p.kind (same_paths p)

pub data BlobSide : Type 0 where
  old new : BlobSide

abbrev pub side_rank : BlobSide → ℕ
side_rank old = 0
side_rank new = 1

pub record BlobRequest : Type 0 where
  pub side : BlobSide
  pub path : RepositoryPath
  pub commit_sha : GitSha

abbrev pub request_key : BlobRequest → Key
request_key r = (side_rank r.side ∷ []) ∷ r.path.as_str ∷ r.commit_sha.as_str ∷ []

abbrev pub old_blob : ChangedPath → DiffRefs → BlobRequest
old_blob p refs = record { side = old; path = p.old_path; commit_sha = refs.base_sha }

abbrev pub new_blob : ChangedPath → DiffRefs → BlobRequest
new_blob p refs = record { side = new; path = p.new_path; commit_sha = refs.head_sha }

-- the `match` of `expected_blobs`
abbrev blobs_of : FileChangeKind → BlobRequest → BlobRequest → List BlobRequest
blobs_of modified o n = o ∷ n ∷ []
blobs_of renamed o n = o ∷ n ∷ []
blobs_of added o n = n ∷ []
blobs_of deleted o n = o ∷ []

unfoldable pub expected_blobs : ChangedPath → DiffRefs → List BlobRequest
expected_blobs p refs = blobs_of p.kind (old_blob p refs) (new_blob p refs)
