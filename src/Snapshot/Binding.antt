-- ===== src/Snapshot/Binding.antt =====
-- crates/revoot-core/src/snapshot.rs: binding a merge request to its newest diff version.
use revoot.Prelude.{
  ℕ, Bool, true, false, not, ◌&&◌, Option, none, some, List, [], ◌∷◌, ◌++◌, leb, is_empty, map,
}
use revoot.Text.{str_eq}
use revoot.Set.{Key, insert}
use revoot.Snapshot.{DiffRefs, DiffVersionRecord, SnapshotScope, GitLabDiffVersionIdentity}
use revoot.Snapshot.Pages.{
  PaginatedAcquisition, PaginationIssue, issue_text, PaginationCompleteness, complete, partial,
  completeness,
}

pub data IdentityBlocker : Type 0 where
  merge_request_diff_refs_not_prepared no_diff_versions : IdentityBlocker
  diff_versions_pagination_incomplete : (reasons : List PaginationIssue) → IdentityBlocker
  diff_versions_not_newest_first : (previous observed : ℕ) → IdentityBlocker
  latest_diff_refs_mismatch : (merge_request latest_version : DiffRefs) → IdentityBlocker

abbrev refs_key : DiffRefs → Key
refs_key r = r.base_sha.as_str ∷ r.start_sha.as_str ∷ r.head_sha.as_str ∷ []

abbrev pub identity_blocker_key : IdentityBlocker → Key
identity_blocker_key merge_request_diff_refs_not_prepared = (0 ∷ []) ∷ []
identity_blocker_key (diff_versions_pagination_incomplete reasons) =
    (1 ∷ []) ∷ map issue_text reasons
identity_blocker_key no_diff_versions = (2 ∷ []) ∷ []
identity_blocker_key (diff_versions_not_newest_first p o) = (3 ∷ []) ∷ (p ∷ []) ∷ (o ∷ []) ∷ []
identity_blocker_key (latest_diff_refs_mismatch m l) = (4 ∷ []) ∷ (refs_key m ++ refs_key l)

abbrev pub same_refs : DiffRefs → DiffRefs → Bool
same_refs r s =
    str_eq r.base_sha.as_str s.base_sha.as_str
    && str_eq r.start_sha.as_str s.start_sha.as_str
    && str_eq r.head_sha.as_str s.head_sha.as_str

pub data SnapshotBinding : Type 0 where
  bound : (identity : GitLabDiffVersionIdentity) → SnapshotBinding
  blocked : (reasons : List IdentityBlocker) → SnapshotBinding

abbrev pub block_if : Bool → IdentityBlocker → List IdentityBlocker → List IdentityBlocker
block_if true b s = insert identity_blocker_key b s
block_if false b s = s

abbrev pub check_prepared : Option DiffRefs → List IdentityBlocker → List IdentityBlocker
check_prepared none s = insert identity_blocker_key merge_request_diff_refs_not_prepared s
check_prepared (some refs) s = s

abbrev pub check_complete : PaginationCompleteness → List IdentityBlocker → List IdentityBlocker
check_complete (complete pages items) s = s
check_complete (partial pages items reasons) s =
    insert identity_blocker_key (diff_versions_pagination_incomplete reasons) s

-- the loop over `windows(2)`
unfoldable pub check_order : List DiffVersionRecord → List IdentityBlocker → List IdentityBlocker
check_order [] s = s
check_order (v ∷ []) s = s
check_order (v ∷ w ∷ vs) s =
    check_order (w ∷ vs) (block_if (leb v.id w.id) (diff_versions_not_newest_first v.id w.id) s)

abbrev pub check_latest :
    Option DiffRefs → List DiffVersionRecord → List IdentityBlocker → List IdentityBlocker
check_latest (some refs) (latest ∷ vs) s =
    block_if (not (same_refs refs latest.refs)) (latest_diff_refs_mismatch refs latest.refs) s
check_latest _ _ s = s

unfoldable pub identity_blockers :
    Option DiffRefs → PaginatedAcquisition DiffVersionRecord → List IdentityBlocker
unfolding check_order completeness
identity_blockers refs versions =
    let start = check_complete (completeness versions) (check_prepared refs []) in
    let present = block_if (is_empty versions.items) no_diff_versions start in
    check_latest refs versions.items (check_order versions.items present)

-- the end of `bind_latest_snapshot`
abbrev pub binding_of :
    SnapshotScope → List DiffVersionRecord → List IdentityBlocker → SnapshotBinding
binding_of scope versions (b ∷ bs) = blocked (b ∷ bs)
binding_of scope [] [] = blocked (no_diff_versions ∷ [])
binding_of scope (latest ∷ vs) [] = bound (record { scope = scope; diff_version = latest })

unfoldable pub bind_latest_snapshot :
    SnapshotScope → Option DiffRefs → PaginatedAcquisition DiffVersionRecord → SnapshotBinding
unfolding identity_blockers
bind_latest_snapshot scope refs versions =
    binding_of scope versions.items (identity_blockers refs versions)
