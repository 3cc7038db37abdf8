-- ===== src/Snapshot/Bound.antt =====
-- crates/revoot-core/src/snapshot.rs: when a merge request is bound to a diff version.
use revoot.Prelude.{
  unnegated, ℕ, ◌≡◌, ◌↔◌, ◌∙◌, refl, sym, ap, subst, false, not, Option, none, some, List, [], ◌∷◌,
  List-cases, arith, inl, inr, is_empty,
}
use revoot.Snapshot.{DiffRefs, DiffVersionRecord, SnapshotScope, GitLabDiffVersionIdentity}
use revoot.Snapshot.Pages.{
  PaginatedAcquisition, complete, partial, PaginationCompleteness, completeness, pagination_issues,
}
use revoot.Snapshot.Binding.{
  IdentityBlocker, latest_diff_refs_mismatch, no_diff_versions, same_refs, bound, block_if,
  check_prepared, check_complete, check_order, check_latest, identity_blockers, binding_of,
  bind_latest_snapshot,
}
use revoot.Snapshot.Unblocked.{
  IsNewestFirst, insert-ne-nil, block_if-nil, check_order-nil, same_refs_iff,
}

check_prepared-nil :
    (refs : Option DiffRefs) → (check_prepared refs [] ≡ []) → (r : DiffRefs) × (refs ≡ some r)
check_prepared-nil none h = absurd (insert-ne-nil _ _ h)
check_prepared-nil (some r) h = (r, refl)

check_complete-nil :
    (c : PaginationCompleteness) (s : List IdentityBlocker)
    → check_complete c s ≡ []
    → ((n m : ℕ) × (c ≡ complete n m)) × (s ≡ [])
check_complete-nil (complete n m) s h = ((n, m, refl), h)
check_complete-nil (partial n m reasons) s h = absurd (insert-ne-nil _ _ h)

completeness-nil :
    (versions : PaginatedAcquisition DiffVersionRecord) {n m : ℕ}
    → completeness versions ≡ complete n m
    → pagination_issues versions ≡ []
unfolding completeness
completeness-nil versions h = elim (List-cases (pagination_issues versions)) [
  | inl e ↦ e
  | inr (i, is, e) ↦ absurd (ground (arith, rw (completeness, e) at h))
]

-- The version that a merge request is bound to.
pub record IsBound (scope : SnapshotScope) (refs : Option DiffRefs)
    (versions : PaginatedAcquisition DiffVersionRecord) (identity : GitLabDiffVersionIdentity)
    : Type 0 where
  pub older : List DiffVersionRecord
  pub latest : versions.items ≡ identity.diff_version ∷ older
  pub of_refs : refs ≡ some identity.diff_version.refs
  pub pages : pagination_issues versions ≡ []
  pub newest_first : IsNewestFirst versions.items
  pub of_scope : identity.scope ≡ scope

-- the refs of the merge request are those of the newest version, where both are there
abbrev Agrees : Option DiffRefs → List DiffVersionRecord → Type 0
Agrees (some r) (latest ∷ vs) = r ≡ latest.refs
Agrees (some r) [] = Unit
Agrees none vs = Unit

check_latest-nil :
    (refs : Option DiffRefs) (vs : List DiffVersionRecord) (s : List IdentityBlocker)
    → (check_latest refs vs s ≡ []) ↔ (Agrees refs vs × (s ≡ []))
check_latest-nil none vs s = (λ h. (tt, h), λ h. h.1)
check_latest-nil (some r) [] s = (λ h. (tt, h), λ h. h.1)
check_latest-nil (some r) (latest ∷ vs) s = (
  λ h.
      let first =
        block_if-nil (not (same_refs r latest.refs)) (latest_diff_refs_mismatch r latest.refs) s
          h in
      ((same_refs_iff r latest.refs).0 (unnegated _ first.0), first.1),
  λ h.
      ap (λ b. block_if (not b) (latest_diff_refs_mismatch r latest.refs) s)
        ((same_refs_iff r latest.refs).1 h.0)
      ∙ h.1,
)

complete_of :
    (versions : PaginatedAcquisition DiffVersionRecord)
    → pagination_issues versions ≡ []
    → (s : List IdentityBlocker) → check_complete (completeness versions) s ≡ s
unfolding completeness
complete_of versions h s = rw (completeness, h) refl

-- what leaves no blocker
record IsUnblocked (refs : Option DiffRefs) (versions : PaginatedAcquisition DiffVersionRecord)
    : Type 0 where
  prepared : (r : DiffRefs) × (refs ≡ some r)
  pages : pagination_issues versions ≡ []
  present : is_empty versions.items ≡ false
  newest_first : IsNewestFirst versions.items
  agrees : Agrees refs versions.items

identity_blockers-nil :
    (refs : Option DiffRefs) (versions : PaginatedAcquisition DiffVersionRecord)
    → (identity_blockers refs versions ≡ []) ↔ IsUnblocked refs versions
unfolding identity_blockers
identity_blockers-nil refs versions =
    let start = check_complete (completeness versions) (check_prepared refs []) in
    let present = block_if (is_empty versions.items) no_diff_versions start in
    let latest = check_latest-nil refs versions.items (check_order versions.items present) in
    let order = check_order-nil versions.items present in
    (
      λ h.
          let s1 = latest.0 h in
          let s2 = order.0 s1.1 in
          let s3 = block_if-nil (is_empty versions.items) no_diff_versions start s2.1 in
          let s4 = check_complete-nil (completeness versions) (check_prepared refs []) s3.1 in
          record {
            prepared = check_prepared-nil refs s4.1;
            pages = completeness-nil versions s4.0.2;
            present = s3.0;
            newest_first = s2.0;
            agrees = s1.0;
          },
      λ u. latest.1 (
        u.agrees,
        order.1 (
          u.newest_first,
          ap (λ b. block_if b no_diff_versions start) u.present
              ∙ complete_of versions u.pages (check_prepared refs [])
              ∙ ap (λ o. check_prepared o []) u.prepared.1,
        ),
      ),
    )

binding_of-bound :
    (scope : SnapshotScope) (vs : List DiffVersionRecord) (s : List IdentityBlocker)
    (identity : GitLabDiffVersionIdentity)
    → binding_of scope vs s ≡ bound identity
    → (s ≡ [])
      × ((older : List DiffVersionRecord) × (vs ≡ identity.diff_version ∷ older)
          × (identity.scope ≡ scope))
binding_of-bound scope vs (b ∷ bs) identity h = cc
binding_of-bound scope [] [] identity h = cc
binding_of-bound scope (latest ∷ vs) [] identity h =
    let same = bound_inj h in
    (refl, (vs, ap (λ i. i.diff_version ∷ vs) same, sym (ap (λ i. i.scope) same)))
  where
    bound_inj : {i j : GitLabDiffVersionIdentity} → bound i ≡ bound j → i ≡ j
    bound_inj h = cc

same_as_latest :
    {refs : Option DiffRefs} {vs : List DiffVersionRecord} {latest : DiffVersionRecord}
    {older : List DiffVersionRecord} {r : DiffRefs}
    → refs ≡ some r
    → vs ≡ latest ∷ older
    → Agrees refs vs
    → refs ≡ some latest.refs
same_as_latest {refs} {latest} {older} e f g =
    e ∙ ap some (subst (λ o. Agrees o (latest ∷ older)) e (subst (Agrees refs) f g))

-- A merge request is bound to a version exactly if the request has refs, every page of the listing
-- was fetched, the versions come from the newest to the oldest, and the first of them is this one and
-- has the refs of the request; the scope is the one given.
pub bind_latest_snapshot-bound_iff :
    (scope : SnapshotScope) (refs : Option DiffRefs)
    (versions : PaginatedAcquisition DiffVersionRecord) (identity : GitLabDiffVersionIdentity)
    → (bind_latest_snapshot scope refs versions ≡ bound identity)
      ↔ IsBound scope refs versions identity
unfolding bind_latest_snapshot
bind_latest_snapshot-bound_iff scope refs versions identity = (
  λ h.
      let b = binding_of-bound scope versions.items (identity_blockers refs versions) identity h in
      let u = (identity_blockers-nil refs versions).0 b.0 in
      record {
        older = b.1.0;
        latest = b.1.1;
        of_refs = same_as_latest u.prepared.1 b.1.1 u.agrees;
        pages = u.pages;
        newest_first = u.newest_first;
        of_scope = b.1.2;
      },
  λ b.
      let none' = (identity_blockers-nil refs versions).1 (record {
        prepared = (identity.diff_version.refs, b.of_refs);
        pages = b.pages;
        present = ap is_empty b.latest;
        newest_first = b.newest_first;
        agrees =
            subst (λ o. Agrees o versions.items) (sym b.of_refs)
              (subst (Agrees (some identity.diff_version.refs)) (sym b.latest) refl);
      }) in
      ap (binding_of scope versions.items) none'
      ∙ ap (λ vs. binding_of scope vs []) b.latest
      ∙ ap (λ s. bound (record { scope = s; diff_version = identity.diff_version }))
          (sym b.of_scope),
)
