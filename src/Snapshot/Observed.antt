-- ===== src/Snapshot/Observed.antt =====
-- crates/revoot-core/src/snapshot.rs: the blobs of an assessment that finds nothing wrong.
use revoot.Prelude.{
  ◌≡◌, refl, sym, ap, subst, true, ◌||◌, Bool-cases, Option, none, some, some_inj, List, [], ◌∷◌,
  arith, inl, inr, All, IsIn, ◌⊎◌, is_some,
}
use revoot.Set.{Key, key_eq, key_ltb, has, insert, put, find}
use revoot.Set.Laws.{key_eq_iff, has-insert}
use revoot.Snapshot.{RepositoryPath, GitSha}
use revoot.Snapshot.Change.{BlobRequest, BlobSide, old, new, side_rank, request_key}
use revoot.Snapshot.Evidence.{
  BlobRepresentation, file_content, lfs_pointer, BlobIdentity, BlobAcquisition, acquired,
  not_acquired, request, duplicate_blob_evidence, unexpected_blob_evidence,
  lfs_pointer_not_expanded,
}
use revoot.Snapshot.Assess.{Found, only_if}
use revoot.Snapshot.Blobs.{acquisition_key, insert_all, observe, blob_gap, blob_gaps}
use revoot.Snapshot.Clear.{clear, clear-block, clear-miss}

module _ {A : Type 0} (key : A → Key) where
  -- what is found is there, and has the key
  find-IsIn : (k : Key) (s : List A) {a : A} → find key k s ≡ some a → IsIn a s × (key a ≡ k)
  unfolding find
  find-IsIn k [] h = cc
  find-IsIn k (b ∷ s) {a} h = elim (Bool-cases (key_eq (key b) k)) [
    | inl same ↦
        let e = some_inj (rw (find, same) at h) in
        (inl (sym e), subst (λ x. key x ≡ k) e ((key_eq_iff (key b) k).0 same))
    | inr other ↦ let rest = find-IsIn k s (rw (find, other) at h) in (inr rest.0, rest.1)
  ]

  put-IsIn : (a b : A) (s : List A) → IsIn b (put key a s) → (b ≡ a) ⊎ IsIn b s
  unfolding put
  put-IsIn a b [] h = h
  put-IsIn a b (c ∷ s) h = elim (Bool-cases (key_eq (key c) (key a))) [
    | inl same ↦ later (rw (put, same) at h)
    | inr other ↦ elim (Bool-cases (key_ltb (key a) (key c))) [
      | inl less ↦ rw (put, other, less) at h
      | inr more ↦ further (put-IsIn a b s) (rw (put, other, more) at h)
    ]
  ]
    where
      later : (b ≡ a) ⊎ IsIn b s → (b ≡ a) ⊎ IsIn b (c ∷ s)
      later (inl e) = inl e
      later (inr i) = inr (inr i)

      further :
          (IsIn b (put key a s) → (b ≡ a) ⊎ IsIn b s)
          → (b ≡ c) ⊎ IsIn b (put key a s)
          → (b ≡ a) ⊎ IsIn b (c ∷ s)
      further f (inl e) = inr (inl e)
      further f (inr i) = later (f i)

-- a request is known by its key
request_key_inj : (r s : BlobRequest) → request_key r ≡ request_key s → r ≡ s
request_key_inj r s h =
    let side = side_inj r.side s.side cc in
    let path : r.path.as_str ≡ s.path.as_str = cc in
    let sha : r.commit_sha.as_str ≡ s.commit_sha.as_str = cc in
    request_same side (ap (λ p. record { as_str = p }) path) (ap (λ c. record { as_str = c }) sha)
  where
    side_inj : (a b : BlobSide) → side_rank a ≡ side_rank b → a ≡ b
    side_inj old old e = refl
    side_inj new new e = refl
    side_inj old new e = cc
    side_inj new old e = cc

    request_same :
        {a b : BlobSide} {p q : RepositoryPath} {c d : GitSha}
        → a ≡ b
        → p ≡ q
        → c ≡ d
        → ◌≡◌ {A = BlobRequest}
            (record { side = a; path = p; commit_sha = c })
            (record { side = b; path = q; commit_sha = d })
    request_same e f g = cc

-- Every blob was expected, and every blob that is kept was acquired or accounted for.
pub record IsObserved (expected : List BlobRequest) (blobs start observed : List BlobAcquisition)
    (f : Found) : Type 0 where
  pub wanted : All (λ a. has request_key (acquisition_key a) expected ≡ true) blobs
  pub kept : (a : BlobAcquisition) → IsIn a observed → IsIn a blobs ⊎ IsIn a start
  pub before : clear f ≡ true

pub observe-IsObserved :
    (expected : List BlobRequest) (blobs start : List BlobAcquisition) (f : Found)
    {observed : List BlobAcquisition} {g : Found}
    → observe expected blobs start f ≡ (observed, g)
    → clear g ≡ true
    → IsObserved expected blobs start observed f
unfolding observe
observe-IsObserved expected [] start f {observed} e h = record {
  wanted = tt;
  kept = λ a i. inr (subst (IsIn a) (sym (ap (λ x. x.0) e)) i);
  before = subst (λ f. clear f ≡ true) (sym (ap (λ x. x.1) e)) h;
}
observe-IsObserved expected (a ∷ blobs) start f {observed} {g} e h =
    elim (Bool-cases (has request_key (acquisition_key a) expected)) [
      | inl there ↦
          let rest =
            observe-IsObserved expected blobs (put acquisition_key a start) _ {observed = observed}
              {g = g} (rw (observe, there) at e) h in
          let s1 =
            clear-block
              (only_if (is_some (find acquisition_key (acquisition_key a) start))
                (duplicate_blob_evidence (request a)))
              f rest.before in
          record {
            wanted = (there, rest.wanted);
            kept = λ b i. from a b (put-IsIn acquisition_key a b start) (rest.kept b i);
            before = s1.1;
          }
      | inr gone ↦
          let rest =
            observe-IsObserved expected blobs start _ {observed = observed} {g = g}
              (rw (observe, gone) at e) h in
          let s1 = clear-block (some (unexpected_blob_evidence (request a))) f rest.before in
          absurd (ground (arith, s1.0))
    ]
  where
    from :
        (a b : BlobAcquisition)
        → (IsIn b (put acquisition_key a start) → (b ≡ a) ⊎ IsIn b start)
        → IsIn b blobs ⊎ IsIn b (put acquisition_key a start)
        → IsIn b (a ∷ blobs) ⊎ IsIn b start
    from a b f (inl i) = inl (inr i)
    from a b f (inr i) = elim (f i) [ inl same ↦ inl (inl same) | inr before ↦ inr before ]

-- what a request that leaves no gap has
pub record IsIncluded (blobs : List BlobAcquisition) (r : BlobRequest) : Type 0 where
  pub identity : BlobIdentity
  pub among : IsIn (acquired identity) blobs
  pub asked : identity.request ≡ r
  pub whole : identity.representation ≡ file_content

pub no_gap :
    (r : BlobRequest) (o : Option BlobAcquisition)
    → blob_gap r o ≡ none
    → (identity : BlobIdentity) × (o ≡ some (acquired identity))
      × (identity.representation ≡ file_content)
no_gap r none h = cc
no_gap r (some (not_acquired wanted reason)) h = cc
no_gap r (some (acquired identity)) h = (identity, refl, whole_of identity.representation h)
  where
    whole_of :
        (b : BlobRepresentation)
        → elim b [ lfs_pointer ↦ some (lfs_pointer_not_expanded r) | file_content ↦ none ] ≡ none
        → b ≡ file_content
    whole_of file_content h = refl
    whole_of lfs_pointer h = cc

pub found-IsIncluded :
    (blobs observed : List BlobAcquisition) (r : BlobRequest)
    → ((a : BlobAcquisition) → IsIn a observed → IsIn a blobs)
    → blob_gap r (find acquisition_key (request_key r) observed) ≡ none
    → IsIncluded blobs r
found-IsIncluded blobs observed r kept h =
    let found = no_gap r (find acquisition_key (request_key r) observed) h in
    let there = find-IsIn acquisition_key (request_key r) observed found.1 in
    record {
      identity = found.0;
      among = kept (acquired found.0) there.0;
      asked = request_key_inj _ _ there.1;
      whole = found.2;
    }

-- no gap in any of the requests
pub blob_gaps-clear :
    (requests : List BlobRequest) (observed : List BlobAcquisition) (f : Found)
    → clear (blob_gaps requests observed f) ≡ true
    → All (λ r. blob_gap r (find acquisition_key (request_key r) observed) ≡ none) requests
      × (clear f ≡ true)
unfolding blob_gaps
blob_gaps-clear [] observed f h = (tt, h)
blob_gaps-clear (r ∷ rs) observed f h =
    let rest = blob_gaps-clear rs observed _ h in
    let s = clear-miss (blob_gap r (find acquisition_key (request_key r) observed)) f rest.1 in
    ((s.0, rest.0), s.1)

pub All-has :
    (P : BlobRequest → Type 0) (r : BlobRequest) (s : List BlobRequest)
    → All P s
    → has request_key (request_key r) s ≡ true
    → P r
All-has P r [] h i = absurd (ground (arith, i))
All-has P r (q ∷ s) h i = elim (Bool-cases (key_eq (request_key q) (request_key r))) [
  | inl same ↦ subst P (request_key_inj q r ((key_eq_iff _ _).0 same)) h.0
  | inr other ↦ All-has P r s h.1 (rw other at i)
]

-- the requests of every file are expected
pub insert_all-has :
    (k : Key) (rs s : List BlobRequest)
    → has request_key k (insert_all rs s) ≡ has request_key k rs || has request_key k s
insert_all-has k [] s = refl
insert_all-has k (r ∷ rs) s =
    ground (arith, insert_all-has k rs (insert request_key r s), has-insert request_key k r s)
