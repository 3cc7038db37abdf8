-- ===== src/Snapshot/Requests.antt =====
-- crates/revoot-core/src/snapshot.rs: the requests of files, and the end of an assessment.
use revoot.Prelude.{
  ℕ, ◌≡◌, refl, Bool, true, not, ◌||◌, Bool-cases, List, [], ◌∷◌, ◌++◌, arith, inl, inr, All,
  u64_max, checked_add, is_some, is_empty,
}
use revoot.Set.{Key, key_eq, has}
use revoot.Set.Laws.{key_eq_iff}
use revoot.Snapshot.{DiffRefs}
use revoot.Snapshot.Change.{BlobRequest, request_key, expected_blobs}
use revoot.Snapshot.Evidence.{
  ChangedFile, BlobAcquisition, acquired, not_acquired, included_byte_count_overflow, ready,
}
use revoot.Snapshot.Assess.{Found, only_if}
use revoot.Snapshot.Blobs.{insert_all, expected_requests, included, readiness_of}
use revoot.Snapshot.Clear.{clear, clear-block}
use revoot.Snapshot.Observed.{insert_all-has}

pub readiness_of-clear : (f : Found) → readiness_of f ≡ ready → clear f ≡ true
readiness_of-clear f h = elim (Bool-cases (is_empty f.blockers)) [
  | inl b ↦ elim (Bool-cases (is_empty f.gaps)) [
    | inl g ↦ rw (b, g) refl
    | inr g ↦ absurd (ground (arith, rw (b, g) at h))
  ]
  | inr b ↦ absurd (ground (arith, rw b at h))
]

pub included-clear :
    (observed : List BlobAcquisition) (blobs bytes : ℕ) (f : Found)
    → clear (included observed blobs bytes f).1 ≡ true
    → clear f ≡ true
unfolding included
included-clear [] blobs bytes f h = h
included-clear (not_acquired wanted reason ∷ observed) blobs bytes f h =
    included-clear observed blobs bytes f h
included-clear (acquired identity ∷ observed) blobs bytes f h =
    (clear-block
      (only_if (not (is_some (checked_add u64_max bytes identity.size_bytes)))
        included_byte_count_overflow)
      f (included-clear observed _ _ _ h)).1

abbrev pub requests_of : DiffRefs → List ChangedFile → List BlobRequest
requests_of refs [] = []
requests_of refs (file ∷ files) = expected_blobs file.path refs ++ requests_of refs files

has-append :
    (k : Key) (rs s : List BlobRequest)
    → has request_key k (rs ++ s) ≡ has request_key k rs || has request_key k s
has-append k [] s = refl
has-append k (r ∷ rs) s = ground (arith, has-append k rs s)

pub expected_requests-has :
    (refs : DiffRefs) (k : Key) (files : List ChangedFile) (s : List BlobRequest)
    → has request_key k (expected_requests refs files s)
      ≡ has request_key k (requests_of refs files) || has request_key k s
unfolding expected_requests
expected_requests-has refs k [] s = refl
expected_requests-has refs k (file ∷ files) s = ground (
  arith,
  expected_requests-has refs k files (insert_all (expected_blobs file.path refs) s),
  insert_all-has k (expected_blobs file.path refs) s,
  has-append k (expected_blobs file.path refs) (requests_of refs files),
)

pub All-of :
    (P : BlobRequest → Type 0) (rs : List BlobRequest)
    → ((r : BlobRequest) → has request_key (request_key r) rs ≡ true → P r)
    → All P rs
All-of P [] h = tt
All-of P (r ∷ rs) h = (
  h r (here (request_key r) (has request_key (request_key r) rs)),
  All-of P rs λ q i. h q (there _ _ i),
)
  where
    here : (k : Key) (b : Bool) → key_eq k k || b ≡ true
    here k b = ground (arith, (key_eq_iff k k).1 refl)

    there : (a b : Bool) → b ≡ true → a || b ≡ true
    there a b h = ground arith
