-- ===== src/Snapshot/Complete.antt =====
-- crates/revoot-core/src/snapshot.rs: what a complete snapshot is complete in.
use revoot.Prelude.{
  ℕ, suc, ◌+◌, ◌≤◌, ◌≡◌, ◌∙◌, refl, sym, ap, true, Option, none, some, List, [], ◌∷◌, ◌++◌, arith,
  inl, inr, length, all, All, IsIn, ◌⊎◌, u32_max, saturating_add,
}
use revoot.Set.{Key, has, find}
use revoot.Snapshot.{Sha256Digest, DiffRefs}
use revoot.Snapshot.Change.{path_key, BlobRequest, request_key, expected_blobs}
use revoot.Snapshot.Pages.{pagination_issues, clamp}
use revoot.Snapshot.Evidence.{
  ChangedFile, collected, exact, exactly, available, file_content, BlobIdentity, BlobAcquisition,
  acquired, SnapshotEvidence, SnapshotAssessment, ready,
}
use revoot.Snapshot.Assess.{
  count_u32, assess_diff_evidence, assess_exact_paths, assess_current_paths,
}
use revoot.Snapshot.Blobs.{
  acquisition_key, expected_requests, observe, blob_gap, blob_gaps, assess_blobs, is_file_content,
  is_available, files_reviewable, included, unrepresented_files, assess,
}
use revoot.Snapshot.Paths.{
  assess_current_paths-IsMatching, assess_exact_paths-IsRepresented, assess_exact_paths-has,
  or_false,
}
use revoot.Snapshot.Gathered.{assess_diff_evidence-IsCollected, IsDistinct, paths_of, AllAvailable}
use revoot.Snapshot.Observed.{
  observe-IsObserved, IsIncluded, no_gap, found-IsIncluded, blob_gaps-clear, All-has,
}
use revoot.Snapshot.Requests.{
  readiness_of-clear, included-clear, requests_of, expected_requests-has, All-of,
}

-- The diff of a file and every blob of it are there.
pub record IsReviewable (refs : DiffRefs) (blobs : List BlobAcquisition) (file : ChangedFile)
    : Type 0 where
  pub diff : (digest : Sha256Digest) × (file.diff ≡ available digest)
  pub contents : All (IsIncluded blobs) (expected_blobs file.path refs)

NoGap : List BlobAcquisition → BlobRequest → Type 0
NoGap observed r = blob_gap r (find acquisition_key (request_key r) observed) ≡ none

All-map :
    {A : Type 0} (P Q : A → Type 0) (xs : List A) → ((x : A) → P x → Q x) → All P xs → All Q xs
All-map P Q [] f h = tt
All-map P Q (x ∷ xs) f h = (f x h.0, All-map P Q xs f h.1)

All-split :
    (P : BlobRequest → Type 0) (xs ys : List BlobRequest) → All P (xs ++ ys) → All P xs × All P ys
All-split P [] ys h = (tt, h)
All-split P (x ∷ xs) ys h = let rest = All-split P xs ys h.1 in ((h.0, rest.0), rest.1)

content_of :
    {o : Option BlobAcquisition} (identity : BlobIdentity)
    → o ≡ some (acquired identity)
    → identity.representation ≡ file_content
    → is_file_content o ≡ true
content_of identity e whole =
    ap is_file_content e
    ∙ ap (λ b. is_file_content (some (acquired (record identity { representation = b })))) whole

content_found :
    (observed : List BlobAcquisition) (rs : List BlobRequest)
    → All (NoGap observed) rs
    → all (λ r. is_file_content (find acquisition_key (request_key r) observed)) rs ≡ true
unfolding NoGap
content_found observed [] h = refl
content_found observed (r ∷ rs) h =
    let g = no_gap r (find acquisition_key (request_key r) observed) h.0 in
    let one : is_file_content (find acquisition_key (request_key r) observed) ≡ true =
      content_of g.0 g.1 g.2 in
    rw one (content_found observed rs h.1)

files_reviewable-eq :
    (refs : DiffRefs) (observed : List BlobAcquisition) (files : List ChangedFile) (n : ℕ)
    → AllAvailable files
    → All (NoGap observed) (requests_of refs files)
    → n ≤ u32_max
    → files_reviewable refs observed files n ≡ clamp u32_max (n + length files)
unfolding files_reviewable
files_reviewable-eq refs observed [] n h g within = ground arith
files_reviewable-eq refs observed (file ∷ files) n h g within =
    let parts =
      All-split (NoGap observed) (expected_blobs file.path refs) (requests_of refs files) g in
    let found = content_found observed (expected_blobs file.path refs) parts.0 in
    let diff : is_available file.diff ≡ true = ap is_available h.0.1 in
    rw (files_reviewable, diff, found)
      (files_reviewable-eq refs observed files (saturating_add u32_max n 1) h.1 parts.1 (capped n)
        ∙ same n (length files) within)
  where
    capped : (n : ℕ) → saturating_add u32_max n 1 ≤ u32_max
    capped n = ground arith

    same :
        (n m : ℕ)
        → n ≤ u32_max
        → clamp u32_max (saturating_add u32_max n 1 + m) ≡ clamp u32_max (n + suc m)
    same n m within = ground arith

each-IsReviewable :
    (refs : DiffRefs) (blobs observed : List BlobAcquisition) (files : List ChangedFile)
    → ((a : BlobAcquisition) → IsIn a observed → IsIn a blobs)
    → AllAvailable files
    → All (NoGap observed) (requests_of refs files)
    → All (IsReviewable refs blobs) files
unfolding NoGap
each-IsReviewable refs blobs observed [] kept h g = tt
each-IsReviewable refs blobs observed (file ∷ files) kept h g =
    let parts =
      All-split (NoGap observed) (expected_blobs file.path refs) (requests_of refs files) g in
    (
      record {
        diff = h.0;
        contents =
            All-map (NoGap observed) (IsIncluded blobs) (expected_blobs file.path refs)
              (λ r. found-IsIncluded blobs observed r kept) parts.0;
      },
      each-IsReviewable refs blobs observed files kept h.1 parts.1,
    )

-- The evidence leaves nothing out.
pub record IsComplete (e : SnapshotEvidence) (a : SnapshotAssessment) : Type 0 where
  pub state : e.diff_version_state ≡ collected
  pub reported : e.reported_changed_files ≡ exact a.files_represented
  pub pages : pagination_issues e.current_diffs ≡ []
  pub exact_paths : IsDistinct (paths_of e.exact_version_files)
  pub current_paths : IsDistinct e.current_diffs.items
  pub same_paths :
      (k : Key)
      → has path_key k e.current_diffs.items ≡ has path_key k (paths_of e.exact_version_files)
  pub wanted :
      All
        (λ b.
          has request_key
            (acquisition_key b)
            (requests_of e.identity.version.diff_version.refs e.exact_version_files)
          ≡ true)
        e.blobs
  pub reviewable :
      All (IsReviewable e.identity.version.diff_version.refs e.blobs) e.exact_version_files
  pub all_reviewable : a.files_reviewable ≡ a.files_represented
  pub none_left : a.unrepresented_files ≡ exactly 0

from_zero : {n : ℕ} → 0 + n ≡ n
from_zero = omega arith

none_unrepresented : (c : ℕ) → unrepresented_files (exact c) c ≡ exactly 0
none_unrepresented c = ground arith

-- A snapshot that is assessed as complete is complete: its version was collected, and as many files
-- are reported as represented; every page of the current diffs was fetched; the paths of the files and
-- those of the current diffs are the same, none twice and none in contradiction to its kind; every
-- blob was asked for; every file has its diff and, as file content, every blob that its change calls
-- for; and all files are counted as reviewable, with none unrepresented.
pub assess-IsComplete :
    (e : SnapshotEvidence) → (assess e).readiness ≡ ready → IsComplete e (assess e)
unfolding assess assess_blobs NoGap
assess-IsComplete e h =
    let refs = e.identity.version.diff_version.refs in
    let files = e.exact_version_files in
    let f0 = assess_diff_evidence e (record { blockers = []; gaps = [] }) in
    let r1 = assess_exact_paths files [] f0 in
    let f2 = assess_current_paths e r1.0 r1.1 in
    let expected = expected_requests refs files [] in
    let r3 = observe expected e.blobs [] f2 in
    let f3 = blob_gaps expected r3.0 r3.1 in
    let clear4 = readiness_of-clear (included r3.0 0 0 f3).1 h in
    let clear3 = included-clear r3.0 0 0 f3 clear4 in
    let gapless = blob_gaps-clear expected r3.0 r3.1 clear3 in
    let observed =
      observe-IsObserved expected e.blobs [] f2 {observed = r3.0} {g = r3.1} refl gapless.1 in
    let matching =
      assess_current_paths-IsMatching e r1.0 r1.1
        (λ k. assess_exact_paths-has files [] f0 k ∙ or_false _) observed.before in
    let known = assess_exact_paths-IsRepresented files f0 matching.before in
    let start =
      assess_diff_evidence-IsCollected e (record { blockers = []; gaps = [] }) known.before in
    let asked : All (NoGap r3.0) (requests_of refs files) =
      All-of (NoGap r3.0) (requests_of refs files) λ r i.
        All-has (NoGap r3.0) r expected gapless.0
          (expected_requests-has refs (request_key r) files [] ∙ or_false _ ∙ i) in
    record {
      state = start.state;
      reported = start.reported;
      pages = start.pages;
      exact_paths = known.distinct;
      current_paths = matching.distinct;
      same_paths = matching.same_paths;
      wanted =
          All-map _ _ e.blobs
            (λ b i. sym (expected_requests-has refs (acquisition_key b) files [] ∙ or_false _) ∙ i)
            observed.wanted;
      reviewable =
          each-IsReviewable refs e.blobs r3.0 files (λ a i. kept_of a (observed.kept a i))
            known.available asked;
      all_reviewable =
          files_reviewable-eq refs r3.0 files 0 known.available asked (omega arith)
          ∙ ap (clamp u32_max) from_zero;
      none_left =
          ap (λ c. unrepresented_files c (count_u32 files)) start.reported
          ∙ none_unrepresented (count_u32 files);
    }
  where
    kept_of : (a : BlobAcquisition) → IsIn a e.blobs ⊎ ⊥ → IsIn a e.blobs
    kept_of a (inl i) = i
    kept_of a (inr i) = elim i [ ]
