-- ===== src/Snapshot/Gathered.antt =====
-- crates/revoot-core/src/snapshot.rs: the paths that the loops of an assessment gather.
use revoot.Prelude.{
  ◌≡◌, ◌∙◌, refl, sym, ap, Bool, true, false, ◌||◌, none, List, [], ◌∷◌, List-cases, arith, inl,
  inr, All,
}
use revoot.Set.{Key, key_eq, has, insert}
use revoot.Set.Laws.{key_eq_iff, has-insert}
use revoot.Snapshot.{Sha256Digest}
use revoot.Snapshot.Change.{ChangedPath, path_key, semantic_issue}
use revoot.Snapshot.Pages.{PaginatedAcquisition, completeness, pagination_issues}
use revoot.Snapshot.Evidence.{
  collected, exact, available, ChangedFile, unavailable_reason, diff_unavailable, SnapshotEvidence,
  duplicate_exact_changed_path, duplicate_current_changed_path, invalid_changed_path,
}
use revoot.Snapshot.Assess.{
  Found, only_if, over, count_u32, state_gap, state_blocker, reported_gap, pages_gap,
  assess_diff_evidence, invalid_path, assess_exact_paths, current_paths_of,
}
use revoot.Snapshot.Clear.{
  clear, clear-block, clear-miss, only_if-none, over-none, state_collected, reported_exactly,
  available_diff,
}

complete_pages :
    {A : Type 0} (p : PaginatedAcquisition A)
    → pages_gap (completeness p) ≡ none
    → pagination_issues p ≡ []
unfolding completeness
complete_pages p h = elim (List-cases (pagination_issues p)) [
  | inl e ↦ e
  | inr (i, is, e) ↦ absurd (ground (arith, rw (completeness, e) at h))
]

pub record IsCollected (e : SnapshotEvidence) (f : Found) : Type 0 where
  pub state : e.diff_version_state ≡ collected
  pub reported : e.reported_changed_files ≡ exact (count_u32 e.exact_version_files)
  pub pages : pagination_issues e.current_diffs ≡ []
  pub before : clear f ≡ true

pub assess_diff_evidence-IsCollected :
    (e : SnapshotEvidence) (f : Found) → clear (assess_diff_evidence e f) ≡ true → IsCollected e f
unfolding assess_diff_evidence
assess_diff_evidence-IsCollected e f h =
    let s1 = clear-miss (pages_gap (completeness e.current_diffs)) _ h in
    let s2 =
      clear-miss (reported_gap e.reported_changed_files (count_u32 e.exact_version_files)) _ s1.1 in
    let s3 = clear-block (state_blocker e.diff_version_state) _ s2.1 in
    let s4 = clear-miss (state_gap e.diff_version_state) _ s3.1 in
    record {
      state = state_collected e.diff_version_state s4.0 s3.0;
      reported = reported_exactly e.reported_changed_files (count_u32 e.exact_version_files) s2.0;
      pages = complete_pages e.current_diffs s1.0;
      before = s4.1;
    }

-- the paths are of one change each, and no two are the same
abbrev pub IsDistinct : List ChangedPath → Type 0
IsDistinct [] = Unit
IsDistinct (path ∷ paths) =
    (semantic_issue path ≡ none) × (has path_key (path_key path) paths ≡ false) × IsDistinct paths

abbrev pub paths_of : List ChangedFile → List ChangedPath
paths_of [] = []
paths_of (file ∷ files) = file.path ∷ paths_of files

-- the paths that are in neither list
abbrev Apart : List ChangedPath → List ChangedPath → Type 0
Apart [] seen = Unit
Apart (path ∷ paths) seen = (has path_key (path_key path) seen ≡ false) × Apart paths seen

pub record IsGathered (paths seen gathered : List ChangedPath) (before : Found) : Type 0 where
  pub distinct : IsDistinct paths
  pub apart : Apart paths seen
  pub each : (k : Key) → has path_key k gathered ≡ has path_key k paths || has path_key k seen
  pub before_clear : clear before ≡ true

Apart-insert :
    (path : ChangedPath) (paths seen : List ChangedPath)
    → Apart paths (insert path_key path seen)
    → (has path_key (path_key path) paths ≡ false) × Apart paths seen
Apart-insert path [] seen h = (refl, tt)
Apart-insert path (p ∷ paths) seen h =
    let rest = Apart-insert path paths seen h.1 in
    let both = sym (has-insert path_key (path_key p) path seen) ∙ h.0 in
    let split =
      differs (key_eq (path_key path) (path_key p)) (has path_key (path_key p) seen) both in
    (different (path_key p) (path_key path) rest.0 split.0, (split.1, rest.1))
  where
    different : (k l : Key) {b : Bool} → b ≡ false → key_eq l k ≡ false → key_eq k l || b ≡ false
    different k l h i = ground (arith, key_eq_iff k l, key_eq_iff l k)

    differs : (b c : Bool) → b || c ≡ false → (b ≡ false) × (c ≡ false)
    differs b c h = ground arith

Apart-none : (paths : List ChangedPath) → Apart paths []
Apart-none [] = tt
Apart-none (p ∷ paths) = (refl, Apart-none paths)

pub first_out : (a b c : Bool) → a || (b || c) ≡ (b || a) || c
first_out a b c = ground arith

-- A path that is seen for the first time, and those after it.
IsGathered-more :
    (path : ChangedPath) (paths seen gathered : List ChangedPath) (before middle : Found)
    → semantic_issue path ≡ none
    → has path_key (path_key path) seen ≡ false
    → clear before ≡ true
    → IsGathered paths (insert path_key path seen) gathered middle
    → IsGathered (path ∷ paths) seen gathered before
IsGathered-more path paths seen gathered before middle sound fresh whole g =
    let apart = Apart-insert path paths seen g.apart in
    record {
      distinct = (sound, apart.0, g.distinct);
      apart = (fresh, apart.1);
      each = λ k.
          g.each k
          ∙ ap (λ b. has path_key k paths || b) (has-insert path_key k path seen)
          ∙ first_out (has path_key k paths) (key_eq (path_key path) k) (has path_key k seen);
      before_clear = whole;
    }

-- every file has its diff
abbrev pub AllAvailable : List ChangedFile → Type 0
AllAvailable files = All (λ file. (digest : Sha256Digest) × (file.diff ≡ available digest)) files

pub assess_exact_paths-IsGathered :
    (files : List ChangedFile) (seen : List ChangedPath) (f : Found)
    → clear (assess_exact_paths files seen f).1 ≡ true
    → IsGathered (paths_of files) seen (assess_exact_paths files seen f).0 f × AllAvailable files
unfolding assess_exact_paths
assess_exact_paths-IsGathered [] seen f h =
    (record { distinct = tt; apart = tt; each = λ k. refl; before_clear = h }, tt)
assess_exact_paths-IsGathered (file ∷ files) seen f h =
    let rest = assess_exact_paths-IsGathered files (insert path_key file.path seen) _ h in
    let s1 =
      clear-miss (over (diff_unavailable file.path) (unavailable_reason file.diff)) _
        rest.0.before_clear in
    let s2 =
      clear-block
        (only_if (has path_key (path_key file.path) seen) (duplicate_exact_changed_path file.path))
        _ s1.1 in
    let s3 = clear-block (invalid_path file.path) _ s2.1 in
    (
      IsGathered-more file.path (paths_of files) seen _ f _
          (over-none (invalid_changed_path file.path) _ s3.0) (only_if-none _ _ s2.0) s3.1 rest.0,
      (available_diff file.diff (over-none (diff_unavailable file.path) _ s1.0), rest.1),
    )

pub current_paths_of-IsGathered :
    (paths seen : List ChangedPath) (f : Found)
    → clear (current_paths_of paths seen f).1 ≡ true
    → IsGathered paths seen (current_paths_of paths seen f).0 f
unfolding current_paths_of
current_paths_of-IsGathered [] seen f h = record {
  distinct = tt;
  apart = tt;
  each = λ k. refl;
  before_clear = h;
}
current_paths_of-IsGathered (path ∷ paths) seen f h =
    let rest = current_paths_of-IsGathered paths (insert path_key path seen) _ h in
    let s2 =
      clear-block
        (only_if (has path_key (path_key path) seen) (duplicate_current_changed_path path)) _
        rest.before_clear in
    let s3 = clear-block (invalid_path path) _ s2.1 in
    IsGathered-more path paths seen _ f _ (over-none (invalid_changed_path path) _ s3.0)
      (only_if-none _ _ s2.0) s3.1 rest
