-- ===== src/Snapshot/Paths.antt =====
-- crates/revoot-core/src/snapshot.rs: the paths of an assessment that finds nothing wrong.
use revoot.Prelude.{
  ℕ, ◌≡◌, ◌∙◌, refl, sym, ap, subst, Bool, true, false, not, ◌||◌, Bool-cases, none, List, [], ◌∷◌,
  arith, inl, inr, ◌==◌,
}
use revoot.Set.{Key, key_eq, has, insert}
use revoot.Set.Laws.{key_eq_iff, has-insert}
use revoot.Snapshot.Change.{ChangedPath, path_key}
use revoot.Snapshot.Evidence.{ChangedFile, SnapshotEvidence, current_diff_path_mismatch}
use revoot.Snapshot.Assess.{
  Found, count_u32, assess_exact_paths, current_paths_of, difference, count_gap, difference_gap,
  assess_current_paths,
}
use revoot.Snapshot.Clear.{clear, clear-miss, only_if-none}
use revoot.Snapshot.Gathered.{
  IsDistinct, paths_of, first_out, AllAvailable, assess_exact_paths-IsGathered,
  current_paths_of-IsGathered,
}

count_none : {A : Type 0} (xs : List A) → count_u32 xs ≡ 0 → xs ≡ []
count_none [] h = refl
count_none (x ∷ xs) h = ground arith

-- a difference that is empty
within :
    (s t : List ChangedPath)
    → difference s t ≡ []
    → (k : Key) → has path_key k s ≡ true
    → has path_key k t ≡ true
within [] t h k e = cc
within (p ∷ s) t h k e = elim (Bool-cases (has path_key (path_key p) t)) [
  | inl there ↦ elim (Bool-cases (key_eq (path_key p) k)) [
    | inl same ↦ subst (λ j. has path_key j t ≡ true) ((key_eq_iff (path_key p) k).0 same) there
    | inr other ↦ within s t (rw there at h) k (rw other at e)
  ]
  | inr gone ↦ absurd (ground (arith, rw gone at h))
]

no_difference : (a b : ℕ) → difference_gap a b ≡ none → (a ≡ 0) × (b ≡ 0)
no_difference a b h =
    let g = only_if-none (not (a == 0) || not (b == 0)) (current_diff_path_mismatch a b) h in
    ground (arith, g)

both_ways : (a b : Bool) → (a ≡ true → b ≡ true) → (b ≡ true → a ≡ true) → a ≡ b
both_ways true b h i = sym (h refl)
both_ways false true h i = i refl
both_ways false false h i = refl

pub or_false : (b : Bool) → b || false ≡ b
or_false true = refl
or_false false = refl

-- The listing of the current diffs has the paths of the exact version.
pub record IsMatching (e : SnapshotEvidence) (f : Found) : Type 0 where
  pub distinct : IsDistinct e.current_diffs.items
  pub same_paths :
      (k : Key)
      → has path_key k e.current_diffs.items ≡ has path_key k (paths_of e.exact_version_files)
  pub before : clear f ≡ true

pub assess_current_paths-IsMatching :
    (e : SnapshotEvidence) (exact_paths : List ChangedPath) (f : Found)
    → ((k : Key) → has path_key k exact_paths ≡ has path_key k (paths_of e.exact_version_files))
    → clear (assess_current_paths e exact_paths f) ≡ true
    → IsMatching e f
unfolding assess_current_paths
assess_current_paths-IsMatching e exact_paths f known h =
    let current = (current_paths_of e.current_diffs.items [] f).0 in
    let s1 =
      clear-miss
        (difference_gap (count_u32 (difference current exact_paths))
          (count_u32 (difference exact_paths current)))
        _ h in
    let s2 =
      clear-miss (count_gap (count_u32 e.current_diffs.items) (count_u32 e.exact_version_files)) _
        s1.1 in
    let g = current_paths_of-IsGathered e.current_diffs.items [] f s2.1 in
    let none' = no_difference _ _ s1.0 in
    let over' = within current exact_paths (count_none _ none'.0) in
    let back = within exact_paths current (count_none _ none'.1) in
    record {
      distinct = g.distinct;
      same_paths = λ k.
          sym (g.each k ∙ or_false _)
          ∙ both_ways (has path_key k current) (has path_key k exact_paths) (over' k) (back k)
          ∙ known k;
      before = g.before_clear;
    }

-- The files of the exact version, each with its diff.
pub record IsRepresented (files : List ChangedFile) (f : Found) : Type 0 where
  pub distinct : IsDistinct (paths_of files)
  pub available : AllAvailable files
  pub before : clear f ≡ true

-- the set that the loop leaves has the paths of the files
pub assess_exact_paths-has :
    (files : List ChangedFile) (seen : List ChangedPath) (f : Found) (k : Key)
    → has path_key k (assess_exact_paths files seen f).0
      ≡ has path_key k (paths_of files) || has path_key k seen
unfolding assess_exact_paths
assess_exact_paths-has [] seen f k = refl
assess_exact_paths-has (file ∷ files) seen f k =
    assess_exact_paths-has files (insert path_key file.path seen) _ k
    ∙ ap (λ b. has path_key k (paths_of files) || b) (has-insert path_key k file.path seen)
    ∙ first_out (has path_key k (paths_of files)) (key_eq (path_key file.path) k)
        (has path_key k seen)

pub assess_exact_paths-IsRepresented :
    (files : List ChangedFile) (f : Found)
    → clear (assess_exact_paths files [] f).1 ≡ true
    → IsRepresented files f
assess_exact_paths-IsRepresented files f h =
    let g = assess_exact_paths-IsGathered files [] f h in
    record { distinct = g.0.distinct; available = g.1; before = g.0.before_clear }
