-- ===== src/Snapshot/Clear.antt =====
-- crates/revoot-core/src/snapshot.rs: what it takes for an assessment to find nothing, up to the blobs.
use revoot.Prelude.{
  unnegated, ℕ, ◌≡◌, refl, ap, Bool, true, false, ◌&&◌, Option, none, some, arith, ◌==◌, ==_iff,
  is_empty,
}
use revoot.Set.Laws.{is_empty-insert}
use revoot.Snapshot.{Sha256Digest}
use revoot.Snapshot.Evidence.{
  DiffVersionState, collected, overflow, without_files, unknown, ChangedFileCount, exact, capped_at,
  unavailable, DiffAvailability, available, unavailable_reason, SnapshotBlocker, blocker_key,
  CoverageGap, gap_key,
}
use revoot.Snapshot.Assess.{
  Found, block, miss, only_if, over, state_gap, state_blocker, reported_gap,
}

abbrev pub clear : Found → Bool
clear f = is_empty f.blockers && is_empty f.gaps

pub clear-block :
    (o : Option SnapshotBlocker) (f : Found)
    → clear (block o f) ≡ true
    → (o ≡ none) × (clear f ≡ true)
clear-block none f h = (refl, h)
clear-block (some b) f h = absurd (ground (arith, is_empty-insert blocker_key b f.blockers))

pub clear-miss :
    (o : Option CoverageGap) (f : Found) → clear (miss o f) ≡ true → (o ≡ none) × (clear f ≡ true)
clear-miss none f h = (refl, h)
clear-miss (some g) f h = absurd (ground (arith, is_empty-insert gap_key g f.gaps))

pub only_if-none : {A : Type 0} (b : Bool) (a : A) → only_if b a ≡ none → b ≡ false
only_if-none true a h = cc
only_if-none false a h = refl

pub over-none : {A B : Type 0} (f : A → B) (o : Option A) → over f o ≡ none → o ≡ none
over-none f none h = refl
over-none f (some a) h = cc

pub state_collected :
    (s : DiffVersionState) → state_gap s ≡ none → state_blocker s ≡ none → s ≡ collected
state_collected collected h i = refl
state_collected overflow h i = cc
state_collected without_files h i = cc
state_collected (unknown value) h i = cc

pub reported_exactly : (c : ChangedFileCount) (n : ℕ) → reported_gap c n ≡ none → c ≡ exact n
reported_exactly (exact m) n h = ap exact ((==_iff m n).0 (unnegated (m == n) (only_if-none _ _ h)))
reported_exactly (capped_at m) n h = cc
reported_exactly unavailable n h = cc

pub available_diff :
    (d : DiffAvailability)
    → unavailable_reason d ≡ none
    → (digest : Sha256Digest) × (d ≡ available digest)
unfolding unavailable_reason
available_diff (available digest) h = (digest, refl)
available_diff _ h = cc
