-- ===== src/Findings/Entries.antt =====
-- crates/revoot-core/src/findings.rs: what a finding does to the entries of a ranking.
use revoot.Prelude.{
  ℕ, ◌+◌, ◌≡◌, refl, subst, Bool, true, false, Bool-cases, none, List, [], ◌∷◌, arith, inl, inr,
  length, All, if◌then◌else◌, ok, ok_inj, and_then-ok, checked_add, u32_max, Option-cases,
}
use revoot.Set.{Key, key_eq, key_ltb, find, has, insert}
use revoot.Findings.Ranking.{RankedFinding, preferred}
use revoot.Findings.Pipeline.{
  Ranking, ranked_key, or_error, duplicate_overflow, replace, enter, insert_ranked, sort_ranked,
}

find-has :
    (k : Key) (s : List RankedFinding) → find ranked_key k s ≡ none → has ranked_key k s ≡ false
unfolding find
find-has k [] h = refl
find-has k (a ∷ s) h = elim (Bool-cases (key_eq (ranked_key a) k)) [
  | inl same ↦ absurd (ground (arith, rw (find, same) at h))
  | inr other ↦ rw other (find-has k s (rw (find, other) at h))
]

length-insert :
    (a : RankedFinding) (s : List RankedFinding)
    → has ranked_key (ranked_key a) s ≡ false
    → length (insert ranked_key a s) ≡ length s + 1
unfolding insert
length-insert a [] h = omega arith
length-insert a (b ∷ s) h = ground (arith, length-insert a s, h)

length-replace : (a : RankedFinding) (s : List RankedFinding) → length (replace a s) ≡ length s
unfolding replace
length-replace a [] = refl
length-replace a (b ∷ s) = ground (arith, length-replace a s)

length-kept :
    (b : Bool) (a : RankedFinding) (s : List RankedFinding)
    → length (if b then replace a s else s) ≡ length s
length-kept true a s = length-replace a s
length-kept false a s = refl

one_more :
    (d : ℕ) {n : ℕ} → or_error duplicate_overflow (checked_add u32_max d 1) ≡ ok n → n ≡ d + 1
one_more d h = ground arith

length-insert_ranked :
    (a : RankedFinding) (s : List RankedFinding) → length (insert_ranked a s) ≡ length s + 1
unfolding insert_ranked
length-insert_ranked a [] = omega arith
length-insert_ranked a (b ∷ s) = ground (arith, length-insert_ranked a s)

pub length-sort_ranked : (s : List RankedFinding) → length (sort_ranked s) ≡ length s
unfolding sort_ranked
length-sort_ranked [] = refl
length-sort_ranked (a ∷ s) =
    omega (arith, length-insert_ranked a (sort_ranked s), length-sort_ranked s)

module _ (P : RankedFinding → Type 0) where
  All-if : (b : Bool) (s t : List RankedFinding) → All P s → All P t → All P (if b then s else t)
  All-if true s t hs ht = hs
  All-if false s t hs ht = ht

  pub All-insert :
      (a : RankedFinding) (s : List RankedFinding) → P a → All P s → All P (insert ranked_key a s)
  unfolding insert
  All-insert a [] p h = (p, tt)
  All-insert a (b ∷ s) p h =
      All-if (key_eq (ranked_key b) (ranked_key a)) _ _ h
        (All-if (key_ltb (ranked_key a) (ranked_key b)) _ _ (p, h) (h.0, All-insert a s p h.1))

  pub All-replace :
      (a : RankedFinding) (s : List RankedFinding) → P a → All P s → All P (replace a s)
  unfolding replace
  All-replace a [] p h = tt
  All-replace a (b ∷ s) p h =
      All-if (key_eq (ranked_key b) (ranked_key a)) _ _ (p, h.1) (h.0, All-replace a s p h.1)

  pub All-insert_ranked :
      (a : RankedFinding) (s : List RankedFinding) → P a → All P s → All P (insert_ranked a s)
  unfolding insert_ranked
  All-insert_ranked a [] p h = (p, tt)
  All-insert_ranked a (b ∷ s) p h =
      All-if (preferred b a) _ _ (h.0, All-insert_ranked a s p h.1) (p, h)

  pub All-sort_ranked : (s : List RankedFinding) → All P s → All P (sort_ranked s)
  unfolding sort_ranked
  All-sort_ranked [] h = tt
  All-sort_ranked (a ∷ s) h = All-insert_ranked a (sort_ranked s) h.0 (All-sort_ranked s h.1)

  -- the entries after one more finding, with as many findings as were given
  pub record IsEntered (r s : Ranking) : Type 0 where
    pub each : All P s.by_key
    pub counted : length s.by_key + s.duplicates ≡ length r.by_key + r.duplicates + 1
    pub given : s.input_findings ≡ r.input_findings

  pub enter-IsEntered :
      (a : RankedFinding) (r : Ranking) {s : Ranking}
      → P a
      → All P r.by_key
      → enter a r ≡ ok s
      → IsEntered r s
  unfolding enter
  enter-IsEntered a r {s} p h e = elim (Option-cases (find ranked_key (ranked_key a) r.by_key)) [
    | inl gone ↦ subst (IsEntered r) (ok_inj (rw (enter, gone) at e)) (record {
      each = All-insert a r.by_key p h;
      counted = omega (arith, length-insert a r.by_key (find-has (ranked_key a) r.by_key gone));
      given = refl;
    })
    | inr (there, found) ↦
        let t =
          and_then-ok (or_error duplicate_overflow (checked_add u32_max r.duplicates 1)) _
            (rw (enter, found) at e) in
        subst (IsEntered r) (ok_inj t.2) (record {
          each = All-if (preferred a there) _ _ (All-replace a r.by_key p h) h;
          counted =
              omega (arith, one_more r.duplicates t.1, length-kept (preferred a there) a r.by_key);
          given = refl;
        })
  ]
