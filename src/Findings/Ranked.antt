-- ===== src/Findings/Ranked.antt =====
-- crates/revoot-core/src/findings.rs: the order of the findings of a review, and their keys.
use revoot.Prelude.{
  ◌≡◌, subst, Bool, true, false, Bool-cases, none, List, [], ◌∷◌, arith, inl, inr, All,
  if◌then◌else◌, ok, ok_inj, and_then-ok, checked_add, u32_max, Option-cases,
}
use revoot.Text.{str_eq_iff}
use revoot.Map.Laws.{str_ltb_asym, str_ltb_irrefl}
use revoot.Set.{Key, key_eq, key_ltb, find, insert}
use revoot.Set.Laws.{key_eq_iff}
use revoot.Findings.Ranking.{RankedFinding, preferred}
use revoot.Findings.Pipeline.{
  Ranking, ranked_key, or_error, duplicate_overflow, replace, enter, insert_ranked, sort_ranked,
}
use revoot.Findings.Entries.{All-insert, All-replace, All-insert_ranked}

-- A finding whose key is not that of another.
abbrev Differs : RankedFinding → RankedFinding → Type 0
Differs a b = key_eq (ranked_key a) (ranked_key b) ≡ false

-- No two findings have the same key.
abbrev pub IsUnrepeated : List RankedFinding → Type 0
IsUnrepeated [] = Unit {0}
IsUnrepeated (a ∷ s) = All (Differs a) s × IsUnrepeated s

-- The first of a list does not come before a finding.
abbrev Leads : RankedFinding → List RankedFinding → Type 0
Leads a [] = Unit {0}
Leads a (b ∷ s) = preferred b a ≡ false

-- No finding comes before the one that stands before it.
abbrev pub IsInOrder : List RankedFinding → Type 0
IsInOrder [] = Unit {0}
IsInOrder (a ∷ s) = Leads a s × IsInOrder s

key_eq_sym : (k l : Key) → key_eq k l ≡ false → key_eq l k ≡ false
key_eq_sym k l h = ground (arith, key_eq_iff k l, key_eq_iff l k)

find-All :
    (k : Key) (s : List RankedFinding)
    → find ranked_key k s ≡ none
    → All (λ b. key_eq (ranked_key b) k ≡ false) s
unfolding find
find-All k [] h = tt
find-All k (a ∷ s) h = elim (Bool-cases (key_eq (ranked_key a) k)) [
  | inl same ↦ absurd (ground (arith, rw (find, same) at h))
  | inr other ↦ (other, find-All k s (rw (find, other) at h))
]

All-sym :
    (a : RankedFinding) (s : List RankedFinding)
    → All (λ b. key_eq (ranked_key b) (ranked_key a) ≡ false) s
    → All (Differs a) s
All-sym a [] h = tt
All-sym a (b ∷ s) h = (key_eq_sym (ranked_key b) (ranked_key a) h.0, All-sym a s h.1)

insert-IsUnrepeated :
    (a : RankedFinding) (s : List RankedFinding)
    → All (Differs a) s
    → IsUnrepeated s
    → IsUnrepeated (insert ranked_key a s)
unfolding insert
insert-IsUnrepeated a [] away h = (tt, tt)
insert-IsUnrepeated a (b ∷ s) away h =
    let apart = key_eq_sym (ranked_key a) (ranked_key b) away.0 in
    elim (Bool-cases (key_ltb (ranked_key a) (ranked_key b))) [
      | inl less ↦ rw (insert, apart, less) (away, h)
      | inr more ↦
          rw (insert, apart, more)
            (All-insert (Differs b) a s apart h.0, insert-IsUnrepeated a s away.1 h.1)
    ]

replace-IsUnrepeated :
    (a : RankedFinding) (s : List RankedFinding) → IsUnrepeated s → IsUnrepeated (replace a s)
unfolding replace
replace-IsUnrepeated a [] h = tt
replace-IsUnrepeated a (b ∷ s) h = elim (Bool-cases (key_eq (ranked_key b) (ranked_key a))) [
  | inl same ↦ rw same (
    subst (λ k. All (λ c. key_eq k (ranked_key c) ≡ false) s)
        ((key_eq_iff (ranked_key b) (ranked_key a)).0 same) h.0,
    h.1,
  )
  | inr other ↦ rw other (All-replace (Differs b) a s other h.0, replace-IsUnrepeated a s h.1)
]

insert_ranked-IsUnrepeated :
    (a : RankedFinding) (s : List RankedFinding)
    → All (Differs a) s
    → IsUnrepeated s
    → IsUnrepeated (insert_ranked a s)
unfolding insert_ranked
insert_ranked-IsUnrepeated a [] away h = (tt, tt)
insert_ranked-IsUnrepeated a (b ∷ s) away h = elim (Bool-cases (preferred b a)) [
  | inl first ↦ rw first (
    All-insert_ranked (Differs b) a s (key_eq_sym (ranked_key a) (ranked_key b) away.0) h.0,
    insert_ranked-IsUnrepeated a s away.1 h.1,
  )
  | inr later ↦ rw later (away, h)
]

All-sort_ranked-Differs :
    (a : RankedFinding) (s : List RankedFinding)
    → All (Differs a) s
    → All (Differs a) (sort_ranked s)
unfolding sort_ranked
All-sort_ranked-Differs a [] h = tt
All-sort_ranked-Differs a (b ∷ s) h =
    All-insert_ranked (Differs a) b (sort_ranked s) h.0 (All-sort_ranked-Differs a s h.1)

pub sort_ranked-IsUnrepeated :
    (s : List RankedFinding) → IsUnrepeated s → IsUnrepeated (sort_ranked s)
unfolding sort_ranked
sort_ranked-IsUnrepeated [] h = tt
sort_ranked-IsUnrepeated (a ∷ s) h =
    insert_ranked-IsUnrepeated a (sort_ranked s) (All-sort_ranked-Differs a s h.0)
      (sort_ranked-IsUnrepeated s h.1)

preferred_asym : (a b : RankedFinding) → preferred a b ≡ true → preferred b a ≡ false
unfolding preferred
preferred_asym a b h = ground (
  arith,
  str_eq_iff a.finding_key.as_str b.finding_key.as_str,
  str_eq_iff b.finding_key.as_str a.finding_key.as_str,
  str_eq_iff a.content_digest.as_str b.content_digest.as_str,
  str_eq_iff b.content_digest.as_str a.content_digest.as_str,
  str_ltb_irrefl a.finding_key.as_str,
  str_ltb_irrefl a.content_digest.as_str,
  str_ltb_asym a.finding_key.as_str b.finding_key.as_str,
  str_ltb_asym a.content_digest.as_str b.content_digest.as_str,
  str_ltb_asym a.anchor_id.as_str b.anchor_id.as_str,
)

insert_ranked-Leads :
    (a b : RankedFinding) (s : List RankedFinding)
    → preferred a b ≡ false
    → Leads b s
    → Leads b (insert_ranked a s)
unfolding insert_ranked
insert_ranked-Leads a b [] h k = h
insert_ranked-Leads a b (c ∷ s) h k = elim (Bool-cases (preferred c a)) [
  | inl first ↦ rw first k
  | inr later ↦ rw later h
]

insert_ranked-IsInOrder :
    (a : RankedFinding) (s : List RankedFinding) → IsInOrder s → IsInOrder (insert_ranked a s)
unfolding insert_ranked
insert_ranked-IsInOrder a [] h = (tt, tt)
insert_ranked-IsInOrder a (b ∷ s) h = elim (Bool-cases (preferred b a)) [
  | inl first ↦
      rw first
        (insert_ranked-Leads a b s (preferred_asym b a first) h.0, insert_ranked-IsInOrder a s h.1)
  | inr later ↦ rw later (later, h)
]

pub sort_ranked-IsInOrder : (s : List RankedFinding) → IsInOrder (sort_ranked s)
unfolding sort_ranked
sort_ranked-IsInOrder [] = tt
sort_ranked-IsInOrder (a ∷ s) = insert_ranked-IsInOrder a (sort_ranked s) (sort_ranked-IsInOrder s)

if-IsUnrepeated :
    (b : Bool) (s t : List RankedFinding)
    → IsUnrepeated s
    → IsUnrepeated t
    → IsUnrepeated (if b then s else t)
if-IsUnrepeated true s t hs ht = hs
if-IsUnrepeated false s t hs ht = ht

pub enter-IsUnrepeated :
    (a : RankedFinding) (r : Ranking) {s : Ranking}
    → IsUnrepeated r.by_key
    → enter a r ≡ ok s
    → IsUnrepeated s.by_key
unfolding enter
enter-IsUnrepeated a r {s} h e = elim (Option-cases (find ranked_key (ranked_key a) r.by_key)) [
  | inl gone ↦
      subst (λ s. IsUnrepeated s.by_key) (ok_inj (rw (enter, gone) at e))
        (insert-IsUnrepeated a r.by_key (All-sym a r.by_key (find-All (ranked_key a) r.by_key gone))
          h)
  | inr (there, found) ↦
      let t =
        and_then-ok (or_error duplicate_overflow (checked_add u32_max r.duplicates 1)) _
          (rw (enter, found) at e) in
      subst (λ s. IsUnrepeated s.by_key) (ok_inj t.2)
        (if-IsUnrepeated (preferred a there) _ _ (replace-IsUnrepeated a r.by_key h) h)
]
