-- ===== src/Snapshot/Sorted.antt =====
-- crates/revoot-core/src/snapshot.rs: a sorted list of anchors, and the search in it.
use revoot.Prelude.{
  ◌≡◌, ◌↔◌, ◌∙◌, refl, sym, ap, true, false, Bool-cases, List, [], ◌∷◌, arith, inl, inr, ◌⊎◌, IsIn,
  All,
}
use revoot.Map.{str_ltb}
use revoot.Map.Laws.{str_ltb_asym, str_ltb_apart}
use revoot.Set.{has, insert}
use revoot.Set.Laws.{key_eq_iff, has-insert}
use revoot.Snapshot.Anchors.{TrustedAnchor, id_key, insert_sorted, sort_by_id}

-- sorting keeps the elements
insert_sorted-IsIn :
    (a b : TrustedAnchor) (s : List TrustedAnchor)
    → IsIn b (insert_sorted a s) ↔ ((b ≡ a) ⊎ IsIn b s)
unfolding insert_sorted
insert_sorted-IsIn a b [] = (λ i. i, λ i. i)
insert_sorted-IsIn a b (c ∷ s) = elim (Bool-cases (str_ltb c.id.as_str a.id.as_str)) [
  | inl less ↦ rw (insert_sorted, less) (swap (insert_sorted-IsIn a b s))
  | inr more ↦ rw (insert_sorted, more) (λ i. i, λ i. i)
]
  where
    swap :
        (IsIn b (insert_sorted a s) ↔ ((b ≡ a) ⊎ IsIn b s))
        → ((b ≡ c) ⊎ IsIn b (insert_sorted a s)) ↔ ((b ≡ a) ⊎ ((b ≡ c) ⊎ IsIn b s))
    swap f = (
      λ i. elim i [
        | inl e ↦ inr (inl e)
        | inr j ↦ elim (f.0 j) [ inl e ↦ inl e | inr k ↦ inr (inr k) ]
      ],
      λ i. elim i [
        | inl e ↦ inr (f.1 (inl e))
        | inr j ↦ elim j [ inl e ↦ inl e | inr k ↦ inr (f.1 (inr k)) ]
      ],
    )

pub sort_by_id-IsIn :
    (b : TrustedAnchor) (s : List TrustedAnchor) → IsIn b (sort_by_id s) ↔ IsIn b s
unfolding sort_by_id
sort_by_id-IsIn b [] = (λ i. i, λ i. i)
sort_by_id-IsIn b (a ∷ s) =
    let rest = sort_by_id-IsIn b s in
    let first = insert_sorted-IsIn a b (sort_by_id s) in
    (
      λ i. elim (first.0 i) [ inl e ↦ inl e | inr j ↦ inr (rest.0 j) ],
      λ i. elim i [ inl e ↦ first.1 (inl e) | inr j ↦ first.1 (inr (rest.1 j)) ],
    )

-- no anchor comes before one that stands before it
abbrev pub IsAscending : List TrustedAnchor → Type 0
IsAscending [] = Unit
IsAscending (a ∷ s) = All (λ b. str_ltb b.id.as_str a.id.as_str ≡ false) s × IsAscending s

All-insert_sorted :
    (P : TrustedAnchor → Type 0) (a : TrustedAnchor) (s : List TrustedAnchor)
    → P a
    → All P s
    → All P (insert_sorted a s)
unfolding insert_sorted
All-insert_sorted P a [] p h = (p, tt)
All-insert_sorted P a (b ∷ s) p h = elim (Bool-cases (str_ltb b.id.as_str a.id.as_str)) [
  | inl less ↦ rw less (h.0, All-insert_sorted P a s p h.1)
  | inr more ↦ rw more (p, h)
]

none_before :
    (a b : TrustedAnchor) (s : List TrustedAnchor)
    → str_ltb b.id.as_str a.id.as_str ≡ false
    → All (λ c. str_ltb c.id.as_str b.id.as_str ≡ false) s
    → All (λ c. str_ltb c.id.as_str a.id.as_str ≡ false) s
none_before a b [] h k = tt
none_before a b (c ∷ s) h k =
    (str_ltb_apart a.id.as_str b.id.as_str c.id.as_str h k.0, none_before a b s h k.1)

insert_sorted-IsAscending :
    (a : TrustedAnchor) (s : List TrustedAnchor) → IsAscending s → IsAscending (insert_sorted a s)
unfolding insert_sorted
insert_sorted-IsAscending a [] h = (tt, tt)
insert_sorted-IsAscending a (b ∷ s) h = elim (Bool-cases (str_ltb b.id.as_str a.id.as_str)) [
  | inl less ↦ rw less (
    All-insert_sorted (λ c. str_ltb c.id.as_str b.id.as_str ≡ false) a s
        (str_ltb_asym b.id.as_str a.id.as_str less) h.0,
    insert_sorted-IsAscending a s h.1,
  )
  | inr more ↦ rw more ((more, none_before a b s more h.0), h)
]

pub sort_by_id-IsAscending : (s : List TrustedAnchor) → IsAscending (sort_by_id s)
unfolding sort_by_id
sort_by_id-IsAscending [] = tt
sort_by_id-IsAscending (a ∷ s) =
    insert_sorted-IsAscending a (sort_by_id s) (sort_by_id-IsAscending s)

-- no id twice, and none of those before
abbrev pub Fresh : List TrustedAnchor → List TrustedAnchor → Type 0
Fresh ids [] = Unit
Fresh ids (a ∷ s) = (has id_key (id_key a) ids ≡ false) × Fresh (insert id_key a ids) s

seen_before :
    (ids s : List TrustedAnchor) (a b : TrustedAnchor)
    → Fresh ids s
    → has id_key (id_key b) ids ≡ true
    → IsIn a s
    → a.id.as_str ≡ b.id.as_str
    → ⊥
seen_before ids [] a b h known i e = i
seen_before ids (c ∷ s) a b h known (inl here) e =
    let same = ap (λ x. has id_key (x ∷ []) ids) (ap (λ x. x.id.as_str) (sym here) ∙ e) in
    ground (arith, h.0, known, same)
seen_before ids (c ∷ s) a b h known (inr later) e =
    seen_before (insert id_key c ids) s a b h.1
      (ground (arith, has-insert id_key (id_key b) c ids, known)) later e

pub own :
    (c : TrustedAnchor) (ids : List TrustedAnchor)
    → has id_key (id_key c) (insert id_key c ids) ≡ true
own c ids =
    ground (arith, has-insert id_key (id_key c) c ids, (key_eq_iff (id_key c) (id_key c)).1 refl)

pub only_one :
    (ids s : List TrustedAnchor) (a b : TrustedAnchor)
    → Fresh ids s
    → IsIn a s
    → IsIn b s
    → a.id.as_str ≡ b.id.as_str
    → a ≡ b
only_one ids [] a b h i j e = elim i [ ]
only_one ids (c ∷ s) a b h (inl i) (inl j) e = i ∙ sym j
only_one ids (c ∷ s) a b h (inr i) (inr j) e = only_one (insert id_key c ids) s a b h.1 i j e
only_one ids (c ∷ s) a b h (inl i) (inr j) e =
    absurd
      (seen_before (insert id_key c ids) s b c h.1 (own c ids) j (sym e ∙ ap (λ x. x.id.as_str) i))
only_one ids (c ∷ s) a b h (inr i) (inl j) e =
    absurd (seen_before (insert id_key c ids) s a c h.1 (own c ids) i (e ∙ ap (λ x. x.id.as_str) j))
