-- ===== src/Snapshot/Search.antt =====
-- crates/revoot-core/src/snapshot.rs: the binary search in a sorted list of anchors.
use revoot.Prelude.{
  ℕ, ◌+◌, ◌<◌, zero, suc, ◌/◌, ◌≤◌, ◌++◌, subst, All, split_at, split_at-append, length-split_at,
  length, length-append, List-cases, IsIn-append, All-IsIn, All-parts, false, ◌≡◌, ◌∙◌, refl, sym,
  ap, true, Bool-cases, some, some_inj, List, [], ◌∷◌, arith, inl, inr, ◌⊎◌, IsIn,
}
use revoot.Text.{Str, str_eq, str_eq_iff}
use revoot.Map.{str_ltb}
use revoot.Map.Laws.{str_ltb_total}
use revoot.Snapshot.Anchors.{TrustedAnchor, search, anchor_with}
use revoot.Snapshot.Sorted.{IsAscending}

-- the parts of a sorted list around one of its anchors
record Parted (before : List TrustedAnchor) (m : TrustedAnchor) (after : List TrustedAnchor)
    : Type 0 where
  earlier : IsAscending before
  later : IsAscending after
  up_to : All (λ a. str_ltb m.id.as_str a.id.as_str ≡ false) before
  from_on : All (λ a. str_ltb a.id.as_str m.id.as_str ≡ false) after

IsAscending-Parted :
    (before : List TrustedAnchor) (m : TrustedAnchor) (after : List TrustedAnchor)
    → IsAscending (before ++ m ∷ after)
    → Parted before m after
IsAscending-Parted [] m after h = record { earlier = tt; later = h.1; up_to = tt; from_on = h.0 }
IsAscending-Parted (a ∷ before) m after h =
    let rest = IsAscending-Parted before m after h.1 in
    let first = All-parts (λ b. str_ltb b.id.as_str a.id.as_str ≡ false) before m after h.0 in
    record {
      earlier = (first.0, rest.earlier);
      later = rest.later;
      up_to = (first.1, rest.up_to);
      from_on = rest.from_on;
    }

search-IsIn :
    (fuel : ℕ) (id : Str) (s : List TrustedAnchor) {a : TrustedAnchor}
    → search fuel id s ≡ some a
    → IsIn a s × (a.id.as_str ≡ id)
unfolding search
search-IsIn zero id s h = cc
search-IsIn (suc fuel) id s {a} h =
    let half = length s / 2 in
    let before = (split_at half s).0 in
    elim (List-cases (split_at half s).1) [
      | inl none_left ↦ absurd (ground (arith, rw (search, none_left) at h))
      | inr (m, after, e) ↦
          let whole : before ++ m ∷ after ≡ s =
            ap (λ l. before ++ l) (sym e) ∙ split_at-append half s in
          let back : IsIn a (before ++ m ∷ after) → IsIn a s = λ i. subst (IsIn a) whole i in
          elim (Bool-cases (str_eq m.id.as_str id)) [
            | inl same ↦
                let found = some_inj (rw (search, e, same) at h) in
                (
                  back ((IsIn-append a before (m ∷ after)).1 (inr (inl (sym found)))),
                  ap (λ x. x.id.as_str) (sym found) ∙ (str_eq_iff m.id.as_str id).0 same,
                )
            | inr other ↦ elim (Bool-cases (str_ltb m.id.as_str id)) [
              | inl less ↦
                  let r = search-IsIn fuel id after {a = a} (rw (search, e, other, less) at h) in
                  (back ((IsIn-append a before (m ∷ after)).1 (inr (inr r.0))), r.1)
              | inr more ↦
                  let r = search-IsIn fuel id before {a = a} (rw (search, e, other, more) at h) in
                  (back ((IsIn-append a before (m ∷ after)).1 (inl r.0)), r.1)
            ]
          ]
    ]

IsIn-length : (a : TrustedAnchor) (s : List TrustedAnchor) → IsIn a s → 0 < length s
IsIn-length a [] i = absurd i
IsIn-length a (b ∷ s) i = omega arith

-- where an anchor with the id is, if it is not the one in the middle
module _ (id : Str) (a m : TrustedAnchor) (before after : List TrustedAnchor)
    (at : a.id.as_str ≡ id) (other : str_eq m.id.as_str id ≡ false)
    (there : IsIn a before ⊎ IsIn a (m ∷ after)) (parts : Parted before m after) where
  not_middle : a ≡ m → ⊥
  not_middle e =
      let same = (str_eq_iff m.id.as_str id).1 (ap (λ x. x.id.as_str) (sym e) ∙ at) in
      ground (arith, other, same)

  is_after : str_ltb m.id.as_str id ≡ true → IsIn a after
  is_after less = elim there [
    | inl j ↦
        let not_less =
          All-IsIn (λ b. str_ltb m.id.as_str b.id.as_str ≡ false) a before parts.up_to j in
        absurd (ground (arith, less, sym (ap (str_ltb m.id.as_str) at) ∙ not_less))
    | inr k ↦ elim k [ inl e ↦ absurd (not_middle e) | inr l ↦ l ]
  ]

  is_before : str_ltb m.id.as_str id ≡ false → IsIn a before
  is_before more = elim there [
    | inl j ↦ j
    | inr k ↦ elim k [
      | inl e ↦ absurd (not_middle e)
      | inr l ↦
          let not_less =
            All-IsIn (λ b. str_ltb b.id.as_str m.id.as_str ≡ false) a after parts.from_on l in
          let greater = str_ltb_total m.id.as_str id other more in
          absurd (ground (arith, greater, sym (ap (λ x. str_ltb x m.id.as_str) at) ∙ not_less))
    ]
  ]

search-some :
    (fuel : ℕ) (id : Str) (a : TrustedAnchor) (s : List TrustedAnchor)
    → length s ≤ fuel
    → IsAscending s
    → IsIn a s
    → a.id.as_str ≡ id
    → (b : TrustedAnchor) × (search fuel id s ≡ some b)
unfolding search
search-some zero id a s enough h i e = absurd (omega (arith, enough, IsIn-length a s i))
search-some (suc fuel) id a s enough h i at =
    let half = length s / 2 in
    let before = (split_at half s).0 in
    elim (List-cases (split_at half s).1) [
      | inl none_left ↦
          absurd (omega (arith, ap length none_left, length-split_at half s, IsIn-length a s i))
      | inr (m, after, e) ↦
          let whole : before ++ m ∷ after ≡ s =
            ap (λ l. before ++ l) (sym e) ∙ split_at-append half s in
          let parts = IsAscending-Parted before m after (subst IsAscending (sym whole) h) in
          let there = (IsIn-append a before (m ∷ after)).0 (subst (IsIn a) (sym whole) i) in
          let sizes : length before + (length after + 1) ≡ length s =
            omega (arith, ap length whole, length-append before (m ∷ after)) in
          elim (Bool-cases (str_eq m.id.as_str id)) [
            | inl same ↦ (m, rw (search, e, same) refl)
            | inr other ↦ elim (Bool-cases (str_ltb m.id.as_str id)) [
              | inl less ↦
                  let r =
                    search-some fuel id a after (omega (arith, sizes, enough)) parts.later
                      (is_after id a m before after at other there parts less) at in
                  (r.0, rw (search, e, other, less) r.1)
              | inr more ↦
                  let r =
                    search-some fuel id a before (omega (arith, sizes, enough)) parts.earlier
                      (is_before id a m before after at other there parts more) at in
                  (r.0, rw (search, e, other, more) r.1)
            ]
          ]
    ]

pub anchor_with-IsIn :
    (id : Str) (s : List TrustedAnchor) {a : TrustedAnchor}
    → anchor_with id s ≡ some a
    → IsIn a s × (a.id.as_str ≡ id)
unfolding anchor_with
anchor_with-IsIn id s h = search-IsIn (length s) id s h

pub anchor_with-some :
    (id : Str) (a : TrustedAnchor) (s : List TrustedAnchor)
    → IsAscending s
    → IsIn a s
    → a.id.as_str ≡ id
    → (b : TrustedAnchor) × (anchor_with id s ≡ some b)
unfolding anchor_with
anchor_with-some id a s h i e = search-some (length s) id a s (omega arith) h i e
