-- ===== src/Snapshot/Unblocked.antt =====
-- crates/revoot-core/src/snapshot.rs: the checks of a binding that leave no blocker.
use revoot.Prelude.{
  ℕ, ◌<◌, ◌≡◌, ◌↔◌, ◌∙◌, refl, ap, subst, Bool, true, false, ◌&&◌, List, [], ◌∷◌, arith, is_empty,
  leb,
}
use revoot.Text.{str_eq_iff}
use revoot.Set.{insert}
use revoot.Set.Laws.{is_empty-insert}
use revoot.Snapshot.{DiffRefs, DiffVersionRecord}
use revoot.Snapshot.Binding.{
  IdentityBlocker, identity_blocker_key, diff_versions_not_newest_first, same_refs, block_if,
  check_order,
}

-- each id is greater than the next one
abbrev pub IsNewestFirst : List DiffVersionRecord → Type 0
IsNewestFirst [] = Unit
IsNewestFirst (v ∷ []) = Unit
IsNewestFirst (v ∷ w ∷ vs) = (w.id < v.id) × IsNewestFirst (w ∷ vs)

pub insert-ne-nil :
    (b : IdentityBlocker) (s : List IdentityBlocker) → insert identity_blocker_key b s ≡ [] → ⊥
insert-ne-nil b s h = ground (arith, is_empty-insert identity_blocker_key b s, ap is_empty h)

pub block_if-nil :
    (c : Bool) (b : IdentityBlocker) (s : List IdentityBlocker)
    → block_if c b s ≡ []
    → (c ≡ false) × (s ≡ [])
block_if-nil true b s h = absurd (insert-ne-nil b s h)
block_if-nil false b s h = (refl, h)

pub check_order-nil :
    (vs : List DiffVersionRecord) (s : List IdentityBlocker)
    → (check_order vs s ≡ []) ↔ (IsNewestFirst vs × (s ≡ []))
unfolding check_order
check_order-nil [] s = (λ h. (tt, h), λ h. h.1)
check_order-nil (v ∷ []) s = (λ h. (tt, h), λ h. h.1)
check_order-nil (v ∷ w ∷ vs) s =
    let rest =
      check_order-nil (w ∷ vs)
        (block_if (leb v.id w.id) (diff_versions_not_newest_first v.id w.id) s) in
    (
      λ h.
          let r = rest.0 h in
          let first =
            block_if-nil (leb v.id w.id) (diff_versions_not_newest_first v.id w.id) s r.1 in
          ((less v.id w.id first.0, r.0), first.1),
      λ h. rest.1 (
        h.0.1,
        ap (λ b. block_if b (diff_versions_not_newest_first v.id w.id) s) (more v.id w.id h.0.0)
            ∙ h.1,
      ),
    )
  where
    less : (a b : ℕ) → leb a b ≡ false → b < a
    less a b h = ground arith

    more : (a b : ℕ) → b < a → leb a b ≡ false
    more a b h = ground arith

pub same_refs_iff : (r s : DiffRefs) → (same_refs r s ≡ true) ↔ (r ≡ s)
same_refs_iff r s = (
  λ h.
      let t = parts _ _ _ h in
      refs_same ((str_eq_iff _ _).0 t.0) ((str_eq_iff _ _).0 t.1) ((str_eq_iff _ _).0 t.2),
  λ e.
      subst (λ s. same_refs r s ≡ true) e
        (whole ((str_eq_iff r.base_sha.as_str _).1 refl) ((str_eq_iff r.start_sha.as_str _).1 refl)
          ((str_eq_iff r.head_sha.as_str _).1 refl)),
)
  where
    parts : (a b c : Bool) → (a && b && c) ≡ true → (a ≡ true) × (b ≡ true) × (c ≡ true)
    parts a b c h = ground arith

    whole : {a b c : Bool} → a ≡ true → b ≡ true → c ≡ true → (a && b && c) ≡ true
    whole f g h = ground (arith, f, g, h)

    refs_same :
        {a b c x y z : List ℕ}
        → a ≡ x
        → b ≡ y
        → c ≡ z
        → ◌≡◌ {A = DiffRefs}
            (record {
              base_sha = record { as_str = a };
              start_sha = record { as_str = b };
              head_sha = record { as_str = c };
            })
            (record {
              base_sha = record { as_str = x };
              start_sha = record { as_str = y };
              head_sha = record { as_str = z };
            })
    refs_same f g h = cc
