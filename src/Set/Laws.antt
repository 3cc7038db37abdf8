-- ===== src/Set/Laws.antt =====
-- Membership in a set after an insertion.
use revoot.Prelude.{◌≡◌, ◌↔◌, refl, true, false, ◌||◌, List, [], ◌∷◌, arith, is_empty}
use revoot.Text.{str_eq_iff}
use revoot.Set.{Key, key_eq, has, insert}

pub key_eq_iff : (k l : Key) → (key_eq k l ≡ true) ↔ (k ≡ l)
unfolding key_eq
key_eq_iff [] [] = (λ h. refl, λ h. refl)
key_eq_iff [] (t ∷ l) = (λ h. cc, λ h. cc)
key_eq_iff (s ∷ k) [] = (λ h. cc, λ h. cc)
key_eq_iff (s ∷ k) (t ∷ l) = (
  λ h. ground (arith, str_eq_iff s t, key_eq_iff k l),
  λ h. ground (arith, str_eq_iff s t, key_eq_iff k l),
)

module _ {ℓ} {A : Type ℓ} (key : A → Key) where
  pub has-insert :
      (k : Key) (a : A) (s : List A) → has key k (insert key a s) ≡ key_eq (key a) k || has key k s
  unfolding insert
  has-insert k a [] = refl
  has-insert k a (b ∷ s) = ground (
    arith,
    key_eq_iff (key b) (key a),
    key_eq_iff (key b) k,
    key_eq_iff (key a) k,
    has-insert k a s,
  )

  pub is_empty-insert : (a : A) (s : List A) → is_empty (insert key a s) ≡ false
  unfolding insert
  is_empty-insert a [] = refl
  is_empty-insert a (b ∷ s) = ground arith
