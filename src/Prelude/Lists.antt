-- ===== src/Prelude/Lists.antt =====
-- Lists measured by native numbers, under the library's names.
use Prim.Native.Nat.{ℕ, zero, suc, ◌+◌, ◌-◌}
use mathlib.Core.Path.{◌≡◌, refl, ap, sym, subst}
use mathlib.Core.Logic.{◌⊎◌, inl, inr, ◌↔◌}
use mathlib.Core.Bool.{Bool, true, false, ◌&&◌, ◌||◌}
use revoot.Prelude.Tests.{if◌then◌else◌}
use mathlib.Core.List.{List, [], ◌∷◌, ◌++◌}
use native.Mathlib.Omega.{arith}

module _ {ℓ} {A : Type ℓ} where
  abbrev pub length : List A → ℕ
  length [] = 0
  length (x ∷ xs) = suc (length xs)

  abbrev pub is_empty : List A → Bool
  is_empty [] = true
  is_empty (x ∷ xs) = false

  -- `iter().any` and `iter().all`
  abbrev pub any : (A → Bool) → List A → Bool
  any p [] = false
  any p (x ∷ xs) = p x || any p xs

  abbrev pub all : (A → Bool) → List A → Bool
  all p [] = true
  all p (x ∷ xs) = p x && all p xs

  -- `iter().filter` with a Boolean test
  abbrev pub filter_by : (A → Bool) → List A → List A
  filter_by p [] = []
  filter_by p (x ∷ xs) = let rest = filter_by p xs in if p x then x ∷ rest else rest

  abbrev pub take : ℕ → List A → List A
  take zero xs = []
  take (suc n) [] = []
  take (suc n) (x ∷ xs) = x ∷ take n xs

  -- `split_at`: that many elements, and the others
  abbrev pub split_at : ℕ → List A → List A × List A
  split_at zero xs = ([], xs)
  split_at (suc n) [] = ([], [])
  split_at (suc n) (x ∷ xs) = let (before, after) = split_at n xs in (x ∷ before, after)

  pub split_at-append : (n : ℕ) (xs : List A) → (split_at n xs).0 ++ (split_at n xs).1 ≡ xs
  split_at-append zero xs = refl
  split_at-append (suc n) [] = refl
  split_at-append (suc n) (x ∷ xs) = ap (λ l. x ∷ l) (split_at-append n xs)

  pub length-split_at : (n : ℕ) (xs : List A) → length (split_at n xs).1 ≡ length xs - n
  length-split_at zero xs = omega arith
  length-split_at (suc n) [] = omega arith
  length-split_at (suc n) (x ∷ xs) = omega (arith, length-split_at n xs)

  pub length-append : (xs ys : List A) → length (xs ++ ys) ≡ length xs + length ys
  length-append [] ys = omega arith
  length-append (x ∷ xs) ys = omega (arith, length-append xs ys)

  pub append_assoc : (xs ys zs : List A) → (xs ++ ys) ++ zs ≡ xs ++ (ys ++ zs)
  append_assoc [] ys zs = refl
  append_assoc (x ∷ xs) ys zs = ap (λ l. x ∷ l) (append_assoc xs ys zs)

  pub append_nil : (xs : List A) → xs ++ [] ≡ xs
  append_nil [] = refl
  append_nil (x ∷ xs) = ap (λ l. x ∷ l) (append_nil xs)

  pub List-cases : (xs : List A) → (xs ≡ []) ⊎ ((y : A) × (ys : List A) × (xs ≡ y ∷ ys))
  List-cases [] = inl refl
  List-cases (y ∷ ys) = inr (y, ys, refl)

module _ {ℓ κ} {A : Type ℓ} (P : A → Type κ) where
  abbrev pub All : List A → Type κ
  All [] = Unit
  All (x ∷ xs) = P x × All xs

  pub All-append : (xs ys : List A) → All xs → All ys → All (xs ++ ys)
  All-append [] ys hx hy = hy
  All-append (x ∷ xs) ys hx hy = (hx.0, All-append xs ys hx.1 hy)

-- membership, with its place
abbrev pub IsIn : {A : Type 0} → A → List A → Type 0
IsIn a [] = ⊥
IsIn a (x ∷ xs) = (a ≡ x) ⊎ IsIn a xs

module _ {A : Type 0} where
  pub IsIn-append : (a : A) (xs ys : List A) → IsIn a (xs ++ ys) ↔ (IsIn a xs ⊎ IsIn a ys)
  IsIn-append a [] ys = (λ i. inr i, λ i. elim i [ inl j ↦ absurd j | inr k ↦ k ])
  IsIn-append a (x ∷ xs) ys = (
    λ i. elim i [
      | inl e ↦ inl (inl e)
      | inr j ↦ elim ((IsIn-append a xs ys).0 j) [ inl k ↦ inl (inr k) | inr k ↦ inr k ]
    ],
    λ i. elim i [
      | inl j ↦ elim j [ inl e ↦ inl e | inr k ↦ inr ((IsIn-append a xs ys).1 (inl k)) ]
      | inr k ↦ inr ((IsIn-append a xs ys).1 (inr k))
    ],
  )

  pub All-IsIn : (P : A → Type 0) (a : A) (xs : List A) → All P xs → IsIn a xs → P a
  All-IsIn P a [] h i = absurd i
  All-IsIn P a (x ∷ xs) h (inl e) = subst P (sym e) h.0
  All-IsIn P a (x ∷ xs) h (inr i) = All-IsIn P a xs h.1 i

  pub All-parts :
      (P : A → Type 0) (xs : List A) (y : A) (ys : List A) → All P (xs ++ y ∷ ys) → All P xs × P y
  All-parts P [] y ys h = (tt, h.0)
  All-parts P (x ∷ xs) y ys h = let rest = All-parts P xs y ys h.1 in ((h.0, rest.0), rest.1)
