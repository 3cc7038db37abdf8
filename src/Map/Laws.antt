-- ===== src/Map/Laws.antt =====
-- The laws of maps: lookup after a write, and counting values.
use revoot.Prelude.{
  ℕ, ◌+◌, ◌≡◌, refl, Bool, true, false, some, List, [], ◌∷◌, arith, if◌then◌else◌, Bool-cases, inl,
  inr,
}
use revoot.Text.{Str, str_eq, str_eq_iff}
use revoot.Map.{str_ltb, Map, lookup, insert, write, values}

module _ {ℓ} {V : Type ℓ} where
  pub lookup-insert :
      (k j : Str) (v : V) (m : Map V)
      → lookup j (insert k v m) ≡ (if str_eq k j then some v else lookup j m)
  unfolding lookup insert
  lookup-insert k j v [] = refl
  lookup-insert k j v ((i, w) ∷ m) =
      ground (arith, str_eq_iff k j, str_eq_iff i k, str_eq_iff i j, lookup-insert k j v m)

  pub lookup-write_self :
      (k : Str) (v : V) (m : Map V) {w : V} → lookup k m ≡ some w → lookup k (write k v m) ≡ some v
  unfolding lookup write
  lookup-write_self k v [] h = cc
  lookup-write_self k v ((i, u) ∷ m) {w} h = ground (arith, lookup-write_self k v m {w = w})

  pub lookup-write_ne :
      (k j : Str) (v : V) (m : Map V) → str_eq k j ≡ false → lookup j (write k v m) ≡ lookup j m
  unfolding lookup write
  lookup-write_ne k j v [] h = refl
  lookup-write_ne k j v ((i, u) ∷ m) h =
      ground (arith, str_eq_iff k j, str_eq_iff i k, str_eq_iff i j, lookup-write_ne k j v m)

-- The sum of the values' weights.
abbrev pub total {ℓ} : {V : Type ℓ} → (V → ℕ) → List V → ℕ
total w [] = 0
total w (v ∷ vs) = w v + total w vs

-- A write takes the old value's weight out of the sum and puts the new one's in.
pub total-write {ℓ} :
    {V : Type ℓ} (w : V → ℕ) (k : Str) (v : V) (m : Map V) {old : V}
    → lookup k m ≡ some old
    → total w (values (write k v m)) + w old ≡ total w (values m) + w v
unfolding lookup write
total-write w k v [] h = cc
total-write w k v ((i, u) ∷ m) {old} h = elim (Bool-cases (str_eq i k)) [
  | inl here ↦ let same : u ≡ old = ground (arith, here) in rw (here, same) (omega arith)
  | inr there ↦ rw there (omega (arith, total-write w k v m {old = old} (ground (arith, there))))
]

-- How many values pass a test.
abbrev pub count {ℓ} : {V : Type ℓ} → (V → Bool) → List V → ℕ
count p vs = total (λ v. if p v then 1 else 0) vs

module _ {ℓ} {V : Type ℓ} where
  abbrev pub keys : Map V → List Str
  keys [] = []
  keys ((k, v) ∷ m) = k ∷ keys m

  pub keys-write : (k : Str) (v : V) (m : Map V) → keys (write k v m) ≡ keys m
  unfolding write
  keys-write k v [] = refl
  keys-write k v ((j, w) ∷ m) = ground (arith, str_eq_iff j k, keys-write k v m)

pub str_ltb_asym : (s t : Str) → str_ltb s t ≡ true → str_ltb t s ≡ false
unfolding str_ltb
str_ltb_asym [] [] h = cc
str_ltb_asym [] (d ∷ t) h = refl
str_ltb_asym (c ∷ s) [] h = cc
str_ltb_asym (c ∷ s) (d ∷ t) h = ground (arith, str_ltb_asym s t)

pub str_ltb_irrefl : (s : Str) → str_ltb s s ≡ false
unfolding str_ltb
str_ltb_irrefl [] = refl
str_ltb_irrefl (c ∷ s) = ground (arith, str_ltb_irrefl s)

pub str_ltb_total : (s t : Str) → str_eq s t ≡ false → str_ltb s t ≡ false → str_ltb t s ≡ true
unfolding str_ltb str_eq
str_ltb_total [] [] h k = cc
str_ltb_total [] (d ∷ t) h k = cc
str_ltb_total (c ∷ s) [] h k = refl
str_ltb_total (c ∷ s) (d ∷ t) h k = ground (arith, str_ltb_total s t)

-- a text that does not come after another, which does not come after a third
pub str_ltb_apart : (s t u : Str) → str_ltb t s ≡ false → str_ltb u t ≡ false → str_ltb u s ≡ false
unfolding str_ltb
str_ltb_apart [] [] [] h k = refl
str_ltb_apart [] [] (e ∷ u) h k = refl
str_ltb_apart [] (d ∷ t) [] h k = cc
str_ltb_apart [] (d ∷ t) (e ∷ u) h k = refl
str_ltb_apart (c ∷ s) [] u h k = cc
str_ltb_apart (c ∷ s) (d ∷ t) [] h k = cc
str_ltb_apart (c ∷ s) (d ∷ t) (e ∷ u) h k = ground (arith, str_ltb_apart s t u)
