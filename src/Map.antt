-- ===== src/Map.antt =====
-- `BTreeMap` with text keys: the entries in key order. Lookups are by equality of keys.
pub mod Laws
use mathlib.Core.List.{filter}
use revoot.Prelude.{
  ℕ, Bool, true, false, ◌&&◌, ◌||◌, Option, none, some, List, [], ◌∷◌, ltb, ◌==◌, if◌then◌else◌,
  is_some,
}
use revoot.Text.{Str, str_eq}

-- the order of `str`: bytes in UTF-8 are ordered as the scalar values are
unfoldable pub str_ltb : Str → Str → Bool
str_ltb [] [] = false
str_ltb [] (d ∷ t) = true
str_ltb (c ∷ s) [] = false
str_ltb (c ∷ s) (d ∷ t) = ltb c d || (c == d && str_ltb s t)

abbrev pub Map {ℓ} : Type ℓ → Type ℓ
Map V = List (Str × V)

module _ {ℓ} {V : Type ℓ} where
  unfoldable pub lookup : Str → Map V → Option V
  lookup k [] = none
  lookup k ((j, v) ∷ m) = if str_eq j k then some v else lookup k m

  abbrev pub contains_key : Str → Map V → Bool
  contains_key k m = is_some (lookup k m)

  unfoldable pub insert : Str → V → Map V → Map V
  unfolding str_ltb
  insert k v [] = (k, v) ∷ []
  insert k v ((j, w) ∷ m) =
      let rest = insert k v m in
      if str_eq j k then (k, v) ∷ m else if str_ltb k j then (k, v) ∷ (j, w) ∷ m else (j, w) ∷ rest

  -- a write through `get_mut`
  unfoldable pub write : Str → V → Map V → Map V
  write k v [] = []
  write k v ((j, w) ∷ m) =
      let rest = write k v m in if str_eq j k then (j, v) ∷ m else (j, w) ∷ rest

  abbrev pub values : Map V → List V
  values [] = []
  values ((k, v) ∷ m) = v ∷ values m
