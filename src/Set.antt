-- ===== src/Set.antt =====
-- `BTreeSet` and `BTreeMap` whose elements have a key: the elements in the order of their keys.
-- A key is a list of texts, compared as derived orders compare fields: the first that differs decides.
pub mod Laws
use revoot.Prelude.{
  ℕ, Bool, true, false, not, ◌&&◌, ◌||◌, Option, none, some, List, [], ◌∷◌, if◌then◌else◌, any,
  is_some,
}
use revoot.Text.{Str, str_eq}
use revoot.Map.{str_ltb}

abbrev pub Key : Type 0
Key = List Str

unfoldable pub key_eq : Key → Key → Bool
key_eq [] [] = true
key_eq (s ∷ k) (t ∷ l) = str_eq s t && key_eq k l
key_eq _ _ = false

unfoldable pub key_ltb : Key → Key → Bool
unfolding str_ltb
key_ltb [] [] = false
key_ltb [] (t ∷ l) = true
key_ltb (s ∷ k) [] = false
key_ltb (s ∷ k) (t ∷ l) = str_ltb s t || (str_eq s t && key_ltb k l)

module _ {ℓ} {A : Type ℓ} (key : A → Key) where
  abbrev pub has : Key → List A → Bool
  has k s = any (λ a. key_eq (key a) k) s

  -- `BTreeSet::insert`, which keeps an element that is there
  unfoldable pub insert : A → List A → List A
  unfolding key_eq key_ltb
  insert a [] = a ∷ []
  insert a (b ∷ s) =
      let rest = insert a s in
      if key_eq (key b) (key a)
      then b ∷ s
      else if key_ltb (key a) (key b)
      then a ∷ b ∷ s
      else b ∷ rest

  -- `BTreeMap::insert`, which replaces the value that is there
  unfoldable pub put : A → List A → List A
  unfolding key_eq key_ltb
  put a [] = a ∷ []
  put a (b ∷ s) =
      let rest = put a s in
      if key_eq (key b) (key a)
      then a ∷ s
      else if key_ltb (key a) (key b)
      then a ∷ b ∷ s
      else b ∷ rest

  unfoldable pub find : Key → List A → Option A
  unfolding key_eq
  find k [] = none
  find k (a ∷ s) = if key_eq (key a) k then some a else find k s
