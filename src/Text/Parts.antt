-- ===== src/Text/Parts.antt =====
-- What the parts say of a text that is taken apart: by a prefix, at a separator, or at a character.
use mathlib.Core.List.{reverse, reverse-append, reverse-reverse}
use revoot.Prelude.{
  ℕ, ◌≡◌, ◌∙◌, refl, sym, ap, true, false, Bool-cases, Option-cases, some, some_inj, List, [], ◌∷◌,
  ◌++◌, arith, any, ◌==◌, ==_iff, inl, inr, All,
}
use revoot.Text.{Str}
use revoot.Text.Search.{starts_with, ends_with, strip_prefix}
use revoot.Text.Split.{split_first, split, split_once}

pub strip_prefix-eq : (p s : Str) {r : Str} → strip_prefix s p ≡ some r → s ≡ p ++ r
unfolding strip_prefix
strip_prefix-eq [] s h = some_inj h
strip_prefix-eq (c ∷ p) [] h = cc
strip_prefix-eq (c ∷ p) (d ∷ s) {r} h = elim (Bool-cases (d == c)) [
  | inl same ↦
      ap (λ x. x ∷ s) ((==_iff d c).0 same)
      ∙ ap (λ l. c ∷ l) (strip_prefix-eq p s (rw (strip_prefix, same) at h))
  | inr other ↦ absurd (ground (arith, rw (strip_prefix, other) at h))
]

pub split_once-eq : (p s : Str) {a b : Str} → split_once p s ≡ some (a, b) → s ≡ a ++ (p ++ b)
unfolding split_once
split_once-eq p [] {a} {b} h = elim (Option-cases (strip_prefix [] p)) [
  | inl gone ↦ absurd (ground (arith, rw (split_once, gone) at h))
  | inr (after, e) ↦
      let made = some_inj (rw (split_once, e) at h) in
      strip_prefix-eq p [] e ∙ ap (λ x. x.0 ++ (p ++ x.1)) made
]
split_once-eq p (c ∷ s) {a} {b} h = elim (Option-cases (strip_prefix (c ∷ s) p)) [
  | inr (after, e) ↦
      let made = some_inj (rw (split_once, e) at h) in
      strip_prefix-eq p (c ∷ s) e ∙ ap (λ x. x.0 ++ (p ++ x.1)) made
  | inl gone ↦ elim (Option-cases (split_once p s)) [
    | inl none_later ↦ absurd (ground (arith, rw (split_once, gone, none_later) at h))
    | inr ((before, after), e) ↦
        let made = some_inj (rw (split_once, gone, e) at h) in
        ap (λ l. c ∷ l) (split_once-eq p s e) ∙ ap (λ x. x.0 ++ (p ++ x.1)) made
  ]
]

-- pieces, each with the character after it
abbrev pub ended : ℕ → List Str → Str
ended c [] = []
ended c (p ∷ ps) = p ++ (c ∷ ended c ps)

pub split-ended : (c : ℕ) (s : Str) → s ++ c ∷ [] ≡ ended c (split c s)
unfolding split_first
split-ended c [] = refl
split-ended c (d ∷ s) = elim (Bool-cases (d == c)) [
  | inl same ↦
      rw same
        (ap (λ x. x ∷ (s ++ c ∷ [])) ((==_iff d c).0 same) ∙ ap (λ l. c ∷ l) (split-ended c s))
  | inr other ↦ rw other (ap (λ l. d ∷ l) (split-ended c s))
]

pub split-All : (c : ℕ) (s : Str) → All (λ p. any (λ d. d == c) p ≡ false) (split c s)
unfolding split_first
split-All c [] = (refl, tt)
split-All c (d ∷ s) = elim (Bool-cases (d == c)) [
  | inl same ↦ rw same (refl, split-All c s)
  | inr other ↦ rw other (ground (arith, other, (split-All c s).0), (split-All c s).1)
]

-- A text that ends with a character.
pub ends_with-last : (c : ℕ) (s : Str) → ends_with s (c ∷ []) ≡ true → (t : Str) × (s ≡ t ++ c ∷ [])
unfolding ends_with starts_with
ends_with-last c s h =
    let r = last_first (reverse s) h in
    (reverse r.0, sym (reverse-reverse s) ∙ ap reverse r.1 ∙ reverse-append (c ∷ []) r.0)
  where
    last_first : (t : Str) → starts_with t (c ∷ []) ≡ true → (u : Str) × (t ≡ c ∷ u)
    last_first [] h = cc
    last_first (d ∷ t) h = (t, ap (λ x. x ∷ t) ((==_iff d c).0 (ground (arith, h))))
