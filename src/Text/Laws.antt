-- ===== src/Text/Laws.antt =====
-- Searching a text that is put together from parts.
use revoot.Prelude.{ℕ, Bool, true, false, not, ◌||◌, [], ◌∷◌, ◌++◌, ◌≡◌, refl, ◌==◌, arith, all}
use revoot.Text.{Str}
use revoot.Text.Trim.{to_ascii_lowercase}
use revoot.Text.Search.{starts_with, contains}

-- The character does not occur.
abbrev pub lacks : ℕ → Str → Bool
lacks c s = all (λ d. not (d == c)) s

pub lacks-append :
    (c : ℕ) (s t : Str) → lacks c s ≡ true → lacks c t ≡ true → lacks c (s ++ t) ≡ true
lacks-append c [] t hs ht = ht
lacks-append c (d ∷ s) t hs ht = ground (arith, lacks-append c s t)

-- A pattern is not found in a part that lacks its first character.
pub contains-skip :
    (c : ℕ) (p s t : Str) → lacks c s ≡ true → contains (s ++ t) (c ∷ p) ≡ contains t (c ∷ p)
unfolding contains
contains-skip c p [] t h = refl
contains-skip c p (d ∷ s) t h = ground (arith, contains-skip c p s t)

pub contains_of_lacks : (c : ℕ) (p s : Str) → lacks c s ≡ true → contains s (c ∷ p) ≡ false
unfolding contains
contains_of_lacks c p [] h = refl
contains_of_lacks c p (d ∷ s) h = ground (arith, contains_of_lacks c p s)

-- A match does not run over a character that the pattern lacks.
starts_with-stop :
    (d : ℕ) (p s t : Str) → lacks d p ≡ true → starts_with (s ++ d ∷ t) p ≡ starts_with s p
unfolding starts_with
starts_with-stop d [] s t h = ground arith
starts_with-stop d (c ∷ p) [] t h = ground arith
starts_with-stop d (c ∷ p) (e ∷ s) t h = ground (arith, starts_with-stop d p s t)

pub contains-stop :
    (d c : ℕ) (p s t : Str)
    → lacks d (c ∷ p) ≡ true
    → contains (s ++ d ∷ t) (c ∷ p) ≡ (contains s (c ∷ p) || contains t (c ∷ p))
unfolding contains
contains-stop d c p [] t h = ground arith
contains-stop d c p (e ∷ s) t h =
    ground (arith, contains-stop d c p s t, starts_with-stop d (c ∷ p) (e ∷ s) t h)

-- A pattern that stands in a text stands in lower case in the text in lower case.
starts_with-lower :
    (s p : Str)
    → starts_with s p ≡ true
    → starts_with (to_ascii_lowercase s) (to_ascii_lowercase p) ≡ true
unfolding starts_with to_ascii_lowercase
starts_with-lower s [] h = ground arith
starts_with-lower [] (c ∷ p) h = cc
starts_with-lower (d ∷ s) (c ∷ p) h = ground (arith, starts_with-lower s p)

pub contains-lower :
    (s p : Str)
    → contains s p ≡ true
    → contains (to_ascii_lowercase s) (to_ascii_lowercase p) ≡ true
unfolding contains to_ascii_lowercase
contains-lower [] p h = starts_with-lower [] p h
contains-lower (c ∷ s) p h = ground (arith, starts_with-lower (c ∷ s) p, contains-lower s p)
