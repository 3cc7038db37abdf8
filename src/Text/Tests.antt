-- ===== src/Text/Tests.antt =====
-- The model of `str` on small texts.
use revoot.Prelude.{◌≡◌, refl, true, [], ◌∷◌}
use revoot.Text.{lit, len}
use revoot.Text.Trim.{trim, to_ascii_lowercase}
use revoot.Text.Search.{contains, lines}

trims_both_ends : trim (lit " a b\n") ≡ lit "a b"
unfolding trim
trims_both_ends = refl

lowers_ascii : to_ascii_lowercase (lit "A-z") ≡ lit "a-z"
unfolding to_ascii_lowercase
lowers_ascii = refl

cuts_lines : lines (lit "a\r\n\nb\n") ≡ lit "a" ∷ [] ∷ lit "b" ∷ []
unfolding lines
cuts_lines = refl

finds_inside : contains (lit "a <!-- b") (lit "<!--") ≡ true
unfolding contains
finds_inside = refl

counts_bytes : len (lit "é🔴") ≡ 6
unfolding len
counts_bytes = refl
