-- ===== src/Text/Search.antt =====
-- Rust's `starts_with`, `ends_with`, `contains`, `strip_prefix` and `lines`.
use mathlib.Core.List.{reverse}
use revoot.Prelude.{
  Bool, true, false, ◌&&◌, ◌||◌, Option, none, some, List, [], ◌∷◌, ◌==◌, if◌then◌else◌,
}
use revoot.Text.{Str}

unfoldable pub starts_with : Str → Str → Bool
starts_with s [] = true
starts_with [] (c ∷ p) = false
starts_with (d ∷ s) (c ∷ p) = d == c && starts_with s p

unfoldable pub strip_prefix : Str → Str → Option Str
strip_prefix s [] = some s
strip_prefix [] (c ∷ p) = none
strip_prefix (d ∷ s) (c ∷ p) = if d == c then strip_prefix s p else none

unfoldable pub ends_with : Str → Str → Bool
unfolding starts_with
ends_with s p = starts_with (reverse s) (reverse p)

unfoldable pub contains : Str → Str → Bool
unfolding starts_with
contains [] p = starts_with [] p
contains (c ∷ s) p = starts_with (c ∷ s) p || contains s p

-- A line of `lines`, from its characters in reverse: `\r` in front of the line feed is cut off.
abbrev pub cut_cr : Str → Str
cut_cr [] = []
cut_cr (c ∷ s) = if c == 0xd then reverse s else reverse (c ∷ s)

-- `lines()`, with the open line in reverse; an empty last line is no line.
unfoldable pub lines_from : Str → Str → List Str
lines_from [] [] = []
lines_from (c ∷ l) [] = reverse (c ∷ l) ∷ []
lines_from l (c ∷ s) =
    let next = lines_from [] s in
    let longer = lines_from (c ∷ l) s in if c == 0xa then cut_cr l ∷ next else longer

unfoldable pub lines : Str → List Str
unfolding lines_from
lines = lines_from []
