-- ===== src/Text/Trim.antt =====
-- Rust's `trim`, `trim_start`, `trim_end` and `to_ascii_lowercase`.
use mathlib.Core.List.{reverse}
use revoot.Prelude.{◌+◌, ℕ, [], ◌∷◌, map, if◌then◌else◌}
use revoot.Text.{Str, is_whitespace, is_ascii_uppercase}

unfoldable pub trim_start : Str → Str
unfolding is_whitespace
trim_start [] = []
trim_start (c ∷ s) = if is_whitespace c then trim_start s else c ∷ s

unfoldable pub trim_end : Str → Str
unfolding trim_start
trim_end s = reverse (trim_start (reverse s))

unfoldable pub trim : Str → Str
unfolding trim_end
trim s = trim_end (trim_start s)

abbrev pub lower : ℕ → ℕ
lower c = if is_ascii_uppercase c then c + 32 else c

unfoldable pub to_ascii_lowercase : Str → Str
to_ascii_lowercase = map lower
