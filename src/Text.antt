-- ===== src/Text.antt =====
-- Rust's `str`: a list of Unicode scalar values, with its UTF-8 bytes. `len` and `bytes` count and
-- walk the bytes; `chars`, `trim`, `contains` and the like walk the scalar values.
pub mod Search
mod Tests
pub mod Trim
pub mod Split
pub mod Laws
pub mod Parts
use Prim.Native.Char.{code}
use Prim.Native.String.{String}
use revoot.Prelude.{
  ℕ, ◌+◌, ◌-◌, ◌*◌, ◌/◌, ◌%◌, ◌≡◌, ◌↔◌, refl, Bool, true, false, ◌&&◌, ◌||◌, List, [], ◌∷◌, ◌++◌,
  arith, ltb, leb, ◌==◌, if◌then◌else◌, length, any, all, ltb→lt,
}

abbrev pub Str : Type 0
Str = List ℕ

-- A literal.
abbrev pub lit : String → Str
lit String.[] = []
lit (String.◌∷◌ c s) = code c ∷ lit s

unfoldable pub utf8 : ℕ → List ℕ
utf8 c =
    if ltb c 0x80
    then c ∷ []
    else if ltb c 0x800
    then (0xc0 + c / 64) ∷ (0x80 + c % 64) ∷ []
    else if ltb c 0x10000
    then (0xe0 + c / 4096) ∷ (0x80 + c / 64 % 64) ∷ (0x80 + c % 64) ∷ []
    else (0xf0 + c / 262144) ∷ (0x80 + c / 4096 % 64) ∷ (0x80 + c / 64 % 64) ∷ (0x80 + c % 64) ∷ []

unfoldable pub bytes : Str → List ℕ
unfolding utf8
bytes [] = []
bytes (c ∷ s) = utf8 c ++ bytes s

unfoldable pub len : Str → ℕ
unfolding bytes
len s = length (bytes s)

unfoldable pub str_eq : Str → Str → Bool
str_eq [] [] = true
str_eq (c ∷ s) (d ∷ t) = c == d && str_eq s t
str_eq _ _ = false

pub str_eq_iff : (s t : Str) → (str_eq s t ≡ true) ↔ (s ≡ t)
unfolding str_eq
str_eq_iff [] [] = (λ h. refl, λ h. refl)
str_eq_iff [] (d ∷ t) = (λ h. cc, λ h. cc)
str_eq_iff (c ∷ s) [] = (λ h. cc, λ h. cc)
str_eq_iff (c ∷ s) (d ∷ t) =
    (λ h. ground (arith, str_eq_iff s t), λ h. ground (arith, str_eq_iff s t))

abbrev pub in_range : ℕ → ℕ → ℕ → Bool
in_range lo hi c = leb lo c && leb c hi

abbrev pub is_ascii_digit : ℕ → Bool
is_ascii_digit = in_range b'0' b'9'

abbrev pub is_ascii_lowercase : ℕ → Bool
is_ascii_lowercase = in_range b'a' b'z'

abbrev pub is_ascii_uppercase : ℕ → Bool
is_ascii_uppercase = in_range b'A' b'Z'

abbrev pub is_ascii_alphanumeric : ℕ → Bool
is_ascii_alphanumeric c = is_ascii_digit c || is_ascii_lowercase c || is_ascii_uppercase c

abbrev pub is_ascii_control : ℕ → Bool
is_ascii_control c = ltb c 0x20 || c == 0x7f

-- space, tab, line feed, form feed, carriage return
abbrev pub is_ascii_whitespace : ℕ → Bool
is_ascii_whitespace c = c == 0x20 || c == 0x9 || c == 0xa || c == 0xc || c == 0xd

-- `char::is_control`: the general category Cc
abbrev pub is_control : ℕ → Bool
is_control c = ltb c 0x20 || in_range 0x7f 0x9f c

-- `char::is_whitespace`: the property White_Space
unfoldable pub is_whitespace : ℕ → Bool
is_whitespace c =
    in_range 0x9 0xd c
    || c == 0x20
    || c == 0x85
    || c == 0xa0
    || c == 0x1680
    || in_range 0x2000 0x200a c
    || c == 0x2028
    || c == 0x2029
    || c == 0x202f
    || c == 0x205f
    || c == 0x3000

-- `value.bytes().all(p)`
abbrev pub all_bytes : (ℕ → Bool) → Str → Bool
all_bytes p s = all p (bytes s)
