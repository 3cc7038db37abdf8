-- ===== src/Text/Split.antt =====
-- Rust's `split`, `split_once`, `rsplit_once`, `str::from_utf8` and `parse::<u32>`.
use revoot.Prelude.{
  ℕ, ◌+◌, ◌-◌, ◌*◌, Option, none, some, List, [], ◌∷◌, ltb, leb, ◌==◌, if◌then◌else◌, Result, ok,
  err, and_then, u32_max,
}
use revoot.Text.{Str, in_range}
use revoot.Text.Search.{strip_prefix}

-- `split(c)`: the first piece, and the others
unfoldable pub split_first : ℕ → Str → Str × List Str
split_first c [] = ([], [])
split_first c (d ∷ s) =
    let (piece, pieces) = split_first c s in
    if d == c then ([], piece ∷ pieces) else (d ∷ piece, pieces)

abbrev pub split : ℕ → Str → List Str
split c s = let (piece, pieces) = split_first c s in piece ∷ pieces

-- `split_once(p)`, at the first occurrence
unfoldable pub split_once : Str → Str → Option (Str × Str)
unfolding strip_prefix
split_once p [] = elim (strip_prefix [] p) [ none ↦ none | some after ↦ some ([], after) ]
split_once p (c ∷ s) = elim (strip_prefix (c ∷ s) p) [
  | some after ↦ some ([], after)
  | none ↦ elim (split_once p s) [ none ↦ none | some (before, after) ↦ some (c ∷ before, after) ]
]

-- `rsplit_once(c)`, at the last occurrence
unfoldable pub rsplit_once : ℕ → Str → Option (Str × Str)
rsplit_once c [] = none
rsplit_once c (d ∷ s) = elim (rsplit_once c s) [
  | some (before, after) ↦ some (d ∷ before, after)
  | none ↦ if d == c then some ([], s) else none
]

-- The bytes of a character that is not complete: how many are to come, the value so far, and the
-- bounds of the next byte.
pub data Decoding : Type 0 where
  idle : Decoding
  expecting : (left value lo hi : ℕ) → Decoding

-- a first byte
unfoldable pub decode_first : ℕ → Option (Decoding × Option ℕ)
decode_first b =
    if ltb b 0x80
    then some (idle, some b)
    else if in_range 0xc2 0xdf b
    then some (expecting 1 (b - 0xc0) 0x80 0xbf, none)
    else if b == 0xe0
    then some (expecting 2 0 0xa0 0xbf, none)
    else if b == 0xed
    then some (expecting 2 13 0x80 0x9f, none)
    else if in_range 0xe1 0xef b
    then some (expecting 2 (b - 0xe0) 0x80 0xbf, none)
    else if b == 0xf0
    then some (expecting 3 0 0x90 0xbf, none)
    else if in_range 0xf1 0xf3 b
    then some (expecting 3 (b - 0xf0) 0x80 0xbf, none)
    else if b == 0xf4
    then some (expecting 3 4 0x80 0x8f, none)
    else none

unfoldable pub decode_step : Decoding → ℕ → Option (Decoding × Option ℕ)
unfolding decode_first
decode_step idle b = decode_first b
decode_step (expecting left value lo hi) b =
    let value' = value * 64 + (b - 0x80) in
    if in_range lo hi b
    then if leb left 1
      then some (idle, some value')
      else some (expecting (left - 1) value' 0x80 0xbf, none)
    else none

-- `start` is where the character that is read begins, which an error returns as `valid_up_to`.
unfoldable pub decode_from : ℕ → ℕ → Decoding → List ℕ → Result ℕ Str
unfolding decode_step
decode_from start next idle [] = ok []
decode_from start next (expecting l v lo hi) [] = err start
decode_from start next d (b ∷ s) = elim (decode_step d b) [
  | none ↦ err start
  | some (d', none) ↦ decode_from start (next + 1) d' s
  | some (d', some c) ↦ and_then (decode_from (next + 1) (next + 1) d' s) λ t. ok (c ∷ t)
]

unfoldable pub from_utf8 : List ℕ → Result ℕ Str
unfolding decode_from
from_utf8 = decode_from 0 0 idle

-- the number that digits stand for
unfoldable pub value_from : ℕ → Str → ℕ
value_from n [] = n
value_from n (c ∷ s) = value_from (10 * n + (c - b'0')) s

-- `parse::<u32>()` of a text that has nothing but digits, and at least one
unfoldable pub parse_u32 : Str → Option ℕ
unfolding value_from
parse_u32 s = if leb (value_from 0 s) u32_max then some (value_from 0 s) else none
