-- ===== src/Findings/Render/Fence.antt =====
-- crates/revoot-core/src/findings.rs: the fence round a suggested replacement.
use Prim.Native.Nat.{max}
use revoot.Prelude.{
  ℕ, zero, suc, ◌+◌, ◌≤◌, ◌<◌, ◌≡◌, refl, true, false, [], ◌∷◌, arith, Bool-cases, inl, inr,
}
use revoot.Text.{Str}
use revoot.Text.Search.{starts_with, contains}
use revoot.Findings.Render.{pieces, longest, repeat, code_fence}

open-le-longest : (n : ℕ) (s : Str) → n ≤ longest (pieces n s)
unfolding pieces
open-le-longest n [] = omega arith
open-le-longest n (c ∷ s) = ground (arith, open-le-longest (n + 1) s)

-- A run of `k` backticks in front of a text is counted on top of the open run of `n`.
run-le-longest :
    (n k : ℕ) (s : Str) → starts_with s (repeat 0x60 k) ≡ true → n + k ≤ longest (pieces n s)
unfolding starts_with pieces
run-le-longest n zero s h = omega (arith, open-le-longest n s)
run-le-longest n (suc k) [] h = cc
run-le-longest n (suc k) (c ∷ s) h = ground (arith, run-le-longest (n + 1) k s)

found-le-longest :
    (n k : ℕ) (s : Str) → 0 < k → contains s (repeat 0x60 k) ≡ true → k ≤ longest (pieces n s)
unfolding contains pieces
found-le-longest n k [] pos h = omega (arith, run-le-longest n k [] h)
found-le-longest n k (c ∷ s) pos h = elim (Bool-cases (starts_with (c ∷ s) (repeat 0x60 k))) [
  | inl here ↦ ground (arith, run-le-longest n k (c ∷ s) here)
  | inr later ↦ ground (arith, later, found-le-longest (n + 1) k s pos, found-le-longest 0 k s pos)
]

-- The fence round a suggested replacement has at least three backticks and does not occur in the
-- replacement, which so cannot close its block.
pub code_fence_unbroken :
    (r : Str)
    → (contains r (code_fence r) ≡ false) × ((n : ℕ) × (3 ≤ n) × (code_fence r ≡ repeat 0x60 n))
unfolding code_fence
code_fence_unbroken r = (unbroken, (n, omega arith, refl))
  where
    n : ℕ
    n = max (longest (pieces 0 r) + 1) 3

    unbroken : contains r (repeat 0x60 n) ≡ false
    unbroken = elim (Bool-cases (contains r (repeat 0x60 n))) [
      | inr absent ↦ absent
      | inl found ↦ absurd (omega (arith, found-le-longest 0 n r (omega arith) found))
    ]
