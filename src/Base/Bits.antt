-- ===== src/Base/Bits.antt =====
-- `bit_or` at variables: as a sum where the bits do not overlap, and tables over a byte.
use Prim.Native.Nat.{
  ℕ, zero, suc, ◌+◌, ◌*◌, ◌/◌, ◌^◌, ◌≤◌, ◌<◌, max, bit_or, digits, bit_or-bitwise,
}
use mathlib.Core.Path.{◌≡◌, ap, ◌∙◌}
use mathlib.Core.Bool.{Bool, true, ◌&&◌}
use native.Mathlib.Nat.{pow-suc}
use native.Mathlib.Omega.{arith}

-- A test of the numbers under a bound, run by evaluation.
unfoldable pub table : (ℕ → Bool) → ℕ → Bool
table test zero = true
table test (suc top) = table test top && test top

pub table_at :
    (test : ℕ → Bool) (top : ℕ) → (i : ℕ) → table test top ≡ true → i < top → test i ≡ true
unfolding table
table_at test zero i run below = absurd (omega arith)
table_at test (suc top) i run below = ground (arith, table_at test top i)

next_bit : (k c : ℕ) → c * 2 ^ suc k ≡ 2 * (c * 2 ^ k)
next_bit k c = rw pow-suc (omega arith)

-- Digit by digit: `fuel` bounds the low number, `k` is where the other's bits begin.
disjoint_digits :
    (fuel k low high : ℕ)
    → low ≤ fuel
    → low < 2 ^ k
    → digits (λ d. d) max fuel low (high * 2 ^ k) ≡ low + high * 2 ^ k
disjoint_digits zero k zero high le lt = omega arith
disjoint_digits zero k (suc low) high le lt = absurd (omega arith)
disjoint_digits (suc fuel) k zero high le lt = omega arith
disjoint_digits (suc fuel) zero (suc low) high le lt = absurd (omega arith)
disjoint_digits (suc fuel) (suc k) (suc low) high le lt =
    let halved : high * 2 ^ suc k / 2 ≡ high * 2 ^ k = omega (arith, next_bit k high) in
    let rest =
      ap (digits (λ d. d) max fuel (suc low / 2)) halved
      ∙ disjoint_digits fuel k (suc low / 2) high (omega arith) (omega (arith, next_bit k 1)) in
    omega (arith, rest, next_bit k high)

-- Below the bit where the other number's bits begin, `|` adds.
pub bit_or-eq-add : (k a c : ℕ) → a < 2 ^ k → bit_or a (c * 2 ^ k) ≡ a + c * 2 ^ k
bit_or-eq-add k a c lt = bit_or-bitwise a (c * 2 ^ k) ∙ disjoint_digits a k a c (omega arith) lt
