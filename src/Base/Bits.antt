-- ===== src/Base/Bits.antt =====
-- The bits of native numbers.
use Prim.Native.Nat.{
  ℕ, zero, suc, ◌+◌, ◌*◌, ◌/◌, ◌%◌, ◌^◌, ◌≤◌, ◌<◌, min, max, digits, bitwise, bit_and, bit_or,
  bit_and-bitwise, bit_or-bitwise,
}
use mathlib.Core.Path.{◌≡◌, refl, ap}
use mathlib.Core.Logic.{◌↔◌, inl, inr}
use mathlib.Core.Bool.{Bool, true, false, not, ◌&&◌, ◌||◌}
use native.Mathlib.Nat.{le_refl, pow-suc, one-le-pow}
use native.Mathlib.Omega.{arith}
use winfuse.Base.Tests.{◌==◌, if◌then◌else◌, Bool-cases}

-- Enough fuel makes no difference to the digits.
module _ (z : ℕ → ℕ) (f : ℕ → ℕ → ℕ) where
  digits_congr : (n m a b : ℕ) → a ≤ n → a ≤ m → digits z f n a b ≡ digits z f m a b
  digits_congr zero zero a b p q = refl
  digits_congr zero (suc m) zero b p q = refl
  digits_congr zero (suc m) (suc a) b p q = absurd (omega arith)
  digits_congr (suc n) zero zero b p q = refl
  digits_congr (suc n) zero (suc a) b p q = absurd (omega arith)
  digits_congr (suc n) (suc m) zero b p q = refl
  digits_congr (suc n) (suc m) (suc a) b p q =
      rw (digits_congr n m (suc a / 2) (b / 2) (omega arith) (omega arith))

  bitwise_lowest :
      (a b : ℕ)
      → bitwise z f (suc a) b ≡ bitwise z f (suc a / 2) (b / 2) * 2 + f (suc a % 2) (b % 2)
  bitwise_lowest a b =
      omega (arith, digits_congr a (suc a / 2) (suc a / 2) (b / 2) (omega arith) (le_refl _))

-- `|` and `&` by their lowest bit.
pub bit_or_lowest : (a b : ℕ) → bit_or a b ≡ bit_or (a / 2) (b / 2) * 2 + max (a % 2) (b % 2)
bit_or_lowest zero b = simp bit_or-bitwise (omega arith)
bit_or_lowest (suc a) b = simp bit_or-bitwise (bitwise_lowest (λ y. y) max a b)

pub bit_and_lowest : (a b : ℕ) → bit_and a b ≡ bit_and (a / 2) (b / 2) * 2 + min (a % 2) (b % 2)
bit_and_lowest zero b = simp bit_and-bitwise (omega arith)
bit_and_lowest (suc a) b = simp bit_and-bitwise (bitwise_lowest (λ y. 0) min a b)

abbrev pub has_bit : ℕ → ℕ → Bool
has_bit n zero = n % 2 == 1
has_bit n (suc i) = has_bit (n / 2) i

pub has_bit-bit_and : (a b i : ℕ) → has_bit (bit_and a b) i ≡ has_bit a i && has_bit b i
has_bit-bit_and a b zero = ground (arith, bit_and_lowest a b)
has_bit-bit_and a b (suc i) =
    let half : bit_and a b / 2 ≡ bit_and (a / 2) (b / 2) = ground (arith, bit_and_lowest a b) in
    rw half (has_bit-bit_and (a / 2) (b / 2) i)

pub has_bit-bit_or : (a b i : ℕ) → has_bit (bit_or a b) i ≡ has_bit a i || has_bit b i
has_bit-bit_or a b zero = ground (arith, bit_or_lowest a b)
has_bit-bit_or a b (suc i) =
    let half : bit_or a b / 2 ≡ bit_or (a / 2) (b / 2) = ground (arith, bit_or_lowest a b) in
    rw half (has_bit-bit_or (a / 2) (b / 2) i)

eq_by_bits_upto : (n a b : ℕ) → a ≤ n → b ≤ n → ((i : ℕ) → has_bit a i ≡ has_bit b i) → a ≡ b
eq_by_bits_upto zero a b p q h = omega arith
eq_by_bits_upto (suc n) zero zero p q h = refl
eq_by_bits_upto (suc n) a b p q h =
    let half = eq_by_bits_upto n (a / 2) (b / 2) (omega arith) (omega arith) (λ i. h (suc i)) in
    ground (arith, half, h 0)

-- Numbers with the same bits are equal.
pub eq_by_bits : (a b : ℕ) → ((i : ℕ) → has_bit a i ≡ has_bit b i) → a ≡ b
eq_by_bits a b = eq_by_bits_upto (a + b) a b (omega arith) (omega arith)

-- `r == (f & r)` tests that each bit of `r` is one of `f`.
pub mask-bits : (f r : ℕ) → (bit_and f r ≡ r) ↔ ((i : ℕ) → has_bit r i ≡ true → has_bit f i ≡ true)
mask-bits f r = (
  λ e i h. let both = has_bit-bit_and f r i in ground (arith, both, h, ap (λ n. has_bit n i) e),
  λ h. eq_by_bits _ _ (λ i. let both = has_bit-bit_and f r i in ground (arith, both, h i)),
)

-- A mask that is shifted by a bit.
pub bit_and_double : (a m : ℕ) → bit_and a (2 * m) ≡ 2 * bit_and (a / 2) m
bit_and_double a m =
    let half : 2 * m / 2 ≡ m = omega arith in
    ground (arith, bit_and_lowest a (2 * m), ap (λ n. bit_and (a / 2) n) half)

pub bit_and_odd : (a m : ℕ) → bit_and a (2 * m + 1) ≡ 2 * bit_and (a / 2) m + a % 2
bit_and_odd a m =
    let half : (2 * m + 1) / 2 ≡ m = omega arith in
    ground (arith, bit_and_lowest a (2 * m + 1), ap (λ n. bit_and (a / 2) n) half)

pub bit_and-zero : (a : ℕ) → bit_and a 0 ≡ 0
bit_and-zero a = eq_by_bits _ _ (λ i. none_set a i)
  where
    unset : (i : ℕ) → has_bit 0 i ≡ false
    unset zero = refl
    unset (suc i) = unset i

    none_set : (a i : ℕ) → has_bit (bit_and a 0) i ≡ has_bit 0 i
    none_set a i = let both = has_bit-bit_and a 0 i in ground (arith, both, unset i)

-- A mask of one bit.
pub bit_and_power : (k a : ℕ) → bit_and a (2 ^ k) ≡ (if has_bit a k then 2 ^ k else 0)
bit_and_power zero a = ground (arith, bit_and_odd a 0, bit_and-zero (a / 2))
bit_and_power (suc k) a =
    rw (pow-suc 2 k) (ground (arith, bit_and_double a (2 ^ k), bit_and_power k (a / 2)))

-- A number below `2 ^ k` has no bit from `k` on.
pub has_bit_beyond : (k n i : ℕ) → n < 2 ^ k → k ≤ i → has_bit n i ≡ false
has_bit_beyond zero n zero h k = ground arith
has_bit_beyond zero n (suc i) h k = has_bit_beyond zero (n / 2) i (omega arith) (omega arith)
has_bit_beyond (suc w) n zero h k = absurd (omega arith)
has_bit_beyond (suc w) n (suc i) h k =
    has_bit_beyond w (n / 2) i (omega (arith, h, pow-suc 2 w)) (omega arith)

pub has_bit-power : (k i : ℕ) → has_bit (2 ^ k) i ≡ (i == k)
has_bit-power zero zero = refl
has_bit-power zero (suc i) = ground (arith, has_bit_beyond 0 0 i (omega arith) (omega arith))
has_bit-power (suc k) zero = ground (arith, pow-suc 2 k)
has_bit-power (suc k) (suc i) =
    let half : 2 ^ suc k / 2 ≡ 2 ^ k = omega (arith, pow-suc 2 k) in
    rw half (ground (arith, has_bit-power k i))

-- The test of one bit.
pub bit_and-has_bit : (a k : ℕ) → (bit_and a (2 ^ k) == 0) ≡ not (has_bit a k)
bit_and-has_bit a k = elim (Bool-cases (has_bit a k)) [
  | inl e ↦ ground (arith, bit_and_power k a, e, one-le-pow k 2)
  | inr e ↦ ground (arith, bit_and_power k a, e)
]
