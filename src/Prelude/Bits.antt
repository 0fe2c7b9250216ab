-- ===== src/Prelude/Bits.antt =====
-- `&` and `|` of machine words as arithmetic: a word splits into fields, and both operations act
-- on the fields one by one.
use Prim.Native.Nat.{
  ℕ, zero, suc, ◌+◌, ◌-◌, ◌*◌, ◌/◌, ◌%◌, ◌^◌, ◌≤◌, ◌<◌, min, max, digits, bit_and, bit_or,
  bit_and-bitwise, bit_or-bitwise,
}
use mathlib.Core.Path.{◌≡◌, refl, ap}
use native.Mathlib.Omega.{arith}
use native.Mathlib.Nat.{pow-suc, one-le-pow, mul_comm}

-- Spare fuel of the digit recursion changes nothing.
module _ (base : ℕ → ℕ) (digit : ℕ → ℕ → ℕ) where
  digits_spare : (f g a b : ℕ) → a ≤ f → a ≤ g → digits base digit f a b ≡ digits base digit g a b
  digits_spare f g zero b hf hg = ground (arith, at_zero f, at_zero g)
    where
      at_zero : (n : ℕ) → digits base digit n 0 b ≡ base b
      at_zero zero = refl
      at_zero (suc n) = refl
  digits_spare zero g (suc a) b hf hg = absurd (omega arith)
  digits_spare (suc f) zero (suc a) b hf hg = absurd (omega arith)
  digits_spare (suc f) (suc g) (suc a) b hf hg =
      ap (λ (t : ℕ). t * 2 + digit (suc a % 2) (b % 2))
        (digits_spare f g (suc a / 2) (b / 2) (omega arith) (omega arith))

bit_and_digit : (a b : ℕ) → bit_and a b ≡ bit_and (a / 2) (b / 2) * 2 + min (a % 2) (b % 2)
bit_and_digit zero b = omega (arith, bit_and-bitwise 0 b, bit_and-bitwise 0 (b / 2))
bit_and_digit (suc a) b = omega (
  arith,
  bit_and-bitwise (suc a) b,
  bit_and-bitwise (suc a / 2) (b / 2),
  digits_spare (λ c. zero) min a (suc a / 2) (suc a / 2) (b / 2) (omega arith) (omega arith),
)

bit_or_digit : (a b : ℕ) → bit_or a b ≡ bit_or (a / 2) (b / 2) * 2 + max (a % 2) (b % 2)
bit_or_digit zero b = omega (arith, bit_or-bitwise 0 b, bit_or-bitwise 0 (b / 2))
bit_or_digit (suc a) b = omega (
  arith,
  bit_or-bitwise (suc a) b,
  bit_or-bitwise (suc a / 2) (b / 2),
  digits_spare (λ c. c) max a (suc a / 2) (suc a / 2) (b / 2) (omega arith) (omega arith),
)

-- Any operation with such a law for its lowest digit acts on fields.
module _ (op : ℕ → ℕ → ℕ) (digit : ℕ → ℕ → ℕ)
    (law : (a b : ℕ) → op a b ≡ op (a / 2) (b / 2) * 2 + digit (a % 2) (b % 2))
    (none_set : op 0 0 ≡ 0) where
  op_halves :
      (q r m s p : ℕ)
      → op (q * p + r / 2) (m * p + s / 2) ≡ op q m * p + op (r / 2) (s / 2)
      → op (q * (2 * p) + r) (m * (2 * p) + s) ≡ op q m * (2 * p) + op r s
  op_halves q r m s p ih = ground (arith, law (q * (2 * p) + r) (m * (2 * p) + s), law r s)

  op_fields :
      (k q r m s : ℕ)
      → r < 2 ^ k
      → s < 2 ^ k
      → op (q * 2 ^ k + r) (m * 2 ^ k + s) ≡ op q m * 2 ^ k + op r s
  op_fields zero q r m s hr hs = ground (arith, none_set)
  op_fields (suc k) q r m s hr hs =
      rw (pow-suc 2 k, mul_comm (2 ^ k) 2)
        (op_halves q r m s (2 ^ k) (
          op_fields k q (r / 2) m (s / 2) (omega (arith, pow-suc 2 k))
            (omega (arith, pow-suc 2 k))))

pub bit_and_fields :
    (k q r m s : ℕ)
    → r < 2 ^ k
    → s < 2 ^ k
    → bit_and (q * 2 ^ k + r) (m * 2 ^ k + s) ≡ bit_and q m * 2 ^ k + bit_and r s
bit_and_fields k q r m s = op_fields bit_and min bit_and_digit refl k q r m s

pub bit_or_fields :
    (k q r m s : ℕ)
    → r < 2 ^ k
    → s < 2 ^ k
    → bit_or (q * 2 ^ k + r) (m * 2 ^ k + s) ≡ bit_or q m * 2 ^ k + bit_or r s
bit_or_fields k q r m s = op_fields bit_or max bit_or_digit refl k q r m s

-- The laws for 0, by induction on a bound of the other argument.
pub zero-bit_and : (a : ℕ) → bit_and 0 a ≡ 0
zero-bit_and a = bit_and-bitwise 0 a

pub zero-bit_or : (a : ℕ) → bit_or 0 a ≡ a
zero-bit_or a = bit_or-bitwise 0 a

bit_and-zero_below : (n a : ℕ) → a < n → bit_and a 0 ≡ 0
bit_and-zero_below zero a h = absurd (omega arith)
bit_and-zero_below (suc n) zero h = refl
bit_and-zero_below (suc n) (suc a) h =
    omega (arith, bit_and_digit (suc a) 0, bit_and-zero_below n (suc a / 2) (omega arith))

bit_or-zero_below : (n a : ℕ) → a < n → bit_or a 0 ≡ a
bit_or-zero_below zero a h = absurd (omega arith)
bit_or-zero_below (suc n) zero h = refl
bit_or-zero_below (suc n) (suc a) h =
    omega (arith, bit_or_digit (suc a) 0, bit_or-zero_below n (suc a / 2) (omega arith))

pub bit_and-zero : (a : ℕ) → bit_and a 0 ≡ 0
bit_and-zero a = bit_and-zero_below (suc a) a (omega arith)

pub bit_or-zero : (a : ℕ) → bit_or a 0 ≡ a
bit_or-zero a = bit_or-zero_below (suc a) a (omega arith)

-- `x | y` of a word with k clear low bits and a word of k bits is a sum.
pub bit_or_sum : (k q r : ℕ) → r < 2 ^ k → bit_or (q * 2 ^ k) r ≡ q * 2 ^ k + r
bit_or_sum k q r h =
    ground (arith, one-le-pow k 2, bit_or_fields k q 0 0 r, bit_or-zero q, zero-bit_or r)

pub bit_or_sum_high : (k q r : ℕ) → r < 2 ^ k → bit_or r (q * 2 ^ k) ≡ q * 2 ^ k + r
bit_or_sum_high k q r h =
    ground (arith, one-le-pow k 2, bit_or_fields k 0 r q 0, bit_or-zero r, zero-bit_or q)

bit_and_ones : (k r : ℕ) → r < 2 ^ k → bit_and r (2 ^ k - 1) ≡ r
bit_and_ones zero r h = omega (arith, bit_and-zero r)
bit_and_ones (suc k) r h =
    ground
      (arith, pow-suc 2 k, one-le-pow k 2, bit_and_digit r (2 ^ suc k - 1), bit_and_ones k (r / 2))

-- A mask of the k low bits is the remainder by `2 ^ k`.
pub bit_and_mask : (k a : ℕ) → bit_and a (2 ^ k - 1) ≡ a % 2 ^ k
bit_and_mask k a = ground (
  arith,
  one-le-pow k 2,
  bit_and_fields k (a / 2 ^ k) (a % 2 ^ k) 0 (2 ^ k - 1),
  bit_and_ones k (a % 2 ^ k),
  bit_and-zero (a / 2 ^ k),
)

-- A mask of bits from k up keeps the bits from k up.
pub bit_and_high : (k a m : ℕ) → bit_and a (m * 2 ^ k) ≡ bit_and (a / 2 ^ k) m * 2 ^ k
bit_and_high k a m =
    ground (
      arith,
      one-le-pow k 2,
      bit_and_fields k (a / 2 ^ k) (a % 2 ^ k) m 0,
      bit_and-zero (a % 2 ^ k),
    )
