-- ===== src/Heap/Align.antt =====
-- align of src/vm/Heap.h (and of src/compiler/memManager.h): rounding up to a multiple of 8.
use sprout_lang.Prelude.{ℕ, ◌+◌, ◌-◌, ◌*◌, ◌/◌, ◌%◌, ◌^◌, ◌≤◌, ◌<◌, ◌≡◌, arith}
use sprout_lang.Prelude.Bits.{bit_and_high, bit_and_mask}
use sprout_lang.Heap.{align}

pub align-mul : (n : ℕ) → n + 7 < 2 ^ 64 → align n ≡ (n + 7) / 8 * 8
unfolding align
align-mul n h =
    ground (
      arith,
      bit_and_high 3 ((n + 7) % 2 ^ 64) (2 ^ 61 - 1),
      bit_and_mask 61 ((n + 7) % 2 ^ 64 / 8),
    )

-- Short of a wrap of the 64-bit size, `align` gives a multiple of 8 that is not below its argument,
-- and no multiple of 8 in between.
pub align_least :
    (n k : ℕ) → n + 7 < 2 ^ 64 → n ≤ 8 * k → (n ≤ align n) × (align n % 8 ≡ 0) × (align n ≤ 8 * k)
align_least n k h hk =
    (omega (arith, align-mul n h), omega (arith, align-mul n h), omega (arith, align-mul n h))
