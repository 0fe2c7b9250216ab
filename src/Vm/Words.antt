-- ===== src/Vm/Words.antt =====
-- The big-endian words of src/vm/vm.h in plain arithmetic.
use sprout_lang.Prelude.{
  ℕ, zero, suc, ◌+◌, ◌*◌, ◌^◌, ◌<◌, ◌≡◌, List, [], ◌∷◌, bit_or, get_or, arith,
}
use sprout_lang.Prelude.Bits.{bit_or_sum}
use sprout_lang.Vm.{big_endian}

-- Every element of a file is a byte.
abbrev pub AllBytes : List ℕ → Type 0
AllBytes [] = Unit {0}
AllBytes (b ∷ bs) = (b < 256) × AllBytes bs

pub get_or-lt : (bs : List ℕ) (i : ℕ) → AllBytes bs → get_or bs i 0 < 256
get_or-lt [] i h = omega arith
get_or-lt (b ∷ bs) zero h = h.0
get_or-lt (b ∷ bs) (suc i) h = get_or-lt bs i h.1

-- The word of four bytes, most significant first.
abbrev pub word : ℕ → ℕ → ℕ → ℕ → ℕ
word a b c d = a * 2 ^ 24 + b * 2 ^ 16 + c * 2 ^ 8 + d

pub bit_or-word :
    (a b c d : ℕ)
    → a < 256
    → b < 256
    → c < 256
    → d < 256
    → bit_or (bit_or (bit_or (a * 2 ^ 24) (b * 2 ^ 16)) (c * 2 ^ 8)) d ≡ word a b c d
bit_or-word a b c d ha hb hc hd = ground (
  arith,
  bit_or_sum 24 a (b * 2 ^ 16),
  bit_or_sum 16 (a * 2 ^ 8 + b) (c * 2 ^ 8),
  bit_or_sum 8 (a * 2 ^ 16 + b * 2 ^ 8 + c) d,
)

-- The word at an offset, from its four bytes.
abbrev pub word_at : List ℕ → ℕ → ℕ
word_at bs p =
    word (get_or bs p 0) (get_or bs (p + 1) 0) (get_or bs (p + 2) 0) (get_or bs (p + 3) 0)

pub big_endian-word_at : (bs : List ℕ) (p : ℕ) → AllBytes bs → big_endian bs p ≡ word_at bs p
unfolding big_endian
big_endian-word_at bs p h =
    bit_or-word _ _ _ _ (get_or-lt bs p h) (get_or-lt bs (p + 1) h) (get_or-lt bs (p + 2) h)
      (get_or-lt bs (p + 3) h)

pub big_endian-lt : (bs : List ℕ) (p : ℕ) → AllBytes bs → big_endian bs p < 2 ^ 32
big_endian-lt bs p h = omega (
  arith,
  big_endian-word_at bs p h,
  get_or-lt bs p h,
  get_or-lt bs (p + 1) h,
  get_or-lt bs (p + 2) h,
  get_or-lt bs (p + 3) h,
)
