-- ===== src/Values/Tags.antt =====
-- The tests and encodings of src/shared/values.h in plain arithmetic on the fields of a word: the
-- sign and exponent above bit 52, the tag in bits 48 to 51, the payload below.
use sprout_lang.Prelude.{
  ℕ, ◌+◌, ◌-◌, ◌*◌, ◌/◌, ◌%◌, ◌^◌, ◌<◌, ◌≡◌, refl, Bool, true, false, not, bit_and, bit_or, arith,
  ◌==◌, if◌then◌else◌, ap,
}
use sprout_lang.Prelude.Bits.{bit_and_mask, bit_and_high, bit_or_sum, bit_or_sum_high}
use sprout_lang.Prelude.Int.{ℤ, pos, negsuc}
use sprout_lang.Values.{
  nan_payload, tag_int48, tag_pointer, tag_bool, is_double, get_tag, encode_int, decode_int,
  encode_pointer, decode_pointer, encode_bool, decode_bool,
}

pub payload-mod : (v : ℕ) → bit_and v nan_payload ≡ v % 2 ^ 48
payload-mod v = bit_and_mask 48 v

-- A boxed word: the base, a tag below 16 and a payload.
abbrev pub boxed : ℕ → ℕ → ℕ
boxed t p = (0x7FF0 + t) * 2 ^ 48 + p

pub bit_or-boxed : (w t p : ℕ) → w ≡ (0x7FF0 + t) * 2 ^ 48 → p < 2 ^ 48 → bit_or w p ≡ boxed t p
bit_or-boxed w t p e h = rw e (bit_or_sum 48 (0x7FF0 + t) p h)

pub is_double_iff : (v : ℕ) → is_double v ≡ not (v / 2 ^ 52 % 2048 == 2047)
unfolding is_double
is_double_iff v = ground (arith, bit_and_high 52 v 2047, bit_and_mask 11 (v / 2 ^ 52))

pub get_tag-mod : (v : ℕ) → get_tag v ≡ v / 2 ^ 48 % 16
unfolding get_tag
get_tag-mod v = bit_and_mask 4 (v / 2 ^ 48)

pub is_double-boxed : (t p : ℕ) → t < 16 → p < 2 ^ 48 → is_double (boxed t p) ≡ false
is_double-boxed t p ht hp = ground (arith, is_double_iff (boxed t p))

pub get_tag-boxed : (t p : ℕ) → t < 16 → p < 2 ^ 48 → get_tag (boxed t p) ≡ t
get_tag-boxed t p ht hp = omega (arith, get_tag-mod (boxed t p))

pub encode_int-boxed : (r : ℕ) → encode_int r ≡ boxed tag_int48 (r % 2 ^ 48)
unfolding encode_int
encode_int-boxed r = rw (payload-mod r) (bit_or-boxed _ 1 (r % 2 ^ 48) refl (omega arith))

pub encode_pointer-boxed : (r : ℕ) → encode_pointer r ≡ boxed tag_pointer (r % 2 ^ 48)
unfolding encode_pointer
encode_pointer-boxed r = rw (payload-mod r) (bit_or-boxed _ 2 (r % 2 ^ 48) refl (omega arith))

pub encode_bool-boxed : (b : Bool) → encode_bool b ≡ boxed tag_bool (if b then 1 else 0)
unfolding encode_bool
encode_bool-boxed true = refl
encode_bool-boxed false = refl

pub decode_pointer-mod : (r : ℕ) → decode_pointer r ≡ r % 2 ^ 48
unfolding decode_pointer
decode_pointer-mod = payload-mod

pub decode_bool-mod : (r : ℕ) → decode_bool r ≡ not (r % 2 == 0)
unfolding decode_bool
decode_bool-mod r = ap (λ (t : ℕ). not (t == 0)) (bit_and_mask 1 r)

-- The int48 that a payload below 2 ^ 48 stands for.
abbrev pub signed48 : ℕ → ℤ
signed48 p = if p / 2 ^ 47 == 0 then pos p else negsuc (2 ^ 48 - 1 - p)

pub sign_bit : (p : ℕ) → p < 2 ^ 48 → bit_and p (2 ^ 47) ≡ p / 2 ^ 47 * 2 ^ 47
sign_bit p h = ground (arith, bit_and_high 47 p 1, bit_and_mask 1 (p / 2 ^ 47))

pub decode_int-signed48 : (v : ℕ) → decode_int v ≡ signed48 (v % 2 ^ 48)
unfolding decode_int
decode_int-signed48 v =
    rw (payload-mod v)
      (ground (arith, sign_bit (v % 2 ^ 48), bit_or_sum_high 48 0xFFFF (v % 2 ^ 48)))
