-- ===== src/Values.antt =====
-- src/shared/values.h: 64-bit words that hold a double or a tagged 48-bit payload ("NaN-boxing").
-- A word is a native number below 2 ^ 64. A double is its IEEE bit pattern, so the two memcpy
-- conversions keep the number; an int64_t is an integer (ℤ). The memory order of the six chars of
-- a char6 is that of a little-endian machine: `a` is the low byte of the payload.
pub mod Boxing
pub mod Tags
use sprout_lang.Prelude.{
  ℕ, ◌+◌, ◌-◌, ◌*◌, ◌/◌, ◌%◌, ◌^◌, Bool, ◌&&◌, not, bit_and, bit_or, ◌==◌, ltb, if◌then◌else◌,
}
use sprout_lang.Prelude.Int.{ℤ, pos, negsuc}

abbrev pub nan_base : ℕ
nan_base = 0x7FF0000000000000

abbrev pub nan_payload : ℕ
nan_payload = 0x0000FFFFFFFFFFFF

-- The tags, in the order of the source's enum.
abbrev pub tag_double : ℕ
tag_double = 0

abbrev pub tag_int48 : ℕ
tag_int48 = 1

abbrev pub tag_pointer : ℕ
tag_pointer = 2

abbrev pub tag_bool : ℕ
tag_bool = 3

abbrev pub tag_char6 : ℕ
tag_char6 = 4

abbrev pub tag_null : ℕ
tag_null = 5

-- An int64_t from its bit pattern, and the bit pattern (uint64_t) of an int64_t.
abbrev pub signed64 : ℕ → ℤ
signed64 w = if ltb w (2 ^ 63) then pos w else negsuc (2 ^ 64 - 1 - w)

abbrev pub unsigned64 : ℤ → ℕ
unsigned64 (pos n) = n % 2 ^ 64
unsigned64 (negsuc n) = 2 ^ 64 - 1 - n % 2 ^ 64

pub record Char6 : Type 0 where
  pub a : ℕ
  pub b : ℕ
  pub c : ℕ
  pub d : ℕ
  pub e : ℕ
  pub f : ℕ

unfoldable pub is_double : ℕ → Bool
is_double v = not (bit_and v nan_base == nan_base)

unfoldable pub get_tag : ℕ → ℕ
get_tag v = bit_and (v / 2 ^ 48) 0xF

unfoldable pub is_int : ℕ → Bool
unfolding is_double get_tag
is_int v = not (is_double v) && get_tag v == tag_int48

unfoldable pub is_pointer : ℕ → Bool
unfolding is_double get_tag
is_pointer v = not (is_double v) && get_tag v == tag_pointer

unfoldable pub is_bool : ℕ → Bool
unfolding is_double get_tag
is_bool v = not (is_double v) && get_tag v == tag_bool

unfoldable pub is_char6 : ℕ → Bool
unfolding is_double get_tag
is_char6 v = not (is_double v) && get_tag v == tag_char6

-- memcpy between a double and its word: the bit pattern is the model's double.
unfoldable pub decode_double : ℕ → ℕ
decode_double r = r

unfoldable pub encode_double : ℕ → ℕ
encode_double d = d

unfoldable pub encode_int : ℕ → ℕ
encode_int r = bit_or (bit_or nan_base (tag_int48 * 2 ^ 48)) (bit_and r nan_payload)

unfoldable pub decode_int : ℕ → ℤ
decode_int num =
    let enc = bit_and num nan_payload in
    signed64 (if bit_and enc (2 ^ 47) == 0 then enc else bit_or enc 0xFFFF000000000000)

unfoldable pub encode_pointer : ℕ → ℕ
encode_pointer v = bit_or (bit_or nan_base (tag_pointer * 2 ^ 48)) (bit_and v nan_payload)

unfoldable pub decode_pointer : ℕ → ℕ
decode_pointer r = bit_and r nan_payload

unfoldable pub encode_bool : Bool → ℕ
encode_bool b = bit_or (bit_or nan_base (tag_bool * 2 ^ 48)) (if b then 1 else 0)

unfoldable pub decode_bool : ℕ → Bool
decode_bool r = not (bit_and r 1 == 0)

-- The six bytes copied into a zeroed word, and out of it.
unfoldable pub encode_char6 : Char6 → ℕ
encode_char6 c =
    let value = c.a + c.b * 2 ^ 8 + c.c * 2 ^ 16 + c.d * 2 ^ 24 + c.e * 2 ^ 32 + c.f * 2 ^ 40 in
    bit_or (bit_or nan_base (tag_char6 * 2 ^ 48)) (bit_and value nan_payload)

unfoldable pub decode_char6 : ℕ → Char6
decode_char6 r =
    let v = bit_and r nan_payload in
    record {
      a = v % 2 ^ 8;
      b = v / 2 ^ 8 % 2 ^ 8;
      c = v / 2 ^ 16 % 2 ^ 8;
      d = v / 2 ^ 24 % 2 ^ 8;
      e = v / 2 ^ 32 % 2 ^ 8;
      f = v / 2 ^ 40 % 2 ^ 8;
    }
