-- ===== src/Values/Boxing.antt =====
-- The boxed values of src/shared/values.h: kinds of words, and the round trips of the encodings.
use sprout_lang.Prelude.{
  ℕ, ◌+◌, ◌-◌, ◌*◌, ◌/◌, ◌%◌, ◌^◌, ◌<◌, ◌≡◌, refl, Bool, true, false, arith, ◌==◌, if◌then◌else◌,
}
use native.Mathlib.Nat.{mod-eq_of_lt}
use sprout_lang.Prelude.Int.{ℤ, pos, negsuc, ◌≤ℤ◌}
use sprout_lang.Values.{
  tag_char6, unsigned64, Char6, is_double, is_int, is_pointer, is_bool, is_char6, encode_int,
  decode_int, encode_pointer, decode_pointer, encode_bool, decode_bool, encode_char6, decode_char6,
}
use sprout_lang.Values.Tags.{
  boxed, payload-mod, bit_or-boxed, is_double_iff, get_tag-mod, encode_int-boxed,
  encode_pointer-boxed, decode_pointer-mod, decode_int-signed48,
}

-- What a word holds, read off its exponent and tag fields.
pub data Kind : Type 0 where
  double int48 pointer bool char6 other : Kind

abbrev pub tagged : ℕ → Kind
tagged t =
    if t == 1
    then int48
    else if t == 2
    then pointer
    else if t == 3
    then bool
    else if t == 4
    then char6
    else other

abbrev pub kind : ℕ → Kind
kind v = if v / 2 ^ 52 % 2048 == 2047 then tagged (v / 2 ^ 48 % 16) else double

abbrev pub same_kind : Kind → Kind → Bool
same_kind double double = true
same_kind int48 int48 = true
same_kind pointer pointer = true
same_kind bool bool = true
same_kind char6 char6 = true
same_kind other other = true
same_kind _ _ = false

-- Every word has one kind, and the five tests are the tests for that kind: no word passes two.
pub tests-kind :
    (v : ℕ)
    → (is_double v ≡ same_kind (kind v) double)
      × (is_int v ≡ same_kind (kind v) int48)
      × (is_pointer v ≡ same_kind (kind v) pointer)
      × (is_bool v ≡ same_kind (kind v) bool)
      × (is_char6 v ≡ same_kind (kind v) char6)
unfolding is_int is_pointer is_bool is_char6
tests-kind v = rw (is_double_iff v, get_tag-mod v) (ground arith)

kind-boxed : (t p : ℕ) → t < 16 → p < 2 ^ 48 → kind (boxed t p) ≡ tagged t
kind-boxed t p ht hp = ground arith

abbrev pub InInt48 : ℤ → Type 0
InInt48 i = (negsuc (2 ^ 47 - 1) ≤ℤ i) × (i ≤ℤ pos (2 ^ 47 - 1))

-- An integer of the int48 range survives boxing, and its box is an int and nothing else.
pub decode_int-encode_int :
    (i : ℤ)
    → InInt48 i
    → (decode_int (encode_int (unsigned64 i)) ≡ i)
      × (kind (encode_int (unsigned64 i)) ≡ int48)
      × (encode_int (unsigned64 i) < 2 ^ 64)
decode_int-encode_int i h = rw (encode_int-boxed (unsigned64 i)) (
  rw (decode_int-signed48 (boxed 1 (unsigned64 i % 2 ^ 48))) (ground arith),
  kind-boxed 1 (unsigned64 i % 2 ^ 48) (omega arith) (omega arith),
  omega arith,
)

-- An address of at most 48 bits survives boxing, and its box is a pointer and nothing else.
pub decode_pointer-encode_pointer :
    (p : ℕ)
    → p < 2 ^ 48
    → (decode_pointer (encode_pointer p) ≡ p) × (kind (encode_pointer p) ≡ pointer)
decode_pointer-encode_pointer p h = rw (encode_pointer-boxed p) (
  omega (arith, decode_pointer-mod (boxed 2 (p % 2 ^ 48))),
  kind-boxed 2 (p % 2 ^ 48) (omega arith) (omega arith),
)

-- A boolean survives boxing, and its box is a boolean and nothing else.
pub decode_bool-encode_bool :
    (b : Bool) → (decode_bool (encode_bool b) ≡ b) × (kind (encode_bool b) ≡ bool)
unfolding decode_bool encode_bool
decode_bool-encode_bool true = (refl, refl)
decode_bool-encode_bool false = (refl, refl)

abbrev pub IsBytes : Char6 → Type 0
IsBytes r = (r.a < 256) × (r.b < 256) × (r.c < 256) × (r.d < 256) × (r.e < 256) × (r.f < 256)

abbrev packed : Char6 → ℕ
packed r = r.a + r.b * 2 ^ 8 + r.c * 2 ^ 16 + r.d * 2 ^ 24 + r.e * 2 ^ 32 + r.f * 2 ^ 40

packed-lt : (r : Char6) → IsBytes r → packed r < 2 ^ 48
packed-lt r h = omega arith

encode_char6-boxed : (r : Char6) → IsBytes r → encode_char6 r ≡ boxed tag_char6 (packed r)
unfolding encode_char6
encode_char6-boxed r h =
    rw (payload-mod (packed r), mod-eq_of_lt (packed-lt r h))
      (bit_or-boxed _ 4 (packed r) refl (omega arith))

decode_char6-boxed : (r : Char6) → IsBytes r → decode_char6 (boxed tag_char6 (packed r)) ≡ r
unfolding decode_char6
decode_char6-boxed r h = rw (payload-mod (boxed 4 (packed r)), low) (ground arith)
  where
    low : boxed 4 (packed r) % 2 ^ 48 ≡ packed r
    low = omega arith

-- Six chars survive boxing, and their box is a char6 and nothing else.
pub decode_char6-encode_char6 :
    (r : Char6) → IsBytes r → (decode_char6 (encode_char6 r) ≡ r) × (kind (encode_char6 r) ≡ char6)
decode_char6-encode_char6 r h =
    rw (encode_char6-boxed r h)
      (decode_char6-boxed r h, kind-boxed 4 (packed r) (omega arith) (omega arith))
