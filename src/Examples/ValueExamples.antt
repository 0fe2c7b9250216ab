-- ===== src/Examples/ValueExamples.antt =====
-- Examples for src/shared/values.h and src/shared/opcodes.h.
use sprout_lang.Prelude.{◌^◌, ◌<◌, ◌≡◌, arith}
use sprout_lang.Prelude.Int.{negsuc}
use sprout_lang.Values.{
  Char6, encode_int, decode_int, encode_pointer, decode_pointer, encode_char6, decode_char6,
  unsigned64, is_double, is_int, is_pointer, is_bool, is_char6, encode_bool, decode_bool,
}
use sprout_lang.Prelude.{true}
use sprout_lang.Values.Boxing.{
  kind, same_kind, double, int48, pointer, bool, char6, tests-kind, decode_int-encode_int,
  decode_pointer-encode_pointer, decode_char6-encode_char6, decode_bool-encode_bool,
}

tests-kind_example :
    (is_double 0x7FF1000000000007 ≡ same_kind (kind 0x7FF1000000000007) double)
    × (is_int 0x7FF1000000000007 ≡ same_kind (kind 0x7FF1000000000007) int48)
    × (is_pointer 0x7FF1000000000007 ≡ same_kind (kind 0x7FF1000000000007) pointer)
    × (is_bool 0x7FF1000000000007 ≡ same_kind (kind 0x7FF1000000000007) bool)
    × (is_char6 0x7FF1000000000007 ≡ same_kind (kind 0x7FF1000000000007) char6)
tests-kind_example = tests-kind 0x7FF1000000000007

decode_int-encode_int_example :
    (decode_int (encode_int (unsigned64 (negsuc 4))) ≡ negsuc 4)
    × (kind (encode_int (unsigned64 (negsuc 4))) ≡ int48)
    × (encode_int (unsigned64 (negsuc 4)) < 2 ^ 64)
decode_int-encode_int_example = decode_int-encode_int (negsuc 4) (omega arith)

decode_pointer-encode_pointer_example :
    (decode_pointer (encode_pointer 65552) ≡ 65552) × (kind (encode_pointer 65552) ≡ pointer)
decode_pointer-encode_pointer_example = decode_pointer-encode_pointer 65552 (omega arith)

decode_bool-encode_bool_example :
    (decode_bool (encode_bool true) ≡ true) × (kind (encode_bool true) ≡ bool)
decode_bool-encode_bool_example = decode_bool-encode_bool true

abbrev sprout : Char6
sprout = record { a = b'S'; b = b'P'; c = b'R'; d = b'O'; e = b'U'; f = b'T' }

decode_char6-encode_char6_example :
    (decode_char6 (encode_char6 sprout) ≡ sprout) × (kind (encode_char6 sprout) ≡ char6)
decode_char6-encode_char6_example = decode_char6-encode_char6 sprout (omega arith)
