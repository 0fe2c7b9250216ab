-- ===== src/Examples/MachineExamples.antt =====
-- Examples for the machine: fetch and decode, file format, instructions.
use sprout_lang.Prelude.{
  ℕ, zero, suc, List, length, ap, ◌+◌, ◌/◌, ◌≡◌, ◌≢◌, refl, true, false, [], ◌∷◌, ◌==◌, ltb,
  if◌then◌else◌, arith,
}
use sprout_lang.Prelude.Int.{pos, negsuc, ◌+ℤ◌, ◌-ℤ◌, ◌*ℤ◌, ltb_ℤ}
use sprout_lang.Result.{
  ok, thrown, fault, bad_magic, bad_version, int_overflow, division, invalid_operands,
  memory_access, table_access,
}
use sprout_lang.Values.{
  is_int, is_double, decode_double, encode_bool, encode_int, encode_pointer, decode_int, nan_base,
}
use sprout_lang.Values.Boxing.{kind}
use sprout_lang.Vm.{
  Vm, double_line, big_endian, BcHeader, fetch, sprout_lang_magic, sprout_lang_version,
}
use sprout_lang.Decode.{decode}
use sprout_lang.Decode.Fields.{instr_at, decode-fetch}
use sprout_lang.Bytecode.{load_header, load_function_table}
use sprout_lang.Bytecode.Header.{put_header, load_header-put_header}
use sprout_lang.Bytecode.Table.{
  entry_at, with_table, load_function_table-entry_at, load_function_table_overrun,
}
use sprout_lang.Opcodes.{from_byte}
use sprout_lang.Execution.{
  finish, print, add, sub, mul, div, compare, mov, call, ret, fits64, eq_ℤ, ◌/ℤ◌, same_bool,
}
use sprout_lang.Execution.Ints.{box, wrap48, magnitude, add-sub-box, mul-box, div-box}
use sprout_lang.Execution.Compare.{Jumps, flagged, compare-Jumps, compare_bool-Jumps}
use sprout_lang.Execution.Calls.{called, index24, call-called, ret-call}
use sprout_lang.Execution.Kinds.{AllRefuse, mixed_kinds_throw, infinite_throws}
use sprout_lang.Execution.Moves.{mov_boxed_pointer}
use sprout_lang.Heap.{free_heap}
use sprout_lang.Run.{execute, dispatch, step, run}
use sprout_lang.Examples.{plain, blank, no_header}

-- An instruction `add r2, r0, r1`.
abbrev adding : Vm
adding = record blank { bytecode = 0 ∷ 2 ∷ 0 ∷ 1 ∷ [] }

decode-fetch_example :
    (w : ℕ) × (fetch adding ≡ ok (w, record adding { ip = 0 + 4 })) × (decode w ≡ instr_at adding 0)
decode-fetch_example = decode-fetch adding (omega arith) (omega arith) (omega arith)

abbrev good_header : BcHeader
good_header = record no_header {
  magic = sprout_lang_magic;
  version = sprout_lang_version;
  function_count = 1;
  function_offset = 32;
  code_offset = 40;
}

load_header-put_header_example : load_header (put_header good_header (9 ∷ [])) ≡ (
    if good_header.magic == sprout_lang_magic
    then if good_header.version == sprout_lang_version then ok good_header else thrown bad_version
    else thrown bad_magic)
load_header-put_header_example = load_header-put_header good_header (9 ∷ []) (omega arith)

abbrev one_function : BcHeader
one_function = record no_header { function_count = 1; function_offset = 0 }

abbrev with_entry : Vm
with_entry = record blank { bytecode = 0 ∷ 0 ∷ 0 ∷ 40 ∷ 0 ∷ 1 ∷ 0 ∷ 3 ∷ [] }

load_function_table-entry_at_example :
    load_function_table one_function with_entry
    ≡ ok (
        with_table with_entry
          (λ j. if ltb j 1 then entry_at with_entry.bytecode 0 j else with_entry.function_table j))
load_function_table-entry_at_example =
    load_function_table-entry_at one_function with_entry (omega arith) (omega arith) (omega arith)

abbrev too_many : BcHeader
too_many = record no_header { function_count = 3000 }

zeros : ℕ → List ℕ
zeros zero = []
zeros (suc n) = 0 ∷ zeros n

length-zeros : (n : ℕ) → length (zeros n) ≡ n
unfolding zeros
length-zeros zero = refl
length-zeros (suc n) = ap suc (length-zeros n)

-- A file of 2049 empty entries.
abbrev long_table : Vm
long_table = record blank { bytecode = zeros 16392 }

load_function_table_overrun_example : load_function_table too_many long_table ≡ fault table_access
load_function_table_overrun_example =
    load_function_table_overrun too_many long_table (omega arith)
      (omega (arith, length-zeros 16392)) (omega (arith, length-zeros 16392))

add-sub-box_example :
    (add plain (box (pos 40)) (box (negsuc 1)) ≡ ok (box (pos 40 +ℤ negsuc 1)))
    × (decode_int (box (pos 40 +ℤ negsuc 1)) ≡ wrap48 (pos 40 +ℤ negsuc 1))
    × (sub plain (box (pos 40)) (box (negsuc 1)) ≡ ok (box (pos 40 -ℤ negsuc 1)))
    × (decode_int (box (pos 40 -ℤ negsuc 1)) ≡ wrap48 (pos 40 -ℤ negsuc 1))
add-sub-box_example = add-sub-box plain (pos 40) (negsuc 1) (omega arith) (omega arith)

mul-box_example :
    (mul plain (box (pos 6)) (box (pos 7))
      ≡ (if fits64 (pos 6 *ℤ pos 7) then ok (box (pos 6 *ℤ pos 7)) else fault int_overflow))
    × (decode_int (box (pos 6 *ℤ pos 7)) ≡ wrap48 (pos 6 *ℤ pos 7))
mul-box_example = mul-box plain (pos 6) (pos 7) (omega arith) (omega arith)

div-box_example :
    (div plain (box (negsuc 6)) (box (pos 2))
      ≡ (if eq_ℤ (pos 2) (pos 0) then fault division else ok (box (negsuc 6 /ℤ pos 2))))
    × (decode_int (box (negsuc 6 /ℤ pos 2)) ≡ wrap48 (negsuc 6 /ℤ pos 2))
    × (magnitude (negsuc 6 /ℤ pos 2) ≡ magnitude (negsuc 6) / magnitude (pos 2))
div-box_example = div-box plain (negsuc 6) (pos 2) (omega arith) (omega arith)

compare-Jumps_example :
    (vm' : Vm) × (compare plain blank (box (pos 3)) (box (pos 5)) ≡ ok vm')
    × (vm' ≡ flagged blank vm'.jmp_flag)
    × Jumps vm' (eq_ℤ (pos 3) (pos 5)) (ltb_ℤ (pos 3) (pos 5)) (ltb_ℤ (pos 5) (pos 3))
compare-Jumps_example = compare-Jumps plain blank (pos 3) (pos 5) (omega arith) (omega arith)

compare_bool-Jumps_example :
    (vm' : Vm) × (compare plain blank (encode_bool true) (encode_bool false) ≡ ok vm')
    × (vm' ≡ flagged blank vm'.jmp_flag)
    × Jumps vm' (same_bool true false) false false
compare_bool-Jumps_example = compare_bool-Jumps plain blank true false

call-called_example : call blank 0 0 5 ≡ ok (called blank (index24 0 0 5))
call-called_example =
    call-called blank 0 0 5 (omega arith) (omega arith) (omega arith) (omega arith) (omega arith)

ret-call_example :
    (call blank 0 0 5 ≡ ok (called blank (index24 0 0 5)))
    × (ret (called blank (index24 0 0 5))
        ≡ ok
            (record (called blank (index24 0 0 5)) { ip = blank.ip; fp = blank.fp; sp = blank.sp }))
ret-call_example =
    ret-call blank (called blank (index24 0 0 5)) 0 0 5 (omega arith) (omega arith) (omega arith)
      (omega arith) (omega arith) refl (λ i h. refl)

mixed_kinds_throw_example :
    (add plain 0 (box (pos 1)) ≡ thrown invalid_operands)
    × (sub plain 0 (box (pos 1)) ≡ thrown invalid_operands)
    × (mul plain 0 (box (pos 1)) ≡ thrown invalid_operands)
    × (div plain 0 (box (pos 1)) ≡ thrown invalid_operands)
mixed_kinds_throw_example = mixed_kinds_throw plain 0 (box (pos 1)) apart
  where
    apart : kind 0 ≢ kind (box (pos 1))
    apart = unfold encode_int in cc

infinite_throws_example : AllRefuse plain blank nan_base 0 × AllRefuse plain blank 0 nan_base
infinite_throws_example = infinite_throws plain blank nan_base 0 refl

abbrev pointing : Vm
pointing = record blank { reg = λ i. encode_pointer 65552 }

mov_boxed_pointer_example :
    (mov pointing 1 0 1 ≡ fault memory_access)
    × (mov pointing 1 0 2 ≡ fault memory_access)
    × (mov pointing 1 0 3 ≡ fault memory_access)
mov_boxed_pointer_example = mov_boxed_pointer pointing 1 0 65552 65552 tt refl refl

-- `end r0`.
abbrev ending : Vm
ending = record blank { bytecode = 4 ∷ 0 ∷ 0 ∷ 0 ∷ []; running = true }

abbrev ended : Vm
ended = record ending { running = false; ip = 4; output = double_line 0 ∷ [] }

ending-ended : run plain 1 ending ≡ ok ended
unfolding run step execute from_byte dispatch fetch big_endian decode finish print free_heap is_int
    is_double decode_double
ending-ended = refl
