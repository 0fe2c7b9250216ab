-- ===== src/Run/Refines.antt =====
-- The dispatch and the loop of src/vm/execution.cpp and vm.cpp against README.md's instructions.
use sprout_lang.Prelude.{
  ℕ, suc, Bool, ◌+◌, ◌*◌, ◌^◌, ◌<◌, ◌≡◌, refl, ap, ◌∙◌, true, false, arith, bit_or, ltb, length,
  List, [], ◌∷◌, if◌then◌else◌,
}
use sprout_lang.Prelude.Bits.{bit_or_sum}
use sprout_lang.Values.{decode_double}
use sprout_lang.Execution.OnDoubles.{double-tests, operations-doubles, end-double}
use sprout_lang.Prelude.Int.{ℤ, pos, negsuc, ltb_ℤ}
use sprout_lang.Result.{ok, ◌>>=◌}
use sprout_lang.Values.Boxing.{InInt48, decode_int-encode_int, kind, double}
use sprout_lang.Vm.{Vm, int_line, fetch, fetch64, set_reg}
use sprout_lang.Vm.Words.{AllBytes, word_at, get_or-lt, big_endian-word_at, big_endian-lt}
use sprout_lang.Decode
use sprout_lang.Decode.{DecodedInstr, decode}
use sprout_lang.Decode.Fields.{decode-fetch}
use sprout_lang.Heap.{free_heap}
use sprout_lang.Heap.Arrays.{move_array}
use sprout_lang.Heap.Elements.{
  HoldsArray, box_index, element, with_element, move_array_bounds, insert_access, read_access,
}
use sprout_lang.Ram.{live, read_bytes}
use sprout_lang.Opcodes.{from_byte}
use sprout_lang.Execution.{
  Doubles, eq_ℤ, compare_flag, compare, write_result, print, end, finish, load_into_reg, jump_if,
  je, jne, jl, jg, push, pop, insert_into_stack, read_from_stack, mov, arr_access, eq_ℤ,
}
use sprout_lang.Execution.Ints.{box, box-is_int, add-sub-box, mul-box, div-box}
use sprout_lang.Execution.Compare.{compare_flag-box, int_flag}
use sprout_lang.Execution.Calls.{call-called, ret_from}
use sprout_lang.Run.{dispatch, execute, step, run}
use sprout_lang.Run.Program.{run_halted, run-step}
use sprout_lang.Run.Manual.{
  Order, equal, lower, greater, unordered, Effect, Instructs, Follows, halted, instruction, jumped,
  passed,
}

end-box : (i : ℤ) → InInt48 i → end (box i) ≡ int_line i ∷ []
unfolding end
end-box i h = rw (box-is_int i h).1 (rw (decode_int-encode_int i h).0 refl)

flag_of :
    (e b a : Bool) (flag : ℤ)
    → Order e b a flag
    → (if e then pos 1 else if b then negsuc 0 else if a then pos 2 else pos 0) ≡ flag
flag_of _ _ _ _ equal = refl
flag_of _ _ _ _ lower = refl
flag_of _ _ _ _ greater = refl
flag_of _ _ _ _ unordered = refl

int_flag-Order :
    (i j flag : ℤ) → Order (eq_ℤ i j) (ltb_ℤ i j) (ltb_ℤ j i) flag → int_flag i j ≡ flag
unfolding int_flag
int_flag-Order i j flag o = flag_of (eq_ℤ i j) (ltb_ℤ i j) (ltb_ℤ j i) flag o

compare-doubles :
    (F : Doubles) (v w : ℕ) (flag : ℤ)
    → kind v ≡ double
    → kind w ≡ double
    → Order (F.eq v w) (F.lt v w) (F.lt w v) flag
    → compare_flag F v w ≡ ok flag
unfolding compare_flag decode_double
compare-doubles F v w flag h k o =
    rw ((double-tests v h).0, (double-tests w k).0)
      (ap ok (flag_of (F.eq v w) (F.lt v w) (F.lt w v) flag o))

-- One word of the bytecode behind the instruction.
fetch-word_at :
    (vm : Vm)
    → AllBytes vm.bytecode
    → length vm.bytecode < 2 ^ 32
    → vm.ip + 3 < length vm.bytecode
    → fetch vm ≡ ok (word_at vm.bytecode vm.ip, passed vm)
unfolding fetch
fetch-word_at vm bytes small inside = rw (big_endian-word_at vm.bytecode vm.ip bytes) (ground arith)

jump-taken :
    (vm : Vm)
    → AllBytes vm.bytecode
    → length vm.bytecode < 2 ^ 32
    → vm.ip + 3 < length vm.bytecode
    → jump_if true vm ≡ ok (jumped vm)
unfolding jump_if
jump-taken vm bytes small inside = rw (fetch-word_at vm bytes small inside) refl

jump-passed : (vm : Vm) → vm.ip < 2 ^ 33 → jump_if false vm ≡ ok (passed vm)
unfolding jump_if
jump-passed vm h = ground arith

word_at-lt : (bytes : List ℕ) (p : ℕ) → AllBytes bytes → word_at bytes p < 2 ^ 32
word_at-lt bytes p h = omega (arith, big_endian-word_at bytes p h, big_endian-lt bytes p h)

load-words :
    (vm : Vm) (r : ℕ)
    → AllBytes vm.bytecode
    → length vm.bytecode < 2 ^ 32
    → vm.ip + 7 < length vm.bytecode
    → load_into_reg vm r
      ≡ ok (
          set_reg r
            (word_at vm.bytecode vm.ip * 2 ^ 32 + word_at vm.bytecode (vm.ip + 4))
            (record vm { ip = vm.ip + 8 }))
unfolding load_into_reg fetch64
load-words vm r bytes small inside =
    rw
      (
        fetch-word_at vm bytes small (omega arith),
        fetch-word_at (passed vm) bytes small (omega arith),
        bit_or_sum 32 (word_at vm.bytecode vm.ip) (word_at vm.bytecode (vm.ip + 4))
            (word_at-lt vm.bytecode (vm.ip + 4) bytes),
        next,
      )
      refl
  where
    next : vm.ip + 4 + 4 ≡ vm.ip + 8
    next = omega arith

-- The jumps by their flag.
jump-Effect :
    (vm : Vm) (flag : ℤ) (b : Bool)
    → eq_ℤ vm.jmp_flag flag ≡ b
    → jump_if (eq_ℤ vm.jmp_flag flag) vm ≡ jump_if b vm
jump-Effect vm flag b e = ap (λ x. jump_if x vm) e

eq_ℤ_refl : (i j : ℤ) → i ≡ j → eq_ℤ i j ≡ true
eq_ℤ_refl i j e = rw e (same j)
  where
    same : (k : ℤ) → eq_ℤ k k ≡ true
    same (pos n) = ground arith
    same (negsuc n) = ground arith

not_above : (len i : ℕ) → i < len → ltb len i ≡ false
not_above len i less = ground arith

insert-element :
    (vm : Vm) (a b c p len i : ℕ)
    → HoldsArray vm b p len
    → vm.reg c ≡ box_index (pos i)
    → i < len
    → live vm.memory.blocks (element p i) 8 ≡ true
    → move_array vm a b c 0 ≡ ok (with_element vm p i (vm.reg a))
insert-element vm a b c p len i h k less here =
    move_array_bounds vm a b c 0 p len i h k (omega (arith, h.small))
    ∙ rw (not_above len i less) (insert_access vm a p i here)

read-element :
    (vm : Vm) (a b c p len i : ℕ)
    → HoldsArray vm b p len
    → vm.reg c ≡ box_index (pos i)
    → i < len
    → live vm.memory.blocks (element p i) 8 ≡ true
    → move_array vm a b c 1 ≡ ok (set_reg a (read_bytes vm.memory.byte 8 (element p i)) vm)
read-element vm a b c p len i h k less here =
    move_array_bounds vm a b c 1 p len i h k (omega (arith, h.small))
    ∙ rw (not_above len i less) (read_access vm a p i here)

slot-index : (a b : ℕ) → b < 256 → bit_or (a * 2 ^ 8) b ≡ a * 256 + b
slot-index a b h = bit_or_sum 8 a b h

execute-Effect :
    (F : Doubles) (a b c op : ℕ) (vm vm' : Vm)
    → b < 256
    → c < 256
    → AllBytes vm.bytecode
    → length vm.bytecode < 2 ^ 32
    → vm.ip < 2 ^ 33
    → Effect F a b c vm op vm'
    → execute F vm (record { opcode = op; ra = a; rb = b; rc = c }) ≡ ok vm'
unfolding execute from_byte dispatch write_result je jne jl jg push pop Decode.push Decode.pop
    insert_into_stack read_from_stack mov arr_access compare print finish free_heap
execute-Effect F a b c _ vm _ hb hc bytes small low (Effect.add i j h k r s) =
    rw (h, k, (add-sub-box F i j r s).0) refl
execute-Effect F a b c _ vm _ hb hc bytes small low (Effect.add_doubles h k) =
    rw ((operations-doubles F (vm.reg b) (vm.reg c) h k).0) refl
execute-Effect F a b c _ vm _ hb hc bytes small low (Effect.sub i j h k r s) =
    rw (h, k, (add-sub-box F i j r s).2) refl
execute-Effect F a b c _ vm _ hb hc bytes small low (Effect.sub_doubles h k) =
    rw ((operations-doubles F (vm.reg b) (vm.reg c) h k).1) refl
execute-Effect F a b c _ vm _ hb hc bytes small low (Effect.mul i j h k r s fits) =
    rw (h, k, (mul-box F i j r s).0, fits) refl
execute-Effect F a b c _ vm _ hb hc bytes small low (Effect.mul_doubles h k) =
    rw ((operations-doubles F (vm.reg b) (vm.reg c) h k).2) refl
execute-Effect F a b c _ vm _ hb hc bytes small low (Effect.div i j h k r s nonzero) =
    rw (h, k, (div-box F i j r s).0, nonzero) refl
execute-Effect F a b c _ vm _ hb hc bytes small low (Effect.div_doubles h k) =
    rw ((operations-doubles F (vm.reg b) (vm.reg c) h k).3) refl
execute-Effect F a b c _ vm _ hb hc bytes small low (Effect.end i h r) = rw (h, end-box i r) refl
execute-Effect F a b c _ vm _ hb hc bytes small low (Effect.end_double h) =
    rw (end-double (vm.reg a) h) refl
execute-Effect F a b c _ vm _ hb hc bytes small low (Effect.load inside) =
    load-words vm a bytes small inside
execute-Effect F a b c _ vm _ hb hc bytes small low (Effect.cmp i j flag h k r s o) =
    rw (h, k, compare_flag-box F i j r s, int_flag-Order i j flag o) refl
execute-Effect F a b c _ vm _ hb hc bytes small low (Effect.cmp_doubles flag h k o) =
    rw (compare-doubles F (vm.reg a) (vm.reg b) flag h k o) refl
execute-Effect F a b c _ vm _ hb hc bytes small low (Effect.dbgret i h r) = rw (h, end-box i r) refl
execute-Effect F a b c _ vm _ hb hc bytes small low (Effect.dbgret_double h) =
    rw (end-double (vm.reg a) h) refl
execute-Effect F a b c _ vm _ hb hc bytes small low (Effect.je inside e) =
    rw (eq_ℤ_refl vm.jmp_flag (pos 1) e) (jump-taken vm bytes small inside)
execute-Effect F a b c _ vm _ hb hc bytes small low (Effect.je_not e) = rw e (jump-passed vm low)
execute-Effect F a b c _ vm _ hb hc bytes small low (Effect.jne inside e) =
    rw e (jump-taken vm bytes small inside)
execute-Effect F a b c _ vm _ hb hc bytes small low (Effect.jne_not e) =
    rw (eq_ℤ_refl vm.jmp_flag (pos 1) e) (jump-passed vm low)
execute-Effect F a b c _ vm _ hb hc bytes small low (Effect.jl inside e) =
    rw (eq_ℤ_refl vm.jmp_flag (negsuc 0) e) (jump-taken vm bytes small inside)
execute-Effect F a b c _ vm _ hb hc bytes small low (Effect.jl_not e) = rw e (jump-passed vm low)
execute-Effect F a b c _ vm _ hb hc bytes small low (Effect.jg inside e) =
    rw (eq_ℤ_refl vm.jmp_flag (pos 2) e) (jump-taken vm bytes small inside)
execute-Effect F a b c _ vm _ hb hc bytes small low (Effect.jg_not e) = rw e (jump-passed vm low)
execute-Effect F a b c _ vm _ hb hc bytes small low (Effect.call known room frame) =
    call-called vm a b c hb hc known room frame
execute-Effect F a b c _ vm _ hb hc bytes small low (Effect.ret p room frame) =
    ret_from vm p room frame
execute-Effect F a b c _ vm _ hb hc bytes small low (Effect.push room) = ground arith
execute-Effect F a b c _ vm _ hb hc bytes small low (Effect.pop p room top) = rw top (ground arith)
execute-Effect F a b c _ vm _ hb hc bytes small low (Effect.ins room) =
    rw (slot-index a b hb) (ground arith)
execute-Effect F a b c _ vm _ hb hc bytes small low (Effect.read room) =
    rw (slot-index a b hb) (ground arith)
execute-Effect F a b c _ vm _ hb hc bytes small low (Effect.mov e) = rw e refl
execute-Effect F a b c _ vm _ hb hc bytes small low (Effect.arrins p len i h k less here) =
    insert-element vm a b c p len i h k less here
execute-Effect F a b c _ vm _ hb hc bytes small low (Effect.arrread p len i h k less here) =
    read-element vm a b c p len i h k less here

-- An instruction of the manual is what a step of the machine does.
step-Instructs : (F : Doubles) (vm vm' : Vm) → Instructs F vm vm' → step F vm ≡ ok vm'
unfolding step
step-Instructs F vm vm' s =
    let (w, e, d) = decode-fetch vm s.bytes s.inside (omega (arith, s.small)) in
    rw (e, d)
      (execute-Effect F _ _ _ _ (record vm { ip = vm.ip + 4 }) vm' (get_or-lt vm.bytecode _ s.bytes)
        (get_or-lt vm.bytecode _ s.bytes) s.bytes s.small (omega (arith, s.inside, s.small))
        s.effect)

-- A program that follows the manual of README.md for n instructions and halts is run by the machine,
-- with that many instructions, to the same state. Of the manual, arithmetic, comparison and printing
-- are taken on ints and doubles where the code neither throws nor is undefined, comparison on two of
-- one kind, array accesses at indices below the length, mov with flag 0; allocation of arrays is left
-- out.
pub run-Follows : (F : Doubles) (n : ℕ) (vm last : Vm) → Follows F n vm last → run F n vm ≡ ok last
run-Follows F _ vm _ (halted stop) = run_halted F 0 vm stop
run-Follows F (suc n) vm last (instruction {vm' = vm'} go s rest) =
    run-step F n vm go
    ∙ ap (λ r. r >>= λ v. run F n v) (step-Instructs F vm vm' s)
    ∙ run-Follows F n vm' last rest
