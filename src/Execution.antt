-- ===== src/Execution.antt =====
-- src/vm/execution.h and src/vm/execution.cpp: the instructions. Arithmetic on doubles is the
-- machine's and a parameter: `Floats` acts on bit patterns. An int64_t result outside the range of
-- the type is undefined behaviour, as is a division by zero.
pub mod Ints
pub mod Compare
pub mod Calls
pub mod Moves
pub mod Kinds
pub mod OnDoubles
use sprout_lang.Prelude.{
  ℕ, ◌+◌, ◌-◌, ◌*◌, ◌/◌, ◌%◌, ◌^◌, Bool, true, false, ◌&&◌, ◌||◌, List, [], ◌∷◌, ◌++◌, bit_or, ◌==◌,
  ltb, leb, if◌then◌else◌,
}
use sprout_lang.Prelude.Int.{ℤ, pos, negsuc, pos_part, neg_part, ◌+ℤ◌, ◌-ℤ◌, ◌*ℤ◌, sub_ℕ, ltb_ℤ}
use sprout_lang.Result.{
  Result, ok, thrown, fault, ensure, ◌>>=◌, ◌>>◌, invalid_operands, invalid_opcode, stack_access,
  table_access, int_overflow, division,
}
use sprout_lang.Ram.{load, store}
use sprout_lang.Values.{
  is_double, is_int, is_bool, is_char6, decode_double, encode_double, decode_int, encode_int,
  unsigned64, decode_bool, decode_char6,
}
use sprout_lang.Vm.{
  Vm, Line, int_line, double_line, char6_line, update, set_reg, fetch, fetch64, function_table_size,
  stack_size,
}
use sprout_lang.Decode
use sprout_lang.Decode.{DecodedInstr}
use sprout_lang.Heap.{free_heap}
use sprout_lang.Heap.Arrays.{init_array, move_array}

-- What the C++ operators do on two doubles, given by their bit patterns.
pub record Doubles : Type 0 where
  pub add : ℕ → ℕ → ℕ
  pub sub : ℕ → ℕ → ℕ
  pub mul : ℕ → ℕ → ℕ
  pub div : ℕ → ℕ → ℕ
  pub eq : ℕ → ℕ → Bool
  pub lt : ℕ → ℕ → Bool

abbrev pub eq_ℤ : ℤ → ℤ → Bool
eq_ℤ a b = pos_part a + neg_part b == pos_part b + neg_part a

abbrev pub same_bool : Bool → Bool → Bool
same_bool true b = b
same_bool false b = if b then false else true

-- An int64_t result: undefined behaviour where it does not fit.
abbrev pub fits64 : ℤ → Bool
fits64 i = ltb (pos_part i) (2 ^ 63) && leb (neg_part i) (2 ^ 63)

unfoldable pub checked : ℤ → Result ℤ
checked i = if fits64 i then ok i else fault int_overflow

-- The quotient truncated towards zero.
infixl 70 ◌/ℤ◌
abbrev pub ◌/ℤ◌ : ℤ → ℤ → ℤ
a /ℤ b =
    sub_ℕ (pos_part a / pos_part b + neg_part a / neg_part b)
      (pos_part a / neg_part b + neg_part a / pos_part b)

unfoldable pub int_div : ℤ → ℤ → Result ℤ
unfolding checked
int_div a b = if eq_ℤ b (pos 0) then fault division else checked (a /ℤ b)

-- The shape that the four arithmetic instructions share: two doubles, two ints, or an exception.
unfoldable pub arithmetic : (ℕ → ℕ → ℕ) → (ℤ → ℤ → Result ℤ) → ℕ → ℕ → Result ℕ
arithmetic on_doubles on_ints a b =
    if is_double a && is_double b
    then ok (encode_double (on_doubles (decode_double a) (decode_double b)))
    else if is_int a && is_int b
    then (do res ← on_ints (decode_int a) (decode_int b); ok (encode_int (unsigned64 res)))
    else thrown invalid_operands

module _ (F : Doubles) where
  unfoldable pub add : ℕ → ℕ → Result ℕ
  unfolding arithmetic checked
  add a b = arithmetic F.add (λ x y. checked (x +ℤ y)) a b

  unfoldable pub sub : ℕ → ℕ → Result ℕ
  unfolding arithmetic checked
  sub a b = arithmetic F.sub (λ x y. checked (x -ℤ y)) a b

  unfoldable pub mul : ℕ → ℕ → Result ℕ
  unfolding arithmetic checked
  mul a b = arithmetic F.mul (λ x y. checked (x *ℤ y)) a b

  unfoldable pub div : ℕ → ℕ → Result ℕ
  unfolding arithmetic int_div
  div a b = arithmetic F.div int_div a b

  -- The flag: 1 equal, -1 below, 2 above, 0 neither.
  unfoldable pub compare_flag : ℕ → ℕ → Result ℤ
  compare_flag a b =
      if is_double a && is_double b
      then (let da = decode_double a in
          let db = decode_double b in
          ok (
            if F.eq da db
            then pos 1
            else if F.lt da db
            then negsuc 0
            else if F.lt db da
            then pos 2
            else pos 0))
      else if is_int a && is_int b
      then (let da = decode_int a in
          let db = decode_int b in
          ok (
            if eq_ℤ da db
            then pos 1
            else if ltb_ℤ da db
            then negsuc 0
            else if ltb_ℤ db da
            then pos 2
            else pos 0))
      else if is_bool a && is_bool b
      then ok (if same_bool (decode_bool a) (decode_bool b) then pos 1 else pos 0)
      else thrown invalid_operands

  unfoldable pub compare : Vm → ℕ → ℕ → Result Vm
  unfolding compare_flag
  compare vm a b = do flag ← compare_flag a b; ok (record vm { jmp_flag = flag })

unfoldable pub load_into_reg : Vm → ℕ → Result Vm
load_into_reg vm r = do (val, vm') ← fetch64 vm; ok (set_reg r val vm')

-- A bool, a pointer or a null prints nothing.
unfoldable pub end : ℕ → List Line
end v =
    if is_int v
    then int_line (decode_int v) ∷ []
    else if is_double v
    then double_line (decode_double v) ∷ []
    else if is_char6 v
    then char6_line (decode_char6 v) ∷ []
    else []

unfoldable pub print : ℕ → Vm → Vm
unfolding end
print v vm = record vm { output = vm.output ++ end v }

-- A jump reads its 4-byte target, or steps over it.
unfoldable pub jump_if : Bool → Vm → Result Vm
jump_if taken vm =
    if taken
    then (do (target, vm') ← fetch vm; ok (record vm' { ip = target }))
    else ok (record vm { ip = (vm.ip + 4) % 2 ^ 64 })

unfoldable pub je : Vm → Result Vm
unfolding jump_if
je vm = jump_if (eq_ℤ vm.jmp_flag (pos 1)) vm

unfoldable pub jne : Vm → Result Vm
unfolding jump_if
jne vm = jump_if (if eq_ℤ vm.jmp_flag (pos 1) then false else true) vm

unfoldable pub jl : Vm → Result Vm
unfolding jump_if
jl vm = jump_if (eq_ℤ vm.jmp_flag (negsuc 0)) vm

unfoldable pub jg : Vm → Result Vm
unfolding jump_if
jg vm = jump_if (eq_ℤ vm.jmp_flag (pos 2)) vm

unfoldable pub call : Vm → ℕ → ℕ → ℕ → Result Vm
call vm a b c = do
  let index = bit_or (bit_or (a * 2 ^ 16) (b * 2 ^ 8)) c
  ensure (ltb index function_table_size) table_access
  let f = vm.function_table index
  vm ← Decode.push vm.fp vm
  vm ← Decode.push vm.ip vm
  ok (record vm { fp = vm.sp; sp = (vm.sp + f.frame_size) % 2 ^ 64; ip = f.entry_ip })

unfoldable pub ret : Vm → Result Vm
ret vm = do
  (ip, vm) ← Decode.pop (record vm { sp = vm.fp })
  (fp, vm) ← Decode.pop vm
  ok (record vm { ip = ip; fp = fp })

unfoldable pub push : Vm → ℕ → Result Vm
push vm target = Decode.push target vm

unfoldable pub pop : Vm → ℕ → Result Vm
pop vm dst = do (v, vm) ← Decode.pop vm; ok (set_reg dst v vm)

unfoldable pub insert_into_stack : Vm → ℕ → ℕ → ℕ → Result Vm
insert_into_stack vm a b target = do
  let point = bit_or (a * 2 ^ 8) b
  ensure (ltb point stack_size) stack_access
  ok (record vm { stack = update vm.stack point target })

unfoldable pub read_from_stack : Vm → ℕ → ℕ → ℕ → Result Vm
read_from_stack vm a b dst = do
  let point = bit_or (a * 2 ^ 8) b
  ensure (ltb point stack_size) stack_access
  ok (set_reg dst (vm.stack point) vm)

-- Flags 1 to 3 use whole register words as addresses.
unfoldable pub mov : Vm → ℕ → ℕ → ℕ → Result Vm
mov vm dst src flag =
    if flag == 1
    then (do v ← load 8 (vm.reg src) vm.memory; ok (set_reg dst v vm))
    else if flag == 2
    then (do m ← store 8 (vm.reg dst) (vm.reg src) vm.memory; ok (record vm { memory = m }))
    else if flag == 3
    then (do
      v ← load 8 (vm.reg src) vm.memory
      m ← store 8 (vm.reg dst) v vm.memory
      ok (record vm { memory = m }))
    else ok (set_reg dst (vm.reg src) vm)

unfoldable pub arr_init : Vm → ℕ → ℕ → ℕ → Result Vm
arr_init vm dst len type = init_array vm dst len type

unfoldable pub arr_access : Vm → ℕ → ℕ → ℕ → ℕ → Result Vm
arr_access vm target array index flag = move_array vm target array index flag

-- OP_END: print, stop, and free both half-spaces.
unfoldable pub finish : Vm → ℕ → Vm
finish vm v =
    let vm1 = print v vm in
    let (heap_a, m) = free_heap vm1.heap_a vm1.memory in
    let (heap_b, m') = free_heap vm1.heap_b m in
    record vm1 { running = false; heap_a = heap_a; heap_b = heap_b; memory = m' }

-- `vm.reg[dst] = r`, for the arithmetic instructions.
unfoldable pub write_result : ℕ → Vm → Result ℕ → Result Vm
write_result dst vm r = do v ← r; ok (set_reg dst v vm)
