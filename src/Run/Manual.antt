-- ===== src/Run/Manual.antt =====
-- README.md, "Instruction Set": what an instruction does, by its byte and apart from the code.
-- Arithmetic, comparison and printing are described for ints and doubles, the array accesses for
-- indices below the length; of `mov` the flag 0. Allocation of arrays is left out.
use sprout_lang.Prelude.{
  ℕ, Bool, suc, ◌+◌, ◌*◌, ◌^◌, ◌≤◌, ◌<◌, ◌≡◌, [], ◌∷◌, ◌++◌, true, false, get_or, length,
}
use sprout_lang.Prelude.Int.{ℤ, pos, negsuc, ◌+ℤ◌, ◌-ℤ◌, ◌*ℤ◌, ltb_ℤ}
use sprout_lang.Ram.{live, read_bytes}
use sprout_lang.Values.Boxing.{InInt48, kind, double}
use sprout_lang.Vm.{
  Vm, Line, int_line, double_line, update, set_reg, stack_size, function_table_size,
}
use sprout_lang.Vm.Words.{AllBytes, word_at}
use sprout_lang.Heap.{free_chunks}
use sprout_lang.Heap.Elements.{HoldsArray, box_index, element, with_element}
use sprout_lang.Execution.{Doubles, fits64, eq_ℤ, ◌/ℤ◌}
use sprout_lang.Execution.Ints.{box}
use sprout_lang.Execution.Calls.{index24, called}

-- The flag's codes, by the tests for equal, below and above: 1 for EQ, -1 for LT, 2 for GT, and 0
-- where none holds.
pub data Order : Bool → Bool → Bool → ℤ → Type 0 where
  equal : {below above : Bool} → Order true below above (pos 1)
  lower : {above : Bool} → Order false true above (negsuc 0)
  greater : Order false false true (pos 2)
  unordered : Order false false false (pos 0)

-- Behind the word of a jump, and at its target.
abbrev pub passed : Vm → Vm
passed vm = record vm { ip = vm.ip + 4 }

abbrev pub jumped : Vm → Vm
jumped vm = record vm { ip = word_at vm.bytecode vm.ip }

abbrev pub printed : Line → Vm → Vm
printed l vm = record vm { output = vm.output ++ l ∷ [] }

-- Stopped, with both half-spaces given back.
abbrev pub stopped : Vm → Vm
stopped vm = record vm {
  running = false;
  heap_a = record vm.heap_a { chunks = []; total_allocated = 0 };
  heap_b = record vm.heap_b { chunks = []; total_allocated = 0 };
  memory = free_chunks vm.heap_b.chunks (free_chunks vm.heap_a.chunks vm.memory);
}

-- The state behind the instruction of a byte with the operands a, b and c; in `vm` the instruction
-- is read already.
pub data Effect (F : Doubles) (a b c : ℕ) (vm : Vm) : ℕ → Vm → Type 0 where
  add :
      (i j : ℤ)
      → vm.reg b ≡ box i
      → vm.reg c ≡ box j
      → InInt48 i
      → InInt48 j
      → Effect F a b c vm 0x00 (set_reg a (box (i +ℤ j)) vm)
  add_doubles :
      kind (vm.reg b) ≡ double
      → kind (vm.reg c) ≡ double
      → Effect F a b c vm 0x00 (set_reg a (F.add (vm.reg b) (vm.reg c)) vm)
  sub :
      (i j : ℤ)
      → vm.reg b ≡ box i
      → vm.reg c ≡ box j
      → InInt48 i
      → InInt48 j
      → Effect F a b c vm 0x01 (set_reg a (box (i -ℤ j)) vm)
  sub_doubles :
      kind (vm.reg b) ≡ double
      → kind (vm.reg c) ≡ double
      → Effect F a b c vm 0x01 (set_reg a (F.sub (vm.reg b) (vm.reg c)) vm)
  mul :
      (i j : ℤ)
      → vm.reg b ≡ box i
      → vm.reg c ≡ box j
      → InInt48 i
      → InInt48 j
      → fits64 (i *ℤ j) ≡ true
      → Effect F a b c vm 0x02 (set_reg a (box (i *ℤ j)) vm)
  mul_doubles :
      kind (vm.reg b) ≡ double
      → kind (vm.reg c) ≡ double
      → Effect F a b c vm 0x02 (set_reg a (F.mul (vm.reg b) (vm.reg c)) vm)
  div :
      (i j : ℤ)
      → vm.reg b ≡ box i
      → vm.reg c ≡ box j
      → InInt48 i
      → InInt48 j
      → eq_ℤ j (pos 0) ≡ false
      → Effect F a b c vm 0x03 (set_reg a (box (i /ℤ j)) vm)
  div_doubles :
      kind (vm.reg b) ≡ double
      → kind (vm.reg c) ≡ double
      → Effect F a b c vm 0x03 (set_reg a (F.div (vm.reg b) (vm.reg c)) vm)
  end :
      (i : ℤ)
      → vm.reg a ≡ box i
      → InInt48 i
      → Effect F a b c vm 0x04 (stopped (printed (int_line i) vm))
  end_double :
      kind (vm.reg a) ≡ double
      → Effect F a b c vm 0x04 (stopped (printed (double_line (vm.reg a)) vm))
  load :
      vm.ip + 7 < length vm.bytecode
      → Effect F a b c vm 0x05 (
          set_reg a
            (word_at vm.bytecode vm.ip * 2 ^ 32 + word_at vm.bytecode (vm.ip + 4))
            (record vm { ip = vm.ip + 8 }))
  cmp :
      (i j flag : ℤ)
      → vm.reg a ≡ box i
      → vm.reg b ≡ box j
      → InInt48 i
      → InInt48 j
      → Order (eq_ℤ i j) (ltb_ℤ i j) (ltb_ℤ j i) flag
      → Effect F a b c vm 0x06 (record vm { jmp_flag = flag })
  cmp_doubles :
      (flag : ℤ)
      → kind (vm.reg a) ≡ double
      → kind (vm.reg b) ≡ double
      → Order
          (F.eq (vm.reg a) (vm.reg b))
          (F.lt (vm.reg a) (vm.reg b))
          (F.lt (vm.reg b) (vm.reg a))
          flag
      → Effect F a b c vm 0x06 (record vm { jmp_flag = flag })
  dbgret : (i : ℤ) → vm.reg a ≡ box i → InInt48 i → Effect F a b c vm 0x07 (printed (int_line i) vm)
  dbgret_double :
      kind (vm.reg a) ≡ double → Effect F a b c vm 0x07 (printed (double_line (vm.reg a)) vm)
  je : vm.ip + 3 < length vm.bytecode → vm.jmp_flag ≡ pos 1 → Effect F a b c vm 0x08 (jumped vm)
  je_not : eq_ℤ vm.jmp_flag (pos 1) ≡ false → Effect F a b c vm 0x08 (passed vm)
  jne :
      vm.ip + 3 < length vm.bytecode
      → eq_ℤ vm.jmp_flag (pos 1) ≡ false
      → Effect F a b c vm 0x09 (jumped vm)
  jne_not : vm.jmp_flag ≡ pos 1 → Effect F a b c vm 0x09 (passed vm)
  jl : vm.ip + 3 < length vm.bytecode → vm.jmp_flag ≡ negsuc 0 → Effect F a b c vm 0x0A (jumped vm)
  jl_not : eq_ℤ vm.jmp_flag (negsuc 0) ≡ false → Effect F a b c vm 0x0A (passed vm)
  jg : vm.ip + 3 < length vm.bytecode → vm.jmp_flag ≡ pos 2 → Effect F a b c vm 0x0B (jumped vm)
  jg_not : eq_ℤ vm.jmp_flag (pos 2) ≡ false → Effect F a b c vm 0x0B (passed vm)
  call :
      index24 a b c < function_table_size
      → vm.sp + 2 ≤ stack_size
      → (vm.function_table (index24 a b c)).frame_size < 2 ^ 16
      → Effect F a b c vm 0x0C (called vm (index24 a b c))
  ret :
      (p : ℕ)
      → p + 2 ≤ stack_size
      → vm.fp ≡ p + 2
      → Effect F a b c vm 0x0D (record vm { ip = vm.stack (p + 1); fp = vm.stack p; sp = p })
  push :
      vm.sp < stack_size
      → Effect F a b c vm 0x0E
          (record vm { stack = update vm.stack vm.sp (vm.reg a); sp = vm.sp + 1 })
  pop :
      (p : ℕ)
      → p < stack_size
      → vm.sp ≡ suc p
      → Effect F a b c vm 0x0F (set_reg a (vm.stack p) (record vm { sp = p }))
  ins :
      a * 256 + b < stack_size
      → Effect F a b c vm 0x10 (record vm { stack = update vm.stack (a * 256 + b) (vm.reg c) })
  read : a * 256 + b < stack_size → Effect F a b c vm 0x11 (set_reg c (vm.stack (a * 256 + b)) vm)
  mov : c ≡ 0 → Effect F a b c vm 0x12 (set_reg a (vm.reg b) vm)
  arrins :
      (p len i : ℕ)
      → HoldsArray vm b p len
      → vm.reg c ≡ box_index (pos i)
      → i < len
      → live vm.memory.blocks (element p i) 8 ≡ true
      → Effect F a b c vm 0x14 (with_element vm p i (vm.reg a))
  arrread :
      (p len i : ℕ)
      → HoldsArray vm b p len
      → vm.reg c ≡ box_index (pos i)
      → i < len
      → live vm.memory.blocks (element p i) 8 ≡ true
      → Effect F a b c vm 0x15 (set_reg a (read_bytes vm.memory.byte 8 (element p i)) vm)

-- One instruction of the manual: its four bytes are at the instruction pointer.
pub record Instructs (F : Doubles) (vm vm' : Vm) : Type 0 where
  pub bytes : AllBytes vm.bytecode
  pub small : length vm.bytecode < 2 ^ 32
  pub inside : vm.ip + 3 < length vm.bytecode
  pub effect :
      Effect F
        (get_or vm.bytecode (vm.ip + 1) 0)
        (get_or vm.bytecode (vm.ip + 2) 0)
        (get_or vm.bytecode (vm.ip + 3) 0)
        (record vm { ip = vm.ip + 4 })
        (get_or vm.bytecode vm.ip 0)
        vm'

-- A program's run by the manual, of so many instructions.
pub data Follows (F : Doubles) : ℕ → Vm → Vm → Type 0 where
  halted : {vm : Vm} → vm.running ≡ false → Follows F 0 vm vm
  instruction :
      {n : ℕ} {vm vm' last : Vm}
      → vm.running ≡ true
      → Instructs F vm vm'
      → Follows F n vm' last
      → Follows F (suc n) vm last
