-- ===== src/Run.antt =====
-- The dispatch of src/vm/execution.cpp, and init and run of src/vm/vm.cpp, main of src/main.cpp.
pub mod Program
pub mod Manual
pub mod Refines
pub mod Whole
use sprout_lang.Prelude.{
  ℕ, zero, suc, ◌*◌, Bool, true, false, Option, none, some, List, [], ◌∷◌, if◌then◌else◌,
}
use sprout_lang.Prelude.Int.{pos}
use sprout_lang.Result.{Result, ok, thrown, out_of_fuel, ◌>>=◌, ◌>>◌, invalid_opcode}
use sprout_lang.Ram.{Ram}
use sprout_lang.Vm.{Vm, Heap, fetch, set_reg}
use sprout_lang.Decode.{DecodedInstr, decode}
use sprout_lang.Bytecode.{load_bytecode, load_header, load_function_table}
use sprout_lang.Opcodes
use sprout_lang.Opcodes.{Opcode, from_byte}
use sprout_lang.Execution.{
  Doubles, add, sub, mul, div, compare, load_into_reg, print, finish, je, jne, jl, jg, call, ret,
  push, pop, insert_into_stack, read_from_stack, mov, arr_init, arr_access, write_result,
}

module _ (F : Doubles) where
  -- One case of the switch.
  unfoldable pub dispatch : Opcode → Vm → DecodedInstr → Result Vm
  dispatch Opcode.add vm d = write_result d.ra vm (add F (vm.reg d.rb) (vm.reg d.rc))
  dispatch Opcode.sub vm d = write_result d.ra vm (sub F (vm.reg d.rb) (vm.reg d.rc))
  dispatch Opcode.mul vm d = write_result d.ra vm (mul F (vm.reg d.rb) (vm.reg d.rc))
  dispatch Opcode.div vm d = write_result d.ra vm (div F (vm.reg d.rb) (vm.reg d.rc))
  dispatch Opcode.end vm d = ok (finish vm (vm.reg d.ra))
  dispatch Opcode.load64 vm d = load_into_reg vm d.ra
  dispatch Opcode.cmp vm d = compare F vm (vm.reg d.ra) (vm.reg d.rb)
  dispatch Opcode.debug_return vm d = ok (print (vm.reg d.ra) vm)
  dispatch Opcode.je vm d = je vm
  dispatch Opcode.jne vm d = jne vm
  dispatch Opcode.jl vm d = jl vm
  dispatch Opcode.jg vm d = jg vm
  dispatch Opcode.call vm d = call vm d.ra d.rb d.rc
  dispatch Opcode.ret vm d = ret vm
  dispatch Opcode.push vm d = push vm (vm.reg d.ra)
  dispatch Opcode.pop vm d = pop vm d.ra
  dispatch Opcode.insert_into_stack vm d = insert_into_stack vm d.ra d.rb (vm.reg d.rc)
  dispatch Opcode.read_from_stack vm d = read_from_stack vm d.ra d.rb d.rc
  dispatch Opcode.mov vm d = mov vm d.ra d.rb d.rc
  dispatch Opcode.arr_init vm d = arr_init vm d.ra d.rb d.rc
  dispatch Opcode.arr_insert vm d = arr_access vm d.ra d.rb d.rc 0
  dispatch Opcode.arr_read vm d = arr_access vm d.ra d.rb d.rc 1

  unfoldable pub execute : Vm → DecodedInstr → Result Vm
  execute vm d = elim (from_byte d.opcode) [
    | none ↦ thrown (invalid_opcode d.opcode)
    | some o ↦ dispatch o vm d
  ]

  -- The body of the loop of run.
  unfoldable pub step : Vm → Result Vm
  step vm = do (instruction, vm') ← fetch vm; execute vm' (decode instruction)

  -- `while (vm.running)`, for at most `fuel` instructions.
  unfoldable pub run : ℕ → Vm → Result Vm
  run zero vm = if vm.running then out_of_fuel else ok vm
  run (suc fuel) vm =
      let rest = (do vm' ← step vm; run fuel vm') in if vm.running then rest else ok vm

-- HEAPSIZE of src/vm/vm.cpp.
abbrev pub heap_size : ℕ
heap_size = 512 * 1024 * 1024

abbrev pub empty_heap : Heap
empty_heap = record { chunks = []; total_allocated = 0; max = heap_size }

-- init on the bytes of the file. What it does not set (registers, stack, sp, fp) it leaves.
unfoldable pub init : Vm → List ℕ → Result Vm
init vm bytes = do
  header ← load_header bytes
  vm ← load_function_table header (record vm { bytecode = bytes; header = header })
  ok (record vm {
    ip = header.code_offset;
    heap_a_used = true;
    heap_a = empty_heap;
    heap_b = empty_heap;
    jmp_flag = pos 2;
    running = true;
  })

-- main on its arguments, the name of the program first: the exit code and the machine it leaves. A
-- run is for at most `fuel` instructions.
unfoldable pub main :
    Doubles → ℕ → (List ℕ → Option (List ℕ)) → Vm → List (List ℕ) → Result (ℕ × Vm)
main F fuel files vm (name ∷ path ∷ rest) = do
  vm ← init vm (load_bytecode files path)
  vm ← run F fuel vm
  ok (0, vm)
main F fuel files vm _ = ok (1, vm)
