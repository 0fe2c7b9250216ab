-- ===== src/Run/Program.antt =====
-- The rounds of the loop of src/vm/vm.cpp, and the bytes that no case takes.
use sprout_lang.Prelude.{
  ℕ, zero, suc, ◌≤◌, ◌≡◌, refl, ap, true, false, if◌then◌else◌, get_elem?-none, arith,
}
use sprout_lang.Result.{ok, thrown, ◌>>=◌, invalid_opcode}
use sprout_lang.Vm.{Vm}
use sprout_lang.Decode.{DecodedInstr}
use sprout_lang.Opcodes.{from_byte, opcodes}
use sprout_lang.Execution.{Doubles}
use sprout_lang.Run.{execute, step, run}

pub run_halted : (F : Doubles) (fuel : ℕ) (vm : Vm) → vm.running ≡ false → run F fuel vm ≡ ok vm
unfolding run
run_halted F zero vm stop = rw (stop, if◌then◌else◌) refl
run_halted F (suc fuel) vm stop = rw (stop, if◌then◌else◌) refl

pub run-step :
    (F : Doubles) (fuel : ℕ) (vm : Vm)
    → vm.running ≡ true
    → run F (suc fuel) vm ≡ (step F vm >>= λ vm'. run F fuel vm')
unfolding run
run-step F fuel vm go = ap (λ b. if b then (step F vm >>= λ vm'. run F fuel vm') else ok vm) go

-- A byte from 22 on is no opcode: the instruction throws and names it.
pub execute_invalid :
    (F : Doubles) (vm : Vm) (d : DecodedInstr)
    → 22 ≤ d.opcode
    → execute F vm d ≡ thrown (invalid_opcode d.opcode)
unfolding execute from_byte
execute_invalid F vm d h = rw (get_elem?-none opcodes d.opcode (omega arith)) refl
