-- ===== src/Decode.antt =====
-- src/vm/decode.h and src/vm/decode.cpp: the fields of an instruction, and the operand stack.
pub mod Fields
use sprout_lang.Prelude.{ℕ, ◌+◌, ◌-◌, ◌*◌, ◌/◌, ◌%◌, ◌^◌, bit_and, ltb}
use sprout_lang.Result.{Result, ok, ensure, ◌>>=◌, ◌>>◌, stack_access}
use sprout_lang.Vm.{Vm, update, stack_size}

pub record DecodedInstr : Type 0 where
  pub opcode : ℕ
  pub ra : ℕ
  pub rb : ℕ
  pub rc : ℕ

unfoldable pub op : ℕ → ℕ
op instr = instr / 2 ^ 24 % 2 ^ 8

unfoldable pub ra : ℕ → ℕ
ra instr = bit_and (instr / 2 ^ 16) 0xFF

unfoldable pub rb : ℕ → ℕ
rb instr = bit_and (instr / 2 ^ 8) 0xFF

unfoldable pub rc : ℕ → ℕ
rc instr = bit_and instr 0xFF

unfoldable pub decode : ℕ → DecodedInstr
unfolding op ra rb rc
decode instr = record { opcode = op instr; ra = ra instr; rb = rb instr; rc = rc instr }

-- `sp` is a uint64_t: it wraps below 0, and the slot is then out of the stack.
unfoldable pub push : ℕ → Vm → Result Vm
push a vm = do
  ensure (ltb vm.sp stack_size) stack_access
  ok (record vm { stack = update vm.stack vm.sp a; sp = (vm.sp + 1) % 2 ^ 64 })

unfoldable pub pop : Vm → Result (ℕ × Vm)
pop vm = do
  let top = (vm.sp + 2 ^ 64 - 1) % 2 ^ 64
  ensure (ltb top stack_size) stack_access
  ok (vm.stack top, record vm { sp = top })
