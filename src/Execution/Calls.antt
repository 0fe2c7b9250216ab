-- ===== src/Execution/Calls.antt =====
-- OP_CALL and OP_RET of src/vm/execution.h against the call convention of README.md.
use sprout_lang.Prelude.{
  ℕ, ◌+◌, ◌-◌, ◌*◌, ◌%◌, ◌^◌, ◌≤◌, ◌<◌, ◌≡◌, refl, ◌∙◌, bit_or, arith, lt→ltb,
}
use mathlib.Core.Path.{ap₂}
use sprout_lang.Prelude.Bits.{bit_or_sum}
use sprout_lang.Result.{ok, fault, table_access}
use sprout_lang.Vm.{Vm, update, function_table_size, stack_size}
use sprout_lang.Decode.{push, pop}
use sprout_lang.Execution.{call, ret}

-- The function index in the three operand bytes.
abbrev pub index24 : ℕ → ℕ → ℕ → ℕ
index24 a b c = a * 2 ^ 16 + b * 2 ^ 8 + c

bit_or-index24 :
    (a b c : ℕ) → b < 256 → c < 256 → bit_or (bit_or (a * 2 ^ 16) (b * 2 ^ 8)) c ≡ index24 a b c
bit_or-index24 a b c hb hc =
    ground (arith, bit_or_sum 16 a (b * 2 ^ 8), bit_or_sum 8 (a * 2 ^ 8 + b) c)

-- The state behind a call: the caller's frame pointer and instruction pointer on the stack, the
-- frame above them.
abbrev pub called : Vm → ℕ → Vm
called vm index = record vm {
  stack = update (update vm.stack vm.sp vm.fp) (vm.sp + 1) vm.ip;
  fp = vm.sp + 2;
  sp = vm.sp + 2 + (vm.function_table index).frame_size;
  ip = (vm.function_table index).entry_ip;
}

-- With room for two words on the stack, OP_CALL of an index in the table does what README.md says:
-- it pushes FP and IP, sets FP to SP, reserves the frame and jumps to the function's entry.
pub call-called :
    (vm : Vm) (a b c : ℕ)
    → b < 256
    → c < 256
    → index24 a b c < function_table_size
    → vm.sp + 2 ≤ stack_size
    → (vm.function_table (index24 a b c)).frame_size < 2 ^ 16
    → call vm a b c ≡ ok (called vm (index24 a b c))
unfolding call push
call-called vm a b c hb hc known room small = rw (bit_or-index24 a b c hb hc) (ground arith)

-- An index from 2048 on reads past the function table.
pub call_past_table :
    (vm : Vm) (a b c : ℕ)
    → b < 256
    → c < 256
    → function_table_size ≤ index24 a b c
    → call vm a b c ≡ fault table_access
unfolding call
call_past_table vm a b c hb hc unknown = rw (bit_or-index24 a b c hb hc) (ground arith)

-- OP_RET with the frame pointer two slots above p.
pub ret_from :
    (later : Vm) (p : ℕ)
    → p + 2 ≤ stack_size
    → later.fp ≡ p + 2
    → ret later ≡ ok (record later { ip = later.stack (p + 1); fp = later.stack p; sp = p })
unfolding ret pop
ret_from later p room frame =
    rw (top, lt→ltb (p + 1) stack_size (omega arith), next, lt→ltb p stack_size (omega arith)) refl
  where
    top : (later.fp + 2 ^ 64 - 1) % 2 ^ 64 ≡ p + 1
    top = omega arith

    next : (p + 1 + 2 ^ 64 - 1) % 2 ^ 64 ≡ p
    next = omega arith

-- OP_RET undoes OP_CALL: in any later state with the callee's frame pointer in which the stack
-- below the frame is as the call left it, it restores the caller's IP, FP and SP, and changes
-- nothing else.
pub ret-call :
    (vm later : Vm) (a b c : ℕ)
    → b < 256
    → c < 256
    → index24 a b c < function_table_size
    → vm.sp + 2 ≤ stack_size
    → (vm.function_table (index24 a b c)).frame_size < 2 ^ 16
    → later.fp ≡ (called vm (index24 a b c)).fp
    → ((i : ℕ) → i < later.fp → later.stack i ≡ (called vm (index24 a b c)).stack i)
    → (call vm a b c ≡ ok (called vm (index24 a b c)))
      × (ret later ≡ ok (record later { ip = vm.ip; fp = vm.fp; sp = vm.sp }))
ret-call vm later a b c hb hc known room small frame same =
    (call-called vm a b c hb hc known room small, returns)
  where
    saved_ip : later.stack (vm.sp + 1) ≡ vm.ip
    saved_ip = ground (arith, same (vm.sp + 1))

    saved_fp : later.stack vm.sp ≡ vm.fp
    saved_fp = ground (arith, same vm.sp)

    returns : ret later ≡ ok (record later { ip = vm.ip; fp = vm.fp; sp = vm.sp })
    returns =
        ret_from later vm.sp room frame
        ∙ ap₂ (λ x y. ok (record later { ip = x; fp = y; sp = vm.sp })) saved_ip saved_fp
