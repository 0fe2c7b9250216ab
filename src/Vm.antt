-- ===== src/Vm.antt =====
-- src/vm/vm.h: the state of the virtual machine, and the reads of its bytecode. Registers are
-- indexed by a uint8_t and cannot be missed; an index past the stack or the function table is
-- undefined behaviour where it is used. `output` is what was written to std::cout.
pub mod Words
use sprout_lang.Prelude.{
  ℕ, ◌+◌, ◌-◌, ◌*◌, ◌/◌, ◌%◌, ◌^◌, Bool, List, bit_or, ◌==◌, ltb, leb, if◌then◌else◌, length,
  get_or,
}
use sprout_lang.Prelude.Int.{ℤ}
use sprout_lang.Result.{Result, ok, ensure, check, ◌>>=◌, ◌>>◌, bytecode_access, outside_bytecode}
use sprout_lang.Ram.{Ram}
use sprout_lang.Values.{Char6}

-- src/shared/bytecode_format.h.
abbrev pub sprout_lang_magic : ℕ
sprout_lang_magic = 0x53505254

abbrev pub sprout_lang_version : ℕ
sprout_lang_version = 1

pub record BcHeader : Type 0 where
  pub magic : ℕ
  pub version : ℕ
  pub flags : ℕ
  pub import_count : ℕ
  pub function_count : ℕ
  pub import_offset : ℕ
  pub function_offset : ℕ
  pub code_offset : ℕ

abbrev pub function_table_size : ℕ
function_table_size = 2048

pub record FunctionInfo : Type 0 where
  pub entry_ip : ℕ
  pub frame_size : ℕ

-- src/vm/Heap.h: the arena of one half-space.
pub record Chunk : Type 0 where
  pub mem : ℕ
  pub used : ℕ
  pub capacity : ℕ

pub record Heap : Type 0 where
  pub chunks : List Chunk
  pub total_allocated : ℕ
  pub max : ℕ

-- A line on std::cout: an int64_t, a double, or six chars.
pub data Line : Type 0 where
  int_line : ℤ → Line
  double_line : ℕ → Line
  char6_line : Char6 → Line

abbrev pub stack_size : ℕ
stack_size = 4096

pub record Vm : Type 0 where
  pub header : BcHeader
  pub reg : ℕ → ℕ
  pub bytecode : List ℕ
  pub ip : ℕ
  pub stack : ℕ → ℕ
  pub sp : ℕ
  pub fp : ℕ
  pub heap_a : Heap
  pub heap_b : Heap
  pub jmp_flag : ℤ
  pub running : Bool
  pub heap_a_used : Bool
  pub function_table : ℕ → FunctionInfo
  pub memory : Ram
  pub output : List Line

-- An array with one element written.
abbrev pub update {ℓ} : {A : Type ℓ} → (ℕ → A) → ℕ → A → ℕ → A
update f i v j = if i == j then v else f j

abbrev pub set_reg : ℕ → ℕ → Vm → Vm
set_reg i v vm = record vm { reg = update vm.reg i v }

-- The four bytes at an offset, most significant first.
unfoldable pub big_endian : List ℕ → ℕ → ℕ
big_endian code p =
    bit_or
      (bit_or (bit_or (get_or code p 0 * 2 ^ 24) (get_or code (p + 1) 0 * 2 ^ 16))
        (get_or code (p + 2) 0 * 2 ^ 8))
      (get_or code (p + 3) 0)

-- No bounds check in the source: a read past the end is undefined behaviour.
unfoldable pub fetch : Vm → Result (ℕ × Vm)
fetch vm = do
  ensure (ltb (vm.ip + 3) (length vm.bytecode)) bytecode_access
  ok (big_endian vm.bytecode vm.ip, record vm { ip = (vm.ip + 4) % 2 ^ 64 })

-- The check covers the first of the four bytes.
unfoldable pub fetch_at_addr : List ℕ → ℕ → Result ℕ
fetch_at_addr code addr = do
  check (ltb addr (length code)) outside_bytecode
  ensure (ltb (addr + 3) (length code)) bytecode_access
  ok (big_endian code addr)

-- `frameSize` is a uint16_t.
unfoldable pub fetch_func_metadata : List ℕ → ℕ → Result FunctionInfo
fetch_func_metadata code addr = do
  entry ← fetch_at_addr code addr
  frame ← fetch_at_addr code ((addr + 4) % 2 ^ 32)
  ok (record { entry_ip = entry; frame_size = frame % 2 ^ 16 })

-- C++ leaves the order of the two calls open; the code relies on left before right.
unfoldable pub fetch64 : Vm → Result (ℕ × Vm)
fetch64 vm = do (hi, vm') ← fetch vm; (lo, vm'') ← fetch vm'; ok (bit_or (hi * 2 ^ 32) lo, vm'')
