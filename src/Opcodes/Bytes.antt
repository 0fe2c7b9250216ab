-- ===== src/Opcodes/Bytes.antt =====
-- The bytes of the opcodes as src/shared/opcodes.h comments and README.md list them.
use sprout_lang.Prelude.{ℕ, ◌≡◌, refl, some}
use sprout_lang.Opcodes.{
  Opcode, from_byte, add, sub, mul, div, end, load64, cmp, debug_return, je, jne, jl, jg, call, ret,
  push, pop, insert_into_stack, read_from_stack, mov, arr_init, arr_insert, arr_read,
}

-- README.md, table "Instruction Set".
abbrev pub to_byte : Opcode → ℕ
to_byte add = 0x00
to_byte sub = 0x01
to_byte mul = 0x02
to_byte div = 0x03
to_byte end = 0x04
to_byte load64 = 0x05
to_byte cmp = 0x06
to_byte debug_return = 0x07
to_byte je = 0x08
to_byte jne = 0x09
to_byte jl = 0x0A
to_byte jg = 0x0B
to_byte call = 0x0C
to_byte ret = 0x0D
to_byte push = 0x0E
to_byte pop = 0x0F
to_byte insert_into_stack = 0x10
to_byte read_from_stack = 0x11
to_byte mov = 0x12
to_byte arr_init = 0x13
to_byte arr_insert = 0x14
to_byte arr_read = 0x15

pub from_byte-to_byte : (o : Opcode) → from_byte (to_byte o) ≡ some o
unfolding from_byte
from_byte-to_byte add = refl
from_byte-to_byte _ = refl
