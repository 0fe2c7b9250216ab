-- ===== src/Decode/Fields.antt =====
-- src/vm/decode.h: what a fetched and decoded instruction is, byte by byte; push and pop.
use sprout_lang.Prelude.{ℕ, ◌+◌, ◌/◌, ◌^◌, ◌<◌, ◌≡◌, get_or, length, arith}
use sprout_lang.Prelude.Bits.{bit_and_mask}
use sprout_lang.Result.{ok, ◌>>=◌}
use sprout_lang.Vm.{Vm, big_endian, fetch, update, stack_size}
use sprout_lang.Vm.Words.{AllBytes, word, get_or-lt, big_endian-word_at}
use sprout_lang.Decode.{DecodedInstr, decode, push, pop}

pub decode-word :
    (a b c d : ℕ)
    → a < 256
    → b < 256
    → c < 256
    → d < 256
    → decode (word a b c d) ≡ record { opcode = a; ra = b; rb = c; rc = d }
unfolding decode
decode-word a b c d ha hb hc hd = ground (
  arith,
  bit_and_mask 8 (word a b c d / 2 ^ 16),
  bit_and_mask 8 (word a b c d / 2 ^ 8),
  bit_and_mask 8 (word a b c d),
)

-- The instruction at offset p of the bytecode: its four bytes.
abbrev pub instr_at : Vm → ℕ → DecodedInstr
instr_at vm p = record {
  opcode = get_or vm.bytecode p 0;
  ra = get_or vm.bytecode (p + 1) 0;
  rb = get_or vm.bytecode (p + 2) 0;
  rc = get_or vm.bytecode (p + 3) 0;
}

pub decode-big_endian :
    (vm : Vm) (p : ℕ) → AllBytes vm.bytecode → decode (big_endian vm.bytecode p) ≡ instr_at vm p
decode-big_endian vm p h = rw (big_endian-word_at vm.bytecode p h) (
    decode-word _ _ _ _ (get_or-lt _ p h) (get_or-lt _ (p + 1) h) (get_or-lt _ (p + 2) h)
      (get_or-lt _ (p + 3) h))

-- Inside the bytecode, fetching and decoding give the four bytes at the instruction pointer as
-- opcode, ra, rb and rc, and move the pointer by four; nothing else of the state changes.
pub decode-fetch :
    (vm : Vm)
    → AllBytes vm.bytecode
    → vm.ip + 3 < length vm.bytecode
    → length vm.bytecode < 2 ^ 64
    → (w : ℕ) × (fetch vm ≡ ok (w, record vm { ip = vm.ip + 4 })) × (decode w ≡ instr_at vm vm.ip)
unfolding fetch
decode-fetch vm bytes inside small =
    (big_endian vm.bytecode vm.ip, ground arith, decode-big_endian vm vm.ip bytes)

-- A pushed word is popped, and the stack pointer is back where it was.
pub pop-push :
    (vm : Vm) (a : ℕ)
    → vm.sp < stack_size
    → (push a vm >>= pop) ≡ ok (a, record vm { stack = update vm.stack vm.sp a })
unfolding push pop
pop-push vm a h = ground arith
