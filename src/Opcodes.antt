-- ===== src/Opcodes.antt =====
-- src/shared/opcodes.h: the opcodes in the order of the enum, so that an opcode's byte is its place.
pub mod Bytes
use sprout_lang.Prelude.{ℕ, Option, List, [], ◌∷◌, get_elem?}

pub data Opcode : Type 0 where
  add : Opcode
  sub : Opcode
  mul : Opcode
  div : Opcode
  end : Opcode
  load64 : Opcode
  cmp : Opcode
  debug_return : Opcode
  je : Opcode
  jne : Opcode
  jl : Opcode
  jg : Opcode
  call : Opcode
  ret : Opcode
  push : Opcode
  pop : Opcode
  insert_into_stack : Opcode
  read_from_stack : Opcode
  mov : Opcode
  arr_init : Opcode
  arr_insert : Opcode
  arr_read : Opcode

abbrev pub opcodes : List Opcode
opcodes =
    add ∷ sub ∷ mul ∷ div ∷ end ∷ load64 ∷ cmp ∷ debug_return ∷ je ∷ jne ∷ jl ∷ jg ∷ call ∷ ret
    ∷ push ∷ pop ∷ insert_into_stack ∷ read_from_stack ∷ mov ∷ arr_init ∷ arr_insert ∷ arr_read ∷ []

-- The case that a switch over opcodes takes for a byte, if there is one.
unfoldable pub from_byte : ℕ → Option Opcode
from_byte n = get_elem? opcodes n
