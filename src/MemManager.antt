-- ===== src/MemManager.antt =====
-- src/compiler/memManager.h and memManager.cpp: the arena that the parser's nodes are placed in.
pub mod Outcome
pub mod Disjoint
use sprout_lang.Prelude.{
  ℕ, ◌+◌, ◌-◌, ◌*◌, ◌/◌, ◌%◌, ◌^◌, Bool, true, false, Option, none, some, List, [], ◌∷◌, ◌++◌,
  bit_and, ltb, back, set_back, if◌then◌else◌,
}
use sprout_lang.Result.{Result, ok, thrown, fault, ◌>>=◌, ◌>>◌, faulty_allocation, memory_access}
use sprout_lang.Ram.{Ram, malloc, free}

abbrev pub chunk_size : ℕ
chunk_size = 4 * 1024 * 1024

unfoldable pub align : ℕ → ℕ
align n = bit_and ((n + (8 - 1)) % 2 ^ 64) (2 ^ 64 - 1 - (8 - 1))

pub record Chunk : Type 0 where
  pub mem : ℕ
  pub used : ℕ
  pub size : ℕ

pub record Memory : Type 0 where
  pub chunks : List Chunk
  pub allocated : ℕ
  pub max : ℕ

unfoldable pub alloc_chunk : Memory → Ram → Result (Memory × Ram)
alloc_chunk mem ram =
    let (block, ram') = malloc chunk_size ram in
    elim block [
      | none ↦ thrown faulty_allocation
      | some p ↦
          let c : Chunk = record { mem = p; used = 0; size = chunk_size } in
          ok (record mem { chunks = mem.chunks ++ c ∷ [] }, ram')
    ]

unfoldable pub needs_chunk : Memory → ℕ → Bool
needs_chunk mem total = elim (back mem.chunks) [
  | none ↦ true
  | some c ↦ ltb chunk_size ((c.used + total) % 2 ^ 64)
]

-- The next free bytes of the last chunk `c`.
unfoldable pub take_from : Chunk → ℕ → Memory → ℕ × Memory
take_from c total mem = (
  c.mem + c.used,
  record mem {
    chunks = set_back (record c { used = (c.used + total) % 2 ^ 64 }) mem.chunks;
    allocated = (mem.allocated + total) % 2 ^ 64;
  },
)

-- `back()` of an empty vector would be undefined behaviour.
unfoldable pub place : ℕ → Memory → Ram → Result (ℕ × Memory × Ram)
place total mem ram = elim (back mem.chunks) [
  | none ↦ fault memory_access
  | some c ↦ let (p, mem') = take_from c total mem in ok (p, mem', ram)
]

unfoldable pub allocate_memory : Memory → ℕ → Ram → Result (ℕ × Memory × Ram)
allocate_memory mem size ram = do
  let total = align size
  (mem, ram) ← if needs_chunk mem total then alloc_chunk mem ram else ok (mem, ram)
  place total mem ram

unfoldable pub free_chunks : List Chunk → Ram → Ram
free_chunks [] ram = ram
free_chunks (c ∷ cs) ram = free_chunks cs (free c.mem ram)

unfoldable pub free_memory : Memory → Ram → Memory × Ram
unfolding free_chunks
free_memory mem ram = (record mem { chunks = []; allocated = 0 }, free_chunks mem.chunks ram)
