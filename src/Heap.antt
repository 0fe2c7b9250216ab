-- ===== src/Heap.antt =====
-- src/vm/Heap.h and src/vm/Heap.cpp: the bump allocator of a half-space. An object starts with a
-- 16-byte objHeader: size (4 bytes at 0), type (2 at 4), flags (2 at 6), forwarded (8 at 8).
pub mod Collect
pub mod Arrays
pub mod Align
pub mod Alloc
pub mod Elements
pub mod Objects
pub mod Walk
pub mod Outside
use sprout_lang.Prelude.{
  ℕ, ◌+◌, ◌-◌, ◌*◌, ◌/◌, ◌%◌, ◌^◌, Bool, true, false, ◌||◌, Option, none, some, List, [], ◌∷◌, ◌++◌,
  bit_and, ltb, back, set_back, if◌then◌else◌,
}
use sprout_lang.Result.{Result, ok, thrown, fault, memory_access, ◌>>=◌, ◌>>◌, no_memory}
use sprout_lang.Ram.{Ram, store, malloc, free}
use sprout_lang.Vm.{Heap, Chunk}

abbrev pub chunk_size : ℕ
chunk_size = 4 * 1024 * 1024

-- sizeof(objHeader).
abbrev pub obj_header_size : ℕ
obj_header_size = 16

abbrev pub obj_string : ℕ
obj_string = 0

abbrev pub obj_array : ℕ
obj_array = 1

-- (n + 7) & ~7, on a size_t.
unfoldable pub align : ℕ → ℕ
align n = bit_and ((n + (8 - 1)) % 2 ^ 64) (2 ^ 64 - 1 - (8 - 1))

unfoldable pub alloc_new_chunk : Heap → Ram → Result (Heap × Ram)
alloc_new_chunk h m =
    let (block, m') = malloc chunk_size m in
    elim block [
      | none ↦ thrown no_memory
      | some p ↦
          let c : Chunk = record { mem = p; used = 0; capacity = chunk_size } in
          ok (record h { chunks = h.chunks ++ c ∷ [] }, m')
    ]

-- The test of heapAlloc: no chunk yet, or too little room in the last one.
unfoldable pub needs_chunk : Heap → ℕ → Bool
needs_chunk h total = elim (back h.chunks) [
  | none ↦ true
  | some c ↦ ltb chunk_size ((c.used + total) % 2 ^ 64)
]

-- The new object at the end of the chunk `c`; the address behind its header is returned.
unfoldable pub bump : Heap → Chunk → ℕ → ℕ → Ram → Result (ℕ × Heap × Ram)
bump h c total type m = do
  let ptr = c.mem + c.used
  m ← store 4 ptr (total % 2 ^ 32) m
  m ← store 2 (ptr + 4) (type % 2 ^ 16) m
  m ← store 2 (ptr + 6) 0 m
  m ← store 8 (ptr + 8) 0 m
  let h' : Heap = record h {
    chunks = set_back (record c { used = (c.used + total) % 2 ^ 64 }) h.chunks;
    total_allocated = (h.total_allocated + total) % 2 ^ 64;
  }
  ok (ptr + obj_header_size, h', m)

-- `back()` of an empty vector would be undefined behaviour.
unfoldable pub place : ℕ → ℕ → Heap → Ram → Result (ℕ × Heap × Ram)
place total type h m = elim (back h.chunks) [
  | none ↦ fault memory_access
  | some c ↦ bump h c total type m
]

unfoldable pub heap_alloc : Heap → ℕ → ℕ → Ram → Result (ℕ × Heap × Ram)
heap_alloc h size type m = do
  let total = align ((obj_header_size + size) % 2 ^ 64)
  (h, m) ← if needs_chunk h total then alloc_new_chunk h m else ok (h, m)
  place total type h m

unfoldable pub free_chunks : List Chunk → Ram → Ram
free_chunks [] m = m
free_chunks (c ∷ cs) m = free_chunks cs (free c.mem m)

unfoldable pub free_heap : Heap → Ram → Heap × Ram
unfolding free_chunks
free_heap h m = (record h { chunks = []; total_allocated = 0 }, free_chunks h.chunks m)
