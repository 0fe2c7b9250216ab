-- ===== src/MemManager/Outcome.antt =====
-- What one call of allocateMemory of src/compiler/memManager.cpp does.
use sprout_lang.Prelude.{
  ℕ, ◌+◌, ◌-◌, ◌*◌, ◌/◌, ◌%◌, ◌^◌, ◌≤◌, ◌<◌, ◌≡◌, refl, ap, inl, inr, true, false, if◌then◌else◌,
  none, some, List, [], ◌∷◌, ◌++◌, back, back-append, set_back-append, append_of_back, All,
  All-append_right, Option-cases, Bool-cases, arith,
}
use sprout_lang.Prelude.Bits.{bit_and_high, bit_and_mask}
use native.Mathlib.Nat.{add-zero, zero-add}
use sprout_lang.Result.{Result, ok, thrown, ◌>>=◌, faulty_allocation}
use sprout_lang.Ram.{Ram, malloc}
use sprout_lang.MemManager.{
  Chunk, Memory, chunk_size, align, needs_chunk, alloc_chunk, take_from, place, allocate_memory,
}

pub align-mul : (n : ℕ) → n + 7 < 2 ^ 64 → align n ≡ (n + 7) / 8 * 8
unfolding align
align-mul n h =
    ground (
      arith,
      bit_and_high 3 ((n + 7) % 2 ^ 64) (2 ^ 61 - 1),
      bit_and_mask 61 ((n + 7) % 2 ^ 64 / 8),
    )

-- A chunk after the next `total` bytes are taken, and a chunk of which the first are.
abbrev pub used_up : Chunk → ℕ → Chunk
used_up c total = record c { used = c.used + total }

abbrev pub fresh : ℕ → ℕ → Chunk
fresh p total = record { mem = p; used = total; size = chunk_size }

abbrev pub arena : Memory → List Chunk → ℕ → Memory
arena mem cs total = record mem { chunks = cs; allocated = (mem.allocated + total) % 2 ^ 64 }

-- Taken from the last chunk, from a new one, or refused because malloc is.
pub data Outcome (mem : Memory) (total : ℕ) (ram : Ram) : Result (ℕ × Memory × Ram) → Type 0 where
  in_last :
      (cs : List Chunk) (c : Chunk)
      → mem.chunks ≡ cs ++ c ∷ []
      → c.used + total ≤ chunk_size
      → Outcome mem total ram
          (ok (c.mem + c.used, arena mem (cs ++ used_up c total ∷ []) total, ram))
  in_new :
      (p : ℕ)
      → ram.supply ram.calls ≡ some p
      → Outcome mem total ram
          (ok (p, arena mem (mem.chunks ++ fresh p total ∷ []) total, (malloc chunk_size ram).1))
  refused : ram.supply ram.calls ≡ none → Outcome mem total ram (thrown faulty_allocation)

abbrev pub Fits : Chunk → Type 0
Fits c = c.used ≤ chunk_size

take_from-append :
    (mem : Memory) (cs : List Chunk) (c : Chunk) (total : ℕ)
    → mem.chunks ≡ cs ++ c ∷ []
    → c.used + total ≤ chunk_size
    → take_from c total mem ≡ (c.mem + c.used, arena mem (cs ++ used_up c total ∷ []) total)
unfolding take_from
take_from-append mem cs c total e h =
    rw (e, set_back-append cs c (record c { used = (c.used + total) % 2 ^ 64 })) (ground arith)

place-append :
    (mem : Memory) (cs : List Chunk) (c : Chunk) (total : ℕ) (ram : Ram)
    → mem.chunks ≡ cs ++ c ∷ []
    → c.used + total ≤ chunk_size
    → place total mem ram ≡ ok (c.mem + c.used, arena mem (cs ++ used_up c total ∷ []) total, ram)
unfolding place
place-append mem cs c total ram e h =
    rw (last, place)
      (ap (λ (t : ℕ × Memory). ok (t.0, t.1, ram)) (take_from-append mem cs c total e h))
  where
    last : back mem.chunks ≡ some c
    last = rw e (back-append cs c)

-- The way through a new chunk.
grow : Memory → ℕ → Ram → Result (ℕ × Memory × Ram)
grow mem total ram = alloc_chunk mem ram >>= λ (m, r). place total m r

alloc_chunk-none :
    (mem : Memory) (ram : Ram)
    → ram.supply ram.calls ≡ none
    → alloc_chunk mem ram ≡ thrown faulty_allocation
unfolding alloc_chunk malloc
alloc_chunk-none mem ram e = ground arith

alloc_chunk-some :
    (mem : Memory) (ram : Ram) (p : ℕ)
    → ram.supply ram.calls ≡ some p
    → alloc_chunk mem ram
      ≡ ok (record mem { chunks = mem.chunks ++ fresh p 0 ∷ [] }, (malloc chunk_size ram).1)
unfolding alloc_chunk malloc
alloc_chunk-some mem ram p e = ground arith

grow-Outcome :
    (mem : Memory) (total : ℕ) (ram : Ram)
    → total ≤ chunk_size
    → Outcome mem total ram (grow mem total ram)
unfolding grow
grow-Outcome mem total ram h = elim (Option-cases (ram.supply ram.calls)) [
  | inl e ↦ rw (alloc_chunk-none mem ram e) (refused e)
  | inr (p, e) ↦
      rw
        (
          alloc_chunk-some mem ram p e,
          place-append (record mem { chunks = mem.chunks ++ fresh p 0 ∷ [] }) mem.chunks (fresh p 0)
              total (malloc chunk_size ram).1 refl (omega arith),
          add-zero,
          zero-add total,
        )
        (in_new p e)
]

needs-Outcome :
    (mem : Memory) (total : ℕ) (ram : Ram)
    → total ≤ chunk_size
    → needs_chunk mem total ≡ true
    → Outcome mem total ram (
        (if needs_chunk mem total then alloc_chunk mem ram else ok (mem, ram)) >>= λ (m, r).
        place total m r)
unfolding grow
needs-Outcome mem total ram h e = rw e (grow-Outcome mem total ram h)

needs_chunk-none :
    (mem : Memory) (total : ℕ) → back mem.chunks ≡ none → needs_chunk mem total ≡ true
unfolding needs_chunk
needs_chunk-none mem total e = ground arith

room_of_enough :
    (mem : Memory) (total : ℕ) (c : Chunk)
    → back mem.chunks ≡ some c
    → Fits c
    → total ≤ chunk_size
    → needs_chunk mem total ≡ false
    → c.used + total ≤ chunk_size
unfolding needs_chunk
room_of_enough mem total c e fits h enough = ground arith

last-Fits :
    (mem : Memory) (cs : List Chunk) (c : Chunk)
    → mem.chunks ≡ cs ++ c ∷ []
    → All Fits mem.chunks
    → Fits c
last-Fits mem cs c e fits = (All-append_right Fits cs (c ∷ []) (rw e at fits)).0

serve-Outcome :
    (mem : Memory) (total : ℕ) (ram : Ram)
    → All Fits mem.chunks
    → total ≤ chunk_size
    → Outcome mem total ram (
        (if needs_chunk mem total then alloc_chunk mem ram else ok (mem, ram)) >>= λ (m, r).
        place total m r)
serve-Outcome mem total ram fits h = elim (Option-cases (back mem.chunks)) [
  | inl e ↦ needs-Outcome mem total ram h (needs_chunk-none mem total e)
  | inr (c, e) ↦ elim (Bool-cases (needs_chunk mem total)) [
    | inl more ↦ needs-Outcome mem total ram h more
    | inr enough ↦
        let (cs, split) = append_of_back mem.chunks c e in
        let room = room_of_enough mem total c e (last-Fits mem cs c split fits) h enough in
        rw (enough, place-append mem cs c total ram split room) (in_last cs c split room)
  ]
]

-- A request of at most a chunk is met by one of the three outcomes, for the size rounded up to a
-- multiple of 8: the arena never writes past a chunk and never returns anything else.
pub allocate_memory-Outcome :
    (mem : Memory) (size : ℕ) (ram : Ram)
    → All Fits mem.chunks
    → size ≤ chunk_size
    → Outcome mem ((size + 7) / 8 * 8) ram (allocate_memory mem size ram)
unfolding allocate_memory
allocate_memory-Outcome mem size ram fits small =
    rw (align-mul size (omega arith))
      (serve-Outcome mem ((size + 7) / 8 * 8) ram fits (omega arith))
