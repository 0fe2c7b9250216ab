-- ===== src/Heap/Alloc.antt =====
-- What one call of heapAlloc of src/vm/Heap.cpp does.
use sprout_lang.Prelude.{
  ℕ, ◌+◌, ◌*◌, ◌/◌, ◌%◌, ◌^◌, ◌≤◌, ◌<◌, ◌≡◌, refl, ◌∙◌, inl, inr, true, false, if◌then◌else◌, none,
  some, List, [], ◌∷◌, ◌++◌, back, back-append, set_back-append, append_of_back, All,
  All-append_right, Option-cases, Bool-cases, arith,
}
use native.Mathlib.Nat.{add-zero, zero-add}
use sprout_lang.Result.{Result, ok, thrown, ◌>>=◌, no_memory}
use sprout_lang.Ram.{Ram, live, read_bytes, write_bytes, store, malloc}
use sprout_lang.Ram.Laws.{read_bytes-write_bytes_same, read_bytes-write_bytes_apart, live_part}
use sprout_lang.Vm.{Chunk, Heap}
use sprout_lang.Heap.{chunk_size, align, needs_chunk, alloc_new_chunk, bump, place, heap_alloc}
use sprout_lang.Heap.Align.{align-mul}

-- The header of an object of `total` bytes at p.
abbrev pub header_bytes : (ℕ → ℕ) → ℕ → ℕ → ℕ → ℕ → ℕ
header_bytes f p total type =
    write_bytes (write_bytes (write_bytes (write_bytes f 4 p total) 2 (p + 4) type) 2 (p + 6) 0) 8
      (p + 8) 0

abbrev pub with_header : ℕ → ℕ → ℕ → Ram → Ram
with_header p total type m = record m { byte = header_bytes m.byte p total type }

-- Its four fields read back: the size, the type, no flag, no forwarding pointer.
pub record HasHeader (f : ℕ → ℕ) (p total type : ℕ) : Type 0 where
  pub size : read_bytes f 4 p ≡ total
  pub kind : read_bytes f 2 (p + 4) ≡ type
  pub flags : read_bytes f 2 (p + 6) ≡ 0
  pub forwarded : read_bytes f 8 (p + 8) ≡ 0

pub header_bytes-HasHeader :
    (f : ℕ → ℕ) (p total type : ℕ)
    → total < 2 ^ 32
    → type < 2 ^ 16
    → HasHeader (header_bytes f p total type) p total type
header_bytes-HasHeader f p total type ht hk =
    let f₁ = write_bytes f 4 p total in
    let f₂ = write_bytes f₁ 2 (p + 4) type in
    let f₃ = write_bytes f₂ 2 (p + 6) 0 in
    record {
      size =
          read_bytes-write_bytes_apart f₃ 8 (p + 8) 0 4 p (omega arith)
          ∙ read_bytes-write_bytes_apart f₂ 2 (p + 6) 0 4 p (omega arith)
          ∙ read_bytes-write_bytes_apart f₁ 2 (p + 4) type 4 p (omega arith)
          ∙ read_bytes-write_bytes_same f 4 p total ht;
      kind =
          read_bytes-write_bytes_apart f₃ 8 (p + 8) 0 2 (p + 4) (omega arith)
          ∙ read_bytes-write_bytes_apart f₂ 2 (p + 6) 0 2 (p + 4) (omega arith)
          ∙ read_bytes-write_bytes_same f₁ 2 (p + 4) type hk;
      flags =
          read_bytes-write_bytes_apart f₃ 8 (p + 8) 0 2 (p + 6) (omega arith)
          ∙ read_bytes-write_bytes_same f₂ 2 (p + 6) 0 (omega arith);
      forwarded = read_bytes-write_bytes_same f₃ 8 (p + 8) 0 (omega arith);
    }

abbrev pub used_up : Chunk → ℕ → Chunk
used_up c total = record c { used = c.used + total }

abbrev pub fresh : ℕ → ℕ → Chunk
fresh p total = record { mem = p; used = total; capacity = chunk_size }

abbrev pub arena : Heap → List Chunk → ℕ → Heap
arena h cs total = record h { chunks = cs; total_allocated = (h.total_allocated + total) % 2 ^ 64 }

-- Taken from the last chunk, from a new one, or refused because malloc is. The address behind the
-- header is returned.
pub data Outcome (h : Heap) (total type : ℕ) (m : Ram) : Result (ℕ × Heap × Ram) → Type 0 where
  in_last :
      (cs : List Chunk) (c : Chunk)
      → h.chunks ≡ cs ++ c ∷ []
      → c.used + total ≤ chunk_size
      → Outcome h total type m (
          ok (
            c.mem + c.used + 16,
            arena h (cs ++ used_up c total ∷ []) total,
            with_header (c.mem + c.used) total type m,
          ))
  in_new :
      (p : ℕ)
      → m.supply m.calls ≡ some p
      → Outcome h total type m (
          ok (
            p + 16,
            arena h (h.chunks ++ fresh p total ∷ []) total,
            with_header p total type (malloc chunk_size m).1,
          ))
  refused : m.supply m.calls ≡ none → Outcome h total type m (thrown no_memory)

-- A chunk within its size whose block is live.
abbrev pub Sound : Ram → Chunk → Type 0
Sound m c = (c.used ≤ chunk_size) × (live m.blocks c.mem chunk_size ≡ true)

bump_lem :
    (h : Heap) (cs : List Chunk) (c : Chunk) (total type : ℕ) (m : Ram)
    → h.chunks ≡ cs ++ c ∷ []
    → c.used + total ≤ chunk_size
    → 16 ≤ total
    → type < 2 ^ 16
    → live m.blocks c.mem chunk_size ≡ true
    → bump h c total type m
      ≡ ok (
        c.mem + c.used + 16,
        arena h (cs ++ used_up c total ∷ []) total,
        with_header (c.mem + c.used) total type m,
      )
unfolding bump store
bump_lem h cs c total type m e room big small here =
    rw
      (
        part (c.mem + c.used) 4 (omega arith) (omega arith),
        part (c.mem + c.used + 4) 2 (omega arith) (omega arith),
        part (c.mem + c.used + 6) 2 (omega arith) (omega arith),
        part (c.mem + c.used + 8) 8 (omega arith) (omega arith),
        e,
        set_back-append cs c (record c { used = (c.used + total) % 2 ^ 64 }),
      )
      (ground arith)
  where
    part : (q n : ℕ) → c.mem + c.used ≤ q → q + n ≤ c.mem + c.used + 16 → live m.blocks q n ≡ true
    part q n lo hi = live_part m.blocks c.mem chunk_size q n here (omega arith) (omega arith)

place_lem :
    (h : Heap) (cs : List Chunk) (c : Chunk) (total type : ℕ) (m : Ram)
    → h.chunks ≡ cs ++ c ∷ []
    → c.used + total ≤ chunk_size
    → 16 ≤ total
    → type < 2 ^ 16
    → live m.blocks c.mem chunk_size ≡ true
    → place total type h m
      ≡ ok (
        c.mem + c.used + 16,
        arena h (cs ++ used_up c total ∷ []) total,
        with_header (c.mem + c.used) total type m,
      )
unfolding place
place_lem h cs c total type m e room big small here =
    rw (last, place) (bump_lem h cs c total type m e room big small here)
  where
    last : back h.chunks ≡ some c
    last = rw e (back-append cs c)

alloc_new_chunk-none :
    (h : Heap) (m : Ram) → m.supply m.calls ≡ none → alloc_new_chunk h m ≡ thrown no_memory
unfolding alloc_new_chunk malloc
alloc_new_chunk-none h m e = ground arith

alloc_new_chunk-some :
    (h : Heap) (m : Ram) (p : ℕ)
    → m.supply m.calls ≡ some p
    → alloc_new_chunk h m
      ≡ ok (record h { chunks = h.chunks ++ fresh p 0 ∷ [] }, (malloc chunk_size m).1)
unfolding alloc_new_chunk malloc
alloc_new_chunk-some h m p e = ground arith

malloc-live :
    (m : Ram) (p n : ℕ) → m.supply m.calls ≡ some p → live (malloc n m).1.blocks p n ≡ true
unfolding malloc live
malloc-live m p n e = ground arith

grow : ℕ → ℕ → Heap → Ram → Result (ℕ × Heap × Ram)
grow total type h m = alloc_new_chunk h m >>= λ (h', m'). place total type h' m'

grow-Outcome :
    (h : Heap) (total type : ℕ) (m : Ram)
    → total ≤ chunk_size
    → 16 ≤ total
    → type < 2 ^ 16
    → Outcome h total type m (grow total type h m)
unfolding grow
grow-Outcome h total type m le big small = elim (Option-cases (m.supply m.calls)) [
  | inl e ↦ rw (alloc_new_chunk-none h m e) (refused e)
  | inr (p, e) ↦
      rw
        (
          alloc_new_chunk-some h m p e,
          place_lem (record h { chunks = h.chunks ++ fresh p 0 ∷ [] }) h.chunks (fresh p 0) total
              type (malloc chunk_size m).1 refl (omega arith) big small
              (malloc-live m p chunk_size e),
          add-zero p,
          zero-add total,
        )
        (in_new p e)
]

needs_chunk-none : (h : Heap) (total : ℕ) → back h.chunks ≡ none → needs_chunk h total ≡ true
unfolding needs_chunk
needs_chunk-none h total e = ground arith

room_of_enough :
    (h : Heap) (total : ℕ) (c : Chunk)
    → back h.chunks ≡ some c
    → c.used ≤ chunk_size
    → total ≤ chunk_size
    → needs_chunk h total ≡ false
    → c.used + total ≤ chunk_size
unfolding needs_chunk
room_of_enough h total c e fits le enough = ground arith

serve : ℕ → ℕ → Heap → Ram → Result (ℕ × Heap × Ram)
serve total type h m =
    (if needs_chunk h total then alloc_new_chunk h m else ok (h, m)) >>= λ (h', m').
    place total type h' m'

serve-grow :
    (h : Heap) (total type : ℕ) (m : Ram)
    → total ≤ chunk_size
    → 16 ≤ total
    → type < 2 ^ 16
    → needs_chunk h total ≡ true
    → Outcome h total type m (serve total type h m)
unfolding serve grow
serve-grow h total type m le big small e = rw e (grow-Outcome h total type m le big small)

serve-Outcome :
    (h : Heap) (total type : ℕ) (m : Ram)
    → All (Sound m) h.chunks
    → total ≤ chunk_size
    → 16 ≤ total
    → type < 2 ^ 16
    → Outcome h total type m (serve total type h m)
unfolding serve
serve-Outcome h total type m sound le big small = elim (Option-cases (back h.chunks)) [
  | inl e ↦ serve-grow h total type m le big small (needs_chunk-none h total e)
  | inr (c, e) ↦ elim (Bool-cases (needs_chunk h total)) [
    | inl more ↦ serve-grow h total type m le big small more
    | inr enough ↦
        let (cs, split) = append_of_back h.chunks c e in
        let (fits, here) = (All-append_right (Sound m) cs (c ∷ []) (rw split at sound)).0 in
        let room = room_of_enough h total c e fits le enough in
        rw (enough, place_lem h cs c total type m split room big small here)
          (in_last cs c split room)
  ]
]

-- A request whose object, header included, is at most a chunk is met by one of the three outcomes,
-- for the object's size rounded up to a multiple of 8: with sound chunks nothing is written
-- outside them.
pub heap_alloc-Outcome :
    (h : Heap) (size type : ℕ) (m : Ram)
    → All (Sound m) h.chunks
    → size + 16 ≤ chunk_size
    → type < 2 ^ 16
    → Outcome h ((size + 16 + 7) / 8 * 8) type m (heap_alloc h size type m)
unfolding heap_alloc serve
heap_alloc-Outcome h size type m sound fits small =
    rw total
      (serve-Outcome h ((size + 16 + 7) / 8 * 8) type m sound (omega arith) (omega arith) small)
  where
    total : align ((16 + size) % 2 ^ 64) ≡ (size + 16 + 7) / 8 * 8
    total = omega (arith, align-mul ((16 + size) % 2 ^ 64) (omega arith))
