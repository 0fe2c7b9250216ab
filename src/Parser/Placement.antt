-- ===== src/Parser/Placement.antt =====
-- src/compiler/parser.cpp and memManager.cpp: what the allocation of a node keeps of the arena.
use sprout_lang.Prelude.{
  ℕ, ◌+◌, ◌*◌, ◌/◌, ◌≤◌, ◌<◌, ◌≡◌, ◌⊎◌, inl, inr, some, List, [], ◌∷◌, ◌++◌, All, All-append,
  All-append_left, All-append_right, arith, Option-cases, Bool-cases, back, back-append, true,
  false,
}
use sprout_lang.Result.{Result, ok, thrown, ◌>>=◌, faulty_allocation, Returns, gives, throws}
use sprout_lang.Ram.{Ram, malloc}
use sprout_lang.MemManager.{
  Chunk, Memory, chunk_size, align, needs_chunk, alloc_chunk, place, allocate_memory,
}
use sprout_lang.MemManager.Outcome.{
  Outcome, in_last, in_new, refused, used_up, fresh, allocate_memory-Outcome,
}
use sprout_lang.MemManager.Disjoint.{
  Apart, BlockApart, IsArena, AnyWithin, IsTaken, Placed-last, Placed-new,
}
use sprout_lang.Parser.{Arena, allocate}

-- The arena is well formed, and the blocks that malloc will give are apart from its own and from
-- each other.
pub record IsSound (ar : Arena) : Type 0 where
  pub valid : IsArena ar.mem
  pub later :
      (k q : ℕ) → ar.ram.calls ≤ k → ar.ram.supply k ≡ some q → All (BlockApart q) ar.mem.chunks
  pub apart :
      (k l q r : ℕ)
      → ar.ram.calls ≤ k
      → k < l
      → ar.ram.supply k ≡ some q
      → ar.ram.supply l ≡ some r
      → Apart q chunk_size r chunk_size

-- What is allocated in `ar` is allocated in `ar'`.
abbrev pub Extends : Arena → Arena → Type 0
Extends ar ar' = (p n : ℕ) → IsTaken p n ar.mem → IsTaken p n ar'.mem

AnyWithin-last :
    (p n total : ℕ) (cs : List Chunk) (c : Chunk)
    → AnyWithin p n (cs ++ c ∷ [])
    → AnyWithin p n (cs ++ used_up c total ∷ [])
AnyWithin-last p n total [] c (inl h) = inl (omega arith)
AnyWithin-last p n total [] c (inr h) = elim h [ ]
AnyWithin-last p n total (d ∷ cs) c (inl h) = inl h
AnyWithin-last p n total (d ∷ cs) c (inr h) = inr (AnyWithin-last p n total cs c h)

AnyWithin-append_left : (p n : ℕ) (cs ds : List Chunk) → AnyWithin p n cs → AnyWithin p n (cs ++ ds)
AnyWithin-append_left p n [] ds h = elim h [ ]
AnyWithin-append_left p n (c ∷ cs) ds (inl h) = inl h
AnyWithin-append_left p n (c ∷ cs) ds (inr h) = inr (AnyWithin-append_left p n cs ds h)

later-last :
    (q total : ℕ) (cs : List Chunk) (c : Chunk)
    → All (BlockApart q) (cs ++ c ∷ [])
    → All (BlockApart q) (cs ++ used_up c total ∷ [])
later-last q total cs c h =
    All-append (BlockApart q) cs (used_up c total ∷ [])
      (All-append_left (BlockApart q) cs (c ∷ []) h)
      ((All-append_right (BlockApart q) cs (c ∷ []) h).0, tt)

given_block :
    (n q : ℕ) (m : Ram)
    → m.supply m.calls ≡ some q
    → (malloc n m).1 ≡ record m { calls = m.calls + 1; blocks = (q, n) ∷ m.blocks }
unfolding malloc
given_block n q m h = rw (h, malloc)

-- An allocation, as `allocate` makes it of that of the arena.
abbrev kept : ℕ × Memory × Ram → Result Arena
kept (p, mem, ram) = ok (record { mem = mem; ram = ram })

Outcome-IsSound :
    (start ar : Arena) (size total : ℕ) (r : Result (ℕ × Memory × Ram))
    → Outcome ar.mem total ar.ram r
    → size ≤ total
    → total ≤ chunk_size
    → IsSound ar
    → Extends start ar
    → Returns (λ ar'. IsSound ar' × Extends start ar') (r >>= kept)
Outcome-IsSound start ar size total _ (in_last cs c split room) le small sound ext = gives _ (
  record {
    valid = (Placed-last ar.mem size total cs c split room le sound.valid).valid;
    later = λ k q h e. later-last q total cs c (rw split at sound.later k q h e);
    apart = sound.apart;
  },
  λ p n taken. AnyWithin-last p n total cs c (rw split at ext p n taken),
)
Outcome-IsSound start ar size total _ (in_new q given) le small sound ext =
    rw (given_block chunk_size q ar.ram given) (
      gives _ (
        record {
          valid =
              (Placed-new ar.mem size total q le small sound.valid
                (sound.later ar.ram.calls q (omega arith) given)).valid;
          later = λ k r h e.
              All-append (BlockApart r) ar.mem.chunks (fresh q total ∷ [])
                (sound.later k r (omega arith) e)
                (
                  ground
                      (arith, sound.apart ar.ram.calls k q r (omega arith) (omega arith) given e),
                  tt,
                );
          apart = λ k l a b h. sound.apart k l a b (omega arith);
        },
        λ p n taken. AnyWithin-append_left p n ar.mem.chunks (fresh q total ∷ []) (ext p n taken),
      ))
Outcome-IsSound start ar size total _ (refused given) le small sound ext = throws _

pub allocate-IsSound :
    (start : Arena) (size : ℕ) (ar : Arena)
    → size ≤ chunk_size
    → IsSound ar × Extends start ar
    → Returns (λ ar'. IsSound ar' × Extends start ar') (allocate size ar)
unfolding allocate
allocate-IsSound start size ar small (sound, ext) =
    Outcome-IsSound start ar size ((size + 7) / 8 * 8) (allocate_memory ar.mem size ar.ram)
      (allocate_memory-Outcome ar.mem size ar.ram sound.valid.0 small) (omega arith) (omega arith)
      sound ext

-- An allocation succeeds, or throws because malloc refuses.
pub data Allocates {A : Type 0} : Result A → Type 0 where
  allocated : (a : A) → Allocates (ok a)
  no_room : Allocates (thrown faulty_allocation)

place-Allocates :
    (total : ℕ) (mem : Memory) (ram : Ram) (c : Chunk)
    → back mem.chunks ≡ some c
    → Allocates (place total mem ram)
unfolding place
place-Allocates total mem ram c h = rw (h, place) (allocated _)

-- A new chunk is the last.
alloc_chunk-cases :
    (mem : Memory) (ram : Ram)
    → ((mem' : Memory) × (ram' : Ram) × (c : Chunk) × (alloc_chunk mem ram ≡ ok (mem', ram'))
        × (back mem'.chunks ≡ some c))
      ⊎ (alloc_chunk mem ram ≡ thrown faulty_allocation)
unfolding alloc_chunk
alloc_chunk-cases mem ram = elim (Option-cases (malloc chunk_size ram).0) [
  | inl null ↦ inr (rw (null, alloc_chunk))
  | inr (q, given) ↦
      let c : Chunk = record { mem = q; used = 0; size = chunk_size } in
      inl (
        record mem { chunks = mem.chunks ++ c ∷ [] },
        (malloc chunk_size ram).1,
        c,
        rw (given, alloc_chunk),
        back-append mem.chunks c,
      )
]

back_of_room :
    (mem : Memory) (total : ℕ)
    → needs_chunk mem total ≡ false
    → (c : Chunk) × (back mem.chunks ≡ some c)
unfolding needs_chunk
back_of_room mem total h = elim (Option-cases (back mem.chunks)) [
  | inl none_left ↦ let k : needs_chunk mem total ≡ true = rw (none_left, needs_chunk) in cc
  | inr found ↦ found
]

allocate_memory-Allocates :
    (mem : Memory) (size : ℕ) (ram : Ram) → Allocates (allocate_memory mem size ram)
unfolding allocate_memory
allocate_memory-Allocates mem size ram = elim (Bool-cases (needs_chunk mem (align size))) [
  | inl full ↦ elim (alloc_chunk-cases mem ram) [
    | inl (mem', ram', c, e, last) ↦ rw (full, e) (place-Allocates (align size) mem' ram' c last)
    | inr e ↦ rw (full, e) no_room
  ]
  | inr room ↦
      let (c, last) = back_of_room mem (align size) room in
      rw room (place-Allocates (align size) mem ram c last)
]

then-Allocates :
    {A B : Type 0} {r : Result A} (next : A → B) → Allocates r → Allocates (r >>= λ a. ok (next a))
then-Allocates next (allocated a) = allocated (next a)
then-Allocates next no_room = no_room

pub allocate-Allocates : (size : ℕ) (ar : Arena) → Allocates (allocate size ar)
unfolding allocate
allocate-Allocates size ar = then-Allocates _ (allocate_memory-Allocates ar.mem size ar.ram)

allocated-Returns : {A : Type 0} {r : Result A} → Allocates r → Returns (λ _. Unit {0}) r
allocated-Returns (allocated a) = gives a tt
allocated-Returns no_room = throws faulty_allocation

pub allocate-Returns : (size : ℕ) (ar : Arena) → Returns (λ _. Unit {0}) (allocate size ar)
allocate-Returns size ar = allocated-Returns (allocate-Allocates size ar)
