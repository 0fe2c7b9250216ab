-- ===== src/MemManager/Disjoint.antt =====
-- src/compiler/memManager.cpp: what is free and what is taken in an arena, where malloc returns
-- blocks clear of the arena's own.
use sprout_lang.Prelude.{
  ℕ, ◌+◌, ◌*◌, ◌/◌, ◌≤◌, ◌≡◌, ◌⊎◌, inl, inr, some, List, [], ◌∷◌, ◌++◌, All, All-append,
  All-append_left, All-append_right, arith,
}
use sprout_lang.Result.{Result, ok}
use sprout_lang.Ram.{Ram}
use sprout_lang.MemManager.{Chunk, Memory, chunk_size, allocate_memory}
use sprout_lang.MemManager.Outcome.{
  Outcome, in_last, in_new, refused, Fits, used_up, fresh, arena, allocate_memory-Outcome,
}

-- Two stretches of memory without a common byte.
abbrev pub Apart : ℕ → ℕ → ℕ → ℕ → Type 0
Apart p n q m = (p + n ≤ q) ⊎ (q + m ≤ p)

-- The blocks of the chunks are apart from each other.
abbrev pub BlockApart : ℕ → Chunk → Type 0
BlockApart p c = Apart p chunk_size c.mem chunk_size

abbrev pub ChunksApart : List Chunk → Type 0
ChunksApart [] = Unit {0}
ChunksApart (c ∷ cs) = All (BlockApart c.mem) cs × ChunksApart cs

-- The well-formed arenas.
abbrev pub IsArena : Memory → Type 0
IsArena mem = All Fits mem.chunks × ChunksApart mem.chunks

-- What the arena relies on: a block of malloc is apart from those that it holds.
abbrev pub MallocApart : Memory → Ram → Type 0
MallocApart mem ram = (q : ℕ) → ram.supply ram.calls ≡ some q → All (BlockApart q) mem.chunks

-- The n bytes at p are apart from all that is allocated; they are allocated.
abbrev pub IsFree : ℕ → ℕ → Memory → Type 0
IsFree p n mem = All (λ (c : Chunk). Apart p n c.mem c.used) mem.chunks

abbrev pub Within : ℕ → ℕ → Chunk → Type 0
Within p n c = (c.mem ≤ p) × (p + n ≤ c.mem + c.used)

abbrev pub AnyWithin : ℕ → ℕ → List Chunk → Type 0
AnyWithin p n [] = ⊥
AnyWithin p n (c ∷ cs) = Within p n c ⊎ AnyWithin p n cs

abbrev pub IsTaken : ℕ → ℕ → Memory → Type 0
IsTaken p n mem = AnyWithin p n mem.chunks

AnyWithin-append_right :
    (p n : ℕ) (cs ds : List Chunk) → AnyWithin p n ds → AnyWithin p n (cs ++ ds)
AnyWithin-append_right p n [] ds h = h
AnyWithin-append_right p n (c ∷ cs) ds h = inr (AnyWithin-append_right p n cs ds h)

ChunksApart-append :
    (cs : List Chunk) (d : Chunk)
    → ChunksApart cs
    → All (BlockApart d.mem) cs
    → ChunksApart (cs ++ d ∷ [])
ChunksApart-append [] d h k = (tt, tt)
ChunksApart-append (c ∷ cs) d h k = (
  All-append (BlockApart c.mem) cs (d ∷ []) h.0 (ground arith, tt),
  ChunksApart-append cs d h.1 k.1,
)

-- In a list of chunks apart, the last is apart from the others.
last-BlockApart :
    (cs : List Chunk) (d : Chunk) → ChunksApart (cs ++ d ∷ []) → All (BlockApart d.mem) cs
last-BlockApart [] d h = tt
last-BlockApart (c ∷ cs) d h =
    let k = All-append_right (BlockApart c.mem) cs (d ∷ []) h.0 in
    (ground (arith, k.0), last-BlockApart cs d h.1)

ChunksApart-left : (cs ds : List Chunk) → ChunksApart (cs ++ ds) → ChunksApart cs
ChunksApart-left [] ds h = tt
ChunksApart-left (c ∷ cs) ds h =
    (All-append_left (BlockApart c.mem) cs ds h.0, ChunksApart-left cs ds h.1)

-- A stretch of a block that is apart from the chunks' blocks is apart from what is allocated there.
BlockApart-free :
    (q p n : ℕ) (cs : List Chunk)
    → q ≤ p
    → p + n ≤ q + chunk_size
    → All Fits cs
    → All (BlockApart q) cs
    → All (λ (c : Chunk). Apart p n c.mem c.used) cs
BlockApart-free q p n [] lo hi fits h = tt
BlockApart-free q p n (c ∷ cs) lo hi fits h =
    (ground arith, BlockApart-free q p n cs lo hi fits.1 h.1)

-- The facts about a successful allocation of n bytes at p.
pub record Placed (mem : Memory) (p n : ℕ) (mem' : Memory) : Type 0 where
  pub valid : IsArena mem'
  pub was_free : IsFree p n mem
  pub is_taken : IsTaken p n mem'

pub Placed-last :
    (mem : Memory) (n total : ℕ) (cs : List Chunk) (c : Chunk)
    → mem.chunks ≡ cs ++ c ∷ []
    → c.used + total ≤ chunk_size
    → n ≤ total
    → IsArena mem
    → Placed mem (c.mem + c.used) n (arena mem (cs ++ used_up c total ∷ []) total)
Placed-last mem n total cs c split room le ok-mem =
    let fits = rw split at ok-mem.0 in
    let apart = rw split at ok-mem.1 in
    let fits_left = All-append_left Fits cs (c ∷ []) fits in
    let others = last-BlockApart cs c apart in
    record {
      valid = (
        All-append Fits cs (used_up c total ∷ []) fits_left (room, tt),
        ChunksApart-append cs (used_up c total) (ChunksApart-left cs (c ∷ []) apart) others,
      );
      was_free = rw split (
          All-append _ cs (c ∷ [])
            (BlockApart-free c.mem (c.mem + c.used) n cs (omega arith) (omega arith) fits_left
              others)
            (ground arith, tt));
      is_taken =
          AnyWithin-append_right (c.mem + c.used) n cs (used_up c total ∷ []) (inl (omega arith));
    }

pub Placed-new :
    (mem : Memory) (n total q : ℕ)
    → n ≤ total
    → total ≤ chunk_size
    → IsArena mem
    → All (BlockApart q) mem.chunks
    → Placed mem q n (arena mem (mem.chunks ++ fresh q total ∷ []) total)
Placed-new mem n total q le small ok-mem sep = record {
  valid = (
    All-append Fits mem.chunks (fresh q total ∷ []) ok-mem.0 (small, tt),
    ChunksApart-append mem.chunks (fresh q total) ok-mem.1 sep,
  );
  was_free = BlockApart-free q q n mem.chunks (omega arith) (omega arith) ok-mem.0 sep;
  is_taken = AnyWithin-append_right q n mem.chunks (fresh q total ∷ []) (inl (omega arith));
}

Placed-Outcome :
    (mem : Memory) (n total : ℕ) (ram : Ram) {r : Result (ℕ × Memory × Ram)}
    → Outcome mem total ram r
    → n ≤ total
    → total ≤ chunk_size
    → IsArena mem
    → MallocApart mem ram
    → (p : ℕ) (mem' : Memory) (ram' : Ram) → r ≡ ok (p, mem', ram')
    → Placed mem p n mem'
Placed-Outcome mem n total ram (in_last cs c split room) le small ok-mem sep p mem' ram' e =
    let at : c.mem + c.used ≡ p = cc in
    let after : arena mem (cs ++ used_up c total ∷ []) total ≡ mem' = cc in
    rw (← at, ← after) (Placed-last mem n total cs c split room le ok-mem)
Placed-Outcome mem n total ram (in_new q given) le small ok-mem sep p mem' ram' e =
    let at : q ≡ p = cc in
    let after : arena mem (mem.chunks ++ fresh q total ∷ []) total ≡ mem' = cc in
    rw (← at, ← after) (Placed-new mem n total q le small ok-mem (sep q given))
Placed-Outcome mem n total ram (refused given) le small ok-mem sep p mem' ram' e = cc

pub allocate_memory-Placed :
    (mem : Memory) (size : ℕ) (ram : Ram) (p : ℕ) (mem' : Memory) (ram' : Ram)
    → IsArena mem
    → MallocApart mem ram
    → size ≤ chunk_size
    → allocate_memory mem size ram ≡ ok (p, mem', ram')
    → Placed mem p size mem'
allocate_memory-Placed mem size ram p mem' ram' ok-mem sep small e =
    Placed-Outcome mem size ((size + 7) / 8 * 8) ram
      (allocate_memory-Outcome mem size ram ok-mem.0 small) (omega arith) (omega arith) ok-mem sep p
      mem' ram' e

free_taken-Apart :
    (p n q m : ℕ) (cs : List Chunk)
    → AnyWithin p n cs
    → All (λ (c : Chunk). Apart q m c.mem c.used) cs
    → Apart p n q m
free_taken-Apart p n q m [] taken free = absurd taken
free_taken-Apart p n q m (c ∷ cs) (inl here) free = ground arith
free_taken-Apart p n q m (c ∷ cs) (inr there) free = free_taken-Apart p n q m cs there free.1

-- Two allocations in a row, of at most a chunk each, return stretches without a common byte.
pub allocate_memory-Apart :
    (mem : Memory) (n m : ℕ) (ram : Ram) (p q : ℕ) (mem₁ mem₂ : Memory) (ram₁ ram₂ : Ram)
    → IsArena mem
    → MallocApart mem ram
    → MallocApart mem₁ ram₁
    → n ≤ chunk_size
    → m ≤ chunk_size
    → allocate_memory mem n ram ≡ ok (p, mem₁, ram₁)
    → allocate_memory mem₁ m ram₁ ≡ ok (q, mem₂, ram₂)
    → Apart p n q m
allocate_memory-Apart mem n m ram p q mem₁ mem₂ ram₁ ram₂ valid sep sep₁ hn hm e₁ e₂ =
    let first = allocate_memory-Placed mem n ram p mem₁ ram₁ valid sep hn e₁ in
    let second = allocate_memory-Placed mem₁ m ram₁ q mem₂ ram₂ first.valid sep₁ hm e₂ in
    free_taken-Apart p n q m mem₁.chunks first.is_taken second.was_free
