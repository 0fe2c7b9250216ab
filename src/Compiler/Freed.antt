-- ===== src/Compiler/Freed.antt =====
-- src/compiler/memManager.cpp: the live blocks of memory while an arena grows and when it is freed.
use sprout_lang.Prelude.{
  ℕ, ◌+◌, ◌*◌, ◌/◌, ◌≤◌, ◌≡◌, ◌≢◌, refl, sym, ap, ◌∙◌, ==_of_ne, ==_refl, some, List, [], ◌∷◌, ◌++◌,
  All, arith,
}
use sprout_lang.Result.{Result, ok, ◌>>=◌, Returns, gives, throws, Returns-both}
use sprout_lang.Ram.{Ram, malloc, free, remove_block}
use sprout_lang.MemManager.{Chunk, Memory, chunk_size, allocate_memory, free_chunks, free_memory}
use sprout_lang.MemManager.Outcome.{
  Outcome, in_last, in_new, refused, used_up, fresh, allocate_memory-Outcome,
}
use sprout_lang.MemManager.Disjoint.{BlockApart, ChunksApart}
use sprout_lang.Parser.{Arena, allocate}
use sprout_lang.Parser.Placement.{IsSound, Extends, allocate-IsSound}

-- The blocks of the chunks, the newest first, in front of `base`.
unfoldable pub owned : List Chunk → List (ℕ × ℕ) → List (ℕ × ℕ)
owned [] base = base
owned (c ∷ cs) base = owned cs ((c.mem, chunk_size) ∷ base)

-- All that is live is the chunks' and what was live before.
abbrev pub Owns : List (ℕ × ℕ) → Arena → Type 0
Owns base ar = ar.ram.blocks ≡ owned ar.mem.chunks base

owned-append :
    (cs : List Chunk) (c : Chunk) (base : List (ℕ × ℕ))
    → owned (cs ++ c ∷ []) base ≡ (c.mem, chunk_size) ∷ owned cs base
unfolding owned
owned-append [] c base = refl
owned-append (d ∷ cs) c base = owned-append cs c ((d.mem, chunk_size) ∷ base)

given-blocks :
    (q : ℕ) (ram : Ram)
    → ram.supply ram.calls ≡ some q
    → (malloc chunk_size ram).1.blocks ≡ (q, chunk_size) ∷ ram.blocks
unfolding malloc
given-blocks q ram e = rw (e, malloc) refl

Outcome-Owns :
    (base : List (ℕ × ℕ)) (ar : Arena) (total : ℕ) (r : Result (ℕ × Memory × Ram))
    → Outcome ar.mem total ar.ram r
    → Owns base ar
    → Returns (Owns base) (r >>= λ (p, mem, ram). ok (record { mem = mem; ram = ram }))
Outcome-Owns base ar total _ (in_last cs c split room) own = gives _ (
    own
    ∙ ap (λ (x : List Chunk). owned x base) split
    ∙ owned-append cs c base
    ∙ sym (owned-append cs (used_up c total) base))
Outcome-Owns base ar total _ (in_new q given) own = gives _ (
    given-blocks q ar.ram given
    ∙ ap (λ (x : List (ℕ × ℕ)). (q, chunk_size) ∷ x) own
    ∙ sym (owned-append ar.mem.chunks (fresh q total) base))
Outcome-Owns base ar total _ (refused given) own = throws _

-- What every allocation of a node leaves of an arena.
abbrev pub IsKept : Arena → List (ℕ × ℕ) → Arena → Type 0
IsKept start base ar = (IsSound ar × Extends start ar) × Owns base ar

pub allocate-IsKept :
    (start : Arena) (base : List (ℕ × ℕ)) (size : ℕ) (ar : Arena)
    → size ≤ chunk_size
    → IsKept start base ar
    → Returns (IsKept start base) (allocate size ar)
unfolding allocate
allocate-IsKept start base size ar small (sound, own) =
    Returns-both (allocate-IsSound start size ar small sound) (
      Outcome-Owns base ar ((size + 7) / 8 * 8) (allocate_memory ar.mem size ar.ram)
        (allocate_memory-Outcome ar.mem size ar.ram sound.0.valid.0 small) own)

remove_block-owned :
    (p : ℕ) (cs : List Chunk) (xs : List (ℕ × ℕ))
    → All (BlockApart p) cs
    → remove_block p (owned cs xs) ≡ owned cs (remove_block p xs)
unfolding owned remove_block
remove_block-owned p [] xs h = refl
remove_block-owned p (c ∷ cs) xs h =
    remove_block-owned p cs ((c.mem, chunk_size) ∷ xs) h.1
    ∙ ap (λ (x : List (ℕ × ℕ)). owned cs x) (rw (==_of_ne c.mem p other) refl)
  where
    other : c.mem ≢ p
    other = omega (arith, h.0)

remove_block-first : (p n : ℕ) (xs : List (ℕ × ℕ)) → remove_block p ((p, n) ∷ xs) ≡ xs
unfolding remove_block
remove_block-first p n xs = rw (==_refl p) refl

free_chunks-owned :
    (cs : List Chunk) (base : List (ℕ × ℕ)) (ram : Ram)
    → ChunksApart cs
    → ram.blocks ≡ owned cs base
    → (free_chunks cs ram).blocks ≡ base
unfolding free_chunks owned free
free_chunks-owned [] base ram apart e = e
free_chunks-owned (c ∷ cs) base ram apart e = free_chunks-owned cs base (free c.mem ram) apart.1 (
    ap (λ (x : List (ℕ × ℕ)). remove_block c.mem x) e
    ∙ remove_block-owned c.mem cs ((c.mem, chunk_size) ∷ base) apart.0
    ∙ ap (λ (x : List (ℕ × ℕ)). owned cs x) (remove_block-first c.mem chunk_size base))

-- A freed arena leaves the blocks that were live before it.
pub free_memory-blocks :
    (ar : Arena) (base : List (ℕ × ℕ))
    → IsSound ar
    → Owns base ar
    → (free_memory ar.mem ar.ram).1.blocks ≡ base
unfolding free_memory
free_memory-blocks ar base sound own = free_chunks-owned ar.mem.chunks base ar.ram sound.valid.1 own
