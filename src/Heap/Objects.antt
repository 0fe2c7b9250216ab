-- ===== src/Heap/Objects.antt =====
-- src/vm/Heap.cpp: half-spaces whose objects lie back to back in each chunk, each as long as its
-- header says, and the walk of getAllObjects along them.
use mathlib.Core.List.{append_assoc, append-nil}
use sprout_lang.Prelude.{
  ℕ, zero, suc, ◌+◌, ◌%◌, ◌^◌, ◌≤◌, ◌<◌, ◌≡◌, ◌⊎◌, refl, ap, sym, ◌∙◌, true, List, [], ◌∷◌, ◌++◌,
  All, arith, ltb, lt→ltb,
}
use sprout_lang.Result.{ok}
use sprout_lang.Ram.{Ram, read_bytes}
use sprout_lang.Ram.Laws.{read_bytes_congr, live_part, load-live}
use sprout_lang.Vm.{Heap, Chunk}
use sprout_lang.Heap.{chunk_size}
use sprout_lang.Heap.Collect.{chunk_objects, all_objects}
use sprout_lang.Heap.Alloc.{Sound}

-- From offset i on, the objects of a chunk of the given address and use, each with its header.
pub data Tiled (f : ℕ → ℕ) (mem used : ℕ) : ℕ → List ℕ → Type 0 where
  tiled_end : Tiled f mem used used []
  object :
      (i size : ℕ) {objects : List ℕ}
      → read_bytes f 4 (mem + i) ≡ size
      → 16 ≤ size
      → i + size ≤ used
      → Tiled f mem used (i + size) objects
      → Tiled f mem used i ((mem + i) ∷ objects)

pub data AllTiled (f : ℕ → ℕ) : List Chunk → List ℕ → Type 0 where
  no_chunk : AllTiled f [] []
  chunk :
      (c : Chunk) {cs : List Chunk} (os ps : List ℕ) {objects : List ℕ}
      → objects ≡ os ++ ps
      → Tiled f c.mem c.used 0 os
      → AllTiled f cs ps
      → AllTiled f (c ∷ cs) objects

-- The blocks of two chunks have no byte in common.
abbrev pub BlockApart : ℕ → Chunk → Type 0
BlockApart p c = (p + chunk_size ≤ c.mem) ⊎ (c.mem + chunk_size ≤ p)

abbrev pub ChunksApart : List Chunk → Type 0
ChunksApart [] = Unit {0}
ChunksApart (c ∷ cs) = All (BlockApart c.mem) cs × ChunksApart cs

-- A half-space that holds these objects, oldest first.
pub record HoldsObjects (h : Heap) (m : Ram) (objects : List ℕ) : Type 0 where
  pub sound : All (Sound m) h.chunks
  pub apart : ChunksApart h.chunks
  pub tiled : AllTiled m.byte h.chunks objects

chunk_objects-Tiled :
    (fuel : ℕ) (c : Chunk) (i : ℕ) (objects : List ℕ) (m : Ram)
    → Sound m c
    → Tiled m.byte c.mem c.used i objects
    → c.used ≤ i + fuel
    → chunk_objects fuel c i m ≡ ok objects
unfolding chunk_objects
chunk_objects-Tiled zero c i _ m sound tiled_end enough = ground arith
chunk_objects-Tiled (suc fuel) c i _ m sound tiled_end enough = ground arith
chunk_objects-Tiled zero c i _ m sound (object _ size e big inside t) enough = absurd (omega arith)
chunk_objects-Tiled (suc fuel) c i _ m sound (object _ size {objects} e big inside t) enough =
    rw
      (
        less,
        load-live 4 (c.mem + i) m
            (live_part m.blocks c.mem chunk_size (c.mem + i) 4 sound.1 (omega arith) (omega arith)),
        e,
        low,
        chunk_objects-Tiled fuel c (i + size) objects m sound t (omega arith),
      )
      refl
  where
    less : ltb i c.used ≡ true
    less = lt→ltb i c.used (omega arith)

    low : (i + size) % 2 ^ 32 ≡ i + size
    low = omega arith

pub all_objects-AllTiled :
    (cs : List Chunk) (objects : List ℕ) (m : Ram)
    → All (Sound m) cs
    → AllTiled m.byte cs objects
    → all_objects cs m ≡ ok objects
unfolding all_objects
all_objects-AllTiled [] _ m sound no_chunk = refl
all_objects-AllTiled (c ∷ cs) _ m sound (chunk _ os ps e t rest) =
    rw
      (
        chunk_objects-Tiled c.used c 0 os m sound.0 t (omega arith),
        all_objects-AllTiled cs ps m sound.1 rest,
        e,
      )
      refl

-- Two memories agree on what is used of the chunk.
abbrev pub Agrees : (ℕ → ℕ) → (ℕ → ℕ) → Chunk → Type 0
Agrees f g c = (x : ℕ) → c.mem ≤ x → x < c.mem + c.used → f x ≡ g x

pub Tiled-Agrees :
    (f g : ℕ → ℕ) (c : Chunk) {i : ℕ} {objects : List ℕ}
    → Agrees f g c
    → Tiled f c.mem c.used i objects
    → Tiled g c.mem c.used i objects
Tiled-Agrees f g c same tiled_end = tiled_end
Tiled-Agrees f g c same (object i size e big inside t) =
    object i size
      (sym (read_bytes_congr f g 4 (c.mem + i) λ x lo hi. same x (omega arith) (omega arith)) ∙ e)
      big inside (Tiled-Agrees f g c same t)

pub AllTiled-Agrees :
    (f g : ℕ → ℕ) (cs : List Chunk) {objects : List ℕ}
    → All (Agrees f g) cs
    → AllTiled f cs objects
    → AllTiled g cs objects
AllTiled-Agrees f g [] same no_chunk = no_chunk
AllTiled-Agrees f g (c ∷ cs) same (chunk _ os ps e t rest) =
    chunk c os ps e (Tiled-Agrees f g c same.0 t) (AllTiled-Agrees f g cs same.1 rest)

-- One more object at the end of a chunk, and one more chunk.
pub Tiled-append :
    (f : ℕ → ℕ) (mem used total : ℕ) {i : ℕ} {objects : List ℕ}
    → read_bytes f 4 (mem + used) ≡ total
    → 16 ≤ total
    → Tiled f mem used i objects
    → Tiled f mem (used + total) i (objects ++ (mem + used) ∷ [])
Tiled-append f mem used total e big tiled_end = object used total e big (omega arith) tiled_end
Tiled-append f mem used total e big (object i size k big' inside t) =
    object i size k big' (omega arith) (Tiled-append f mem used total e big t)

pub AllTiled-append :
    (f : ℕ → ℕ) (cs : List Chunk) (c : Chunk) {os ps : List ℕ}
    → AllTiled f cs os
    → Tiled f c.mem c.used 0 ps
    → AllTiled f (cs ++ c ∷ []) (os ++ ps)
AllTiled-append f [] c {ps = ps} no_chunk t = chunk c ps [] (sym (append-nil ps)) t no_chunk
AllTiled-append f (d ∷ cs) c {ps = ps} (chunk _ os rs e u rest) t =
    chunk d os (rs ++ ps) (ap (λ (x : List ℕ). x ++ ps) e ∙ append_assoc os rs ps) u
      (AllTiled-append f cs c rest t)

pub AllTiled-split :
    (f : ℕ → ℕ) (cs : List Chunk) (c : Chunk) {objects : List ℕ}
    → AllTiled f (cs ++ c ∷ []) objects
    → (os : List ℕ) × (ps : List ℕ) × (objects ≡ os ++ ps)
      × AllTiled f cs os
      × Tiled f c.mem c.used 0 ps
AllTiled-split f [] c (chunk _ os _ e t no_chunk) = ([], os, e ∙ append-nil os, no_chunk, t)
AllTiled-split f (d ∷ cs) c (chunk _ os _ e t rest) =
    let (qs, ps, k, left, right) = AllTiled-split f cs c rest in
    (
      os ++ qs,
      ps,
      e ∙ ap (λ (x : List ℕ). os ++ x) k ∙ sym (append_assoc os qs ps),
      chunk d os qs refl t left,
      right,
    )
