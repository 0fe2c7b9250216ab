-- ===== src/Heap/Walk.antt =====
-- heapAlloc and getAllObjects of src/vm/Heap.cpp: the objects before and after an allocation.
use mathlib.Core.List.{append_assoc}
use sprout_lang.Prelude.{
  ℕ, ◌+◌, ◌-◌, ◌*◌, ◌/◌, ◌^◌, ◌≤◌, ◌<◌, ◌≡◌, refl, some, List, [], ◌∷◌, ◌++◌, All, All-append,
  All-append_left, All-append_right, arith,
}
use native.Mathlib.Nat.{add-zero, zero-add}
use sprout_lang.Result.{Result, ok, Yields, value, raised, Yields-ok}
use sprout_lang.Ram.{Ram, read_bytes, write_bytes, live, malloc}
use sprout_lang.Vm.{Heap, Chunk}
use sprout_lang.Heap.{chunk_size, heap_alloc}
use sprout_lang.Heap.Collect.{all_objects}
use sprout_lang.Heap.Alloc.{
  Outcome, in_last, in_new, refused, Sound, used_up, fresh, arena, with_header, header_bytes,
  header_bytes-HasHeader, heap_alloc-Outcome,
}
use sprout_lang.Heap.Objects.{
  Tiled, tiled_end, AllTiled, BlockApart, ChunksApart, HoldsObjects, Agrees, Tiled-Agrees,
  AllTiled-Agrees, Tiled-append, AllTiled-append, AllTiled-split, all_objects-AllTiled,
}

-- A header in one block leaves what is used of another.
header_bytes-Agrees :
    (f : ℕ → ℕ) (q p total type : ℕ) (c : Chunk)
    → c.used ≤ chunk_size
    → BlockApart q c
    → q ≤ p
    → p + 16 ≤ q + chunk_size
    → Agrees f (header_bytes f p total type) c
unfolding write_bytes
header_bytes-Agrees f q p total type c fits apart lo hi x from to = ground arith

-- A header behind what is used of a chunk.
header_bytes-below :
    (f : ℕ → ℕ) (total type : ℕ) (c : Chunk)
    → Agrees f (header_bytes f (c.mem + c.used) total type) c
unfolding write_bytes
header_bytes-below f total type c x from to = ground arith

header_bytes-AllAgrees :
    (f : ℕ → ℕ) (q p total type : ℕ) (m : Ram) (cs : List Chunk)
    → All (Sound m) cs
    → All (BlockApart q) cs
    → q ≤ p
    → p + 16 ≤ q + chunk_size
    → All (Agrees f (header_bytes f p total type)) cs
header_bytes-AllAgrees f q p total type m [] sound apart lo hi = tt
header_bytes-AllAgrees f q p total type m (c ∷ cs) sound apart lo hi = (
  header_bytes-Agrees f q p total type c sound.0.0 apart.0 lo hi,
  header_bytes-AllAgrees f q p total type m cs sound.1 apart.1 lo hi,
)

-- The last chunk is apart from those before it.
last-Apart : (cs : List Chunk) (c : Chunk) → ChunksApart (cs ++ c ∷ []) → All (BlockApart c.mem) cs
last-Apart [] c h = tt
last-Apart (d ∷ cs) c h =
    let other = (All-append_right (BlockApart d.mem) cs (c ∷ []) h.0).0 in
    (omega (arith, other), last-Apart cs c h.1)

ChunksApart-used_up :
    (cs : List Chunk) (c : Chunk) (total : ℕ)
    → ChunksApart (cs ++ c ∷ [])
    → ChunksApart (cs ++ used_up c total ∷ [])
ChunksApart-used_up [] c total h = (tt, tt)
ChunksApart-used_up (d ∷ cs) c total h = (
  All-append (BlockApart d.mem) cs (used_up c total ∷ [])
      (All-append_left (BlockApart d.mem) cs (c ∷ []) h.0)
      ((All-append_right (BlockApart d.mem) cs (c ∷ []) h.0).0, tt),
  ChunksApart-used_up cs c total h.1,
)

ChunksApart-fresh :
    (cs : List Chunk) (p total : ℕ)
    → All (BlockApart p) cs
    → ChunksApart cs
    → ChunksApart (cs ++ fresh p total ∷ [])
ChunksApart-fresh [] p total h k = (tt, tt)
ChunksApart-fresh (c ∷ cs) p total h k = (
  All-append (BlockApart c.mem) cs (fresh p total ∷ []) k.0 (omega (arith, h.0), tt),
  ChunksApart-fresh cs p total h.1 k.1,
)

-- The one object of a new chunk.
first-Tiled :
    (g : ℕ → ℕ) (p total : ℕ) → read_bytes g 4 p ≡ total → 16 ≤ total → Tiled g p total 0 (p ∷ [])
first-Tiled g p total size big =
    let one : Tiled g p (0 + total) 0 ([] ++ (p + 0) ∷ []) =
      Tiled-append g p 0 total (rw (add-zero p) size) big tiled_end in
    rw (add-zero p, zero-add total) at one

object_of : (p : ℕ) → p + 16 - 16 ≡ p
object_of p = omega arith

module _ (h : Heap) (total type : ℕ) (m : Ram) (objects : List ℕ) (holds : HoldsObjects h m objects)
    (big : 16 ≤ total) (le : total ≤ chunk_size) (small : type < 2 ^ 16) where
  last-HoldsObjects :
      (cs : List Chunk) (c : Chunk)
      → h.chunks ≡ cs ++ c ∷ []
      → c.used + total ≤ chunk_size
      → HoldsObjects
          (arena h (cs ++ used_up c total ∷ []) total)
          (with_header (c.mem + c.used) total type m)
          (objects ++ (c.mem + c.used) ∷ [])
  last-HoldsObjects cs c split room =
      let sound : All (Sound m) (cs ++ c ∷ []) = rw split at holds.sound in
      let apart : ChunksApart (cs ++ c ∷ []) = rw split at holds.apart in
      let tiled : AllTiled m.byte (cs ++ c ∷ []) objects = rw split at holds.tiled in
      let before = All-append_left (Sound m) cs (c ∷ []) sound in
      let own = (All-append_right (Sound m) cs (c ∷ []) sound).0 in
      let p = c.mem + c.used in
      let g = header_bytes m.byte p total type in
      let (os, ps, e, left, right) = AllTiled-split m.byte cs c tiled in
      record {
        sound = All-append (Sound m) cs (used_up c total ∷ []) before ((room, own.1), tt);
        apart = ChunksApart-used_up cs c total apart;
        tiled =
            rw (e, append_assoc os ps (p ∷ []))
              (AllTiled-append g cs (used_up c total)
                (AllTiled-Agrees m.byte g cs
                  (header_bytes-AllAgrees m.byte c.mem p total type m cs before
                    (last-Apart cs c apart) (omega arith) (omega arith))
                  left)
                (Tiled-append g c.mem c.used total
                  ((header_bytes-HasHeader m.byte p total type (omega arith) small).size) big
                  (Tiled-Agrees m.byte g c (header_bytes-below m.byte total type c) right)));
      }

  malloc-some :
      (p : ℕ)
      → m.supply m.calls ≡ some p
      → (malloc chunk_size m).1
        ≡ record m { calls = m.calls + 1; blocks = (p, chunk_size) ∷ m.blocks }
  unfolding malloc
  malloc-some p e = rw (e, malloc) refl

  Sound-malloc :
      (p : ℕ) (cs : List Chunk)
      → All (Sound m) cs
      → All (Sound (record m { calls = m.calls + 1; blocks = (p, chunk_size) ∷ m.blocks })) cs
  unfolding live
  Sound-malloc p [] sound = tt
  Sound-malloc p (c ∷ cs) sound =
      ((sound.0.0, ground (arith, sound.0.1)), Sound-malloc p cs sound.1)

  new-HoldsObjects :
      (p : ℕ)
      → m.supply m.calls ≡ some p
      → All (BlockApart p) h.chunks
      → HoldsObjects
          (arena h (h.chunks ++ fresh p total ∷ []) total)
          (with_header p total type (malloc chunk_size m).1)
          (objects ++ p ∷ [])
  unfolding live
  new-HoldsObjects p e apart =
      let m' : Ram = record m { calls = m.calls + 1; blocks = (p, chunk_size) ∷ m.blocks } in
      let g = header_bytes m.byte p total type in
      let size = (header_bytes-HasHeader m.byte p total type (omega arith) small).size in
      rw (malloc-some p e) (record {
        sound =
            All-append (Sound m') h.chunks (fresh p total ∷ [])
              (Sound-malloc p h.chunks holds.sound) ((le, ground arith), tt);
        apart = ChunksApart-fresh h.chunks p total apart holds.apart;
        tiled =
            AllTiled-append g h.chunks (fresh p total)
              (AllTiled-Agrees m.byte g h.chunks
                (header_bytes-AllAgrees m.byte p p total type m h.chunks holds.sound apart
                  (omega arith) (omega arith))
                holds.tiled)
              (first-Tiled g p total size big);
      })

  Outcome-HoldsObjects :
      {r : Result (ℕ × Heap × Ram)}
      → ((q : ℕ) → m.supply m.calls ≡ some q → All (BlockApart q) h.chunks)
      → Outcome h total type m r
      → Yields (λ (p, h', m'). HoldsObjects h' m' (objects ++ (p - 16) ∷ [])) r
  Outcome-HoldsObjects clear (in_last cs c split room) =
      value _ (rw (object_of (c.mem + c.used)) (last-HoldsObjects cs c split room))
  Outcome-HoldsObjects clear (in_new p e) =
      value _ (rw (object_of p) (new-HoldsObjects p e (clear p e)))
  Outcome-HoldsObjects clear (refused e) = raised _

-- Where a half-space holds objects, an allocation of at most a chunk that succeeds leaves one that
-- holds these and the new one, whose header is 16 bytes before the address that is returned; and
-- getAllObjects finds exactly these, within its fuel. The block that malloc may give has to be apart
-- from the chunks.
pub heap_alloc-all_objects :
    (h : Heap) (size type : ℕ) (m : Ram) (objects : List ℕ) (p : ℕ) (h' : Heap) (m' : Ram)
    → HoldsObjects h m objects
    → size + 16 ≤ chunk_size
    → type < 2 ^ 16
    → ((q : ℕ) → m.supply m.calls ≡ some q → All (BlockApart q) h.chunks)
    → heap_alloc h size type m ≡ ok (p, h', m')
    → HoldsObjects h' m' (objects ++ (p - 16) ∷ [])
      × (all_objects h'.chunks m' ≡ ok (objects ++ (p - 16) ∷ []))
heap_alloc-all_objects h size type m objects p h' m' holds fits small clear e =
    let total = (size + 16 + 7) / 8 * 8 in
    let after : HoldsObjects h' m' (objects ++ (p - 16) ∷ []) =
      Yields-ok (heap_alloc h size type m)
        (Outcome-HoldsObjects h total type m objects holds (omega arith) (omega arith) small clear
          (heap_alloc-Outcome h size type m holds.sound fits small))
        e in
    (after, all_objects-AllTiled h'.chunks (objects ++ (p - 16) ∷ []) m' after.sound after.tiled)
