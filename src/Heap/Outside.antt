-- ===== src/Heap/Outside.antt =====
-- initArray of src/vm/Heap.cpp: where the elements of an array lie and where its object ends.
use sprout_lang.Prelude.{ℕ, ◌+◌, ◌≤◌, ◌≡◌, some, back}
use sprout_lang.Result.{Result}
use sprout_lang.Ram.{Ram}
use sprout_lang.Values.{encode_pointer}
use sprout_lang.Vm.{Vm, Heap, Chunk}
use sprout_lang.Heap.Arrays.{active}
use sprout_lang.Heap.Elements.{element}

-- The last chunk of a half-space is used up to this address.
abbrev pub UsedUpTo : Heap → ℕ → Type 0
UsedUpTo h e = (c : Chunk) × (back h.chunks ≡ some c) × (c.mem + c.used ≡ e)

-- Register `dst` points to an array whose element i lies behind all that is used of the last chunk.
abbrev pub LiesOutside : ℕ → ℕ → Vm → Type 0
LiesOutside dst i vm =
    (p : ℕ) × (vm.reg dst ≡ encode_pointer p)
    × (c : Chunk) × (back (active vm).chunks ≡ some c)
    × (c.mem + c.used ≤ element p i)
