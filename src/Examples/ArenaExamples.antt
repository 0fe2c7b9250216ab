-- ===== src/Examples/ArenaExamples.antt =====
-- Examples for src/compiler/memManager.cpp.
use sprout_lang.Prelude.{◌+◌, ◌*◌, ◌/◌, ◌≡◌, refl, [], ◌∷◌, back, set_back, arith}
use sprout_lang.Result.{ok}
use sprout_lang.Ram.{Ram, malloc}
use sprout_lang.MemManager.{
  Memory, align, needs_chunk, alloc_chunk, place, take_from, allocate_memory,
}
use sprout_lang.MemManager.Outcome.{Outcome, fresh, allocate_memory-Outcome}
use sprout_lang.MemManager.Disjoint.{Apart, MallocApart, allocate_memory-Apart}
use sprout_lang.Examples.{spare}

abbrev no_memory : Memory
no_memory = record { chunks = []; allocated = 0; max = 0 }

allocate_memory-Outcome_example :
    Outcome no_memory ((24 + 7) / 8 * 8) spare (allocate_memory no_memory 24 spare)
allocate_memory-Outcome_example = allocate_memory-Outcome no_memory 24 spare tt (omega arith)

-- Two allocations of 24 and 40 bytes from an empty arena.
abbrev after_one : Memory
after_one = record { chunks = fresh 65536 24 ∷ []; allocated = 24; max = 0 }

abbrev after_two : Memory
after_two = record { chunks = fresh 65536 64 ∷ []; allocated = 64; max = 0 }

abbrev given : Ram
given = record spare { calls = 1; blocks = (65536, 4194304) ∷ [] }

first_run : allocate_memory no_memory 24 spare ≡ ok (65536, after_one, given)
unfolding allocate_memory align needs_chunk alloc_chunk place take_from malloc back set_back
first_run = refl

second_run : allocate_memory after_one 40 given ≡ ok (65560, after_two, given)
unfolding allocate_memory align needs_chunk alloc_chunk place take_from malloc back set_back
second_run = refl

given-MallocApart : MallocApart after_one given
given-MallocApart q h = ground arith

allocate_memory-Apart_example : Apart 65536 24 65560 40
allocate_memory-Apart_example =
    allocate_memory-Apart no_memory 24 40 spare 65536 65560 after_one after_two given given (tt, tt)
      (λ q h. tt) given-MallocApart (omega arith) (omega arith) first_run second_run
