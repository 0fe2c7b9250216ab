-- ===== src/Examples/HeapExamples.antt =====
-- Examples for src/vm/Heap.cpp.
use sprout_lang.Prelude.{
  ℕ, ◌++◌, back, set_back, ◌+◌, ◌-◌, ◌*◌, ◌/◌, ◌≡◌, refl, [], ◌∷◌, ◌==◌, ltb, if◌then◌else◌, arith,
}
use sprout_lang.Prelude.Int.{pos, negsuc}
use sprout_lang.Result.{Result, ok, thrown, index_out_of_bounds}
use sprout_lang.Ram.{Ram, malloc, store, live, read_bytes, write_bytes}
use sprout_lang.Ram.Laws.{read_bytes-write_bytes_same}
use sprout_lang.Values.{encode_pointer}
use sprout_lang.Vm.{Heap, Vm, set_reg}
use sprout_lang.Heap.{heap_alloc, needs_chunk, alloc_new_chunk, place, bump, align}
use sprout_lang.Heap.Collect.{all_objects}
use sprout_lang.Heap.Objects.{HoldsObjects, no_chunk}
use sprout_lang.Heap.Walk.{heap_alloc-all_objects}
use sprout_lang.Heap.Alloc.{Outcome, header_bytes, heap_alloc-Outcome}
use sprout_lang.Heap.Arrays.{move_array, init_array}
use sprout_lang.Heap.Elements.{
  HoldsArray, access, box_index, element, with_element, move_array_bounds, read-insert,
  negative_index_unchecked,
}
use sprout_lang.Run.{empty_heap}
use sprout_lang.Examples.{blank, spare}

heap_alloc-Outcome_example :
    Outcome empty_heap ((40 + 16 + 7) / 8 * 8) 1 spare (heap_alloc empty_heap 40 1 spare)
heap_alloc-Outcome_example = heap_alloc-Outcome empty_heap 40 1 spare tt (omega arith) (omega arith)

-- A machine with an array of three elements at 65552, pointed to by r0; r1 to r4 hold 0, 2, 4, -1.
abbrev cells : ℕ → ℕ
cells = write_bytes (λ x. 0) 4 65572 3

abbrev words : ℕ → ℕ
words i =
    if i == 0
    then encode_pointer 65552
    else if i == 1
    then box_index (pos 0)
    else if i == 2
    then box_index (pos 2)
    else if i == 3
    then box_index (pos 4)
    else if i == 4
    then box_index (negsuc 0)
    else 99

abbrev holding : Vm
holding = record blank {
  reg = words;
  memory = record spare { byte = cells; blocks = (65536, 4194304) ∷ [] };
}

holding-HoldsArray : HoldsArray holding 0 65552 3
unfolding live
holding-HoldsArray = record {
  word = refl;
  small = omega arith;
  live_length = refl;
  length = read_bytes-write_bytes_same (λ x. 0) 4 65572 3 (omega arith);
}

move_array_bounds_example :
    move_array holding 9 0 3 1
    ≡ (if ltb 3 4 then thrown index_out_of_bounds else access holding 9 (element 65552 4) 1)
move_array_bounds_example =
    move_array_bounds holding 9 0 3 1 65552 3 4 holding-HoldsArray refl (omega arith)

read-insert_example :
    (move_array holding 9 0 1 0 ≡ ok (with_element holding 65552 0 99))
    × (move_array (with_element holding 65552 0 99) 8 0 2 1
        ≡ ok (
            set_reg 8
              (if 0 == 2 then 99 else read_bytes cells 8 (element 65552 2))
              (with_element holding 65552 0 99)))
unfolding live
read-insert_example =
    read-insert holding 9 8 0 1 2 65552 3 0 2 holding-HoldsArray refl refl refl (omega arith)
      (omega arith) (omega arith)

negative_index_unchecked_example :
    move_array holding 9 0 4 1 ≡ access holding 9 (65552 + 24 - (8 * 0 + 8)) 1
negative_index_unchecked_example =
    negative_index_unchecked holding 9 0 4 1 65552 3 0 holding-HoldsArray refl (omega arith)
      (omega arith)

-- The first object of an empty half-space.
abbrev one_object : Heap
one_object = record empty_heap {
  chunks = record { mem = 65536; used = 56; capacity = 4194304 } ∷ [];
  total_allocated = 56;
}

abbrev one_header : Ram
one_header = record spare {
  byte = header_bytes (λ x. 0) 65536 56 1;
  blocks = (65536, 4194304) ∷ [];
  calls = 1;
}

first_allocation : heap_alloc empty_heap 40 1 spare ≡ ok (65552, one_object, one_header)
unfolding heap_alloc needs_chunk alloc_new_chunk place bump align malloc store live back set_back
first_allocation = refl

empty_heap-HoldsObjects : HoldsObjects empty_heap spare []
empty_heap-HoldsObjects = record { sound = tt; apart = tt; tiled = no_chunk }

heap_alloc-all_objects_example :
    HoldsObjects one_object one_header ([] ++ (65552 - 16) ∷ [])
    × (all_objects one_object.chunks one_header ≡ ok ([] ++ (65552 - 16) ∷ []))
heap_alloc-all_objects_example =
    heap_alloc-all_objects empty_heap 40 1 spare [] 65552 one_object one_header
      empty_heap-HoldsObjects (omega arith) (omega arith) (λ q e. tt) first_allocation

-- Lengths of three in every register.
abbrev threes : Vm
threes = record blank { reg = λ i. box_index (pos 3) }

abbrev value_of : Result Vm → Vm
value_of (ok vm) = vm
value_of _ = blank

with_array : Vm
with_array = value_of (init_array threes 0 1 2)
