-- ===== src/Heap/Arrays.antt =====
-- src/vm/Heap.cpp: allocation with collection, and the array instructions. An array's word holds
-- the address behind its objHeader, and the code reads an arrayObj there: a second header of 16
-- bytes, the element type at 16, the length at 20 and the elements from 24 on.
use sprout_lang.Prelude.{ℕ, ◌+◌, ◌*◌, ◌%◌, ◌^◌, Bool, true, false, ◌==◌, ltb, if◌then◌else◌}
use sprout_lang.Prelude.Int.{pos, ltb_ℤ}
use sprout_lang.Result.{Result, ok, check, ◌>>=◌, ◌>>◌, index_out_of_bounds}
use sprout_lang.Ram.{load, store, clear}
use sprout_lang.Values.{decode_int, decode_pointer, encode_pointer, unsigned64}
use sprout_lang.Vm.{Vm, Heap, set_reg}
use sprout_lang.Heap.{heap_alloc, obj_array}
use sprout_lang.Heap.Collect.{compacting_garbage_collect, array_obj_size}

-- The active half-space, and its replacement after an allocation.
unfoldable pub active : Vm → Heap
active vm = if vm.heap_a_used then vm.heap_a else vm.heap_b

unfoldable pub set_active : Heap → Vm → Vm
set_active h vm = if vm.heap_a_used then record vm { heap_a = h } else record vm { heap_b = h }

-- `totalAllocated > max * 0.7`, compared as exact fractions. For the one maximum in the source,
-- 512 MB, that is the comparison of the rounded doubles.
unfoldable pub needs_collection : Heap → Bool
needs_collection h = ltb (7 * h.max) (10 * h.total_allocated)

unfoldable pub gc_collected_heap_alloc : ℕ → ℕ → Vm → Result (ℕ × Vm)
unfolding active set_active needs_collection
gc_collected_heap_alloc size type vm = do
  vm ← if needs_collection (active vm) then compacting_garbage_collect vm else ok vm
  (p, h, m) ← heap_alloc (active vm) size type vm.memory
  ok (p, set_active h (record vm { memory = m }))

unfoldable pub init_array : Vm → ℕ → ℕ → ℕ → Result Vm
unfolding gc_collected_heap_alloc
init_array vm dst len type = do
  let length = unsigned64 (decode_int (vm.reg len))
  let data_size = (length * 8 + 4 * 2) % 2 ^ 64
  (ptr, vm) ← gc_collected_heap_alloc data_size obj_array vm
  m ← store 4 (ptr + 20) (length % 2 ^ 32) vm.memory
  m ← store 4 (ptr + 16) (unsigned64 (decode_int (vm.reg type)) % 2 ^ 32) m
  m ← clear (ptr + array_obj_size) (length * 8 % 2 ^ 64) m
  ok (set_reg dst (encode_pointer ptr) (record vm { memory = m }))

-- `flag` 0 writes the element, 1 reads it; any other does nothing.
unfoldable pub move_array : Vm → ℕ → ℕ → ℕ → ℕ → Result Vm
move_array vm target address index flag = do
  let base = decode_pointer (vm.reg address)
  let idx = decode_int (vm.reg index)
  let element = (base + array_obj_size + unsigned64 idx * 8) % 2 ^ 64
  length ← load 4 (base + 20) vm.memory
  check (if ltb_ℤ (pos length) idx then false else true) index_out_of_bounds
  if flag == 0
      then (do m ← store 8 element (vm.reg target) vm.memory; ok (record vm { memory = m }))
      else if flag == 1
      then (do v ← load 8 element vm.memory; ok (set_reg target v vm))
      else ok vm
