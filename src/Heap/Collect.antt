-- ===== src/Heap/Collect.antt =====
-- src/vm/Heap.cpp: the two-space collector. A `uint64_t*` of the source is a place: a register, a
-- stack slot or an address. Each `while (i < c.used)` runs on fuel; `c.used` rounds are enough for
-- objects of positive size.
use sprout_lang.Prelude.{
  ℕ, zero, suc, ◌+◌, ◌-◌, ◌*◌, ◌%◌, ◌^◌, Bool, true, false, List, [], ◌∷◌, ◌++◌, bit_or, ◌==◌, ltb,
  if◌then◌else◌,
}
use sprout_lang.Result.{Result, ok, out_of_fuel, ensure, ◌>>=◌, ◌>>◌, stack_access}
use sprout_lang.Ram.{Ram, load, store, copy}
use sprout_lang.Values.{is_pointer, decode_pointer, encode_pointer, tag_pointer}
use sprout_lang.Vm.{Vm, Heap, Chunk, update, stack_size}
use sprout_lang.Heap.{heap_alloc, free_heap, obj_header_size, obj_array}

abbrev pub flag_marked : ℕ
flag_marked = 1

-- sizeof(arrayObj): an objHeader, the element type (4 bytes at 16) and the length (4 bytes at 20).
abbrev pub array_obj_size : ℕ
array_obj_size = 24

pub data Place : Type 0 where
  in_reg : ℕ → Place
  in_stack : ℕ → Place
  in_memory : ℕ → Place

-- On a pointer, set the mark of its object and answer true. The header is stepped back to.
unfoldable pub mark_object : ℕ → Ram → Result (Bool × Ram)
mark_object r m =
    if is_pointer r
    then (do
      let hdr = (decode_pointer r + 2 ^ 64 - obj_header_size) % 2 ^ 64
      flags ← load 2 (hdr + 6) m
      m' ← store 2 (hdr + 6) (bit_or flags flag_marked) m
      ok (true, m'))
    else ok (false, m)

unfoldable pub mark_into : Place → ℕ → List Place → Ram → Result (List Place × Ram)
unfolding mark_object
mark_into place r found m = do
  (hit, m') ← mark_object r m
  ok (if hit then found ++ place ∷ [] else found, m')

-- The objects of a chunk from offset i on. `i` is a uint32_t.
unfoldable pub chunk_objects : ℕ → Chunk → ℕ → Ram → Result (List ℕ)
chunk_objects zero c i m = if ltb i c.used then out_of_fuel else ok []
chunk_objects (suc fuel) c i m =
    let rest = (do
      size ← load 4 (c.mem + i) m
      objects ← chunk_objects fuel c ((i + size) % 2 ^ 32) m
      ok ((c.mem + i) ∷ objects)) in
    if ltb i c.used then rest else ok []

unfoldable pub all_objects : List Chunk → Ram → Result (List ℕ)
unfolding chunk_objects
all_objects [] m = ok []
all_objects (c ∷ cs) m = do
  objects ← chunk_objects c.used c 0 m
  others ← all_objects cs m
  ok (objects ++ others)

-- The registers from i on, `rounds` of them.
unfoldable pub mark_regs : ℕ → ℕ → (ℕ → ℕ) → List Place → Ram → Result (List Place × Ram)
unfolding mark_into
mark_regs zero i reg found m = ok (found, m)
mark_regs (suc rounds) i reg found m = do
  (found', m') ← mark_into (in_reg i) (reg i) found m
  mark_regs rounds (i + 1) reg found' m'

unfoldable pub mark_stack : ℕ → ℕ → (ℕ → ℕ) → List Place → Ram → Result (List Place × Ram)
unfolding mark_into
mark_stack zero i stack found m = ok (found, m)
mark_stack (suc rounds) i stack found m = do
  ensure (ltb i stack_size) stack_access
  (found', m') ← mark_into (in_stack i) (stack i) found m
  mark_stack rounds (i + 1) stack found' m'

-- The elements of an array object from index i on; the length is read in each round.
unfoldable pub mark_elements : ℕ → ℕ → ℕ → List Place → Ram → Result (List Place × Ram)
unfolding mark_into
mark_elements zero array i found m = out_of_fuel
mark_elements (suc fuel) array i found m = do
  len ← load 4 (array + 20) m
  let slot = array + array_obj_size + i * 8
  let rest : Result (List Place × Ram) = (do
    r ← load 8 slot m
    (found', m') ← mark_into (in_memory slot) r found m
    mark_elements fuel array (i + 1) found' m')
  if ltb i len then rest else ok (found, m)

unfoldable pub mark_array : ℕ → List Place → Ram → Result (List Place × Ram)
unfolding mark_elements
mark_array object found m = do
  type ← load 2 (object + 4) m
  if type == obj_array
      then (do
        element_type ← load 4 (object + 16) m
        if element_type == tag_pointer
            then mark_elements (2 ^ 32) object 0 found m
            else ok (found, m))
      else ok (found, m)

unfoldable pub mark_arrays : List ℕ → List Place → Ram → Result (List Place × Ram)
unfolding mark_array
mark_arrays [] found m = ok (found, m)
mark_arrays (object ∷ objects) found m = do
  (found', m') ← mark_array object found m
  mark_arrays objects found' m'

unfoldable pub mark_objects : Vm → Result (List Place × Ram)
unfolding all_objects mark_regs mark_stack mark_arrays
mark_objects vm = do
  let h = if vm.heap_a_used then vm.heap_a else vm.heap_b
  objects ← all_objects h.chunks vm.memory
  (found, m) ← mark_regs 256 0 vm.reg [] vm.memory
  (found, m) ← mark_stack vm.sp 0 vm.stack found m
  mark_arrays objects found m

-- One object of the evacuated space: copied behind a fresh header if it is marked.
unfoldable pub move_object : ℕ → ℕ → Heap → Ram → Result (Heap × Ram)
move_object obj size h2 m = do
  flags ← load 2 (obj + 6) m
  if flags == flag_marked
      then (do
        let payload = (size + 2 ^ 64 - obj_header_size) % 2 ^ 64
        type ← load 2 (obj + 4) m
        (new_addr, h2, m) ← heap_alloc h2 payload type m
        m ← copy new_addr (obj + obj_header_size) payload m
        m ← store 8 (obj + 8) (encode_pointer new_addr) m
        ok (h2, m))
      else ok (h2, m)

unfoldable pub move_chunk : ℕ → Chunk → ℕ → Heap → Ram → Result (Heap × Ram)
unfolding move_object
move_chunk zero c i h2 m = if ltb i c.used then out_of_fuel else ok (h2, m)
move_chunk (suc fuel) c i h2 m =
    let rest = (do
      size ← load 4 (c.mem + i) m
      (h2', m') ← move_object (c.mem + i) size h2 m
      size' ← load 4 (c.mem + i) m'
      move_chunk fuel c ((i + size') % 2 ^ 32) h2' m') in
    if ltb i c.used then rest else ok (h2, m)

unfoldable pub move_objects : List Chunk → Heap → Ram → Result (Heap × Ram)
unfolding move_chunk
move_objects [] h2 m = ok (h2, m)
move_objects (c ∷ cs) h2 m = do (h2', m') ← move_chunk c.used c 0 h2 m; move_objects cs h2' m'

-- A read and a write through a place.
unfoldable pub read_place : Place → Vm → Result ℕ
read_place (in_reg i) vm = ok (vm.reg i)
read_place (in_stack i) vm = ok (vm.stack i)
read_place (in_memory a) vm = load 8 a vm.memory

unfoldable pub write_place : Place → ℕ → Vm → Result Vm
write_place (in_reg i) v vm = ok (record vm { reg = update vm.reg i v })
write_place (in_stack i) v vm = ok (record vm { stack = update vm.stack i v })
write_place (in_memory a) v vm = do m ← store 8 a v vm.memory; ok (record vm { memory = m })

unfoldable pub update_places : List Place → Vm → Result Vm
unfolding read_place write_place
update_places [] vm = ok vm
update_places (place ∷ places) vm = do
  r ← read_place place vm
  let hdr = (decode_pointer r + 2 ^ 64 - obj_header_size) % 2 ^ 64
  forwarded ← load 8 (hdr + 8) vm.memory
  vm' ← write_place place forwarded vm
  update_places places vm'

-- Patch the places, then free the evacuated space.
unfoldable pub update_ptr_holder : Heap → List Place → Vm → Result (Heap × Vm)
unfolding update_places
update_ptr_holder h places vm = do
  vm' ← update_places places vm
  let (h', m) = free_heap h vm'.memory
  ok (h', record vm' { memory = m })

unfoldable pub compacting_garbage_collect : Vm → Result Vm
unfolding mark_objects move_objects update_ptr_holder
compacting_garbage_collect vm = do
  (places, m) ← mark_objects vm
  if vm.heap_a_used
      then (do
        (heap_b, m') ← move_objects vm.heap_a.chunks vm.heap_b m
        (heap_a, vm') ← update_ptr_holder vm.heap_a places (record vm { memory = m' })
        ok (record vm' { heap_a = heap_a; heap_b = heap_b; heap_a_used = false }))
      else (do
        (heap_a, m') ← move_objects vm.heap_b.chunks vm.heap_a m
        (heap_b, vm') ← update_ptr_holder vm.heap_b places (record vm { memory = m' })
        ok (record vm' { heap_a = heap_a; heap_b = heap_b; heap_a_used = true }))
