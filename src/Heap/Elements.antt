-- ===== src/Heap/Elements.antt =====
-- Array elements of src/vm/Heap.cpp: bounds, reads after writes, and where the elements lie.
use sprout_lang.Prelude.{
  ℕ, ◌+◌, ◌-◌, ◌*◌, ◌%◌, ◌^◌, ◌≤◌, ◌<◌, ◌≡◌, refl, ap, ◌∙◌, inl, inr, true, false, if◌then◌else◌,
  ◌==◌, ltb, Bool-cases, ==_iff, arith,
}
use sprout_lang.Prelude.Int.{ℤ, pos, negsuc, ltb_ℤ}
use sprout_lang.Result.{Result, ok, thrown, ◌>>=◌, ◌>>◌, check, index_out_of_bounds}
use sprout_lang.Ram.{live, read_bytes, write_bytes, load, store}
use sprout_lang.Ram.Laws.{
  read_bytes-write_bytes_same, read_bytes-write_bytes_apart, live_part, store-live, load-live,
}
use sprout_lang.Values.{decode_int, encode_int, encode_pointer, unsigned64}
use sprout_lang.Values.Boxing.{decode_int-encode_int, decode_pointer-encode_pointer}
use sprout_lang.Vm.{Vm, set_reg}
use sprout_lang.Heap.Arrays.{move_array}

-- A signed index as a register word.
abbrev pub box_index : ℤ → ℕ
box_index i = encode_int (unsigned64 i)

-- Register a holds a pointer to an array object at p of the given length, below 2 ^ 47.
pub record HoldsArray (vm : Vm) (a p len : ℕ) : Type 0 where
  pub word : vm.reg a ≡ encode_pointer p
  pub small : p + 32 + 8 * len < 2 ^ 47
  pub live_length : live vm.memory.blocks (p + 20) 4 ≡ true
  pub length : read_bytes vm.memory.byte 4 (p + 20) ≡ len

abbrev pub element : ℕ → ℕ → ℕ
element p i = p + 24 + 8 * i

-- The part of moveArray behind the bounds check, at a given address.
pub access : Vm → ℕ → ℕ → ℕ → Result Vm
access vm target e flag =
    if flag == 0
    then (store 8 e (vm.reg target) vm.memory >>= λ m. ok (record vm { memory = m }))
    else if flag == 1
    then (load 8 e vm.memory >>= λ v. ok (set_reg target v vm))
    else ok vm

move_array-access :
    (vm : Vm) (target a x flag p len : ℕ) (i : ℤ) (e : ℕ)
    → HoldsArray vm a p len
    → vm.reg x ≡ box_index i
    → decode_int (box_index i) ≡ i
    → (p + 24 + unsigned64 i * 8) % 2 ^ 64 ≡ e
    → move_array vm target a x flag ≡ (
        check (if ltb_ℤ (pos len) i then false else true) index_out_of_bounds
        >> access vm target e flag)
unfolding move_array access load
move_array-access vm target a x flag p len i e h hx hi he =
    rw
      (
        h.word,
        hx,
        (decode_pointer-encode_pointer p (omega arith)).0,
        hi,
        h.live_length,
        h.length,
        he,
      )
      refl

pub index_of_box : (i : ℕ) → i < 2 ^ 47 → decode_int (box_index (pos i)) ≡ pos i
index_of_box i h = (decode_int-encode_int (pos i) (omega arith)).0

-- The bounds check of the array instructions lets the indices 0 to the length through, the length
-- itself included; every greater index is refused with an exception.
pub move_array_bounds :
    (vm : Vm) (target a x flag p len i : ℕ)
    → HoldsArray vm a p len
    → vm.reg x ≡ box_index (pos i)
    → i < 2 ^ 47
    → move_array vm target a x flag
      ≡ (if ltb len i then thrown index_out_of_bounds else access vm target (element p i) flag)
move_array_bounds vm target a x flag p len i h hx hi =
    move_array-access vm target a x flag p len (pos i) (element p i) h hx (index_of_box i hi) at
    ∙ checked
  where
    at : (p + 24 + unsigned64 (pos i) * 8) % 2 ^ 64 ≡ element p i
    at = omega arith

    checked :
        (check (if ltb_ℤ (pos len) (pos i) then false else true) index_out_of_bounds
          >> access vm target (element p i) flag)
        ≡ (if ltb len i then thrown index_out_of_bounds else access vm target (element p i) flag)
    checked = ground arith

-- The state after the word v is written to element i of the array at p.
abbrev pub with_element : Vm → ℕ → ℕ → ℕ → Vm
with_element vm p i v = record vm {
  memory = record vm.memory { byte = write_bytes vm.memory.byte 8 (element p i) v };
}

pub insert_access :
    (vm : Vm) (src p i : ℕ)
    → live vm.memory.blocks (element p i) 8 ≡ true
    → access vm src (element p i) 0 ≡ ok (with_element vm p i (vm.reg src))
unfolding access
insert_access vm src p i h = rw (store-live 8 (element p i) (vm.reg src) vm.memory h) refl

pub read_access :
    (vm : Vm) (dst p i : ℕ)
    → live vm.memory.blocks (element p i) 8 ≡ true
    → access vm dst (element p i) 1
      ≡ ok (set_reg dst (read_bytes vm.memory.byte 8 (element p i)) vm)
unfolding access
read_access vm dst p i h = rw (load-live 8 (element p i) vm.memory h) refl

-- Element j after a write to element i.
element_after :
    (f : ℕ → ℕ) (p i j v : ℕ)
    → v < 2 ^ 64
    → read_bytes (write_bytes f 8 (element p i) v) 8 (element p j)
      ≡ (if i == j then v else read_bytes f 8 (element p j))
element_after f p i j v h = elim (Bool-cases (i == j)) [
  | inl same ↦
      rw (same, ← (==_iff i j).0 same)
        (read_bytes-write_bytes_same f 8 (element p i) v (omega arith))
  | inr other ↦
      rw other (read_bytes-write_bytes_apart f 8 (element p i) v 8 (element p j) (ground arith))
]

-- Where the words of all elements lie in live memory, OP_ARR_INSERT at an index below the length
-- writes the element, and OP_ARR_READ afterwards finds it there; at another index below the length
-- it finds what was there before.
pub read-insert :
    (vm : Vm) (src dst a x y p len i j : ℕ)
    → HoldsArray vm a p len
    → live vm.memory.blocks (element p 0) (8 * len) ≡ true
    → vm.reg x ≡ box_index (pos i)
    → vm.reg y ≡ box_index (pos j)
    → i < len
    → j < len
    → vm.reg src < 2 ^ 64
    → (move_array vm src a x 0 ≡ ok (with_element vm p i (vm.reg src)))
      × (move_array (with_element vm p i (vm.reg src)) dst a y 1
          ≡ ok (
              set_reg dst
                (if i == j then vm.reg src else read_bytes vm.memory.byte 8 (element p j))
                (with_element vm p i (vm.reg src))))
read-insert vm src dst a x y p len i j h area hx hy hi hj hv = (
  move_array_bounds vm src a x 0 p len i h hx (omega arith)
      ∙ in_range i hi _
      ∙ insert_access vm src p i (part i hi),
  move_array_bounds (with_element vm p i (vm.reg src)) dst a y 1 p len j (kept h) hy (omega arith)
      ∙ in_range j hj _
      ∙ read_access (with_element vm p i (vm.reg src)) dst p j (part j hj)
      ∙ ap (λ v. ok (set_reg dst v (with_element vm p i (vm.reg src))))
          (element_after vm.memory.byte p i j (vm.reg src) hv),
)
  where
    part : (k : ℕ) → k < len → live vm.memory.blocks (element p k) 8 ≡ true
    part k hk =
        live_part vm.memory.blocks (element p 0) (8 * len) (element p k) 8 area (omega arith)
          (omega arith)

    in_range :
        (k : ℕ)
        → k < len
        → (r : Result Vm) → (if ltb len k then thrown index_out_of_bounds else r) ≡ r
    in_range k hk r = ground arith

    kept : HoldsArray vm a p len → HoldsArray (with_element vm p i (vm.reg src)) a p len
    kept k = record {
      word = k.word;
      small = k.small;
      live_length = k.live_length;
      length =
          read_bytes-write_bytes_apart vm.memory.byte 8 (element p i) (vm.reg src) 4 (p + 20)
            (omega arith)
          ∙ k.length;
    }

-- A negative index passes the bounds check: the instruction goes on to the bytes before the elements.
pub negative_index_unchecked :
    (vm : Vm) (target a x flag p len n : ℕ)
    → HoldsArray vm a p len
    → vm.reg x ≡ box_index (negsuc n)
    → n < 2 ^ 47
    → 8 * n + 8 ≤ p + 24
    → move_array vm target a x flag ≡ access vm target (p + 24 - (8 * n + 8)) flag
negative_index_unchecked vm target a x flag p len n h hx hn inside =
    move_array-access vm target a x flag p len (negsuc n) (p + 24 - (8 * n + 8)) h hx
      ((decode_int-encode_int (negsuc n) (omega arith)).0) (omega arith)
    ∙ unchecked
  where
    unchecked :
        (check (if ltb_ℤ (pos len) (negsuc n) then false else true) index_out_of_bounds
          >> access vm target (p + 24 - (8 * n + 8)) flag)
        ≡ access vm target (p + 24 - (8 * n + 8)) flag
    unchecked = ground arith
