-- ===== src/Execution/Moves.antt =====
-- OP_MOV of src/vm/execution.h through a pointer.
use sprout_lang.Prelude.{ℕ, ◌+◌, ◌^◌, ◌≤◌, ◌<◌, ◌≡◌, refl, List, [], ◌∷◌, All, arith, false}
use sprout_lang.Result.{fault, memory_access}
use sprout_lang.Ram.{live, load, store}
use sprout_lang.Values.{encode_pointer}
use sprout_lang.Values.Tags.{encode_pointer-boxed}
use sprout_lang.Vm.{Vm}
use sprout_lang.Execution.{mov}

-- The platform's addresses take 48 bits, as the boxing of pointers presumes.
abbrev pub Address48 : ℕ × ℕ → Type 0
Address48 block = block.0 + block.1 ≤ 2 ^ 48

not-live_high :
    (bs : List (ℕ × ℕ)) (p n : ℕ) → All Address48 bs → 2 ^ 48 ≤ p → 0 < n → live bs p n ≡ false
unfolding live
not-live_high [] p n low high pos = refl
not-live_high ((b, len) ∷ bs) p n low high pos = ground (arith, not-live_high bs p n low.1)

encode_pointer-high : (p : ℕ) → 2 ^ 48 ≤ encode_pointer p
encode_pointer-high p = omega (arith, encode_pointer-boxed p)

-- Where addresses take 48 bits, OP_MOV through a boxed pointer always touches memory that is not
-- there: loading (flag 1), storing (flag 2) and copying (flag 3) use the word, tag and all, as the
-- address.
pub mov_boxed_pointer :
    (vm : Vm) (dst src p q : ℕ)
    → All Address48 vm.memory.blocks
    → vm.reg src ≡ encode_pointer p
    → vm.reg dst ≡ encode_pointer q
    → (mov vm dst src 1 ≡ fault memory_access)
      × (mov vm dst src 2 ≡ fault memory_access)
      × (mov vm dst src 3 ≡ fault memory_access)
unfolding mov load store
mov_boxed_pointer vm dst src p q low from to =
    let unread =
      not-live_high vm.memory.blocks (encode_pointer p) 8 low (encode_pointer-high p)
        (omega arith) in
    let unwritten =
      not-live_high vm.memory.blocks (encode_pointer q) 8 low (encode_pointer-high q)
        (omega arith) in
    (rw (from, unread) refl, rw (from, to, unwritten) refl, rw (from, unread) refl)
