-- ===== src/Execution/Compare.antt =====
-- OP_CMP and the conditional jumps of src/vm/execution.h together.
use sprout_lang.Prelude.{◌≡◌, refl, ap, Bool, true, false, not, if◌then◌else◌, arith}
use sprout_lang.Prelude.Int.{ℤ, pos, negsuc, ltb_ℤ}
use sprout_lang.Result.{ok}
use sprout_lang.Values.{is_double, is_int, is_bool, encode_bool, decode_bool}
use sprout_lang.Values.Boxing.{InInt48, decode_int-encode_int}
use sprout_lang.Vm.{Vm}
use sprout_lang.Execution.{
  Doubles, eq_ℤ, compare_flag, compare, same_bool, jump_if, je, jne, jl, jg,
}
use sprout_lang.Execution.Ints.{box, box-is_int}

-- The state after OP_CMP with a given flag.
abbrev pub flagged : Vm → ℤ → Vm
flagged vm flag = record vm { jmp_flag = flag }

-- The four jumps take their branch exactly under the given tests.
abbrev pub Jumps : Vm → Bool → Bool → Bool → Type 0
Jumps vm equal below above =
    (je vm ≡ jump_if equal vm)
    × (jne vm ≡ jump_if (not equal) vm)
    × (jl vm ≡ jump_if below vm)
    × (jg vm ≡ jump_if above vm)

unfoldable pub int_flag : ℤ → ℤ → ℤ
int_flag i j =
    if eq_ℤ i j then pos 1 else if ltb_ℤ i j then negsuc 0 else if ltb_ℤ j i then pos 2 else pos 0

pub compare_flag-box :
    (F : Doubles) (i j : ℤ)
    → InInt48 i
    → InInt48 j
    → compare_flag F (box i) (box j) ≡ ok (int_flag i j)
unfolding compare_flag int_flag
compare_flag-box F i j hi hj =
    let (di, ti) = box-is_int i hi in
    let (dj, tj) = box-is_int j hj in
    rw (di, ti, tj, (decode_int-encode_int i hi).0, (decode_int-encode_int j hj).0) refl

-- The flag of two ints, tested as the jumps do.
int_flag_tests :
    (i j : ℤ)
    → (eq_ℤ (int_flag i j) (pos 1) ≡ eq_ℤ i j)
      × ((if eq_ℤ (int_flag i j) (pos 1) then false else true) ≡ not (eq_ℤ i j))
      × (eq_ℤ (int_flag i j) (negsuc 0) ≡ ltb_ℤ i j)
      × (eq_ℤ (int_flag i j) (pos 2) ≡ ltb_ℤ j i)
unfolding int_flag
int_flag_tests i j = ground arith

int_flag-Jumps :
    (vm : Vm) (i j : ℤ) → Jumps (flagged vm (int_flag i j)) (eq_ℤ i j) (ltb_ℤ i j) (ltb_ℤ j i)
unfolding je jne jl jg
int_flag-Jumps vm i j =
    let after = flagged vm (int_flag i j) in
    let t = int_flag_tests i j in
    (
      ap (λ b. jump_if b after) t.0,
      ap (λ b. jump_if b after) t.1,
      ap (λ b. jump_if b after) t.2,
      ap (λ b. jump_if b after) t.3,
    )

-- After OP_CMP of two boxed ints, `je` jumps exactly if they are equal, `jne` if they are not,
-- `jl` if the first is below the second and `jg` if it is above; only the flag has changed.
pub compare-Jumps :
    (F : Doubles) (vm : Vm) (i j : ℤ)
    → InInt48 i
    → InInt48 j
    → (vm' : Vm) × (compare F vm (box i) (box j) ≡ ok vm')
      × (vm' ≡ flagged vm vm'.jmp_flag)
      × Jumps vm' (eq_ℤ i j) (ltb_ℤ i j) (ltb_ℤ j i)
unfolding compare
compare-Jumps F vm i j hi hj =
    (flagged vm (int_flag i j), rw (compare_flag-box F i j hi hj) refl, refl, int_flag-Jumps vm i j)

-- After OP_CMP of two boxed booleans, `je` jumps exactly if they are the same and `jne` if they
-- are not; `jl` and `jg` never jump.
pub compare_bool-Jumps :
    (F : Doubles) (vm : Vm) (b c : Bool)
    → (vm' : Vm) × (compare F vm (encode_bool b) (encode_bool c) ≡ ok vm')
      × (vm' ≡ flagged vm vm'.jmp_flag)
      × Jumps vm' (same_bool b c) false false
unfolding compare compare_flag is_double is_int is_bool encode_bool decode_bool je jne jl jg
compare_bool-Jumps F vm true true = (flagged vm (pos 1), refl, refl, (refl, refl, refl, refl))
compare_bool-Jumps F vm true false = (flagged vm (pos 0), refl, refl, (refl, refl, refl, refl))
compare_bool-Jumps F vm false true = (flagged vm (pos 0), refl, refl, (refl, refl, refl, refl))
compare_bool-Jumps F vm false false = (flagged vm (pos 1), refl, refl, (refl, refl, refl, refl))
