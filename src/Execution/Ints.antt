-- ===== src/Execution/Ints.antt =====
-- The arithmetic instructions of src/vm/execution.h on boxed ints.
use sprout_lang.Prelude.{
  ℕ, suc, ◌+◌, ◌-◌, ◌/◌, ◌%◌, ◌^◌, ◌≡◌, refl, ap, ◌∙◌, Bool-cases, inl, inr, true, false,
  if◌then◌else◌, arith,
}
use native.Mathlib.Nat.{div-le_self, div-zero, zero-div}
use sprout_lang.Prelude.Int.{ℤ, pos, negsuc, pos_part, neg_part, ◌+ℤ◌, ◌-ℤ◌, ◌*ℤ◌}
use sprout_lang.Result.{Result, ok, fault, ◌>>=◌, int_overflow, division}
use sprout_lang.Values.{is_double, is_int, encode_int, decode_int, unsigned64}
use sprout_lang.Values.Tags.{signed48, decode_int-signed48, encode_int-boxed}
use sprout_lang.Values.Boxing.{tests-kind, int48, double, same_kind, InInt48, decode_int-encode_int}
use sprout_lang.Execution.{
  Doubles, fits64, eq_ℤ, checked, ◌/ℤ◌, int_div, arithmetic, add, sub, mul, div,
}

-- An int48 as its word.
abbrev pub box : ℤ → ℕ
box i = encode_int (unsigned64 i)

-- The int48 that an integer wraps to: the residue modulo 2 ^ 48 nearest to 0.
abbrev pub wrap48 : ℤ → ℤ
wrap48 (pos n) = signed48 (n % 2 ^ 48)
wrap48 (negsuc n) = signed48 (2 ^ 48 - 1 - n % 2 ^ 48)

abbrev pub magnitude : ℤ → ℕ
magnitude i = pos_part i + neg_part i

-- Any integer of 64 bits, boxed, reads back wrapped.
pub decode_int-box : (i : ℤ) → decode_int (box i) ≡ wrap48 i
decode_int-box i = rw (encode_int-boxed (unsigned64 i), decode_int-signed48) (ground arith)

pub wrap48_in_range : (i : ℤ) → InInt48 i → wrap48 i ≡ i
wrap48_in_range i h = ground arith

pub box-is_int : (i : ℤ) → InInt48 i → (is_double (box i) ≡ false) × (is_int (box i) ≡ true)
box-is_int i h =
    let k = (decode_int-encode_int i h).1 in
    let t = tests-kind (box i) in
    (t.0 ∙ ap (λ x. same_kind x double) k, t.1 ∙ ap (λ x. same_kind x int48) k)

-- On two boxed ints the instructions compute with the ints, whatever the doubles do.
pub arithmetic-box :
    (on_doubles : ℕ → ℕ → ℕ) (on_ints : ℤ → ℤ → Result ℤ) (i j : ℤ)
    → InInt48 i
    → InInt48 j
    → arithmetic on_doubles on_ints (box i) (box j) ≡ (on_ints i j >>= λ r. ok (box r))
unfolding arithmetic
arithmetic-box on_doubles on_ints i j hi hj =
    let (di, ti) = box-is_int i hi in
    let (dj, tj) = box-is_int j hj in
    rw (di, ti, tj, (decode_int-encode_int i hi).0, (decode_int-encode_int j hj).0) refl

-- A sum or difference of two int48 never overflows an int64.
checked_sum : (i j : ℤ) → InInt48 i → InInt48 j → checked (i +ℤ j) ≡ ok (i +ℤ j)
unfolding checked ◌+ℤ◌
checked_sum i j hi hj = ground arith

checked_difference : (i j : ℤ) → InInt48 i → InInt48 j → checked (i -ℤ j) ≡ ok (i -ℤ j)
unfolding checked ◌-ℤ◌
checked_difference i j hi hj = ground arith

-- OP_ADD and OP_SUB on two boxed ints give the boxed sum and difference, which read back wrapped
-- to 48 bits.
pub add-sub-box :
    (F : Doubles) (i j : ℤ)
    → InInt48 i
    → InInt48 j
    → (add F (box i) (box j) ≡ ok (box (i +ℤ j)))
      × (decode_int (box (i +ℤ j)) ≡ wrap48 (i +ℤ j))
      × (sub F (box i) (box j) ≡ ok (box (i -ℤ j)))
      × (decode_int (box (i -ℤ j)) ≡ wrap48 (i -ℤ j))
unfolding add sub
add-sub-box F i j hi hj = (
  rw (arithmetic-box F.add _ i j hi hj, checked_sum i j hi hj) refl,
  decode_int-box (i +ℤ j),
  rw (arithmetic-box F.sub _ i j hi hj, checked_difference i j hi hj) refl,
  decode_int-box (i -ℤ j),
)

checked-box :
    (r : ℤ)
    → (checked r >>= λ x. ok (box x)) ≡ (if fits64 r then ok (box r) else fault int_overflow)
unfolding checked
checked-box r = elim (Bool-cases (fits64 r)) [ inl e ↦ rw e refl | inr e ↦ rw e refl ]

-- OP_MUL on two boxed ints gives the boxed product where it fits an int64, wrapped to 48 bits when
-- read back; a product beyond that is undefined behaviour.
pub mul-box :
    (F : Doubles) (i j : ℤ)
    → InInt48 i
    → InInt48 j
    → (mul F (box i) (box j) ≡ (if fits64 (i *ℤ j) then ok (box (i *ℤ j)) else fault int_overflow))
      × (decode_int (box (i *ℤ j)) ≡ wrap48 (i *ℤ j))
unfolding mul
mul-box F i j hi hj = (
  rw (arithmetic-box F.mul (λ x y. checked (x *ℤ y)) i j hi hj) (checked-box (i *ℤ j)),
  decode_int-box (i *ℤ j),
)

quotient_bounds :
    (i j : ℤ)
    → InInt48 i
    → (magnitude (i /ℤ j) ≡ magnitude i / magnitude j) × (fits64 (i /ℤ j) ≡ true)
quotient_bounds (pos m) (pos n) h = ground (arith, div-le_self m n, div-zero m, zero-div n)
quotient_bounds (pos m) (negsuc n) h =
    ground (arith, div-le_self m (suc n), div-zero m, zero-div (suc n))
quotient_bounds (negsuc m) (pos n) h =
    ground (arith, div-le_self (suc m) n, div-zero (suc m), zero-div n)
quotient_bounds (negsuc m) (negsuc n) h =
    ground (arith, div-le_self (suc m) (suc n), div-zero (suc m), zero-div (suc n))

int_div_cases :
    (i j : ℤ) → InInt48 i → int_div i j ≡ (if eq_ℤ j (pos 0) then fault division else ok (i /ℤ j))
unfolding int_div checked
int_div_cases i j hi = rw ((quotient_bounds i j hi).1) refl

div_box :
    (i j : ℤ)
    → InInt48 i
    → (int_div i j >>= λ r. ok (box r))
      ≡ (if eq_ℤ j (pos 0) then fault division else ok (box (i /ℤ j)))
div_box i j hi = elim (Bool-cases (eq_ℤ j (pos 0))) [
  | inl e ↦ rw (int_div_cases i j hi, e) refl
  | inr e ↦ rw (int_div_cases i j hi, e) refl
]

-- OP_DIV on two boxed ints is undefined behaviour for the divisor 0; otherwise it gives the boxed
-- quotient, which reads back wrapped to 48 bits and whose magnitude is the quotient of the
-- magnitudes, rounded down.
pub div-box :
    (F : Doubles) (i j : ℤ)
    → InInt48 i
    → InInt48 j
    → (div F (box i) (box j) ≡ (if eq_ℤ j (pos 0) then fault division else ok (box (i /ℤ j))))
      × (decode_int (box (i /ℤ j)) ≡ wrap48 (i /ℤ j))
      × (magnitude (i /ℤ j) ≡ magnitude i / magnitude j)
unfolding div
div-box F i j hi hj = (
  rw (arithmetic-box F.div int_div i j hi hj) (div_box i j hi),
  decode_int-box (i /ℤ j),
  (quotient_bounds i j hi).0,
)

-- A sum in the range of an int48 is what the boxed result of OP_ADD reads back as.
pub add_exact :
    (F : Doubles) (i j : ℤ)
    → InInt48 i
    → InInt48 j
    → InInt48 (i +ℤ j)
    → (add F (box i) (box j) >>= λ w. ok (decode_int w)) ≡ ok (i +ℤ j)
add_exact F i j hi hj range =
    let r = add-sub-box F i j hi hj in rw (r.0, r.1, wrap48_in_range (i +ℤ j) range) refl
