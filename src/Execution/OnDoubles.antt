-- ===== src/Execution/OnDoubles.antt =====
-- The arithmetic of src/vm/execution.h and its printing on doubles.
use sprout_lang.Prelude.{ℕ, ◌≡◌, refl, [], ◌∷◌, true, false}
use sprout_lang.Prelude.Int.{ℤ, ◌+ℤ◌, ◌-ℤ◌, ◌*ℤ◌}
use sprout_lang.Result.{Result, ok}
use sprout_lang.Values.{is_double, is_int, encode_double, decode_double}
use sprout_lang.Values.Boxing.{kind, double, tests-kind}
use sprout_lang.Vm.{double_line}
use sprout_lang.Execution.{Doubles, arithmetic, add, sub, mul, div, checked, int_div, end}

pub double-tests : (v : ℕ) → kind v ≡ double → (is_double v ≡ true) × (is_int v ≡ false)
double-tests v h = let t = tests-kind v in (rw (t.0, h) refl, rw (t.1, h) refl)

-- On two doubles the instructions compute with the doubles.
arithmetic-doubles :
    (on_doubles : ℕ → ℕ → ℕ) (on_ints : ℤ → ℤ → Result ℤ) (v w : ℕ)
    → kind v ≡ double
    → kind w ≡ double
    → arithmetic on_doubles on_ints v w ≡ ok (on_doubles v w)
unfolding arithmetic encode_double decode_double
arithmetic-doubles on_doubles on_ints v w h k = rw ((double-tests v h).0, (double-tests w k).0) refl

pub operations-doubles :
    (F : Doubles) (v w : ℕ)
    → kind v ≡ double
    → kind w ≡ double
    → (add F v w ≡ ok (F.add v w))
      × (sub F v w ≡ ok (F.sub v w))
      × (mul F v w ≡ ok (F.mul v w))
      × (div F v w ≡ ok (F.div v w))
unfolding add sub mul div
operations-doubles F v w h k = (
  arithmetic-doubles F.add (λ x y. checked (x +ℤ y)) v w h k,
  arithmetic-doubles F.sub (λ x y. checked (x -ℤ y)) v w h k,
  arithmetic-doubles F.mul (λ x y. checked (x *ℤ y)) v w h k,
  arithmetic-doubles F.div int_div v w h k,
)

pub end-double : (v : ℕ) → kind v ≡ double → end v ≡ double_line v ∷ []
unfolding end decode_double
end-double v h = rw ((double-tests v h).1, (double-tests v h).0) refl
