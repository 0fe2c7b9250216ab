-- ===== src/Execution/Kinds.antt =====
-- Operands that the arithmetic and the comparison of src/vm/execution.h refuse.
use sprout_lang.Prelude.{
  ℕ, ◌%◌, ◌^◌, ◌≡◌, ◌≢◌, ◌⊎◌, refl, Bool, Bool-cases, inl, inr, true, false, ◌&&◌, arith,
}
use sprout_lang.Prelude.Int.{ℤ, ◌+ℤ◌, ◌-ℤ◌, ◌*ℤ◌}
use sprout_lang.Result.{Result, thrown, invalid_operands}
use sprout_lang.Values.{nan_base, is_double, is_int, is_bool}
use sprout_lang.Values.Boxing.{Kind, double, int48, other, kind, tests-kind, same_kind}
use sprout_lang.Vm.{Vm}
use sprout_lang.Execution.{
  Doubles, checked, int_div, arithmetic, add, sub, mul, div, compare_flag, compare,
}

-- The two kinds that arithmetic takes.
abbrev pub IsNumber : Kind → Type 0
IsNumber k = (k ≡ double) ⊎ (k ≡ int48)

arithmetic_refused :
    (on_doubles : ℕ → ℕ → ℕ) (on_ints : ℤ → ℤ → Result ℤ) (a b : ℕ)
    → (same_kind (kind a) double && same_kind (kind b) double) ≡ false
    → (same_kind (kind a) int48 && same_kind (kind b) int48) ≡ false
    → arithmetic on_doubles on_ints a b ≡ thrown invalid_operands
unfolding arithmetic
arithmetic_refused on_doubles on_ints a b no_doubles no_ints =
    let s = tests-kind a in
    let t = tests-kind b in rw (s.0, s.1, t.0, t.1, no_doubles, no_ints) refl

same_kind_eq : (k l : Kind) → same_kind k l ≡ true → k ≡ l
same_kind_eq k l h = ground arith

same_kind_both : (k l m : Kind) → (same_kind k m && same_kind l m) ≡ true → k ≡ l
same_kind_both k l m h = ground (arith, same_kind_eq k m, same_kind_eq l m)

apart_kinds : (k l m : Kind) → k ≢ l → (same_kind k m && same_kind l m) ≡ false
apart_kinds k l m ne = elim (Bool-cases (same_kind k m && same_kind l m)) [
  | inl both ↦ absurd (ne (same_kind_both k l m both))
  | inr no_both ↦ no_both
]

-- The four arithmetic instructions throw on operands of two different kinds: nothing is converted.
pub mixed_kinds_throw :
    (F : Doubles) (a b : ℕ)
    → kind a ≢ kind b
    → (add F a b ≡ thrown invalid_operands)
      × (sub F a b ≡ thrown invalid_operands)
      × (mul F a b ≡ thrown invalid_operands)
      × (div F a b ≡ thrown invalid_operands)
unfolding add sub mul div
mixed_kinds_throw F a b ne =
    let d = apart_kinds (kind a) (kind b) double ne in
    let i = apart_kinds (kind a) (kind b) int48 ne in
    (
      arithmetic_refused F.add (λ x y. checked (x +ℤ y)) a b d i,
      arithmetic_refused F.sub (λ x y. checked (x -ℤ y)) a b d i,
      arithmetic_refused F.mul (λ x y. checked (x *ℤ y)) a b d i,
      arithmetic_refused F.div int_div a b d i,
    )

-- IEEE infinities: all exponent bits set and an empty mantissa, of either sign.
abbrev pub IsInfinite : ℕ → Type 0
IsInfinite v = v % 2 ^ 63 ≡ nan_base

infinite-kind : (v : ℕ) → IsInfinite v → kind v ≡ other
infinite-kind v h = ground arith

and_false : (b : Bool) → (b && false) ≡ false
and_false true = refl
and_false false = refl

compare_refused :
    (F : Doubles) (vm : Vm) (v b : ℕ) → kind v ≡ other → compare F vm v b ≡ thrown invalid_operands
unfolding compare compare_flag
compare_refused F vm v b k = let t = tests-kind v in rw (t.0, t.1, t.3, k) refl

compare_refused_right :
    (F : Doubles) (vm : Vm) (b v : ℕ) → kind v ≡ other → compare F vm b v ≡ thrown invalid_operands
unfolding compare compare_flag
compare_refused_right F vm b v k =
    let t = tests-kind v in
    rw (t.0, t.1, t.3, k, and_false (is_double b), and_false (is_int b), and_false (is_bool b)) refl

-- The five instructions that look at two operands refuse these.
pub record AllRefuse (F : Doubles) (vm : Vm) (a b : ℕ) : Type 0 where
  pub by_add : add F a b ≡ thrown invalid_operands
  pub by_sub : sub F a b ≡ thrown invalid_operands
  pub by_mul : mul F a b ≡ thrown invalid_operands
  pub by_div : div F a b ≡ thrown invalid_operands
  pub by_cmp : compare F vm a b ≡ thrown invalid_operands

-- An infinite double is no double to the machine: its word, which an overflowing operation leaves
-- in a register, is refused by every arithmetic instruction and by OP_CMP, as the first operand and
-- as the second, whatever the other one.
pub infinite_throws :
    (F : Doubles) (vm : Vm) (v b : ℕ) → IsInfinite v → AllRefuse F vm v b × AllRefuse F vm b v
unfolding add sub mul div
infinite_throws F vm v b h =
    let k = infinite-kind v h in
    let double' = and_false (same_kind (kind b) double) in
    let int' = and_false (same_kind (kind b) int48) in
    (
      record {
        by_add = arithmetic_refused F.add (λ x y. checked (x +ℤ y)) v b (rw k refl) (rw k refl);
        by_sub = arithmetic_refused F.sub (λ x y. checked (x -ℤ y)) v b (rw k refl) (rw k refl);
        by_mul = arithmetic_refused F.mul (λ x y. checked (x *ℤ y)) v b (rw k refl) (rw k refl);
        by_div = arithmetic_refused F.div int_div v b (rw k refl) (rw k refl);
        by_cmp = compare_refused F vm v b k;
      },
      record {
        by_add = arithmetic_refused F.add (λ x y. checked (x +ℤ y)) b v (rw k double') (rw k int');
        by_sub = arithmetic_refused F.sub (λ x y. checked (x -ℤ y)) b v (rw k double') (rw k int');
        by_mul = arithmetic_refused F.mul (λ x y. checked (x *ℤ y)) b v (rw k double') (rw k int');
        by_div = arithmetic_refused F.div int_div b v (rw k double') (rw k int');
        by_cmp = compare_refused_right F vm b v k;
      },
    )
