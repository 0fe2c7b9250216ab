-- ===== src/Parser/Operators.antt =====
-- src/compiler/parser.cpp: the end of the levels of binary operators, what they read, and the arena
-- behind them.
use mathlib.Core.List.{append_assoc, append-nil}
use sprout_lang.Prelude.{
  ℕ, zero, suc, ◌<◌, ◌≡◌, refl, ap, ◌∙◌, Bool, true, false, ◌||◌, List, [], ◌∷◌, ◌++◌, length,
  length-append, arith, inl, inr, ◌⊎◌,
}
use sprout_lang.Result.{Returns, gives, throws, branch-Returns, >>=-Returns, Returns-map}
use sprout_lang.Lexer.{TokenType, Token}
use sprout_lang.Ast.{Node, binary_op}
use sprout_lang.Parser.{
  Parser, Arena, NodeSizes, allocate, parse_operators, parse_level, is_multiplicative, is_additive,
  is_comparison, is_logical, parse_logical,
}
use sprout_lang.Parser.Tokens.{same_type, expect, peek, advance}
use sprout_lang.Parser.Grammar.{
  Level, logical, comparison, additive, multiplicative, unary, NextLevel, below_logical,
  below_comparison, below_additive, below_multiplicative, IsOperator, double_and, double_vbar, eqeq,
  not_eq, greater, lower, plus, minus, star, slash, Derives, operand, operation,
}
use sprout_lang.Parser.Reads.{eq_of_same_type, Reads, Parses}

-- A property of each of the sizes.
abbrev pub EachSize : (ℕ → Type 0) → NodeSizes → Type 0
EachSize Q s =
    Q s.program
    × Q s.block
    × Q s.binary_op
    × Q s.unary_op
    × Q s.ident
    × Q s.int_literal
    × Q s.var_decl
    × Q s.var_assign
    × Q s.func_call
    × Q s.if_stmt

pub expect-Returns :
    (k : TokenType) (ts : List Token)
    → Returns (λ rest. (t : Token) × (ts ≡ t ∷ rest) × (t.type ≡ k)) (expect k ts)
unfolding expect
expect-Returns k [] = throws _
expect-Returns k (t ∷ ts) =
    branch-Returns (same_type t.type k) (λ h. gives ts (t, refl, eq_of_same_type t.type k h))
      λ h. throws _

-- The operators of a level, as the code tests for them.
record Tests (l : Level) (op : TokenType → Bool) : Type 0 where
  sound : (t : TokenType) → op t ≡ true → IsOperator l t
  not_end : op TokenType.end_of_file ≡ false

pub or_cases : (a b : Bool) → (a || b) ≡ true → (a ≡ true) ⊎ (b ≡ true)
or_cases true b h = inl refl
or_cases false b h = inr h

logical-Tests : Tests logical is_logical
unfolding is_logical
logical-Tests = record {
  sound = λ t h. elim (or_cases _ _ h) [
    | inl e ↦ rw (eq_of_same_type t TokenType.double_and e) double_and
    | inr e ↦ rw (eq_of_same_type t TokenType.double_vbar e) double_vbar
  ];
  not_end = refl;
}

additive-Tests : Tests additive is_additive
unfolding is_additive
additive-Tests = record {
  sound = λ t h. elim (or_cases _ _ h) [
    | inl e ↦ rw (eq_of_same_type t TokenType.plus e) plus
    | inr e ↦ rw (eq_of_same_type t TokenType.minus e) minus
  ];
  not_end = refl;
}

multiplicative-Tests : Tests multiplicative is_multiplicative
unfolding is_multiplicative
multiplicative-Tests = record {
  sound = λ t h. elim (or_cases _ _ h) [
    | inl e ↦ rw (eq_of_same_type t TokenType.star e) star
    | inr e ↦ rw (eq_of_same_type t TokenType.slash e) slash
  ];
  not_end = refl;
}

comparison-Tests : Tests comparison is_comparison
unfolding is_comparison
comparison-Tests = record {
  sound = λ t h. elim (or_cases _ _ h) [
    | inl h ↦ elim (or_cases _ _ h) [
      | inl h ↦ elim (or_cases _ _ h) [
        | inl e ↦ rw (eq_of_same_type t TokenType.eqeq e) eqeq
        | inr e ↦ rw (eq_of_same_type t TokenType.not_eq e) not_eq
      ]
      | inr e ↦ rw (eq_of_same_type t TokenType.greater e) greater
    ]
    | inr e ↦ rw (eq_of_same_type t TokenType.lower e) lower
  ];
  not_end = refl;
}

module _ (sizes : NodeSizes) (I : Arena → Type 0) (Q : ℕ → Type 0) (fits : EachSize Q sizes)
    (keeps : (size : ℕ) (ar : Arena) → Q size → I ar → Returns I (allocate size ar)) where
  operators-Returns :
      (l m : Level) (op : TokenType → Bool) (p : Parser Node) (bound rounds : ℕ) (left : Node)
      (before ts : List Token) (ar : Arena)
      → NextLevel l m
      → Tests l op
      → Parses I (Derives m) bound p
      → Derives l before left
      → length ts < rounds
      → length ts < bound
      → I ar
      → Returns
          (Reads I (λ used n. Derives l (before ++ used) n) ts)
          (parse_operators sizes op p rounds left ts ar)
  unfolding parse_operators peek advance
  operators-Returns l m op p bound zero left before ts ar next test good d h k i =
      absurd (omega arith)
  operators-Returns l m op p bound (suc rounds) left before [] ar next test good d h k i =
      rw test.not_end (gives (left, [], ar) ([], refl, rw (append-nil before) d, i))
  operators-Returns l m op p bound (suc rounds) left before (t ∷ ts) ar next test good d h k i =
      branch-Returns (op t.type)
        (λ found.
          >>=-Returns (p ts ar) _ (good ts ar (omega arith) i)
            λ (right, rest, ar₁) (used, e, d₁, i₁).
              >>=-Returns (allocate sizes.binary_op ar₁) _ (keeps sizes.binary_op ar₁ fits.2 i₁)
                λ ar₂ i₂.
                  let shorter = ap length e ∙ length-append used rest in
                  Returns-map
                    (operators-Returns l m op p bound rounds (binary_op t.type left right)
                      (before ++ t ∷ used) rest ar₂ next test good
                      (operation t next (test.sound t.type found) d d₁) (omega (arith, shorter))
                      (omega (arith, shorter)) i₂)
                    λ (n, last, ar₃) (more, e', d', i₃). (
                      t ∷ used ++ more,
                      simp (e, e', append_assoc),
                      rw (append_assoc before (t ∷ used) more) at d',
                      i₃,
                    ))
        λ none. gives (left, t ∷ ts, ar) ([], refl, rw (append-nil before) d, i)

  level-Parses :
      (l m : Level) (op : TokenType → Bool) (p : Parser Node) (rounds : ℕ)
      → NextLevel l m
      → Tests l op
      → Parses I (Derives m) rounds p
      → Parses I (Derives l) rounds (parse_level sizes op p rounds)
  unfolding parse_level
  level-Parses l m op p rounds next test good ts ar h i =
      >>=-Returns (p ts ar) _ (good ts ar h i) λ (left, rest, ar₁) (used, e, d, i₁).
        let shorter = ap length e ∙ length-append used rest in
        Returns-map
          (operators-Returns l m op p rounds rounds left used rest ar₁ next test good
            (operand next d) (omega (arith, shorter)) (omega (arith, shorter)) i₁)
          λ (n, last, ar₂) (more, e', d', i₂). (used ++ more, simp (e, e', append_assoc), d', i₂)

  pub logical-Parses :
      (p : Parser Node) (rounds : ℕ)
      → Parses I (Derives unary) rounds p
      → Parses I (Derives logical) rounds (parse_logical sizes p rounds)
  unfolding parse_logical
  logical-Parses p rounds good =
      level-Parses logical comparison is_logical _ rounds below_logical logical-Tests (
        level-Parses comparison additive is_comparison _ rounds below_comparison comparison-Tests (
          level-Parses additive multiplicative is_additive _ rounds below_additive additive-Tests (
            level-Parses multiplicative unary is_multiplicative p rounds below_multiplicative
              multiplicative-Tests good)))
