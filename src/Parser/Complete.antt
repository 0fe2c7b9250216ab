-- ===== src/Parser/Complete.antt =====
-- src/compiler/parser.cpp: the expressions that can be read in one way are read that way.
use mathlib.Core.List.{append_assoc}
use sprout_lang.Prelude.{
  ℕ, zero, suc, ◌<◌, ◌≡◌, refl, sym, ap, ◌∙◌, inl, true, false, List, [], ◌∷◌, ◌++◌, length,
  length-append, arith,
}
use sprout_lang.Prelude.Int.{ℤ}
use sprout_lang.Result.{ok}
use sprout_lang.Lexer.{TokenType, Token}
use sprout_lang.Ast.{Text, Node, Nodes, var_assign, func_call, unary_op, ident, int_literal}
use sprout_lang.Parser.{
  Parser, Arena, NodeSizes, parse_arguments, parse_identified, parse_primary, parse_unary,
  parse_expression,
}
use sprout_lang.Parser.Tokens.{same_type, peek, next_is, advance, stoll}
use sprout_lang.Parser.Grammar.{logical, unary, primary, IsPrefix, negative, negation}
use sprout_lang.Parser.Plain.{
  Plain, number, name, call, parentheses, prefix, unprefixed, operand, operation, Whole, plain,
  assignment, PlainArguments, Ends,
}
use sprout_lang.Parser.Levels.{
  Finds, next, >>=-Finds, allocate-Finds, Accepts, logical-Accepts, logical-Finds,
}
use sprout_lang.Parser.Arguments.{
  next_is_type, next_is_other, expect_type, is_prefix, primary-StartsWith, closing, r_paren,
  AcceptsWhole, arguments-Finds,
}

prefix-is_prefix : {t : TokenType} → IsPrefix t → is_prefix t ≡ true
unfolding same_type
prefix-is_prefix negative = refl
prefix-is_prefix negation = refl

name_no_prefix : (t : Token) → t.type ≡ TokenType.ident → is_prefix t.type ≡ false
unfolding same_type
name_no_prefix t h = rw h refl

module _ (sizes : NodeSizes) where
  pub number-Finds :
      (p : Parser Node) (bound : ℕ) (t : Token) (i : ℤ) (rest : List Token) (ar : Arena)
      → t.type ≡ TokenType.number
      → stoll t.content ≡ ok i
      → Finds (int_literal i) rest (parse_primary sizes p bound (t ∷ rest) ar)
  unfolding parse_primary peek advance
  number-Finds p bound t i rest ar h e =
      rw (next_is_type TokenType.number t rest h)
        (allocate-Finds sizes.int_literal ar _ λ ar₁. rw e (inl (ar₁, refl)))

  -- An identifier goes on to what may stand behind it.
  primary-identified :
      (p : Parser Node) (bound : ℕ) (t : Token) (ts : List Token) (ar : Arena)
      → t.type ≡ TokenType.ident
      → parse_primary sizes p bound (t ∷ ts) ar ≡ parse_identified sizes p bound t.content ts ar
  unfolding parse_primary peek advance same_type
  primary-identified p bound t ts ar h = rw (
    next_is_other TokenType.number TokenType.ident t ts h refl,
    next_is_type TokenType.ident t ts h,
  )

  name-Finds :
      (p : Parser Node) (bound : ℕ) (name : Text) (rest : List Token) (ar : Arena)
      → Ends unary (next rest)
      → Finds (ident name) rest (parse_identified sizes p bound name rest ar)
  unfolding parse_identified next_is
  name-Finds p bound x rest ar ends =
      rw (ends.0, ends.1) (allocate-Finds sizes.ident ar _ λ ar₁. inl (ar₁, refl))

  call-Finds :
      (p : Parser Node) (bound : ℕ) (name : Text) (c s : Token) (ts : List Token) (ns : Nodes)
      (rest : List Token) (ar : Arena)
      → AcceptsWhole bound p
      → c.type ≡ TokenType.colon
      → s.type ≡ TokenType.semicolon
      → PlainArguments ts ns
      → length ts < bound
      → Finds
          (func_call name ns)
          rest
          (parse_identified sizes p bound name (c ∷ (ts ++ s ∷ rest)) ar)
  unfolding parse_identified advance
  call-Finds p bound x c s ts ns rest ar good h k d few =
      rw (next_is_type TokenType.colon c (ts ++ s ∷ rest) h) (
        >>=-Finds (parse_arguments sizes p bound (ts ++ s ∷ rest) ar) _
          (arguments-Finds sizes p bound bound ts ns s rest ar good d k few few)
          λ ar₁. allocate-Finds sizes.func_call ar₁ _ λ ar₂. inl (ar₂, refl))

  assignment-Finds :
      (p : Parser Node) (bound : ℕ) (name : Text) (e : Token) (ts : List Token) (n : Node)
      (rest : List Token) (ar : Arena)
      → e.type ≡ TokenType.eq
      → Finds n rest (p (ts ++ rest) ar)
      → Finds (var_assign name n) rest (parse_identified sizes p bound name (e ∷ (ts ++ rest)) ar)
  unfolding parse_identified same_type
  assignment-Finds p bound x e ts n rest ar h found =
      rw
        (
          next_is_other TokenType.colon TokenType.eq e (ts ++ rest) h refl,
          next_is_type TokenType.eq e (ts ++ rest) h,
          expect_type TokenType.eq e (ts ++ rest) h,
        )
        (>>=-Finds (p (ts ++ rest) ar) _ found
          λ ar₁. allocate-Finds sizes.var_assign ar₁ _ λ ar₂. inl (ar₂, refl))

  parentheses-Finds :
      (p : Parser Node) (bound : ℕ) (l r : Token) (ts : List Token) (n : Node) (rest : List Token)
      (ar : Arena)
      → l.type ≡ TokenType.l_paren
      → r.type ≡ TokenType.r_paren
      → Finds n (r ∷ rest) (p (ts ++ r ∷ rest) ar)
      → Finds n rest (parse_primary sizes p bound (l ∷ (ts ++ r ∷ rest)) ar)
  unfolding parse_primary peek advance same_type
  parentheses-Finds p bound l r ts n rest ar h k found =
      let s = ts ++ r ∷ rest in
      rw
        (
          next_is_other TokenType.number TokenType.l_paren l s h refl,
          next_is_other TokenType.ident TokenType.l_paren l s h refl,
          next_is_type TokenType.l_paren l s h,
        )
        (>>=-Finds (p s ar) _ found
          λ ar₁. rw (expect_type TokenType.r_paren r rest k) (inl (ar₁, refl)))

  primary-Finds :
      (p : Parser Node) (bound : ℕ) (ts : List Token) (n : Node) (rest : List Token) (ar : Arena)
      → AcceptsWhole bound p
      → Plain primary ts n
      → Ends unary (next rest)
      → length ts < suc bound
      → Finds n rest (parse_primary sizes p bound (ts ++ rest) ar)
  primary-Finds p bound _ _ rest ar good (number t {i} h k) ends few =
      number-Finds p bound t i rest ar h k
  primary-Finds p bound _ _ rest ar good (name t h) ends few =
      rw (primary-identified p bound t rest ar h) (name-Finds p bound t.content rest ar ends)
  primary-Finds p bound _ _ rest ar good (call t c s {ts} {ns} h k j d) ends few =
      rw (append_assoc ts (s ∷ []) rest, primary-identified p bound t (c ∷ (ts ++ s ∷ rest)) ar h)
        (call-Finds p bound t.content c s ts ns rest ar good k j d
          (omega (arith, length-append {0} ts (s ∷ []))))
  primary-Finds p bound _ n rest ar good (parentheses l r {ts} h k w) ends few =
      rw (append_assoc ts (r ∷ []) rest) (
        parentheses-Finds p bound l r ts n rest ar h k (
          good ts n (r ∷ rest) ar w (closing r TokenType.r_paren rest k r_paren)
            (omega (arith, length-append {0} ts (r ∷ [])))))
  primary-Finds p bound _ _ rest ar good (operand b d) ends few = elim b [ ]
  primary-Finds p bound _ _ rest ar good (operation op b is d e) ends few = elim b [ ]

  -- The two branches of parseUnary.
  prefix-Finds :
      (fuel : ℕ) (op : Token) (ts : List Token) (n : Node) (rest : List Token) (ar : Arena)
      → IsPrefix op.type
      → Finds n rest (parse_unary sizes fuel (ts ++ rest) ar)
      → Finds (unary_op op.type n) rest (parse_unary sizes (suc fuel) (op ∷ (ts ++ rest)) ar)
  unfolding parse_unary peek advance
  prefix-Finds fuel op ts n rest ar is found = rw (prefix-is_prefix is) (
      >>=-Finds (parse_unary sizes fuel (ts ++ rest) ar) _ found
        λ ar₁. allocate-Finds sizes.unary_op ar₁ _ λ ar₂. inl (ar₂, refl))

  unary-primary :
      (fuel : ℕ) (t : Token) (ts : List Token) (ar : Arena)
      → is_prefix t.type ≡ false
      → parse_unary sizes (suc fuel) (t ∷ ts) ar
        ≡ parse_primary sizes (parse_expression sizes fuel) fuel (t ∷ ts) ar
  unfolding parse_unary peek parse_expression
  unary-primary fuel t ts ar h = rw h

  unary-step :
      (fuel : ℕ)
      → Accepts unary fuel (parse_unary sizes fuel)
      → AcceptsWhole fuel (parse_expression sizes fuel)
      → Accepts unary (suc fuel) (parse_unary sizes (suc fuel))
  unary-step fuel good whole _ _ rest ar (prefix op {ts} {n} is d) ends few =
      prefix-Finds fuel op ts n rest ar is (good ts n rest ar d ends (omega arith))
  unary-step fuel good whole ts n rest ar (unprefixed d) ends few =
      let (t, us, same, h) = primary-StartsWith d in
      rw
        (ap (λ x. parse_unary sizes (suc fuel) (x ++ rest) ar) same
          ∙ unary-primary fuel t (us ++ rest) ar h
          ∙ ap (λ x. parse_primary sizes (parse_expression sizes fuel) fuel (x ++ rest) ar)
              (sym same))
        (primary-Finds (parse_expression sizes fuel) fuel ts n rest ar whole d ends few)
  unary-step fuel good whole _ _ rest ar (operand b d) ends few = elim b [ ]
  unary-step fuel good whole _ _ rest ar (operation op b is d e) ends few = elim b [ ]

  whole-step :
      (fuel : ℕ)
      → Accepts unary (suc fuel) (parse_unary sizes (suc fuel))
      → AcceptsWhole fuel (parse_expression sizes fuel)
      → AcceptsWhole (suc fuel) (parse_expression sizes (suc fuel))
  unfolding parse_expression
  whole-step fuel good whole ts n rest ar (plain d) ends few =
      logical-Accepts sizes (parse_unary sizes (suc fuel)) (suc fuel) good ts n rest ar d ends few
  whole-step fuel good whole _ _ rest ar (assignment t e {ts} {n} h k w) ends few =
      let s = e ∷ (ts ++ rest) in
      logical-Finds sizes (parse_unary sizes (suc fuel)) (suc fuel) (t ∷ s) (var_assign t.content n)
        rest ar (omega arith) ends
        (rw
          (
            unary-primary fuel t s ar (name_no_prefix t h),
            primary-identified (parse_expression sizes fuel) fuel t s ar h,
          )
          (assignment-Finds (parse_expression sizes fuel) fuel t.content e ts n rest ar k
            (whole ts n rest ar w ends (omega arith))))

  both :
      (fuel : ℕ)
      → Accepts unary fuel (parse_unary sizes fuel)
        × AcceptsWhole fuel (parse_expression sizes fuel)
  both zero = (
    λ ts n rest ar d ends few. absurd (omega arith),
    λ ts n rest ar d ends few. absurd (omega arith),
  )
  both (suc fuel) =
      let (good, whole) = both fuel in
      let good' = unary-step fuel good whole in (good', whole-step fuel good' whole)

-- With more fuel than it has tokens, an expression that can be read in one way is read that way, up
-- to a token that no expression goes on with, unless an allocation throws.
pub parse_expression-Finds :
    (sizes : NodeSizes) (fuel : ℕ) (ts : List Token) (n : Node) (rest : List Token) (ar : Arena)
    → Whole ts n
    → Ends logical (next rest)
    → length ts < fuel
    → Finds n rest (parse_expression sizes fuel (ts ++ rest) ar)
parse_expression-Finds sizes fuel = (both sizes fuel).1
