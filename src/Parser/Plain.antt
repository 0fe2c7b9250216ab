-- ===== src/Parser/Plain.antt =====
-- src/compiler/parser.cpp: the expressions that can be read in one way only. The grammar lets an
-- assignment stand as an operand, where its right side could end early or late; here it stands
-- alone, in parentheses, as an argument or behind another assignment.
use sprout_lang.Prelude.{
  ◌<◌, ◌≡◌, refl, Bool, true, false, List, [], ◌∷◌, ◌++◌, length, length-append, arith,
}
use sprout_lang.Prelude.Int.{ℤ}
use sprout_lang.Result.{ok}
use sprout_lang.Lexer.{TokenType, Token}
use sprout_lang.Ast.{
  Node, Nodes, nil, cons, var_assign, func_call, binary_op, unary_op, ident, int_literal,
}
use sprout_lang.Parser.{is_multiplicative, is_additive, is_comparison, is_logical}
use sprout_lang.Parser.Tokens.{stoll, same_type}
use sprout_lang.Parser.Grammar.{
  Level, logical, comparison, additive, multiplicative, unary, primary, IsOperator, double_and,
  double_vbar, eqeq, not_eq, greater, lower, plus, minus, star, slash, IsPrefix,
}

-- The levels of binary operators, and those of their operands.
pub data IsBinary : Level → Type 0 where
  logical_level : IsBinary logical
  comparison_level : IsBinary comparison
  additive_level : IsBinary additive
  multiplicative_level : IsBinary multiplicative

abbrev pub tighter : Level → Level
tighter logical = comparison
tighter comparison = additive
tighter additive = multiplicative
tighter multiplicative = unary
tighter unary = primary
tighter primary = primary

mutual
  pub data Plain : Level → List Token → Node → Type 0 where
    number :
        (t : Token) {i : ℤ}
        → t.type ≡ TokenType.number
        → stoll t.content ≡ ok i
        → Plain primary (t ∷ []) (int_literal i)
    name : (t : Token) → t.type ≡ TokenType.ident → Plain primary (t ∷ []) (ident t.content)
    call :
        (t c s : Token) {ts : List Token} {ns : Nodes}
        → t.type ≡ TokenType.ident
        → c.type ≡ TokenType.colon
        → s.type ≡ TokenType.semicolon
        → PlainArguments ts ns
        → Plain primary (t ∷ c ∷ (ts ++ s ∷ [])) (func_call t.content ns)
    parentheses :
        (l r : Token) {ts : List Token} {n : Node}
        → l.type ≡ TokenType.l_paren
        → r.type ≡ TokenType.r_paren
        → Whole ts n
        → Plain primary (l ∷ (ts ++ r ∷ [])) n
    prefix :
        (op : Token) {ts : List Token} {n : Node}
        → IsPrefix op.type
        → Plain unary ts n
        → Plain unary (op ∷ ts) (unary_op op.type n)
    unprefixed : {ts : List Token} {n : Node} → Plain primary ts n → Plain unary ts n
    operand :
        {l : Level} {ts : List Token} {n : Node}
        → IsBinary l
        → Plain (tighter l) ts n
        → Plain l ts n
    operation :
        {l : Level} (op : Token) {left right : List Token} {a b : Node}
        → IsBinary l
        → IsOperator l op.type
        → Plain l left a
        → Plain (tighter l) right b
        → Plain l (left ++ op ∷ right) (binary_op op.type a b)

  pub data Whole : List Token → Node → Type 0 where
    plain : {ts : List Token} {n : Node} → Plain logical ts n → Whole ts n
    assignment :
        (t e : Token) {ts : List Token} {n : Node}
        → t.type ≡ TokenType.ident
        → e.type ≡ TokenType.eq
        → Whole ts n
        → Whole (t ∷ e ∷ ts) (var_assign t.content n)

  pub data PlainArguments : List Token → Nodes → Type 0 where
    no_argument : PlainArguments [] nil
    last_argument : {ts : List Token} {n : Node} → Whole ts n → PlainArguments ts (cons n nil)
    argument :
        (c : Token) {ts us : List Token} {n : Node} {ns : Nodes}
        → c.type ≡ TokenType.comma
        → Whole ts n
        → PlainArguments us ns
        → PlainArguments (ts ++ c ∷ us) (cons n ns)

-- An expression of the level ends before a token of this type.
abbrev EndsUnary : TokenType → Type 0
EndsUnary t = (same_type t TokenType.colon ≡ false) × (same_type t TokenType.eq ≡ false)

abbrev EndsMultiplicative : TokenType → Type 0
EndsMultiplicative t = (is_multiplicative t ≡ false) × EndsUnary t

abbrev EndsAdditive : TokenType → Type 0
EndsAdditive t = (is_additive t ≡ false) × EndsMultiplicative t

abbrev EndsComparison : TokenType → Type 0
EndsComparison t = (is_comparison t ≡ false) × EndsAdditive t

abbrev pub Ends : Level → TokenType → Type 0
Ends logical t = (is_logical t ≡ false) × EndsComparison t
Ends comparison t = EndsComparison t
Ends additive t = EndsAdditive t
Ends multiplicative t = EndsMultiplicative t
Ends unary t = EndsUnary t
Ends primary t = EndsUnary t

-- An operator ends its left operand.
pub operator-Ends : {l : Level} {t : TokenType} → IsOperator l t → Ends (tighter l) t
unfolding is_multiplicative is_additive is_comparison same_type
operator-Ends double_and = (refl, (refl, (refl, (refl, refl))))
operator-Ends double_vbar = (refl, (refl, (refl, (refl, refl))))
operator-Ends eqeq = (refl, (refl, (refl, refl)))
operator-Ends not_eq = (refl, (refl, (refl, refl)))
operator-Ends greater = (refl, (refl, (refl, refl)))
operator-Ends lower = (refl, (refl, (refl, refl)))
operator-Ends plus = (refl, (refl, refl))
operator-Ends minus = (refl, (refl, refl))
operator-Ends star = (refl, refl)
operator-Ends slash = (refl, refl)

abbrev pub test_of : Level → TokenType → Bool
test_of logical = is_logical
test_of comparison = is_comparison
test_of additive = is_additive
test_of multiplicative = is_multiplicative
test_of _ = λ t. false

pub operator-test_of : {l : Level} {t : TokenType} → IsOperator l t → test_of l t ≡ true
unfolding is_multiplicative is_additive is_comparison is_logical same_type
operator-test_of double_and = refl
operator-test_of double_vbar = refl
operator-test_of eqeq = refl
operator-test_of not_eq = refl
operator-test_of greater = refl
operator-test_of lower = refl
operator-test_of plus = refl
operator-test_of minus = refl
operator-test_of star = refl
operator-test_of slash = refl

pub Ends-test_of :
    {l : Level} (t : TokenType) → IsBinary l → Ends l t → (test_of l t ≡ false) × Ends (tighter l) t
Ends-test_of t logical_level h = h
Ends-test_of t comparison_level h = h
Ends-test_of t additive_level h = h
Ends-test_of t multiplicative_level h = h

pub Plain-length : {l : Level} {ts : List Token} {n : Node} → Plain l ts n → 0 < length ts
Plain-length (number t h k) = omega arith
Plain-length (name t h) = omega arith
Plain-length (call t c s h k j d) = omega arith
Plain-length (parentheses l r h k d) = omega arith
Plain-length (prefix op p d) = omega arith
Plain-length (unprefixed d) = Plain-length d
Plain-length (operand b d) = Plain-length d
Plain-length (operation op {left} {right} b is d e) =
    omega (arith, length-append {0} left (op ∷ right))
