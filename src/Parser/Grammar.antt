-- ===== src/Parser/Grammar.antt =====
-- src/compiler/parser.cpp: the grammar of expressions, apart from the code: which tokens stand for
-- which tree. Operators of one level group to the left.
use sprout_lang.Prelude.{◌<◌, ◌≡◌, List, [], ◌∷◌, ◌++◌, length, length-append, arith}
use sprout_lang.Prelude.Int.{ℤ}
use sprout_lang.Result.{ok}
use sprout_lang.Lexer.{TokenType, Token}
use sprout_lang.Ast.{
  Node, Nodes, nil, cons, var_assign, func_call, binary_op, unary_op, ident, int_literal,
}
use sprout_lang.Parser.Tokens.{stoll}

pub data Level : Type 0 where
  logical comparison additive multiplicative unary primary : Level

-- The operands of a level are of the next.
pub data NextLevel : Level → Level → Type 0 where
  below_logical : NextLevel logical comparison
  below_comparison : NextLevel comparison additive
  below_additive : NextLevel additive multiplicative
  below_multiplicative : NextLevel multiplicative unary
  below_unary : NextLevel unary primary

pub data IsOperator : Level → TokenType → Type 0 where
  double_and : IsOperator logical TokenType.double_and
  double_vbar : IsOperator logical TokenType.double_vbar
  eqeq : IsOperator comparison TokenType.eqeq
  not_eq : IsOperator comparison TokenType.not_eq
  greater : IsOperator comparison TokenType.greater
  lower : IsOperator comparison TokenType.lower
  plus : IsOperator additive TokenType.plus
  minus : IsOperator additive TokenType.minus
  star : IsOperator multiplicative TokenType.star
  slash : IsOperator multiplicative TokenType.slash

pub data IsPrefix : TokenType → Type 0 where
  negative : IsPrefix TokenType.minus
  negation : IsPrefix TokenType.negation

mutual
  pub data Derives : Level → List Token → Node → Type 0 where
    number :
        (t : Token) {i : ℤ}
        → t.type ≡ TokenType.number
        → stoll t.content ≡ ok i
        → Derives primary (t ∷ []) (int_literal i)
    name : (t : Token) → t.type ≡ TokenType.ident → Derives primary (t ∷ []) (ident t.content)
    assignment :
        (t e : Token) {ts : List Token} {n : Node}
        → t.type ≡ TokenType.ident
        → e.type ≡ TokenType.eq
        → Derives logical ts n
        → Derives primary (t ∷ e ∷ ts) (var_assign t.content n)
    call :
        (t c s : Token) {ts : List Token} {ns : Nodes}
        → t.type ≡ TokenType.ident
        → c.type ≡ TokenType.colon
        → s.type ≡ TokenType.semicolon
        → Arguments ts ns
        → Derives primary (t ∷ c ∷ (ts ++ s ∷ [])) (func_call t.content ns)
    parentheses :
        (l r : Token) {ts : List Token} {n : Node}
        → l.type ≡ TokenType.l_paren
        → r.type ≡ TokenType.r_paren
        → Derives logical ts n
        → Derives primary (l ∷ (ts ++ r ∷ [])) n
    prefix :
        (op : Token) {ts : List Token} {n : Node}
        → IsPrefix op.type
        → Derives unary ts n
        → Derives unary (op ∷ ts) (unary_op op.type n)
    operand :
        {l m : Level} {ts : List Token} {n : Node} → NextLevel l m → Derives m ts n → Derives l ts n
    operation :
        {l m : Level} (op : Token) {left right : List Token} {a b : Node}
        → NextLevel l m
        → IsOperator l op.type
        → Derives l left a
        → Derives m right b
        → Derives l (left ++ op ∷ right) (binary_op op.type a b)

  -- The last argument may have a comma behind it.
  pub data Arguments : List Token → Nodes → Type 0 where
    no_argument : Arguments [] nil
    last_argument : {ts : List Token} {n : Node} → Derives logical ts n → Arguments ts (cons n nil)
    argument :
        (c : Token) {ts us : List Token} {n : Node} {ns : Nodes}
        → c.type ≡ TokenType.comma
        → Derives logical ts n
        → Arguments us ns
        → Arguments (ts ++ c ∷ us) (cons n ns)

-- No expression is empty.
pub Derives-length : {l : Level} {ts : List Token} {n : Node} → Derives l ts n → 0 < length ts
Derives-length (number t h k) = omega arith
Derives-length (name t h) = omega arith
Derives-length (assignment t e h k d) = omega arith
Derives-length (call t c s h k j args) = omega arith
Derives-length (parentheses l r h k d) = omega arith
Derives-length (prefix op p d) = omega arith
Derives-length (operand next d) = Derives-length d
Derives-length (operation op {left} {right} next is d e) =
    omega (arith, length-append {0} left (op ∷ right))
