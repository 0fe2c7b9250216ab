-- ===== src/Parser.antt =====
-- src/compiler/parser.h and parser.cpp: recursive descent over the tokens that are left. A parser
-- reads them and the arena that its nodes are placed in, and leaves both. The functions of an
-- expression call one another in a circle; `parse_unary` is where it is closed, on fuel, and the
-- others take the parser that they call.
pub mod Tokens
pub mod Grammar
pub mod Reads
pub mod Operators
pub mod Expressions
pub mod Placement
pub mod Plain
pub mod Levels
pub mod Arguments
pub mod Complete
use sprout_lang.Prelude.{
  ℕ, zero, suc, ◌+◌, ◌-◌, ◌*◌, ◌^◌, ◌<◌, Bool, true, false, not, ◌&&◌, ◌||◌, List, [], ◌∷◌, ◌==◌,
  ltb, leb, if◌then◌else◌,
}
use sprout_lang.Prelude.Int.{ℤ, pos, negsuc, sub_ℕ}
use sprout_lang.Result.{
  Result, ok, thrown, out_of_fuel, check, ◌>>=◌, ◌>>◌, unexpected_end, other_token,
  unexpected_token, bad_argument_list, expected_identifier, no_conversion, out_of_range,
}
use sprout_lang.Ram.{Ram}
use sprout_lang.MemManager.{Memory, allocate_memory}
use sprout_lang.Lexer.{TokenType, Token, make_token, is_digit, is_space, after}
use sprout_lang.Lexer
use sprout_lang.Parser.Tokens.{same_type, peek, next_is, advance, expect, stoll}
use sprout_lang.Ast.{
  Text, Node, Nodes, nil, cons, var_decl, var_assign, func_call, binary_op, unary_op, ident,
  int_literal,
}

pub record Arena : Type 0 where
  pub mem : Memory
  pub ram : Ram

-- sizeof of the structs, which the compiler and its standard library decide.
pub record NodeSizes : Type 0 where
  pub program : ℕ
  pub block : ℕ
  pub binary_op : ℕ
  pub unary_op : ℕ
  pub ident : ℕ
  pub int_literal : ℕ
  pub var_decl : ℕ
  pub var_assign : ℕ
  pub func_call : ℕ
  pub if_stmt : ℕ

abbrev pub Parser {ℓ} : Type ℓ → Type ℓ
Parser A = List Token → Arena → Result (A × List Token × Arena)

-- Room for a node; its address is the node's. The write of the node is not modelled.
unfoldable pub allocate : ℕ → Arena → Result Arena
allocate size ar = do
  (p, mem, ram) ← allocate_memory ar.mem size ar.ram
  ok (record { mem = mem; ram = ram })

-- After an argument: a comma is passed over, a semicolon stays.
unfoldable pub after_argument : List Token → Result (List Token)
unfolding next_is
after_argument ts =
    if next_is TokenType.comma ts
    then ok (advance ts)
    else if next_is TokenType.semicolon ts
    then ok ts
    else thrown (bad_argument_list (peek ts).content)

unfoldable pub is_multiplicative : TokenType → Bool
unfolding same_type
is_multiplicative t = same_type t TokenType.star || same_type t TokenType.slash

unfoldable pub is_additive : TokenType → Bool
unfolding same_type
is_additive t = same_type t TokenType.plus || same_type t TokenType.minus

unfoldable pub is_comparison : TokenType → Bool
unfolding same_type
is_comparison t =
    same_type t TokenType.eqeq
    || same_type t TokenType.not_eq
    || same_type t TokenType.greater
    || same_type t TokenType.lower

unfoldable pub is_logical : TokenType → Bool
unfolding same_type
is_logical t = same_type t TokenType.double_and || same_type t TokenType.double_vbar

module _ (sizes : NodeSizes) where
  -- The arguments of a call, up to the semicolon.
  unfoldable pub parse_arguments : Parser Node → ℕ → Parser Nodes
  unfolding after_argument
  parse_arguments expression zero ts ar = out_of_fuel
  parse_arguments expression (suc rounds) ts ar =
      let more = do
        (arg, ts, ar) ← expression ts ar
        ts ← after_argument ts
        (args, ts, ar) ← parse_arguments expression rounds ts ar
        ok (cons arg args, ts, ar)
      in if next_is TokenType.semicolon ts then ok (nil, ts, ar) else more

  -- Behind an identifier of the text `name`.
  unfoldable pub parse_identified : Parser Node → ℕ → Text → Parser Node
  unfolding parse_arguments allocate
  parse_identified expression rounds name ts ar =
      if next_is TokenType.colon ts
      then (do
        (args, ts, ar) ← parse_arguments expression rounds (advance ts) ar
        ar ← allocate sizes.func_call ar
        ok (func_call name args, advance ts, ar))
      else if next_is TokenType.eq ts
      then (do
        ts ← expect TokenType.eq ts
        (expr, ts, ar) ← expression ts ar
        ar ← allocate sizes.var_assign ar
        ok (var_assign name expr, ts, ar))
      else (do ar ← allocate sizes.ident ar; ok (ident name, ts, ar))

  unfoldable pub parse_primary : Parser Node → ℕ → Parser Node
  unfolding parse_identified
  parse_primary expression rounds ts ar =
      let t = peek ts in
      if next_is TokenType.number ts
      then (do
        ar ← allocate sizes.int_literal ar
        number ← stoll t.content
        ok (int_literal number, advance ts, ar))
      else if next_is TokenType.ident ts
      then parse_identified expression rounds t.content (advance ts) ar
      else if next_is TokenType.l_paren ts
      then (do
        (inner, ts, ar) ← expression (advance ts) ar
        ts ← expect TokenType.r_paren ts
        ok (inner, ts, ar))
      else thrown (unexpected_token t.content)

  -- The loop of a level of binary operators: `op` tells those of the level.
  unfoldable pub parse_operators : (TokenType → Bool) → Parser Node → ℕ → Node → Parser Node
  unfolding allocate
  parse_operators op operand zero left ts ar = out_of_fuel
  parse_operators op operand (suc rounds) left ts ar =
      let more = do
        (right, ts', ar) ← operand (advance ts) ar
        ar ← allocate sizes.binary_op ar
        parse_operators op operand rounds (binary_op (peek ts).type left right) ts' ar
      in if op (peek ts).type then more else ok (left, ts, ar)

  unfoldable pub parse_level : (TokenType → Bool) → Parser Node → ℕ → Parser Node
  unfolding parse_operators
  parse_level op operand rounds ts ar = do
    (left, ts, ar) ← operand ts ar
    parse_operators op operand rounds left ts ar

  unfoldable pub parse_multiplicative : Parser Node → ℕ → Parser Node
  unfolding parse_level
  parse_multiplicative unary rounds = parse_level is_multiplicative unary rounds

  unfoldable pub parse_additive : Parser Node → ℕ → Parser Node
  unfolding parse_multiplicative
  parse_additive unary rounds = parse_level is_additive (parse_multiplicative unary rounds) rounds

  unfoldable pub parse_comparison : Parser Node → ℕ → Parser Node
  unfolding parse_additive
  parse_comparison unary rounds = parse_level is_comparison (parse_additive unary rounds) rounds

  unfoldable pub parse_logical : Parser Node → ℕ → Parser Node
  unfolding parse_comparison
  parse_logical unary rounds = parse_level is_logical (parse_comparison unary rounds) rounds

  unfoldable pub parse_unary : ℕ → Parser Node
  unfolding parse_logical parse_primary same_type
  parse_unary zero ts ar = out_of_fuel
  parse_unary (suc fuel) ts ar =
      let op = (peek ts).type in
      let negated = do
        (operand, ts, ar) ← parse_unary fuel (advance ts) ar
        ar ← allocate sizes.unary_op ar
        ok (unary_op op operand, ts, ar)
      in if same_type op TokenType.minus || same_type op TokenType.negation
        then negated
        else parse_primary (parse_logical (parse_unary fuel) fuel) fuel ts ar

  unfoldable pub parse_expression : ℕ → Parser Node
  unfolding parse_unary
  parse_expression fuel = parse_logical (parse_unary fuel) fuel

  -- Unused in the source.
  unfoldable pub parse_identifier : Parser Node
  parse_identifier ts ar = do
    check (next_is TokenType.ident ts) (expected_identifier (peek ts).content)
    ar ← allocate sizes.ident ar
    ok (ident (peek ts).content, advance ts, ar)
