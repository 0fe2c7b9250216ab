-- ===== src/Statements.antt =====
-- src/compiler/parser.cpp: statements, blocks and programs. The two switches, of parseBlock and of
-- parseProgram, are one function here, whose result is the node that they push, if any.
pub mod Grammar
pub mod Steps
pub mod Reads
pub mod Programs
pub mod Gaps
use sprout_lang.Prelude.{
  ℕ, zero, suc, ◌+◌, ◌*◌, Bool, true, false, Option, none, some, List, [], ◌∷◌, length,
  if◌then◌else◌,
}
use sprout_lang.Result.{Result, ok, thrown, out_of_fuel, ◌>>=◌, ◌>>◌, block_not_closed}
use sprout_lang.Lexer.{TokenType, Token}
use sprout_lang.Ast.{
  Node, Nodes, ElseBlock, program, block, var_decl, if_stmt, nil, cons, null, else_block,
}
use sprout_lang.Parser.{NodeSizes, Parser, Arena, allocate, parse_expression, parse_primary}
use sprout_lang.Parser.Tokens.{peek, next_is, advance, expect}

unfoldable pub push_node : Option Node → Nodes → Nodes
push_node none ns = ns
push_node (some n) ns = cons n ns

-- The optional type of a declaration, whatever it is.
unfoldable pub skip_type : List Token → List Token
skip_type ts = if next_is TokenType.arr_right ts then advance (advance ts) else ts

-- `expression` and `primary` are the parsers of expressions.
module _ (sizes : NodeSizes) (expression primary : Parser Node) where
  unfoldable pub parse_var_decl : Parser Node
  unfolding skip_type
  parse_var_decl ts ar = do
    ts ← expect TokenType.var ts
    let name = (peek ts).content
    ts ← expect TokenType.ident ts
    ts ← expect TokenType.eq (skip_type ts)
    (expr, ts, ar) ← expression ts ar
    ar ← allocate sizes.var_decl ar
    ok (var_decl name expr, ts, ar)

  -- Blocks hold statements that hold blocks: each call takes one off the fuel.
  unfoldable mutual
    unfolding push_node parse_var_decl

    pub parse_block : ℕ → Parser Node
    parse_block zero ts ar = out_of_fuel
    parse_block (suc fuel) ts ar = do
      ts ← expect TokenType.l_curl_brkt ts
      (statements, ts, ar) ← parse_statements fuel ts ar
      ts ← expect TokenType.r_curl_brkt ts
      ar ← allocate sizes.block ar
      ok (block statements, ts, ar)

    -- The loop of parseBlock.
    pub parse_statements : ℕ → Parser Nodes
    parse_statements zero ts ar = out_of_fuel
    parse_statements (suc fuel) ts ar =
        let more = do
          (n, ts, ar) ← parse_statement fuel ts ar
          (ns, ts, ar) ← parse_statements fuel ts ar
          ok (push_node n ns, ts, ar)
        in if next_is TokenType.r_curl_brkt ts
          then ok (nil, ts, ar)
          else if next_is TokenType.end_of_file ts
          then thrown block_not_closed
          else more

    -- The switch.
    pub parse_statement : ℕ → Parser (Option Node)
    parse_statement zero ts ar = out_of_fuel
    parse_statement (suc fuel) ts ar =
        let inner = (do (n, ts, ar) ← parse_block fuel ts ar; ok (some n, ts, ar)) in
        let branches = (do (n, ts, ar) ← parse_if_stmt fuel ts ar; ok (some n, ts, ar)) in
        if next_is TokenType.var ts
        then (do (n, ts, ar) ← parse_var_decl ts ar; ok (some n, ts, ar))
        else if next_is TokenType.l_curl_brkt ts
        then inner
        else if next_is TokenType.if_keyword ts
        then branches
        else if next_is TokenType.ident ts
        then (do (n, ts, ar) ← primary ts ar; ok (some n, ts, ar))
        else ok (none, advance ts, ar)

    pub parse_if_stmt : ℕ → Parser Node
    parse_if_stmt zero ts ar = out_of_fuel
    parse_if_stmt (suc fuel) ts ar = do
      ts ← expect TokenType.if_keyword ts
      ts ← expect TokenType.l_paren ts
      (expr, ts, ar) ← expression ts ar
      ts ← expect TokenType.r_paren ts
      (if_block, ts, ar) ← parse_block fuel ts ar
      (otherwise, ts, ar) ← parse_else fuel ts ar
      ar ← allocate sizes.if_stmt ar
      ok (if_stmt expr if_block otherwise, ts, ar)

    -- The part of parseIfStmt from `else` on.
    pub parse_else : ℕ → Parser ElseBlock
    parse_else zero ts ar = out_of_fuel
    parse_else (suc fuel) ts ar =
        let present = do
          ts ← expect TokenType.else_keyword ts
          (b, ts, ar) ← parse_block fuel ts ar
          ok (else_block b, ts, ar)
        in if next_is TokenType.else_keyword ts then present else ok (null, ts, ar)

  -- The loop of parseProgram.
  unfoldable pub parse_top_level : ℕ → Parser Nodes
  unfolding parse_statement push_node
  parse_top_level zero ts ar = out_of_fuel
  parse_top_level (suc fuel) [] ar = ok (nil, [], ar)
  parse_top_level (suc fuel) (t ∷ ts) ar = do
    (n, ts, ar) ← parse_statement fuel (t ∷ ts) ar
    (ns, ts, ar) ← parse_top_level fuel ts ar
    ok (push_node n ns, ts, ar)

-- A call nests at most as deep as there are tokens.
unfoldable pub parse_program : NodeSizes → List Token → Arena → Result (Node × Arena)
unfolding parse_top_level parse_expression
parse_program sizes tokens ar = do
  let deep = suc (length tokens)
  let expression = parse_expression sizes deep
  let primary = parse_primary sizes expression deep
  (ns, ts, ar) ← parse_top_level sizes expression primary (4 * deep) tokens ar
  ar ← allocate sizes.program ar
  ok (program ns, ar)
