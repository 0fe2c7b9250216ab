-- ===== src/Ast.antt =====
-- src/compiler/parser.h: the nodes of the syntax tree, and printAST of parser.cpp. A std::vector of
-- nodes is a `Nodes`; a node stands for the pointer to it, since nothing changes a node that is made.
pub mod Outline
use sprout_lang.Prelude.{ℕ, suc, List, [], ◌∷◌, ◌++◌}
use sprout_lang.Prelude.Int.{ℤ}
use sprout_lang.Lexer.{TokenType}

abbrev pub Text : Type 0
Text = List ℕ

-- The else block of an if statement may be null.
mutual
  pub data Node : Type 0 where
    program block : Nodes → Node
    var_decl var_assign : Text → Node → Node
    func_call : Text → Nodes → Node
    binary_op : TokenType → Node → Node → Node
    unary_op : TokenType → Node → Node
    ident : Text → Node
    int_literal : ℤ → Node
    if_stmt : Node → Node → ElseBlock → Node
    debug_out : Node → Node

  pub data Nodes : Type 0 where
    nil : Nodes
    cons : Node → Nodes → Nodes

  pub data ElseBlock : Type 0 where
    null : ElseBlock
    else_block : Node → ElseBlock

-- What printAST writes for a node, behind two blanks for each step of indentation.
pub data Label : Type 0 where
  program_label block_label if_label unknown_label : Label
  binary_label unary_label : Text → Label
  decl_label assign_label ident_label call_label : Text → Label
  int_label : ℤ → Label

unfoldable pub token_type_name : TokenType → Text
token_type_name TokenType.plus = b'+' ∷ []
token_type_name TokenType.minus = b'-' ∷ []
token_type_name TokenType.star = b'*' ∷ []
token_type_name TokenType.slash = b'/' ∷ []
token_type_name TokenType.eqeq = b'=' ∷ b'=' ∷ []
token_type_name TokenType.not_eq = b'!' ∷ b'=' ∷ []
token_type_name TokenType.lower = b'<' ∷ []
token_type_name TokenType.greater = b'>' ∷ []
token_type_name _ = b'?' ∷ []

-- The lines with their indentation.
unfoldable mutual
  unfolding token_type_name

  pub print_ast : Node → ℕ → List (ℕ × Label)
  print_ast (program ns) indent = (indent, program_label) ∷ print_nodes ns (suc indent)
  print_ast (block ns) indent = (indent, block_label) ∷ print_nodes ns (suc indent)
  print_ast (var_decl x e) indent = (indent, decl_label x) ∷ print_ast e (suc indent)
  print_ast (var_assign x e) indent = (indent, assign_label x) ∷ print_ast e (suc indent)
  print_ast (func_call x args) indent = (indent, call_label x) ∷ print_nodes args (suc indent)
  print_ast (binary_op op l r) indent =
      (indent, binary_label (token_type_name op))
      ∷ (print_ast l (suc indent) ++ print_ast r (suc indent))
  print_ast (unary_op op n) indent =
      (indent, unary_label (token_type_name op)) ∷ print_ast n (suc indent)
  print_ast (ident x) indent = (indent, ident_label x) ∷ []
  print_ast (int_literal i) indent = (indent, int_label i) ∷ []
  print_ast (if_stmt e b f) indent =
      (indent, if_label)
      ∷ (print_ast e (suc indent) ++ (print_ast b (suc indent) ++ print_else f (suc indent)))
  print_ast (debug_out e) indent = (indent, unknown_label) ∷ []

  pub print_nodes : Nodes → ℕ → List (ℕ × Label)
  print_nodes nil indent = []
  print_nodes (cons n ns) indent = print_ast n indent ++ print_nodes ns indent

  pub print_else : ElseBlock → ℕ → List (ℕ × Label)
  print_else null indent = []
  print_else (else_block b) indent = print_ast b indent
