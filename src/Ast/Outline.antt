-- ===== src/Ast/Outline.antt =====
-- printAST of src/compiler/parser.cpp: the outline of a tree, and lines that show an outline by their
-- indentation.
use sprout_lang.Prelude.{ℕ, suc, List, [], ◌∷◌, ◌++◌, sym}
use mathlib.Core.List.{append_assoc, append-nil}
use mathlib.Core.Path.{subst}
use sprout_lang.Ast.{
  Node, Nodes, ElseBlock, program, block, var_decl, var_assign, func_call, binary_op, unary_op,
  ident, int_literal, if_stmt, debug_out, nil, cons, null, else_block, Label, program_label,
  block_label, if_label, unknown_label, binary_label, unary_label, decl_label, assign_label,
  ident_label, call_label, int_label, token_type_name, print_ast, print_nodes, print_else,
}

-- A label over the outlines below it.
mutual
  pub data Outline : Type 0 where
    entry : Label → Outlines → Outline

  pub data Outlines : Type 0 where
    no_more : Outlines
    more : Outline → Outlines → Outlines

abbrev pub join : Outlines → Outlines → Outlines
join no_more os = os
join (more o rest) os = more o (join rest os)

abbrev pub only : Outline → Outlines
only o = more o no_more

-- A node over its operands, from left to right; of a call over its arguments, of an if statement over
-- its condition and its blocks.
unfoldable mutual
  pub outline : Node → Outline
  outline (program ns) = entry program_label (outlines ns)
  outline (block ns) = entry block_label (outlines ns)
  outline (var_decl x e) = entry (decl_label x) (only (outline e))
  outline (var_assign x e) = entry (assign_label x) (only (outline e))
  outline (func_call x args) = entry (call_label x) (outlines args)
  outline (binary_op op l r) =
      entry (binary_label (token_type_name op)) (more (outline l) (only (outline r)))
  outline (unary_op op n) = entry (unary_label (token_type_name op)) (only (outline n))
  outline (ident x) = entry (ident_label x) no_more
  outline (int_literal i) = entry (int_label i) no_more
  outline (if_stmt e b f) = entry if_label (more (outline e) (more (outline b) (else_outline f)))
  outline (debug_out e) = entry unknown_label no_more

  pub outlines : Nodes → Outlines
  outlines nil = no_more
  outlines (cons n ns) = more (outline n) (outlines ns)

  pub else_outline : ElseBlock → Outlines
  else_outline null = no_more
  else_outline (else_block b) = only (outline b)

-- The lines show the outlines at indentation d: what is below a label stands behind its line, one
-- step further in.
pub data Shows : ℕ → List (ℕ × Label) → Outlines → Type 0 where
  no_line : {d : ℕ} → Shows d [] no_more
  line :
      {d : ℕ} (l : Label) {ls rest : List (ℕ × Label)} {below others : Outlines}
      → Shows (suc d) ls below
      → Shows d rest others
      → Shows d ((d, l) ∷ (ls ++ rest)) (more (entry l below) others)

pub Shows-append :
    {d : ℕ} {ls rest : List (ℕ × Label)} {os others : Outlines}
    → Shows d ls os
    → Shows d rest others
    → Shows d (ls ++ rest) (join os others)
Shows-append no_line k = k
Shows-append {d = d} {rest = rest} {others = others}
      (line l {ls = ls} {rest = middle} {below = below} {others = after} h h') k =
    subst (λ x. Shows d ((d, l) ∷ x) (more (entry l below) (join after others)))
      (sym (append_assoc ls middle rest)) (line l h (Shows-append h' k))

-- A node's line with what is below it.
one-Shows :
    {d : ℕ} (l : Label) {ls : List (ℕ × Label)} {below : Outlines}
    → Shows (suc d) ls below
    → Shows d ((d, l) ∷ ls) (only (entry l below))
one-Shows {d = d} l {ls = ls} {below = below} h =
    subst (λ x. Shows d ((d, l) ∷ x) (only (entry l below))) (append-nil ls) (line l h no_line)

mutual
  unfolding print_ast outline

  pub print_ast-Shows : (n : Node) (d : ℕ) → Shows d (print_ast n d) (only (outline n))
  print_ast-Shows (program ns) d = one-Shows program_label (print_nodes-Shows ns (suc d))
  print_ast-Shows (block ns) d = one-Shows block_label (print_nodes-Shows ns (suc d))
  print_ast-Shows (var_decl x e) d = one-Shows (decl_label x) (print_ast-Shows e (suc d))
  print_ast-Shows (var_assign x e) d = one-Shows (assign_label x) (print_ast-Shows e (suc d))
  print_ast-Shows (func_call x args) d = one-Shows (call_label x) (print_nodes-Shows args (suc d))
  print_ast-Shows (binary_op op l r) d =
      one-Shows _ (Shows-append (print_ast-Shows l (suc d)) (print_ast-Shows r (suc d)))
  print_ast-Shows (unary_op op n) d = one-Shows _ (print_ast-Shows n (suc d))
  print_ast-Shows (ident x) d = one-Shows (ident_label x) no_line
  print_ast-Shows (int_literal i) d = one-Shows (int_label i) no_line
  print_ast-Shows (if_stmt e b f) d = one-Shows if_label (
      Shows-append (print_ast-Shows e (suc d))
        (Shows-append (print_ast-Shows b (suc d)) (print_else-Shows f (suc d))))
  print_ast-Shows (debug_out e) d = one-Shows unknown_label no_line

  pub print_nodes-Shows : (ns : Nodes) (d : ℕ) → Shows d (print_nodes ns d) (outlines ns)
  print_nodes-Shows nil d = no_line
  print_nodes-Shows (cons n ns) d = Shows-append (print_ast-Shows n d) (print_nodes-Shows ns d)

  pub print_else-Shows : (f : ElseBlock) (d : ℕ) → Shows d (print_else f d) (else_outline f)
  print_else-Shows null d = no_line
  print_else-Shows (else_block b) d = print_ast-Shows b d
