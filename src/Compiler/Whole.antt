-- ===== src/Compiler/Whole.antt =====
-- src/compiler/compiler.cpp: the whole way from the arguments to the tree.
use sprout_lang.Prelude.{suc, ◌≡◌, List, length}
use sprout_lang.Result.{ok}
use sprout_lang.Ram.{Ram}
use sprout_lang.Ast.{Text, Node}
use sprout_lang.Ast.Outline.{outline, only, Shows}
use sprout_lang.Lexer.{tokenize}
use sprout_lang.Parser.{Arena}
use sprout_lang.Statements.Programs.{IsProgram}
use sprout_lang.Compiler.{Compilation, no_memory}
use sprout_lang.Compiler.Arguments.{spelled}

-- The tokens are those of the text that the arguments spell, the tree is of a program with these
-- tokens, the lines show its outline, and the blocks that are live are those that were before.
pub record IsCompilation (args : List Text) (ram : Ram) (c : Compilation) : Type 0 where
  pub tree : Node
  pub scanned : tokenize (suc (length (spelled args))) (spelled args) ≡ ok c.tokens
  pub parsed : IsProgram c.tokens tree
  pub printed : Shows 1 c.tree (only (outline tree))
  pub freed : c.arena.ram.blocks ≡ ram.blocks

abbrev pub at_start : Ram → Arena
at_start ram = record { mem = no_memory; ram = ram }
