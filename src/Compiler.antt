-- ===== src/Compiler.antt =====
-- src/compiler/compiler.cpp: the compiler's main, from the arguments of the command line to the
-- printed tree.
pub mod Arguments
pub mod Freed
pub mod Whole
use sprout_lang.Prelude.{ℕ, suc, Bool, List, [], ◌∷◌, ◌++◌, length, if◌then◌else◌}
use sprout_lang.Result.{Result, ok, ◌>>=◌}
use sprout_lang.Ram.{Ram}
use sprout_lang.Ast.{Text, Label, print_ast}
use sprout_lang.MemManager.{Memory, free_memory}
use sprout_lang.Lexer.{Token, tokenize}
use sprout_lang.Parser.{NodeSizes, Arena}
use sprout_lang.Statements.{parse_program}

-- The arguments joined by blanks, behind `code`; none stands before the first that is not empty.
unfoldable pub join_arguments : Text → List Text → Text
join_arguments code [] = code
join_arguments [] (a ∷ rest) = join_arguments a rest
join_arguments (c ∷ cs) (a ∷ rest) = join_arguments (((c ∷ cs) ++ b' ' ∷ []) ++ a) rest

abbrev pub no_memory : Memory
no_memory = record { chunks = []; allocated = 0; max = 0 }

-- The tokens that tokenize echoes, the lines of the tree, and the memory at the end.
pub record Compilation : Type 0 where
  pub tokens : List Token
  pub tree : List (ℕ × Label)
  pub arena : Arena

unfoldable pub compile : NodeSizes → List Text → Ram → Result Compilation
unfolding join_arguments
compile sizes args ram = do
  let code = join_arguments [] args
  tokens ← tokenize (suc (length code)) code
  (tree, arena) ← parse_program sizes tokens (record { mem = no_memory; ram = ram })
  let (mem, ram) = free_memory arena.mem arena.ram
  ok (record { tokens = tokens; tree = print_ast tree 1; arena = record { mem = mem; ram = ram } })
