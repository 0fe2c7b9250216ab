-- ===== src/Examples/ParserExamples.antt =====
-- Tokens and programs for the theorems on the parser and the compiler.
use sprout_lang.Prelude.{ℕ, inl, back, set_back, ◌+◌, ◌*◌, ◌≡◌, ◌∷◌, ◌++◌, refl, List, [], arith}
use sprout_lang.Prelude.Int.{pos}
use sprout_lang.Result.{ok, Returns}
use sprout_lang.Ram.{malloc}
use sprout_lang.MemManager.{align, needs_chunk, alloc_chunk, place, take_from, allocate_memory}
use sprout_lang.MemManager.Outcome.{fresh}
use sprout_lang.Lexer.{TokenType, Token, make_token, is_digit, is_space, after}
use sprout_lang.Lexer
use sprout_lang.Ast.{Text, Node, nil, cons, program, binary_op, ident, int_literal}
use sprout_lang.Parser.{
  NodeSizes, Arena, parse_expression, parse_primary, parse_identified, allocate, is_logical,
  is_comparison, is_additive, is_multiplicative,
}
use sprout_lang.Parser.Tokens.{same_type, stoll, stoll_digits, read_digits, next_is, peek, advance}
use sprout_lang.Parser.Grammar.{plus, star}
use sprout_lang.Parser.Plain.{
  logical_level, comparison_level, additive_level, multiplicative_level, Whole, plain, name, number,
  unprefixed, operand, operation,
}
use sprout_lang.Parser.Levels.{Finds}
use sprout_lang.Parser.Complete.{parse_expression-Finds}
use sprout_lang.Parser.Placement.{IsSound, Extends}
use sprout_lang.Statements.{parse_program, parse_top_level, parse_statement, push_node}
use sprout_lang.Statements.Programs.{IsProgram, parse_program-IsProgram, parse_program-IsSound}
use sprout_lang.Statements.Gaps.{fraction_dropped}
use sprout_lang.Compiler.{no_memory}
use sprout_lang.Examples.{spare}

-- Sizes that a 64-bit compiler gives.
abbrev common_sizes : NodeSizes
common_sizes = record {
  program = 32;
  block = 32;
  binary_op = 24;
  unary_op = 16;
  ident = 40;
  int_literal = 16;
  var_decl = 48;
  var_assign = 48;
  func_call = 64;
  if_stmt = 32;
}

abbrev empty_arena : Arena
empty_arena = record { mem = no_memory; ram = spare }

abbrev named : ℕ → Token
named c = make_token TokenType.ident (c ∷ [])

abbrev add_sign : Token
add_sign = make_token TokenType.plus (b'+' ∷ [])

abbrev times_sign : Token
times_sign = make_token TokenType.star (b'*' ∷ [])

abbrev two : Token
two = make_token TokenType.number (b'2' ∷ [])

-- a + 2 * b
abbrev formula : List Token
formula = named b'a' ∷ add_sign ∷ two ∷ times_sign ∷ named b'b' ∷ []

abbrev formula_tree : Node
formula_tree =
    binary_op TokenType.plus (ident (b'a' ∷ []))
      (binary_op TokenType.star (int_literal (pos 2)) (ident (b'b' ∷ [])))

two_value : stoll (b'2' ∷ []) ≡ ok (pos 2)
unfolding stoll stoll_digits read_digits after is_space is_digit Lexer.peek
two_value = refl

formula-Whole : Whole formula formula_tree
formula-Whole = plain (
    operand logical_level (
      operand comparison_level (
        operation add_sign {left = named b'a' ∷ []} additive_level plus
          (operand additive_level
            (operand multiplicative_level (unprefixed (name (named b'a') refl))))
          (operation times_sign {left = two ∷ []} multiplicative_level star
            (operand multiplicative_level (unprefixed (number two refl two_value)))
            (unprefixed (name (named b'b') refl))))))

parse_expression-Finds_example :
    Finds formula_tree [] (parse_expression common_sizes 6 (formula ++ []) empty_arena)
unfolding same_type is_logical is_comparison is_additive is_multiplicative peek
parse_expression-Finds_example =
    parse_expression-Finds common_sizes 6 formula formula_tree [] empty_arena formula-Whole
      (refl, (refl, (refl, (refl, (refl, refl))))) (omega arith)

parse_program-IsProgram_example :
    Returns (λ (n, ar'). IsProgram formula n) (parse_program common_sizes formula empty_arena)
parse_program-IsProgram_example = parse_program-IsProgram common_sizes formula empty_arena

abbrev two_and_half : Token
two_and_half = make_token TokenType.number (b'2' ∷ b'.' ∷ b'5' ∷ [])

fraction_dropped_example :
    Finds (int_literal (pos 2)) [] (
      parse_primary common_sizes
        (parse_expression common_sizes 3)
        3
        (two_and_half ∷ [])
        empty_arena)
unfolding is_digit
fraction_dropped_example =
    fraction_dropped common_sizes (parse_expression common_sizes 3) 3 b'2' [] (b'5' ∷ []) (pos 2)
      two_and_half [] empty_arena refl refl refl tt two_value

-- sprout "a =" 1
abbrev arguments : List Text
arguments = (b'a' ∷ b' ' ∷ b'=' ∷ []) ∷ (b'1' ∷ []) ∷ []

empty_arena-IsSound : IsSound empty_arena
empty_arena-IsSound = record {
  valid = (tt, tt);
  later = λ k q h e. tt;
  apart = λ k l q r h less e f.
      let first : 65536 + k * 8388608 ≡ q = cc in
      let second : 65536 + l * 8388608 ≡ r = cc in inl (omega arith);
}

-- The arena after the two nodes of the program `a`.
abbrev two_nodes : Arena
two_nodes = record {
  mem = record { chunks = fresh 65536 72 ∷ []; allocated = 72; max = 0 };
  ram = record spare { calls = 1; blocks = (65536, 4194304) ∷ [] };
}

abbrev one_name : Node
one_name = program (cons (ident (b'a' ∷ [])) nil)

one_name_run : parse_program common_sizes (named b'a' ∷ []) empty_arena ≡ ok (one_name, two_nodes)
unfolding parse_program parse_top_level parse_statement push_node parse_primary parse_identified
    next_is peek advance allocate allocate_memory align needs_chunk alloc_chunk place take_from
    malloc back set_back
one_name_run = refl

parse_program-IsSound_example : IsSound two_nodes × Extends empty_arena two_nodes
parse_program-IsSound_example =
    parse_program-IsSound common_sizes (named b'a' ∷ []) empty_arena one_name two_nodes
      (omega arith) empty_arena-IsSound one_name_run
