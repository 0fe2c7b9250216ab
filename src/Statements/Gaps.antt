-- ===== src/Statements/Gaps.antt =====
-- src/compiler/parser.cpp: where the parser falls short of Sprout_lang.ebnf.
use sprout_lang.Prelude.{
  ℕ, suc, ◌+◌, ◌-◌, ◌*◌, ◌^◌, arith, ap, ◌∙◌, ◌≡◌, true, false, List, [], ◌∷◌, ◌++◌, ◌==◌,
}
use sprout_lang.Prelude.Int.{ℤ, pos}
use sprout_lang.Result.{ok, thrown, other_token}
use sprout_lang.Lexer.{TokenType, Token, is_digit, after, peek}
use sprout_lang.Lexer.Lexemes.{Each}
use sprout_lang.Ast.{Text, Node, int_literal}
use sprout_lang.Parser.{NodeSizes, Parser, Arena, parse_primary}
use sprout_lang.Parser.Tokens.{stoll, stoll_digits, read_digits, expect, same_type}
use sprout_lang.Lexer.Words.{digit_class, dot_not_digit}
use sprout_lang.Parser.Levels.{Finds}
use sprout_lang.Parser.Complete.{number-Finds}
use sprout_lang.Parser.Arguments.{next_is_type}
use sprout_lang.Statements.{parse_else}

-- `else if`, which the grammar has, is refused: after `else` the parser wants a bracket.
pub else_if_throws :
    (sizes : NodeSizes) (expression primary : Parser Node) (fuel : ℕ) (e i : Token)
    (rest : List Token) (ar : Arena)
    → e.type ≡ TokenType.else_keyword
    → i.type ≡ TokenType.if_keyword
    → parse_else sizes expression primary (suc (suc fuel)) (e ∷ i ∷ rest) ar ≡ thrown other_token
unfolding parse_else expect same_type
else_if_throws sizes expression primary fuel e i rest ar h k =
    rw (next_is_type TokenType.else_keyword e (i ∷ rest) h, h, k)

read_digits-dot :
    (value : ℕ) (ds rest : Text)
    → Each is_digit ds
    → read_digits value (ds ++ b'.' ∷ rest) ≡ read_digits value ds
unfolding read_digits
read_digits-dot value [] rest all = rw dot_not_digit
read_digits-dot value (d ∷ ds) rest all =
    rw (all.0, read_digits-dot (value * 10 + (d - b'0')) ds rest all.1)

digit_signs : (d : ℕ) → is_digit d ≡ true → ((d == b'-') ≡ false) × ((d == b'+') ≡ false)
unfolding is_digit
digit_signs d h = ground arith

stoll_unsigned :
    (d : ℕ) (ds : Text)
    → is_digit d ≡ true
    → stoll (d ∷ ds) ≡ stoll_digits pos (2 ^ 63 - 1) (d ∷ ds)
unfolding stoll after peek
stoll_unsigned d ds h = let signs = digit_signs d h in rw ((digit_class d h).0, signs.0, signs.1)

stoll_fraction :
    (d : ℕ) (ds rest : Text)
    → is_digit d ≡ true
    → Each is_digit ds
    → stoll ((d ∷ ds) ++ b'.' ∷ rest) ≡ stoll (d ∷ ds)
unfolding stoll_digits peek
stoll_fraction d ds rest h all =
    rw (stoll_unsigned d (ds ++ b'.' ∷ rest) h, stoll_unsigned d ds h)
      (rw (read_digits-dot 0 (d ∷ ds) rest (h, all)))

-- The literal of a fraction has the value of the digits before its dot, unless an allocation throws.
pub fraction_dropped :
    (sizes : NodeSizes) (expression : Parser Node) (rounds d : ℕ) (ds part : Text) (i : ℤ)
    (t : Token) (rest : List Token) (ar : Arena)
    → t.type ≡ TokenType.number
    → t.content ≡ (d ∷ ds) ++ b'.' ∷ part
    → is_digit d ≡ true
    → Each is_digit ds
    → stoll (d ∷ ds) ≡ ok i
    → Finds (int_literal i) rest (parse_primary sizes expression rounds (t ∷ rest) ar)
fraction_dropped sizes expression rounds d ds part i t rest ar h k first all e =
    number-Finds sizes expression rounds t i rest ar h
      (ap stoll k ∙ stoll_fraction d ds part first all ∙ e)
