-- ===== src/Parser/Tokens.antt =====
-- src/compiler/parser.h: the tokens that are left, and the value of a number's text.
use sprout_lang.Prelude.{ℕ, ◌+◌, ◌-◌, ◌*◌, ◌^◌, Bool, List, [], ◌∷◌, ◌==◌, leb, if◌then◌else◌}
use sprout_lang.Prelude.Int.{ℤ, pos, sub_ℕ}
use sprout_lang.Result.{
  Result, ok, thrown, check, ◌>>◌, unexpected_end, other_token, no_conversion, out_of_range,
}
use sprout_lang.Lexer.{TokenType, Token, make_token, is_digit, is_space, after}
use sprout_lang.Lexer
use sprout_lang.Ast.{Text}

-- The place of a token type in its enum.
unfoldable pub enum_value : TokenType → ℕ
enum_value TokenType.var = 0
enum_value TokenType.array = 1
enum_value TokenType.int = 2
enum_value TokenType.float = 3
enum_value TokenType.boolean = 4
enum_value TokenType.char6 = 5
enum_value TokenType.print = 6
enum_value TokenType.import = 7
enum_value TokenType.if_keyword = 8
enum_value TokenType.else_keyword = 9
enum_value TokenType.while = 10
enum_value TokenType.func = 11
enum_value TokenType.ret = 12
enum_value TokenType.number = 13
enum_value TokenType.ident = 14
enum_value TokenType.plus = 15
enum_value TokenType.minus = 16
enum_value TokenType.star = 17
enum_value TokenType.slash = 18
enum_value TokenType.eq = 19
enum_value TokenType.eqeq = 20
enum_value TokenType.greater = 21
enum_value TokenType.lower = 22
enum_value TokenType.greater_eq = 23
enum_value TokenType.lower_eq = 24
enum_value TokenType.not_eq = 25
enum_value TokenType.double_and = 26
enum_value TokenType.double_vbar = 27
enum_value TokenType.colon = 28
enum_value TokenType.comma = 29
enum_value TokenType.doublecolon = 30
enum_value TokenType.semicolon = 31
enum_value TokenType.negation = 32
enum_value TokenType.l_paren = 33
enum_value TokenType.r_paren = 34
enum_value TokenType.l_sqr_brkt = 35
enum_value TokenType.r_sqr_brkt = 36
enum_value TokenType.l_curl_brkt = 37
enum_value TokenType.r_curl_brkt = 38
enum_value TokenType.arr_right = 39
enum_value TokenType.unknown = 40
enum_value TokenType.end_of_file = 41

unfoldable pub same_type : TokenType → TokenType → Bool
unfolding enum_value
same_type a b = enum_value a == enum_value b

unfoldable pub peek : List Token → Token
peek [] = make_token TokenType.end_of_file []
peek (t ∷ ts) = t

-- The type of the next token is `k`.
unfoldable pub next_is : TokenType → List Token → Bool
unfolding peek same_type
next_is k ts = same_type (peek ts).type k

unfoldable pub advance : List Token → List Token
advance [] = []
advance (t ∷ ts) = ts

unfoldable pub expect : TokenType → List Token → Result (List Token)
unfolding same_type
expect k [] = thrown unexpected_end
expect k (t ∷ ts) = if same_type t.type k then ok ts else thrown other_token

-- The value of the digits at the front, behind `value`.
unfoldable pub read_digits : ℕ → Text → ℕ
read_digits value [] = value
read_digits value (c ∷ cs) =
    let rest = read_digits (value * 10 + (c - b'0')) cs in if is_digit c then rest else value

-- The digits behind the sign.
unfoldable pub stoll_digits : (ℕ → ℤ) → ℕ → Text → Result ℤ
unfolding read_digits
stoll_digits sign bound text = do
  check (is_digit (Lexer.peek text)) no_conversion
  let value = read_digits 0 text
  check (leb value bound) out_of_range
  ok (sign value)

-- std::stoll in base 10.
unfoldable pub stoll : Text → Result ℤ
unfolding stoll_digits
stoll text =
    let s = after is_space text in
    if Lexer.peek s == b'-'
    then stoll_digits (λ n. sub_ℕ 0 n) (2 ^ 63) (Lexer.advance s)
    else if Lexer.peek s == b'+'
    then stoll_digits pos (2 ^ 63 - 1) (Lexer.advance s)
    else stoll_digits pos (2 ^ 63 - 1) s
