-- ===== src/Lexer.antt =====
-- src/compiler/lexer.h and lexer.cpp: the scanner. A `Source` is the text from its position on, as
-- bytes; reading behind the end gives '\0', as `peek` does. The classes of <cctype> are those of the
-- "C" locale, where no byte from 128 on is in any.
pub mod Progress
pub mod Lexemes
pub mod Words
pub mod Symbols
pub mod RoundTrip
pub mod Directives
pub mod Reads
pub mod Sound
use sprout_lang.Prelude.{
  ℕ, zero, suc, Bool, true, false, ◌&&◌, ◌||◌, Option, none, some, List, [], ◌∷◌, ◌++◌, length,
  ◌==◌, leb, not, if◌then◌else◌,
}
use sprout_lang.Result.{Result, ok, out_of_fuel, ensure, ◌>>=◌, ◌>>◌, uninitialized}

pub data TokenType : Type 0 where
  var array int float boolean char6 print import : TokenType
  if_keyword else_keyword while func ret : TokenType
  number ident : TokenType
  plus minus star slash eq eqeq greater lower greater_eq lower_eq not_eq : TokenType
  double_and double_vbar colon comma doublecolon semicolon negation : TokenType
  l_paren r_paren l_sqr_brkt r_sqr_brkt l_curl_brkt r_curl_brkt arr_right : TokenType
  unknown end_of_file : TokenType

pub record Token : Type 0 where
  pub type : TokenType
  pub content : List ℕ

abbrev pub make_token : TokenType → List ℕ → Token
make_token type content = record { type = type; content = content }

abbrev pub Source : Type 0
Source = List ℕ

unfoldable pub peek : Source → ℕ
peek [] = 0
peek (c ∷ s) = c

unfoldable pub advance : Source → Source
advance [] = []
advance (c ∷ s) = s

abbrev within : ℕ → ℕ → ℕ → Bool
within low high c = leb low c && leb c high

unfoldable pub is_alpha : ℕ → Bool
is_alpha c = within b'a' b'z' c || within b'A' b'Z' c

unfoldable pub is_digit : ℕ → Bool
is_digit c = within b'0' b'9' c

unfoldable pub is_alnum : ℕ → Bool
unfolding is_alpha is_digit
is_alnum c = is_alpha c || is_digit c

unfoldable pub is_space : ℕ → Bool
is_space c = c == b' ' || within b'\t' b'\r' c

-- A loop `while (test(peek(s))) word += advance(s)`: the word, and the source after it. No test in
-- the source holds of '\0', so that the loop stops at the end of the text.
module _ (test : ℕ → Bool) where
  unfoldable pub word : Source → List ℕ
  word [] = []
  word (c ∷ s) = if test c then c ∷ word s else []

  unfoldable pub after : Source → Source
  after [] = []
  after (c ∷ s) = let rest = after s in if test c then rest else c ∷ s

unfoldable pub in_line : ℕ → Bool
in_line c = not (c == b'\n') && not (c == 0)

unfoldable pub starts_comment : Source → Bool
starts_comment [] = false
starts_comment (c ∷ []) = false
starts_comment (c ∷ d ∷ s) = c == b'/' && d == b'/'

-- Every comment ends a round, so that the length of the text bounds the rounds.
unfoldable pub skip_white_space : ℕ → Source → Result Source
skip_white_space zero s = out_of_fuel
skip_white_space (suc rounds) s =
    let s' = after is_space s in
    let rest = skip_white_space rounds (after in_line s') in
    if starts_comment s' then rest else ok s'

unfoldable pub same_text : List ℕ → List ℕ → Bool
same_text [] [] = true
same_text [] (d ∷ ds) = false
same_text (c ∷ cs) [] = false
same_text (c ∷ cs) (d ∷ ds) = let rest = same_text cs ds in if c == d then rest else false

abbrev pub import_text : List ℕ
import_text = b'i' ∷ b'm' ∷ b'p' ∷ b'o' ∷ b'r' ∷ b't' ∷ []

-- The tests on a word, in their order.
abbrev pub keywords : List (List ℕ × TokenType)
keywords =
    (b'i' ∷ b'n' ∷ b't' ∷ [], int)
    ∷ (b'd' ∷ b'o' ∷ b'u' ∷ b'b' ∷ b'l' ∷ b'e' ∷ [], float)
    ∷ (b'b' ∷ b'o' ∷ b'o' ∷ b'l' ∷ b'e' ∷ b'a' ∷ b'n' ∷ [], boolean)
    ∷ (b'c' ∷ b'h' ∷ b'a' ∷ b'r' ∷ b'6' ∷ [], char6)
    ∷ (b'v' ∷ b'a' ∷ b'r' ∷ [], var)
    ∷ (b'a' ∷ b'r' ∷ b'r' ∷ b'a' ∷ b'y' ∷ [], array)
    ∷ (b'p' ∷ b'r' ∷ b'i' ∷ b'n' ∷ b't' ∷ [], print)
    ∷ (b'i' ∷ b'f' ∷ [], if_keyword)
    ∷ (b'e' ∷ b'l' ∷ b's' ∷ b'e' ∷ [], else_keyword)
    ∷ (b'w' ∷ b'h' ∷ b'i' ∷ b'l' ∷ b'e' ∷ [], while)
    ∷ (b'f' ∷ b'u' ∷ b'n' ∷ b'c' ∷ [], func)
    ∷ (b'r' ∷ b'e' ∷ b't' ∷ b'u' ∷ b'r' ∷ b'n' ∷ [], ret)
    ∷ []

unfoldable pub word_type : List (List ℕ × TokenType) → List ℕ → TokenType
word_type [] w = ident
word_type ((k, type) ∷ ks) w = let rest = word_type ks w in if same_text k w then type else rest

unfoldable pub word_token : List ℕ → Token
word_token w = make_token (word_type keywords w) w

unfoldable pub starts_fraction : Source → Bool
starts_fraction [] = false
starts_fraction (c ∷ []) = false
starts_fraction (c ∷ d ∷ s) = c == b'.' && is_digit d

unfoldable pub number_token : Source → Token × Source
number_token s =
    let num = word is_digit s in
    let s' = after is_digit s in
    if starts_fraction s'
    then (make_token number (num ++ b'.' ∷ word is_digit (advance s')), after is_digit (advance s'))
    else (make_token number num, s')

-- After the first character of a symbol that a second one, `d`, can make longer.
unfoldable pub symbol_token : ℕ → TokenType → ℕ → TokenType → Source → Token × Source
symbol_token c one d two s =
    if peek s == d then (make_token two (c ∷ d ∷ []), advance s) else (make_token one (c ∷ []), s)

-- After `#`. The type of the token is set for `import` alone.
unfoldable pub directive_token : Source → Result (Token × Source)
directive_token s = do
  let action = word is_alpha s
  let s' = after is_alpha s
  s ← skip_white_space (suc (length s')) s'
  ensure (same_text action import_text) uninitialized
  ok (make_token import (word is_alpha s), after is_alpha s)

-- The switch at the end.
unfoldable pub char_type : ℕ → TokenType
char_type c =
    if c == b'+'
    then plus
    else if c == b'*'
    then star
    else if c == b'/'
    then slash
    else if c == b','
    then comma
    else if c == b'('
    then l_paren
    else if c == b')'
    then r_paren
    else if c == b';'
    then semicolon
    else if c == b'['
    then l_sqr_brkt
    else if c == b']'
    then r_sqr_brkt
    else if c == b'{'
    then l_curl_brkt
    else if c == b'}'
    then r_curl_brkt
    else unknown

unfoldable pub token_at : Source → Result (Token × Source)
token_at s =
    let c = peek s in
    if c == 0
    then ok (make_token end_of_file [], s)
    else if is_alpha c
    then ok (word_token (word is_alnum s), after is_alnum s)
    else if is_digit c
    then ok (number_token s)
    else if c == b'-'
    then ok (symbol_token c minus b'>' arr_right (advance s))
    else if c == b'='
    then ok (symbol_token c eq b'=' eqeq (advance s))
    else if c == b':'
    then ok (symbol_token c colon b':' doublecolon (advance s))
    else if c == b'!'
    then ok (symbol_token c negation b'=' not_eq (advance s))
    else if c == b'&'
    then ok (symbol_token c unknown b'&' double_and (advance s))
    else if c == b'|'
    then ok (symbol_token c unknown b'|' double_vbar (advance s))
    else if c == b'<'
    then ok (symbol_token c lower b'=' lower_eq (advance s))
    else if c == b'>'
    then ok (symbol_token c greater b'=' greater_eq (advance s))
    else if c == b'#'
    then directive_token (advance s)
    else ok (make_token (char_type c) (c ∷ []), advance s)

unfoldable pub next_token : Source → Result (Token × Source)
next_token s = do s ← skip_white_space (suc (length s)) s; token_at s

unfoldable pub is_end : TokenType → Bool
is_end end_of_file = true
is_end _ = false

-- The loop up to the end of the text; every token takes a byte at least.
unfoldable pub tokenize : ℕ → Source → Result (List Token)
tokenize zero s = out_of_fuel
tokenize (suc rounds) s = do
  (t, s) ← next_token s
  let rest = (do ts ← tokenize rounds s; ok (t ∷ ts))
  if is_end t.type then ok [] else rest
