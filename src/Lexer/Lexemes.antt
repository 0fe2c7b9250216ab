-- ===== src/Lexer/Lexemes.antt =====
-- src/compiler/lexer.cpp: the tokens that the scanner knows, and their spelling: behind a blank.
use sprout_lang.Prelude.{
  ℕ, Bool, true, false, ◌||◌, List, [], ◌∷◌, ◌++◌, All, ◌==◌, ◌≡◌, if◌then◌else◌,
}
use sprout_lang.Lexer.{
  TokenType, Token, make_token, Source, is_alpha, is_digit, is_alnum, is_space, word_token,
  char_type,
}

-- Two characters that make a symbol.
pub data IsPair : ℕ → ℕ → TokenType → Type 0 where
  arrow : IsPair b'-' b'>' TokenType.arr_right
  equals : IsPair b'=' b'=' TokenType.eqeq
  colons : IsPair b':' b':' TokenType.doublecolon
  differs : IsPair b'!' b'=' TokenType.not_eq
  ands : IsPair b'&' b'&' TokenType.double_and
  bars : IsPair b'|' b'|' TokenType.double_vbar
  at_most : IsPair b'<' b'=' TokenType.lower_eq
  at_least : IsPair b'>' b'=' TokenType.greater_eq

-- The first characters of these, alone.
pub data IsHalf : ℕ → TokenType → Type 0 where
  dash : IsHalf b'-' TokenType.minus
  equal : IsHalf b'=' TokenType.eq
  one_colon : IsHalf b':' TokenType.colon
  bang : IsHalf b'!' TokenType.negation
  ampersand : IsHalf b'&' TokenType.unknown
  bar : IsHalf b'|' TokenType.unknown
  below : IsHalf b'<' TokenType.lower
  above : IsHalf b'>' TokenType.greater

-- Blank, letter, digit, the end of the text, or a character that starts one of the longer tokens.
unfoldable pub starts_longer : ℕ → Bool
starts_longer c =
    c == 0
    || is_space c
    || is_alpha c
    || is_digit c
    || c == b'-'
    || c == b'='
    || c == b':'
    || c == b'!'
    || c == b'&'
    || c == b'|'
    || c == b'<'
    || c == b'>'
    || c == b'#'

abbrev pub Each : (ℕ → Bool) → List ℕ → Type 0
Each test = All (λ c. test c ≡ true)

-- The tokens of the language, and single characters that it does not know.
pub data IsLexeme : Token → Type 0 where
  spelled :
      (c : ℕ) (cs : List ℕ) → is_alpha c ≡ true → Each is_alnum cs → IsLexeme (word_token (c ∷ cs))
  whole :
      (d : ℕ) (ds : List ℕ)
      → is_digit d ≡ true
      → Each is_digit ds
      → IsLexeme (make_token TokenType.number (d ∷ ds))
  fraction :
      (d : ℕ) (ds : List ℕ) (e : ℕ) (es : List ℕ)
      → is_digit d ≡ true
      → Each is_digit ds
      → is_digit e ≡ true
      → Each is_digit es
      → IsLexeme (make_token TokenType.number ((d ∷ ds) ++ b'.' ∷ e ∷ es))
  pair : {c d : ℕ} {t : TokenType} → IsPair c d t → IsLexeme (make_token t (c ∷ d ∷ []))
  half : {c : ℕ} {t : TokenType} → IsHalf c t → IsLexeme (make_token t (c ∷ []))
  single : (c : ℕ) → starts_longer c ≡ false → IsLexeme (make_token (char_type c) (c ∷ []))
  imported :
      (c : ℕ) (cs : List ℕ)
      → is_alpha c ≡ true
      → Each is_alpha cs
      → IsLexeme (make_token TokenType.import (c ∷ cs))

unfoldable pub is_import : TokenType → Bool
is_import TokenType.import = true
is_import _ = false

-- A token behind a blank.
unfoldable pub print_token : Token → List ℕ
print_token t =
    if is_import t.type
    then b' ' ∷ b'#' ∷ b'i' ∷ b'm' ∷ b'p' ∷ b'o' ∷ b'r' ∷ b't' ∷ b' ' ∷ t.content
    else b' ' ∷ t.content

unfoldable pub print_tokens : List Token → List ℕ
print_tokens [] = []
print_tokens (t ∷ ts) = print_token t ++ print_tokens ts

-- What may follow a token.
pub data IsGap : Source → Type 0 where
  nothing : IsGap []
  blank : (s : Source) → IsGap (b' ' ∷ s)
