-- ===== src/Lexer/Symbols.antt =====
-- src/compiler/lexer.cpp: symbols and the import directive, scanned off a text behind a blank.
use sprout_lang.Prelude.{
  ℕ, suc, true, false, List, [], ◌∷◌, ◌++◌, length, ◌==◌, ◌≡◌, refl, ap, ◌∙◌, arith,
}
use sprout_lang.Result.{ok}
use sprout_lang.Lexer.{
  TokenType, make_token, Source, is_alpha, is_digit, is_space, peek, advance, word, after,
  starts_comment, skip_white_space, symbol_token, directive_token, same_text, char_type, token_at,
  next_token,
}
use sprout_lang.Lexer.Lexemes.{
  IsPair, dash, equal, one_colon, bang, ampersand, bar, below, above, arrow, equals, colons,
  differs, ands, bars, at_most, at_least, IsHalf, starts_longer, Each, IsGap, nothing, blank,
}
use sprout_lang.Lexer.Words.{
  word-append, skip_white_space-blank, next_token-blank, letter_class, starts_comment-other,
}

pub next_token-IsPair :
    (c d : ℕ) (t : TokenType) (rest : Source)
    → IsPair c d t
    → next_token (b' ' ∷ c ∷ d ∷ rest) ≡ ok (make_token t (c ∷ d ∷ []), rest)
unfolding next_token skip_white_space token_at peek advance after symbol_token starts_comment
    is_space is_alpha is_digit
next_token-IsPair _ _ _ rest arrow = refl
next_token-IsPair _ _ _ rest equals = refl
next_token-IsPair _ _ _ rest colons = refl
next_token-IsPair _ _ _ rest differs = refl
next_token-IsPair _ _ _ rest ands = refl
next_token-IsPair _ _ _ rest bars = refl
next_token-IsPair _ _ _ rest at_most = refl
next_token-IsPair _ _ _ rest at_least = refl

pub symbol_token-gap :
    (c : ℕ) (one : TokenType) (d : ℕ) (two : TokenType) (rest : Source)
    → (b' ' == d) ≡ false
    → (0 == d) ≡ false
    → IsGap rest
    → symbol_token c one d two rest ≡ (make_token one (c ∷ []), rest)
unfolding symbol_token peek
symbol_token-gap c one d two [] h k nothing = rw k
symbol_token-gap c one d two _ h k (blank s) = rw h

-- What the scanner does at the first character of a longer symbol.
pub record HalfStep (c : ℕ) (t : TokenType) (rest : Source) : Type 0 where
  second : ℕ
  longer : TokenType
  scan : token_at (c ∷ rest) ≡ ok (symbol_token c t second longer rest)
  not_blank : (b' ' == second) ≡ false
  not_end : (0 == second) ≡ false
  not_slash : (c == b'/') ≡ false
  no_space : is_space c ≡ false

pub half_step : (c : ℕ) (t : TokenType) (rest : Source) → IsHalf c t → HalfStep c t rest
unfolding token_at peek advance is_space is_alpha is_digit
half_step _ _ rest dash = record {
  second = b'>';
  longer = TokenType.arr_right;
  scan = refl;
  not_blank = refl;
  not_end = refl;
  not_slash = refl;
  no_space = refl;
}
half_step _ _ rest equal = record {
  second = b'=';
  longer = TokenType.eqeq;
  scan = refl;
  not_blank = refl;
  not_end = refl;
  not_slash = refl;
  no_space = refl;
}
half_step _ _ rest one_colon = record {
  second = b':';
  longer = TokenType.doublecolon;
  scan = refl;
  not_blank = refl;
  not_end = refl;
  not_slash = refl;
  no_space = refl;
}
half_step _ _ rest bang = record {
  second = b'=';
  longer = TokenType.not_eq;
  scan = refl;
  not_blank = refl;
  not_end = refl;
  not_slash = refl;
  no_space = refl;
}
half_step _ _ rest ampersand = record {
  second = b'&';
  longer = TokenType.double_and;
  scan = refl;
  not_blank = refl;
  not_end = refl;
  not_slash = refl;
  no_space = refl;
}
half_step _ _ rest bar = record {
  second = b'|';
  longer = TokenType.double_vbar;
  scan = refl;
  not_blank = refl;
  not_end = refl;
  not_slash = refl;
  no_space = refl;
}
half_step _ _ rest below = record {
  second = b'=';
  longer = TokenType.lower_eq;
  scan = refl;
  not_blank = refl;
  not_end = refl;
  not_slash = refl;
  no_space = refl;
}
half_step _ _ rest above = record {
  second = b'=';
  longer = TokenType.greater_eq;
  scan = refl;
  not_blank = refl;
  not_end = refl;
  not_slash = refl;
  no_space = refl;
}

pub next_token-IsHalf :
    (c : ℕ) (t : TokenType) (rest : Source)
    → IsHalf c t
    → IsGap rest
    → next_token (b' ' ∷ c ∷ rest) ≡ ok (make_token t (c ∷ []), rest)
next_token-IsHalf c t rest alone gap =
    let step = half_step c t rest alone in
    next_token-blank c rest step.no_space (starts_comment-other c rest step.not_slash)
    ∙ step.scan
    ∙ ap ok (symbol_token-gap c t step.second step.longer rest step.not_blank step.not_end gap)

pub single_class :
    (c : ℕ)
    → starts_longer c ≡ false
    → ((c == 0) ≡ false)
      × (is_space c ≡ false)
      × (is_alpha c ≡ false)
      × (is_digit c ≡ false)
      × ((c == b'-') ≡ false)
      × ((c == b'=') ≡ false)
      × ((c == b':') ≡ false)
      × ((c == b'!') ≡ false)
      × ((c == b'&') ≡ false)
      × ((c == b'|') ≡ false)
      × ((c == b'<') ≡ false)
      × ((c == b'>') ≡ false)
      × ((c == b'#') ≡ false)
unfolding starts_longer
single_class c h = ground arith

pub starts_comment-gap : (c : ℕ) (rest : Source) → IsGap rest → starts_comment (c ∷ rest) ≡ false
unfolding starts_comment
starts_comment-gap c [] nothing = refl
starts_comment-gap c _ (blank s) = ground arith

pub next_token-single :
    (c : ℕ) (rest : Source)
    → starts_longer c ≡ false
    → IsGap rest
    → next_token (b' ' ∷ c ∷ rest) ≡ ok (make_token (char_type c) (c ∷ []), rest)
unfolding token_at peek advance
next_token-single c rest h gap =
    let (z, sp, al, di, a, b, d, e, f, g, i, j, k) = single_class c h in
    next_token-blank c rest sp (starts_comment-gap c rest gap)
    ∙ rw (z, al, di, a, b, d, e, f, g, i, j, k)

-- `#import` and a blank.
pub directive_token-import :
    (s s' : Source)
    → skip_white_space (suc (length (b' ' ∷ s))) (b' ' ∷ s) ≡ ok s'
    → directive_token (b'i' ∷ b'm' ∷ b'p' ∷ b'o' ∷ b'r' ∷ b't' ∷ b' ' ∷ s)
      ≡ ok (make_token TokenType.import (word is_alpha s'), after is_alpha s')
unfolding directive_token word after is_alpha same_text
directive_token-import s s' h = rw h

pub token_at-hash : (s : Source) → token_at (b'#' ∷ s) ≡ directive_token s
unfolding token_at peek advance is_alpha is_digit
token_at-hash s = refl

pub hash_no_space : is_space b'#' ≡ false
unfolding is_space
hash_no_space = refl

pub blank_not_alpha : is_alpha b' ' ≡ false
unfolding is_alpha
blank_not_alpha = refl

pub next_token-import :
    (c : ℕ) (cs : List ℕ) (rest : Source)
    → is_alpha c ≡ true
    → Each is_alpha cs
    → IsGap rest
    → next_token (b' ' ∷ b'#' ∷ b'i' ∷ b'm' ∷ b'p' ∷ b'o' ∷ b'r' ∷ b't' ∷ b' ' ∷ (c ∷ cs) ++ rest)
      ≡ ok (make_token TokenType.import (c ∷ cs), rest)
next_token-import c cs rest h all gap =
    let s = cs ++ rest in
    let k = letter_class c h in
    let text = b'i' ∷ b'm' ∷ b'p' ∷ b'o' ∷ b'r' ∷ b't' ∷ b' ' ∷ c ∷ s in
    let (w, a) = word-append is_alpha (c ∷ cs) rest blank_not_alpha (h, all) gap in
    next_token-blank b'#' text hash_no_space (starts_comment-other b'#' text refl)
    ∙ token_at-hash text
    ∙ directive_token-import (c ∷ s) (c ∷ s)
        (skip_white_space-blank (length (b' ' ∷ c ∷ s)) c s k.0 (starts_comment-other c s k.2))
    ∙ rw (w, a)
