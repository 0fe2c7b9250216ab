-- ===== src/Lexer/RoundTrip.antt =====
-- src/compiler/lexer.cpp: printed tokens scan back.
use sprout_lang.Prelude.{
  ℕ, zero, suc, ◌<◌, false, List, [], ◌∷◌, ◌++◌, length, All, ◌≡◌, refl, Bool-cases, inl, inr,
  arith,
}
use sprout_lang.Result.{ok}
use sprout_lang.Lexer.{
  TokenType, Token, make_token, Source, keywords, word_type, word_token, same_text, char_type,
  next_token, is_end, tokenize, skip_white_space, after, starts_comment, token_at, peek,
}
use sprout_lang.Lexer.Words.{next_token-word, next_token-whole, next_token-fraction}
use sprout_lang.Lexer.Symbols.{
  next_token-IsPair, next_token-IsHalf, next_token-single, next_token-import,
}
use sprout_lang.Lexer.Lexemes.{
  IsPair, dash, equal, one_colon, bang, ampersand, bar, below, above, arrow, equals, colons,
  differs, ands, bars, at_most, at_least, IsHalf, IsGap, nothing, blank, IsLexeme, spelled, whole,
  fraction, pair, half, single, imported, is_import, print_token, print_tokens,
}

-- Not the directive, which is printed otherwise, and not the end of the text.
abbrev IsOrdinary : TokenType → Type 0
IsOrdinary t = (is_import t ≡ false) × (is_end t ≡ false)

word_type-IsOrdinary :
    (ks : List (List ℕ × TokenType)) (w : List ℕ)
    → All (λ k. IsOrdinary k.1) ks
    → IsOrdinary (word_type ks w)
unfolding word_type is_import is_end
word_type-IsOrdinary [] w all = (refl, refl)
word_type-IsOrdinary (k ∷ ks) w all = elim (Bool-cases (same_text k.0 w)) [
  | inl same ↦ rw same all.0
  | inr other ↦ rw other (word_type-IsOrdinary ks w all.1)
]

word_token-IsOrdinary : (w : List ℕ) → IsOrdinary (word_type keywords w)
unfolding is_import is_end
word_token-IsOrdinary w = word_type-IsOrdinary keywords w (
  both,
  (both, (both, (both, (both, (both, (both, (both, (both, (both, (both, (both, tt))))))))))),
)
  where
    both : (false ≡ false) × (false ≡ false)
    both = (refl, refl)

char_type-IsOrdinary : (c : ℕ) → IsOrdinary (char_type c)
unfolding is_import is_end char_type
char_type-IsOrdinary c = (ground arith, ground arith)

IsHalf-IsOrdinary : (c : ℕ) (t : TokenType) → IsHalf c t → IsOrdinary t
unfolding is_import is_end
IsHalf-IsOrdinary _ _ dash = (refl, refl)
IsHalf-IsOrdinary _ _ equal = (refl, refl)
IsHalf-IsOrdinary _ _ one_colon = (refl, refl)
IsHalf-IsOrdinary _ _ bang = (refl, refl)
IsHalf-IsOrdinary _ _ ampersand = (refl, refl)
IsHalf-IsOrdinary _ _ bar = (refl, refl)
IsHalf-IsOrdinary _ _ below = (refl, refl)
IsHalf-IsOrdinary _ _ above = (refl, refl)

IsPair-IsOrdinary : (c d : ℕ) (t : TokenType) → IsPair c d t → IsOrdinary t
unfolding is_import is_end
IsPair-IsOrdinary _ _ _ arrow = (refl, refl)
IsPair-IsOrdinary _ _ _ equals = (refl, refl)
IsPair-IsOrdinary _ _ _ colons = (refl, refl)
IsPair-IsOrdinary _ _ _ differs = (refl, refl)
IsPair-IsOrdinary _ _ _ ands = (refl, refl)
IsPair-IsOrdinary _ _ _ bars = (refl, refl)
IsPair-IsOrdinary _ _ _ at_most = (refl, refl)
IsPair-IsOrdinary _ _ _ at_least = (refl, refl)

print_token-ordinary : (t : Token) → is_import t.type ≡ false → print_token t ≡ b' ' ∷ t.content
unfolding print_token
print_token-ordinary t h = rw h

-- What it is for the scanner to read `t` off its spelling, with `rest` left.
abbrev IsScanned : Token → Source → Type 0
IsScanned t rest = (next_token (print_token t ++ rest) ≡ ok (t, rest)) × (is_end t.type ≡ false)

ordinary-IsScanned :
    (t : Token) (rest : Source)
    → IsOrdinary t.type
    → next_token ((b' ' ∷ t.content) ++ rest) ≡ ok (t, rest)
    → IsScanned t rest
ordinary-IsScanned t rest k h = (rw (print_token-ordinary t k.0) h, k.1)

-- A token is read back off its spelling, up to the end of the text or a blank.
IsLexeme-IsScanned : (t : Token) (rest : Source) → IsLexeme t → IsGap rest → IsScanned t rest
unfolding word_token is_import is_end print_token
IsLexeme-IsScanned _ rest (spelled c cs h all) gap =
    ordinary-IsScanned (word_token (c ∷ cs)) rest (word_token-IsOrdinary (c ∷ cs))
      (next_token-word c cs rest h all gap)
IsLexeme-IsScanned _ rest (whole d ds h all) gap =
    ordinary-IsScanned (make_token TokenType.number (d ∷ ds)) rest (refl, refl)
      (next_token-whole d ds rest h all gap)
IsLexeme-IsScanned _ rest (fraction d ds e es h all h' all') gap =
    ordinary-IsScanned (make_token TokenType.number ((d ∷ ds) ++ b'.' ∷ e ∷ es)) rest (refl, refl)
      (next_token-fraction d ds e es rest h all h' all' gap)
IsLexeme-IsScanned _ rest (pair {c} {d} {t} p) gap =
    ordinary-IsScanned (make_token t (c ∷ d ∷ [])) rest (IsPair-IsOrdinary c d t p)
      (next_token-IsPair c d t rest p)
IsLexeme-IsScanned _ rest (half {c} {t} p) gap =
    ordinary-IsScanned (make_token t (c ∷ [])) rest (IsHalf-IsOrdinary c t p)
      (next_token-IsHalf c t rest p gap)
IsLexeme-IsScanned _ rest (single c h) gap =
    ordinary-IsScanned (make_token (char_type c) (c ∷ [])) rest (char_type-IsOrdinary c)
      (next_token-single c rest h gap)
IsLexeme-IsScanned _ rest (imported c cs h all) gap = (next_token-import c cs rest h all gap, refl)

print_tokens-IsGap : (ts : List Token) → IsGap (print_tokens ts)
unfolding print_tokens print_token
print_tokens-IsGap [] = nothing
print_tokens-IsGap (t ∷ ts) = elim (Bool-cases (is_import t.type)) [
  | inl h ↦ rw h (blank _)
  | inr h ↦ rw h (blank _)
]

tokenize-nothing : (rounds : ℕ) → tokenize (suc rounds) [] ≡ ok []
unfolding tokenize next_token skip_white_space after starts_comment token_at peek is_end
tokenize-nothing rounds = refl

-- Lexemes printed one behind the other, each behind a blank, are scanned back, if the loop has more
-- rounds than there are lexemes.
pub tokenize-print_tokens :
    (ts : List Token) (rounds : ℕ)
    → All IsLexeme ts
    → length ts < rounds
    → tokenize rounds (print_tokens ts) ≡ ok ts
unfolding tokenize print_tokens
tokenize-print_tokens ts zero all h = absurd (omega arith)
tokenize-print_tokens [] (suc rounds) all h = tokenize-nothing rounds
tokenize-print_tokens (t ∷ ts) (suc rounds) all h =
    let step = IsLexeme-IsScanned t (print_tokens ts) all.0 (print_tokens-IsGap ts) in
    rw (step.0, step.1, tokenize-print_tokens ts rounds all.1 (omega arith))
