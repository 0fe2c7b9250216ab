-- ===== src/Examples/LexerExamples.antt =====
-- Texts for the theorems on the scanner.
use sprout_lang.Prelude.{ℕ, ap, ◌≢◌, ◌≡◌, ◌∷◌, refl, List, [], All, arith}
use sprout_lang.Result.{ok, fault, uninitialized}
use sprout_lang.Lexer.{
  TokenType, Token, Source, skip_white_space, token_at, word, after, in_line, peek, advance,
  starts_comment, is_end, make_token, word_token, word_type, is_alpha, is_digit, is_alnum, is_space,
  char_type, same_text, next_token, tokenize,
}
use sprout_lang.Lexer.Lexemes.{
  IsLexeme, spelled, fraction, half, pair, single, imported, equal, arrow, starts_longer,
  print_tokens, blank,
}
use sprout_lang.Lexer.Reads.{IsKnown}
use sprout_lang.Lexer.Sound.{tokenize-IsKnown, tokenize-print_tokens-tokenize}
use sprout_lang.Lexer.Progress.{Ends, tokenize_total}
use sprout_lang.Lexer.RoundTrip.{tokenize-print_tokens}
use sprout_lang.Lexer.Directives.{next_token_unset}

-- #import io var x1 = 2.5 ; ->
abbrev sample : List Token
sample =
    make_token TokenType.import (b'i' ∷ b'o' ∷ [])
    ∷ word_token (b'v' ∷ b'a' ∷ b'r' ∷ [])
    ∷ word_token (b'x' ∷ b'1' ∷ [])
    ∷ make_token TokenType.eq (b'=' ∷ [])
    ∷ make_token TokenType.number (b'2' ∷ b'.' ∷ b'5' ∷ [])
    ∷ make_token (char_type b';') (b';' ∷ [])
    ∷ make_token TokenType.arr_right (b'-' ∷ b'>' ∷ [])
    ∷ []

sample-IsLexeme : All IsLexeme sample
unfolding is_alpha is_digit is_alnum starts_longer is_space
sample-IsLexeme = (
  imported b'i' (b'o' ∷ []) refl (refl, tt),
  (
    spelled b'v' (b'a' ∷ b'r' ∷ []) refl (refl, (refl, tt)),
    (
      spelled b'x' (b'1' ∷ []) refl (refl, tt),
      (
        half equal,
        (fraction b'2' [] b'5' [] refl tt refl tt, (single b';' refl, (pair arrow, tt))),
      ),
    ),
  ),
)

tokenize-print_tokens_example : tokenize 8 (print_tokens sample) ≡ ok sample
tokenize-print_tokens_example = tokenize-print_tokens sample 8 sample-IsLexeme (omega arith)

-- if x // y
abbrev commented : Source
commented = b'i' ∷ b'f' ∷ b' ' ∷ b'x' ∷ b' ' ∷ b'/' ∷ b'/' ∷ b' ' ∷ b'y' ∷ []

tokenize_total_example : Ends (tokenize 10 commented)
tokenize_total_example = tokenize_total 10 commented (omega arith)

next_token_unset_example : next_token (b'#' ∷ b'a' ∷ b'b' ∷ b' ' ∷ []) ≡ fault uninitialized
unfolding is_alpha same_text
next_token_unset_example =
    next_token_unset (b'a' ∷ b'b' ∷ []) (b' ' ∷ []) (refl, (refl, tt)) refl (blank [])

-- The tokens of `commented`.
abbrev comment_tokens : List Token
comment_tokens =
    make_token TokenType.if_keyword (b'i' ∷ b'f' ∷ []) ∷ make_token TokenType.ident (b'x' ∷ []) ∷ []

commented_scan : tokenize 10 commented ≡ ok comment_tokens
unfolding tokenize next_token skip_white_space token_at word after is_alpha is_digit is_alnum
    is_space in_line peek advance starts_comment word_token word_type same_text is_end
commented_scan = refl

tokenize-IsKnown_example : All IsKnown comment_tokens
tokenize-IsKnown_example = tokenize-IsKnown 10 commented comment_tokens commented_scan

is_named :
    (c : ℕ) (cs : List ℕ) (t : TokenType) → make_token t (c ∷ cs) ≢ make_token TokenType.import []
is_named c cs t e = let k : c ∷ cs ≡ [] = ap (λ u. u.content) e in cc

tokenize-print_tokens-tokenize_example :
    tokenize 3 (print_tokens comment_tokens) ≡ ok comment_tokens
tokenize-print_tokens-tokenize_example =
    tokenize-print_tokens-tokenize 10 commented comment_tokens commented_scan
      (is_named (b'i') (b'f' ∷ []) TokenType.if_keyword, (is_named b'x' [] TokenType.ident, tt))
