-- ===== src/Lexer/Directives.antt =====
-- src/compiler/lexer.cpp: the words after `#`. Only `import` sets the type of the token.
use sprout_lang.Prelude.{ℕ, suc, false, List, ◌∷◌, ◌++◌, length, ◌≡◌, refl, ◌∙◌, arith}
use sprout_lang.Result.{fault, uninitialized}
use sprout_lang.Lexer.{
  Source, is_alpha, is_space, after, starts_comment, skip_white_space, same_text, import_text,
  directive_token, token_at, next_token,
}
use sprout_lang.Lexer.Lexemes.{Each, IsGap}
use sprout_lang.Lexer.Words.{word-append, starts_comment-other}
use sprout_lang.Lexer.Symbols.{token_at-hash, hash_no_space, blank_not_alpha}
use sprout_lang.Lexer.Progress.{skip_white_space_total}

next_token-plain :
    (c : ℕ) (s : Source)
    → is_space c ≡ false
    → starts_comment (c ∷ s) ≡ false
    → next_token (c ∷ s) ≡ token_at (c ∷ s)
unfolding next_token skip_white_space after
next_token-plain c s h k = rw (h, k)

directive_token-other :
    (w : List ℕ) (rest : Source)
    → Each is_alpha w
    → same_text w import_text ≡ false
    → IsGap rest
    → directive_token (w ++ rest) ≡ fault uninitialized
unfolding directive_token
directive_token-other w rest all h gap =
    let (scanned, left) = word-append is_alpha w rest blank_not_alpha all gap in
    let (s', e, _, _) = skip_white_space_total (suc (length rest)) rest (omega arith) in
    rw (scanned, left, e, h)

-- A directive of letters other than `import`, up to the end of the text or a blank, makes a token
-- from a type that was never set.
pub next_token_unset :
    (w : List ℕ) (rest : Source)
    → Each is_alpha w
    → same_text w import_text ≡ false
    → IsGap rest
    → next_token (b'#' ∷ w ++ rest) ≡ fault uninitialized
next_token_unset w rest all h gap =
    next_token-plain b'#' (w ++ rest) hash_no_space (starts_comment-other b'#' (w ++ rest) refl)
    ∙ token_at-hash (w ++ rest)
    ∙ directive_token-other w rest all h gap
