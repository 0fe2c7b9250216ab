-- ===== src/Lexer/Words.antt =====
-- src/compiler/lexer.cpp: words and numbers, scanned off a text behind a blank.
use sprout_lang.Prelude.{
  ℕ, suc, Bool, true, false, List, [], ◌∷◌, ◌++◌, length, ◌==◌, ◌≡◌, refl, ap, ◌∙◌, arith,
}
use mathlib.Core.List.{append_assoc}
use sprout_lang.Result.{ok, ◌>>=◌}
use sprout_lang.Lexer.{
  TokenType, make_token, Source, is_alpha, is_digit, is_alnum, is_space, peek, advance, word, after,
  starts_comment, starts_fraction, skip_white_space, word_token, number_token, token_at, next_token,
}
use sprout_lang.Lexer.Lexemes.{Each, IsGap, nothing, blank}

pub word-append :
    (test : ℕ → Bool) (xs : List ℕ) (rest : Source)
    → test b' ' ≡ false
    → Each test xs
    → IsGap rest
    → (word test (xs ++ rest) ≡ xs) × (after test (xs ++ rest) ≡ rest)
unfolding word after
word-append test [] [] h all nothing = (refl, refl)
word-append test [] _ h all (blank s) = (rw h, rw h)
word-append test (x ∷ xs) rest h all gap =
    let (w, a) = word-append test xs rest h all.1 gap in (rw (all.0, w), rw (all.0, a))

pub blank_is_space : is_space b' ' ≡ true
unfolding is_space
blank_is_space = refl

pub skip_white_space-blank :
    (rounds c : ℕ) (s : Source)
    → is_space c ≡ false
    → starts_comment (c ∷ s) ≡ false
    → skip_white_space (suc rounds) (b' ' ∷ c ∷ s) ≡ ok (c ∷ s)
unfolding skip_white_space after
skip_white_space-blank rounds c s h k = rw (blank_is_space, h, k)

pub next_token-blank :
    (c : ℕ) (s : Source)
    → is_space c ≡ false
    → starts_comment (c ∷ s) ≡ false
    → next_token (b' ' ∷ c ∷ s) ≡ token_at (c ∷ s)
unfolding next_token
next_token-blank c s h k =
    ap (λ r. r >>= token_at) (skip_white_space-blank (length (b' ' ∷ c ∷ s)) c s h k)

pub letter_class :
    (c : ℕ) → is_alpha c ≡ true → (is_space c ≡ false) × ((c == 0) ≡ false) × ((c == b'/') ≡ false)
unfolding is_alpha is_space
letter_class c h = ground arith

pub digit_class :
    (c : ℕ)
    → is_digit c ≡ true
    → (is_space c ≡ false) × ((c == 0) ≡ false) × ((c == b'/') ≡ false) × (is_alpha c ≡ false)
unfolding is_alpha is_digit is_space
digit_class c h = ground arith

pub starts_comment-other :
    (c : ℕ) (s : Source) → (c == b'/') ≡ false → starts_comment (c ∷ s) ≡ false
unfolding starts_comment
starts_comment-other c [] h = refl
starts_comment-other c (d ∷ s) h = rw h

pub alnum_letter : (c : ℕ) → is_alpha c ≡ true → is_alnum c ≡ true
unfolding is_alnum
alnum_letter c h = rw h

pub blank_not_alnum : is_alnum b' ' ≡ false
unfolding is_alnum is_alpha is_digit
blank_not_alnum = refl

pub token_at-letter :
    (c : ℕ) (s : Source)
    → (c == 0) ≡ false
    → is_alpha c ≡ true
    → token_at (c ∷ s) ≡ ok (word_token (word is_alnum (c ∷ s)), after is_alnum (c ∷ s))
unfolding token_at peek
token_at-letter c s z h = rw (z, h)

pub next_token-word :
    (c : ℕ) (cs : List ℕ) (rest : Source)
    → is_alpha c ≡ true
    → Each is_alnum cs
    → IsGap rest
    → next_token (b' ' ∷ c ∷ cs ++ rest) ≡ ok (word_token (c ∷ cs), rest)
next_token-word c cs rest h all gap =
    let k = letter_class c h in
    let (w, a) = word-append is_alnum (c ∷ cs) rest blank_not_alnum (alnum_letter c h, all) gap in
    next_token-blank c (cs ++ rest) k.0 (starts_comment-other c (cs ++ rest) k.2)
    ∙ token_at-letter c (cs ++ rest) k.1 h
    ∙ rw (w, a)

pub token_at-digit :
    (c : ℕ) (s : Source) → is_digit c ≡ true → token_at (c ∷ s) ≡ ok (number_token (c ∷ s))
unfolding token_at peek
token_at-digit c s h = let k = digit_class c h in rw (k.1, k.3, h)

pub blank_not_digit : is_digit b' ' ≡ false
unfolding is_digit
blank_not_digit = refl

pub starts_fraction-gap : (rest : Source) → IsGap rest → starts_fraction rest ≡ false
unfolding starts_fraction
starts_fraction-gap [] nothing = refl
starts_fraction-gap _ (blank []) = refl
starts_fraction-gap _ (blank (c ∷ s)) = refl

pub number_token-whole :
    (ds : List ℕ) (rest : Source)
    → Each is_digit ds
    → IsGap rest
    → number_token (ds ++ rest) ≡ (make_token TokenType.number ds, rest)
unfolding number_token
number_token-whole ds rest all gap =
    let (w, a) = word-append is_digit ds rest blank_not_digit all gap in
    rw (w, a, starts_fraction-gap rest gap)

pub dot_not_digit : is_digit b'.' ≡ false
unfolding is_digit
dot_not_digit = refl

pub word-dot :
    (ds : List ℕ) (s : Source)
    → Each is_digit ds
    → (word is_digit (ds ++ b'.' ∷ s) ≡ ds) × (after is_digit (ds ++ b'.' ∷ s) ≡ b'.' ∷ s)
unfolding word after
word-dot [] s all = (rw dot_not_digit, rw dot_not_digit)
word-dot (d ∷ ds) s all = let (w, a) = word-dot ds s all.1 in (rw (all.0, w), rw (all.0, a))

pub number_token-fraction :
    (ds : List ℕ) (e : ℕ) (es : List ℕ) (rest : Source)
    → Each is_digit ds
    → is_digit e ≡ true
    → Each is_digit es
    → IsGap rest
    → number_token ((ds ++ b'.' ∷ e ∷ es) ++ rest)
      ≡ (make_token TokenType.number (ds ++ b'.' ∷ e ∷ es), rest)
unfolding number_token starts_fraction advance
number_token-fraction ds e es rest all h all' gap =
    let (w, a) = word-dot ds (e ∷ es ++ rest) all in
    let (w', a') = word-append is_digit (e ∷ es) rest blank_not_digit (h, all') gap in
    rw (append_assoc ds (b'.' ∷ e ∷ es) rest, w, a, h, w', a')

pub next_token-whole :
    (d : ℕ) (ds : List ℕ) (rest : Source)
    → is_digit d ≡ true
    → Each is_digit ds
    → IsGap rest
    → next_token (b' ' ∷ d ∷ ds ++ rest) ≡ ok (make_token TokenType.number (d ∷ ds), rest)
next_token-whole d ds rest h all gap =
    let k = digit_class d h in
    next_token-blank d (ds ++ rest) k.0 (starts_comment-other d (ds ++ rest) k.2)
    ∙ token_at-digit d (ds ++ rest) h
    ∙ ap ok (number_token-whole (d ∷ ds) rest (h, all) gap)

pub next_token-fraction :
    (d : ℕ) (ds : List ℕ) (e : ℕ) (es : List ℕ) (rest : Source)
    → is_digit d ≡ true
    → Each is_digit ds
    → is_digit e ≡ true
    → Each is_digit es
    → IsGap rest
    → next_token (b' ' ∷ ((d ∷ ds) ++ b'.' ∷ e ∷ es) ++ rest)
      ≡ ok (make_token TokenType.number ((d ∷ ds) ++ b'.' ∷ e ∷ es), rest)
next_token-fraction d ds e es rest h all h' all' gap =
    let k = digit_class d h in
    let s = (ds ++ b'.' ∷ e ∷ es) ++ rest in
    next_token-blank d s k.0 (starts_comment-other d s k.2)
    ∙ token_at-digit d s h
    ∙ ap ok (number_token-fraction (d ∷ ds) e es rest (h, all) h' all' gap)
