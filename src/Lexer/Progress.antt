-- ===== src/Lexer/Progress.antt =====
-- src/compiler/lexer.h and lexer.cpp: what a token takes of the text, and the end of a scan.
use sprout_lang.Prelude.{
  ℕ, zero, suc, ◌≤◌, ◌<◌, ◌≡◌, ◌⊎◌, inl, inr, refl, Bool, true, false, List, [], ◌∷◌, length, ◌==◌,
  if◌then◌else◌, Bool-cases, arith,
}
use sprout_lang.Result.{Result, ok, fault, uninitialized}
use sprout_lang.Lexer.Words.{alnum_letter}
use sprout_lang.Lexer.{
  TokenType, Token, make_token, Source, is_alpha, is_digit, is_alnum, is_space, in_line, peek,
  advance, word, after, starts_comment, starts_fraction, skip_white_space, word_token, number_token,
  symbol_token, directive_token, same_text, char_type, import_text, token_at, next_token, is_end,
  tokenize,
}

length-after : (test : ℕ → Bool) (s : Source) → length (after test s) ≤ length s
unfolding after
length-after test [] = omega arith
length-after test (c ∷ s) = elim (Bool-cases (test c)) [
  | inl h ↦ rw h (omega (arith, length-after test s))
  | inr h ↦ rw h (omega arith)
]

length-after_first :
    (test : ℕ → Bool) (c : ℕ) (s : Source) → test c ≡ true → length (after test (c ∷ s)) ≤ length s
unfolding after
length-after_first test c s h = rw h (length-after test s)

length-advance : (s : Source) → length (advance s) ≤ length s
unfolding advance
length-advance [] = omega arith
length-advance (c ∷ s) = omega arith

peek-after : (test : ℕ → Bool) (s : Source) → test 0 ≡ false → test (peek (after test s)) ≡ false
unfolding after peek
peek-after test [] h = h
peek-after test (c ∷ s) h = elim (Bool-cases (test c)) [
  | inl k ↦ rw k (peek-after test s h)
  | inr k ↦ rw k k
]

end_no_space : is_space 0 ≡ false
unfolding is_space
end_no_space = refl

slash_in_line : (c : ℕ) → (c == b'/') ≡ true → in_line c ≡ true
unfolding in_line
slash_in_line c h = ground arith

-- A comment loses its first slash at least.
length-after_comment : (s : Source) → starts_comment s ≡ true → length (after in_line s) < length s
unfolding starts_comment
length-after_comment [] h = cc
length-after_comment (c ∷ []) h = cc
length-after_comment (c ∷ d ∷ s) h =
    omega (arith, length-after_first in_line c (d ∷ s) (slash_in_line c (ground arith)))

pub skip_white_space_total :
    (rounds : ℕ) (s : Source)
    → length s < rounds
    → (s' : Source) × (skip_white_space rounds s ≡ ok s')
      × (length s' ≤ length s)
      × (is_space (peek s') ≡ false)
unfolding skip_white_space
skip_white_space_total zero s h = absurd (omega arith)
skip_white_space_total (suc rounds) s h =
    let s₁ = after is_space s in
    elim (Bool-cases (starts_comment s₁)) [
      | inl comment ↦
          let shorter = length-after_comment s₁ comment in
          let (s₂, e, k, no_space) =
            skip_white_space_total rounds (after in_line s₁)
              (omega (arith, length-after is_space s)) in
          (s₂, rw comment e, omega (arith, length-after is_space s), no_space)
      | inr none ↦ (s₁, rw none, length-after is_space s, peek-after is_space s end_no_space)
    ]

-- A token and what is left of at most `n` bytes, or the end of the text, or the unset token type.
data IsStep (n : ℕ) : Result (Token × Source) → Type 0 where
  token : (t : Token) (s : Source) → length s < n → IsStep n (ok (t, s))
  end : (t : Token) (s : Source) → is_end t.type ≡ true → IsStep n (ok (t, s))
  unset : IsStep n (fault uninitialized)

branch-IsStep :
    {n : ℕ} {x y : Result (Token × Source)} (b : Bool)
    → (b ≡ true → IsStep n x)
    → IsStep n y
    → IsStep n (if b then x else y)
branch-IsStep true first second = first refl
branch-IsStep false first second = second

number_token-shorter :
    (d : ℕ) (s : Source) → is_digit d ≡ true → length (number_token (d ∷ s)).1 ≤ length s
unfolding number_token
number_token-shorter d s h =
    let whole = after is_digit (d ∷ s) in
    let first = length-after_first is_digit d s h in
    elim (Bool-cases (starts_fraction whole)) [
      | inl k ↦
          rw k (omega (arith, first, length-advance whole, length-after is_digit (advance whole)))
      | inr k ↦ rw k first
    ]

symbol_token-shorter :
    (c : ℕ) (one : TokenType) (d : ℕ) (two : TokenType) (s : Source)
    → length (symbol_token c one d two s).1 ≤ length s
unfolding symbol_token
symbol_token-shorter c one d two s = elim (Bool-cases (peek s == d)) [
  | inl k ↦ rw k (length-advance s)
  | inr k ↦ rw k (omega arith)
]

directive_token-IsStep : (s : Source) → IsStep (suc (length s)) (directive_token s)
unfolding directive_token
directive_token-IsStep s =
    let s₁ = after is_alpha s in
    let (s₂, e, k, _) = skip_white_space_total (suc (length s₁)) s₁ (omega arith) in
    elim (Bool-cases (same_text (word is_alpha s) import_text)) [
      | inl h ↦
          rw (e, h)
            (token (make_token TokenType.import (word is_alpha s₂)) (after is_alpha s₂)
              (omega (arith, k, length-after is_alpha s, length-after is_alpha s₂)))
      | inr h ↦ rw (e, h) unset
    ]

pair-IsStep : {n : ℕ} (p : Token × Source) → length p.1 < n → IsStep n (ok p)
pair-IsStep (t, s) h = token t s h

symbol_token-IsStep :
    (c : ℕ) (one : TokenType) (d : ℕ) (two : TokenType) (s : Source)
    → IsStep (suc (length s)) (ok (symbol_token c one d two s))
symbol_token-IsStep c one d two s =
    pair-IsStep (symbol_token c one d two s) (omega (arith, symbol_token-shorter c one d two s))

pair_at-IsStep :
    {rest : Result (Token × Source)} (b : Bool) (c : ℕ) (one : TokenType) (d : ℕ) (two : TokenType)
    (s : Source)
    → IsStep (suc (length s)) rest
    → IsStep (suc (length s)) (if b then ok (symbol_token c one d two s) else rest)
pair_at-IsStep b c one d two s k = branch-IsStep b (λ _. symbol_token-IsStep c one d two s) k

token_at-IsStep : (s : Source) → IsStep (length s) (token_at s)
unfolding token_at peek advance is_end
token_at-IsStep [] = end (make_token TokenType.end_of_file []) [] refl
token_at-IsStep (c ∷ s) =
    branch-IsStep (c == 0) (λ _. end (make_token TokenType.end_of_file []) (c ∷ s) refl)
      (branch-IsStep (is_alpha c)
        (λ h.
          token (word_token (word is_alnum (c ∷ s))) (after is_alnum (c ∷ s))
            (omega (arith, length-after_first is_alnum c s (alnum_letter c h))))
        (branch-IsStep (is_digit c)
          (λ h. pair-IsStep (number_token (c ∷ s)) (omega (arith, number_token-shorter c s h)))
          (pair_at-IsStep (c == b'-') c TokenType.minus b'>' TokenType.arr_right s (
            pair_at-IsStep (c == b'=') c TokenType.eq b'=' TokenType.eqeq s (
              pair_at-IsStep (c == b':') c TokenType.colon b':' TokenType.doublecolon s (
                pair_at-IsStep (c == b'!') c TokenType.negation b'=' TokenType.not_eq s (
                  pair_at-IsStep (c == b'&') c TokenType.unknown b'&' TokenType.double_and s (
                    pair_at-IsStep (c == b'|') c TokenType.unknown b'|' TokenType.double_vbar s (
                      pair_at-IsStep (c == b'<') c TokenType.lower b'=' TokenType.lower_eq s (
                        pair_at-IsStep (c == b'>') c TokenType.greater b'=' TokenType.greater_eq s (
                          branch-IsStep (c == b'#') (λ _. directive_token-IsStep s)
                            (token (make_token (char_type c) (c ∷ [])) s (omega arith)))))))))))))

IsStep-more : (m n : ℕ) (r : Result (Token × Source)) → m ≤ n → IsStep m r → IsStep n r
IsStep-more m n _ h (token t s k) = token t s (omega arith)
IsStep-more m n _ h (end t s k) = end t s k
IsStep-more m n _ h unset = unset

next_token-IsStep : (s : Source) → IsStep (length s) (next_token s)
unfolding next_token
next_token-IsStep s =
    let (s', e, k, _) = skip_white_space_total (suc (length s)) s (omega arith) in
    rw e (IsStep-more (length s') (length s) (token_at s') k (token_at-IsStep s'))

-- The scan ends with tokens, or at a token whose type is never set.
abbrev pub Ends : Result (List Token) → Type 0
Ends r = ((ts : List Token) × (r ≡ ok ts)) ⊎ (r ≡ fault uninitialized)

tokenize-Ends :
    (rounds : ℕ) (s : Source) (r : Result (Token × Source))
    → next_token s ≡ r
    → IsStep (length s) r
    → ((s' : Source) → length s' < length s → Ends (tokenize rounds s'))
    → Ends (tokenize (suc rounds) s)
unfolding tokenize
tokenize-Ends rounds s _ e (end t s' h) later = inl ([], rw (e, h))
tokenize-Ends rounds s _ e unset later = inr (rw e)
tokenize-Ends rounds s _ e (token t s' h) later = elim (Bool-cases (is_end t.type)) [
  | inl k ↦ inl ([], rw (e, k))
  | inr k ↦ elim (later s' h) [
    | inl found ↦ let (ts, f) = found in inl (t ∷ ts, rw (e, k, f))
    | inr f ↦ inr (rw (e, k, f))
  ]
]

-- The scan of any text ends if it has more rounds than the text has bytes: with tokens, or with the
-- use of a token type that was never set.
pub tokenize_total : (rounds : ℕ) (s : Source) → length s < rounds → Ends (tokenize rounds s)
tokenize_total zero s h = absurd (omega arith)
tokenize_total (suc rounds) s h =
    tokenize-Ends rounds s (next_token s) refl (next_token-IsStep s)
      (λ s' shorter. tokenize_total rounds s' (omega arith))
