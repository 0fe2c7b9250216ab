-- ===== src/Lexer/Reads.antt =====
-- src/compiler/lexer.cpp: what one step of the scanner returns.
use sprout_lang.Prelude.{
  ℕ, suc, ◌≡◌, ◌⊎◌, inl, inr, refl, Bool, true, false, [], ◌∷◌, ◌++◌, length, ◌==◌, if◌then◌else◌,
  Bool-cases, arith,
}
use sprout_lang.Result.{Result, ok, fault, uninitialized}
use sprout_lang.Lexer.{
  TokenType, Token, make_token, Source, is_alpha, is_digit, is_alnum, is_space, peek, advance, word,
  after, starts_fraction, word_token, number_token, symbol_token, directive_token, same_text,
  import_text, char_type, token_at, next_token, is_end,
}
use sprout_lang.Lexer.Lexemes.{
  IsPair, dash, equal, one_colon, bang, ampersand, bar, below, above, arrow, equals, colons,
  differs, ands, bars, at_most, at_least, IsHalf, starts_longer, Each, IsLexeme, spelled, whole,
  fraction, pair, half, single, imported,
}
use sprout_lang.Lexer.Words.{alnum_letter}
use sprout_lang.Lexer.Progress.{skip_white_space_total}

word-Each : (test : ℕ → Bool) (s : Source) → Each test (word test s)
unfolding word
word-Each test [] = tt
word-Each test (c ∷ s) = elim (Bool-cases (test c)) [
  | inl h ↦ rw h (h, word-Each test s)
  | inr h ↦ rw h tt
]

word-first :
    (test : ℕ → Bool) (c : ℕ) (s : Source) → test c ≡ true → word test (c ∷ s) ≡ c ∷ word test s
unfolding word
word-first test c s h = rw h

word-other : (test : ℕ → Bool) (c : ℕ) (s : Source) → test c ≡ false → word test (c ∷ s) ≡ []
unfolding word
word-other test c s h = rw h

-- A lexeme, or `#import` with no word behind it.
abbrev pub IsKnown : Token → Type 0
IsKnown t = IsLexeme t ⊎ (t ≡ make_token TokenType.import [])

pub data IsRead : Result (Token × Source) → Type 0 where
  known : (t : Token) (s : Source) → IsKnown t → IsRead (ok (t, s))
  end : (t : Token) (s : Source) → is_end t.type ≡ true → IsRead (ok (t, s))
  unset : IsRead (fault uninitialized)

branch-IsRead :
    {x y : Result (Token × Source)} (b : Bool)
    → (b ≡ true → IsRead x)
    → (b ≡ false → IsRead y)
    → IsRead (if b then x else y)
branch-IsRead true first second = first refl
branch-IsRead false first second = second refl

word_token-IsRead :
    (c : ℕ) (s s' : Source)
    → is_alpha c ≡ true
    → IsRead (ok (word_token (word is_alnum (c ∷ s)), s'))
word_token-IsRead c s s' h = rw (word-first is_alnum c s (alnum_letter c h)) (
    known (word_token (c ∷ word is_alnum s)) s'
      (inl (spelled c (word is_alnum s) h (word-Each is_alnum s))))

starts_fraction-digit :
    (s : Source)
    → starts_fraction s ≡ true
    → (e : ℕ) × (r : Source) × (advance s ≡ e ∷ r) × (is_digit e ≡ true)
unfolding starts_fraction advance
starts_fraction-digit [] h = cc
starts_fraction-digit (c ∷ []) h = cc
starts_fraction-digit (c ∷ d ∷ s) h = (d, s, refl, ground arith)

number_token-IsRead : (d : ℕ) (s : Source) → is_digit d ≡ true → IsRead (ok (number_token (d ∷ s)))
unfolding number_token
number_token-IsRead d s h =
    let w = word is_digit s in
    let whole_end = after is_digit (d ∷ s) in
    elim (Bool-cases (starts_fraction whole_end)) [
      | inl k ↦
          let (e, r, left, digit) = starts_fraction-digit whole_end k in
          rw (k, left, word-first is_digit d s h, word-first is_digit e r digit)
            (known (make_token TokenType.number ((d ∷ w) ++ b'.' ∷ e ∷ word is_digit r))
              (after is_digit (e ∷ r))
              (inl (
                fraction d w e (word is_digit r) h (word-Each is_digit s) digit
                  (word-Each is_digit r))))
      | inr k ↦
          rw (k, word-first is_digit d s h)
            (known (make_token TokenType.number (d ∷ w)) whole_end
              (inl (whole d w h (word-Each is_digit s))))
    ]

symbol_token-IsRead :
    (c k : ℕ) (one : TokenType) (d : ℕ) (two : TokenType) (s : Source)
    → (c == k) ≡ true
    → IsHalf k one
    → IsPair k d two
    → IsRead (ok (symbol_token c one d two s))
unfolding symbol_token
symbol_token-IsRead c k one d two s e alone both =
    let same : c ≡ k = ground arith in
    rw same (elim (Bool-cases (peek s == d)) [
      | inl h ↦ rw h (known (make_token two (k ∷ d ∷ [])) (advance s) (inl (pair both)))
      | inr h ↦ rw h (known (make_token one (k ∷ [])) s (inl (half alone)))
    ])

word-nothing : word is_alpha [] ≡ []
unfolding word
word-nothing = refl

import-IsRead : (s s' : Source) → IsRead (ok (make_token TokenType.import (word is_alpha s), s'))
import-IsRead [] s' = rw word-nothing (known (make_token TokenType.import []) s' (inr refl))
import-IsRead (c ∷ s) s' = elim (Bool-cases (is_alpha c)) [
  | inl h ↦ rw (word-first is_alpha c s h) (
      known (make_token TokenType.import (c ∷ word is_alpha s)) s'
        (inl (imported c (word is_alpha s) h (word-Each is_alpha s))))
  | inr h ↦ rw (word-other is_alpha c s h) (known (make_token TokenType.import []) s' (inr refl))
]

directive_token-IsRead : (s : Source) → IsRead (directive_token s)
unfolding directive_token
directive_token-IsRead s =
    let s₁ = after is_alpha s in
    let (s₂, e, _, _) = skip_white_space_total (suc (length s₁)) s₁ (omega arith) in
    elim (Bool-cases (same_text (word is_alpha s) import_text)) [
      | inl h ↦ rw (e, h) (import-IsRead s₂ (after is_alpha s₂))
      | inr h ↦ rw (e, h) unset
    ]

single_of :
    (c : ℕ)
    → (c == 0) ≡ false
    → is_space c ≡ false
    → is_alpha c ≡ false
    → is_digit c ≡ false
    → (c == b'-') ≡ false
    → (c == b'=') ≡ false
    → (c == b':') ≡ false
    → (c == b'!') ≡ false
    → (c == b'&') ≡ false
    → (c == b'|') ≡ false
    → (c == b'<') ≡ false
    → (c == b'>') ≡ false
    → (c == b'#') ≡ false
    → starts_longer c ≡ false
unfolding starts_longer
single_of c z sp al di a b d e f g i j k = rw (z, sp, al, di, a, b, d, e, f, g, i, j, k)

symbol-IsRead :
    {rest : Result (Token × Source)} (c k : ℕ) (one : TokenType) (d : ℕ) (two : TokenType)
    (s : Source)
    → IsHalf k one
    → IsPair k d two
    → ((c == k) ≡ false → IsRead rest)
    → IsRead (if c == k then ok (symbol_token c one d two s) else rest)
symbol-IsRead c k one d two s alone both other =
    branch-IsRead (c == k) (λ h. symbol_token-IsRead c k one d two s h alone both) other

token_at-IsRead : (s : Source) → is_space (peek s) ≡ false → IsRead (token_at s)
unfolding token_at peek advance is_end
token_at-IsRead [] sp = end (make_token TokenType.end_of_file []) [] refl
token_at-IsRead (c ∷ s) sp =
    branch-IsRead (c == 0) (λ _. end (make_token TokenType.end_of_file []) (c ∷ s) refl)
      λ z.
        branch-IsRead (is_alpha c) (λ h. word_token-IsRead c s (after is_alnum (c ∷ s)) h)
          λ al.
            branch-IsRead (is_digit c) (λ h. number_token-IsRead c s h)
              λ di. symbol-IsRead c b'-' TokenType.minus b'>' TokenType.arr_right s dash arrow λ a.
                symbol-IsRead c b'=' TokenType.eq b'=' TokenType.eqeq s equal equals λ b.
                  symbol-IsRead c b':' TokenType.colon b':' TokenType.doublecolon s one_colon colons
                    λ d.
                      symbol-IsRead c b'!' TokenType.negation b'=' TokenType.not_eq s bang differs
                        λ e.
                          symbol-IsRead c b'&' TokenType.unknown b'&' TokenType.double_and s
                            ampersand ands
                            λ f.
                              symbol-IsRead c b'|' TokenType.unknown b'|' TokenType.double_vbar s
                                bar bars
                                λ g.
                                  symbol-IsRead c b'<' TokenType.lower b'=' TokenType.lower_eq s
                                    below at_most
                                    λ i.
                                      symbol-IsRead c b'>' TokenType.greater b'='
                                        TokenType.greater_eq s above at_least
                                        λ j.
                                          branch-IsRead (c == b'#') (λ _. directive_token-IsRead s)
                                            λ k. known (make_token (char_type c) (c ∷ [])) s (
                                              inl (
                                                single c
                                                  (single_of c z sp al di a b d e f g i j k)))

pub next_token-IsRead : (s : Source) → IsRead (next_token s)
unfolding next_token
next_token-IsRead s =
    let (s', e, _, sp) = skip_white_space_total (suc (length s)) s (omega arith) in
    rw e (token_at-IsRead s' sp)
