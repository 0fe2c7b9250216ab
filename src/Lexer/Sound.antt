-- ===== src/Lexer/Sound.antt =====
-- src/compiler/lexer.cpp: what the scanner returns are lexemes, or an import without a word.
use sprout_lang.Prelude.{
  ℕ, zero, suc, ◌≡◌, ◌≢◌, inl, inr, refl, sym, ◌∙◌, true, false, List, [], ◌∷◌, length, Bool-cases,
  All, arith,
}
use sprout_lang.Result.{Result, ok, fault, >>=-eq-ok, uninitialized, ◌>>=◌}
use sprout_lang.Lexer.{TokenType, Token, make_token, Source, next_token, is_end, tokenize}
use sprout_lang.Lexer.Lexemes.{IsLexeme, print_tokens}
use sprout_lang.Lexer.RoundTrip.{tokenize-print_tokens}
use sprout_lang.Lexer.Reads.{IsKnown, IsRead, known, end, unset, next_token-IsRead}

-- One round of the loop: no token more at the end, or one before those of the other rounds.
tokenize-stop :
    (rounds : ℕ) (s s' : Source) (t : Token)
    → next_token s ≡ ok (t, s')
    → is_end t.type ≡ true
    → tokenize (suc rounds) s ≡ ok []
unfolding tokenize
tokenize-stop rounds s s' t e h = rw (e, h)

tokenize-go :
    (rounds : ℕ) (s s' : Source) (t : Token)
    → next_token s ≡ ok (t, s')
    → is_end t.type ≡ false
    → tokenize (suc rounds) s ≡ (tokenize rounds s' >>= λ us. ok (t ∷ us))
unfolding tokenize
tokenize-go rounds s s' t e h = rw (e, h)

tokenize-fault :
    (rounds : ℕ) (s : Source)
    → next_token s ≡ fault uninitialized
    → tokenize (suc rounds) s ≡ fault uninitialized
unfolding tokenize
tokenize-fault rounds s e = rw e

nothing-IsKnown :
    {r : Result (List Token)} (ts : List Token) → r ≡ ok [] → r ≡ ok ts → All IsKnown ts
nothing-IsKnown ts e h = let same : ts ≡ [] = cc in rw same tt

tokenize-step :
    (rounds : ℕ) (s : Source) (ts : List Token) (r : Result (Token × Source))
    → next_token s ≡ r
    → IsRead r
    → tokenize (suc rounds) s ≡ ok ts
    → ((s' : Source) (us : List Token) → tokenize rounds s' ≡ ok us → All IsKnown us)
    → All IsKnown ts
tokenize-step rounds s ts _ e (end t s' h) scan later =
    nothing-IsKnown ts (tokenize-stop rounds s s' t e h) scan
tokenize-step rounds s ts _ e unset scan later = let k = tokenize-fault rounds s e in cc
tokenize-step rounds s ts _ e (known t s' h) scan later = elim (Bool-cases (is_end t.type)) [
  | inl k ↦ nothing-IsKnown ts (tokenize-stop rounds s s' t e k) scan
  | inr k ↦
      let (us, f, g) =
        >>=-eq-ok (tokenize rounds s') (λ us. ok (t ∷ us))
          (sym (tokenize-go rounds s s' t e k) ∙ scan) in
      let same : ts ≡ t ∷ us = cc in rw same (h, later s' us f)
]

-- Every token of a scan that ends with tokens is a lexeme or an `#import` with no word behind it.
pub tokenize-IsKnown :
    (rounds : ℕ) (s : Source) (ts : List Token) → tokenize rounds s ≡ ok ts → All IsKnown ts
unfolding tokenize
tokenize-IsKnown zero s ts h = cc
tokenize-IsKnown (suc rounds) s ts h =
    tokenize-step rounds s ts (next_token s) refl (next_token-IsRead s) h
      (λ s' us e. tokenize-IsKnown rounds s' us e)

IsKnown-IsLexeme : {t : Token} → IsKnown t → t ≢ make_token TokenType.import [] → IsLexeme t
IsKnown-IsLexeme (inl h) named = h
IsKnown-IsLexeme (inr h) named = absurd (named h)

named_lexemes :
    (ts : List Token)
    → All IsKnown ts
    → All (λ t. t ≢ make_token TokenType.import []) ts
    → All IsLexeme ts
named_lexemes [] read named = tt
named_lexemes (t ∷ ts) read named =
    (IsKnown-IsLexeme read.0 named.0, named_lexemes ts read.1 named.1)

-- A scan without an `#import` that lacks its word is printed and scanned again to the same tokens.
pub tokenize-print_tokens-tokenize :
    (rounds : ℕ) (s : Source) (ts : List Token)
    → tokenize rounds s ≡ ok ts
    → All (λ t. t ≢ make_token TokenType.import []) ts
    → tokenize (suc (length ts)) (print_tokens ts) ≡ ok ts
tokenize-print_tokens-tokenize rounds s ts h named =
    tokenize-print_tokens ts (suc (length ts))
      (named_lexemes ts (tokenize-IsKnown rounds s ts h) named) (omega arith)
