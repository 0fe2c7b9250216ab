-- ===== src/Parser/Expressions.antt =====
-- src/compiler/parser.cpp: the end of the parsers of expressions, what they read, and the arena
-- behind them.
use mathlib.Core.List.{append_assoc}
use sprout_lang.Prelude.{
  ℕ, zero, suc, ◌<◌, ◌≡◌, refl, sym, ap, ◌∙◌, true, false, ◌||◌, List, [], ◌∷◌, ◌++◌, length,
  length-append, arith, leb, ◌==◌, inl, inr, ◌⊎◌,
}
use sprout_lang.Prelude.Int.{ℤ, pos, sub_ℕ}
use sprout_lang.Result.{
  ok, check, Returns, gives, throws, branch-Returns, >>=-Returns, Returns-map, Returns-itself,
  check-Returns, no_conversion, out_of_range,
}
use sprout_lang.Lexer
use sprout_lang.Lexer.{is_digit, is_space, after, TokenType, Token}
use sprout_lang.Ast.{Text, Node, nil, cons, var_assign, func_call, unary_op, ident, int_literal}
use sprout_lang.Parser.{
  Parser, Arena, NodeSizes, allocate, after_argument, parse_arguments, parse_identified,
  parse_primary, parse_logical, parse_unary, parse_expression,
}
use sprout_lang.Parser.Tokens.{
  same_type, expect, peek, next_is, advance, stoll, stoll_digits, read_digits,
}
use sprout_lang.Parser.Grammar.{
  logical, unary, primary, below_unary, IsPrefix, negative, negation, Derives, number, name,
  assignment, call, parentheses, prefix, operand, Arguments, no_argument, last_argument, argument,
  Derives-length,
}
use sprout_lang.Parser.Reads.{eq_of_same_type, Reads, Parses}
use sprout_lang.Parser.Operators.{EachSize, expect-Returns, or_cases, logical-Parses}

stoll_digits-Returns :
    (sign : ℕ → ℤ) (bound : ℕ) (text : Text)
    → Returns (λ _. Unit {0}) (stoll_digits sign bound text)
unfolding stoll_digits
stoll_digits-Returns sign bound text =
    >>=-Returns (check (is_digit (Lexer.peek text)) no_conversion) _ (check-Returns _ _) λ _ _.
      >>=-Returns (check (leb (read_digits 0 text) bound) out_of_range) _ (check-Returns _ _)
        λ _ _. gives _ tt

stoll-Returns : (text : Text) → Returns (λ v. stoll text ≡ ok v) (stoll text)
unfolding stoll
stoll-Returns text = Returns-itself (
    branch-Returns (Lexer.peek (after is_space text) == b'-')
      (λ _. stoll_digits-Returns (λ n. sub_ℕ 0 n) _ _)
      λ _.
        branch-Returns (Lexer.peek (after is_space text) == b'+')
          (λ _. stoll_digits-Returns pos _ _) λ _. stoll_digits-Returns pos _ _)

is_prefix :
    (t : TokenType)
    → (same_type t TokenType.minus || same_type t TokenType.negation) ≡ true
    → IsPrefix t
is_prefix t h = elim (or_cases _ _ h) [
  | inl e ↦ rw (eq_of_same_type t TokenType.minus e) negative
  | inr e ↦ rw (eq_of_same_type t TokenType.negation e) negation
]

-- The tokens up to a last one.
pub append-last :
    {ts rest last : List Token} (used : List Token) (t : Token)
    → ts ≡ used ++ rest
    → rest ≡ t ∷ last
    → ts ≡ (used ++ t ∷ []) ++ last
append-last {last} used t e e' =
    e ∙ ap (λ (x : List Token). used ++ x) e' ∙ sym (append_assoc used (t ∷ []) last)

-- The next token, if it is of a type that is not the end.
pub next_is-first :
    (k : TokenType) (ts : List Token)
    → same_type TokenType.end_of_file k ≡ false
    → next_is k ts ≡ true
    → (t : Token) × (ts ≡ t ∷ advance ts) × (t.type ≡ k)
unfolding next_is advance
next_is-first k [] no_end h = cc
next_is-first k (t ∷ ts) no_end h = (t, refl, eq_of_same_type t.type k h)

module _ (sizes : NodeSizes) (I : Arena → Type 0) (Q : ℕ → Type 0) (fits : EachSize Q sizes)
    (keeps : (size : ℕ) (ar : Arena) → Q size → I ar → Returns I (allocate size ar)) where
  after_argument-Returns :
      (ts : List Token)
      → Returns
          (λ rest.
            ((c : Token) × (ts ≡ c ∷ rest) × (c.type ≡ TokenType.comma))
            ⊎ ((ts ≡ rest) × (next_is TokenType.semicolon ts ≡ true)))
          (after_argument ts)
  unfolding after_argument peek advance
  after_argument-Returns [] = throws _
  after_argument-Returns (t ∷ ts) =
      branch-Returns (next_is TokenType.comma (t ∷ ts))
        (λ h. gives ts (inl (t, refl, eq_of_same_type t.type TokenType.comma h)))
        λ _.
          branch-Returns (next_is TokenType.semicolon (t ∷ ts))
            (λ h. gives (t ∷ ts) (inr (refl, h))) λ _. throws _

  parse_arguments-stop :
      (p : Parser Node) (rounds : ℕ) (ts : List Token) (ar : Arena)
      → 0 < rounds
      → next_is TokenType.semicolon ts ≡ true
      → parse_arguments sizes p rounds ts ar ≡ ok (nil, ts, ar)
  unfolding parse_arguments
  parse_arguments-stop p zero ts ar h e = absurd (omega arith)
  parse_arguments-stop p (suc rounds) ts ar h e = rw e

  parse_arguments-Parses :
      (p : Parser Node) (bound rounds : ℕ) (ts : List Token) (ar : Arena)
      → Parses I (Derives logical) bound p
      → length ts < rounds
      → length ts < bound
      → I ar
      → Returns
          (λ r. Reads I Arguments ts r × (next_is TokenType.semicolon r.1 ≡ true))
          (parse_arguments sizes p rounds ts ar)
  unfolding parse_arguments
  parse_arguments-Parses p bound zero ts ar good h k i = absurd (omega arith)
  parse_arguments-Parses p bound (suc rounds) ts ar good h k i =
      branch-Returns (next_is TokenType.semicolon ts)
        (λ ends. gives (nil, ts, ar) (([], refl, no_argument, i), ends))
        λ _. >>=-Returns (p ts ar) _ (good ts ar k i) λ (arg, rest, ar₁) (used, e, d, i₁).
          let shorter = ap length e ∙ length-append used rest in
          let some = Derives-length d in
          >>=-Returns (after_argument rest) _ (after_argument-Returns rest) λ next behind.
            elim behind [
              | inl (c, e', is_comma) ↦
                  let shorter' = ap length e' in
                  >>=-Returns (parse_arguments sizes p rounds next ar₁) _
                    (parse_arguments-Parses p bound rounds next ar₁ good
                      (omega (arith, shorter, shorter')) (omega (arith, shorter, shorter')) i₁)
                    λ (args, last, ar₂) ((more, e'', d', i₂), ends).
                      gives (cons arg args, last, ar₂)
                        (
                          (
                            used ++ c ∷ more,
                            simp (e, e', e'', append_assoc),
                            argument c is_comma d d',
                            i₂,
                          ),
                          ends,
                        )
              | inr (e', ends) ↦
                  rw (← e', parse_arguments-stop p rounds rest ar₁ (omega (arith, shorter)) ends)
                    (gives (cons arg nil, rest, ar₁) ((used, e, last_argument d, i₁), ends))
            ]

  identified-Parses :
      (p : Parser Node) (bound : ℕ) (t : Token) (ts : List Token) (ar : Arena)
      → Parses I (Derives logical) bound p
      → t.type ≡ TokenType.ident
      → length ts < bound
      → I ar
      → Returns
          (Reads I (Derives primary) (t ∷ ts))
          (parse_identified sizes p bound t.content ts ar)
  unfolding parse_identified peek advance
  identified-Parses p bound t [] ar good is_name h i =
      >>=-Returns (allocate sizes.ident ar) _ (keeps sizes.ident ar fits.4 i)
        λ ar₁ i₁. gives (ident t.content, [], ar₁) (t ∷ [], refl, name t is_name, i₁)
  identified-Parses p bound t (c ∷ ts) ar good is_name h i =
      branch-Returns (next_is TokenType.colon (c ∷ ts))
        (λ is_colon.
          >>=-Returns (parse_arguments sizes p bound ts ar) _
            (parse_arguments-Parses p bound bound ts ar good (omega arith) (omega arith) i)
            λ (args, rest, ar₁) ((used, e, d, i₁), ends).
              >>=-Returns (allocate sizes.func_call ar₁) _ (keeps sizes.func_call ar₁ fits.8 i₁)
                λ ar₂ i₂.
                  let (s, e', is_semicolon) = next_is-first TokenType.semicolon rest refl ends in
                  gives (func_call t.content args, advance rest, ar₂)
                    (
                      t ∷ c ∷ (used ++ s ∷ []),
                      ap (λ x. t ∷ c ∷ x) (append-last used s e e'),
                      call t c s is_name (eq_of_same_type c.type TokenType.colon is_colon)
                          is_semicolon d,
                      i₂,
                    ))
        λ _.
          branch-Returns (next_is TokenType.eq (c ∷ ts))
            (λ _.
              >>=-Returns (expect TokenType.eq (c ∷ ts)) _ (expect-Returns TokenType.eq (c ∷ ts))
                λ rest (e, same, is_eq).
                  >>=-Returns (p rest ar) _ (good rest ar (omega (arith, ap length same)) i)
                    λ (n, last, ar₁) (used, e', d, i₁).
                      >>=-Returns (allocate sizes.var_assign ar₁) _
                        (keeps sizes.var_assign ar₁ fits.7 i₁)
                        λ ar₂ i₂.
                          gives (var_assign t.content n, last, ar₂)
                            (t ∷ e ∷ used, simp (same, e'), assignment t e is_name is_eq d, i₂))
            λ _.
              >>=-Returns (allocate sizes.ident ar) _ (keeps sizes.ident ar fits.4 i)
                λ ar₁ i₁. gives (ident t.content, c ∷ ts, ar₁) (t ∷ [], refl, name t is_name, i₁)

  pub primary-Parses :
      (p : Parser Node) (bound : ℕ)
      → Parses I (Derives logical) bound p
      → Parses I (Derives primary) (suc bound) (parse_primary sizes p bound)
  unfolding parse_primary peek advance
  primary-Parses p bound good [] ar h i = throws _
  primary-Parses p bound good (t ∷ ts) ar h i =
      branch-Returns (next_is TokenType.number (t ∷ ts))
        (λ is_number.
          >>=-Returns (allocate sizes.int_literal ar) _ (keeps sizes.int_literal ar fits.5 i)
            λ ar₁ i₁. >>=-Returns (stoll t.content) _ (stoll-Returns t.content) λ v e.
              gives (int_literal v, ts, ar₁)
                (t ∷ [], refl, number t (eq_of_same_type t.type TokenType.number is_number) e, i₁))
        λ _.
          branch-Returns (next_is TokenType.ident (t ∷ ts))
            (λ is_name.
              identified-Parses p bound t ts ar good
                (eq_of_same_type t.type TokenType.ident is_name) (omega arith) i)
            λ _.
              branch-Returns (next_is TokenType.l_paren (t ∷ ts))
                (λ opens.
                  >>=-Returns (p ts ar) _ (good ts ar (omega arith) i)
                    λ (n, rest, ar₁) (used, e, d, i₁).
                      >>=-Returns (expect TokenType.r_paren rest) _
                        (expect-Returns TokenType.r_paren rest)
                        λ last (r, e', closes).
                          gives (n, last, ar₁)
                            (
                              t ∷ (used ++ r ∷ []),
                              ap (λ x. t ∷ x) (append-last used r e e'),
                              parentheses t r (eq_of_same_type t.type TokenType.l_paren opens)
                                  closes d,
                              i₁,
                            ))
                λ _. throws _

  unary-Parses : (fuel : ℕ) → Parses I (Derives unary) fuel (parse_unary sizes fuel)
  unfolding parse_unary peek advance
  unary-Parses zero ts ar h i = absurd (omega arith)
  unary-Parses (suc fuel) [] ar h i =
      Returns-map
        (primary-Parses (parse_logical sizes (parse_unary sizes fuel) fuel) fuel
          (logical-Parses sizes I Q fits keeps (parse_unary sizes fuel) fuel (unary-Parses fuel)) []
          ar h i)
        λ _ (used, e, d, i₁). (used, e, operand below_unary d, i₁)
  unary-Parses (suc fuel) (t ∷ ts) ar h i =
      branch-Returns (same_type t.type TokenType.minus || same_type t.type TokenType.negation)
        (λ found.
          >>=-Returns (parse_unary sizes fuel ts ar) _ (unary-Parses fuel ts ar (omega arith) i)
            λ (n, rest, ar₁) (used, e, d, i₁).
              >>=-Returns (allocate sizes.unary_op ar₁) _ (keeps sizes.unary_op ar₁ fits.3 i₁)
                λ ar₂ i₂.
                  gives (unary_op t.type n, rest, ar₂)
                    (t ∷ used, ap (λ x. t ∷ x) e, prefix t (is_prefix t.type found) d, i₂))
        λ _.
          Returns-map
            (primary-Parses (parse_logical sizes (parse_unary sizes fuel) fuel) fuel
              (logical-Parses sizes I Q fits keeps (parse_unary sizes fuel) fuel
                (unary-Parses fuel))
              (t ∷ ts) ar h i)
            λ _ (used, e, d, i₁). (used, e, operand below_unary d, i₁)

  -- With more fuel than there are tokens an expression is read, and what is read is one by the
  -- grammar, or the code throws.
  pub expression-Parses : (fuel : ℕ) → Parses I (Derives logical) fuel (parse_expression sizes fuel)
  unfolding parse_expression
  expression-Parses fuel =
      logical-Parses sizes I Q fits keeps (parse_unary sizes fuel) fuel (unary-Parses fuel)
