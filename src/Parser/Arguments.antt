-- ===== src/Parser/Arguments.antt =====
-- src/compiler/parser.cpp: lists of arguments that can be read in one way, and first tokens.
use mathlib.Core.List.{append_assoc}
use sprout_lang.Prelude.{
  ℕ, zero, suc, ◌<◌, ◌≡◌, refl, inl, Bool, true, false, ◌||◌, List, [], ◌∷◌, ◌++◌, length,
  length-append, arith,
}
use sprout_lang.Result.{ok, ◌>>=◌}
use sprout_lang.Lexer.{TokenType, Token}
use sprout_lang.Ast.{Node, Nodes, nil, cons}
use sprout_lang.Parser.{
  Parser, Arena, NodeSizes, is_multiplicative, is_additive, is_comparison, is_logical,
  after_argument, parse_arguments,
}
use sprout_lang.Parser.Tokens.{same_type, expect, peek, next_is, advance}
use sprout_lang.Parser.Grammar.{Level, logical, primary, IsPrefix, negative, negation}
use sprout_lang.Parser.Plain.{
  Plain, number, name, call, parentheses, prefix, unprefixed, operand, operation, Whole, plain,
  assignment, PlainArguments, no_argument, last_argument, argument, Ends, Plain-length,
}
use sprout_lang.Parser.Reads.{same_type_refl}
use sprout_lang.Parser.Levels.{Finds, next, >>=-Finds}

pub next_is_type :
    (k : TokenType) (t : Token) (ts : List Token) → t.type ≡ k → next_is k (t ∷ ts) ≡ true
unfolding next_is
next_is_type k t ts h = rw h (same_type_refl k)

pub next_is_other :
    (j k : TokenType) (t : Token) (ts : List Token)
    → t.type ≡ k
    → same_type k j ≡ false
    → next_is j (t ∷ ts) ≡ false
unfolding next_is
next_is_other j k t ts h e = rw h e

pub expect_type :
    (k : TokenType) (t : Token) (ts : List Token) → t.type ≡ k → expect k (t ∷ ts) ≡ ok ts
unfolding expect
expect_type k t ts h = rw (h, same_type_refl k)

-- The first token of an expression ends no list of arguments, and that of a primary one is no
-- prefix operator.
abbrev pub is_prefix : TokenType → Bool
is_prefix t = same_type t TokenType.minus || same_type t TokenType.negation

abbrev pub StartsWith : (TokenType → Bool) → List Token → Type 0
StartsWith not_this ts = (t : Token) × (us : List Token) × (ts ≡ t ∷ us) × (not_this t.type ≡ false)

abbrev is_semicolon : TokenType → Bool
is_semicolon t = same_type t TokenType.semicolon

pub primary-StartsWith : {ts : List Token} {n : Node} → Plain primary ts n → StartsWith is_prefix ts
unfolding same_type
primary-StartsWith (number t h k) = (t, [], refl, rw h refl)
primary-StartsWith (name t h) = (t, [], refl, rw h refl)
primary-StartsWith (call t c s {ts} h k j d) = (t, c ∷ (ts ++ s ∷ []), refl, rw h refl)
primary-StartsWith (parentheses l r {ts} h k d) = (l, ts ++ r ∷ [], refl, rw h refl)
primary-StartsWith (operand b d) = elim b [ ]
primary-StartsWith (operation op b is d e) = elim b [ ]

prefix_no_semicolon : {t : TokenType} → IsPrefix t → is_semicolon t ≡ false
unfolding same_type
prefix_no_semicolon negative = refl
prefix_no_semicolon negation = refl

Plain-StartsWith :
    {l : Level} {ts : List Token} {n : Node} → Plain l ts n → StartsWith is_semicolon ts
unfolding same_type
Plain-StartsWith (number t h k) = (t, [], refl, rw h refl)
Plain-StartsWith (name t h) = (t, [], refl, rw h refl)
Plain-StartsWith (call t c s {ts} h k j d) = (t, c ∷ (ts ++ s ∷ []), refl, rw h refl)
Plain-StartsWith (parentheses l r {ts} h k d) = (l, ts ++ r ∷ [], refl, rw h refl)
Plain-StartsWith (prefix op {ts} p d) = (op, ts, refl, prefix_no_semicolon p)
Plain-StartsWith (unprefixed d) = Plain-StartsWith d
Plain-StartsWith (operand b d) = Plain-StartsWith d
Plain-StartsWith (operation op {left} {right} b is d e) =
    let (t, us, same, h) = Plain-StartsWith d in (t, us ++ op ∷ right, rw same, h)

Whole-StartsWith : {ts : List Token} {n : Node} → Whole ts n → StartsWith is_semicolon ts
unfolding same_type
Whole-StartsWith (plain d) = Plain-StartsWith d
Whole-StartsWith (assignment t e {ts} h k w) = (t, e ∷ ts, refl, rw h refl)

pub Whole-length : {ts : List Token} {n : Node} → Whole ts n → 0 < length ts
Whole-length (plain d) = Plain-length d
Whole-length (assignment t e h k w) = omega arith

no_semicolon :
    {ts : List Token} (rest : List Token)
    → StartsWith is_semicolon ts
    → next_is TokenType.semicolon (ts ++ rest) ≡ false
unfolding next_is
no_semicolon rest (t, us, same, h) = rw (same, h)

-- What may stand behind a whole expression.
pub data Closes : TokenType → Type 0 where
  comma : Closes TokenType.comma
  semicolon : Closes TokenType.semicolon
  r_paren : Closes TokenType.r_paren

Closes-Ends : {t : TokenType} → Closes t → Ends logical t
unfolding same_type is_multiplicative is_additive is_comparison is_logical
Closes-Ends comma = (refl, (refl, (refl, (refl, (refl, refl)))))
Closes-Ends semicolon = (refl, (refl, (refl, (refl, (refl, refl)))))
Closes-Ends r_paren = (refl, (refl, (refl, (refl, (refl, refl)))))

pub closing :
    (t : Token) (k : TokenType) (rest : List Token)
    → t.type ≡ k
    → Closes k
    → Ends logical (next (t ∷ rest))
unfolding peek
closing t k rest h c = Closes-Ends (rw h c)

-- `p` reads the expressions that have fewer tokens than the bound.
abbrev pub AcceptsWhole : ℕ → Parser Node → Type 0
AcceptsWhole bound p =
    (ts : List Token) (n : Node) (rest : List Token) (ar : Arena)
    → Whole ts n
    → Ends logical (next rest)
    → length ts < bound
    → Finds n rest (p (ts ++ rest) ar)

semicolon_not_comma : same_type TokenType.semicolon TokenType.comma ≡ false
unfolding same_type
semicolon_not_comma = refl

after_semicolon :
    (s : Token) (rest : List Token)
    → s.type ≡ TokenType.semicolon
    → after_argument (s ∷ rest) ≡ ok (s ∷ rest)
unfolding after_argument
after_semicolon s rest h = rw (
  next_is_other TokenType.comma TokenType.semicolon s rest h semicolon_not_comma,
  next_is_type TokenType.semicolon s rest h,
)

after_comma :
    (c : Token) (rest : List Token) → c.type ≡ TokenType.comma → after_argument (c ∷ rest) ≡ ok rest
unfolding after_argument advance
after_comma c rest h = rw (next_is_type TokenType.comma c rest h)

module _ (sizes : NodeSizes) where
  arguments-stop :
      (p : Parser Node) (rounds : ℕ) (s : Token) (rest : List Token) (ar : Arena)
      → 0 < rounds
      → s.type ≡ TokenType.semicolon
      → parse_arguments sizes p rounds (s ∷ rest) ar ≡ ok (nil, s ∷ rest, ar)
  unfolding parse_arguments
  arguments-stop p zero s rest ar h e = absurd (omega arith)
  arguments-stop p (suc rounds) s rest ar h e = rw (next_is_type TokenType.semicolon s rest e)

  arguments-go :
      (p : Parser Node) (rounds : ℕ) (ts : List Token) (ar : Arena)
      → next_is TokenType.semicolon ts ≡ false
      → parse_arguments sizes p (suc rounds) ts ar ≡ (do
        (arg, ts, ar) ← p ts ar
        ts ← after_argument ts
        (args, ts, ar) ← parse_arguments sizes p rounds ts ar
        ok (cons arg args, ts, ar))
  unfolding parse_arguments
  arguments-go p rounds ts ar h = rw h

  pub arguments-Finds :
      (p : Parser Node) (bound rounds : ℕ) (ts : List Token) (ns : Nodes) (s : Token)
      (rest : List Token) (ar : Arena)
      → AcceptsWhole bound p
      → PlainArguments ts ns
      → s.type ≡ TokenType.semicolon
      → length ts < rounds
      → length ts < bound
      → Finds ns (s ∷ rest) (parse_arguments sizes p rounds (ts ++ s ∷ rest) ar)
  arguments-Finds p bound zero ts ns s rest ar good d h few few' = absurd (omega arith)
  arguments-Finds p bound (suc rounds) _ _ s rest ar good no_argument h few few' =
      inl (ar, arguments-stop p (suc rounds) s rest ar (omega arith) h)
  arguments-Finds p bound (suc rounds) ts _ s rest ar good (last_argument {n = n} w) h few few' =
      rw (arguments-go p rounds (ts ++ s ∷ rest) ar (no_semicolon (s ∷ rest) (Whole-StartsWith w)))
        (>>=-Finds (p (ts ++ s ∷ rest) ar) _
          (good ts n (s ∷ rest) ar w (closing s TokenType.semicolon rest h semicolon) few')
          λ ar₁.
            rw
              (
                after_semicolon s rest h,
                arguments-stop p rounds s rest ar₁ (omega (arith, Whole-length w)) h,
              )
              (inl (ar₁, refl)))
  arguments-Finds p bound (suc rounds) _ _ s rest ar good (argument c {ts} {us} {n} {ns} k w d) h
        few few' =
      let sum = length-append ts (c ∷ us) in
      rw
        (
          append_assoc ts (c ∷ us) (s ∷ rest),
          arguments-go p rounds (ts ++ c ∷ (us ++ s ∷ rest)) ar
              (no_semicolon (c ∷ (us ++ s ∷ rest)) (Whole-StartsWith w)),
        )
        (>>=-Finds (p (ts ++ c ∷ (us ++ s ∷ rest)) ar) _
          (good ts n (c ∷ (us ++ s ∷ rest)) ar w
            (closing c TokenType.comma (us ++ s ∷ rest) k comma) (omega (arith, sum)))
          λ ar₁. rw (after_comma c (us ++ s ∷ rest) k) (
            >>=-Finds (parse_arguments sizes p rounds (us ++ s ∷ rest) ar₁) _
              (arguments-Finds p bound rounds us ns s rest ar₁ good d h (omega (arith, sum))
                (omega (arith, sum)))
              λ ar₂. inl (ar₂, refl)))
