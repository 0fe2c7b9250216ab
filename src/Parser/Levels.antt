-- ===== src/Parser/Levels.antt =====
-- src/compiler/parser.cpp: the levels of binary operators read the expressions that can be read in
-- one way.
use mathlib.Core.List.{append_assoc}
use sprout_lang.Prelude.{
  ℕ, zero, suc, ◌+◌, ◌≤◌, ◌<◌, ◌≡◌, refl, ◌∙◌, ◌⊎◌, inl, inr, Bool, true, false, List, ◌∷◌, ◌++◌,
  length, length-append, arith,
}
use sprout_lang.Result.{Result, ok, thrown, ◌>>=◌, faulty_allocation}
use sprout_lang.Lexer.{TokenType, Token}
use sprout_lang.Ast.{Node, binary_op}
use sprout_lang.Parser.{
  Parser, Arena, NodeSizes, allocate, parse_operators, parse_level, parse_multiplicative,
  parse_additive, parse_comparison, parse_logical,
}
use sprout_lang.Parser.Tokens.{peek, advance}
use sprout_lang.Parser.Grammar.{Level, logical, comparison, additive, multiplicative, unary}
use sprout_lang.Parser.Plain.{
  IsBinary, logical_level, comparison_level, additive_level, multiplicative_level, tighter, Plain,
  number, name, call, parentheses, prefix, unprefixed, operand, operation, Ends, operator-Ends,
  test_of, operator-test_of, Ends-test_of,
}
use sprout_lang.Parser.Placement.{Allocates, allocated, no_room, allocate-Allocates}

-- The parser gives `a` and leaves `rest`, or an allocation throws.
abbrev pub Finds : {A : Type 0} → A → List Token → Result (A × List Token × Arena) → Type 0
Finds a rest r = ((ar : Arena) × (r ≡ ok (a, rest, ar))) ⊎ (r ≡ thrown faulty_allocation)

-- The type of the next token.
abbrev pub next : List Token → TokenType
next ts = (peek ts).type

pub >>=-Finds :
    {A B : Type 0} {a : A} {b : B} {rest rest' : List Token} (r : Result (A × List Token × Arena))
    (k : A × List Token × Arena → Result (B × List Token × Arena))
    → Finds a rest r
    → ((ar : Arena) → Finds b rest' (k (a, rest, ar)))
    → Finds b rest' (r >>= k)
>>=-Finds r k (inl (ar, e)) after = rw e (after ar)
>>=-Finds r k (inr e) after = inr (rw e)

pub allocate-cases :
    (size : ℕ) (ar : Arena)
    → ((ar' : Arena) × (allocate size ar ≡ ok ar')) ⊎ (allocate size ar ≡ thrown faulty_allocation)
allocate-cases size ar = cases (allocate-Allocates size ar)
  where
    cases :
        {r : Result Arena}
        → Allocates r
        → ((ar' : Arena) × (r ≡ ok ar')) ⊎ (r ≡ thrown faulty_allocation)
    cases (allocated a) = inl (a, refl)
    cases no_room = inr refl

pub allocate-Finds :
    {B : Type 0} {b : B} {rest : List Token} (size : ℕ) (ar : Arena)
    (k : Arena → Result (B × List Token × Arena))
    → ((ar' : Arena) → Finds b rest (k ar'))
    → Finds b rest (allocate size ar >>= k)
allocate-Finds size ar k after = elim (allocate-cases size ar) [
  | inl (ar', e) ↦ rw e (after ar')
  | inr e ↦ inr (rw e)
]

-- `p` reads the plain expressions of the level that have fewer tokens than the bound.
abbrev pub Accepts : Level → ℕ → Parser Node → Type 0
Accepts l bound p =
    (ts : List Token) (n : Node) (rest : List Token) (ar : Arena)
    → Plain l ts n
    → Ends l (next rest)
    → length ts < bound
    → Finds n rest (p (ts ++ rest) ar)

module _ (sizes : NodeSizes) where
  -- The loop of a level has come to `n`, with enough rounds left.
  abbrev Arrives :
      (TokenType → Bool)
      → Parser Node
      → ℕ
      → List Token
      → Node
      → List Token
      → Result (Node × List Token × Arena)
      → Type 0
  Arrives op p bound ts n rest r =
      ((ar : Arena) × (rounds : ℕ) × (r ≡ parse_operators sizes op p rounds n rest ar)
        × (bound ≤ rounds + length ts))
      ⊎ (r ≡ thrown faulty_allocation)

  operators-stop :
      (op : TokenType → Bool) (p : Parser Node) (rounds : ℕ) (n : Node) (rest : List Token)
      (ar : Arena)
      → 0 < rounds
      → op (next rest) ≡ false
      → parse_operators sizes op p rounds n rest ar ≡ ok (n, rest, ar)
  unfolding parse_operators
  operators-stop op p zero n rest ar h e = absurd (omega arith)
  operators-stop op p (suc rounds) n rest ar h e = rw e

  -- One round.
  operators-Arrives :
      {b : Node} {rest : List Token} (op : TokenType → Bool) (p : Parser Node) (bound rounds : ℕ)
      (t : Token) (left : Node) (before right : List Token) (ar : Arena)
      → op t.type ≡ true
      → bound ≤ rounds + length before
      → length (before ++ t ∷ right) < bound
      → ((ar' : Arena) → Finds b rest (p (right ++ rest) ar'))
      → Arrives op p bound
          (before ++ t ∷ right)
          (binary_op t.type left b)
          rest
          (parse_operators sizes op p rounds left (t ∷ (right ++ rest)) ar)
  unfolding parse_operators peek advance
  operators-Arrives op p bound zero t left before right ar h low few found =
      absurd (omega (arith, length-append {0} before (t ∷ right)))
  operators-Arrives op p bound (suc rounds) t left before right ar h low few found =
      elim (found ar) [
        | inl (ar₁, e) ↦ elim (allocate-cases sizes.binary_op ar₁) [
          | inl (ar₂, e') ↦
              inl (ar₂, rounds, rw (h, e, e'), omega (arith, length-append {0} before (t ∷ right)))
          | inr e' ↦ inr (rw (h, e, e'))
        ]
        | inr e ↦ inr (rw (h, e))
      ]

  level-Arrives :
      (l : Level) (p : Parser Node) (bound : ℕ) (ts : List Token) (n : Node) (rest : List Token)
      (ar : Arena)
      → IsBinary l
      → Accepts (tighter l) bound p
      → Plain l ts n
      → Ends (tighter l) (next rest)
      → length ts < bound
      → Arrives
          (test_of l)
          p
          bound
          ts
          n
          rest
          (parse_level sizes (test_of l) p bound (ts ++ rest) ar)
  unfolding parse_level peek
  level-Arrives l p bound ts n rest ar binary good (operand b d) ends few =
      elim (good ts n rest ar d ends few) [
        | inl (ar₁, e) ↦ inl (ar₁, bound, rw e, omega arith)
        | inr e ↦ inr (rw e)
      ]
  level-Arrives l p bound _ _ rest ar binary good (operation op {left} {right} {a} b is d e) ends
        few =
      rw (append_assoc left (op ∷ right) rest)
        (elim (level-Arrives l p bound left a (op ∷ (right ++ rest)) ar binary good d
          (operator-Ends is) (omega (arith, length-append {0} left (op ∷ right)))) [
            | inl (ar₁, rounds, e₁, low) ↦ rw e₁ (
                operators-Arrives (test_of l) p bound rounds op a left right ar₁
                  (operator-test_of is) low few
                  (λ ar'.
                    good right _ rest ar' e ends
                      (omega (arith, length-append {0} left (op ∷ right)))))
            | inr e₁ ↦ inr (rw e₁)
          ])
  level-Arrives _ p bound _ _ rest ar binary good (number t h k) ends few = elim binary [ ]
  level-Arrives _ p bound _ _ rest ar binary good (name t h) ends few = elim binary [ ]
  level-Arrives _ p bound _ _ rest ar binary good (call t c s h k j d) ends few = elim binary [ ]
  level-Arrives _ p bound _ _ rest ar binary good (parentheses a r h k d) ends few = elim binary [ ]
  level-Arrives _ p bound _ _ rest ar binary good (prefix op h d) ends few = elim binary [ ]
  level-Arrives _ p bound _ _ rest ar binary good (unprefixed d) ends few = elim binary [ ]

  level-Accepts :
      (l : Level) (p : Parser Node) (bound : ℕ)
      → IsBinary l
      → Accepts (tighter l) bound p
      → Accepts l bound (parse_level sizes (test_of l) p bound)
  level-Accepts l p bound binary good ts n rest ar d ends few =
      let (stops, ends') = Ends-test_of (next rest) binary ends in
      elim (level-Arrives l p bound ts n rest ar binary good d ends' few) [
        | inl (ar', rounds, e, low) ↦
            inl (ar', e ∙ operators-stop (test_of l) p rounds n rest ar' (omega arith) stops)
        | inr e ↦ inr e
      ]

  pub logical-Accepts :
      (p : Parser Node) (bound : ℕ)
      → Accepts unary bound p
      → Accepts logical bound (parse_logical sizes p bound)
  unfolding parse_logical
  logical-Accepts p bound good =
      level-Accepts logical (parse_comparison sizes p bound) bound logical_level (
        level-Accepts comparison (parse_additive sizes p bound) bound comparison_level (
          level-Accepts additive (parse_multiplicative sizes p bound) bound additive_level
            (level-Accepts multiplicative p bound multiplicative_level good)))

  -- An operand that no operator of the level follows.
  level-Finds :
      (l : Level) (p : Parser Node) (rounds : ℕ) (ts : List Token) (n : Node) (rest : List Token)
      (ar : Arena)
      → 0 < rounds
      → test_of l (next rest) ≡ false
      → Finds n rest (p ts ar)
      → Finds n rest (parse_level sizes (test_of l) p rounds ts ar)
  unfolding parse_level
  level-Finds l p rounds ts n rest ar h e found =
      >>=-Finds (p ts ar) _ found
        λ ar'. inl (ar', operators-stop (test_of l) p rounds n rest ar' h e)

  pub logical-Finds :
      (p : Parser Node) (rounds : ℕ) (ts : List Token) (n : Node) (rest : List Token) (ar : Arena)
      → 0 < rounds
      → Ends logical (next rest)
      → Finds n rest (p ts ar)
      → Finds n rest (parse_logical sizes p rounds ts ar)
  unfolding parse_logical
  logical-Finds p rounds ts n rest ar h ends found =
      level-Finds logical (parse_comparison sizes p rounds) rounds ts n rest ar h ends.0 (
        level-Finds comparison (parse_additive sizes p rounds) rounds ts n rest ar h ends.1.0 (
          level-Finds additive (parse_multiplicative sizes p rounds) rounds ts n rest ar h
            ends.1.1.0 (level-Finds multiplicative p rounds ts n rest ar h ends.1.1.1.0 found)))
