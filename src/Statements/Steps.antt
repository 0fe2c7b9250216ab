-- ===== src/Statements/Steps.antt =====
-- src/compiler/parser.cpp: the steps that the parsers of statements share.
use sprout_lang.Prelude.{
  ◌≡◌, ◌≢◌, refl, ap, true, false, Option, List, [], ◌∷◌, ◌++◌, arith, Bool-cases, inl, inr,
}
use sprout_lang.Result.{Returns, Returns-map}
use sprout_lang.Lexer.{TokenType, Token}
use sprout_lang.Ast.{Node, Nodes}
use sprout_lang.Parser.Tokens.{same_type, peek, next_is, advance, expect}
use sprout_lang.Parser.Reads.{eq_of_same_type, same_type_refl}
use sprout_lang.Parser.Operators.{expect-Returns}
use sprout_lang.Statements.{push_node, skip_type}
use sprout_lang.Statements.Grammar.{
  TypeNote, untyped, typed, StartsNone, Statement, BlockItems, Statement-length,
}

pub ne_of_same_type : (a b : TokenType) → same_type a b ≡ false → a ≢ b
ne_of_same_type a b h e = let same : same_type a b ≡ true = rw e (same_type_refl b) in cc

-- What stands before the expression of a declaration.
abbrev pub IsNoted : List Token → List Token → Type 0
IsNoted ts rest =
    (type : List Token) × (e : Token) × (ts ≡ type ++ e ∷ rest)
    × TypeNote type
    × (e.type ≡ TokenType.eq)

pub untyped-Returns : (ts : List Token) → Returns (IsNoted ts) (expect TokenType.eq ts)
untyped-Returns ts =
    Returns-map (expect-Returns TokenType.eq ts) λ rest (e, same, k). ([], e, same, untyped, k)

pub typed-Returns :
    (a : Token) (ts : List Token)
    → a.type ≡ TokenType.arr_right
    → Returns (IsNoted (a ∷ ts)) (expect TokenType.eq (advance ts))
unfolding advance
typed-Returns a [] h = Returns-map (expect-Returns TokenType.eq []) λ rest (e, same, k). cc
typed-Returns a (t ∷ ts) h =
    Returns-map (expect-Returns TokenType.eq ts)
      λ rest (e, same, k). (a ∷ t ∷ [], e, ap (λ x. a ∷ t ∷ x) same, typed a t h, k)

pub skip_type-Returns :
    (ts : List Token) → Returns (IsNoted ts) (expect TokenType.eq (skip_type ts))
unfolding skip_type advance next_is
skip_type-Returns [] = untyped-Returns []
skip_type-Returns (t ∷ ts) = elim (Bool-cases (next_is TokenType.arr_right (t ∷ ts))) [
  | inl h ↦ rw h (typed-Returns t ts (eq_of_same_type t.type TokenType.arr_right h))
  | inr h ↦ rw h (untyped-Returns (t ∷ ts))
]

pub peek_first : {ts rest : List Token} {t : Token} → ts ≡ t ∷ rest → peek ts ≡ t
unfolding peek
peek_first e = rw e

pub next_is_end : next_is TokenType.end_of_file [] ≡ true
unfolding next_is
next_is_end = refl

pub ne_of_next_is :
    (k : TokenType) (t : Token) (ts : List Token) → next_is k (t ∷ ts) ≡ false → t.type ≢ k
unfolding next_is
ne_of_next_is k t ts h = ne_of_same_type t.type k h

pub starts_none :
    (t : Token) (ts : List Token)
    → next_is TokenType.var (t ∷ ts) ≡ false
    → next_is TokenType.l_curl_brkt (t ∷ ts) ≡ false
    → next_is TokenType.if_keyword (t ∷ ts) ≡ false
    → next_is TokenType.ident (t ∷ ts) ≡ false
    → StartsNone t.type
starts_none t ts a b c d = record {
  no_var = ne_of_next_is _ t ts a;
  no_block = ne_of_next_is _ t ts b;
  no_if = ne_of_next_is _ t ts c;
  no_name = ne_of_next_is _ t ts d;
}

-- A statement that begins with `t`, in front of the other items of a block.
pub first_item :
    (t : Token) {ts us : List Token} {n : Option Node} {ns : Nodes} (used rest : List Token)
    → t.type ≢ TokenType.r_curl_brkt
    → t.type ≢ TokenType.end_of_file
    → t ∷ ts ≡ used ++ rest
    → Statement used n
    → BlockItems us ns
    → BlockItems (used ++ us) (push_node n ns)
first_item t [] rest h k e d ds = absurd (omega (arith, Statement-length d))
first_item t (u ∷ used) rest h k e d ds =
    let same : u ≡ t = cc in BlockItems.item u (rw same h) (rw same k) d ds
