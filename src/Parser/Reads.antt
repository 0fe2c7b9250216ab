-- ===== src/Parser/Reads.antt =====
-- src/compiler/parser.cpp: what it is for a parser to read an expression, and the steps that the
-- parsers share.
use sprout_lang.Prelude.{
  ℕ, ◌<◌, ◌≡◌, refl, sym, ap, ◌∙◌, true, List, [], ◌∷◌, ◌++◌, length, get_or, ==_iff,
}
use sprout_lang.Result.{Returns}
use sprout_lang.Lexer.{TokenType, Token}
use sprout_lang.Parser.{Parser, Arena}
use sprout_lang.Parser.Tokens.{enum_value, same_type}

value_type : ℕ → TokenType
value_type n = get_or types n TokenType.end_of_file
  where
    types : List TokenType
    types =
        TokenType.var ∷ TokenType.array ∷ TokenType.int ∷ TokenType.float ∷ TokenType.boolean
        ∷ TokenType.char6 ∷ TokenType.print ∷ TokenType.import ∷ TokenType.if_keyword
        ∷ TokenType.else_keyword ∷ TokenType.while ∷ TokenType.func ∷ TokenType.ret
        ∷ TokenType.number ∷ TokenType.ident ∷ TokenType.plus ∷ TokenType.minus ∷ TokenType.star
        ∷ TokenType.slash ∷ TokenType.eq ∷ TokenType.eqeq ∷ TokenType.greater ∷ TokenType.lower
        ∷ TokenType.greater_eq ∷ TokenType.lower_eq ∷ TokenType.not_eq ∷ TokenType.double_and
        ∷ TokenType.double_vbar ∷ TokenType.colon ∷ TokenType.comma ∷ TokenType.doublecolon
        ∷ TokenType.semicolon ∷ TokenType.negation ∷ TokenType.l_paren ∷ TokenType.r_paren
        ∷ TokenType.l_sqr_brkt ∷ TokenType.r_sqr_brkt ∷ TokenType.l_curl_brkt
        ∷ TokenType.r_curl_brkt ∷ TokenType.arr_right ∷ TokenType.unknown ∷ []

value_type-enum_value : (t : TokenType) → value_type (enum_value t) ≡ t
unfolding value_type enum_value
value_type-enum_value TokenType.var = refl
value_type-enum_value _ = refl

pub eq_of_same_type : (a b : TokenType) → same_type a b ≡ true → a ≡ b
unfolding same_type
eq_of_same_type a b h =
    let same : enum_value a ≡ enum_value b = (==_iff _ _).0 h in
    sym (value_type-enum_value a) ∙ ap value_type same ∙ value_type-enum_value b

pub same_type_refl : (a : TokenType) → same_type a a ≡ true
unfolding same_type
same_type_refl a = (==_iff (enum_value a) (enum_value a)).1 refl

-- `I` holds of the arena before, and the tokens that are read are those of a `D`.
module _ (I : Arena → Type 0) {A : Type 0} (D : List Token → A → Type 0) where
  abbrev pub Reads : List Token → A × List Token × Arena → Type 0
  Reads ts (a, rest, ar) = (used : List Token) × (ts ≡ used ++ rest) × D used a × I ar

  abbrev pub Parses : ℕ → Parser A → Type 0
  Parses bound p =
      (ts : List Token) (ar : Arena) → length ts < bound → I ar → Returns (Reads ts) (p ts ar)
