-- ===== src/Statements/Reads.antt =====
-- src/compiler/parser.cpp: the end of the parsers of statements, what they read, and the arena
-- behind them.
use mathlib.Core.List.{append_assoc}
use sprout_lang.Prelude.{
  ℕ, zero, suc, ◌+◌, ◌*◌, ◌≤◌, ◌<◌, ◌≡◌, refl, ap, ◌∙◌, none, some, List, [], ◌∷◌, ◌++◌, length,
  length-append, arith,
}
use sprout_lang.Result.{Returns, gives, throws, branch-Returns, >>=-Returns}
use sprout_lang.Lexer.{TokenType, Token}
use sprout_lang.Ast.{Node, nil, null, else_block}
use sprout_lang.Parser.{NodeSizes, Parser, Arena, allocate}
use sprout_lang.Parser.Tokens.{peek, next_is, advance, expect}
use sprout_lang.Parser.Grammar.{Derives, logical, primary}
use sprout_lang.Parser.Reads.{Reads, Parses}
use sprout_lang.Parser.Expressions.{append-last}
use sprout_lang.Parser.Operators.{EachSize, expect-Returns}
use sprout_lang.Statements.{
  push_node, skip_type, parse_var_decl, parse_block, parse_statements, parse_statement,
  parse_if_stmt, parse_else, parse_top_level,
}
use sprout_lang.Statements.Grammar.{
  Statement, declaration, nested, branching, expression, skipped, BlockItems, Block, braces, IfStmt,
  if_then, Otherwise, no_else, else_then, Items, Statement-length,
}
use sprout_lang.Statements.Steps.{
  skip_type-Returns, peek_first, next_is_end, ne_of_next_is, starts_none, first_item,
}

module _ (sizes : NodeSizes) (I : Arena → Type 0) (Q : ℕ → Type 0) (fits : EachSize Q sizes)
    (keeps : (size : ℕ) (ar : Arena) → Q size → I ar → Returns I (allocate size ar))
    (expr prim : Parser Node) (bound : ℕ) (expr_good : Parses I (Derives logical) bound expr)
    (prim_good : Parses I (Derives primary) bound prim) where
  var_decl-Returns :
      (ts : List Token) (ar : Arena)
      → length ts < bound
      → I ar
      → Returns
          (Reads I (λ used n. Statement used (some n)) ts)
          (parse_var_decl sizes expr prim ts ar)
  unfolding parse_var_decl
  var_decl-Returns ts ar h i =
      >>=-Returns (expect TokenType.var ts) _ (expect-Returns TokenType.var ts)
        λ ts₁ (v, e₁, is_var).
          >>=-Returns (expect TokenType.ident ts₁) _ (expect-Returns TokenType.ident ts₁)
            λ ts₂ (x, e₂, is_name).
              >>=-Returns (expect TokenType.eq (skip_type ts₂)) _ (skip_type-Returns ts₂)
                λ ts₃ (type, e, e₃, note, is_eq).
                  >>=-Returns (expr ts₃ ar) _
                    (expr_good ts₃ ar
                      (omega (
                        arith,
                        ap length e₁,
                        ap length e₂,
                        ap length e₃,
                        length-append type (e ∷ ts₃),
                      ))
                      i)
                    λ (n, rest, ar₁) (used, e₄, d, i₁).
                      >>=-Returns (allocate sizes.var_decl ar₁) _
                        (keeps sizes.var_decl ar₁ fits.6 i₁)
                        λ ar₂ i₂. gives _ (
                          v ∷ x ∷ (type ++ e ∷ used),
                          simp (e₁, e₂, e₃, e₄, append_assoc),
                          rw (peek_first e₂) (declaration v x e is_var is_name note is_eq d),
                          i₂,
                        )

  -- The parsers of the block, by induction on the fuel: three units for each token.
  mutual
    unfolding parse_block peek advance

    parse_block-Returns :
        (fuel : ℕ) (ts : List Token) (ar : Arena)
        → 3 * length ts < fuel
        → length ts < bound
        → I ar
        → Returns (Reads I Block ts) (parse_block sizes expr prim fuel ts ar)
    parse_block-Returns zero ts ar f h i = absurd (omega arith)
    parse_block-Returns (suc fuel) ts ar f h i =
        >>=-Returns (expect TokenType.l_curl_brkt ts) _ (expect-Returns TokenType.l_curl_brkt ts)
          λ ts₁ (l, e₁, opens).
            let shorter = ap length e₁ in
            >>=-Returns (parse_statements sizes expr prim fuel ts₁ ar) _
              (statements-Returns fuel ts₁ ar (omega (arith, shorter)) (omega (arith, shorter)) i)
              λ (ns, ts₂, ar₁) (used, e₂, items, i₁).
                >>=-Returns (expect TokenType.r_curl_brkt ts₂) _
                  (expect-Returns TokenType.r_curl_brkt ts₂)
                  λ ts₃ (r, e₃, closes).
                    >>=-Returns (allocate sizes.block ar₁) _ (keeps sizes.block ar₁ fits.1 i₁)
                      λ ar₂ i₂. gives _ (
                        l ∷ (used ++ r ∷ []),
                        e₁ ∙ ap (λ x. l ∷ x) (append-last used r e₂ e₃),
                        braces l r opens closes items,
                        i₂,
                      )

    statements-Returns :
        (fuel : ℕ) (ts : List Token) (ar : Arena)
        → 3 * length ts + 2 < fuel
        → length ts < bound
        → I ar
        → Returns (Reads I BlockItems ts) (parse_statements sizes expr prim fuel ts ar)
    statements-Returns zero ts ar f h i = absurd (omega arith)
    statements-Returns (suc fuel) [] ar f h i =
        branch-Returns (next_is TokenType.r_curl_brkt [])
          (λ _. gives (nil, [], ar) ([], refl, BlockItems.no_item, i))
          λ _.
            branch-Returns (next_is TokenType.end_of_file []) (λ _. throws _)
              λ no_end. let ended = next_is_end in cc
    statements-Returns (suc fuel) (t ∷ ts) ar f h i =
        branch-Returns (next_is TokenType.r_curl_brkt (t ∷ ts))
          (λ _. gives (nil, t ∷ ts, ar) ([], refl, BlockItems.no_item, i))
          λ open_block.
            branch-Returns (next_is TokenType.end_of_file (t ∷ ts)) (λ _. throws _)
              λ no_end.
                >>=-Returns (parse_statement sizes expr prim fuel (t ∷ ts) ar) _
                  (parse_statement-Returns fuel t ts ar (omega arith) h i)
                  λ (n, rest, ar₁) (used, e, d, i₁).
                    let shorter = ap length e ∙ length-append used rest in
                    let some = Statement-length d in
                    >>=-Returns (parse_statements sizes expr prim fuel rest ar₁) _
                      (statements-Returns fuel rest ar₁ (omega (arith, shorter))
                        (omega (arith, shorter)) i₁)
                      λ (ns, last, ar₂) (more, e', ds, i₂). gives _ (
                        used ++ more,
                        simp (e, e', append_assoc),
                        first_item t used rest (ne_of_next_is _ t ts open_block)
                            (ne_of_next_is _ t ts no_end) e d ds,
                        i₂,
                      )

    parse_statement-Returns :
        (fuel : ℕ) (t : Token) (ts : List Token) (ar : Arena)
        → 3 * length (t ∷ ts) + 1 < fuel
        → length (t ∷ ts) < bound
        → I ar
        → Returns (Reads I Statement (t ∷ ts)) (parse_statement sizes expr prim fuel (t ∷ ts) ar)
    parse_statement-Returns zero t ts ar f h i = absurd (omega arith)
    parse_statement-Returns (suc fuel) t ts ar f h i =
        branch-Returns (next_is TokenType.var (t ∷ ts))
          (λ _.
            >>=-Returns (parse_var_decl sizes expr prim (t ∷ ts) ar) _
              (var_decl-Returns (t ∷ ts) ar h i)
              λ (n, rest, ar₁) read. gives (some n, rest, ar₁) read)
          λ no_var.
            branch-Returns (next_is TokenType.l_curl_brkt (t ∷ ts))
              (λ _.
                >>=-Returns (parse_block sizes expr prim fuel (t ∷ ts) ar) _
                  (parse_block-Returns fuel (t ∷ ts) ar (omega arith) h i)
                  λ (n, rest, ar₁) (used, e, d, i₁).
                    gives (some n, rest, ar₁) (used, e, nested d, i₁))
              λ no_block.
                branch-Returns (next_is TokenType.if_keyword (t ∷ ts))
                  (λ _.
                    >>=-Returns (parse_if_stmt sizes expr prim fuel (t ∷ ts) ar) _
                      (parse_if_stmt-Returns fuel (t ∷ ts) ar (omega arith) h i)
                      λ (n, rest, ar₁) (used, e, d, i₁).
                        gives (some n, rest, ar₁) (used, e, branching d, i₁))
                  λ no_if.
                    branch-Returns (next_is TokenType.ident (t ∷ ts))
                      (λ _.
                        >>=-Returns (prim (t ∷ ts) ar) _ (prim_good (t ∷ ts) ar h i)
                          λ (n, rest, ar₁) (used, e, d, i₁).
                            gives (some n, rest, ar₁) (used, e, expression d, i₁))
                      λ no_name.
                        gives (none, ts, ar)
                          (
                            t ∷ [],
                            refl,
                            skipped t (starts_none t ts no_var no_block no_if no_name),
                            i,
                          )

    parse_if_stmt-Returns :
        (fuel : ℕ) (ts : List Token) (ar : Arena)
        → 3 * length ts < fuel
        → length ts < bound
        → I ar
        → Returns (Reads I IfStmt ts) (parse_if_stmt sizes expr prim fuel ts ar)
    parse_if_stmt-Returns zero ts ar f h i = absurd (omega arith)
    parse_if_stmt-Returns (suc fuel) ts ar f h i =
        >>=-Returns (expect TokenType.if_keyword ts) _ (expect-Returns TokenType.if_keyword ts)
          λ ts₁ (k, e₁, is_if).
            >>=-Returns (expect TokenType.l_paren ts₁) _ (expect-Returns TokenType.l_paren ts₁)
              λ ts₂ (l, e₂, opens).
                let at₂ : length ts ≡ length ts₂ + 2 = omega (arith, ap length e₁, ap length e₂) in
                >>=-Returns (expr ts₂ ar) _ (expr_good ts₂ ar (omega arith) i)
                  λ (n, ts₃, ar₁) (used, e₃, d, i₁).
                    >>=-Returns (expect TokenType.r_paren ts₃) _
                      (expect-Returns TokenType.r_paren ts₃)
                      λ ts₄ (r, e₄, closes).
                        let at₄ : length ts₄ < length ts₂ =
                          omega (arith, ap length e₃, ap length e₄, length-append used ts₃) in
                        >>=-Returns (parse_block sizes expr prim fuel ts₄ ar₁) _
                          (parse_block-Returns fuel ts₄ ar₁ (omega arith) (omega arith) i₁)
                          λ (b, ts₅, ar₂) (body, e₅, db, i₂).
                            let at₅ : length ts₅ ≤ length ts₄ =
                              omega (arith, ap length e₅, length-append body ts₅) in
                            >>=-Returns (parse_else sizes expr prim fuel ts₅ ar₂) _
                              (else-Returns fuel ts₅ ar₂ (omega arith) (omega arith) i₂)
                              λ (o, ts₆, ar₃) (other, e₆, od, i₃).
                                >>=-Returns (allocate sizes.if_stmt ar₃) _
                                  (keeps sizes.if_stmt ar₃ fits.9 i₃)
                                  λ ar₄ i₄. gives _ (
                                    k ∷ l ∷ (used ++ r ∷ (body ++ other)),
                                    simp (e₁, e₂, e₃, e₄, e₅, e₆, append_assoc),
                                    if_then k l r is_if opens closes d db od,
                                    i₄,
                                  )

    else-Returns :
        (fuel : ℕ) (ts : List Token) (ar : Arena)
        → 3 * length ts < fuel
        → length ts < bound
        → I ar
        → Returns (Reads I Otherwise ts) (parse_else sizes expr prim fuel ts ar)
    else-Returns zero ts ar f h i = absurd (omega arith)
    else-Returns (suc fuel) ts ar f h i =
        branch-Returns (next_is TokenType.else_keyword ts)
          (λ _.
            >>=-Returns (expect TokenType.else_keyword ts) _
              (expect-Returns TokenType.else_keyword ts)
              λ ts₁ (e, e₁, is_else).
                let shorter = ap length e₁ in
                >>=-Returns (parse_block sizes expr prim fuel ts₁ ar) _
                  (parse_block-Returns fuel ts₁ ar (omega (arith, shorter)) (omega (arith, shorter))
                    i)
                  λ (b, rest, ar₁) (used, e₂, d, i₁).
                    gives (else_block b, rest, ar₁)
                      (e ∷ used, e₁ ∙ ap (λ x. e ∷ x) e₂, else_then e is_else d, i₁))
          λ _. gives (null, ts, ar) ([], refl, no_else, i)

  pub top_level-Returns :
      (fuel : ℕ) (ts : List Token) (ar : Arena)
      → 3 * length ts + 2 < fuel
      → length ts < bound
      → I ar
      → Returns
          (λ (ns, rest, ar'). Items ts ns × (rest ≡ []) × I ar')
          (parse_top_level sizes expr prim fuel ts ar)
  unfolding parse_top_level
  top_level-Returns zero ts ar f h i = absurd (omega arith)
  top_level-Returns (suc fuel) [] ar f h i = gives (nil, [], ar) (Items.no_item, refl, i)
  top_level-Returns (suc fuel) (t ∷ ts) ar f h i =
      >>=-Returns (parse_statement sizes expr prim fuel (t ∷ ts) ar) _
        (parse_statement-Returns fuel t ts ar (omega arith) h i)
        λ (n, rest, ar₁) (used, e, d, i₁).
          let shorter = ap length e ∙ length-append used rest in
          let some = Statement-length d in
          >>=-Returns (parse_top_level sizes expr prim fuel rest ar₁) _
            (top_level-Returns fuel rest ar₁ (omega (arith, shorter)) (omega (arith, shorter)) i₁)
            λ (ns, last, ar₂) (ds, done, i₂).
              gives (push_node n ns, last, ar₂) (rw e (Items.item d ds), done, i₂)
