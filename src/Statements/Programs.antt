-- ===== src/Statements/Programs.antt =====
-- src/compiler/parser.cpp: parseProgram on any tokens.
use sprout_lang.Prelude.{ℕ, suc, ◌*◌, ◌≤◌, ◌≡◌, refl, List, length, arith}
use sprout_lang.Result.{ok, Returns, gives, >>=-Returns, Returns-map, Returns-ok}
use sprout_lang.MemManager.{chunk_size}
use sprout_lang.Lexer.{Token}
use sprout_lang.Ast.{Node, Nodes, program}
use sprout_lang.Parser.{NodeSizes, Arena, allocate, parse_expression, parse_primary}
use sprout_lang.Parser.Expressions.{expression-Parses, primary-Parses}
use sprout_lang.Parser.Operators.{EachSize}
use sprout_lang.Parser.Placement.{IsSound, Extends, allocate-IsSound, allocate-Returns}
use sprout_lang.Statements.{parse_top_level, parse_program}
use sprout_lang.Statements.Grammar.{Items}
use sprout_lang.Statements.Reads.{top_level-Returns}

-- The tree of a program whose tokens are `ts`.
abbrev pub IsProgram : List Token → Node → Type 0
IsProgram ts n = (ns : Nodes) × (n ≡ program ns) × Items ts ns

module _ (sizes : NodeSizes) (I : Arena → Type 0) (Q : ℕ → Type 0) (fits : EachSize Q sizes)
    (keeps : (size : ℕ) (ar : Arena) → Q size → I ar → Returns I (allocate size ar)) where
  pub parse_program-Returns :
      (tokens : List Token) (ar : Arena)
      → I ar
      → Returns (λ (n, ar'). IsProgram tokens n × I ar') (parse_program sizes tokens ar)
  unfolding parse_program
  parse_program-Returns tokens ar i =
      let deep = suc (length tokens) in
      let expression = parse_expression sizes deep in
      let primary = parse_primary sizes expression deep in
      let good = expression-Parses sizes I Q fits keeps deep in
      let good' = primary-Parses sizes I Q fits keeps expression deep good in
      >>=-Returns (parse_top_level sizes expression primary (4 * deep) tokens ar) _
        (top_level-Returns sizes I Q fits keeps expression primary deep good
          (λ ts ar h. good' ts ar (omega arith)) (4 * deep) tokens ar (omega arith) (omega arith) i)
        λ (ns, rest, ar₁) (items, done, i₁).
          >>=-Returns (allocate sizes.program ar₁) _ (keeps sizes.program ar₁ fits.0 i₁)
            λ ar₂ i₂. gives (program ns, ar₂) ((ns, refl, items), i₂)

-- The parser ends on any tokens: with the tree of a program whose tokens they are, all of them, or
-- with an exception.
pub parse_program-IsProgram :
    (sizes : NodeSizes) (tokens : List Token) (ar : Arena)
    → Returns (λ (n, ar'). IsProgram tokens n) (parse_program sizes tokens ar)
parse_program-IsProgram sizes tokens ar =
    Returns-map
      (parse_program-Returns sizes (λ _. Unit {0}) (λ _. Unit {0})
        (tt, tt, tt, tt, tt, tt, tt, tt, tt, tt) (λ size ar _ _. allocate-Returns size ar) tokens ar
        tt)
      λ _ r. r.0

-- A parse into a sound arena, of nodes that fit a chunk, leaves a sound arena, in which all that was
-- allocated before still is.
pub parse_program-IsSound :
    (sizes : NodeSizes) (tokens : List Token) (ar : Arena) (n : Node) (ar' : Arena)
    → EachSize (λ size. size ≤ chunk_size) sizes
    → IsSound ar
    → parse_program sizes tokens ar ≡ ok (n, ar')
    → IsSound ar' × Extends ar ar'
parse_program-IsSound sizes tokens ar n ar' fits sound e =
    (Returns-ok (parse_program sizes tokens ar)
      (parse_program-Returns sizes (λ ar'. IsSound ar' × Extends ar ar') (λ size. size ≤ chunk_size)
        fits (λ size ar₁. allocate-IsSound ar size ar₁) tokens ar (sound, λ p n taken. taken))
      e).1
