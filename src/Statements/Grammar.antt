-- ===== src/Statements/Grammar.antt =====
-- src/compiler/parser.cpp: the grammar of statements, apart from the code: which tokens stand for
-- which nodes. A token that starts no statement stands for none.
use sprout_lang.Prelude.{◌<◌, ◌≡◌, ◌≢◌, Option, none, some, List, [], ◌∷◌, ◌++◌, length, arith}
use sprout_lang.Lexer.{TokenType, Token}
use sprout_lang.Ast.{Node, Nodes, ElseBlock, block, var_decl, if_stmt, nil, null, else_block}
use sprout_lang.Parser.Grammar.{Derives, logical, primary, Derives-length}
use sprout_lang.Statements.{push_node}

-- The type in a declaration, of which only the arrow is looked at.
pub data TypeNote : List Token → Type 0 where
  untyped : TypeNote []
  typed : (a t : Token) → a.type ≡ TokenType.arr_right → TypeNote (a ∷ t ∷ [])

-- Tokens of these types start a statement.
pub record StartsNone (t : TokenType) : Type 0 where
  pub no_var : t ≢ TokenType.var
  pub no_block : t ≢ TokenType.l_curl_brkt
  pub no_if : t ≢ TokenType.if_keyword
  pub no_name : t ≢ TokenType.ident

mutual
  pub data Statement : List Token → Option Node → Type 0 where
    declaration :
        (v x e : Token) {type ts : List Token} {n : Node}
        → v.type ≡ TokenType.var
        → x.type ≡ TokenType.ident
        → TypeNote type
        → e.type ≡ TokenType.eq
        → Derives logical ts n
        → Statement (v ∷ x ∷ (type ++ e ∷ ts)) (some (var_decl x.content n))
    nested : {ts : List Token} {n : Node} → Block ts n → Statement ts (some n)
    branching : {ts : List Token} {n : Node} → IfStmt ts n → Statement ts (some n)
    expression : {ts : List Token} {n : Node} → Derives primary ts n → Statement ts (some n)
    skipped : (t : Token) → StartsNone t.type → Statement (t ∷ []) none

  -- Statements up to a closing bracket.
  pub data BlockItems : List Token → Nodes → Type 0 where
    no_item : BlockItems [] nil
    item :
        (t : Token) {ts us : List Token} {n : Option Node} {ns : Nodes}
        → t.type ≢ TokenType.r_curl_brkt
        → t.type ≢ TokenType.end_of_file
        → Statement (t ∷ ts) n
        → BlockItems us ns
        → BlockItems ((t ∷ ts) ++ us) (push_node n ns)

  pub data Block : List Token → Node → Type 0 where
    braces :
        (l r : Token) {ts : List Token} {ns : Nodes}
        → l.type ≡ TokenType.l_curl_brkt
        → r.type ≡ TokenType.r_curl_brkt
        → BlockItems ts ns
        → Block (l ∷ (ts ++ r ∷ [])) (block ns)

  pub data IfStmt : List Token → Node → Type 0 where
    if_then :
        (i l r : Token) {ts us vs : List Token} {n b : Node} {f : ElseBlock}
        → i.type ≡ TokenType.if_keyword
        → l.type ≡ TokenType.l_paren
        → r.type ≡ TokenType.r_paren
        → Derives logical ts n
        → Block us b
        → Otherwise vs f
        → IfStmt (i ∷ l ∷ (ts ++ r ∷ (us ++ vs))) (if_stmt n b f)

  pub data Otherwise : List Token → ElseBlock → Type 0 where
    no_else : Otherwise [] null
    else_then :
        (e : Token) {ts : List Token} {b : Node}
        → e.type ≡ TokenType.else_keyword
        → Block ts b
        → Otherwise (e ∷ ts) (else_block b)

-- A program.
pub data Items : List Token → Nodes → Type 0 where
  no_item : Items [] nil
  item :
      {ts us : List Token} {n : Option Node} {ns : Nodes}
      → Statement ts n
      → Items us ns
      → Items (ts ++ us) (push_node n ns)

pub Block-length : {ts : List Token} {n : Node} → Block ts n → 0 < length ts
Block-length (braces l r h k is) = omega arith

pub Statement-length : {ts : List Token} {n : Option Node} → Statement ts n → 0 < length ts
Statement-length (declaration v x e h k note j d) = omega arith
Statement-length (nested b) = Block-length b
Statement-length (branching (if_then i l r h k j d b f)) = omega arith
Statement-length (expression d) = Derives-length d
Statement-length (skipped t h) = omega arith
