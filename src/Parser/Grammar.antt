-- ===== src/Parser/Grammar.antt =====
-- A grammar of expressions for qbebasedcompiler/src/parser.c, as relations between tokens and nodes,
-- in the form in which the C standard gives it, with its own table of binary operators. Left out are
-- strings, whose nodes number their types, and casts and names of types in `sizeof`, which the parser
-- does not read. Behind `sizeof`, a parenthesis opens the whole operand, as in the parser.
pub mod Steps
pub mod Suffixes
pub mod Prefixes
pub mod Operators
pub mod Assign
pub mod Tables
pub mod Accepts
use micro_colorschemes.Prelude.{ℕ, suc, ◌≡◌, ◌≢◌, Bool, true, false, List, [], ◌∷◌, ◌++◌}
use micro_colorschemes.Token.{
  TokenKind, Token, tok_eq, tok_pluseq, tok_minuseq, tok_stareq, tok_slasheq, tok_percenteq,
  tok_shleq, tok_shreq, tok_andeq, tok_xoreq, tok_oreq, tok_plus, tok_minus, tok_bang, tok_tilde,
  tok_amp, tok_star, tok_plusplus, tok_minusminus, tok_sizeof, tok_lparen, tok_rparen, tok_lbracket,
  tok_rbracket, tok_dot, tok_arrow, tok_comma, tok_question, tok_colon, tok_ident, tok_intlit,
  tok_floatlit, tok_charlit, tok_oror, tok_andand, tok_pipe, tok_caret, tok_eqeq, tok_neq, tok_lt,
  tok_gt, tok_leq, tok_geq, tok_shl, tok_shr, tok_slash, tok_percent,
}
use micro_colorschemes.Ast.{
  Node, no_type, index, call, member, postfix, unary, sizeof_expr, binary, conditional, assign,
  comma_expr, NodeList, nil, cons,
}
use micro_colorschemes.Parser.Expr.{ident_node, int_node, float_node, char_node}

-- `=`, and the operators that end in it.
abbrev pub is_assignment_operator : TokenKind → Bool
is_assignment_operator tok_eq = true
is_assignment_operator tok_pluseq = true
is_assignment_operator tok_minuseq = true
is_assignment_operator tok_stareq = true
is_assignment_operator tok_slasheq = true
is_assignment_operator tok_percenteq = true
is_assignment_operator tok_shleq = true
is_assignment_operator tok_shreq = true
is_assignment_operator tok_andeq = true
is_assignment_operator tok_xoreq = true
is_assignment_operator tok_oreq = true
is_assignment_operator _ = false

abbrev pub is_unary_operator : TokenKind → Bool
is_unary_operator tok_plus = true
is_unary_operator tok_minus = true
is_unary_operator tok_bang = true
is_unary_operator tok_tilde = true
is_unary_operator tok_amp = true
is_unary_operator tok_star = true
is_unary_operator tok_plusplus = true
is_unary_operator tok_minusminus = true
is_unary_operator _ = false

abbrev pub is_increment : TokenKind → Bool
is_increment tok_plusplus = true
is_increment tok_minusminus = true
is_increment _ = false

-- The binary operators by level, from the loosest, 1, to the tightest, 10.
pub data BinaryOperator : ℕ → TokenKind → Type 0 where
  logical_or : BinaryOperator 1 tok_oror
  logical_and : BinaryOperator 2 tok_andand
  bit_or : BinaryOperator 3 tok_pipe
  bit_xor : BinaryOperator 4 tok_caret
  bit_and : BinaryOperator 5 tok_amp
  equal : BinaryOperator 6 tok_eqeq
  not_equal : BinaryOperator 6 tok_neq
  less : BinaryOperator 7 tok_lt
  greater : BinaryOperator 7 tok_gt
  at_most : BinaryOperator 7 tok_leq
  at_least : BinaryOperator 7 tok_geq
  shift_left : BinaryOperator 8 tok_shl
  shift_right : BinaryOperator 8 tok_shr
  add : BinaryOperator 9 tok_plus
  subtract : BinaryOperator 9 tok_minus
  multiply : BinaryOperator 10 tok_star
  divide : BinaryOperator 10 tok_slash
  remainder : BinaryOperator 10 tok_percent

-- The kinds that go on with an expression: those of suffixes, of binary operators, `?`, the operators
-- of assignments, and `,`.
abbrev pub goes_on : TokenKind → Bool
goes_on tok_lbracket = true
goes_on tok_lparen = true
goes_on tok_dot = true
goes_on tok_arrow = true
goes_on tok_plusplus = true
goes_on tok_minusminus = true
goes_on tok_oror = true
goes_on tok_andand = true
goes_on tok_pipe = true
goes_on tok_caret = true
goes_on tok_amp = true
goes_on tok_eqeq = true
goes_on tok_neq = true
goes_on tok_lt = true
goes_on tok_gt = true
goes_on tok_leq = true
goes_on tok_geq = true
goes_on tok_shl = true
goes_on tok_shr = true
goes_on tok_plus = true
goes_on tok_minus = true
goes_on tok_star = true
goes_on tok_slash = true
goes_on tok_percent = true
goes_on tok_question = true
goes_on tok_eq = true
goes_on tok_pluseq = true
goes_on tok_minuseq = true
goes_on tok_stareq = true
goes_on tok_slasheq = true
goes_on tok_percenteq = true
goes_on tok_shleq = true
goes_on tok_shreq = true
goes_on tok_andeq = true
goes_on tok_xoreq = true
goes_on tok_oreq = true
goes_on tok_comma = true
goes_on _ = false

-- A binary operator stands at the level of its precedence, 1 to 10, and unary expressions at 11.
mutual
  pub data Primary : List Token → Node → Type 0 where
    name : {t : Token} → t.kind ≡ tok_ident → Primary (t ∷ []) (ident_node t)
    int_literal : {t : Token} → t.kind ≡ tok_intlit → Primary (t ∷ []) (int_node t)
    float_literal : {t : Token} → t.kind ≡ tok_floatlit → Primary (t ∷ []) (float_node t)
    char_literal : {t : Token} → t.kind ≡ tok_charlit → Primary (t ∷ []) (char_node t)
    parens :
        (o c : Token) (ts : List Token) {e : Node}
        → o.kind ≡ tok_lparen
        → Expression ts e
        → c.kind ≡ tok_rparen
        → Primary (o ∷ (ts ++ c ∷ [])) e

  pub data Postfix : List Token → Node → Type 0 where
    primary : {ts : List Token} {e : Node} → Primary ts e → Postfix ts e
    subscript :
        (o c : Token) (ts us : List Token) {e i : Node}
        → Postfix ts e
        → o.kind ≡ tok_lbracket
        → Expression us i
        → c.kind ≡ tok_rbracket
        → Postfix (ts ++ o ∷ (us ++ c ∷ [])) (index o no_type e i)
    call_none :
        (o c : Token) (ts : List Token) {e : Node}
        → Postfix ts e
        → o.kind ≡ tok_lparen
        → c.kind ≡ tok_rparen
        → Postfix (ts ++ o ∷ c ∷ []) (call o no_type e nil)
    call_some :
        (o c : Token) (ts us : List Token) {e : Node} {args : NodeList}
        → Postfix ts e
        → o.kind ≡ tok_lparen
        → Arguments us args
        → c.kind ≡ tok_rparen
        → Postfix (ts ++ o ∷ (us ++ c ∷ [])) (call o no_type e args)
    dot :
        (o f : Token) (ts : List Token) {e : Node}
        → Postfix ts e
        → o.kind ≡ tok_dot
        → f.kind ≡ tok_ident
        → Postfix (ts ++ o ∷ f ∷ []) (member o no_type e (ident_node f) false)
    arrow :
        (o f : Token) (ts : List Token) {e : Node}
        → Postfix ts e
        → o.kind ≡ tok_arrow
        → f.kind ≡ tok_ident
        → Postfix (ts ++ o ∷ f ∷ []) (member o no_type e (ident_node f) true)
    increment :
        (o : Token) (ts : List Token) {e : Node}
        → Postfix ts e
        → is_increment o.kind ≡ true
        → Postfix (ts ++ o ∷ []) (postfix o no_type e o.kind)

  pub data Arguments : List Token → NodeList → Type 0 where
    last : {ts : List Token} {e : Node} → Assignment ts e → Arguments ts (cons e nil)
    more :
        (c : Token) (ts us : List Token) {e : Node} {es : NodeList}
        → Assignment ts e
        → c.kind ≡ tok_comma
        → Arguments us es
        → Arguments (ts ++ c ∷ us) (cons e es)

  pub data Unary : List Token → Node → Type 0 where
    postfixed : {ts : List Token} {e : Node} → Postfix ts e → Unary ts e
    prefixed :
        (o : Token) (ts : List Token) {e : Node}
        → is_unary_operator o.kind ≡ true
        → Unary ts e
        → Unary (o ∷ ts) (unary o no_type e o.kind)
    sizeof_parens :
        (s o c : Token) (ts : List Token) {e : Node}
        → s.kind ≡ tok_sizeof
        → o.kind ≡ tok_lparen
        → Expression ts e
        → c.kind ≡ tok_rparen
        → Unary (s ∷ o ∷ (ts ++ c ∷ [])) (sizeof_expr s no_type e)
    sizeof_unary :
        (s t : Token) (ts : List Token) {e : Node}
        → s.kind ≡ tok_sizeof
        → t.kind ≢ tok_lparen
        → Unary (t ∷ ts) e
        → Unary (s ∷ t ∷ ts) (sizeof_expr s no_type e)

  pub data Binary : ℕ → List Token → Node → Type 0 where
    operand : {ts : List Token} {e : Node} → Unary ts e → Binary 11 ts e
    above : {p : ℕ} {ts : List Token} {e : Node} → Binary (suc p) ts e → Binary p ts e
    operation :
        {p : ℕ} (o : Token) (ts us : List Token) {l r : Node}
        → Binary p ts l
        → BinaryOperator p o.kind
        → Binary (suc p) us r
        → Binary p (ts ++ o ∷ us) (binary o no_type l r o.kind)

  pub data Conditional : List Token → Node → Type 0 where
    tested : {ts : List Token} {e : Node} → Binary 1 ts e → Conditional ts e
    choice :
        (q c : Token) (ts us vs : List Token) {e x y : Node}
        → Binary 1 ts e
        → q.kind ≡ tok_question
        → Expression us x
        → c.kind ≡ tok_colon
        → Conditional vs y
        → Conditional (ts ++ q ∷ (us ++ c ∷ vs)) (conditional q no_type e x y)

  pub data Assignment : List Token → Node → Type 0 where
    value : {ts : List Token} {e : Node} → Conditional ts e → Assignment ts e
    assigned :
        (o : Token) (ts us : List Token) {l r : Node}
        → Unary ts l
        → is_assignment_operator o.kind ≡ true
        → Assignment us r
        → Assignment (ts ++ o ∷ us) (assign o no_type l r o.kind)

  pub data Expression : List Token → Node → Type 0 where
    single : {ts : List Token} {e : Node} → Assignment ts e → Expression ts e
    sequence :
        (c : Token) (ts us : List Token) {l r : Node}
        → Expression ts l
        → c.kind ≡ tok_comma
        → Assignment us r
        → Expression (ts ++ c ∷ us) (comma_expr c no_type l r)
