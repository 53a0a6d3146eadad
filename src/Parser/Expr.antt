-- ===== src/Parser/Expr.antt =====
-- The expressions of qbebasedcompiler/src/parser.c: `parse_expression` to `parse_primary`. In a loop,
-- the rounds behind a token are those of the level below.
use micro_colorschemes.Prelude.{
  ℕ, ◌+◌, ◌-◌, Bool, true, false, ◌||◌, ◌==◌, ltb, if◌then◌else◌, Bytes, length, get_or,
}
use micro_colorschemes.Token.{
  TokenKind, Token, token_text, tok_comma, tok_eq, tok_pluseq, tok_minuseq, tok_stareq, tok_slasheq,
  tok_percenteq, tok_shleq, tok_shreq, tok_andeq, tok_xoreq, tok_oreq, tok_question, tok_colon,
  tok_plus, tok_minus, tok_bang, tok_tilde, tok_amp, tok_star, tok_plusplus, tok_minusminus,
  tok_sizeof, tok_lparen, tok_rparen, tok_lbracket, tok_rbracket, tok_dot, tok_arrow, tok_ident,
  tok_intlit, tok_floatlit, tok_charlit, tok_strlit,
}
use micro_colorschemes.Literal.{decode_int, decode_char, decode_str}
use micro_colorschemes.Ast.{
  ty_char, ty_int, ty_float, ty_double, Scalar, no_type, scalar, array, Node, ident, int_lit,
  float_lit, char_lit, str_lit, binary, unary, postfix, assign, call, index, member, sizeof_expr,
  conditional, comma_expr, NodeList, nil, cons,
}
use micro_colorschemes.Parser.State.{
  Parse, ◌>>=◌, pure, fail, unexpected_token, on_kind, current, parse_advance, parse_match,
  if_check, parse_expect, new_type_id,
}
use micro_colorschemes.Parser.Tables.{parse_precedence, int_literal_type}
use micro_colorschemes.Parser.Level.{Level}

abbrev pub ident_node : Token → Node
ident_node t = ident t no_type 0

-- `float_literal_type` of a text; `is_float` is that it is `ty_float`.
unfoldable pub float_literal_type : Bytes → Scalar
float_literal_type s =
    let last = get_or s (length s - 1) 0 in
    if last == b'f' || last == b'F' then ty_float else ty_double

abbrev pub is_ty_float : Scalar → Bool
is_ty_float ty_float = true
is_ty_float _ = false

-- A literal that overflows `long long` is given its low 64 bits: see `decode_digits`.
abbrev pub int_node : Token → Node
int_node t =
    let decoded = decode_int (token_text t) in
    int_lit t (scalar (int_literal_type decoded.0 (token_text t))) decoded.0 decoded.1

abbrev pub float_node : Token → Node
float_node t =
    let ty = float_literal_type (token_text t) in float_lit t (scalar ty) (is_ty_float ty)

abbrev pub char_node : Token → Node
char_node t = char_lit t (scalar ty_int) (decode_char (token_text t))

abbrev pub str_node : Token → ℕ → Node
str_node t id =
    let text = decode_str (token_text t) in
    str_lit t (array id (scalar ty_char) (length text + 1)) 0 text

unfoldable pub primary_at : Level → TokenKind → Parse Node
primary_at r tok_intlit = parse_advance >>= λ t. pure (int_node t)
primary_at r tok_floatlit = parse_advance >>= λ t. pure (float_node t)
primary_at r tok_charlit = parse_advance >>= λ t. pure (char_node t)
primary_at r tok_strlit = do t ← parse_advance; id ← new_type_id; pure (str_node t id)
primary_at r tok_ident = parse_advance >>= λ t. pure (ident_node t)
primary_at r tok_lparen = do
  _ ← parse_advance
  e ← r.expression
  _ ← parse_expect tok_rparen
  pure e
primary_at r _ = current >>= λ t. fail (unexpected_token t)

unfoldable pub parse_primary : Level → Parse Node
parse_primary r = on_kind (primary_at r)

-- `.` and `->` behind the operator.
unfoldable pub member_of : Level → Node → Bool → Parse Node
member_of r e arrow = do
  t ← parse_advance
  field ← parse_expect tok_ident
  r.postfixes (member t no_type e (ident_node field) arrow)

-- A round of the loop of `parse_postfix`.
unfoldable pub postfix_at : Level → Node → TokenKind → Parse Node
postfix_at r e tok_lbracket = do
  t ← parse_advance
  i ← r.expression
  _ ← parse_expect tok_rbracket
  r.postfixes (index t no_type e i)
postfix_at r e tok_lparen = do
  t ← parse_advance
  args ← if_check tok_rparen (pure nil) r.arguments
  _ ← parse_expect tok_rparen
  r.postfixes (call t no_type e args)
postfix_at r e tok_dot = member_of r e false
postfix_at r e tok_arrow = member_of r e true
postfix_at r e tok_plusplus = do t ← parse_advance; r.postfixes (postfix t no_type e tok_plusplus)
postfix_at r e tok_minusminus = do
  t ← parse_advance
  r.postfixes (postfix t no_type e tok_minusminus)
postfix_at r e _ = pure e

unfoldable pub postfix_loop : Level → Node → Parse Node
postfix_loop r e = on_kind (postfix_at r e)

unfoldable pub parse_postfix : Level → Parse Node
parse_postfix r = parse_primary r >>= postfix_loop r

abbrev pub prefix_of : Level → TokenKind → Parse Node
prefix_of r op = parse_advance >>= λ t. r.unary >>= λ e. pure (unary t no_type e op)

-- What `sizeof` is applied to; a type's name is no expression.
unfoldable pub sizeof_operand : Level → Parse Node
sizeof_operand r =
    parse_match tok_lparen (r.expression >>= λ e. parse_expect tok_rparen >>= λ _. pure e) r.unary

abbrev pub sizeof_of : Level → Parse Node
sizeof_of r = parse_advance >>= λ t. sizeof_operand r >>= λ e. pure (sizeof_expr t no_type e)

unfoldable pub unary_at : Level → TokenKind → Parse Node
unary_at r tok_plus = prefix_of r tok_plus
unary_at r tok_minus = prefix_of r tok_minus
unary_at r tok_bang = prefix_of r tok_bang
unary_at r tok_tilde = prefix_of r tok_tilde
unary_at r tok_amp = prefix_of r tok_amp
unary_at r tok_star = prefix_of r tok_star
unary_at r tok_plusplus = prefix_of r tok_plusplus
unary_at r tok_minusminus = prefix_of r tok_minusminus
unary_at r tok_sizeof = sizeof_of r
unary_at r _ = parse_postfix r

unfoldable pub parse_unary : Level → Parse Node
parse_unary r = on_kind (unary_at r)

-- A round of the loop of `parse_binary`, at an operator `op`.
unfoldable pub operator_at : Level → ℕ → Node → TokenKind → Parse Node
operator_at r min_prec lhs op =
    let prec = parse_precedence op in
    if prec == 0 || ltb prec min_prec
    then pure lhs
    else (parse_advance >>= λ t.
        r.binary (prec + 1) >>= λ rhs. r.operators min_prec (binary t no_type lhs rhs op))

unfoldable pub operator_loop : Level → ℕ → Node → Parse Node
operator_loop r min_prec lhs = on_kind (operator_at r min_prec lhs)

unfoldable pub parse_binary : Level → ℕ → Parse Node
parse_binary r min_prec = parse_unary r >>= operator_loop r min_prec

unfoldable pub parse_conditional : Level → Parse Node
parse_conditional r = parse_binary r 0 >>= λ c.
    if_check tok_question
      (do
        t ← parse_advance
        x ← r.expression
        _ ← parse_expect tok_colon
        y ← r.conditional
        pure (conditional t no_type c x y))
      (pure c)

abbrev pub assign_of : Level → Node → TokenKind → Parse Node
assign_of r lhs op =
    parse_advance >>= λ t. r.assignment >>= λ rhs. pure (assign t no_type lhs rhs op)

unfoldable pub assign_at : Level → Node → TokenKind → Parse Node
assign_at r lhs tok_eq = assign_of r lhs tok_eq
assign_at r lhs tok_pluseq = assign_of r lhs tok_pluseq
assign_at r lhs tok_minuseq = assign_of r lhs tok_minuseq
assign_at r lhs tok_stareq = assign_of r lhs tok_stareq
assign_at r lhs tok_slasheq = assign_of r lhs tok_slasheq
assign_at r lhs tok_percenteq = assign_of r lhs tok_percenteq
assign_at r lhs tok_shleq = assign_of r lhs tok_shleq
assign_at r lhs tok_shreq = assign_of r lhs tok_shreq
assign_at r lhs tok_andeq = assign_of r lhs tok_andeq
assign_at r lhs tok_xoreq = assign_of r lhs tok_xoreq
assign_at r lhs tok_oreq = assign_of r lhs tok_oreq
assign_at r lhs _ = pure lhs

unfoldable pub parse_assignment : Level → Parse Node
parse_assignment r = parse_conditional r >>= λ lhs. on_kind (assign_at r lhs)

-- A round of the loop of `parse_expression`.
unfoldable pub comma_loop : Level → Node → Parse Node
comma_loop r lhs =
    if_check tok_comma
      (parse_advance >>= λ t. parse_assignment r >>= λ rhs. r.commas (comma_expr t no_type lhs rhs))
      (pure lhs)

unfoldable pub parse_expression : Level → Parse Node
parse_expression r = parse_assignment r >>= comma_loop r

-- The loop over the arguments of a call.
unfoldable pub argument_loop : Level → Parse NodeList
argument_loop r = parse_assignment r >>= λ e.
    parse_match tok_comma (r.arguments >>= λ es. pure (cons e es)) (pure (cons e nil))
