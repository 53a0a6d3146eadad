-- ===== src/Parser/Stmt.antt =====
-- Statements: `parse_compound`, `parse_var_decl` and `parse_statement` of
-- qbebasedcompiler/src/parser.c.
use micro_colorschemes.Token.{
  TokenKind, Token, tok_eof, tok_comma, tok_eq, tok_semi, tok_colon, tok_lbrace, tok_rbrace,
  tok_lparen, tok_rparen, tok_ident, tok_if, tok_else, tok_while, tok_do, tok_for, tok_switch,
  tok_case, tok_default, tok_break, tok_continue, tok_goto, tok_return,
}
use micro_colorschemes.Token.Kinds.{kind_eq}
use micro_colorschemes.Ast.{
  CType, Node, no_node, ident, var_decl, compound, expr_stmt, if_stmt, while_stmt, do_stmt,
  for_stmt, switch_stmt, case_stmt, default_stmt, return_stmt, break_stmt, continue_stmt, goto_stmt,
  label_stmt, NodeList, nil, cons,
}
use micro_colorschemes.Ast.Types.{node_tok}
use micro_colorschemes.Parser.State.{
  Parse, ◌>>=◌, pure, current, on_kind, parse_advance, parse_match, if_check, if_state,
  parse_expect, parse_is_typedef_name,
}
use micro_colorschemes.Parser.Tables.{parse_starts_decl}
use micro_colorschemes.Parser.Level.{Level}
use micro_colorschemes.Parser.Expr.{parse_expression, parse_assignment, parse_conditional}
use micro_colorschemes.Parser.Types.{parse_decl_specifiers, star_loop, array_loop}

unfoldable pub parse_compound : Level → Parse Node
parse_compound r = do
  open_tok ← parse_expect tok_lbrace
  ss ← r.block
  _ ← parse_expect tok_rbrace
  pure (compound open_tok ss)

-- One declared variable behind `base`. The stars stand behind the name, and what they and the
-- dimensions make of the type is the base of the next variable.
unfoldable pub variable : Level → CType → Parse (Node × CType)
variable r base = do
  name ← parse_expect tok_ident
  pointed ← star_loop r base
  t ← array_loop r pointed
  init ← parse_match tok_eq (parse_assignment r) (pure no_node)
  pure (var_decl name 0 (ident name t 0) t init, t)

-- The loop over the variables of one declaration.
unfoldable pub variable_loop : Level → CType → Parse NodeList
variable_loop r base = variable r base >>= λ v.
    parse_match tok_comma (r.variables v.1 >>= λ vs. pure (cons v.0 vs)) (pure (cons v.0 nil))

-- One variable is returned as it is, several are wrapped in a block.
abbrev pub variables_node : NodeList → Node
variables_node nil = no_node
variables_node (cons v nil) = v
variables_node (cons v (cons w vs)) = compound (node_tok v) (cons v (cons w vs))

unfoldable pub parse_var_decl : Level → Parse Node
parse_var_decl r = do
  base ← parse_decl_specifiers r
  vs ← variable_loop r base
  _ ← parse_expect tok_semi
  pure (variables_node vs)

-- `(` an expression `)`.
unfoldable pub parenthesized : Level → Parse Node
parenthesized r = do
  _ ← parse_expect tok_lparen
  e ← parse_expression r
  _ ← parse_expect tok_rparen
  pure e

-- An expression, unless a token of the kind is there at once, and then that token.
unfoldable pub optional_until : Level → TokenKind → Parse Node
optional_until r k = do
  e ← if_check k (pure no_node) (parse_expression r)
  _ ← parse_expect k
  pure e

-- A word, and a semicolon.
unfoldable pub word_and_semi : (Token → Node) → Parse Node
word_and_semi f = do t ← parse_advance; _ ← parse_expect tok_semi; pure (f t)

-- A statement that is none of the others.
unfoldable pub expression_statement : Level → Parse Node
expression_statement r = do
  t ← current
  e ← parse_expression r
  _ ← parse_expect tok_semi
  pure (expr_stmt t e)

-- A label, or an expression that begins with an identifier.
unfoldable pub label_or_expression : Level → Parse Node
label_or_expression r =
    if_state (λ P. kind_eq P.peek.kind tok_colon)
      (do label ← parse_advance; _ ← parse_advance; s ← r.statement; pure (label_stmt label s))
      (expression_statement r)

-- The switch of `parse_statement`.
unfoldable pub statement_at : Level → TokenKind → Parse Node
statement_at r tok_lbrace = parse_compound r
statement_at r tok_semi = parse_advance >>= λ t. pure (expr_stmt t no_node)
statement_at r tok_if = do
  t ← parse_advance
  c ← parenthesized r
  s ← r.statement
  e ← parse_match tok_else r.statement (pure no_node)
  pure (if_stmt t c s e)
statement_at r tok_while = do
  t ← parse_advance
  c ← parenthesized r
  s ← r.statement
  pure (while_stmt t c s)
statement_at r tok_do = do
  t ← parse_advance
  s ← r.statement
  _ ← parse_expect tok_while
  c ← parenthesized r
  _ ← parse_expect tok_semi
  pure (do_stmt t c s)
statement_at r tok_for = do
  t ← parse_advance
  _ ← parse_expect tok_lparen
  i ← optional_until r tok_semi
  c ← optional_until r tok_semi
  p ← optional_until r tok_rparen
  s ← r.statement
  pure (for_stmt t i c p s)
statement_at r tok_switch = do
  t ← parse_advance
  c ← parenthesized r
  s ← r.statement
  pure (switch_stmt t c s)
statement_at r tok_case = do
  t ← parse_advance
  v ← parse_conditional r
  _ ← parse_expect tok_colon
  s ← r.statement
  pure (case_stmt t v s)
statement_at r tok_default = do
  t ← parse_advance
  _ ← parse_expect tok_colon
  s ← r.statement
  pure (default_stmt t s)
statement_at r tok_break = word_and_semi break_stmt
statement_at r tok_continue = word_and_semi continue_stmt
statement_at r tok_goto = do
  t ← parse_advance
  label ← parse_expect tok_ident
  _ ← parse_expect tok_semi
  pure (goto_stmt t label)
statement_at r tok_return = do
  t ← parse_advance
  e ← optional_until r tok_semi
  pure (return_stmt t e)
statement_at r tok_ident = label_or_expression r
statement_at r _ = expression_statement r

unfoldable pub parse_statement : Level → Parse Node
parse_statement r =
    if_state (λ P. parse_starts_decl P.cur.kind (parse_is_typedef_name P P.cur)) (parse_var_decl r)
      (on_kind (statement_at r))

-- The loop of `parse_compound`.
unfoldable pub block_loop : Level → Parse NodeList
block_loop r =
    if_check tok_rbrace (pure nil)
      (if_check tok_eof (pure nil) (parse_statement r >>= λ s. r.block >>= λ ss. pure (cons s ss)))
