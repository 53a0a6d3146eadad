-- ===== src/Sema/Stmt.antt =====
-- `sema_stmt` of qbebasedcompiler/src/sema.c, which returns the statement with what the source
-- writes into it.
pub mod Program
pub mod Balance
pub mod Restore
use micro_colorschemes.Prelude.{ℕ, false, Bytes, Option, none, some, if◌then◌else◌}
use micro_colorschemes.Token.{Token}
use micro_colorschemes.Ast.{
  CType, Node, no_node, func_def, decl, var_decl, compound, expr_stmt, if_stmt, while_stmt, do_stmt,
  for_stmt, switch_stmt, case_stmt, default_stmt, return_stmt, break_stmt, continue_stmt, goto_stmt,
  label_stmt, NodeList, nil, cons,
}
use micro_colorschemes.Ast.Types.{node_tok, is_null}
use micro_colorschemes.Sema.Scopes.{
  Symbol, Sema, sema_enter_scope, sema_leave_scope, sema_declare, sema_lookup,
}
use micro_colorschemes.Sema.Convert.{make_cast, is_no_node}
use micro_colorschemes.Sema.Monad.{M, Result, ok, ◌>>=◌, pure, fail, unsupported_statement}
use micro_colorschemes.Token.{token_text}
use micro_colorschemes.Sema.Expr.{sema_expr}

-- A call that changes the state only, before `m`.
abbrev pub after : {A : Type 0} → (Sema → Sema) → M A → M A
after f m S = m (f S)

-- `m` between `sema_enter_scope` and `sema_leave_scope`.
abbrev pub leave_with : {A : Type 0} → A → M A
leave_with a S = ok (a, sema_leave_scope S)

abbrev pub in_scope : {A : Type 0} → M A → M A
in_scope m = after sema_enter_scope (m >>= leave_with)

-- `sym->qbe_id` of a symbol found; the source reads through NULL otherwise.
abbrev pub found_id : Option Symbol → ℕ
found_id (some sym) = sym.qbe_id
found_id none = 0

-- The name of an identifier node.
abbrev pub ident_name : Node → Bytes
ident_name n = token_text (node_tok n)

-- The operand of a `return`, cast to the type of the function if one is set.
abbrev pub return_value : CType → Node → Node
return_value ret e = if is_null ret then e else make_cast e ret

-- The node behind an expression that is analysed for its node only.
unfoldable pub sema_node : Node → M Node
sema_node n = sema_expr n >>= λ p. pure p.1

-- `case NODE_VAR_DECL` behind `sema_declare`.
unfoldable pub var_init : CType → Node → M Node
var_init t no_node = pure no_node
var_init t e = sema_node e >>= λ e'. pure (make_cast e' t)

unfoldable pub type_var_decl : Token → Node → CType → Node → Option Symbol → M Node
type_var_decl tok name t init sym =
    var_init t init >>= λ init'. pure (var_decl tok (found_id sym) name t init')

-- `case NODE_RETURN`, first behind the analysis of the operand.
abbrev pub cast_return : Token → Node → M Node
cast_return tok e S = ok (return_stmt tok (return_value S.current_func_ret e), S)

unfoldable pub sema_return : Token → Node → M Node
sema_return tok no_node = pure (return_stmt tok no_node)
sema_return tok e = sema_node e >>= cast_return tok

unfoldable mutual
  pub sema_stmt : Node → M Node
  sema_stmt no_node = pure no_node
  sema_stmt (compound tok ss) = in_scope (sema_stmts ss >>= λ ss'. pure (compound tok ss'))
  sema_stmt (expr_stmt tok e) = sema_node e >>= λ e'. pure (expr_stmt tok e')
  sema_stmt (var_decl tok id name t init) =
      after (λ S. sema_declare S (ident_name name) t false)
        (λ S. type_var_decl tok name t init (sema_lookup S (ident_name name)) S)
  sema_stmt (decl tok t ds) = pure (decl tok t ds)
  sema_stmt (return_stmt tok e) = sema_return tok e
  sema_stmt (if_stmt tok c t e) = do
    c' ← sema_node c
    t' ← sema_stmt t
    e' ← sema_stmt e
    pure (if_stmt tok c' t' e')
  sema_stmt (while_stmt tok c b) = do
    c' ← sema_node c
    b' ← sema_stmt b
    pure (while_stmt tok c' b')
  sema_stmt (do_stmt tok c b) = do c' ← sema_node c; b' ← sema_stmt b; pure (do_stmt tok c' b')
  sema_stmt (for_stmt tok i c p b) = in_scope (
      sema_node i >>= λ i'. sema_node c >>= λ c'.
      sema_node p >>= λ p'. sema_stmt b >>= λ b'. pure (for_stmt tok i' c' p' b'))
  sema_stmt (break_stmt tok) = pure (break_stmt tok)
  sema_stmt (continue_stmt tok) = pure (continue_stmt tok)
  sema_stmt (goto_stmt tok l) = pure (goto_stmt tok l)
  sema_stmt (label_stmt tok s) = pure (label_stmt tok s)
  sema_stmt (case_stmt tok e s) = pure (case_stmt tok e s)
  sema_stmt (default_stmt tok s) = pure (default_stmt tok s)
  sema_stmt (switch_stmt tok c b) = pure (switch_stmt tok c b)
  sema_stmt n = fail (unsupported_statement (node_tok n))

  pub sema_stmts : NodeList → M NodeList
  sema_stmts nil = pure nil
  sema_stmts (cons s ss) = do s' ← sema_stmt s; ss' ← sema_stmts ss; pure (cons s' ss')
