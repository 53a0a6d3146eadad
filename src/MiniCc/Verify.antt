-- ===== src/MiniCc/Verify.antt =====
-- The check of mini-cc/src/sema.c: `verify_expr`, `verify_stmt` and `sema_check`.
pub mod Laws
use micro_colorschemes.Prelude.{
  Bool, true, false, ◌&&◌, List, [], ◌∷◌, Option, none, some, if◌then◌else◌, Bytes,
}
use micro_colorschemes.MiniCc.Ast.{
  Expr, null_expr, expr_int, expr_var, expr_binop, expr_unop, expr_call, Exprs, no_exprs, add_expr,
  Stmt, stmt_return, stmt_expr, stmt_decl, stmt_block, stmt_if, stmt_while, Stmts, no_stmts,
  add_stmt, Func, Program,
}

unfoldable mutual
  pub verify_expr : Expr → Bool
  verify_expr null_expr = false
  verify_expr (expr_int v) = true
  verify_expr (expr_var name) = true
  verify_expr (expr_binop op l r) = verify_expr l && verify_expr r
  verify_expr (expr_unop op e) = verify_expr e
  verify_expr (expr_call name args) = verify_exprs args

  -- The loop over the arguments of a call.
  pub verify_exprs : Exprs → Bool
  verify_exprs no_exprs = true
  verify_exprs (add_expr e es) = verify_expr e && verify_exprs es

-- An initializer that is there.
unfoldable pub verify_init : Expr → Bool
unfolding verify_expr
verify_init null_expr = true
verify_init e = verify_expr e

unfoldable mutual
  -- The body of the loop of `verify_stmt`; a missing else branch is a chain of no statements.
  pub verify_one : Stmt → Bool
  verify_one (stmt_return e) = verify_expr e
  verify_one (stmt_expr e) = verify_expr e
  verify_one (stmt_decl name e) = verify_init e
  verify_one (stmt_block b) = verify_stmt b
  verify_one (stmt_if c t e) = verify_expr c && (verify_stmt t && verify_stmt e)
  verify_one (stmt_while c b) = verify_expr c && verify_stmt b

  pub verify_stmt : Stmts → Bool
  verify_stmt no_stmts = true
  verify_stmt (add_stmt s ss) = verify_one s && verify_stmt ss

-- The name in the message before `return 1`; `none` is `return 0`.
unfoldable pub sema_check : Program → Option Bytes
unfolding verify_stmt
sema_check [] = none
sema_check (f ∷ p) = if verify_stmt f.body then sema_check p else some f.name
