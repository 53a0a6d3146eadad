-- ===== src/MiniCc/Print.antt =====
-- The dump of mini-cc/src/ast.c, `indent` to `program_print`. The output is a list of lines, each
-- with the number of its indents and its text behind them.
pub mod Order
use micro_colorschemes.Prelude.{ℕ, ◌+◌, suc, List, [], ◌∷◌, ◌++◌, Bytes, codes}
use micro_colorschemes.Literal.Radix.{print_base}
use micro_colorschemes.MiniCc.Ast.{
  ℤ, pos, negsuc, BinOpKind, op_add, op_sub, op_mul, op_div, op_mod, op_eq, op_ne, op_lt, op_le,
  op_gt, op_ge, op_and, op_or, op_assign, UnOpKind, unop_neg, unop_not, Expr, null_expr, expr_int,
  expr_var, expr_binop, expr_unop, expr_call, Exprs, no_exprs, add_expr, Stmt, stmt_return,
  stmt_expr, stmt_decl, stmt_block, stmt_if, stmt_while, Stmts, no_stmts, add_stmt, Program,
}

pub record Line : Type 0 where
  pub depth : ℕ
  pub text : Bytes

abbrev pub line : ℕ → Bytes → Line
line n text = record { depth = n; text = text }

-- `%ld` and `%d`.
abbrev pub long_text : ℤ → Bytes
long_text (pos n) = print_base 10 n
long_text (negsuc n) = codes "-" ++ print_base 10 (suc n)

unfoldable pub binop_str : BinOpKind → Bytes
binop_str op_add = codes "+"
binop_str op_sub = codes "-"
binop_str op_mul = codes "*"
binop_str op_div = codes "/"
binop_str op_mod = codes "%"
binop_str op_eq = codes "=="
binop_str op_ne = codes "!="
binop_str op_lt = codes "<"
binop_str op_le = codes "<="
binop_str op_gt = codes ">"
binop_str op_ge = codes ">="
binop_str op_and = codes "&&"
binop_str op_or = codes "||"
binop_str op_assign = codes "="

abbrev pub unop_str : UnOpKind → Bytes
unop_str unop_neg = codes "-"
unop_str unop_not = codes "!"

-- The field `nargs`.
unfoldable pub count_exprs : Exprs → ℕ
count_exprs no_exprs = 0
count_exprs (add_expr e es) = count_exprs es + 1

unfoldable mutual
  pub expr_print : Expr → ℕ → List Line
  expr_print null_expr n = line n (codes "(null expr)") ∷ []
  expr_print (expr_int v) n = line n (codes "Int(" ++ long_text v ++ codes ")") ∷ []
  expr_print (expr_var name) n = line n (codes "Var(" ++ name ++ codes ")") ∷ []
  expr_print (expr_binop op l r) n =
      line n (codes "BinOp(" ++ binop_str op ++ codes ")")
      ∷ (expr_print l (n + 1) ++ expr_print r (n + 1))
  expr_print (expr_unop op e) n =
      line n (codes "UnOp(" ++ unop_str op ++ codes ")") ∷ expr_print e (n + 1)
  expr_print (expr_call name args) n =
      line n
        (codes "Call(" ++ name ++ codes ", " ++ print_base 10 (count_exprs args) ++ codes " args)")
      ∷ exprs_print args (n + 1)

  -- The loop over the arguments of a call.
  pub exprs_print : Exprs → ℕ → List Line
  exprs_print no_exprs n = []
  exprs_print (add_expr e es) n = expr_print e n ++ exprs_print es n

-- An initializer is printed if there is one.
unfoldable pub init_print : Expr → ℕ → List Line
unfolding expr_print
init_print null_expr n = []
init_print e n = expr_print e n

-- `else:` and its branch, where there is one.
abbrev pub else_lines : Stmts → ℕ → List Line → List Line
else_lines no_stmts n printed = []
else_lines (add_stmt s ss) n printed = line n (codes "else:") ∷ printed

unfoldable mutual
  pub stmt_lines : Stmt → ℕ → List Line
  stmt_lines (stmt_return e) n = line n (codes "Return") ∷ expr_print e (n + 1)
  stmt_lines (stmt_expr e) n = line n (codes "ExprStmt") ∷ expr_print e (n + 1)
  stmt_lines (stmt_decl name e) n =
      line n (codes "Decl(" ++ name ++ codes ")") ∷ init_print e (n + 1)
  stmt_lines (stmt_block b) n =
      line n (codes "Block {") ∷ (stmt_print b (n + 1) ++ (line n (codes "}") ∷ []))
  stmt_lines (stmt_if c t e) n =
      line n (codes "If")
      ∷ (expr_print c (n + 1)
          ++ (line n (codes "then:")
              ∷ (stmt_print t (n + 1) ++ else_lines e n (stmt_print e (n + 1)))))
  stmt_lines (stmt_while c b) n =
      line n (codes "While")
      ∷ (expr_print c (n + 1) ++ (line n (codes "body:") ∷ stmt_print b (n + 1)))

  -- The loop of `stmt_print`.
  pub stmt_print : Stmts → ℕ → List Line
  stmt_print no_stmts n = []
  stmt_print (add_stmt s ss) n = stmt_lines s n ++ stmt_print ss n

-- The parameters' names, a comma between two of them.
unfoldable pub param_names : List Bytes → Bytes
param_names [] = []
param_names (p ∷ []) = p
param_names (p ∷ q ∷ ps) = p ++ codes ", " ++ param_names (q ∷ ps)

unfoldable pub program_print : Program → List Line
unfolding stmt_print param_names
program_print [] = []
program_print (f ∷ p) =
    line 0 (codes "func " ++ f.name ++ codes "(" ++ param_names f.params ++ codes ") {")
    ∷ (stmt_print f.body 1 ++ (line 0 (codes "}") ∷ line 0 [] ∷ program_print p))
