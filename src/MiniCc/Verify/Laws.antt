-- ===== src/MiniCc/Verify/Laws.antt =====
-- The check of mini-cc/src/sema.c and the dump of mini-cc/src/ast.c see the same missing expressions.
use micro_colorschemes.Prelude.{
  ℕ, ◌+◌, ◌≡◌, refl, ◌∙◌, ◌↔◌, Bool, true, false, not, ◌&&◌, List, [], ◌∷◌, ◌++◌, none, codes,
  bytes_eq, arith,
}
use micro_colorschemes.MiniCc.Ast.{
  Expr, null_expr, expr_int, expr_var, expr_binop, expr_unop, expr_call, Exprs, no_exprs, add_expr,
  Stmt, stmt_return, stmt_expr, stmt_decl, stmt_block, stmt_if, stmt_while, Stmts, no_stmts,
  add_stmt, Func, Program,
}
use micro_colorschemes.MiniCc.Print.{
  Line, line, expr_print, exprs_print, init_print, else_lines, stmt_lines, stmt_print,
  program_print,
}
use micro_colorschemes.MiniCc.Verify.{
  verify_expr, verify_exprs, verify_init, verify_one, verify_stmt, sema_check,
}

-- Does no line read `(null expr)`?
unfoldable pub is_complete : List Line → Bool
unfolding bytes_eq
is_complete [] = true
is_complete (l ∷ ls) = not (bytes_eq l.text (codes "(null expr)")) && is_complete ls

is_complete-append : (ls ms : List Line) → is_complete (ls ++ ms) ≡ is_complete ls && is_complete ms
unfolding is_complete
is_complete-append [] ms = refl
is_complete-append (l ∷ ls) ms = ground (arith, is_complete-append ls ms)

and-eq : {a b c d : Bool} → a ≡ c → b ≡ d → (a && b) ≡ (c && d)
and-eq e f = cc

and-true : (a : Bool) → (a && true) ≡ a
and-true true = refl
and-true false = refl

mutual
  unfolding expr_print verify_expr is_complete

  expr_print-is_complete : (e : Expr) (n : ℕ) → is_complete (expr_print e n) ≡ verify_expr e
  expr_print-is_complete null_expr n = refl
  expr_print-is_complete (expr_int v) n = refl
  expr_print-is_complete (expr_var name) n = refl
  expr_print-is_complete (expr_binop op l r) n =
      is_complete-append (expr_print l (n + 1)) (expr_print r (n + 1))
      ∙ and-eq (expr_print-is_complete l (n + 1)) (expr_print-is_complete r (n + 1))
  expr_print-is_complete (expr_unop op e) n = expr_print-is_complete e (n + 1)
  expr_print-is_complete (expr_call name args) n = exprs_print-is_complete args (n + 1)

  exprs_print-is_complete : (es : Exprs) (n : ℕ) → is_complete (exprs_print es n) ≡ verify_exprs es
  exprs_print-is_complete no_exprs n = refl
  exprs_print-is_complete (add_expr e es) n =
      is_complete-append (expr_print e n) (exprs_print es n)
      ∙ and-eq (expr_print-is_complete e n) (exprs_print-is_complete es n)

init_print-is_complete : (e : Expr) (n : ℕ) → is_complete (init_print e n) ≡ verify_init e
unfolding init_print verify_init is_complete
init_print-is_complete null_expr n = refl
init_print-is_complete e n = expr_print-is_complete e n

-- A missing else branch prints nothing and passes the check.
else_lines-is_complete :
    (e : Stmts) (n : ℕ)
    → is_complete (stmt_print e (n + 1)) ≡ verify_stmt e
    → is_complete (else_lines e n (stmt_print e (n + 1))) ≡ verify_stmt e
unfolding is_complete verify_stmt
else_lines-is_complete no_stmts n h = refl
else_lines-is_complete (add_stmt s ss) n h = h

closed-is_complete :
    (ls : List Line) (n : ℕ) → is_complete (ls ++ (line n (codes "}") ∷ [])) ≡ is_complete ls
unfolding is_complete
closed-is_complete ls n =
    is_complete-append ls (line n (codes "}") ∷ []) ∙ and-true (is_complete ls)

mutual
  unfolding stmt_print verify_stmt is_complete

  stmt_lines-is_complete : (s : Stmt) (n : ℕ) → is_complete (stmt_lines s n) ≡ verify_one s
  stmt_lines-is_complete (stmt_return e) n = expr_print-is_complete e (n + 1)
  stmt_lines-is_complete (stmt_expr e) n = expr_print-is_complete e (n + 1)
  stmt_lines-is_complete (stmt_decl name e) n = init_print-is_complete e (n + 1)
  stmt_lines-is_complete (stmt_block b) n =
      closed-is_complete (stmt_print b (n + 1)) n ∙ stmt_print-is_complete b (n + 1)
  stmt_lines-is_complete (stmt_if c t e) n =
      is_complete-append (expr_print c (n + 1))
        (line n (codes "then:") ∷ (stmt_print t (n + 1) ++ else_lines e n (stmt_print e (n + 1))))
      ∙ and-eq (expr_print-is_complete c (n + 1)) (
          is_complete-append (stmt_print t (n + 1)) (else_lines e n (stmt_print e (n + 1)))
          ∙ and-eq (stmt_print-is_complete t (n + 1))
              (else_lines-is_complete e n (stmt_print-is_complete e (n + 1))))
  stmt_lines-is_complete (stmt_while c b) n =
      is_complete-append (expr_print c (n + 1)) (line n (codes "body:") ∷ stmt_print b (n + 1))
      ∙ and-eq (expr_print-is_complete c (n + 1)) (stmt_print-is_complete b (n + 1))

  stmt_print-is_complete : (ss : Stmts) (n : ℕ) → is_complete (stmt_print ss n) ≡ verify_stmt ss
  stmt_print-is_complete no_stmts n = refl
  stmt_print-is_complete (add_stmt s ss) n =
      is_complete-append (stmt_lines s n) (stmt_print ss n)
      ∙ and-eq (stmt_lines-is_complete s n) (stmt_print-is_complete ss n)

func-is_complete :
    (f : Func) (ls : List Line)
    → is_complete (stmt_print f.body 1 ++ (line 0 (codes "}") ∷ line 0 [] ∷ ls))
      ≡ verify_stmt f.body && is_complete ls
unfolding is_complete
func-is_complete f ls =
    is_complete-append (stmt_print f.body 1) (line 0 (codes "}") ∷ line 0 [] ∷ ls)
    ∙ and-eq (stmt_print-is_complete f.body 1) refl

-- A program passes `sema_check` exactly if no line of its dump reads `(null expr)`.
pub sema_check-complete_iff :
    (p : Program) → (sema_check p ≡ none) ↔ (is_complete (program_print p) ≡ true)
unfolding sema_check program_print is_complete
sema_check-complete_iff [] = ((λ h. refl), (λ h. refl))
sema_check-complete_iff (f ∷ p) =
    ground (arith, func-is_complete f (program_print p), sema_check-complete_iff p)
