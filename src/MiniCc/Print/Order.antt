-- ===== src/MiniCc/Print/Order.antt =====
-- What is appended by the functions of mini-cc/src/ast.c is dumped last.
use micro_colorschemes.Prelude.{
  ℕ, ◌≡◌, refl, sym, ap, ◌∙◌, List, [], ◌∷◌, ◌++◌, append_assoc, append-nil, codes,
}
use micro_colorschemes.MiniCc.Ast.{
  Stmt, Stmts, no_stmts, add_stmt, Func, Program, stmt_list_append, program_add_func,
}
use micro_colorschemes.MiniCc.Print.{Line, line, stmt_lines, stmt_print, param_names, program_print}

-- The dump of a chain with a statement appended is that of the chain, and then that of the statement.
pub stmt_print-stmt_list_append :
    (ss : Stmts) (s : Stmt) (n : ℕ)
    → stmt_print (stmt_list_append ss s) n ≡ stmt_print ss n ++ stmt_lines s n
unfolding stmt_print stmt_list_append
stmt_print-stmt_list_append no_stmts s n = append-nil (stmt_lines s n)
stmt_print-stmt_list_append (add_stmt t ss) s n =
    ap (◌++◌ (stmt_lines t n)) (stmt_print-stmt_list_append ss s n)
    ∙ sym (append_assoc (stmt_lines t n) (stmt_print ss n) (stmt_lines s n))

-- The lines behind a function's body.
abbrev behind : List Line → List Line
behind ls = line 0 (codes "}") ∷ line 0 [] ∷ ls

-- The dump of a program with a function added is that of the program, and then that of the function.
pub program_print-program_add_func :
    (p : Program) (f : Func)
    → program_print (program_add_func p f) ≡ program_print p ++ program_print (f ∷ [])
unfolding program_print program_add_func
program_print-program_add_func [] f = refl
program_print-program_add_func (g ∷ p) f =
    let head =
      line 0 (codes "func " ++ g.name ++ codes "(" ++ param_names g.params ++ codes ") {") in
    let body = stmt_print g.body 1 in
    ap (λ ls. head ∷ (body ++ behind ls)) (program_print-program_add_func p f)
    ∙ ap (◌∷◌ head) (sym (append_assoc body (behind (program_print p)) (program_print (f ∷ []))))
