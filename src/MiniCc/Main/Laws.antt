-- ===== src/MiniCc/Main/Laws.antt =====
-- Null pointers in mini-cc/src/main.c: the check of sema.c in front of codegen.c.
use micro_colorschemes.Prelude.{
  ℕ, ◌≡◌, refl, Bool, true, false, List, [], ◌∷◌, Bytes, Option, none, some, Bool-cases, inl, inr,
  arith,
}
use micro_colorschemes.MiniCc.Ast.{
  Expr, null_expr, expr_int, expr_var, expr_binop, expr_unop, expr_call, stmt_return, stmt_expr,
  stmt_decl, stmt_block, stmt_if, stmt_while, Stmts, no_stmts, add_stmt, Program,
}
use micro_colorschemes.MiniCc.Print.{Line}
use micro_colorschemes.MiniCc.Verify.{verify_expr, verify_stmt, sema_check}
use micro_colorschemes.MiniCc.Clang.{Clang}
use micro_colorschemes.MiniCc.Codegen.{
  Cranelift, Gen, generated, exit_1, then_gen, find_param, single_return, lower_expr, body_value,
  param_value, emit_function, emit_functions, codegen_emit,
}
use micro_colorschemes.MiniCc.Main.{
  Options, Ran, returned, generated_code, output, checked, compiled, run_source, run_parsed, main,
}

-- No read through a null pointer.
pub data IsSafe {A : Type 0} : Gen A → Type 0 where
  safe_value : {a : A} → IsSafe (generated a)
  safe_exit : IsSafe exit_1

module _ {A B : Type 0} where
  then_gen-IsSafe :
      {g : Gen A} (f : A → Gen B) → IsSafe g → ((a : A) → IsSafe (f a)) → IsSafe (then_gen g f)
  then_gen-IsSafe f (safe_value {a}) h = h a
  then_gen-IsSafe f safe_exit h = safe_exit

-- The expression of a body that the check passes.
verified_return :
    (ss : Stmts) (e : Expr)
    → verify_stmt ss ≡ true
    → single_return ss ≡ some e
    → verify_expr e ≡ true
unfolding verify_stmt verify_expr
verified_return no_stmts e v h = cc
verified_return (add_stmt (stmt_return x) no_stmts) e v h = ground (arith, v, h)
verified_return (add_stmt (stmt_return x) (add_stmt s ss)) e v h = cc
verified_return (add_stmt (stmt_expr x) ss) e v h = cc
verified_return (add_stmt (stmt_decl x y) ss) e v h = cc
verified_return (add_stmt (stmt_block x) ss) e v h = cc
verified_return (add_stmt (stmt_if x y z) ss) e v h = cc
verified_return (add_stmt (stmt_while x y) ss) e v h = cc

module _ (cl : Cranelift) where
  param_value-IsSafe :
      (b : cl.Builder) (entry : cl.Block) (o : Option ℕ) → IsSafe (param_value cl b entry o)
  param_value-IsSafe b entry none = safe_exit
  param_value-IsSafe b entry (some i) = safe_value

  lower_expr-IsSafe :
      (b : cl.Builder) (e : Expr) (params : List Bytes) (entry : cl.Block)
      → verify_expr e ≡ true
      → IsSafe (lower_expr cl b e params entry)
  unfolding lower_expr verify_expr
  lower_expr-IsSafe b null_expr params entry h = cc
  lower_expr-IsSafe b (expr_int v) params entry h = safe_value
  lower_expr-IsSafe b (expr_var name) params entry h =
      param_value-IsSafe b entry (find_param 0 params name)
  lower_expr-IsSafe b (expr_binop op l r) params entry h = safe_exit
  lower_expr-IsSafe b (expr_unop op e) params entry h = safe_exit
  lower_expr-IsSafe b (expr_call name es) params entry h = safe_exit

  body_value-IsSafe :
      (o : Option Expr) (params : List Bytes) (entry : cl.Block) (b : cl.Builder)
      → ((e : Expr) → o ≡ some e → verify_expr e ≡ true)
      → IsSafe (body_value cl o params entry b)
  body_value-IsSafe none params entry b h = safe_exit
  body_value-IsSafe (some e) params entry b h =
      then_gen-IsSafe _ (lower_expr-IsSafe b e params entry (h e refl)) (λ r. safe_value)

  emit_functions-IsSafe :
      (p : Program) (m : cl.Module) → sema_check p ≡ none → IsSafe (emit_functions cl m p)
  unfolding emit_functions emit_function sema_check
  emit_functions-IsSafe [] m h = safe_value
  emit_functions-IsSafe (f ∷ p) m h = elim (Bool-cases (verify_stmt f.body)) [
    | inl e ↦
        then_gen-IsSafe _
          (then_gen-IsSafe _
            (body_value-IsSafe (single_return f.body) f.params _ _
              (λ x y. verified_return f.body x e y))
            (λ fn. safe_value))
          (λ next. emit_functions-IsSafe p next (rw e at h))
    | inr e ↦ let bad : some f.name ≡ none = rw e at h in let no : ⊥ = cc in elim no [ ]
  ]

-- A run that ends with a code.
pub data IsReturned : Ran → Type 0 where
  is_returned : {n : ℕ} {ls : List Line} → IsReturned (returned n ls)

module _ {Cursor : Type 0} (clang : Clang Cursor) (level : ℕ) (cl : Cranelift)
    (full_path : Bytes → Option Bytes) where
  generated-IsReturned : {g : Gen ℕ} → IsSafe g → IsReturned (generated_code g)
  generated-IsReturned safe_value = is_returned
  generated-IsReturned safe_exit = is_returned

  output-IsReturned :
      (b : Bool) (prog : Program)
      → sema_check prog ≡ none
      → IsReturned (output clang level cl full_path b prog)
  unfolding codegen_emit
  output-IsReturned true prog h = is_returned
  output-IsReturned false prog h =
      generated-IsReturned (then_gen-IsSafe _ (emit_functions-IsSafe cl prog _ h) (λ m. safe_value))

  checked-IsReturned :
      (b : Bool) (prog : Program) (o : Option Bytes)
      → sema_check prog ≡ o
      → IsReturned (checked clang level cl full_path b prog o)
  checked-IsReturned b prog none h = output-IsReturned b prog h
  checked-IsReturned b prog (some name) h = is_returned

  compiled-IsReturned :
      (b : Bool) (o : Option Program) → IsReturned (compiled clang level cl full_path b o)
  compiled-IsReturned b none = is_returned
  compiled-IsReturned b (some prog) = checked-IsReturned b prog (sema_check prog) refl

  source-IsReturned :
      (b : Bool) (o : Option Bytes) → IsReturned (run_source clang level cl full_path b o)
  source-IsReturned b none = is_returned
  source-IsReturned b (some src) = compiled-IsReturned b _

  parsed-IsReturned : (o : Option Options) → IsReturned (run_parsed clang level cl full_path o)
  parsed-IsReturned none = is_returned
  parsed-IsReturned (some o) = source-IsReturned o.print_ast o.src

  -- With any libclang and any Cranelift, `main` returns a code for any arguments: what reaches the code
  -- generator has passed the check, and then it never reads through a null pointer.
  pub main-IsReturned : (args : List Bytes) → IsReturned (main clang level cl full_path args)
  unfolding main
  main-IsReturned args = parsed-IsReturned _
