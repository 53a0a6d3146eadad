-- ===== src/MiniCc/Codegen/Laws.antt =====
-- Which programs mini-cc/src/codegen.c compiles.
use micro_colorschemes.Prelude.{
  ℕ, suc, ◌≡◌, inl, inr, ◌↔◌, refl, List, [], ◌∷◌, Bytes, Option, none, some, bytes_eq,
  bytes_eq_iff, ap, Bool-cases, sym, subst, codes,
}
use micro_colorschemes.MiniCc.Ast.{
  ℤ, Expr, null_expr, expr_int, expr_var, expr_binop, expr_unop, expr_call, stmt_return, stmt_expr,
  stmt_decl, stmt_block, stmt_if, stmt_while, Stmts, no_stmts, add_stmt, Func, Program,
}
use micro_colorschemes.MiniCc.Codegen.{
  Cranelift, Gen, generated, exit_1, null_read, then_gen, find_param, single_return, lower_expr,
  body_value, param_value, emit_function, emit_functions, codegen_emit, entry_block, signature_of,
}

-- A name among the parameters.
pub data Among (name : Bytes) : List Bytes → Type 0 where
  at_front : {p : Bytes} {ps : List Bytes} → p ≡ name → Among name (p ∷ ps)
  further : {p : Bytes} {ps : List Bytes} → Among name ps → Among name (p ∷ ps)

-- A literal, or a parameter.
pub data IsSimple (params : List Bytes) : Expr → Type 0 where
  simple_int : {v : ℤ} → IsSimple params (expr_int v)
  simple_var : {name : Bytes} → Among name params → IsSimple params (expr_var name)

-- The body is `return e;` with such an `e`, and nothing behind it.
pub data IsIdentity (f : Func) : Type 0 where
  identity :
      {e : Expr} → f.body ≡ add_stmt (stmt_return e) no_stmts → IsSimple f.params e → IsIdentity f

pub data AllIdentity : Program → Type 0 where
  no_functions : AllIdentity []
  one_more : {f : Func} {p : Program} → IsIdentity f → AllIdentity p → AllIdentity (f ∷ p)

pub data IsGenerated {A : Type 0} : Gen A → Type 0 where
  is_generated : {a : A} → IsGenerated (generated a)

find_param-Among :
    {name : Bytes} {ps : List Bytes}
    → Among name ps
    → (i : ℕ) → (j : ℕ) × (find_param i ps name ≡ some j)
unfolding find_param
find_param-Among (at_front {p} h) i = (i, rw ((bytes_eq_iff p _).1 h) refl)
find_param-Among {name} (further {p} {ps} a) i = elim (Bool-cases (bytes_eq p name)) [
  | inl e ↦ (i, rw e refl)
  | inr e ↦ rw e (find_param-Among a (suc i))
]

Among-find_param :
    (ps : List Bytes) (name : Bytes) (i : ℕ) {j : ℕ} → find_param i ps name ≡ some j → Among name ps
unfolding find_param
Among-find_param [] name i h = cc
Among-find_param (p ∷ ps) name i h = elim (Bool-cases (bytes_eq p name)) [
  | inl e ↦ at_front ((bytes_eq_iff p name).0 e)
  | inr e ↦ further (Among-find_param ps name (suc i) (rw e at h))
]

module _ (cl : Cranelift) where
  lower_expr-IsGenerated :
      {params : List Bytes} {e : Expr} (b : cl.Builder) (entry : cl.Block)
      → IsSimple params e
      → IsGenerated (lower_expr cl b e params entry)
  unfolding lower_expr
  lower_expr-IsGenerated b entry simple_int = is_generated
  lower_expr-IsGenerated b entry (simple_var {name} a) =
      let (j, e) = find_param-Among a 0 in rw e is_generated

  param_value-some :
      (b : cl.Builder) (entry : cl.Block) (o : Option ℕ)
      → IsGenerated (param_value cl b entry o)
      → (j : ℕ) × (o ≡ some j)
  param_value-some b entry none g = elim g [ ]
  param_value-some b entry (some j) g = (j, refl)

  IsGenerated-lower_expr :
      {params : List Bytes} (e : Expr) (b : cl.Builder) (entry : cl.Block)
      → IsGenerated (lower_expr cl b e params entry)
      → IsSimple params e
  unfolding lower_expr
  IsGenerated-lower_expr (expr_int v) b entry g = simple_int
  IsGenerated-lower_expr {params} (expr_var name) b entry g =
      let (j, e) = param_value-some b entry (find_param 0 params name) g in
      simple_var (Among-find_param params name 0 e)
  IsGenerated-lower_expr null_expr b entry g = elim g [ ]
  IsGenerated-lower_expr (expr_binop op l r) b entry g = elim g [ ]
  IsGenerated-lower_expr (expr_unop op l) b entry g = elim g [ ]
  IsGenerated-lower_expr (expr_call name args) b entry g = elim g [ ]

module _ {A B : Type 0} where
  then_gen-IsGenerated :
      {g : Gen A} (f : A → Gen B)
      → IsGenerated g
      → ((a : A) → IsGenerated (f a))
      → IsGenerated (then_gen g f)
  then_gen-IsGenerated f (is_generated {a}) h = h a

  IsGenerated-then_gen :
      (g : Gen A) (f : A → Gen B)
      → IsGenerated (then_gen g f)
      → (a : A) × (g ≡ generated a) × IsGenerated (f a)
  IsGenerated-then_gen (generated a) f h = (a, refl, h)
  IsGenerated-then_gen exit_1 f g = elim g [ ]
  IsGenerated-then_gen null_read f g = elim g [ ]

single_return-some :
    (b : Stmts) {e : Expr} → single_return b ≡ some e → b ≡ add_stmt (stmt_return e) no_stmts
single_return-some no_stmts h = cc
single_return-some (add_stmt (stmt_return x) no_stmts) h = cc
single_return-some (add_stmt (stmt_return x) (add_stmt s r)) h = cc
single_return-some (add_stmt (stmt_expr x) r) h = cc
single_return-some (add_stmt (stmt_decl n x) r) h = cc
single_return-some (add_stmt (stmt_block b) r) h = cc
single_return-some (add_stmt (stmt_if c t e) r) h = cc
single_return-some (add_stmt (stmt_while c b) r) h = cc

of_path : {A : Type 0} {g : Gen A} {a : A} → g ≡ generated a → IsGenerated g
of_path e = subst IsGenerated (sym e) is_generated

module _ (cl : Cranelift) where
  body_value-IsGenerated :
      {f : Func} (entry : cl.Block) (b : cl.Builder)
      → IsIdentity f
      → IsGenerated (body_value cl (single_return f.body) f.params entry b)
  body_value-IsGenerated {f} entry b (identity {e} h s) =
      rw (ap single_return h)
        (then_gen-IsGenerated _ (lower_expr-IsGenerated cl b entry s) (λ r. is_generated))

  IsGenerated-body_value :
      (f : Func) (o : Option Expr) (entry : cl.Block) (b : cl.Builder)
      → single_return f.body ≡ o
      → IsGenerated (body_value cl o f.params entry b)
      → IsIdentity f
  IsGenerated-body_value f none entry b h g = elim g [ ]
  IsGenerated-body_value f (some e) entry b h g =
      let (r, x, y) = IsGenerated-then_gen (lower_expr cl b e f.params entry) _ g in
      identity (single_return-some f.body h) (IsGenerated-lower_expr cl e b entry (of_path x))

  emit_function-IsGenerated :
      (m : cl.Module) {f : Func} → IsIdentity f → IsGenerated (emit_function cl m f)
  unfolding emit_function
  emit_function-IsGenerated m i =
      then_gen-IsGenerated _ (body_value-IsGenerated _ _ i) (λ fn. is_generated)

  IsGenerated-emit_function :
      (m : cl.Module) (f : Func) → IsGenerated (emit_function cl m f) → IsIdentity f
  unfolding emit_function
  IsGenerated-emit_function m f g =
      let (entry, b) = entry_block cl (cl.builder_new (signature_of cl f)) in
      let (fn, x, y) =
        IsGenerated-then_gen (body_value cl (single_return f.body) f.params entry b) _ g in
      IsGenerated-body_value f (single_return f.body) entry b refl (of_path x)

  emit_functions-IsGenerated :
      {p : Program} → AllIdentity p → (m : cl.Module) → IsGenerated (emit_functions cl m p)
  unfolding emit_functions
  emit_functions-IsGenerated no_functions m = is_generated
  emit_functions-IsGenerated (one_more i a) m =
      then_gen-IsGenerated _ (emit_function-IsGenerated m i)
        (λ next. emit_functions-IsGenerated a next)

  IsGenerated-emit_functions :
      (p : Program) (m : cl.Module) → IsGenerated (emit_functions cl m p) → AllIdentity p
  unfolding emit_functions
  IsGenerated-emit_functions [] m g = no_functions
  IsGenerated-emit_functions (f ∷ p) m g =
      let (next, x, y) =
        IsGenerated-then_gen (emit_function cl m f) (λ n. emit_functions cl n p) g in
      one_more (IsGenerated-emit_function m f (of_path x)) (IsGenerated-emit_functions p next y)

  -- `codegen_emit` returns, with any Cranelift, if and only if the body of every function is one
  -- `return` of an integer literal or of a parameter of that function. Else it does not return.
  pub codegen_emit-AllIdentity :
      (p : Program) (out_path : Bytes) → IsGenerated (codegen_emit cl p out_path) ↔ AllIdentity p
  unfolding codegen_emit
  codegen_emit-AllIdentity p out_path = (
    (λ g.
        let start = cl.module_new (codes "mini_cc") in
        let (m, x, y) = IsGenerated-then_gen (emit_functions cl start p) _ g in
        IsGenerated-emit_functions p start (of_path x)),
    (λ a. then_gen-IsGenerated _ (emit_functions-IsGenerated a _) (λ m. is_generated)),
  )
