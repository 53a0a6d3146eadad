-- ===== src/MiniCc/Codegen.antt =====
-- mini-cc/src/codegen.c over Cranelift, a parameter: a record of the operations that the source calls.
-- The debug output is left out.
pub mod Laws
use micro_colorschemes.Prelude.{
  ℕ, suc, Bool, List, [], ◌∷◌, Bytes, codes, Option, none, some, bytes_eq, if◌then◌else◌,
}
use micro_colorschemes.MiniCc.Ast.{
  ℤ, Expr, null_expr, expr_int, expr_var, Stmt, stmt_return, Stmts, no_stmts, add_stmt, Func,
  Program,
}

-- The objects of Cranelift. `Function_new` stands for `CL_Function_with_name_signature` at the user
-- name 0:0 and for `CL_FunctionBuilder_new` with a new context. The operations that change an object
-- return it.
pub record Cranelift : Type 1 where
  pub Module : Type 0
  pub Signature : Type 0
  pub Builder : Type 0
  pub Block : Type 0
  pub Value : Type 0
  pub module_new : Bytes → Module
  pub signature_new : Signature
  pub params_push : Signature → Signature
  pub returns_push : Signature → Signature
  pub declare_function : Module → Bytes → Signature → ℕ × Module
  pub builder_new : Signature → Builder
  pub create_block : Builder → Block × Builder
  pub append_block_params : Builder → Block → Builder
  pub switch_to_block : Builder → Block → Builder
  pub seal_block : Builder → Block → Builder
  pub iconst : Builder → ℤ → Value × Builder
  pub block_param : Builder → Block → ℕ → Value
  pub return_ : Builder → Value → Builder
  pub finalize : Builder → Builder
  pub define_function : Module → ℕ → Builder → Module
  pub finish_and_emit : Module → Bytes → ℕ

-- A result, `exit(1)` behind a message, or a read through a null pointer.
pub data Gen (A : Type 0) : Type 0 where
  generated : A → Gen A
  exit_1 : Gen A
  null_read : Gen A

abbrev pub then_gen : {A B : Type 0} → Gen A → (A → Gen B) → Gen B
then_gen (generated a) f = f a
then_gen exit_1 f = exit_1
then_gen null_read f = null_read

-- The place of the first parameter with the name, counted from `i`.
unfoldable pub find_param : ℕ → List Bytes → Bytes → Option ℕ
find_param i [] name = none
find_param i (p ∷ ps) name = if bytes_eq p name then some i else find_param (suc i) ps name

-- The expression of a body that is one `return`; none for any other body.
abbrev pub single_return : Stmts → Option Expr
single_return (add_stmt (stmt_return e) no_stmts) = some e
single_return _ = none

module _ (cl : Cranelift) where
  abbrev pub param_value : cl.Builder → cl.Block → Option ℕ → Gen (cl.Value × cl.Builder)
  param_value b entry none = exit_1
  param_value b entry (some i) = generated (cl.block_param b entry i, b)

  unfoldable pub lower_expr :
      cl.Builder → Expr → List Bytes → cl.Block → Gen (cl.Value × cl.Builder)
  lower_expr b (expr_int v) params entry = generated (cl.iconst b v)
  lower_expr b (expr_var name) params entry = param_value b entry (find_param 0 params name)
  lower_expr b null_expr params entry = null_read
  lower_expr b _ params entry = exit_1

  abbrev pub push_params : List Bytes → cl.Signature → cl.Signature
  push_params [] sig = sig
  push_params (p ∷ ps) sig = push_params ps (cl.params_push sig)

  abbrev pub signature_of : Func → cl.Signature
  signature_of f = cl.returns_push (push_params f.params cl.signature_new)

  -- The entry block, with the parameters of the function.
  abbrev pub entry_block : cl.Builder → cl.Block × cl.Builder
  entry_block b =
      let (entry, made) = cl.create_block b in
      (entry, cl.seal_block (cl.switch_to_block (cl.append_block_params made entry) entry) entry)

  -- The returned expression to the finished function.
  abbrev pub return_value : Gen (cl.Value × cl.Builder) → Gen cl.Builder
  return_value g = then_gen g (λ r. generated (cl.finalize (cl.return_ r.1 r.0)))

  abbrev pub body_value : Option Expr → List Bytes → cl.Block → cl.Builder → Gen cl.Builder
  body_value none params entry b = exit_1
  body_value (some e) params entry b = return_value (lower_expr b e params entry)

  unfoldable pub emit_function : cl.Module → Func → Gen cl.Module
  emit_function m f =
      let (fid, declared) = cl.declare_function m f.name (signature_of f) in
      let (entry, b) = entry_block (cl.builder_new (signature_of f)) in
      then_gen (body_value (single_return f.body) f.params entry b)
        (λ fn. generated (cl.define_function declared fid fn))

  unfoldable pub emit_functions : cl.Module → Program → Gen cl.Module
  emit_functions m [] = generated m
  emit_functions m (f ∷ fs) = then_gen (emit_function m f) (λ next. emit_functions next fs)

  unfoldable pub codegen_emit : Program → Bytes → Gen ℕ
  codegen_emit p out_path =
      then_gen (emit_functions (cl.module_new (codes "mini_cc")) p)
        (λ m. generated (cl.finish_and_emit m out_path))
