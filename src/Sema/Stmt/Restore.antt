-- ===== src/Sema/Stmt/Restore.antt =====
-- `sema_program` of qbebasedcompiler/src/sema.c enters and leaves scopes in pairs.
use micro_colorschemes.Prelude.{◌≡◌, refl, subst, true, false}
use micro_colorschemes.Ast.{CType, no_node, func_def, decl, param, ident, func, NodeList, nil, cons}
use micro_colorschemes.Sema.Scopes.{Sema, sema_declare, sema_lookup}
use micro_colorschemes.Sema.Monad.{ok, ◌>>=◌, pure, fresh}
use micro_colorschemes.Sema.Expr.{or_type}
use micro_colorschemes.Sema.Expr.Laws.{ok-state}
use micro_colorschemes.Sema.Stmt.{ident_name, found_id}
use micro_colorschemes.Sema.Stmt.Program.{
  result_type, declare_all, declare_globals, declare_params, enter_function, number_all,
  sema_bodies, sema_program,
}
use micro_colorschemes.Sema.Stmt.Balance.{
  Around, Around-refl, Around-trans, sema_declare-Around, Balanced, balanced, Balanced-pure,
  Balanced-bind, Balanced-after, in_scope-scope, Balanced-in_scope, Balanced-read,
  sema_stmt-Balanced,
}

declare_all-Around : (t : CType) (ds : NodeList) (S : Sema) → Around S (declare_all t ds S)
unfolding declare_all
declare_all-Around t nil S = Around-refl S
declare_all-Around t (cons (ident tok u id) ds) S =
    Around-trans S (sema_declare S (ident_name (ident tok u id)) (or_type u t) true)
      (declare_all t ds (sema_declare S (ident_name (ident tok u id)) (or_type u t) true))
      (sema_declare-Around S (ident_name (ident tok u id)) (or_type u t) true)
      (declare_all-Around t ds (sema_declare S (ident_name (ident tok u id)) (or_type u t) true))
declare_all-Around t (cons _ ds) S = declare_all-Around t ds S

Balanced-fresh : Balanced fresh
unfolding Around
Balanced-fresh = balanced (λ S a T h. subst (Around S) (ok-state h) (refl, refl))

declare_globals-Balanced : (ns : NodeList) → Balanced (declare_globals ns)
unfolding declare_globals
declare_globals-Balanced nil = Balanced-pure nil
declare_globals-Balanced (cons (func_def tok name ps body t) ns) =
    Balanced-bind Balanced-fresh (λ id.
      Balanced-after
        (λ S. sema_declare-Around S (ident_name name) (func id (result_type t) ps false) true)
        (Balanced-bind (declare_globals-Balanced ns) (λ ns'. Balanced-pure _)))
declare_globals-Balanced (cons (decl tok t ds) ns) =
    Balanced-after (declare_all-Around t ds)
      (Balanced-bind (declare_globals-Balanced ns) (λ ns'. Balanced-pure _))
declare_globals-Balanced (cons _ ns) =
    Balanced-bind (declare_globals-Balanced ns) (λ ns'. Balanced-pure _)

declare_params-Balanced : (ps : NodeList) → Balanced (declare_params ps)
unfolding declare_params
declare_params-Balanced nil = Balanced-pure nil
declare_params-Balanced (cons (param tok id t no_node) ps) =
    Balanced-bind (declare_params-Balanced ps) (λ ps'. Balanced-pure _)
declare_params-Balanced (cons (param tok id t name) ps) =
    Balanced-after (λ S. sema_declare-Around S (ident_name name) t false)
      (Balanced-read (λ S. sema_lookup S (ident_name name))
        (λ o. declare_params ps >>= λ ps'. pure (cons (param tok (found_id o) t name) ps'))
        (λ o. Balanced-bind (declare_params-Balanced ps) (λ ps'. Balanced-pure _)))
declare_params-Balanced (cons _ ps) =
    Balanced-bind (declare_params-Balanced ps) (λ ps'. Balanced-pure _)

enter_function-Around : (t : CType) (S : Sema) → Around S (enter_function t S)
unfolding Around enter_function
enter_function-Around t S = (refl, refl)

sema_bodies-Balanced : (ns : NodeList) → Balanced (sema_bodies ns)
unfolding sema_bodies
sema_bodies-Balanced nil = Balanced-pure nil
sema_bodies-Balanced (cons (func_def tok name ps body t) ns) =
    Balanced-bind
      (Balanced-in_scope (
        Balanced-after (enter_function-Around t) (
          Balanced-bind (declare_params-Balanced ps) (λ ps'.
            Balanced-bind (sema_stmt-Balanced body)
              (λ b. Balanced-pure (func_def tok name ps' b t))))))
      (λ f. Balanced-bind (sema_bodies-Balanced ns) (λ ns'. Balanced-pure (cons f ns')))
sema_bodies-Balanced (cons (decl tok t ds) ns) =
    Balanced-read (λ S. number_all S ds)
      (λ ds'. sema_bodies ns >>= λ ns'. pure (cons (decl tok t ds') ns'))
      (λ ds'. Balanced-bind (sema_bodies-Balanced ns) (λ ns'. Balanced-pure _))
sema_bodies-Balanced (cons _ ns) = Balanced-bind (sema_bodies-Balanced ns) (λ ns'. Balanced-pure _)

-- An analysis of a program that succeeds ends with the chain of scopes that it started with.
pub sema_program-scope :
    (ns ns' : NodeList) (S T : Sema) → sema_program ns S ≡ ok (ns', T) → T.scope ≡ S.scope
unfolding sema_program
sema_program-scope ns ns' S T h =
    in_scope-scope (Balanced-bind (declare_globals-Balanced ns) sema_bodies-Balanced) S ns' T h
