-- ===== src/Sema/Stmt/Program.antt =====
-- `sema_program` of qbebasedcompiler/src/sema.c.
use micro_colorschemes.Prelude.{true, false}
use micro_colorschemes.Ast.{
  ty_int, CType, scalar, func, no_node, func_def, decl, param, ident, NodeList, nil, cons,
}
use micro_colorschemes.Sema.Scopes.{Sema, sema_declare, sema_lookup}
use micro_colorschemes.Sema.Monad.{M, ◌>>=◌, pure, fresh}
use micro_colorschemes.Sema.Expr.{or_type}
use micro_colorschemes.Sema.Stmt.{after, in_scope, found_id, ident_name, sema_stmt}

-- The type of a function definition's value, or of its result.
abbrev pub result_type : CType → CType
result_type t = or_type t (scalar ty_int)

-- The loop over the declarators in pass 1.
unfoldable pub declare_all : CType → NodeList → Sema → Sema
declare_all base nil S = S
declare_all base (cons (ident tok t id) ds) S =
    declare_all base ds (sema_declare S (ident_name (ident tok t id)) (or_type t base) true)
declare_all base (cons d ds) S = declare_all base ds S

-- Pass 1: functions and globals are declared, in order.
unfoldable pub declare_globals : NodeList → M NodeList
unfolding declare_all
declare_globals nil = pure nil
declare_globals (cons (func_def tok name ps body t) ns) = fresh >>= λ id.
    after (λ S. sema_declare S (ident_name name) (func id (result_type t) ps false) true)
      (declare_globals ns >>= λ ns'. pure (cons (func_def tok name ps body t) ns'))
declare_globals (cons (decl tok base ds) ns) =
    after (declare_all base ds) (declare_globals ns >>= λ ns'. pure (cons (decl tok base ds) ns'))
declare_globals (cons n ns) = declare_globals ns >>= λ ns'. pure (cons n ns')

-- The parameters of a function in pass 2; one without a name is left as it is.
unfoldable pub declare_params : NodeList → M NodeList
declare_params nil = pure nil
declare_params (cons (param tok id t no_node) ps) =
    declare_params ps >>= λ ps'. pure (cons (param tok id t no_node) ps')
declare_params (cons (param tok id t name) ps) =
    after (λ S. sema_declare S (ident_name name) t false)
      (λ S.
        let id' = found_id (sema_lookup S (ident_name name)) in
        (declare_params ps >>= λ ps'. pure (cons (param tok id' t name) ps')) S)
declare_params (cons p ps) = declare_params ps >>= λ ps'. pure (cons p ps')

-- The state in which a function's parameters are declared.
unfoldable pub enter_function : CType → Sema → Sema
enter_function t S = record S { current_func_ret = result_type t; local_counter = 0 }

-- The numbers of the declarators in pass 2.
unfoldable pub number_all : Sema → NodeList → NodeList
number_all S nil = nil
number_all S (cons (ident tok t id) ds) =
    cons (ident tok t (found_id (sema_lookup S (ident_name (ident tok t id))))) (number_all S ds)
number_all S (cons d ds) = cons d (number_all S ds)

-- Pass 2: function bodies are analysed and declarators numbered.
unfoldable pub sema_bodies : NodeList → M NodeList
unfolding declare_params enter_function number_all
sema_bodies nil = pure nil
sema_bodies (cons (func_def tok name ps body t) ns) =
    in_scope (
      after (enter_function t) (
        declare_params ps >>= λ ps'.
        sema_stmt body >>= λ body'. pure (func_def tok name ps' body' t)))
    >>= λ f. sema_bodies ns >>= λ ns'. pure (cons f ns')
sema_bodies (cons (decl tok base ds) ns) =
    λ S. (sema_bodies ns >>= λ ns'. pure (cons (decl tok base (number_all S ds)) ns')) S
sema_bodies (cons n ns) = sema_bodies ns >>= λ ns'. pure (cons n ns')

unfoldable pub sema_program : NodeList → M NodeList
unfolding declare_globals sema_bodies
sema_program ns = in_scope (declare_globals ns >>= sema_bodies)
