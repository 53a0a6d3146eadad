-- ===== src/Tests/SemaExamples.antt =====
-- The theorems on sema.c at small inputs.
use micro_colorschemes.Prelude.{
  ℕ, ◌≡◌, ◌≢◌, refl, Bool, true, false, List, [], ◌∷◌, Bytes, codes, some, if◌then◌else◌, bytes_eq,
}
use micro_colorschemes.Token.{tok_plus}
use micro_colorschemes.Ast.{
  CType, no_type, scalar, ty_int, ty_double, Node, binary, int_lit, NodeList, nil, cons, char_lit,
  compound, func_def, ident,
}
use micro_colorschemes.Ast.Types.{no_token, node_type}
use micro_colorschemes.Sema.Scopes.{
  Sema, sema_declare, sema_lookup, sema_enter_scope, sema_leave_scope, new_symbol,
}
use micro_colorschemes.Sema.Scopes.Laws.{
  sema_lookup-sema_declare, sema_leave_scope-lookup, declare_list,
}
use micro_colorschemes.Sema.Convert.{
  usual_arith, make_cast, fits_type, decay, is_pointer, is_integer,
}
use micro_colorschemes.Sema.Convert.Laws.{IsCastOf, make_cast-IsCastOf}
use micro_colorschemes.Sema.Monad.{Result, ok}
use micro_colorschemes.Sema.Expr.{sema_expr, type_binary}
use micro_colorschemes.Sema.Expr.Laws.{Leaves, sema_expr-Leaves}
use micro_colorschemes.Sema.Expr.Typing.{Agrees, sema_expr-Agrees, type_binary-operands}
use micro_colorschemes.Sema.Stmt.{sema_stmt}
use micro_colorschemes.Sema.Stmt.Program.{sema_program}
use micro_colorschemes.Sema.Stmt.Restore.{sema_program-scope}

abbrev start : Sema
start = record {
  scope = [] ∷ [];
  current_func_ret = no_type;
  tmp_counter = 0;
  local_counter = 0;
  global_counter = 0;
  next_id = 0;
}

some_scope : start.scope ≢ []
some_scope e = cc

sema_lookup-sema_declare_example :
    sema_lookup (sema_declare start (codes "x") (scalar ty_int) true) (codes "y") ≡ (
      if bytes_eq (codes "x") (codes "y")
      then some (new_symbol start (codes "x") (scalar ty_int) true)
      else sema_lookup start (codes "y"))
sema_lookup-sema_declare_example =
    sema_lookup-sema_declare start (codes "x") (codes "y") (scalar ty_int) true some_scope

abbrev one_declared : List (Bytes × CType × Bool)
one_declared = (codes "x", scalar ty_int, false) ∷ []

sema_leave_scope-lookup_example :
    sema_lookup (sema_leave_scope (declare_list (sema_enter_scope start) one_declared)) (codes "x")
    ≡ sema_lookup start (codes "x")
sema_leave_scope-lookup_example = sema_leave_scope-lookup start one_declared (codes "x")

abbrev one : Node
one = int_lit no_token (scalar ty_int) 1 false

abbrev letter : Node
letter = char_lit no_token no_type 97

make_cast-IsCastOf_example : IsCastOf one (scalar ty_double) (make_cast one (scalar ty_double))
make_cast-IsCastOf_example = make_cast-IsCastOf one (scalar ty_double) refl

abbrev sum : Node
sum = binary no_token no_type one letter tok_plus

abbrev typed_letter : Node
typed_letter = char_lit no_token (scalar ty_int) 97

abbrev typed_sum : Node
typed_sum = binary no_token (scalar ty_int) one typed_letter tok_plus

abbrev numbered : ℕ → Sema
numbered n = record start { next_id = n }

sum_run :
    ◌≡◌ {A = Result ((CType × Node) × Sema)}
      (sema_expr sum start)
      (ok ((scalar ty_int, typed_sum), numbered 2))
unfolding sema_expr type_binary make_cast decay usual_arith is_pointer is_integer
sum_run = refl

sema_expr-Leaves_example : Leaves start (numbered 2)
sema_expr-Leaves_example =
    sema_expr-Leaves sum start (numbered 2) (scalar ty_int, typed_sum) sum_run

sema_expr-Agrees_example : Agrees (scalar ty_int, typed_sum)
sema_expr-Agrees_example =
    sema_expr-Agrees sum start (numbered 2) (scalar ty_int, typed_sum) sum_run

type_binary-operands_example :
    (t : CType) × (x : Node) × (y : Node) × ((type_binary no_token tok_plus
        (scalar ty_int)
        (scalar ty_double)
        one
        letter).1
      ≡ binary no_token t x y tok_plus)
    × (fits_type (node_type x) (usual_arith (scalar ty_int) (scalar ty_double)) ≡ true)
    × (fits_type (node_type y) (usual_arith (scalar ty_int) (scalar ty_double)) ≡ true)
unfolding is_pointer
type_binary-operands_example =
    type_binary-operands no_token tok_plus (scalar ty_int) (scalar ty_double) one letter refl refl
      refl refl refl

abbrev main_unit : NodeList
main_unit =
    cons (func_def no_token (ident no_token no_type 0) nil (compound no_token nil) no_type) nil

abbrev after_main : Sema
after_main = record start { next_id = 1; global_counter = 1; current_func_ret = scalar ty_int }

main_run :
    ◌≡◌ {A = Result (NodeList × Sema)} (sema_program main_unit start) (ok (main_unit, after_main))
unfolding sema_program sema_stmt sema_leave_scope sema_enter_scope sema_declare
main_run = refl

sema_program-scope_example : after_main.scope ≡ start.scope
sema_program-scope_example = sema_program-scope main_unit main_unit start after_main main_run
