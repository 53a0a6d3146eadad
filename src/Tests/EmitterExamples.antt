-- ===== src/Tests/EmitterExamples.antt =====
-- Runs of the emitter, and its theorems at small inputs.
use micro_colorschemes.Prelude.{ℕ, ◌≡◌, refl, false, List, [], ◌∷◌, codes, bytes_eq, ◌≤◌, arith}
use micro_colorschemes.Token.{tok_plus, tok_minus}
use micro_colorschemes.Ast.{
  ty_int, scalar, ptr, Node, ident, int_lit, str_lit, binary, unary, index, while_stmt, do_stmt,
  break_stmt, compound, return_stmt, func_def, nil, cons, no_type, expr_stmt, NodeList,
}
use micro_colorschemes.Ast.Types.{no_token}
use micro_colorschemes.Qbe.Types.{
  type_w, type_l, qbe_type, load_op, loadw, loadl, kind_size, type_size, ends_in_terminator,
}
use micro_colorschemes.Qbe.Code.{
  Instr, assign_to, copy_int, copy_var, copy_str, load, arith_op, op_add, op_mul, jnz, jmp, label,
  ret, while_cond, while_body, while_end, do_body, do_cond, do_end,
}
use micro_colorschemes.Qbe.Emit.{
  Emitter, emitted, ◌>>=◌, ◌>>◌, pure, emit, qbe_new_tmp, assign_new, enter_ctx, leave_ctx, LoopCtx,
}
use micro_colorschemes.Qbe.Expr.{
  qbe_expr_val, ident_value, binary_value, plus_value, plain_binary, operator_line, print_operator,
}
use micro_colorschemes.Qbe.Memory.{qbe_load_from_addr, index_address, scaled}
use micro_colorschemes.Qbe.Stmt.{qbe_stmt, while_code, do_code, break_code, break_at, return_code}
use micro_colorschemes.Qbe.Switch.{switch_ctx}
use micro_colorschemes.Qbe.Program.{
  function_start, qbe_emit, collect_list, emit_functions, qbe_emit_string_data, written,
  string_data, function, no_strings,
}
use micro_colorschemes.Qbe.Program.Numbers.Walk.{strings_of}
use micro_colorschemes.Qbe.Program.Numbers.Written.{DataFrom, AllWritten, collect_list-AllWritten}
use micro_colorschemes.Qbe.Strings.{escape_text, escape_byte}
use micro_colorschemes.Qbe.Defined.{itself, RunDefined}
use micro_colorschemes.Qbe.Defined.Values.{HasValues, qbe_expr_val-IsDefined}
use micro_colorschemes.Qbe.Steady.{Follows}
use micro_colorschemes.Qbe.Steady.Stmt.{qbe_stmt-Follows}

abbrev no_name : Node → List ℕ
no_name n = []

abbrev start : Emitter
start = function_start no_name

abbrev int_of : ℕ → Node
int_of v = int_lit no_token (scalar ty_int) v false

abbrev sum : Node
sum = binary no_token (scalar ty_int) (int_of 1) (int_of 2) tok_plus

sum_run :
    qbe_expr_val sum start
    ≡ emitted
        (assign_to 0 type_w (copy_int 1)
          ∷ assign_to 1 type_w (copy_int 2)
          ∷ assign_to 2 type_w (arith_op op_add 0 1)
          ∷ [])
        2
        (record start { qbe_tmp = 3 })
unfolding qbe_expr_val binary_value plus_value plain_binary operator_line print_operator assign_new
    ◌>>=◌ ◌>>◌ pure emit qbe_new_tmp qbe_type
sum_run = refl

sum-HasValues : HasValues sum
unfolding HasValues
sum-HasValues = (tt, tt)

qbe_expr_val-IsDefined_example : RunDefined [] itself (qbe_expr_val sum start)
qbe_expr_val-IsDefined_example = qbe_expr_val-IsDefined sum start sum-HasValues

-- An element of a pointer is scaled by the size of the pointer.
index_run :
    qbe_expr_val
      (index no_token (scalar ty_int) (ident no_token (ptr 0 (scalar ty_int)) 7) (int_of 1))
      start
    ≡ emitted
        (assign_to 0 type_l (copy_var 7)
          ∷ assign_to 1 type_l (load loadl 0)
          ∷ assign_to 2 type_w (copy_int 1)
          ∷ assign_to 3 type_l (copy_int 8)
          ∷ assign_to 4 type_l (arith_op op_mul 2 3)
          ∷ assign_to 5 type_l (arith_op op_add 1 4)
          ∷ assign_to 6 type_w (load loadw 5)
          ∷ [])
        6
        (record start { qbe_tmp = 7 })
unfolding qbe_expr_val ident_value index_address scaled qbe_load_from_addr assign_new ◌>>=◌ ◌>>◌
    pure emit qbe_new_tmp qbe_type load_op type_size kind_size
index_run = refl

-- The negation is not computed: no line is printed.
minus_run :
    qbe_expr_val (unary no_token (scalar ty_int) (int_of 5) tok_minus) start ≡ emitted [] 0 start
unfolding qbe_expr_val pure
minus_run = refl

abbrev while_break : Node
while_break = while_stmt no_token (int_of 1) (break_stmt no_token)

abbrev while_lines : List Instr
while_lines =
    label (while_cond 0)
    ∷ assign_to 1 type_w (copy_int 1)
    ∷ jnz 1 (while_body 0) (while_end 0)
    ∷ label (while_body 0)
    ∷ jmp (while_end 0)
    ∷ label (while_end 0)
    ∷ []

while_run : qbe_stmt while_break start ≡ emitted while_lines tt (record start { qbe_tmp = 2 })
unfolding qbe_stmt while_code break_code break_at ends_in_terminator qbe_expr_val assign_new ◌>>=◌
    ◌>>◌ pure emit qbe_new_tmp qbe_type enter_ctx leave_ctx
while_run = refl

qbe_stmt-Follows_example : Follows start (record start { qbe_tmp = 2 })
qbe_stmt-Follows_example =
    qbe_stmt-Follows while_break start (record start { qbe_tmp = 2 }) while_lines while_run

-- In a `do`, the `break` jumps to a label that is not there.
do_run :
    qbe_stmt (do_stmt no_token (int_of 1) (break_stmt no_token)) start
    ≡ emitted
        (label (do_body 0)
          ∷ jmp (while_end 0)
          ∷ label (do_cond 0)
          ∷ assign_to 1 type_w (copy_int 1)
          ∷ jnz 1 (do_body 0) (do_end 0)
          ∷ label (do_end 0)
          ∷ [])
        tt
        (record start { qbe_tmp = 2 })
unfolding qbe_stmt do_code break_code break_at qbe_expr_val assign_new ◌>>=◌ ◌>>◌ pure emit
    qbe_new_tmp qbe_type enter_ctx leave_ctx
do_run = refl

-- Two equal strings have one number.
abbrev text_a : Node
text_a = str_lit no_token no_type 0 (codes "a")

abbrev two_strings : NodeList
two_strings =
    cons
      (func_def no_token (ident no_token no_type 0) nil
        (compound no_token
          (cons (expr_stmt no_token text_a) (cons (return_stmt no_token text_a) nil)))
        no_type)
      nil

strings_run :
    qbe_emit no_name two_strings
    ≡ written (
        string_data 0 (codes "a")
        ∷ function [] type_w []
            (assign_to 0 type_l (copy_str 0) ∷ assign_to 1 type_l (copy_str 0) ∷ ret 1 ∷ [])
        ∷ [])
unfolding qbe_emit collect_list emit_functions qbe_emit_string_data escape_text escape_byte qbe_stmt
    return_code qbe_expr_val assign_new ◌>>=◌ ◌>>◌ pure emit qbe_new_tmp qbe_type ends_in_terminator
    bytes_eq
strings_run = refl

one_number : (collect_list two_strings no_strings).1.qbe_str_total ≤ 1024
unfolding collect_list bytes_eq
one_number = omega arith

collect_list-AllWritten_example :
    DataFrom 0 (qbe_emit_string_data (collect_list two_strings no_strings).1.qbe_strings)
    × AllWritten
        (qbe_emit_string_data (collect_list two_strings no_strings).1.qbe_strings)
        (strings_of (collect_list two_strings no_strings).0)
collect_list-AllWritten_example = collect_list-AllWritten two_strings one_number

abbrev inside_switch : List LoopCtx
inside_switch = switch_ctx 4 ∷ []
