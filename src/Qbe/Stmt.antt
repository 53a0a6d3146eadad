-- ===== src/Qbe/Stmt.antt =====
-- The statements of qbebasedcompiler/src/qbe.c: `qbe_stmt` and `qbe_label_id`.
pub mod Jumps
use micro_colorschemes.Prelude.{
  ℕ, zero, suc, ◌+◌, ◌-◌, Bool, true, false, not, ◌&&◌, ltb, leb, Option, some, none, List, [], ◌∷◌,
  ◌++◌, length, Bytes, bytes_eq, if◌then◌else◌,
}
use micro_colorschemes.Token.{token_text}
use micro_colorschemes.Ast.{
  CType, Node, no_node, decl, var_decl, compound, expr_stmt, if_stmt, while_stmt, do_stmt, for_stmt,
  switch_stmt, case_stmt, default_stmt, return_stmt, break_stmt, continue_stmt, goto_stmt,
  label_stmt, NodeList, nil, cons,
}
use micro_colorschemes.Qbe.Types.{type_w, type_l, ends_in_terminator}
use micro_colorschemes.Qbe.Code.{
  Label, if_then, if_else, if_end, while_cond, while_body, while_end, do_body, do_cond, do_end,
  for_cond, for_body, for_post, for_end, switch_end, user_label, case_label, switch_next, copy_var,
  compare, ceq, jnz, jmp, label, ret,
}
use micro_colorschemes.Qbe.Emit.{
  LoopCtx, Emit, emitted, stopped, ◌>>=◌, ◌>>◌, pure, stop, emit, qbe_new_tmp, assign_new, in_ctx,
  unsupported_stmt, too_many_labels, break_outside, continue_outside,
}
use micro_colorschemes.Qbe.Expr.{qbe_expr_val}
use micro_colorschemes.Qbe.Memory.{qbe_store_to_addr}
use micro_colorschemes.Qbe.Switch.{
  switch_ctx, is_case, statements_of, first_of, queue_walk, switch_queue, switch_cases,
  dispatch_code, default_jump, switch_code,
}

-- A label's row holds 63 bytes and a 0: a longer name, which has no byte 0, never equals it.
abbrev pub same_label : Bytes → Bytes → Bool
same_label stored name = leb (length name) 63 && bytes_eq stored name

-- The loop of `qbe_label_id`: the place of the name, or that behind the last.
unfoldable pub label_place : List Bytes → Bytes → ℕ
label_place [] name = 0
label_place (stored ∷ names) name =
    if same_label stored name then 0 else suc (label_place names name)

unfoldable pub qbe_label_id : Bytes → Emit ℕ
qbe_label_id name E =
    let id = label_place E.qbe_labels name in
    if ltb id (length E.qbe_labels)
    then emitted [] id E
    else if leb 256 id
    then stopped too_many_labels
    else emitted [] id (record E { qbe_labels = E.qbe_labels ++ name ∷ [] })

abbrev pub loop_ctx : ℕ → LoopCtx
loop_ctx id = record { break_id = id; continue_id = id; is_switch = false }

-- An expression whose value is not used; NULL is none.
abbrev pub optional_expr : Node → Emit Unit
optional_expr no_node = pure tt
optional_expr e = qbe_expr_val e >> pure tt

abbrev pub emit_if : Bool → Emit Unit → Emit Unit
emit_if b m = if b then m else pure tt

unfoldable pub var_init : ℕ → CType → Node → Emit Unit
var_init id t no_node = pure tt
var_init id t e =
    assign_new type_l (copy_var id) >>= λ addr. qbe_expr_val e >>= λ v. qbe_store_to_addr addr v t

-- Without an expression the number is 0, as of a temporary.
unfoldable pub return_code : Node → Emit Unit
return_code no_node = emit (ret 0)
return_code e = qbe_expr_val e >>= λ v. emit (ret v)

unfoldable pub if_code : Node → Emit Unit → Bool → Option (Emit Unit) → Emit Unit
if_code c m ends none = qbe_expr_val c >>= λ t. qbe_new_tmp >>= λ id.
    emit (jnz t (if_then id) (if_end id))
    >> emit (label (if_then id))
    >> m
    >> emit (label (if_end id))
if_code c m ends (some other) = qbe_expr_val c >>= λ t. qbe_new_tmp >>= λ id.
    emit (jnz t (if_then id) (if_else id))
    >> emit (label (if_then id))
    >> m
    >> emit_if (not ends) (emit (jmp (if_end id)))
    >> emit (label (if_else id))
    >> other
    >> emit (label (if_end id))

unfoldable pub while_code : Node → Emit Unit → Bool → Emit Unit
while_code c m ends = qbe_new_tmp >>= λ id. emit (label (while_cond id)) >> qbe_expr_val c >>= λ t.
    emit (jnz t (while_body id) (while_end id))
    >> emit (label (while_body id))
    >> in_ctx (loop_ctx id) m
    >> emit_if (not ends) (emit (jmp (while_cond id)))
    >> emit (label (while_end id))

unfoldable pub do_code : Node → Emit Unit → Emit Unit
do_code c m = qbe_new_tmp >>= λ id.
    emit (label (do_body id))
    >> in_ctx (loop_ctx id) m
    >> emit (label (do_cond id))
    >> (qbe_expr_val c >>= λ t. emit (jnz t (do_body id) (do_end id)) >> emit (label (do_end id)))

-- The test of a `for`; without a condition there is none.
unfoldable pub for_test : ℕ → Node → Emit Unit
for_test id no_node = pure tt
for_test id c = qbe_expr_val c >>= λ t. emit (jnz t (for_body id) (for_end id))

unfoldable pub for_code : Node → Node → Node → Emit Unit → Emit Unit
for_code i c p m = qbe_new_tmp >>= λ id.
    optional_expr i
    >> emit (label (for_cond id))
    >> for_test id c
    >> emit (label (for_body id))
    >> in_ctx (loop_ctx id) m
    >> emit (label (for_post id))
    >> optional_expr p
    >> emit (jmp (for_cond id))
    >> emit (label (for_end id))

-- The innermost context leads `break`, the innermost of a loop `continue`.
unfoldable pub break_at : List LoopCtx → Emit Unit
break_at [] = stop break_outside
break_at (c ∷ cs) = emit (jmp (if c.is_switch then switch_end c.break_id else while_end c.break_id))

unfoldable pub break_code : Emit Unit
break_code E = break_at E.qbe_ctx E

unfoldable pub continue_at : List LoopCtx → Emit Unit
continue_at [] = stop continue_outside
continue_at (c ∷ cs) =
    let rest = continue_at cs in if c.is_switch then rest else emit (jmp (while_cond c.continue_id))

unfoldable pub continue_code : Emit Unit
continue_code E = continue_at E.qbe_ctx E

unfoldable pub goto_code : Bytes → Emit Unit
goto_code name = qbe_label_id name >>= λ id. emit (jmp (user_label id))

unfoldable pub label_code : Node → Emit Unit → Emit Unit
label_code n m E = (qbe_label_id (E.label_name n) >>= λ id. emit (label (user_label id)) >> m) E

-- The number of a case among the statements of the body: those behind the first 128 keep the 0 of
-- a new node.
abbrev pub case_number : ℕ → ℕ → ℕ
case_number place number = if ltb place 128 then number else 0

unfoldable mutual
  pub qbe_stmt : Node → Emit Unit
  qbe_stmt no_node = pure tt
  qbe_stmt (compound _ ss) = qbe_stmts ss
  qbe_stmt (expr_stmt _ e) = optional_expr e
  qbe_stmt (var_decl _ id _ t init) = var_init id t init
  qbe_stmt (decl _ _ _) = pure tt
  qbe_stmt (return_stmt _ e) = return_code e
  qbe_stmt (if_stmt _ c m no_node) = if_code c (qbe_stmt m) (ends_in_terminator m) none
  qbe_stmt (if_stmt _ c m e) = if_code c (qbe_stmt m) (ends_in_terminator m) (some (qbe_stmt e))
  qbe_stmt (while_stmt _ c m) = while_code c (qbe_stmt m) (ends_in_terminator m)
  qbe_stmt (do_stmt _ c m) = do_code c (qbe_stmt m)
  qbe_stmt (for_stmt _ i c p m) = for_code i c p (qbe_stmt m)
  qbe_stmt (switch_stmt _ c (compound t ss)) =
      switch_code c (compound t ss) (λ id. qbe_labelled id 0 0 ss)
  qbe_stmt (switch_stmt _ c (case_stmt t v m)) =
      switch_code c (case_stmt t v m) (λ id. emit (label (case_label id 0)) >> qbe_stmt m)
  qbe_stmt (switch_stmt _ c (default_stmt t m)) =
      switch_code c (default_stmt t m) (λ id. emit (label (case_label id 0)) >> qbe_stmt m)
  qbe_stmt (switch_stmt _ c m) = switch_code c m (λ id. qbe_stmt m)
  qbe_stmt (case_stmt _ _ m) = qbe_stmt m
  qbe_stmt (default_stmt _ m) = qbe_stmt m
  qbe_stmt (break_stmt _) = break_code
  qbe_stmt (continue_stmt _) = continue_code
  qbe_stmt (goto_stmt _ name) = goto_code (token_text name)
  qbe_stmt (label_stmt t m) = label_code (label_stmt t m) (qbe_stmt m)
  qbe_stmt _ = stop unsupported_stmt

  pub qbe_stmts : NodeList → Emit Unit
  qbe_stmts nil = pure tt
  qbe_stmts (cons s ss) = qbe_stmt s >> qbe_stmts ss

  -- The body of a switch: a label in front of each case that is a statement of the body itself.
  pub qbe_labelled : ℕ → ℕ → ℕ → NodeList → Emit Unit
  qbe_labelled id place number nil = pure tt
  qbe_labelled id place number (cons (case_stmt _ _ m) ss) =
      emit (label (case_label id (case_number place number)))
      >> qbe_stmt m
      >> qbe_labelled id (suc place) (suc number) ss
  qbe_labelled id place number (cons (default_stmt _ m) ss) =
      emit (label (case_label id (case_number place number)))
      >> qbe_stmt m
      >> qbe_labelled id (suc place) (suc number) ss
  qbe_labelled id place number (cons s ss) = qbe_stmt s >> qbe_labelled id (suc place) number ss
