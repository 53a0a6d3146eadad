-- ===== src/Qbe/Expr.antt =====
-- The expressions of qbebasedcompiler/src/qbe.c: `qbe_expr_val`, `qbe_lvalue_addr` and the functions
-- that they call. A function takes the code of the operands that it prints.
use micro_colorschemes.Prelude.{
  ℕ, Bool, true, false, not, ◌&&◌, ◌||◌, ltb, Option, some, none, List, [], ◌∷◌, length,
  if◌then◌else◌,
}
use micro_colorschemes.Token.{
  TokenKind, tok_eq, tok_pluseq, tok_minuseq, tok_stareq, tok_slasheq, tok_percenteq, tok_shleq,
  tok_shreq, tok_andeq, tok_xoreq, tok_oreq, tok_plus, tok_minus, tok_star, tok_slash, tok_percent,
  tok_amp, tok_pipe, tok_caret, tok_shl, tok_shr, tok_lt, tok_gt, tok_leq, tok_geq, tok_eqeq,
  tok_neq, tok_andand, tok_oror, tok_plusplus,
}
use micro_colorschemes.Token.Kinds.{kind_eq}
use micro_colorschemes.Ast.{
  ty_kind_void, ty_kind_array, ty_kind_func, ty_int, ty_double, CType, scalar, Node, no_node, ident,
  int_lit, float_lit, char_lit, str_lit, binary, unary, postfix, assign, call, index, cast,
  conditional, comma_expr, NodeList, nil, cons,
}
use micro_colorschemes.Ast.Types.{kind_of, is_unsigned, base_of, node_type, same_kind, is_null}
use micro_colorschemes.Qbe.Types.{QbeType, type_w, type_l, type_size}
use micro_colorschemes.Qbe.Convert.{copy, is_floating_ty, is_integer_ty, qbe_convert}
use micro_colorschemes.Qbe.Code.{
  sc_rhs, sc_end, cond_then, cond_else, cond_end, ArithOp, op_add, op_sub, op_mul, op_div, op_rem,
  op_and, op_or, op_xor, op_shl, op_shr, CompareOp, clt, cslt, cgt, csgt, cle, csle, cge, csge, ceq,
  cne, Rhs, copy_int, copy_float, copy_str, copy_var, convert, arith_op, compare, not_zero, call_of,
  assign_to, jnz, jmp, label,
}
use micro_colorschemes.Qbe.Emit.{
  Emit, ◌>>=◌, ◌>>◌, pure, stop, emit, qbe_new_tmp, assign_new, not_an_lvalue, null_node,
  too_many_arguments, unsupported_expr, bad_compound_op, unsupported_binary,
}
use micro_colorschemes.Qbe.Memory.{
  type_or, class_of, is_pointer_ty, qbe_load_from_addr, qbe_store_to_addr, qbe_scale, index_address,
}

unfoldable pub qbe_short_circuit : Bool → Emit ℕ → Emit ℕ → Emit ℕ
qbe_short_circuit is_and lhs rhs = qbe_new_tmp >>= λ id. qbe_new_tmp >>= λ t. lhs >>= λ l.
    emit (assign_to t type_w (copy_int (if is_and then 0 else 1)))
    >> emit (if is_and then jnz l (sc_rhs id) (sc_end id) else jnz l (sc_end id) (sc_rhs id))
    >> emit (label (sc_rhs id))
    >> (rhs >>= λ r. assign_new type_w (not_zero r) >>= λ rc.
        emit (assign_to t type_w (convert copy rc)) >> emit (label (sc_end id)) >> pure t)

-- A function and an array are not loaded.
abbrev pub is_address : CType → Bool
is_address t = same_kind (kind_of t) ty_kind_func || same_kind (kind_of t) ty_kind_array

unfoldable pub ident_value : ℕ → CType → Emit ℕ
ident_value id t =
    if is_address t
    then assign_new type_l (copy_var id)
    else (assign_new type_l (copy_var id) >>= λ addr. qbe_load_from_addr addr t)

unfoldable pub cast_value : Emit ℕ → CType → CType → Emit ℕ
cast_value e t_to t_from = e >>= λ src.
    let from = type_or t_from ty_int in
    let c = qbe_convert (kind_of (type_or t_to ty_int)) (kind_of from) (is_unsigned from) in
    assign_new c.0 (convert c.1 src)

-- Is a unary `*` a load?
abbrev pub is_loaded : CType → Bool
is_loaded t = not (is_null t) && not (same_kind (kind_of t) ty_kind_void)

unfoldable pub deref_value : Emit ℕ → CType → Emit ℕ
deref_value e t = if is_loaded t then (e >>= λ addr. qbe_load_from_addr addr t) else e

-- The type that a callee returns.
abbrev pub call_type : CType → CType
call_type t =
    let ft = if is_pointer_ty t then base_of t else t in
    if same_kind (kind_of ft) ty_kind_func then base_of ft else scalar ty_int

unfoldable pub call_value : Emit (List (QbeType × ℕ)) → Emit ℕ → CType → Emit ℕ
call_value args callee t = args >>= λ ts.
    if ltb 32 (length ts)
    then stop too_many_arguments
    else (callee >>= λ cf. assign_new (class_of (call_type t)) (call_of cf ts))

-- The line of an operator on operands of the type `t`.
abbrev pub comparison : CType → CompareOp → CompareOp → ℕ → ℕ → Option (QbeType × Rhs)
comparison t floating signed l r =
    some
      (type_w, compare (if is_floating_ty (kind_of t) then floating else signed) (class_of t) l r)

abbrev pub arithmetic : CType → ArithOp → ℕ → ℕ → Option (QbeType × Rhs)
arithmetic t op l r = some (class_of t, arith_op op l r)

unfoldable pub operator_line : TokenKind → CType → ℕ → ℕ → Option (QbeType × Rhs)
operator_line tok_plus t = arithmetic t op_add
operator_line tok_minus t = arithmetic t op_sub
operator_line tok_star t = arithmetic t op_mul
operator_line tok_slash t = arithmetic t op_div
operator_line tok_percent t = arithmetic t op_rem
operator_line tok_amp t = arithmetic t op_and
operator_line tok_pipe t = arithmetic t op_or
operator_line tok_caret t = arithmetic t op_xor
operator_line tok_shl t = arithmetic t op_shl
operator_line tok_shr t = arithmetic t op_shr
operator_line tok_lt t = comparison t clt cslt
operator_line tok_gt t = comparison t cgt csgt
operator_line tok_leq t = comparison t cle csle
operator_line tok_geq t = comparison t cge csge
operator_line tok_eqeq t = comparison t ceq ceq
operator_line tok_neq t = comparison t cne cne
operator_line _ t = λ l r. none

unfoldable pub print_operator : TokenKind → Option (QbeType × Rhs) → Emit ℕ
print_operator op none = stop (unsupported_binary op)
print_operator op (some line) = assign_new line.0 line.1

unfoldable pub plain_binary : TokenKind → CType → Emit ℕ → Emit ℕ → Emit ℕ
plain_binary op lt lhs rhs =
    lhs >>= λ l. rhs >>= λ r. print_operator op (operator_line op (type_or lt ty_int) l r)

-- The sum of a pointer `p` and the scaled `i`.
unfoldable pub pointer_sum : ℕ → ℕ → CType → Emit ℕ
pointer_sum p i t = qbe_scale i (base_of t) >>= λ s. assign_new type_l (arith_op op_add p s)

unfoldable pub pointer_difference : CType → Emit ℕ → Emit ℕ → Emit ℕ
pointer_difference lt lhs rhs = lhs >>= λ l. rhs >>= λ r.
    assign_new type_l (arith_op op_sub l r) >>= λ t.
    if ltb 1 (type_size (base_of lt))
    then (assign_new type_l (copy_int (type_size (base_of lt))) >>= λ c.
        assign_new type_l (arith_op op_div t c))
    else pure t

unfoldable pub plus_value : CType → CType → Emit ℕ → Emit ℕ → Emit ℕ
plus_value lt rt lhs rhs =
    if is_pointer_ty lt && is_integer_ty (kind_of rt)
    then (lhs >>= λ l. rhs >>= λ r. pointer_sum l r lt)
    else if is_pointer_ty rt && is_integer_ty (kind_of lt)
    then (lhs >>= λ l. rhs >>= λ r. pointer_sum r l rt)
    else plain_binary tok_plus lt lhs rhs

unfoldable pub minus_value : CType → CType → Emit ℕ → Emit ℕ → Emit ℕ
minus_value lt rt lhs rhs =
    if is_pointer_ty lt && is_pointer_ty rt
    then pointer_difference lt lhs rhs
    else plain_binary tok_minus lt lhs rhs

-- `case NODE_BINARY`.
unfoldable pub binary_value : TokenKind → CType → CType → Emit ℕ → Emit ℕ → Emit ℕ
binary_value tok_andand lt rt lhs rhs = qbe_short_circuit true lhs rhs
binary_value tok_oror lt rt lhs rhs = qbe_short_circuit false lhs rhs
binary_value tok_plus lt rt lhs rhs = plus_value lt rt lhs rhs
binary_value tok_minus lt rt lhs rhs = minus_value lt rt lhs rhs
binary_value op lt rt lhs rhs = plain_binary op lt lhs rhs

unfoldable pub compound_op : TokenKind → Option ArithOp
compound_op tok_pluseq = some op_add
compound_op tok_minuseq = some op_sub
compound_op tok_stareq = some op_mul
compound_op tok_slasheq = some op_div
compound_op tok_percenteq = some op_rem
compound_op tok_andeq = some op_and
compound_op tok_oreq = some op_or
compound_op tok_xoreq = some op_xor
compound_op tok_shleq = some op_shl
compound_op tok_shreq = some op_shr
compound_op _ = none

-- The value to store; a compound assignment loads the old one.
unfoldable pub compound_value : Option ArithOp → CType → ℕ → ℕ → Emit ℕ
compound_value none lt addr v = stop bad_compound_op
compound_value (some op) lt addr v =
    qbe_load_from_addr addr lt >>= λ cur. assign_new (class_of lt) (arith_op op cur v)

unfoldable pub assign_value : TokenKind → CType → Emit ℕ → Emit ℕ → Emit ℕ
assign_value op lt lhs_addr rhs = lhs_addr >>= λ addr. rhs >>= λ v.
    (if kind_eq op tok_eq then pure v else compound_value (compound_op op) lt addr v) >>= λ w.
    qbe_store_to_addr addr w lt >> pure w

-- `case NODE_POSTFIX`, whose value is the old one.
unfoldable pub postfix_value : TokenKind → CType → Emit ℕ → Emit ℕ
postfix_value op t operand_addr = operand_addr >>= λ addr. qbe_load_from_addr addr t >>= λ v.
    assign_new (class_of (type_or t ty_int)) (copy_int 1) >>= λ one.
    assign_new (class_of (type_or t ty_int))
      (arith_op (if kind_eq op tok_plusplus then op_add else op_sub) v one)
    >>= λ w. qbe_store_to_addr addr w (type_or t ty_int) >> pure v

unfoldable pub conditional_value : CType → Emit ℕ → Emit ℕ → Emit ℕ → Emit ℕ
conditional_value t c x y =
    let tp = class_of (type_or t ty_int) in
    c >>= λ test. qbe_new_tmp >>= λ id. qbe_new_tmp >>= λ res.
    emit (jnz test (cond_then id) (cond_else id))
    >> emit (label (cond_then id))
    >> (x >>= λ a.
        emit (assign_to res tp (convert copy a))
        >> emit (jmp (cond_end id))
        >> emit (label (cond_else id))
        >> (y >>= λ b.
            emit (assign_to res tp (convert copy b)) >> emit (label (cond_end id)) >> pure res))

-- An operator other than `&` and `*` falls through to `return 0`, and prints nothing.
unfoldable mutual
  pub qbe_expr_val : Node → Emit ℕ
  qbe_expr_val no_node = stop null_node
  qbe_expr_val (int_lit _ t v _) = assign_new (class_of (type_or t ty_int)) (copy_int v)
  qbe_expr_val (float_lit tok t _) = assign_new (class_of (type_or t ty_double)) (copy_float tok)
  qbe_expr_val (char_lit _ _ v) = assign_new type_w (copy_int v)
  qbe_expr_val (str_lit _ _ id _) = assign_new type_l (copy_str id)
  qbe_expr_val (ident _ t id) = ident_value id t
  qbe_expr_val (cast _ _ e to _) = cast_value (qbe_expr_val e) to (node_type e)
  qbe_expr_val (index _ t b i) =
      index_address (qbe_expr_val b) (qbe_expr_val i) (node_type b) >>= λ addr.
      qbe_load_from_addr addr t
  qbe_expr_val (unary _ _ e tok_amp) = qbe_lvalue_addr e
  qbe_expr_val (unary _ t e tok_star) = deref_value (qbe_expr_val e) t
  qbe_expr_val (unary _ _ _ _) = pure 0
  qbe_expr_val (call _ _ f args) = call_value (qbe_args args) (qbe_expr_val f) (node_type f)
  qbe_expr_val (binary _ _ a b op) =
      binary_value op (node_type a) (node_type b) (qbe_expr_val a) (qbe_expr_val b)
  qbe_expr_val (assign _ _ a b op) =
      assign_value op (node_type a) (qbe_lvalue_addr a) (qbe_expr_val b)
  qbe_expr_val (postfix _ _ e op) = postfix_value op (node_type e) (qbe_lvalue_addr e)
  qbe_expr_val (conditional _ t c x y) =
      conditional_value t (qbe_expr_val c) (qbe_expr_val x) (qbe_expr_val y)
  qbe_expr_val (comma_expr _ _ a b) = qbe_expr_val a >> qbe_expr_val b
  qbe_expr_val _ = stop unsupported_expr

  pub qbe_lvalue_addr : Node → Emit ℕ
  qbe_lvalue_addr no_node = stop null_node
  qbe_lvalue_addr (ident _ _ id) = assign_new type_l (copy_var id)
  qbe_lvalue_addr (index _ _ b i) = index_address (qbe_expr_val b) (qbe_expr_val i) (node_type b)
  qbe_lvalue_addr (unary _ _ e tok_star) = qbe_expr_val e
  qbe_lvalue_addr _ = stop not_an_lvalue

  -- The loop over the arguments of a call.
  pub qbe_args : NodeList → Emit (List (QbeType × ℕ))
  qbe_args nil = pure []
  qbe_args (cons n ns) = qbe_expr_val n >>= λ t.
      qbe_args ns >>= λ ts. pure ((class_of (type_or (node_type n) ty_int), t) ∷ ts)
