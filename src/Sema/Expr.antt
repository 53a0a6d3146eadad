-- ===== src/Sema/Expr.antt =====
-- `sema_expr` of qbebasedcompiler/src/sema.c: it returns the type of an expression, and the node
-- with what the source writes into it: its `type`, its `sym_id` and the casts put in.
pub mod Laws
pub mod Typing
use micro_colorschemes.Prelude.{
  ℕ, ◌+◌, Bool, true, false, not, ◌&&◌, ◌||◌, Bytes, Option, none, some, if◌then◌else◌, length,
  take,
}
use micro_colorschemes.Token.{
  token_text, Token, TokenKind, tok_lt, tok_gt, tok_leq, tok_geq, tok_eqeq, tok_neq, tok_andand,
  tok_oror, tok_shl, tok_shr, tok_minus, tok_plus, tok_tilde, tok_amp, tok_star, tok_bang,
}
use micro_colorschemes.Ast.{
  ty_kind_ptr, ty_kind_func, ty_char, ty_int, ty_long, ty_ulong, ty_double, CType, no_type, scalar,
  ptr, array, Node, no_node, ident, int_lit, float_lit, char_lit, str_lit, binary, unary, postfix,
  assign, call, index, member, cast, sizeof_expr, conditional, comma_expr, param, NodeList, nil,
  cons,
}
use micro_colorschemes.Ast.Types.{
  kind_of, base_of, params_of, is_null, same_kind, node_type, node_tok,
}
use micro_colorschemes.Sema.Scopes.{Symbol, Sema, sema_lookup}
use micro_colorschemes.Sema.Convert.{
  is_integer, is_pointer, promote_integer, usual_arith, fits_type, make_cast,
}
use micro_colorschemes.Sema.Monad.{
  SemaError, undeclared_identifier, subscript_of_non_pointer, call_of_non_function,
  deref_of_non_pointer, unsupported_expression, M, ◌>>=◌, ◌>>◌, pure, fail, fresh, decay_m,
}

-- The type of an expression and its node.
abbrev pub Typed : Type 0
Typed = CType × Node

-- `t ? t : u`.
abbrev pub or_type : CType → CType → CType
or_type t u = if is_null t then u else t

-- The operators whose result is an `int`, whatever the operands.
abbrev pub is_test_op : TokenKind → Bool
is_test_op tok_lt = true
is_test_op tok_gt = true
is_test_op tok_leq = true
is_test_op tok_geq = true
is_test_op tok_eqeq = true
is_test_op tok_neq = true
is_test_op tok_andand = true
is_test_op tok_oror = true
is_test_op _ = false

abbrev pub is_shift_op : TokenKind → Bool
is_shift_op tok_shl = true
is_shift_op tok_shr = true
is_shift_op _ = false

abbrev pub is_minus_op : TokenKind → Bool
is_minus_op tok_minus = true
is_minus_op _ = false

-- A binary node of type `t`.
abbrev pub typed_binary : Token → TokenKind → CType → Node → Node → Typed
typed_binary tok op t l r = (t, binary tok t l r op)

-- `case NODE_BINARY` on operands with the decayed types `lt` and `rt`: first the operators on
-- numbers, then the whole.
unfoldable pub arith_binary : Token → TokenKind → CType → CType → Node → Node → Typed
arith_binary tok op lt rt l r =
    let common = usual_arith lt rt in
    if is_test_op op
    then typed_binary tok op (scalar ty_int) (make_cast l common) (make_cast r common)
    else if is_shift_op op
    then typed_binary tok op (promote_integer lt) (make_cast l (promote_integer lt)) r
    else typed_binary tok op common (make_cast l common) (make_cast r common)

unfoldable pub type_binary : Token → TokenKind → CType → CType → Node → Node → Typed
unfolding arith_binary
type_binary tok op lt rt l r =
    if is_pointer lt && is_integer rt
    then typed_binary tok op lt l r
    else if is_integer lt && is_pointer rt
    then typed_binary tok op rt l r
    else if is_pointer lt && is_pointer rt
    then typed_binary tok op (scalar (if is_minus_op op then ty_long else ty_int)) l r
    else arith_binary tok op lt rt l r

-- A dereference of type `t`, decayed to `pt`.
abbrev pub type_deref : Token → CType → Node → M Typed
type_deref tok pt n =
    if is_pointer pt
    then pure (base_of pt, unary tok (base_of pt) n tok_star)
    else fail (deref_of_non_pointer tok)

-- `case NODE_UNARY` on an operand `n` of type `t`.
unfoldable pub type_unary : Token → TokenKind → CType → Node → M Typed
type_unary tok tok_amp t n = do id ← fresh; pure (ptr id t, unary tok (ptr id t) n tok_amp)
type_unary tok tok_star t n = do pt ← decay_m t; type_deref tok pt n
type_unary tok tok_bang t n = pure (scalar ty_int, unary tok (scalar ty_int) n tok_bang)
type_unary tok tok_minus t n =
    pure
      (promote_integer t, unary tok (promote_integer t) (make_cast n (promote_integer t)) tok_minus)
type_unary tok tok_plus t n =
    pure
      (promote_integer t, unary tok (promote_integer t) (make_cast n (promote_integer t)) tok_plus)
type_unary tok tok_tilde t n =
    pure
      (promote_integer t, unary tok (promote_integer t) (make_cast n (promote_integer t)) tok_tilde)
type_unary tok op t n = pure (t, unary tok t n op)

-- Can a value of this type be called: a function, or a pointer to one?
abbrev pub is_callable : CType → Bool
is_callable ft =
    same_kind (kind_of ft) ty_kind_func
    || same_kind (kind_of ft) ty_kind_ptr && same_kind (kind_of (base_of ft)) ty_kind_func

abbrev pub called_type : CType → CType
called_type ft = if same_kind (kind_of ft) ty_kind_ptr then base_of ft else ft

abbrev pub type_conditional : Token → CType → CType → Node → Node → Node → Typed
type_conditional tok a b c x y =
    let common = if is_pointer a || is_pointer b then a else usual_arith a b in
    (common, conditional tok common c (make_cast x common) (make_cast y common))

-- A subscript whose base has the decayed type `pt`.
abbrev pub type_index : Token → CType → Node → Node → M Typed
type_index tok pt b i =
    if is_pointer pt
    then pure (base_of pt, index tok (base_of pt) b i)
    else fail (subscript_of_non_pointer tok)

-- The type of a call of a value of type `ft`.
abbrev pub call_type : CType → CType
call_type ft = or_type (base_of (called_type ft)) (scalar ty_int)

-- A call goes on to its arguments only if the callee can be called.
abbrev pub check_callable : Token → CType → M NodeList → M NodeList
check_callable tok ft m = if is_callable ft then m else fail (call_of_non_function tok)

-- An identifier, bound or not.
abbrev pub type_ident : Token → Option Symbol → M Typed
type_ident tok (some sym) = pure (sym.type, ident tok sym.type sym.qbe_id)
type_ident tok none = fail (undeclared_identifier tok)

-- The loop over the arguments goes on, or stops and leaves the rest as it is.
abbrev pub args_after : Bool → Node → NodeList → M NodeList → M NodeList
args_after true a rest m = pure (cons a rest)
args_after false a rest m = m >>= λ rest'. pure (cons a rest')

-- Is the parameter's type one that an argument of this type would be cast to? Then `a` becomes the
-- new cast, whose `next` is NULL.
abbrev pub cast_stops : CType → Node → Bool
cast_stops from (param _ _ to _) = not (fits_type from to)
cast_stops from _ = false

abbrev pub next_param : NodeList → NodeList
next_param (cons (param tok id t name) ps) = ps
next_param ps = ps

abbrev pub first_node : NodeList → Node
first_node nil = no_node
first_node (cons p ps) = p

unfoldable mutual
  pub sema_expr : Node → M Typed
  sema_expr no_node = pure (scalar ty_int, no_node)
  sema_expr (int_lit tok t v u) = pure (or_type t (scalar ty_int), int_lit tok t v u)
  sema_expr (float_lit tok t f) = pure (or_type t (scalar ty_double), float_lit tok t f)
  sema_expr (char_lit tok t v) = pure (scalar ty_int, char_lit tok (scalar ty_int) v)
  sema_expr (str_lit tok t sid text) = do
    id ← fresh
    let arr = array id (scalar ty_char) (length text + 1)
    pure (arr, str_lit tok arr sid text)
  sema_expr (ident tok t id) = λ S. type_ident tok (sema_lookup S (token_text tok)) S
  sema_expr (cast tok t e to implicit) = do
    (_, e') ← sema_expr e
    pure (to, cast tok to e' to implicit)
  sema_expr (index tok t b i) = do
    (bt, b') ← sema_expr b
    pt ← decay_m bt
    (_, i') ← sema_expr i
    type_index tok pt b' i'
  sema_expr (call tok t f args) = do
    (ft, f') ← sema_expr f
    args' ← check_callable tok ft (sema_args args (params_of (called_type ft)))
    pure (call_type ft, call tok (call_type ft) f' args')
  sema_expr (member tok t b field arrow) = do
    (_, b') ← sema_expr b
    pure (scalar ty_int, member tok (scalar ty_int) b' field arrow)
  sema_expr (unary tok t e op) = do (et, e') ← sema_expr e; type_unary tok op et e'
  sema_expr (postfix tok t e op) = do (et, e') ← sema_expr e; pure (et, postfix tok et e' op)
  sema_expr (binary tok t l r op) = do
    (lt, l') ← sema_expr l
    lt' ← decay_m lt
    (rt, r') ← sema_expr r
    rt' ← decay_m rt
    pure (type_binary tok op lt' rt' l' r')
  sema_expr (assign tok t l r op) = do
    (lt, l') ← sema_expr l
    (_, r') ← sema_expr r
    pure (lt, assign tok lt l' (make_cast r' lt) op)
  sema_expr (conditional tok t c x y) = do
    (_, c') ← sema_expr c
    (xt, x') ← sema_expr x
    a ← decay_m xt
    (yt, y') ← sema_expr y
    b ← decay_m yt
    pure (type_conditional tok a b c' x' y')
  sema_expr (comma_expr tok t l r) = do
    (_, l') ← sema_expr l
    (rt, r') ← sema_expr r
    pure (rt, comma_expr tok rt l' r')
  sema_expr (sizeof_expr tok t e) = do
    (_, e') ← sema_expr e
    pure (scalar ty_ulong, sizeof_expr tok (scalar ty_ulong) e')
  sema_expr n = fail (unsupported_expression (node_tok n))

  -- The loop over the arguments `a` and the parameters `p` of a call. Where `make_cast` makes a
  -- cast, the loop goes on from the cast, behind which no argument stands; the list of the call is
  -- left as it is.
  pub sema_args : NodeList → NodeList → M NodeList
  sema_args nil ps = pure nil
  sema_args (cons a rest) ps = do
    (at, a') ← sema_expr a
    _ ← decay_m at
    args_after (cast_stops (node_type a') (first_node ps)) a' rest (sema_args rest (next_param ps))
