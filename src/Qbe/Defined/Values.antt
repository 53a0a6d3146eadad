-- ===== src/Qbe/Defined/Values.antt =====
-- The temporaries of `qbe_expr_val` of qbebasedcompiler/src/qbe.c.
use micro_colorschemes.Prelude.{ℕ, refl, []}
use micro_colorschemes.Token.{tok_amp, tok_star}
use micro_colorschemes.Ast.{
  Node, no_node, ident, int_lit, float_lit, char_lit, str_lit, binary, unary, postfix, assign, call,
  index, cast, conditional, comma_expr, NodeList, nil, cons,
}
use micro_colorschemes.Ast.Types.{node_type}
use micro_colorschemes.Qbe.Types.{type_l, type_w}
use micro_colorschemes.Qbe.Code.{copy_int, copy_float, copy_str, copy_var}
use micro_colorschemes.Qbe.Emit.{Emitter, Emit, ◌>>◌}
use micro_colorschemes.Qbe.Expr.{qbe_expr_val, qbe_lvalue_addr, qbe_args}
use micro_colorschemes.Qbe.Defined.{
  read_by_rhs, none_left, one_more, RunDefined, Defines-run, AllAmong-Grows, itself, Defines-bind,
  Defines-pure, Defines-stop, Defines-then, one-among,
}
use micro_colorschemes.Qbe.Defined.Expr.{
  Value, value, Value-at, Value-assign, load-Defines, index-Value, ident-Value, cast-Value,
  deref-Value, Arguments, arguments, Arguments-at, call-Value,
}
use micro_colorschemes.Qbe.Defined.Operators.{
  binary-Value, assign-Value, postfix-Value, conditional-Value,
}

-- The expressions whose unary operators are `&` and `*` alone: for every other unary operator
-- `qbe_expr_val` prints nothing and returns 0.
unfoldable mutual
  pub HasValues : Node → Type 0
  HasValues (cast _ _ e _ _) = HasValues e
  HasValues (index _ _ b i) = HasValues b × HasValues i
  HasValues (unary _ _ e tok_amp) = HasValues e
  HasValues (unary _ _ e tok_star) = HasValues e
  HasValues (unary _ _ _ _) = ⊥
  HasValues (call _ _ f args) = HasValues f × AllHaveValues args
  HasValues (binary _ _ a b _) = HasValues a × HasValues b
  HasValues (assign _ _ a b _) = HasValues a × HasValues b
  HasValues (postfix _ _ e _) = HasValues e
  HasValues (conditional _ _ c x y) = HasValues c × HasValues x × HasValues y
  HasValues (comma_expr _ _ a b) = HasValues a × HasValues b
  HasValues _ = Unit

  pub AllHaveValues : NodeList → Type 0
  AllHaveValues nil = Unit
  AllHaveValues (cons n ns) = HasValues n × AllHaveValues ns

comma-Value : {a b : Emit ℕ} → Value a → Value b → Value (a >> b)
comma-Value ha hb = value (λ C. Defines-then (Value-at ha) (λ t D g k. Value-at hb))

mutual
  unfolding HasValues qbe_expr_val read_by_rhs

  expr-Value : (n : Node) → HasValues n → Value (qbe_expr_val n)
  expr-Value no_node h = value (λ C. Defines-stop _)
  expr-Value (int_lit _ t v _) h = Value-assign _ (copy_int v) refl
  expr-Value (float_lit tok t _) h = Value-assign _ (copy_float tok) refl
  expr-Value (char_lit _ _ v) h = Value-assign type_w (copy_int v) refl
  expr-Value (str_lit _ _ id _) h = Value-assign type_l (copy_str id) refl
  expr-Value (ident _ t id) h = ident-Value id t
  expr-Value (cast _ _ e to _) h = cast-Value to (node_type e) (expr-Value e h)
  expr-Value (index _ t b i) h = value (λ C.
      Defines-bind (Value-at (index-Value (node_type b) (expr-Value b h.0) (expr-Value i h.1)))
        (λ a D g k. load-Defines t (one-among k)))
  expr-Value (unary _ _ e tok_amp) h = lvalue-Value e h
  expr-Value (unary _ t e tok_star) h = deref-Value t (expr-Value e h)
  expr-Value (unary _ _ _ _) h = elim h [ ]
  expr-Value (call _ _ f args) h =
      call-Value (node_type f) (args-Arguments args h.1) (expr-Value f h.0)
  expr-Value (binary _ _ a b op) h =
      binary-Value (expr-Value a h.0) (expr-Value b h.1) op (node_type a) (node_type b)
  expr-Value (assign _ _ a b op) h =
      assign-Value (lvalue-Value a h.0) op (node_type a) (expr-Value b h.1)
  expr-Value (postfix _ _ e op) h = postfix-Value (lvalue-Value e h) op (node_type e)
  expr-Value (conditional _ t c x y) h =
      conditional-Value (expr-Value c h.0) (expr-Value x h.1) (expr-Value y h.2) t
  expr-Value (comma_expr _ _ a b) h = comma-Value (expr-Value a h.0) (expr-Value b h.1)
  expr-Value _ h = value (λ C. Defines-stop _)

  lvalue-Value : (n : Node) → HasValues n → Value (qbe_lvalue_addr n)
  lvalue-Value no_node h = value (λ C. Defines-stop _)
  lvalue-Value (ident _ _ id) h = Value-assign type_l (copy_var id) refl
  lvalue-Value (index _ _ b i) h = index-Value (node_type b) (expr-Value b h.0) (expr-Value i h.1)
  lvalue-Value (unary _ _ e tok_star) h = expr-Value e h
  lvalue-Value _ h = value (λ C. Defines-stop _)

  args-Arguments : (ns : NodeList) → AllHaveValues ns → Arguments (qbe_args ns)
  args-Arguments nil h = arguments (λ C. Defines-pure [] none_left)
  args-Arguments (cons n ns) h = arguments (λ C.
      Defines-bind (Value-at (expr-Value n h.0)) (λ t D g k.
        Defines-bind (Arguments-at (args-Arguments ns h.1))
          (λ ts D' g' k'. Defines-pure _ (one_more (one-among (AllAmong-Grows g' k)) k'))))

-- In the code of an expression whose unary operators are `&` and `*` alone, every line reads only
-- temporaries that a line in front of it assigns, and so is the temporary of the value.
pub qbe_expr_val-IsDefined :
    (n : Node) (E : Emitter) → HasValues n → RunDefined [] itself (qbe_expr_val n E)
qbe_expr_val-IsDefined n E h = Defines-run (Value-at (expr-Value n h)) E
