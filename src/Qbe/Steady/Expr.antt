-- ===== src/Qbe/Steady/Expr.antt =====
-- The expressions of qbebasedcompiler/src/qbe.c leave the stack of loops and count on.
use micro_colorschemes.Prelude.{
  ℕ, Bool, Bool-cases, inl, inr, leb, ltb, ◌&&◌, Option, some, none, List, [], length,
  if◌then◌else◌,
}
use micro_colorschemes.Token.{
  TokenKind, tok_amp, tok_star, tok_andand, tok_oror, tok_plus, tok_minus, tok_eq,
}
use micro_colorschemes.Token.Kinds.{kind_eq}
use micro_colorschemes.Ast.{
  CType, no_type, Node, no_node, ident, int_lit, float_lit, char_lit, str_lit, binary, unary,
  postfix, assign, call, index, cast, conditional, comma_expr, NodeList, nil, cons,
}
use micro_colorschemes.Ast.Types.{kind_of, base_of, node_type}
use micro_colorschemes.Qbe.Types.{QbeType, type_size}
use micro_colorschemes.Qbe.Convert.{is_integer_ty}
use micro_colorschemes.Qbe.Code.{ArithOp, Rhs}
use micro_colorschemes.Qbe.Emit.{Emit}
use micro_colorschemes.Qbe.Expr.{
  qbe_short_circuit, is_address, ident_value, cast_value, is_loaded, deref_value, call_value,
  print_operator, plain_binary, pointer_sum, pointer_difference, plus_value, minus_value,
  binary_value, compound_op, compound_value, assign_value, postfix_value, conditional_value,
  qbe_expr_val, qbe_lvalue_addr, qbe_args,
}
use micro_colorschemes.Qbe.Memory.{
  qbe_load_from_addr, qbe_store_to_addr, scaled, qbe_scale, index_address, is_pointer_ty,
}
use micro_colorschemes.Qbe.Steady.{
  Steady, Steady-bind, Steady-then, Steady-pure, Steady-stop, Steady-emit, Steady-new_tmp,
  Steady-assign_new,
}

-- Either branch of a test.
pub Steady-if :
    {A : Type 0} (b : Bool) {m n : Emit A} → Steady m → Steady n → Steady (if b then m else n)
Steady-if b hm hn = elim (Bool-cases b) [ inl e ↦ rw e hm | inr e ↦ rw e hn ]

load-Steady : (addr : ℕ) (t : CType) → Steady (qbe_load_from_addr addr t)
unfolding qbe_load_from_addr
load-Steady addr t = Steady-assign_new _ _

pub store-Steady : (addr src : ℕ) (t : CType) → Steady (qbe_store_to_addr addr src t)
unfolding qbe_store_to_addr
store-Steady addr src t = Steady-emit _

scaled-Steady : (v size : ℕ) → Steady (scaled v size)
unfolding scaled
scaled-Steady v size =
    Steady-if (leb size 1) (Steady-pure v)
      (Steady-bind (Steady-assign_new _ _) (λ c. Steady-assign_new _ _))

scale-Steady : (v : ℕ) (t : CType) → Steady (qbe_scale v t)
unfolding qbe_scale
scale-Steady v no_type = Steady-pure v
scale-Steady v t = scaled-Steady v (type_size t)

ident-Steady : (id : ℕ) (t : CType) → Steady (ident_value id t)
unfolding ident_value
ident-Steady id t =
    Steady-if (is_address t) (Steady-assign_new _ _)
      (Steady-bind (Steady-assign_new _ _) (λ a. load-Steady a t))

print_operator-Steady :
    (op : TokenKind) (line : Option (QbeType × Rhs)) → Steady (print_operator op line)
unfolding print_operator
print_operator-Steady op none = Steady-stop _
print_operator-Steady op (some line) = Steady-assign_new _ _

compound-Steady :
    (op : Option ArithOp) (t : CType) (addr v : ℕ) → Steady (compound_value op t addr v)
unfolding compound_value
compound-Steady none t addr v = Steady-stop _
compound-Steady (some op) t addr v = Steady-bind (load-Steady addr t) (λ cur. Steady-assign_new _ _)

pointer_sum-Steady : (p i : ℕ) (t : CType) → Steady (pointer_sum p i t)
unfolding pointer_sum
pointer_sum-Steady p i t = Steady-bind (scale-Steady i _) (λ s. Steady-assign_new _ _)

module _ {a : Emit ℕ} (ha : Steady a) where
  cast-Steady : (to from : CType) → Steady (cast_value a to from)
  unfolding cast_value
  cast-Steady to from = Steady-bind ha (λ src. Steady-assign_new _ _)

  deref-Steady : (t : CType) → Steady (deref_value a t)
  unfolding deref_value
  deref-Steady t = Steady-if (is_loaded t) (Steady-bind ha (λ addr. load-Steady addr t)) ha

  call-Steady :
      {args : Emit (List (QbeType × ℕ))} (t : CType) → Steady args → Steady (call_value args a t)
  unfolding call_value
  call-Steady t hs = Steady-bind hs (λ ts.
      Steady-if (ltb 32 (length ts)) (Steady-stop _) (Steady-bind ha (λ f. Steady-assign_new _ _)))

  postfix-Steady : (op : TokenKind) (t : CType) → Steady (postfix_value op t a)
  unfolding postfix_value
  postfix-Steady op t = Steady-bind ha (λ addr. Steady-bind (load-Steady addr t) (λ v.
      Steady-bind (Steady-assign_new _ _) (λ u.
        Steady-bind (Steady-assign_new _ _)
          (λ w. Steady-then (store-Steady addr w _) (Steady-pure v)))))

module _ {a b : Emit ℕ} (ha : Steady a) (hb : Steady b) where
  index-Steady : (t : CType) → Steady (index_address a b t)
  unfolding index_address
  index-Steady t =
      Steady-bind ha
        (λ x. Steady-bind hb (λ i. Steady-bind (scaled-Steady i _) (λ s. Steady-assign_new _ _)))

  short_circuit-Steady : (is_and : Bool) → Steady (qbe_short_circuit is_and a b)
  unfolding qbe_short_circuit
  short_circuit-Steady is_and = Steady-bind Steady-new_tmp (λ id. Steady-bind Steady-new_tmp (λ t.
      Steady-bind ha (λ l.
        Steady-then (Steady-then (Steady-then (Steady-emit _) (Steady-emit _)) (Steady-emit _)) (
          Steady-bind hb (λ r.
            Steady-bind (Steady-assign_new _ _)
              (λ c. Steady-then (Steady-then (Steady-emit _) (Steady-emit _)) (Steady-pure t)))))))

  plain-Steady : (op : TokenKind) (t : CType) → Steady (plain_binary op t a b)
  unfolding plain_binary
  plain-Steady op t = Steady-bind ha (λ l. Steady-bind hb (λ r. print_operator-Steady op _))

  pointer_difference-Steady : (t : CType) → Steady (pointer_difference t a b)
  unfolding pointer_difference
  pointer_difference-Steady t = Steady-bind ha (λ l. Steady-bind hb (λ r.
      Steady-bind (Steady-assign_new _ _) (λ d.
        Steady-if (ltb 1 (type_size (base_of t)))
          (Steady-bind (Steady-assign_new _ _) (λ c. Steady-assign_new _ _)) (Steady-pure d))))

  plus-Steady : (t u : CType) → Steady (plus_value t u a b)
  unfolding plus_value
  plus-Steady t u =
      Steady-if (is_pointer_ty t && is_integer_ty (kind_of u))
        (Steady-bind ha (λ l. Steady-bind hb (λ r. pointer_sum-Steady l r t)))
        (Steady-if (is_pointer_ty u && is_integer_ty (kind_of t))
          (Steady-bind ha (λ l. Steady-bind hb (λ r. pointer_sum-Steady r l u)))
          (plain-Steady tok_plus t))

  minus-Steady : (t u : CType) → Steady (minus_value t u a b)
  unfolding minus_value
  minus-Steady t u =
      Steady-if (is_pointer_ty t && is_pointer_ty u) (pointer_difference-Steady t)
        (plain-Steady tok_minus t)

  binary-Steady : (op : TokenKind) (t u : CType) → Steady (binary_value op t u a b)
  unfolding binary_value
  binary-Steady tok_andand t u = short_circuit-Steady _
  binary-Steady tok_oror t u = short_circuit-Steady _
  binary-Steady tok_plus t u = plus-Steady t u
  binary-Steady tok_minus t u = minus-Steady t u
  binary-Steady op t u = plain-Steady op t

  assign-Steady : (op : TokenKind) (t : CType) → Steady (assign_value op t a b)
  unfolding assign_value
  assign-Steady op t = Steady-bind ha (λ addr. Steady-bind hb (λ v.
      Steady-bind
        (Steady-if (kind_eq op tok_eq) (Steady-pure v) (compound-Steady (compound_op op) t addr v))
        (λ w. Steady-then (store-Steady addr w t) (Steady-pure w))))

  conditional-Steady : {c : Emit ℕ} (t : CType) → Steady c → Steady (conditional_value t c a b)
  unfolding conditional_value
  conditional-Steady t hc = Steady-bind hc (λ test. Steady-bind Steady-new_tmp (λ id.
      Steady-bind Steady-new_tmp (λ res. Steady-then (Steady-then (Steady-emit _) (Steady-emit _)) (
        Steady-bind ha (λ x.
          Steady-then (Steady-then (Steady-then (Steady-emit _) (Steady-emit _)) (Steady-emit _)) (
            Steady-bind hb (λ y.
              Steady-then (Steady-then (Steady-emit _) (Steady-emit _)) (Steady-pure res))))))))

mutual
  unfolding qbe_expr_val

  pub expr-Steady : (n : Node) → Steady (qbe_expr_val n)
  expr-Steady no_node = Steady-stop _
  expr-Steady (int_lit _ t v _) = Steady-assign_new _ _
  expr-Steady (float_lit tok t _) = Steady-assign_new _ _
  expr-Steady (char_lit _ _ v) = Steady-assign_new _ _
  expr-Steady (str_lit _ _ id _) = Steady-assign_new _ _
  expr-Steady (ident _ t id) = ident-Steady id t
  expr-Steady (cast _ _ e to _) = cast-Steady (expr-Steady e) to (node_type e)
  expr-Steady (index _ t b i) =
      Steady-bind (index-Steady (expr-Steady b) (expr-Steady i) _) (λ addr. load-Steady addr t)
  expr-Steady (unary _ _ e tok_amp) = lvalue-Steady e
  expr-Steady (unary _ t e tok_star) = deref-Steady (expr-Steady e) t
  expr-Steady (unary _ _ _ _) = Steady-pure 0
  expr-Steady (call _ _ f args) = call-Steady (expr-Steady f) (node_type f) (args-Steady args)
  expr-Steady (binary _ _ a b op) = binary-Steady (expr-Steady a) (expr-Steady b) op _ _
  expr-Steady (assign _ _ a b op) = assign-Steady (lvalue-Steady a) (expr-Steady b) op _
  expr-Steady (postfix _ _ e op) = postfix-Steady (lvalue-Steady e) op _
  expr-Steady (conditional _ t c x y) =
      conditional-Steady (expr-Steady x) (expr-Steady y) t (expr-Steady c)
  expr-Steady (comma_expr _ _ a b) = Steady-then (expr-Steady a) (expr-Steady b)
  expr-Steady _ = Steady-stop _

  lvalue-Steady : (n : Node) → Steady (qbe_lvalue_addr n)
  lvalue-Steady no_node = Steady-stop _
  lvalue-Steady (ident _ _ id) = Steady-assign_new _ _
  lvalue-Steady (index _ _ b i) = index-Steady (expr-Steady b) (expr-Steady i) _
  lvalue-Steady (unary _ _ e tok_star) = expr-Steady e
  lvalue-Steady _ = Steady-stop _

  args-Steady : (ns : NodeList) → Steady (qbe_args ns)
  args-Steady nil = Steady-pure []
  args-Steady (cons n ns) =
      Steady-bind (expr-Steady n) (λ t. Steady-bind (args-Steady ns) (λ ts. Steady-pure _))
