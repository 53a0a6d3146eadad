-- ===== src/Qbe/Defined/Operators.antt =====
-- The temporaries of the operators of qbebasedcompiler/src/qbe.c.
use micro_colorschemes.Prelude.{
  ℕ, Bool, true, false, Bool-cases, inl, inr, ltb, ◌&&◌, Option, some, none, List, if◌then◌else◌,
}
use micro_colorschemes.Token.{
  TokenKind, tok_amp, tok_star, tok_andand, tok_oror, tok_plus, tok_minus, tok_eq, tok_slash,
  tok_percent, tok_pipe, tok_caret, tok_shl, tok_shr, tok_lt, tok_gt, tok_leq, tok_geq, tok_eqeq,
  tok_neq,
}
use micro_colorschemes.Token.Kinds.{kind_eq}
use micro_colorschemes.Ast.{CType}
use micro_colorschemes.Ast.Types.{kind_of, base_of}
use micro_colorschemes.Qbe.Types.{type_w, type_size}
use micro_colorschemes.Qbe.Convert.{is_integer_ty}
use micro_colorschemes.Qbe.Code.{Label, jnz, jmp, label, ArithOp, copy_int, not_zero}
use micro_colorschemes.Qbe.Emit.{Emit, emit, pure}
use micro_colorschemes.Qbe.Expr.{
  qbe_short_circuit, operator_line, print_operator, plain_binary, pointer_sum, pointer_difference,
  plus_value, minus_value, binary_value, compound_op, compound_value, assign_value, postfix_value,
  conditional_value,
}
use micro_colorschemes.Qbe.Memory.{is_pointer_ty}
use micro_colorschemes.Qbe.Defined.{
  read_by_rhs, read_by, Among, none_left, Defines, Among-Grows, AllAmong-Grows, Grows-trans, itself,
  no_temporary, Defines-bind, Defines-pure, Defines-stop, Defines-emit, Defines-new_tmp,
  Defines-assign, Defines-assign_new, Defines-then, Defines-keep, one, two, one-among,
}
use micro_colorschemes.Qbe.Defined.Expr.{
  Value, value, Value-at, load-Defines, store-Defines, scale-Defines,
}

print_operator-Defines :
    {D : List ℕ} (op : TokenKind) (t : CType) {l r : ℕ}
    → Among l D
    → Among r D
    → Defines D itself (print_operator op (operator_line op t l r))
unfolding print_operator operator_line read_by_rhs
print_operator-Defines tok_plus t hl hr = Defines-assign_new _ _ (two hl hr)
print_operator-Defines tok_minus t hl hr = Defines-assign_new _ _ (two hl hr)
print_operator-Defines tok_star t hl hr = Defines-assign_new _ _ (two hl hr)
print_operator-Defines tok_slash t hl hr = Defines-assign_new _ _ (two hl hr)
print_operator-Defines tok_percent t hl hr = Defines-assign_new _ _ (two hl hr)
print_operator-Defines tok_amp t hl hr = Defines-assign_new _ _ (two hl hr)
print_operator-Defines tok_pipe t hl hr = Defines-assign_new _ _ (two hl hr)
print_operator-Defines tok_caret t hl hr = Defines-assign_new _ _ (two hl hr)
print_operator-Defines tok_shl t hl hr = Defines-assign_new _ _ (two hl hr)
print_operator-Defines tok_shr t hl hr = Defines-assign_new _ _ (two hl hr)
print_operator-Defines tok_lt t hl hr = Defines-assign_new _ _ (two hl hr)
print_operator-Defines tok_gt t hl hr = Defines-assign_new _ _ (two hl hr)
print_operator-Defines tok_leq t hl hr = Defines-assign_new _ _ (two hl hr)
print_operator-Defines tok_geq t hl hr = Defines-assign_new _ _ (two hl hr)
print_operator-Defines tok_eqeq t hl hr = Defines-assign_new _ _ (two hl hr)
print_operator-Defines tok_neq t hl hr = Defines-assign_new _ _ (two hl hr)
print_operator-Defines _ t hl hr = Defines-stop _

jnz-Defines :
    {D : List ℕ} {l : ℕ} (b : Bool) (x y z w : Label)
    → Among l D
    → Defines D no_temporary (emit (if b then jnz l x y else jnz l z w))
unfolding read_by
jnz-Defines true x y z w h = Defines-emit _ (one h)
jnz-Defines false x y z w h = Defines-emit _ (one h)

pub label-Defines : {D : List ℕ} (l : Label) → Defines D no_temporary (emit (label l))
unfolding read_by
label-Defines l = Defines-emit _ none_left

pub jmp-Defines : {D : List ℕ} (l : Label) → Defines D no_temporary (emit (jmp l))
unfolding read_by
jmp-Defines l = Defines-emit _ none_left

pointer_sum-Defines :
    {D : List ℕ} {p i : ℕ} (t : CType)
    → Among p D
    → Among i D
    → Defines D itself (pointer_sum p i t)
unfolding pointer_sum read_by_rhs
pointer_sum-Defines t hp hi =
    Defines-bind (scale-Defines (base_of t) hi)
      (λ s D g k. Defines-assign_new _ _ (two (Among-Grows g hp) (one-among k)))

module _ {a b : Emit ℕ} (ha : Value a) (hb : Value b) where
  short_circuit-Value : (is_and : Bool) → Value (qbe_short_circuit is_and a b)
  unfolding qbe_short_circuit read_by_rhs
  short_circuit-Value is_and = value (λ C. Defines-bind Defines-new_tmp (λ id D1 g1 n1.
      Defines-bind Defines-new_tmp (λ t D2 g2 n2. Defines-bind (Value-at ha) (λ l D3 g3 kl.
        Defines-then
          (Defines-then
            (Defines-then (Defines-assign t type_w _ none_left) (λ u D4 g4 kt.
              Defines-keep kt (jnz-Defines is_and _ _ _ _ (Among-Grows g4 (one-among kl)))))
            (λ u D5 g5 kt. Defines-keep kt (label-Defines _)))
          (λ u D6 g6 kt. Defines-bind (Value-at hb) (λ r D7 g7 kr.
            Defines-bind (Defines-assign_new type_w (not_zero r) (one (one-among kr)))
              (λ c D8 g8 kc.
                Defines-then
                  (Defines-then (Defines-assign t type_w _ (one (one-among kc)))
                    (λ v D9 g9 k9. Defines-keep k9 (label-Defines _)))
                  (λ v D9 g9 k9. Defines-pure t k9))))))))

  pointer_difference-Value : (t : CType) → Value (pointer_difference t a b)
  unfolding pointer_difference read_by_rhs
  pointer_difference-Value t = value (λ C. Defines-bind (Value-at ha) (λ l D g kl.
      Defines-bind (Value-at hb) (λ r D' g' kr.
        Defines-bind (Defines-assign_new _ _ (two (Among-Grows g' (one-among kl)) (one-among kr)))
          (λ d D'' g'' kd. elim (Bool-cases (ltb 1 (type_size (base_of t)))) [
            | inl e ↦ rw e (
                Defines-bind (Defines-assign_new _ (copy_int _) none_left) (λ c F f kc.
                  Defines-assign_new _ _ (two (Among-Grows f (one-among kd)) (one-among kc))))
            | inr e ↦ rw e (Defines-pure d kd)
          ]))))

  plain-Value : (op : TokenKind) (t : CType) → Value (plain_binary op t a b)
  unfolding plain_binary
  plain-Value op t = value (λ C. Defines-bind (Value-at ha) (λ l D g kl.
      Defines-bind (Value-at hb)
        (λ r D' g' kr. print_operator-Defines op _ (Among-Grows g' (one-among kl)) (one-among kr))))

  plus-Value : (t u : CType) → Value (plus_value t u a b)
  unfolding plus_value
  plus-Value t u = elim (Bool-cases (is_pointer_ty t && is_integer_ty (kind_of u))) [
    | inl e ↦ rw e (
        value (λ C. Defines-bind (Value-at ha) (λ l D g kl.
          Defines-bind (Value-at hb)
            (λ r D' g' kr. pointer_sum-Defines t (Among-Grows g' (one-among kl)) (one-among kr)))))
    | inr e ↦ rw e (elim (Bool-cases (is_pointer_ty u && is_integer_ty (kind_of t))) [
      | inl f ↦ rw f (
          value (λ C. Defines-bind (Value-at ha) (λ l D g kl.
            Defines-bind (Value-at hb) (λ r D' g' kr.
              pointer_sum-Defines u (one-among kr) (Among-Grows g' (one-among kl))))))
      | inr f ↦ rw f (plain-Value tok_plus t)
    ])
  ]

  minus-Value : (t u : CType) → Value (minus_value t u a b)
  unfolding minus_value
  minus-Value t u = elim (Bool-cases (is_pointer_ty t && is_pointer_ty u)) [
    | inl e ↦ rw e (pointer_difference-Value t)
    | inr e ↦ rw e (plain-Value tok_minus t)
  ]

  pub binary-Value : (op : TokenKind) (t u : CType) → Value (binary_value op t u a b)
  unfolding binary_value
  binary-Value tok_andand t u = short_circuit-Value true
  binary-Value tok_oror t u = short_circuit-Value false
  binary-Value tok_plus t u = plus-Value t u
  binary-Value tok_minus t u = minus-Value t u
  binary-Value op t u = plain-Value op t

compound-Defines :
    {D : List ℕ} {addr v : ℕ} (op : Option ArithOp) (t : CType)
    → Among addr D
    → Among v D
    → Defines D itself (compound_value op t addr v)
unfolding compound_value read_by_rhs
compound-Defines none t ha hv = Defines-stop _
compound-Defines (some op) t ha hv =
    Defines-bind (load-Defines t ha)
      (λ cur D g k. Defines-assign_new _ _ (two (one-among k) (Among-Grows g hv)))

stored_value-Defines :
    {D : List ℕ} {addr v : ℕ} (op : TokenKind) (t : CType)
    → Among addr D
    → Among v D
    → Defines D itself
        (if kind_eq op tok_eq then pure v else compound_value (compound_op op) t addr v)
stored_value-Defines {addr} {v} op t ha hv = elim (Bool-cases (kind_eq op tok_eq)) [
  | inl e ↦ rw e (Defines-pure v (one hv))
  | inr e ↦ rw e (compound-Defines (compound_op op) t ha hv)
]

module _ {a : Emit ℕ} (ha : Value a) where
  pub assign-Value :
      {b : Emit ℕ} (op : TokenKind) (t : CType) → Value b → Value (assign_value op t a b)
  unfolding assign_value
  assign-Value op t hb = value (λ C. Defines-bind (Value-at ha) (λ addr D g ka.
      Defines-bind (Value-at hb) (λ v D' g' kv.
        let addr_there = Among-Grows g' (one-among ka) in
        Defines-bind (stored_value-Defines op t addr_there (one-among kv)) (λ w D'' g'' kw.
          Defines-then
            (Defines-keep kw (store-Defines t (Among-Grows g'' addr_there) (one-among kw)))
            (λ u F f k. Defines-pure w k)))))

  pub postfix-Value : (op : TokenKind) (t : CType) → Value (postfix_value op t a)
  unfolding postfix_value read_by_rhs
  postfix-Value op t = value (λ C. Defines-bind (Value-at ha) (λ addr D g ka.
      Defines-bind (load-Defines t (one-among ka)) (λ v D' g' kv.
        Defines-bind (Defines-assign_new _ (copy_int 1) none_left) (λ u F f ku.
          Defines-bind (Defines-assign_new _ _ (two (Among-Grows f (one-among kv)) (one-among ku)))
            (λ w F' f' kw.
              let kv' = AllAmong-Grows (Grows-trans f f') kv in
              Defines-then
                (Defines-keep kv' (
                  store-Defines _ (Among-Grows (Grows-trans g' (Grows-trans f f')) (one-among ka))
                    (one-among kw)))
                (λ z F'' f'' k. Defines-pure v k))))))

module _ {c x y : Emit ℕ} (hc : Value c) (hx : Value x) (hy : Value y) where
  pub conditional-Value : (t : CType) → Value (conditional_value t c x y)
  unfolding conditional_value read_by_rhs read_by
  conditional-Value t = value (λ C. Defines-bind (Value-at hc) (λ test D g kt.
      Defines-bind Defines-new_tmp (λ id D1 g1 n1. Defines-bind Defines-new_tmp (λ res D2 g2 n2.
        Defines-then
          (Defines-then (Defines-emit _ (one (Among-Grows (Grows-trans g1 g2) (one-among kt))))
            (λ u D3 g3 n3. label-Defines _))
          (λ u D4 g4 n4. Defines-bind (Value-at hx) (λ l D5 g5 kl.
            Defines-then
              (Defines-then
                (Defines-then (Defines-assign res _ _ (one (one-among kl)))
                  (λ v D6 g6 k6. jmp-Defines _))
                (λ v D6 g6 k6. label-Defines _))
              (λ v D7 g7 n7. Defines-bind (Value-at hy) (λ r D8 g8 kr.
                Defines-then
                  (Defines-then (Defines-assign res _ _ (one (one-among kr)))
                    (λ w D9 g9 k9. Defines-keep k9 (label-Defines _)))
                  (λ w D9 g9 k9. Defines-pure res k9)))))))))
