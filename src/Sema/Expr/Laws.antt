-- ===== src/Sema/Expr/Laws.antt =====
-- What `sema_expr` of qbebasedcompiler/src/sema.c leaves alone and what it returns.
use micro_colorschemes.Prelude.{
  ◌≤◌, ◌≡◌, refl, ◌∙◌, subst, Bool, true, false, if◌then◌else◌, Option, none, some, arith,
}
use micro_colorschemes.Token.{Token, TokenKind, tok_amp, tok_star}
use micro_colorschemes.Ast.{
  CType, Node, no_node, ident, int_lit, float_lit, char_lit, str_lit, binary, unary, postfix,
  assign, call, index, member, cast, sizeof_expr, conditional, comma_expr, NodeList, nil, cons,
}
use micro_colorschemes.Ast.Types.{node_type, params_of}
use micro_colorschemes.Sema.Scopes.{Sema, Symbol, sema_lookup}
use micro_colorschemes.Sema.Convert.{is_pointer, make_cast}
use micro_colorschemes.Sema.Monad.{
  M, Result, ok, SemaError, ◌>>=◌, pure, fail, fresh, decay_m, bind-eq-ok,
}
use micro_colorschemes.Token.{token_text}
use micro_colorschemes.Sema.Expr.{
  Typed, sema_expr, sema_args, type_ident, type_index, type_deref, type_unary, type_binary,
  check_callable, args_after, is_callable, called_type, call_type, type_conditional, cast_stops,
  first_node, next_param,
}

-- From `S` to `T` at most the number of the next type changes, and it never shrinks.
unfoldable pub Leaves : Sema → Sema → Type 0
Leaves S T =
    (T.scope ≡ S.scope)
    × (T.current_func_ret ≡ S.current_func_ret)
    × (T.tmp_counter ≡ S.tmp_counter)
    × (T.local_counter ≡ S.local_counter)
    × (T.global_counter ≡ S.global_counter)
    × (S.next_id ≤ T.next_id)

Leaves-trans : (S T U : Sema) → Leaves S T → Leaves T U → Leaves S U
unfolding Leaves
Leaves-trans S T U (a, b, c, d, e, f) (a', b', c', d', e', f') =
    (a' ∙ a, b' ∙ b, c' ∙ c, d' ∙ d, e' ∙ e, omega arith)

Leaves-refl : (S : Sema) → Leaves S S
unfolding Leaves
Leaves-refl S = (refl, refl, refl, refl, refl, omega arith)

-- The state behind a result.
pub ok-state :
    {A : Type 0} {a b : A} {S T : Sema}
    → ◌≡◌ {A = Result (A × Sema)} (ok (a, S)) (ok (b, T))
    → S ≡ T
ok-state h = cc

-- A run of `m` that succeeds ends in a state that `Leaves` relates to the first one.
data Keeps {A : Type 0} (m : M A) : Type 0 where
  keeps : ((S : Sema) (a : A) (T : Sema) → m S ≡ ok (a, T) → Leaves S T) → Keeps m

Keeps-of :
    {A : Type 0} {m : M A} → Keeps m → (S : Sema) (a : A) (T : Sema) → m S ≡ ok (a, T) → Leaves S T
Keeps-of (keeps h) = h

Keeps-pure : {A : Type 0} (a : A) → Keeps (pure a)
Keeps-pure a = keeps (λ S b T h. subst (Leaves S) (ok-state h) (Leaves-refl S))

Keeps-fail : {A : Type 0} (e : SemaError) → Keeps {A = A} (fail e)
Keeps-fail e = keeps (λ S b T h. cc)

Keeps-fresh : Keeps fresh
unfolding Leaves
Keeps-fresh =
    keeps (λ S b T h. subst (Leaves S) (ok-state h) (refl, refl, refl, refl, refl, omega arith))

Keeps-bind :
    {A B : Type 0} {m : M A} {f : A → M B} → Keeps m → ((a : A) → Keeps (f a)) → Keeps (m >>= f)
Keeps-bind {A} {B} {m} {f} km kf = keeps (λ S b T h.
    let (a, U, e, e') = bind-eq-ok (m S) f h in
    Leaves-trans S U T (Keeps-of km S a U e) (Keeps-of (kf a) U b T e'))

Keeps-decay_m : (t : CType) → Keeps (decay_m t)
Keeps-decay_m t = Keeps-bind Keeps-fresh (λ id. Keeps-pure _)

Keeps-cond : {A : Type 0} (b : Bool) {m n : M A} → Keeps m → Keeps n → Keeps (if b then m else n)
Keeps-cond true km kn = km
Keeps-cond false km kn = kn

Keeps-type_ident : (tok : Token) (o : Option Symbol) → Keeps (type_ident tok o)
Keeps-type_ident tok (some s) = Keeps-pure _
Keeps-type_ident tok none = Keeps-fail _

Keeps-type_deref : (tok : Token) (pt : CType) (n : Node) → Keeps (type_deref tok pt n)
Keeps-type_deref tok pt n = Keeps-cond (is_pointer pt) (Keeps-pure _) (Keeps-fail _)

Keeps-type_index : (tok : Token) (pt : CType) (b i : Node) → Keeps (type_index tok pt b i)
Keeps-type_index tok pt b i = Keeps-cond (is_pointer pt) (Keeps-pure _) (Keeps-fail _)

Keeps-check_callable :
    (tok : Token) (ft : CType) {m : M NodeList} → Keeps m → Keeps (check_callable tok ft m)
Keeps-check_callable tok ft km = Keeps-cond (is_callable ft) km (Keeps-fail _)

Keeps-type_unary :
    (tok : Token) (op : TokenKind) (t : CType) (n : Node) → Keeps (type_unary tok op t n)
unfolding type_unary
Keeps-type_unary tok tok_amp t n = Keeps-bind Keeps-fresh (λ id. Keeps-pure _)
Keeps-type_unary tok tok_star t n = Keeps-bind (Keeps-decay_m t) (λ pt. Keeps-type_deref tok pt n)
Keeps-type_unary tok _ t n = Keeps-pure _

Keeps-args_after :
    (b : Bool) (a : Node) (rest : NodeList) {m : M NodeList}
    → Keeps m
    → Keeps (args_after b a rest m)
Keeps-args_after true a rest km = Keeps-pure _
Keeps-args_after false a rest km = Keeps-bind km (λ r. Keeps-pure _)

mutual
  unfolding sema_expr

  sema_expr-Keeps : (n : Node) → Keeps (sema_expr n)
  sema_expr-Keeps no_node = Keeps-pure _
  sema_expr-Keeps (int_lit _ _ _ _) = Keeps-pure _
  sema_expr-Keeps (float_lit _ _ _) = Keeps-pure _
  sema_expr-Keeps (char_lit _ _ _) = Keeps-pure _
  sema_expr-Keeps (str_lit _ _ _ _) = Keeps-bind Keeps-fresh (λ id. Keeps-pure _)
  sema_expr-Keeps (ident tok _ _) =
      keeps (λ S. Keeps-of (Keeps-type_ident tok (sema_lookup S (token_text tok))) S)
  sema_expr-Keeps (cast _ _ e _ _) = Keeps-bind (sema_expr-Keeps e) (λ p. Keeps-pure _)
  sema_expr-Keeps (index tok _ b i) = Keeps-bind (sema_expr-Keeps b) (λ p.
      Keeps-bind (Keeps-decay_m p.0)
        (λ pt. Keeps-bind (sema_expr-Keeps i) (λ q. Keeps-type_index tok pt p.1 q.1)))
  sema_expr-Keeps (call tok _ f args) = Keeps-bind (sema_expr-Keeps f) (λ p.
      Keeps-bind (Keeps-check_callable tok p.0 (sema_args-Keeps args (params_of (called_type p.0))))
        (λ q. Keeps-pure (call_type p.0, call tok (call_type p.0) p.1 q)))
  sema_expr-Keeps (member _ _ b _ _) = Keeps-bind (sema_expr-Keeps b) (λ p. Keeps-pure _)
  sema_expr-Keeps (unary tok _ e op) =
      Keeps-bind (sema_expr-Keeps e) (λ p. Keeps-type_unary tok op p.0 p.1)
  sema_expr-Keeps (postfix _ _ e _) = Keeps-bind (sema_expr-Keeps e) (λ p. Keeps-pure _)
  sema_expr-Keeps (binary tok _ l r op) = Keeps-bind (sema_expr-Keeps l) (λ p.
      Keeps-bind (Keeps-decay_m p.0) (λ a.
        Keeps-bind (sema_expr-Keeps r)
          (λ q. Keeps-bind (Keeps-decay_m q.0) (λ b. Keeps-pure (type_binary tok op a b p.1 q.1)))))
  sema_expr-Keeps (assign tok _ l r op) = Keeps-bind (sema_expr-Keeps l) (λ p.
      Keeps-bind (sema_expr-Keeps r)
        (λ q. Keeps-pure (p.0, assign tok p.0 p.1 (make_cast q.1 p.0) op)))
  sema_expr-Keeps (conditional tok _ c x y) = Keeps-bind (sema_expr-Keeps c) (λ p.
      Keeps-bind (sema_expr-Keeps x) (λ q. Keeps-bind (Keeps-decay_m q.0) (λ a.
        Keeps-bind (sema_expr-Keeps y) (λ r.
          Keeps-bind (Keeps-decay_m r.0)
            (λ b. Keeps-pure (type_conditional tok a b p.1 q.1 r.1))))))
  sema_expr-Keeps (comma_expr tok _ l r) =
      Keeps-bind (sema_expr-Keeps l)
        (λ p. Keeps-bind (sema_expr-Keeps r) (λ q. Keeps-pure (q.0, comma_expr tok q.0 p.1 q.1)))
  sema_expr-Keeps (sizeof_expr _ _ e) = Keeps-bind (sema_expr-Keeps e) (λ p. Keeps-pure _)
  sema_expr-Keeps _ = Keeps-fail _

  sema_args-Keeps : (args ps : NodeList) → Keeps (sema_args args ps)
  sema_args-Keeps nil ps = Keeps-pure _
  sema_args-Keeps (cons a rest) ps = Keeps-bind (sema_expr-Keeps a) (λ p.
      Keeps-bind (Keeps-decay_m p.0) (λ d.
        Keeps-args_after (cast_stops (node_type p.1) (first_node ps)) p.1 rest
          (sema_args-Keeps rest (next_param ps))))

-- If the analysis of an expression succeeds, the scopes, the current function's type and the three
-- counters are as before, and the number of the next type has not shrunk.
pub sema_expr-Leaves : (n : Node) (S T : Sema) (p : Typed) → sema_expr n S ≡ ok (p, T) → Leaves S T
sema_expr-Leaves n S T p h = Keeps-of (sema_expr-Keeps n) S p T h
