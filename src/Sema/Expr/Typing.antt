-- ===== src/Sema/Expr/Typing.antt =====
-- The type that `sema_expr` of qbebasedcompiler/src/sema.c returns, and the operands it leaves.
use micro_colorschemes.Prelude.{
  ◌≡◌, refl, ◌⊎◌, inl, inr, Bool, true, false, not, ◌||◌, ◌&&◌, if◌then◌else◌, Option, none, some,
  arith, length, ◌+◌, subst,
}
use micro_colorschemes.Token.{
  Token, TokenKind, tok_amp, tok_star, tok_bang, tok_minus, tok_plus, tok_tilde,
}
use micro_colorschemes.Ast.{
  ty_char, ty_long, ty_ulong, ty_int, ty_double, CType, no_type, scalar, ptr, array, func, Node,
  no_node, ident, int_lit, float_lit, char_lit, str_lit, binary, unary, postfix, assign, call,
  index, member, cast, sizeof_expr, conditional, comma_expr,
}
use micro_colorschemes.Ast.Types.{node_type, params_of, base_of, node_tok}
use micro_colorschemes.Sema.Scopes.{Sema, Symbol, sema_lookup}
use micro_colorschemes.Sema.Convert.{
  is_integer, is_pointer, promote_integer, usual_arith, fits_type, make_cast, is_no_node,
}
use micro_colorschemes.Sema.Convert.Laws.{make_cast-fits}
use micro_colorschemes.Sema.Monad.{
  M, Result, ok, SemaError, ◌>>=◌, pure, fail, fresh, decay_m, bind-eq-ok, unsupported_expression,
  undeclared_identifier, deref_of_non_pointer, subscript_of_non_pointer,
}
use micro_colorschemes.Token.{token_text}
use micro_colorschemes.Sema.Expr.{
  arith_binary, typed_binary, is_minus_op, Typed, sema_expr, type_ident, type_index, type_deref,
  type_unary, type_binary, type_conditional, is_test_op, is_shift_op, or_type, check_callable,
  sema_args, called_type, call_type,
}

-- The node of a result carries the result's type, or no type at all.
unfoldable pub Agrees : Typed → Type 0
Agrees p = (node_type p.1 ≡ p.0) ⊎ (node_type p.1 ≡ no_type)

-- Every result of `m` agrees.
data Types (m : M Typed) : Type 0 where
  types : ((S T : Sema) (p : Typed) → m S ≡ ok (p, T) → Agrees p) → Types m

Types-of : {m : M Typed} → Types m → (S T : Sema) (p : Typed) → m S ≡ ok (p, T) → Agrees p
Types-of (types h) = h

ok-value :
    {p q : Typed} {S T : Sema} → ◌≡◌ {A = Result (Typed × Sema)} (ok (p, S)) (ok (q, T)) → p ≡ q
ok-value h = cc

Types-pure : (p : Typed) → Agrees p → Types (pure p)
Types-pure p a = types (λ S T q h. subst Agrees (ok-value h) a)

Types-same : (p : Typed) → node_type p.1 ≡ p.0 → Types (pure p)
unfolding Agrees
Types-same p e = Types-pure p (inl e)

Types-fail : (e : SemaError) → Types (fail e)
Types-fail e = types (λ S T p h. cc)

Types-bind : {A : Type 0} (m : M A) {f : A → M Typed} → ((a : A) → Types (f a)) → Types (m >>= f)
Types-bind m {f} tf =
    types (λ S T p h. let (a, U, e, e') = bind-eq-ok (m S) f h in Types-of (tf a) U T p e')

Types-cond : (b : Bool) {m n : M Typed} → Types m → Types n → Types (if b then m else n)
Types-cond true tm tn = tm
Types-cond false tm tn = tn

Types-ident : (tok : Token) (o : Option Symbol) → Types (type_ident tok o)
Types-ident tok (some s) = Types-same (s.type, ident tok s.type s.qbe_id) refl
Types-ident tok none = Types-fail (undeclared_identifier tok)

Types-deref : (tok : Token) (pt : CType) (n : Node) → Types (type_deref tok pt n)
Types-deref tok pt n =
    Types-cond (is_pointer pt) (Types-same (base_of pt, unary tok (base_of pt) n tok_star) refl)
      (Types-fail (deref_of_non_pointer tok))

Types-index : (tok : Token) (pt : CType) (b i : Node) → Types (type_index tok pt b i)
Types-index tok pt b i =
    Types-cond (is_pointer pt) (Types-same (base_of pt, index tok (base_of pt) b i) refl)
      (Types-fail (subscript_of_non_pointer tok))

Types-promoted :
    (tok : Token) (op : TokenKind) (t : CType) (n : Node)
    → Types (
        pure
          (promote_integer t, unary tok (promote_integer t) (make_cast n (promote_integer t)) op))
Types-promoted tok op t n =
    Types-same
      (promote_integer t, unary tok (promote_integer t) (make_cast n (promote_integer t)) op) refl

Types-unary : (tok : Token) (op : TokenKind) (t : CType) (n : Node) → Types (type_unary tok op t n)
unfolding type_unary
Types-unary tok tok_star t n = Types-bind (decay_m t) (λ pt. Types-deref tok pt n)
Types-unary tok tok_amp t n =
    Types-bind fresh (λ id. Types-same (ptr id t, unary tok (ptr id t) n tok_amp) refl)
Types-unary tok tok_bang t n = Types-same (scalar ty_int, unary tok (scalar ty_int) n tok_bang) refl
Types-unary tok tok_minus t n = Types-promoted tok tok_minus t n
Types-unary tok tok_plus t n = Types-promoted tok tok_plus t n
Types-unary tok tok_tilde t n = Types-promoted tok tok_tilde t n
Types-unary tok op t n = Types-same (t, unary tok t n op) refl

-- The node carries the type beside it.
data IsTyped (p : Typed) : Type 0 where
  typed : node_type p.1 ≡ p.0 → IsTyped p

IsTyped-eq : {p : Typed} → IsTyped p → node_type p.1 ≡ p.0
IsTyped-eq (typed e) = e

IsTyped-cond : (b : Bool) {p q : Typed} → IsTyped p → IsTyped q → IsTyped (if b then p else q)
IsTyped-cond true tp tq = tp
IsTyped-cond false tp tq = tq

typed_binary-IsTyped :
    (tok : Token) (op : TokenKind) (t : CType) (l r : Node) → IsTyped (typed_binary tok op t l r)
typed_binary-IsTyped tok op t l r = typed refl

arith_binary-IsTyped :
    (tok : Token) (op : TokenKind) (a b : CType) (l r : Node)
    → IsTyped (arith_binary tok op a b l r)
unfolding arith_binary
arith_binary-IsTyped tok op a b l r =
    let c = usual_arith a b in
    let p = promote_integer a in
    IsTyped-cond (is_test_op op)
      (typed_binary-IsTyped tok op (scalar ty_int) (make_cast l c) (make_cast r c))
      (IsTyped-cond (is_shift_op op) (typed_binary-IsTyped tok op p (make_cast l p) r)
        (typed_binary-IsTyped tok op c (make_cast l c) (make_cast r c)))

type_binary-IsTyped :
    (tok : Token) (op : TokenKind) (a b : CType) (l r : Node) → IsTyped (type_binary tok op a b l r)
unfolding type_binary
type_binary-IsTyped tok op a b l r =
    IsTyped-cond (is_pointer a && is_integer b) (typed_binary-IsTyped tok op a l r) (
      IsTyped-cond (is_integer a && is_pointer b) (typed_binary-IsTyped tok op b l r) (
        IsTyped-cond (is_pointer a && is_pointer b)
          (typed_binary-IsTyped tok op (scalar (if is_minus_op op then ty_long else ty_int)) l r)
          (arith_binary-IsTyped tok op a b l r)))

or_type-cases : (t u : CType) → (t ≡ or_type t u) ⊎ (t ≡ no_type)
or_type-cases no_type u = inr refl
or_type-cases (scalar s) u = inl refl
or_type-cases (ptr _ _) u = inl refl
or_type-cases (array _ _ _) u = inl refl
or_type-cases (func _ _ _ _) u = inl refl

-- An identifier's symbol is looked up in the state of the run.
Types-ident_lookup : (tok : Token) → Types (λ S. type_ident tok (sema_lookup S (token_text tok)) S)
Types-ident_lookup tok = types (λ S. Types-of (Types-ident tok (sema_lookup S (token_text tok))) S)

sema_expr-Types : (n : Node) → Types (sema_expr n)
unfolding sema_expr Agrees
sema_expr-Types no_node = Types-pure (scalar ty_int, no_node) (inr refl)
sema_expr-Types (int_lit tok t v u) =
    Types-pure (or_type t (scalar ty_int), int_lit tok t v u) (or_type-cases t (scalar ty_int))
sema_expr-Types (float_lit tok t f) =
    Types-pure (or_type t (scalar ty_double), float_lit tok t f)
      (or_type-cases t (scalar ty_double))
sema_expr-Types (char_lit tok _ v) = Types-same (scalar ty_int, char_lit tok (scalar ty_int) v) refl
sema_expr-Types (str_lit tok _ sid text) = Types-bind fresh (λ id.
    let arr = array id (scalar ty_char) (length text + 1) in
    Types-same (arr, str_lit tok arr sid text) refl)
sema_expr-Types (ident tok _ _) = Types-ident_lookup tok
sema_expr-Types (cast tok _ e to i) =
    Types-bind (sema_expr e) (λ p. Types-same (to, cast tok to p.1 to i) refl)
sema_expr-Types (index tok _ b i) = Types-bind (sema_expr b) (λ p.
    Types-bind (decay_m p.0) (λ pt. Types-bind (sema_expr i) (λ q. Types-index tok pt p.1 q.1)))
sema_expr-Types (call tok _ f args) = Types-bind (sema_expr f) (λ p.
    Types-bind (check_callable tok p.0 (sema_args args (params_of (called_type p.0))))
      (λ q. Types-same (call_type p.0, call tok (call_type p.0) p.1 q) refl))
sema_expr-Types (member tok _ b f w) =
    Types-bind (sema_expr b)
      (λ p. Types-same (scalar ty_int, member tok (scalar ty_int) p.1 f w) refl)
sema_expr-Types (unary tok _ e op) = Types-bind (sema_expr e) (λ p. Types-unary tok op p.0 p.1)
sema_expr-Types (postfix tok _ e op) =
    Types-bind (sema_expr e) (λ p. Types-same (p.0, postfix tok p.0 p.1 op) refl)
sema_expr-Types (binary tok _ l r op) = Types-bind (sema_expr l) (λ p.
    Types-bind (decay_m p.0) (λ a. Types-bind (sema_expr r) (λ q. Types-bind (decay_m q.0) (λ b.
      Types-same (type_binary tok op a b p.1 q.1)
        (IsTyped-eq (type_binary-IsTyped tok op a b p.1 q.1))))))
sema_expr-Types (assign tok _ l r op) = Types-bind (sema_expr l) (λ p.
    Types-bind (sema_expr r)
      (λ q. Types-same (p.0, assign tok p.0 p.1 (make_cast q.1 p.0) op) refl))
sema_expr-Types (conditional tok _ c x y) = Types-bind (sema_expr c) (λ p.
    Types-bind (sema_expr x) (λ q. Types-bind (decay_m q.0) (λ a. Types-bind (sema_expr y) (λ r.
      Types-bind (decay_m r.0) (λ b. Types-same (type_conditional tok a b p.1 q.1 r.1) refl)))))
sema_expr-Types (comma_expr tok _ l r) =
    Types-bind (sema_expr l)
      (λ p. Types-bind (sema_expr r) (λ q. Types-same (q.0, comma_expr tok q.0 p.1 q.1) refl))
sema_expr-Types (sizeof_expr tok _ e) =
    Types-bind (sema_expr e)
      (λ p. Types-same (scalar ty_ulong, sizeof_expr tok (scalar ty_ulong) p.1) refl)
sema_expr-Types n = Types-fail (unsupported_expression (node_tok n))

-- If the analysis of an expression succeeds, the node that it leaves carries the type that it
-- returns, or carries no type.
pub sema_expr-Agrees : (n : Node) (S T : Sema) (p : Typed) → sema_expr n S ≡ ok (p, T) → Agrees p
sema_expr-Agrees n S T p h = Types-of (sema_expr-Types n) S T p h

-- A binary operator, not a shift, on operands that are no pointers leaves a binary node of the same
-- token and operator whose operands, if there are two, need no cast to the usual arithmetic type of
-- the operands' types.
pub type_binary-operands :
    (tok : Token) (op : TokenKind) (a b : CType) (l r : Node)
    → is_pointer a ≡ false
    → is_pointer b ≡ false
    → is_test_op op || not (is_shift_op op) ≡ true
    → is_no_node l ≡ false
    → is_no_node r ≡ false
    → (t : CType) × (x : Node) × (y : Node) × ((type_binary tok op a b l r).1 ≡ binary tok t x y op)
      × (fits_type (node_type x) (usual_arith a b) ≡ true)
      × (fits_type (node_type y) (usual_arith a b) ≡ true)
unfolding type_binary
type_binary-operands tok op a b l r ea eb eo el er = (
  (type_binary tok op a b l r).0,
  make_cast l (usual_arith a b),
  make_cast r (usual_arith a b),
  ground (arith, ea, eb, eo),
  make_cast-fits l (usual_arith a b) el,
  make_cast-fits r (usual_arith a b) er,
)
