-- ===== src/Sema/Stmt/Balance.antt =====
-- Scopes are entered and left in pairs in `sema_stmt` and `sema_program` of
-- qbebasedcompiler/src/sema.c.
use micro_colorschemes.Prelude.{
  Bytes, ◌≡◌, refl, sym, ◌∙◌, ap, subst, Bool, true, false, List, [], ◌∷◌, Option,
}
use micro_colorschemes.Token.{Token}
use micro_colorschemes.Ast.{
  CType, Node, no_node, decl, var_decl, compound, expr_stmt, if_stmt, while_stmt, do_stmt, for_stmt,
  return_stmt, break_stmt, continue_stmt, goto_stmt, label_stmt, case_stmt, default_stmt,
  switch_stmt, NodeList, nil, cons,
}
use micro_colorschemes.Sema.Scopes.{
  Symbol, Scope, Sema, sema_enter_scope, sema_leave_scope, sema_declare, sema_lookup, add_symbol,
  new_symbol,
}
use micro_colorschemes.Sema.Convert.{make_cast}
use micro_colorschemes.Sema.Monad.{M, ok, SemaError, ◌>>=◌, pure, fail, bind-eq-ok}
use micro_colorschemes.Sema.Expr.{sema_expr}
use micro_colorschemes.Sema.Expr.Laws.{sema_expr-Leaves, Leaves, ok-state}
use micro_colorschemes.Sema.Stmt.{
  after, in_scope, leave_with, sema_node, var_init, sema_stmt, sema_stmts, type_var_decl,
  sema_return, cast_return, ident_name, found_id,
}

-- The scopes around the innermost one.
abbrev pub outer : List Scope → List Scope
outer [] = []
outer (sc ∷ parents) = parents

abbrev pub is_in_scope : List Scope → Bool
is_in_scope [] = false
is_in_scope (sc ∷ parents) = true

-- The scopes around the innermost one are as before, and there is an innermost one exactly if there
-- was one.
unfoldable pub Around : Sema → Sema → Type 0
Around S T = (outer T.scope ≡ outer S.scope) × (is_in_scope T.scope ≡ is_in_scope S.scope)

pub Around-refl : (S : Sema) → Around S S
unfolding Around
Around-refl S = (refl, refl)

pub Around-trans : (S T U : Sema) → Around S T → Around T U → Around S U
unfolding Around
Around-trans S T U (a, b) (a', b') = (a' ∙ a, b' ∙ b)

pub Leaves-Around : (S T : Sema) → Leaves S T → Around S T
unfolding Around Leaves
Leaves-Around S T (e, _, _, _, _, _) = (ap outer e, ap is_in_scope e)

outer-add_symbol : (s : Symbol) (scs : List Scope) → outer (add_symbol s scs) ≡ outer scs
outer-add_symbol s [] = refl
outer-add_symbol s (sc ∷ scs) = refl

is_in_scope-add_symbol :
    (s : Symbol) (scs : List Scope) → is_in_scope (add_symbol s scs) ≡ is_in_scope scs
is_in_scope-add_symbol s [] = refl
is_in_scope-add_symbol s (sc ∷ scs) = refl

pub sema_declare-Around :
    (S : Sema) (name : Bytes) (t : CType) (g : Bool) → Around S (sema_declare S name t g)
unfolding Around sema_declare
sema_declare-Around S name t g = (
  outer-add_symbol (new_symbol S name t g) S.scope,
  is_in_scope-add_symbol (new_symbol S name t g) S.scope,
)

-- Every run of `m` that succeeds keeps the scopes around the innermost one.
pub data Balanced {A : Type 0} (m : M A) : Type 0 where
  balanced : ((S : Sema) (a : A) (T : Sema) → m S ≡ ok (a, T) → Around S T) → Balanced m

pub Balanced-of :
    {A : Type 0} {m : M A}
    → Balanced m
    → (S : Sema) (a : A) (T : Sema) → m S ≡ ok (a, T)
    → Around S T
Balanced-of (balanced h) = h

pub Balanced-pure : {A : Type 0} (a : A) → Balanced (pure a)
Balanced-pure a = balanced (λ S b T h. subst (Around S) (ok-state h) (Around-refl S))

Balanced-fail : {A : Type 0} (e : SemaError) → Balanced {A = A} (fail e)
Balanced-fail e = balanced (λ S b T h. cc)

pub Balanced-bind :
    {A B : Type 0} {m : M A} {f : A → M B}
    → Balanced m
    → ((a : A) → Balanced (f a))
    → Balanced (m >>= f)
Balanced-bind {A} {B} {m} {f} km kf = balanced (λ S b T h.
    let (a, U, e, e') = bind-eq-ok (m S) f h in
    Around-trans S U T (Balanced-of km S a U e) (Balanced-of (kf a) U b T e'))

pub Balanced-after :
    {A : Type 0} {f : Sema → Sema} {m : M A}
    → ((S : Sema) → Around S (f S))
    → Balanced m
    → Balanced (after f m)
Balanced-after {A} {f} {m} kf km =
    balanced (λ S b T h. Around-trans S (f S) T (kf S) (Balanced-of km (f S) b T h))

Balanced-expr : (n : Node) → Balanced (sema_expr n)
Balanced-expr n = balanced (λ S p T h. Leaves-Around S T (sema_expr-Leaves n S T p h))

Around-of :
    (S T : Sema)
    → Around S T
    → (outer T.scope ≡ outer S.scope) × (is_in_scope T.scope ≡ is_in_scope S.scope)
unfolding Around
Around-of S T a = a

left-outer : (S : Sema) → (sema_leave_scope S).scope ≡ outer S.scope
unfolding sema_leave_scope
left-outer S = elim S.scope [ [] ↦ refl | sc ∷ p ↦ refl ]

entered-outer : (S : Sema) → outer (sema_enter_scope S).scope ≡ S.scope
unfolding sema_enter_scope
entered-outer S = refl

-- What runs between an entered and a left scope gives back the very scopes it started from.
pub in_scope-scope :
    {A : Type 0} {m : M A}
    → Balanced m
    → (S : Sema) (a : A) (T : Sema) → in_scope m S ≡ ok (a, T)
    → T.scope ≡ S.scope
in_scope-scope {A} {m} km S a T h =
    let (b, U, e, e') = bind-eq-ok (m (sema_enter_scope S)) leave_with h in
    let (o, _) = Around-of (sema_enter_scope S) U (Balanced-of km (sema_enter_scope S) b U e) in
    sym (ap (λ V. V.scope) (ok-state e')) ∙ left-outer U ∙ o ∙ entered-outer S

pub Balanced-in_scope : {A : Type 0} {m : M A} → Balanced m → Balanced (in_scope m)
unfolding Around
Balanced-in_scope km =
    balanced (λ S a T h. let e = in_scope-scope km S a T h in (ap outer e, ap is_in_scope e))

Balanced-node : (n : Node) → Balanced (sema_node n)
unfolding sema_node
Balanced-node n = Balanced-bind (Balanced-expr n) (λ p. Balanced-pure p.1)

Balanced-var_init : (t : CType) (n : Node) → Balanced (var_init t n)
unfolding var_init
Balanced-var_init t no_node = Balanced-pure no_node
Balanced-var_init t n = Balanced-bind (Balanced-node n) (λ e. Balanced-pure (make_cast e t))

-- A run that reads the state first.
pub Balanced-read :
    {A B : Type 0} (f : Sema → B) (m : B → M A)
    → ((b : B) → Balanced (m b))
    → Balanced (λ S. m (f S) S)
Balanced-read {A} {B} f m km = balanced (λ S. Balanced-of (km (f S)) S)

Balanced-type_var_decl :
    (tok : Token) (name : Node) (t : CType) (init : Node) (o : Option Symbol)
    → Balanced (type_var_decl tok name t init o)
unfolding type_var_decl
Balanced-type_var_decl tok name t init o =
    Balanced-bind (Balanced-var_init t init)
      (λ e. Balanced-pure (var_decl tok (found_id o) name t e))

Balanced-cast_return : (tok : Token) (e : Node) → Balanced (cast_return tok e)
Balanced-cast_return tok e = balanced (λ S a T h. subst (Around S) (ok-state h) (Around-refl S))

Balanced-return : (tok : Token) (e : Node) → Balanced (sema_return tok e)
unfolding sema_return
Balanced-return tok no_node = Balanced-pure _
Balanced-return tok e = Balanced-bind (Balanced-node e) (λ p. Balanced-cast_return tok p)

mutual
  unfolding sema_stmt

  pub sema_stmt-Balanced : (n : Node) → Balanced (sema_stmt n)
  sema_stmt-Balanced no_node = Balanced-pure _
  sema_stmt-Balanced (compound tok ss) =
      Balanced-in_scope
        (Balanced-bind (sema_stmts-Balanced ss) (λ s. Balanced-pure (compound tok s)))
  sema_stmt-Balanced (expr_stmt tok e) =
      Balanced-bind (Balanced-node e) (λ p. Balanced-pure (expr_stmt tok p))
  sema_stmt-Balanced (var_decl tok id name t init) =
      Balanced-after (λ S. sema_declare-Around S (ident_name name) t false)
        (Balanced-read (λ S. sema_lookup S (ident_name name)) (type_var_decl tok name t init)
          (λ o. Balanced-type_var_decl tok name t init o))
  sema_stmt-Balanced (return_stmt tok e) = Balanced-return tok e
  sema_stmt-Balanced (if_stmt tok c t e) = Balanced-bind (Balanced-node c) (λ p.
      Balanced-bind (sema_stmt-Balanced t)
        (λ q. Balanced-bind (sema_stmt-Balanced e) (λ r. Balanced-pure (if_stmt tok p q r))))
  sema_stmt-Balanced (while_stmt tok c b) =
      Balanced-bind (Balanced-node c)
        (λ p. Balanced-bind (sema_stmt-Balanced b) (λ q. Balanced-pure (while_stmt tok p q)))
  sema_stmt-Balanced (do_stmt tok c b) =
      Balanced-bind (Balanced-node c)
        (λ p. Balanced-bind (sema_stmt-Balanced b) (λ q. Balanced-pure (do_stmt tok p q)))
  sema_stmt-Balanced (for_stmt tok i c p b) = Balanced-in_scope (
      Balanced-bind (Balanced-node i) (λ i'. Balanced-bind (Balanced-node c) (λ c'.
        Balanced-bind (Balanced-node p) (λ p'.
          Balanced-bind (sema_stmt-Balanced b) (λ b'. Balanced-pure (for_stmt tok i' c' p' b'))))))
  sema_stmt-Balanced (decl _ _ _) = Balanced-pure _
  sema_stmt-Balanced (break_stmt _) = Balanced-pure _
  sema_stmt-Balanced (continue_stmt _) = Balanced-pure _
  sema_stmt-Balanced (goto_stmt _ _) = Balanced-pure _
  sema_stmt-Balanced (label_stmt _ _) = Balanced-pure _
  sema_stmt-Balanced (case_stmt _ _ _) = Balanced-pure _
  sema_stmt-Balanced (default_stmt _ _) = Balanced-pure _
  sema_stmt-Balanced (switch_stmt _ _ _) = Balanced-pure _
  sema_stmt-Balanced _ = Balanced-fail _

  sema_stmts-Balanced : (ss : NodeList) → Balanced (sema_stmts ss)
  sema_stmts-Balanced nil = Balanced-pure nil
  sema_stmts-Balanced (cons s ss) =
      Balanced-bind (sema_stmt-Balanced s)
        (λ p. Balanced-bind (sema_stmts-Balanced ss) (λ q. Balanced-pure (cons p q)))
