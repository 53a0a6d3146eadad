-- ===== src/Sema/Scopes/Laws.antt =====
-- What `sema_lookup` finds after a declaration, and that the scopes are a stack
-- (qbebasedcompiler/src/sema.c).
use micro_colorschemes.Prelude.{
  ◌≡◌, ◌≢◌, refl, sym, ap, Bool, List, [], ◌∷◌, Bytes, some, arith, if◌then◌else◌, bytes_eq,
}
use micro_colorschemes.Ast.{CType}
use micro_colorschemes.Sema.Scopes.{
  Symbol, Scope, Sema, sema_enter_scope, sema_leave_scope, add_symbol, new_symbol, sema_declare,
  lookup_scopes, sema_lookup,
}

lookup-add_symbol :
    (sym : Symbol) (scopes : List Scope) (other : Bytes)
    → scopes ≢ []
    → lookup_scopes (add_symbol sym scopes) other
      ≡ (if bytes_eq sym.name other then some sym else lookup_scopes scopes other)
unfolding lookup_scopes
lookup-add_symbol sym [] other ne = absurd (ne refl)
lookup-add_symbol sym (sc ∷ parents) other ne = ground arith

-- In a scope, a declaration is found under its name, hides whatever was visible under that name
-- before, and changes no other name.
pub sema_lookup-sema_declare :
    (S : Sema) (name other : Bytes) (type : CType) (is_global : Bool)
    → S.scope ≢ []
    → sema_lookup (sema_declare S name type is_global) other ≡ (
        if bytes_eq name other
        then some (new_symbol S name type is_global)
        else sema_lookup S other)
unfolding sema_lookup sema_declare
sema_lookup-sema_declare S name other type g ne =
    lookup-add_symbol (new_symbol S name type g) S.scope other ne

abbrev parents_of : List Scope → List Scope
parents_of scopes = elim scopes [ [] ↦ [] | sc ∷ parent ↦ parent ]

-- Declarations made in an entered scope.
unfoldable pub declare_list : Sema → List (Bytes × CType × Bool) → Sema
declare_list S [] = S
declare_list S ((name, type, is_global) ∷ ds) = declare_list (sema_declare S name type is_global) ds

-- The declarations go into the innermost scope.
declare_list-parents :
    (ds : List (Bytes × CType × Bool)) (S : Sema) (sc : Scope) (parents : List Scope)
    → S.scope ≡ sc ∷ parents
    → (sc' : Scope) × ((declare_list S ds).scope ≡ sc' ∷ parents)
unfolding declare_list sema_declare
declare_list-parents [] S sc parents e = (sc, e)
declare_list-parents ((name, type, g) ∷ ds) S sc parents e =
    declare_list-parents ds (sema_declare S name type g) (new_symbol S name type g ∷ sc) parents
      (ap (add_symbol (new_symbol S name type g)) e)

-- Whatever a scope declares, behind its end every name means what it meant before it.
pub sema_leave_scope-lookup :
    (S : Sema) (ds : List (Bytes × CType × Bool)) (name : Bytes)
    → sema_lookup (sema_leave_scope (declare_list (sema_enter_scope S) ds)) name
      ≡ sema_lookup S name
unfolding sema_lookup sema_leave_scope sema_enter_scope
sema_leave_scope-lookup S ds name =
    let (sc, e) = declare_list-parents ds (sema_enter_scope S) [] S.scope refl in
    ap (λ scopes. lookup_scopes (parents_of scopes) name) e
