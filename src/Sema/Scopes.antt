-- ===== src/Sema/Scopes.antt =====
-- The symbol table of qbebasedcompiler/src/sema.c: `Symbol`, `Scope`, `Sema` and the four functions
-- on them. The chain of scopes, and that of symbols in a scope, are lists, the newest first.
pub mod Laws
use micro_colorschemes.Prelude.{
  ℕ, ◌+◌, Bool, List, [], ◌∷◌, Bytes, Option, none, some, bytes_eq, if◌then◌else◌,
}
use micro_colorschemes.Ast.{CType}

pub record Symbol : Type 0 where
  pub name : Bytes
  pub type : CType
  pub qbe_id : ℕ
  pub is_global : Bool

abbrev pub Scope : Type 0
Scope = List Symbol

-- `next_id` numbers the types that `new_type` makes. `tmp_counter` is never used.
pub record Sema : Type 0 where
  pub scope : List Scope
  pub current_func_ret : CType
  pub tmp_counter : ℕ
  pub local_counter : ℕ
  pub global_counter : ℕ
  pub next_id : ℕ

unfoldable pub sema_enter_scope : Sema → Sema
sema_enter_scope S = record S { scope = [] ∷ S.scope }

-- With no scope the source reads through a null pointer; the model then changes nothing.
unfoldable pub sema_leave_scope : Sema → Sema
sema_leave_scope S = record S { scope = elim S.scope [ [] ↦ [] | sc ∷ parent ↦ parent ] }

abbrev pub add_symbol : Symbol → List Scope → List Scope
add_symbol sym [] = []
add_symbol sym (sc ∷ parents) = (sym ∷ sc) ∷ parents

abbrev pub new_symbol : Sema → Bytes → CType → Bool → Symbol
new_symbol S name type is_global = record {
  name = name;
  type = type;
  qbe_id = if is_global then S.global_counter else S.local_counter;
  is_global = is_global;
}

unfoldable pub sema_declare : Sema → Bytes → CType → Bool → Sema
sema_declare S name type is_global = record S {
  global_counter = if is_global then S.global_counter + 1 else S.global_counter;
  local_counter = if is_global then S.local_counter else S.local_counter + 1;
  scope = add_symbol (new_symbol S name type is_global) S.scope;
}

-- The inner loop of `sema_lookup`.
unfoldable pub lookup_scope : Scope → Bytes → Option Symbol
unfolding bytes_eq
lookup_scope [] name = none
lookup_scope (sym ∷ sc) name = if bytes_eq sym.name name then some sym else lookup_scope sc name

unfoldable pub lookup_scopes : List Scope → Bytes → Option Symbol
unfolding lookup_scope
lookup_scopes [] name = none
lookup_scopes (sc ∷ parents) name = elim (lookup_scope sc name) [
  | some sym ↦ some sym
  | none ↦ lookup_scopes parents name
]

unfoldable pub sema_lookup : Sema → Bytes → Option Symbol
unfolding lookup_scopes
sema_lookup S name = lookup_scopes S.scope name
