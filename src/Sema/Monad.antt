-- ===== src/Sema/Monad.antt =====
-- The analysis of qbebasedcompiler/src/sema.c as a state monad over `Sema`; an error ends the run.
use micro_colorschemes.Prelude.{ℕ, ◌+◌, ◌≡◌, refl}
use micro_colorschemes.Token.{Token}
use micro_colorschemes.Ast.{CType}
use micro_colorschemes.Sema.Scopes.{Sema}
use micro_colorschemes.Sema.Convert.{decay}

-- A message on stderr, at a token, before `exit(1)`.
pub data SemaError : Type 0 where
  undeclared_identifier subscript_of_non_pointer call_of_non_function : Token → SemaError
  deref_of_non_pointer unsupported_expression unsupported_statement : Token → SemaError

pub data Result (A : Type 0) : Type 0 where
  ok : A → Result A
  err : SemaError → Result A

abbrev pub M : Type 0 → Type 0
M A = Sema → Result (A × Sema)

abbrev pub bind : {A B : Type 0} → Result (A × Sema) → (A → M B) → Result (B × Sema)
bind (ok (a, S)) f = f a S
bind (err e) f = err e

infixl 5 ◌>>=◌ ◌>>◌
abbrev pub ◌>>=◌ : {A B : Type 0} → M A → (A → M B) → M B
◌>>=◌ m f S = bind (m S) f

abbrev pub ◌>>◌ : {A B : Type 0} → M A → M B → M B
m >> k = m >>= λ _. k

abbrev pub pure : {A : Type 0} → A → M A
pure a S = ok (a, S)

abbrev pub fail : {A : Type 0} → SemaError → M A
fail e S = err e

-- The number of the next type that `new_type` makes.
abbrev pub fresh : M ℕ
fresh S = ok (S.next_id, record S { next_id = S.next_id + 1 })

-- `decay` allocates only at an array; the number it skips at other types is not used again.
abbrev pub decay_m : CType → M CType
decay_m t = fresh >>= λ id. pure (decay id t)

pub bind-eq-ok :
    {A B : Type 0} (r : Result (A × Sema)) (f : A → M B) {b : B} {T : Sema}
    → bind r f ≡ ok (b, T)
    → (a : A) × (S : Sema) × (r ≡ ok (a, S)) × (f a S ≡ ok (b, T))
bind-eq-ok (ok (a, S)) f h = (a, S, refl, h)
bind-eq-ok (err e) f h = cc
