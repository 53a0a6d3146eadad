-- ===== src/Sema/Convert/Kinds.antt =====
-- Kinds and types that compare equal in qbebasedcompiler/src/sema.c.
use micro_colorschemes.Prelude.{ℕ, ◌≡◌, refl, sym, ap, ◌∙◌, true, arith, ◌==◌, if◌then◌else◌}
use micro_colorschemes.Ast.{
  CType, no_type, scalar, ptr, array, func, TypeKind, ty_kind_void, ty_kind_bool, ty_kind_char,
  ty_kind_short, ty_kind_int, ty_kind_long, ty_kind_float, ty_kind_double, ty_kind_ptr,
  ty_kind_array, ty_kind_func, ty_kind_struct, ty_kind_union, ty_kind_enum, Scalar, ty_void,
  ty_bool, ty_char, ty_schar, ty_uchar, ty_short, ty_ushort, ty_int, ty_uint, ty_long, ty_ulong,
  ty_float, ty_double,
}
use micro_colorschemes.Ast.Types.{
  same_pointer, kind_of, is_unsigned, same_kind, kind_number, scalar_number,
}

abbrev kind_at : ℕ → TypeKind
kind_at n =
    if n == 0
    then ty_kind_void
    else if n == 1
    then ty_kind_bool
    else if n == 2
    then ty_kind_char
    else if n == 3
    then ty_kind_short
    else if n == 4
    then ty_kind_int
    else if n == 5
    then ty_kind_long
    else if n == 6
    then ty_kind_float
    else if n == 7
    then ty_kind_double
    else if n == 8
    then ty_kind_ptr
    else if n == 9
    then ty_kind_array
    else if n == 10
    then ty_kind_func
    else if n == 11
    then ty_kind_struct
    else if n == 12
    then ty_kind_union
    else ty_kind_enum

kind_at-number : (k : TypeKind) → kind_at (kind_number k) ≡ k
kind_at-number ty_kind_void = refl
kind_at-number ty_kind_bool = refl
kind_at-number ty_kind_char = refl
kind_at-number ty_kind_short = refl
kind_at-number ty_kind_int = refl
kind_at-number ty_kind_long = refl
kind_at-number ty_kind_float = refl
kind_at-number ty_kind_double = refl
kind_at-number ty_kind_ptr = refl
kind_at-number ty_kind_array = refl
kind_at-number ty_kind_func = refl
kind_at-number ty_kind_struct = refl
kind_at-number ty_kind_union = refl
kind_at-number ty_kind_enum = refl

abbrev scalar_at : ℕ → Scalar
scalar_at n =
    if n == 0
    then ty_void
    else if n == 1
    then ty_bool
    else if n == 2
    then ty_char
    else if n == 3
    then ty_schar
    else if n == 4
    then ty_uchar
    else if n == 5
    then ty_short
    else if n == 6
    then ty_ushort
    else if n == 7
    then ty_int
    else if n == 8
    then ty_uint
    else if n == 9
    then ty_long
    else if n == 10
    then ty_ulong
    else if n == 11
    then ty_float
    else ty_double

scalar_at-number : (s : Scalar) → scalar_at (scalar_number s) ≡ s
scalar_at-number ty_void = refl
scalar_at-number ty_bool = refl
scalar_at-number ty_char = refl
scalar_at-number ty_schar = refl
scalar_at-number ty_uchar = refl
scalar_at-number ty_short = refl
scalar_at-number ty_ushort = refl
scalar_at-number ty_int = refl
scalar_at-number ty_uint = refl
scalar_at-number ty_long = refl
scalar_at-number ty_ulong = refl
scalar_at-number ty_float = refl
scalar_at-number ty_double = refl

pub same_kind-path : (a b : TypeKind) → same_kind a b ≡ true → a ≡ b
same_kind-path a b h =
    let e : kind_number a ≡ kind_number b = ground (arith, h) in
    sym (kind_at-number a) ∙ ap kind_at e ∙ kind_at-number b

same_scalar-path : (a b : Scalar) → (scalar_number a == scalar_number b) ≡ true → a ≡ b
same_scalar-path a b h =
    let e : scalar_number a ≡ scalar_number b = ground (arith, h) in
    sym (scalar_at-number a) ∙ ap scalar_at e ∙ scalar_at-number b

-- One kind and one sign.
abbrev pub Alike : CType → CType → Type 0
Alike a b = (kind_of a ≡ kind_of b) × (is_unsigned a ≡ is_unsigned b)

pub same_pointer-Alike : (a b : CType) → same_pointer a b ≡ true → Alike a b
same_pointer-Alike no_type no_type h = (refl, refl)
same_pointer-Alike (scalar a) (scalar b) h =
    let e = same_scalar-path a b h in
    (ap (λ s. kind_of (scalar s)) e, ap (λ s. is_unsigned (scalar s)) e)
same_pointer-Alike (ptr i _) (ptr j _) h = (refl, refl)
same_pointer-Alike (array i _ _) (array j _ _) h = (refl, refl)
same_pointer-Alike (func i _ _ _) (func j _ _ _) h = (refl, refl)
same_pointer-Alike a b h = cc
