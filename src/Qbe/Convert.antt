-- ===== src/Qbe/Convert.antt =====
-- `qbe_convert` of qbebasedcompiler/src/qbe.c. The instruction that it prints is the class of its
-- result and its mnemonic; the temporaries are left out.
pub mod Laws
use micro_colorschemes.Prelude.{Bool, true, false, ◌&&◌, ◌||◌, if◌then◌else◌}
use micro_colorschemes.Ast.{
  TypeKind, ty_kind_bool, ty_kind_char, ty_kind_short, ty_kind_int, ty_kind_long, ty_kind_float,
  ty_kind_double, ty_kind_enum,
}
use micro_colorschemes.Ast.Types.{same_kind}
use micro_colorschemes.Qbe.Types.{QbeType, type_w, type_l, type_s, type_d, qbe_type}

pub data ConvertOp : Type 0 where
  copy extuw extsw stosi dtosi exts truncd : ConvertOp

abbrev pub is_floating_ty : TypeKind → Bool
is_floating_ty ty_kind_float = true
is_floating_ty ty_kind_double = true
is_floating_ty _ = false

abbrev pub is_integer_ty : TypeKind → Bool
is_integer_ty ty_kind_bool = true
is_integer_ty ty_kind_char = true
is_integer_ty ty_kind_short = true
is_integer_ty ty_kind_int = true
is_integer_ty ty_kind_long = true
is_integer_ty ty_kind_enum = true
is_integer_ty _ = false

-- The kinds below `int`, or it.
abbrev pub widens : TypeKind → Bool
widens ty_kind_int = true
widens ty_kind_char = true
widens ty_kind_short = true
widens ty_kind_bool = true
widens _ = false

abbrev pub narrows : TypeKind → Bool
narrows ty_kind_int = true
narrows ty_kind_char = true
narrows ty_kind_short = true
narrows _ = false

-- The kinds of `to` and `from`, and whether `from` is unsigned.
unfoldable pub qbe_convert : TypeKind → TypeKind → Bool → QbeType × ConvertOp
unfolding qbe_type
qbe_convert to from unsigned =
    if same_kind to from
    then (qbe_type to, copy)
    else if same_kind to ty_kind_long && widens from
    then (type_l, if unsigned then extuw else extsw)
    else if narrows to && same_kind from ty_kind_long
    then (type_w, copy)
    else if is_floating_ty to && is_integer_ty from
    then (qbe_type to, stosi)
    else if is_integer_ty to && is_floating_ty from
    then (type_w, dtosi)
    else if same_kind to ty_kind_double && same_kind from ty_kind_float
    then (type_d, exts)
    else if same_kind to ty_kind_float && same_kind from ty_kind_double
    then (type_s, truncd)
    else (qbe_type to, copy)
