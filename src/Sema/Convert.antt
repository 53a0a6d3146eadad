-- ===== src/Sema/Convert.antt =====
-- The conversions of qbebasedcompiler/src/sema.c: `promote_integer`, `usual_arith`, `decay` and
-- `make_cast`.
pub mod Kinds
pub mod Laws
use micro_colorschemes.Prelude.{ℕ, ◌+◌, Bool, true, false, not, ◌&&◌, ◌||◌, ◌==◌, if◌then◌else◌}
use micro_colorschemes.Ast.{
  TypeKind, ty_kind_bool, ty_kind_char, ty_kind_short, ty_kind_int, ty_kind_long, ty_kind_float,
  ty_kind_double, ty_kind_ptr, ty_kind_array, ty_kind_enum, ty_int, ty_uint, ty_long, ty_ulong,
  ty_float, ty_double, CType, no_type, scalar, ptr, array, Node, no_node, cast,
}
use micro_colorschemes.Ast.Types.{
  kind_of, is_unsigned, base_of, same_kind, same_pointer, is_null, node_type, node_tok,
}

unfoldable pub is_integer_kind : TypeKind → Bool
is_integer_kind ty_kind_bool = true
is_integer_kind ty_kind_char = true
is_integer_kind ty_kind_short = true
is_integer_kind ty_kind_int = true
is_integer_kind ty_kind_long = true
is_integer_kind ty_kind_enum = true
is_integer_kind _ = false

unfoldable pub is_integer : CType → Bool
unfolding is_integer_kind
is_integer t = is_integer_kind (kind_of t)

unfoldable pub is_floating : CType → Bool
is_floating t = same_kind (kind_of t) ty_kind_float || same_kind (kind_of t) ty_kind_double

unfoldable pub is_arithmetic : CType → Bool
unfolding is_integer is_floating
is_arithmetic t = is_integer t || is_floating t

unfoldable pub is_pointer : CType → Bool
is_pointer t = same_kind (kind_of t) ty_kind_ptr

unfoldable pub promote_integer : CType → CType
promote_integer t = elim (kind_of t) [
  | ty_kind_bool ↦ scalar ty_int
  | ty_kind_char ↦ scalar ty_int
  | ty_kind_short ↦ scalar ty_int
  | ty_kind_enum ↦ scalar ty_int
  | _ ↦ t
]

-- The part of `usual_arith` behind the two promotions.
unfoldable pub usual_integer : CType → CType → CType
usual_integer a b =
    if same_kind (kind_of a) ty_kind_long || same_kind (kind_of b) ty_kind_long
    then (if is_unsigned a || is_unsigned b then scalar ty_ulong else scalar ty_long)
    else if is_unsigned a || is_unsigned b
    then scalar ty_uint
    else scalar ty_int

unfoldable pub usual_arith : CType → CType → CType
unfolding promote_integer usual_integer
usual_arith a b =
    if same_kind (kind_of a) ty_kind_double || same_kind (kind_of b) ty_kind_double
    then scalar ty_double
    else if same_kind (kind_of a) ty_kind_float || same_kind (kind_of b) ty_kind_float
    then scalar ty_float
    else usual_integer (promote_integer a) (promote_integer b)

-- An array becomes a new pointer type, numbered `id`.
unfoldable pub decay : ℕ → CType → CType
decay id (array _ b _) = ptr id b
decay id t = t

abbrev same_bool : Bool → Bool → Bool
same_bool true b = b
same_bool false b = not b

-- Does `make_cast` return a node of type `from` as it is? The types are one, or alike in kind, sign
-- and base; the base is compared as a pointer.
unfoldable pub fits_type : CType → CType → Bool
fits_type from to =
    same_pointer from to
    || not (is_null from)
      && same_kind (kind_of from) (kind_of to)
      && same_bool (is_unsigned from) (is_unsigned to)
      && same_pointer (base_of from) (base_of to)

abbrev pub is_no_node : Node → Bool
is_no_node no_node = true
is_no_node _ = false

unfoldable pub make_cast : Node → CType → Node
unfolding fits_type
make_cast from to =
    if is_no_node from
    then no_node
    else if fits_type (node_type from) to
    then from
    else cast (node_tok from) to from to true
