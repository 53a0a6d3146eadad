-- ===== src/Qbe/Types/Widths.antt =====
-- The widths of the loads, stores and slots that qbebasedcompiler/src/qbe.c picks for a type.
use micro_colorschemes.Prelude.{ℕ, ◌≤◌, Bool, true, false, arith}
use micro_colorschemes.Ast.{
  TypeKind, ty_kind_void, ty_kind_bool, ty_kind_char, ty_kind_short, CType,
}
use micro_colorschemes.Qbe.Types.{
  type_align, LoadOp, loadw, loadl, loads, loadd, StoreOp, storew, storel, stores, stored, AllocOp,
  alloc,
}

-- The bytes that an instruction of QBE reads or writes: four for a word or a single, eight for a long
-- or a double.
abbrev pub load_width : LoadOp → ℕ
load_width loadw = 4
load_width loadl = 8
load_width loads = 4
load_width loadd = 8

abbrev pub store_width : StoreOp → ℕ
store_width storew = 4
store_width storel = 8
store_width stores = 4
store_width stored = 8

abbrev pub alloc_align : AllocOp → ℕ
alloc_align (alloc n) = n

-- The kinds of types that take up fewer bytes than a word.
abbrev pub is_narrow : TypeKind → Bool
is_narrow ty_kind_void = true
is_narrow ty_kind_bool = true
is_narrow ty_kind_char = true
is_narrow ty_kind_short = true
is_narrow _ = false

-- The alignment of any type lies between 1 and 8.
pub type_align-bounds : (t : CType) → (1 ≤ type_align t) × (type_align t ≤ 8)
unfolding type_align
type_align-bounds t = ground arith
