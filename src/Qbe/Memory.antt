-- ===== src/Qbe/Memory.antt =====
-- Loads, stores and the addresses of elements in qbebasedcompiler/src/qbe.c.
use micro_colorschemes.Prelude.{ℕ, Bool, leb, if◌then◌else◌}
use micro_colorschemes.Ast.{ty_kind_ptr, ty_int, Scalar, CType, no_type, scalar, array}
use micro_colorschemes.Ast.Types.{kind_of, same_kind}
use micro_colorschemes.Qbe.Types.{QbeType, type_l, qbe_type, load_op, store_op, type_size}
use micro_colorschemes.Qbe.Code.{op_add, op_mul, copy_int, load, arith_op, store}
use micro_colorschemes.Qbe.Emit.{Emit, ◌>>=◌, pure, emit, assign_new}

-- `t ? t : d`.
abbrev pub type_or : CType → Scalar → CType
type_or no_type d = scalar d
type_or t d = t

abbrev pub class_of : CType → QbeType
class_of t = qbe_type (kind_of t)

abbrev pub is_pointer_ty : CType → Bool
is_pointer_ty t = same_kind (kind_of t) ty_kind_ptr

unfoldable pub qbe_load_from_addr : ℕ → CType → Emit ℕ
qbe_load_from_addr addr t =
    let ty = type_or t ty_int in assign_new (class_of ty) (load (load_op (kind_of ty)) addr)

unfoldable pub qbe_store_to_addr : ℕ → ℕ → CType → Emit Unit
qbe_store_to_addr addr src t = emit (store (store_op (kind_of (type_or t ty_int))) src addr)

-- `val` times `size`, unless the size is at most 1.
unfoldable pub scaled : ℕ → ℕ → Emit ℕ
scaled val size =
    if leb size 1
    then pure val
    else (assign_new type_l (copy_int size) >>= λ c. assign_new type_l (arith_op op_mul val c))

unfoldable pub qbe_scale : ℕ → CType → Emit ℕ
qbe_scale val no_type = pure val
qbe_scale val pointee = scaled val (type_size pointee)

-- The size by which an index is scaled: at a pointer, that of the pointer itself.
abbrev pub index_size : CType → ℕ
index_size no_type = 1
index_size (array _ b _) = type_size b
index_size t = type_size t

-- `case NODE_INDEX` of `qbe_lvalue_addr`.
unfoldable pub index_address : Emit ℕ → Emit ℕ → CType → Emit ℕ
index_address base idx t = base >>= λ b.
    idx >>= λ i. scaled i (index_size t) >>= λ s. assign_new type_l (arith_op op_add b s)
