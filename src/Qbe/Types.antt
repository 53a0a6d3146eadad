-- ===== src/Qbe/Types.antt =====
-- What qbebasedcompiler/src/qbe.c derives from a type (`type_size` to `is_integer_ty`), and
-- `ends_in_terminator`. A mnemonic is a constructor of its name.
pub mod Widths
use micro_colorschemes.Prelude.{ℕ, ◌*◌, ◌%◌, ◌^◌, Bool, true, false, ◌||◌, ltb, if◌then◌else◌}
use micro_colorschemes.Ast.{
  TypeKind, ty_kind_void, ty_kind_bool, ty_kind_char, ty_kind_short, ty_kind_int, ty_kind_long,
  ty_kind_float, ty_kind_double, ty_kind_ptr, ty_kind_array, CType, array, Node, compound,
  return_stmt, break_stmt, continue_stmt, goto_stmt, NodeList, nil, cons,
}
use micro_colorschemes.Ast.Types.{kind_of}

-- `type_size` but for arrays, by kind.
unfoldable pub kind_size : TypeKind → ℕ
kind_size ty_kind_void = 0
kind_size ty_kind_bool = 1
kind_size ty_kind_char = 1
kind_size ty_kind_short = 2
kind_size ty_kind_int = 4
kind_size ty_kind_long = 8
kind_size ty_kind_float = 4
kind_size ty_kind_double = 8
kind_size ty_kind_ptr = 8
kind_size _ = 8

-- A product that a `size_t` does not hold wraps around.
unfoldable pub type_size : CType → ℕ
unfolding kind_size
type_size (array _ b n) = n * type_size b % 2 ^ 64
type_size t = kind_size (kind_of t)

unfoldable pub type_align : CType → ℕ
unfolding type_size
type_align t = if ltb 8 (type_size t) then 8 else if ltb (type_size t) 1 then 1 else type_size t

pub data QbeType : Type 0 where
  type_w type_l type_s type_d : QbeType

unfoldable pub qbe_type : TypeKind → QbeType
qbe_type ty_kind_bool = type_w
qbe_type ty_kind_char = type_w
qbe_type ty_kind_short = type_w
qbe_type ty_kind_int = type_w
qbe_type ty_kind_long = type_l
qbe_type ty_kind_ptr = type_l
qbe_type ty_kind_array = type_l
qbe_type ty_kind_float = type_s
qbe_type ty_kind_double = type_d
qbe_type _ = type_w

pub data LoadOp : Type 0 where
  loadw loadl loads loadd : LoadOp

unfoldable pub load_op : TypeKind → LoadOp
load_op ty_kind_bool = loadw
load_op ty_kind_char = loadw
load_op ty_kind_short = loadw
load_op ty_kind_int = loadw
load_op ty_kind_long = loadl
load_op ty_kind_ptr = loadl
load_op ty_kind_array = loadl
load_op ty_kind_float = loads
load_op ty_kind_double = loadd
load_op _ = loadw

pub data StoreOp : Type 0 where
  storew storel stores stored : StoreOp

unfoldable pub store_op : TypeKind → StoreOp
store_op ty_kind_bool = storew
store_op ty_kind_char = storew
store_op ty_kind_short = storew
store_op ty_kind_int = storew
store_op ty_kind_long = storel
store_op ty_kind_ptr = storel
store_op ty_kind_float = stores
store_op ty_kind_double = stored
store_op _ = storew

-- The number in the mnemonic: `alloc4` is `alloc 4`.
pub data AllocOp : Type 0 where
  alloc : ℕ → AllocOp

unfoldable pub alloc_op : TypeKind → AllocOp
alloc_op ty_kind_bool = alloc 1
alloc_op ty_kind_char = alloc 1
alloc_op ty_kind_short = alloc 2
alloc_op ty_kind_int = alloc 4
alloc_op ty_kind_float = alloc 4
alloc_op ty_kind_long = alloc 8
alloc_op ty_kind_double = alloc 8
alloc_op ty_kind_ptr = alloc 8
alloc_op _ = alloc 8

unfoldable mutual
  pub ends_in_terminator : Node → Bool
  ends_in_terminator (return_stmt _ _) = true
  ends_in_terminator (break_stmt _) = true
  ends_in_terminator (continue_stmt _) = true
  ends_in_terminator (goto_stmt _ _) = true
  ends_in_terminator (compound _ ss) = last_ends ss
  ends_in_terminator _ = false

  -- The same of the last statement of a block; a block of none has no terminator.
  pub last_ends : NodeList → Bool
  last_ends nil = false
  last_ends (cons n nil) = ends_in_terminator n
  last_ends (cons n (cons m ss)) = last_ends (cons m ss)
