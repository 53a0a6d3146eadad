-- ===== src/Ast/Types.antt =====
-- The fields of types and nodes (qbebasedcompiler/src/ast.c) and the singletons.
use micro_colorschemes.Prelude.{ℕ, Bool, true, false, ◌==◌}
use micro_colorschemes.Token.{Token, tok_eof}
use micro_colorschemes.Ast.{
  TypeKind, ty_kind_void, ty_kind_bool, ty_kind_char, ty_kind_short, ty_kind_int, ty_kind_long,
  ty_kind_float, ty_kind_double, ty_kind_ptr, ty_kind_array, ty_kind_func, ty_kind_struct,
  ty_kind_union, ty_kind_enum, Scalar, ty_void, ty_bool, ty_char, ty_schar, ty_uchar, ty_short,
  ty_ushort, ty_int, ty_uint, ty_long, ty_ulong, ty_float, ty_double, CType, no_type, scalar, ptr,
  array, func, Node, NodeList,
}

abbrev pub scalar_kind : Scalar → TypeKind
scalar_kind ty_void = ty_kind_void
scalar_kind ty_bool = ty_kind_bool
scalar_kind ty_char = ty_kind_char
scalar_kind ty_schar = ty_kind_char
scalar_kind ty_uchar = ty_kind_char
scalar_kind ty_short = ty_kind_short
scalar_kind ty_ushort = ty_kind_short
scalar_kind ty_int = ty_kind_int
scalar_kind ty_uint = ty_kind_int
scalar_kind ty_long = ty_kind_long
scalar_kind ty_ulong = ty_kind_long
scalar_kind ty_float = ty_kind_float
scalar_kind ty_double = ty_kind_double

abbrev pub scalar_unsigned : Scalar → Bool
scalar_unsigned ty_uchar = true
scalar_unsigned ty_ushort = true
scalar_unsigned ty_uint = true
scalar_unsigned ty_ulong = true
scalar_unsigned _ = false

-- The field `kind`. At NULL the source reads through a null pointer; the kind here is `void`.
abbrev pub kind_of : CType → TypeKind
kind_of no_type = ty_kind_void
kind_of (scalar s) = scalar_kind s
kind_of (ptr _ _) = ty_kind_ptr
kind_of (array _ _ _) = ty_kind_array
kind_of (func _ _ _ _) = ty_kind_func

-- The field `is_unsigned`, which `new_type` clears.
abbrev pub is_unsigned : CType → Bool
is_unsigned (scalar s) = scalar_unsigned s
is_unsigned _ = false

-- The field `base`, NULL in a scalar.
abbrev pub base_of : CType → CType
base_of (ptr _ b) = b
base_of (array _ b _) = b
base_of (func _ b _ _) = b
base_of _ = no_type

abbrev pub params_of : CType → NodeList
params_of (func _ _ ps _) = ps
params_of _ = NodeList.nil

-- The field `type` of a node.
abbrev pub node_type : Node → CType
node_type (Node.ident _ t _) = t
node_type (Node.int_lit _ t _ _) = t
node_type (Node.float_lit _ t _) = t
node_type (Node.char_lit _ t _) = t
node_type (Node.str_lit _ t _ _) = t
node_type (Node.binary _ t _ _ _) = t
node_type (Node.unary _ t _ _) = t
node_type (Node.postfix _ t _ _) = t
node_type (Node.assign _ t _ _ _) = t
node_type (Node.call _ t _ _) = t
node_type (Node.index _ t _ _) = t
node_type (Node.member _ t _ _ _) = t
node_type (Node.cast _ t _ _ _) = t
node_type (Node.sizeof_expr _ t _) = t
node_type (Node.conditional _ t _ _ _) = t
node_type (Node.comma_expr _ t _ _) = t
node_type _ = no_type

abbrev pub no_token : Token
no_token = record {
  kind = tok_eof;
  start = record { offset = 0; bytes = mathlib.Core.List.[] };
  len = 0;
  line = 0;
  col = 0;
}

-- The field `tok`.
abbrev pub node_tok : Node → Token
node_tok Node.no_node = no_token
node_tok (Node.translation_unit t _) = t
node_tok (Node.func_def t _ _ _ _) = t
node_tok (Node.decl t _ _) = t
node_tok (Node.var_decl t _ _ _ _) = t
node_tok (Node.param t _ _ _) = t
node_tok (Node.compound t _) = t
node_tok (Node.expr_stmt t _) = t
node_tok (Node.if_stmt t _ _ _) = t
node_tok (Node.while_stmt t _ _) = t
node_tok (Node.do_stmt t _ _) = t
node_tok (Node.for_stmt t _ _ _ _) = t
node_tok (Node.switch_stmt t _ _) = t
node_tok (Node.case_stmt t _ _) = t
node_tok (Node.default_stmt t _) = t
node_tok (Node.return_stmt t _) = t
node_tok (Node.break_stmt t) = t
node_tok (Node.continue_stmt t) = t
node_tok (Node.goto_stmt t _) = t
node_tok (Node.label_stmt t _) = t
node_tok (Node.ident t _ _) = t
node_tok (Node.int_lit t _ _ _) = t
node_tok (Node.float_lit t _ _) = t
node_tok (Node.char_lit t _ _) = t
node_tok (Node.str_lit t _ _ _) = t
node_tok (Node.binary t _ _ _ _) = t
node_tok (Node.unary t _ _ _) = t
node_tok (Node.postfix t _ _ _) = t
node_tok (Node.assign t _ _ _ _) = t
node_tok (Node.call t _ _ _) = t
node_tok (Node.index t _ _ _) = t
node_tok (Node.member t _ _ _ _) = t
node_tok (Node.cast t _ _ _ _) = t
node_tok (Node.sizeof_expr t _ _) = t
node_tok (Node.conditional t _ _ _ _) = t
node_tok (Node.comma_expr t _ _ _) = t

abbrev pub kind_number : TypeKind → ℕ
kind_number ty_kind_void = 0
kind_number ty_kind_bool = 1
kind_number ty_kind_char = 2
kind_number ty_kind_short = 3
kind_number ty_kind_int = 4
kind_number ty_kind_long = 5
kind_number ty_kind_float = 6
kind_number ty_kind_double = 7
kind_number ty_kind_ptr = 8
kind_number ty_kind_array = 9
kind_number ty_kind_func = 10
kind_number ty_kind_struct = 11
kind_number ty_kind_union = 12
kind_number ty_kind_enum = 13

-- `==` on type kinds.
abbrev pub same_kind : TypeKind → TypeKind → Bool
same_kind a b = kind_number a == kind_number b

abbrev pub scalar_number : Scalar → ℕ
scalar_number ty_void = 0
scalar_number ty_bool = 1
scalar_number ty_char = 2
scalar_number ty_schar = 3
scalar_number ty_uchar = 4
scalar_number ty_short = 5
scalar_number ty_ushort = 6
scalar_number ty_int = 7
scalar_number ty_uint = 8
scalar_number ty_long = 9
scalar_number ty_ulong = 10
scalar_number ty_float = 11
scalar_number ty_double = 12

-- `==` on `Type *`.
abbrev pub same_pointer : CType → CType → Bool
same_pointer no_type no_type = true
same_pointer (scalar a) (scalar b) = scalar_number a == scalar_number b
same_pointer (ptr i _) (ptr j _) = i == j
same_pointer (array i _ _) (array j _ _) = i == j
same_pointer (func i _ _ _) (func j _ _ _) = i == j
same_pointer _ _ = false

abbrev pub is_null : CType → Bool
is_null no_type = true
is_null _ = false
