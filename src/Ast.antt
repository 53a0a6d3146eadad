-- ===== src/Ast.antt =====
-- Types and syntax nodes of qbebasedcompiler/src/ast.c.
--
-- A `Type *` is a `CType`, with `no_type` for NULL. The scalar types are the singletons `ty_void` to
-- `ty_double`; a type made by `new_type` carries the number of its allocation, so that two pointers
-- are equal exactly if the numbers are. A `Node *` is a `Node`, with `no_node` for NULL, and a chain
-- along `next` is a `NodeList`. Each kind of node has the fields of its member of the union `u`; the
-- `name` and `len` of an identifier are the text of its token.
pub mod Types
pub mod Arena
use micro_colorschemes.Prelude.{ℕ, Bool, Bytes}
use micro_colorschemes.Token.{Token, TokenKind}

pub data TypeKind : Type 0 where
  ty_kind_void ty_kind_bool ty_kind_char ty_kind_short ty_kind_int ty_kind_long : TypeKind
  ty_kind_float ty_kind_double ty_kind_ptr ty_kind_array ty_kind_func : TypeKind
  ty_kind_struct ty_kind_union ty_kind_enum : TypeKind

-- The functions that return a singleton.
pub data Scalar : Type 0 where
  ty_void ty_bool ty_char ty_schar ty_uchar ty_short ty_ushort ty_int ty_uint : Scalar
  ty_long ty_ulong ty_float ty_double : Scalar

mutual
  pub data CType : Type 0 where
    no_type : CType
    scalar : Scalar → CType
    ptr : ℕ → CType → CType
    array : ℕ → CType → ℕ → CType
    func : ℕ → CType → NodeList → Bool → CType

  pub data Node : Type 0 where
    no_node : Node
    translation_unit : Token → NodeList → Node
    func_def : Token → Node → NodeList → Node → CType → Node
    decl : Token → CType → NodeList → Node
    var_decl : Token → ℕ → Node → CType → Node → Node
    param : Token → ℕ → CType → Node → Node
    compound : Token → NodeList → Node
    expr_stmt : Token → Node → Node
    if_stmt : Token → Node → Node → Node → Node
    while_stmt : Token → Node → Node → Node
    do_stmt : Token → Node → Node → Node
    for_stmt : Token → Node → Node → Node → Node → Node
    switch_stmt : Token → Node → Node → Node
    case_stmt : Token → Node → Node → Node
    default_stmt : Token → Node → Node
    return_stmt : Token → Node → Node
    break_stmt : Token → Node
    continue_stmt : Token → Node
    goto_stmt : Token → Token → Node
    label_stmt : Token → Node → Node
    ident : Token → CType → ℕ → Node
    int_lit : Token → CType → ℕ → Bool → Node
    float_lit : Token → CType → Bool → Node
    char_lit : Token → CType → ℕ → Node
    str_lit : Token → CType → ℕ → Bytes → Node
    binary : Token → CType → Node → Node → TokenKind → Node
    unary : Token → CType → Node → TokenKind → Node
    postfix : Token → CType → Node → TokenKind → Node
    assign : Token → CType → Node → Node → TokenKind → Node
    call : Token → CType → Node → NodeList → Node
    index : Token → CType → Node → Node → Node
    member : Token → CType → Node → Node → Bool → Node
    cast : Token → CType → Node → CType → Bool → Node
    sizeof_expr : Token → CType → Node → Node
    conditional : Token → CType → Node → Node → Node → Node
    comma_expr : Token → CType → Node → Node → Node

  pub data NodeList : Type 0 where
    nil : NodeList
    cons : Node → NodeList → NodeList
