-- ===== src/MiniCc/Clang.antt =====
-- What mini-cc/src/clang_bridge.c asks of libclang, a parameter of the model.
use micro_colorschemes.Prelude.{ℕ, ◌<◌, Bool, true, false, List, Bytes, Option}
use micro_colorschemes.MiniCc.Ast.{ℤ}

-- The kinds of cursors that the source tells apart.
pub data CursorKind : Type 0 where
  integer_literal decl_ref_expr binary_operator unary_operator call_expr paren_expr : CursorKind
  unexposed_expr compound_stmt return_stmt decl_stmt if_stmt while_stmt null_stmt : CursorKind
  var_decl function_decl other_expression other_kind : CursorKind

pub data BinaryKind : Type 0 where
  bin_add bin_sub bin_mul bin_div bin_rem bin_eq bin_ne bin_lt bin_le bin_gt bin_ge : BinaryKind
  bin_land bin_lor bin_assign other_binary : BinaryKind

pub data UnaryKind : Type 0 where
  un_minus un_lnot other_unary : UnaryKind

pub data Severity : Type 0 where
  ignored note warning error fatal : Severity

-- `clang_isExpression` of a kind that no case of `lower_stmt` takes.
abbrev pub is_expression : CursorKind → Bool
is_expression integer_literal = true
is_expression decl_ref_expr = true
is_expression binary_operator = true
is_expression unary_operator = true
is_expression call_expr = true
is_expression paren_expr = true
is_expression unexposed_expr = true
is_expression other_expression = true
is_expression _ = false

-- `evaluate` is none where there is no result. `to_long` turns a `long long` into a `long`, and
-- `strtol` reads a text in the base that its prefix names.
pub record Clang (Cursor : Type 0) : Type 0 where
  pub kind : Cursor → CursorKind
  pub children : Cursor → List Cursor
  pub arguments : Cursor → List Cursor
  pub spelling : Cursor → Bytes
  pub binary_kind : Cursor → BinaryKind
  pub unary_kind : Cursor → UnaryKind
  pub evaluate : Cursor → Option ℤ
  pub to_long : ℤ → ℤ
  pub strtol : Bytes → ℤ
  pub is_from_main_file : Cursor → Bool
  pub is_definition : Cursor → Bool
  pub parse : Bytes → Option (List Severity × Cursor)

-- The cursors are a finite tree: the children and the arguments of a cursor are of lower rank.
pub data AllBelow {Cursor : Type 0} (rank : Cursor → ℕ) (n : ℕ) : List Cursor → Type 0 where
  none_below : AllBelow rank n List.[]
  one_below :
      {c : Cursor} {cs : List Cursor}
      → rank c < n
      → AllBelow rank n cs
      → AllBelow rank n (List.◌∷◌ c cs)

pub record IsTree {Cursor : Type 0} (clang : Clang Cursor) (rank : Cursor → ℕ) : Type 0 where
  pub children-AllBelow : (c : Cursor) → AllBelow rank (rank c) (clang.children c)
  pub arguments-AllBelow : (c : Cursor) → AllBelow rank (rank c) (clang.arguments c)
