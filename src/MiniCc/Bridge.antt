-- ===== src/MiniCc/Bridge.antt =====
-- mini-cc/src/clang_bridge.c: the syntax trees from the cursors of libclang. The messages on stderr
-- are left out.
--
-- The recursion follows the tree of cursors, of which the model knows no bound: the functions take
-- those of the level below, and at the level 0 there is NULL. A level above the rank of a cursor is
-- enough (Levels).
pub mod Chains
pub mod Rank
pub mod Levels
use micro_colorschemes.Prelude.{
  ℕ, zero, suc, Bool, true, false, List, [], ◌∷◌, ◌++◌, map, Bytes, Option, none, some, ◌||◌, ◌&&◌,
  if◌then◌else◌,
}
use micro_colorschemes.MiniCc.Ast.{
  ℤ, BinOpKind, op_add, op_sub, op_mul, op_div, op_mod, op_eq, op_ne, op_lt, op_le, op_gt, op_ge,
  op_and, op_or, op_assign, UnOpKind, unop_neg, unop_not, Expr, null_expr, expr_int, expr_var,
  expr_binop, expr_unop, expr_call, Exprs, no_exprs, add_expr, Stmt, stmt_return, stmt_expr,
  stmt_decl, stmt_block, stmt_if, stmt_while, Stmts, no_stmts, add_stmt, Func, Program,
  program_add_func, func_add_param, func_set_body,
}
use micro_colorschemes.MiniCc.Clang.{
  CursorKind, integer_literal, decl_ref_expr, binary_operator, unary_operator, call_expr,
  paren_expr, unexposed_expr, compound_stmt, return_stmt, decl_stmt, if_stmt, while_stmt, null_stmt,
  var_decl, function_decl, other_expression, other_kind, BinaryKind, bin_add, bin_sub, bin_mul,
  bin_div, bin_rem, bin_eq, bin_ne, bin_lt, bin_le, bin_gt, bin_ge, bin_land, bin_lor, bin_assign,
  other_binary, UnaryKind, un_minus, un_lnot, other_unary, is_expression, Severity, error, fatal,
  Clang,
}

unfoldable pub map_binop : BinaryKind → Option BinOpKind
map_binop bin_add = some op_add
map_binop bin_sub = some op_sub
map_binop bin_mul = some op_mul
map_binop bin_div = some op_div
map_binop bin_rem = some op_mod
map_binop bin_eq = some op_eq
map_binop bin_ne = some op_ne
map_binop bin_lt = some op_lt
map_binop bin_le = some op_le
map_binop bin_gt = some op_gt
map_binop bin_ge = some op_ge
map_binop bin_land = some op_and
map_binop bin_lor = some op_or
map_binop bin_assign = some op_assign
map_binop other_binary = none

abbrev pub map_unop : UnaryKind → Option UnOpKind
map_unop un_minus = some unop_neg
map_unop un_lnot = some unop_not
map_unop other_unary = none

-- `if (!lhs || !rhs) return NULL;`
unfoldable pub checked_binop : BinOpKind → Expr → Expr → Expr
checked_binop op null_expr r = null_expr
checked_binop op l null_expr = null_expr
checked_binop op l r = expr_binop op l r

unfoldable pub checked_unop : UnOpKind → Expr → Expr
checked_unop op null_expr = null_expr
checked_unop op e = expr_unop op e

-- The lowering of the first child, which `expr_visitor` leaves in its context.
abbrev pub first_of : {C : Type 0} → (C → Expr) → List C → Expr
first_of f [] = null_expr
first_of f (c ∷ cs) = f c

abbrev pub all_exprs : {C : Type 0} → (C → Expr) → List C → Exprs
all_exprs f [] = no_exprs
all_exprs f (c ∷ cs) = add_expr (f c) (all_exprs f cs)

-- `StmtList`: the statements in front of `tail`, and the chain that starts at `tail`, in which more
-- may be linked behind it.
pub record StmtList : Type 0 where
  pub front : List Stmt
  pub tail : Stmts

abbrev pub empty_list : StmtList
empty_list = record { front = []; tail = no_stmts }

-- The chain from `head` on.
abbrev pub chain : List Stmt → Stmts → Stmts
chain [] t = t
chain (s ∷ ss) t = add_stmt s (chain ss t)

-- `l->tail->next = s` cuts off what was linked behind the tail.
unfoldable pub stmtlist_push : StmtList → Stmts → StmtList
stmtlist_push l no_stmts = l
stmtlist_push l (add_stmt s ss) = elim l.tail [
  | no_stmts ↦ record { front = l.front; tail = add_stmt s ss }
  | add_stmt t ts ↦ record { front = l.front ++ t ∷ []; tail = add_stmt s ss }
]

abbrev pub push_all : StmtList → List Stmts → StmtList
push_all l [] = l
push_all l (s ∷ ss) = push_all (stmtlist_push l s) ss

abbrev pub head_of : StmtList → Stmts
head_of l = chain l.front l.tail

abbrev pub is_var_decl : CursorKind → Bool
is_var_decl var_decl = true
is_var_decl _ = false

abbrev pub is_compound : CursorKind → Bool
is_compound compound_stmt = true
is_compound _ = false

abbrev pub is_function : CursorKind → Bool
is_function function_decl = true
is_function _ = false

abbrev pub is_error : Severity → Bool
is_error error = true
is_error fatal = true
is_error _ = false

abbrev pub had_error : List Severity → Bool
had_error [] = false
had_error (d ∷ ds) = is_error d || had_error ds

module _ {Cursor : Type 0} (clang : Clang Cursor) where
  abbrev pub lower_int_literal : Cursor → Expr
  lower_int_literal c = elim (clang.evaluate c) [
    | some v ↦ expr_int (clang.to_long v)
    | none ↦ expr_int (clang.strtol (clang.spelling c))
  ]

  -- `kids` are the first two children and their number, up to 2.
  abbrev pub binop_of : (Cursor → Expr) → BinOpKind → List Cursor → Expr
  binop_of f op (l ∷ r ∷ rest) = checked_binop op (f l) (f r)
  binop_of f op _ = null_expr

  abbrev pub mapped_binop : (Cursor → Expr) → Option BinOpKind → List Cursor → Expr
  mapped_binop f none kids = null_expr
  mapped_binop f (some op) kids = binop_of f op kids

  abbrev pub lower_binop : (Cursor → Expr) → Cursor → Expr
  lower_binop f c = mapped_binop f (map_binop (clang.binary_kind c)) (clang.children c)

  abbrev pub mapped_unop : (Cursor → Expr) → Option UnOpKind → List Cursor → Expr
  mapped_unop f none kids = null_expr
  mapped_unop f (some op) kids = checked_unop op (first_of f kids)

  abbrev pub lower_unop : (Cursor → Expr) → Cursor → Expr
  lower_unop f c = mapped_unop f (map_unop (clang.unary_kind c)) (clang.children c)

  abbrev pub lower_call : (Cursor → Expr) → Cursor → Expr
  lower_call f c = expr_call (clang.spelling c) (all_exprs f (clang.arguments c))

  abbrev pub expr_at : (Cursor → Expr) → Cursor → CursorKind → Expr
  expr_at f c integer_literal = lower_int_literal c
  expr_at f c decl_ref_expr = expr_var (clang.spelling c)
  expr_at f c binary_operator = lower_binop f c
  expr_at f c unary_operator = lower_unop f c
  expr_at f c call_expr = lower_call f c
  expr_at f c paren_expr = first_of f (clang.children c)
  expr_at f c unexposed_expr = first_of f (clang.children c)
  expr_at f c _ = null_expr

  unfoldable pub lower_expr : ℕ → Cursor → Expr
  lower_expr zero c = null_expr
  lower_expr (suc n) c = expr_at (lower_expr n) c (clang.kind c)

  -- Of the children of the condition, the first is lowered.
  abbrev pub condition_of : ℕ → Cursor → Expr
  condition_of n c = first_of (lower_expr n) (clang.children c)

  abbrev pub single : Stmt → Stmts
  single s = add_stmt s no_stmts

  -- The declarations of a `DeclStmt` that declare variables.
  abbrev pub lower_decl_stmt : ℕ → Cursor → Stmt
  lower_decl_stmt n c = stmt_decl (clang.spelling c) (first_of (lower_expr n) (clang.children c))

  abbrev pub decl_chains : ℕ → List Cursor → List Stmts
  decl_chains n [] = []
  decl_chains n (c ∷ cs) =
      let rest = decl_chains n cs in
      if is_var_decl (clang.kind c) then single (lower_decl_stmt n c) ∷ rest else rest

  abbrev pub lower_block : (Cursor → Stmts) → Cursor → Stmts
  lower_block f c = head_of (push_all empty_list (map f (clang.children c)))

  abbrev pub if_of : ℕ → (Cursor → Stmts) → List Cursor → Stmt
  if_of n f [] = stmt_if null_expr no_stmts no_stmts
  if_of n f (c ∷ []) = stmt_if (condition_of n c) no_stmts no_stmts
  if_of n f (c ∷ t ∷ []) = stmt_if (condition_of n c) (f t) no_stmts
  if_of n f (c ∷ t ∷ e ∷ rest) = stmt_if (condition_of n c) (f t) (f e)

  abbrev pub while_of : ℕ → (Cursor → Stmts) → List Cursor → Stmt
  while_of n f [] = stmt_while null_expr no_stmts
  while_of n f (c ∷ []) = stmt_while (condition_of n c) no_stmts
  while_of n f (c ∷ b ∷ rest) = stmt_while (condition_of n c) (f b)

  -- A statement of the kind `k`; an expression is lowered as it is, at the same cursor.
  abbrev pub stmt_at : ℕ → (Cursor → Stmts) → Cursor → CursorKind → Stmts
  stmt_at n f c compound_stmt = single (stmt_block (lower_block f c))
  stmt_at n f c return_stmt = single (stmt_return (first_of (lower_expr n) (clang.children c)))
  stmt_at n f c decl_stmt = head_of (push_all empty_list (decl_chains n (clang.children c)))
  stmt_at n f c if_stmt = single (if_of n f (clang.children c))
  stmt_at n f c while_stmt = single (while_of n f (clang.children c))
  stmt_at n f c null_stmt = no_stmts
  stmt_at n f c k = if is_expression k then single (stmt_expr (lower_expr (suc n) c)) else no_stmts

  unfoldable pub lower_stmt : ℕ → Cursor → Stmts
  lower_stmt zero c = no_stmts
  lower_stmt (suc n) c = stmt_at n (lower_stmt n) c (clang.kind c)

  -- The first child that is a compound statement is the body.
  abbrev pub body_of : ℕ → List Cursor → Stmts
  body_of n [] = no_stmts
  body_of n (c ∷ cs) =
      let rest = body_of n cs in
      if is_compound (clang.kind c) then lower_block (lower_stmt n) c else rest

  abbrev pub add_params : Func → List Cursor → Func
  add_params f [] = f
  add_params f (a ∷ rest) = add_params (func_add_param f (clang.spelling a)) rest

  abbrev pub func_new : Bytes → Func
  func_new name = record { name = name; params = []; body = no_stmts }

  unfoldable pub lower_function : ℕ → Cursor → Func
  lower_function n c =
      func_set_body (add_params (func_new (clang.spelling c)) (clang.arguments c))
        (body_of n (clang.children c))

  abbrev pub is_taken : Cursor → Bool
  is_taken c = clang.is_from_main_file c && (is_function (clang.kind c) && clang.is_definition c)

  unfoldable pub top_level : ℕ → Program → List Cursor → Program
  top_level n p [] = p
  top_level n p (c ∷ cs) =
      if is_taken c
      then top_level n (program_add_func p (lower_function n c)) cs
      else top_level n p cs

  abbrev pub bridged : ℕ → Option (List Severity × Cursor) → Option Program
  bridged n none = none
  bridged n (some (ds, root)) =
      if had_error ds then none else some (top_level n [] (clang.children root))

  unfoldable pub clang_bridge_parse : ℕ → Bytes → Option Program
  clang_bridge_parse n path = bridged n (clang.parse path)
