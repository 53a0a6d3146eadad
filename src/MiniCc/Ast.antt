-- ===== src/MiniCc/Ast.antt =====
-- The data types of mini-cc/src/ast.h, and the functions of mini-cc/src/ast.c that append.
--
-- An `Expr *` is an `Expr`, with `null_expr` for NULL, and a chain of statements along `next` is a
-- `Stmts`. Names are copied by `dup_str` and never NULL. `calloc` and `free` are left out.
use micro_colorschemes.Prelude.{ℕ, List, [], ◌∷◌, Bytes}

-- A `long`.
pub data ℤ : Type 0 where
  pos negsuc : ℕ → ℤ

pub data BinOpKind : Type 0 where
  op_add op_sub op_mul op_div op_mod op_eq op_ne op_lt op_le op_gt op_ge : BinOpKind
  op_and op_or op_assign : BinOpKind

pub data UnOpKind : Type 0 where
  unop_neg unop_not : UnOpKind

mutual
  pub data Expr : Type 0 where
    null_expr : Expr
    expr_int : ℤ → Expr
    expr_var : Bytes → Expr
    expr_binop : BinOpKind → Expr → Expr → Expr
    expr_unop : UnOpKind → Expr → Expr
    expr_call : Bytes → Exprs → Expr

  pub data Exprs : Type 0 where
    no_exprs : Exprs
    add_expr : Expr → Exprs → Exprs

mutual
  pub data Stmt : Type 0 where
    stmt_return : Expr → Stmt
    stmt_expr : Expr → Stmt
    stmt_decl : Bytes → Expr → Stmt
    stmt_block : Stmts → Stmt
    stmt_if : Expr → Stmts → Stmts → Stmt
    stmt_while : Expr → Stmts → Stmt

  pub data Stmts : Type 0 where
    no_stmts : Stmts
    add_stmt : Stmt → Stmts → Stmts

pub record Func : Type 0 where
  pub name : Bytes
  pub params : List Bytes
  pub body : Stmts

-- A `Program` is the chain of its functions.
abbrev pub Program : Type 0
Program = List Func

-- A statement appended is the last, alone in the chain that it makes.
unfoldable pub stmt_list_append : Stmts → Stmt → Stmts
stmt_list_append no_stmts s = add_stmt s no_stmts
stmt_list_append (add_stmt t ss) s = add_stmt t (stmt_list_append ss s)

unfoldable pub program_add_func : Program → Func → Program
program_add_func [] f = f ∷ []
program_add_func (g ∷ p) f = g ∷ program_add_func p f

unfoldable pub add_param : List Bytes → Bytes → List Bytes
add_param [] name = name ∷ []
add_param (p ∷ ps) name = p ∷ add_param ps name

unfoldable pub func_add_param : Func → Bytes → Func
unfolding add_param
func_add_param f name = record f { params = add_param f.params name }

unfoldable pub func_set_body : Func → Stmts → Func
func_set_body f body = record f { body = body }
