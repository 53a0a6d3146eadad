-- ===== src/MiniCc/Own.antt =====
-- `expr_free`, `stmt_free` and `program_free` of mini-cc/src/ast.c, on trees of which only the blocks
-- are kept: a pointer is a number.
--
-- The heap counts how often a block may still be freed, 1 for a live block and 0 for any other; a
-- `free` of a block with 0 is undefined, and then there is no heap. `free(NULL)` does nothing.
pub mod Laws
use micro_colorschemes.Prelude.{
  ℕ, ◌-◌, Bool, List, [], ◌∷◌, ◌++◌, Option, none, some, ◌==◌, if◌then◌else◌,
}

mutual
  pub data ExprBlocks : Type 0 where
    no_block : ExprBlocks
    int_block : ℕ → ExprBlocks
    var_blocks : ℕ → ℕ → ExprBlocks
    binop_block : ℕ → ExprBlocks → ExprBlocks → ExprBlocks
    unop_block : ℕ → ExprBlocks → ExprBlocks
    call_blocks : ℕ → ℕ → Option ℕ → ArgBlocks → ExprBlocks

  pub data ArgBlocks : Type 0 where
    no_args : ArgBlocks
    arg_blocks : ExprBlocks → ArgBlocks → ArgBlocks

-- A chain of statements along `next`; each has its block, and a declaration also that of its name.
pub data StmtBlocks : Type 0 where
  no_stmt : StmtBlocks
  expr_stmt : ℕ → ExprBlocks → StmtBlocks → StmtBlocks
  decl_stmt : ℕ → ℕ → ExprBlocks → StmtBlocks → StmtBlocks
  block_stmt : ℕ → StmtBlocks → StmtBlocks → StmtBlocks
  if_stmt : ℕ → ExprBlocks → StmtBlocks → StmtBlocks → StmtBlocks → StmtBlocks
  while_stmt : ℕ → ExprBlocks → StmtBlocks → StmtBlocks → StmtBlocks

-- A function's block, its name, the array of its parameters and their names, and its body.
pub record FuncBlocks : Type 0 where
  pub func : ℕ
  pub name : ℕ
  pub params : Option ℕ
  pub param_names : List ℕ
  pub body : StmtBlocks

abbrev pub Heap : Type 0
Heap = ℕ → ℕ

abbrev pub Action : Type 0
Action = Heap → Option Heap

abbrev pub then_heap : Option Heap → Action → Option Heap
then_heap none g = none
then_heap (some h) g = g h

infixl 5 ◌>>◌
unfoldable pub ◌>>◌ : Action → Action → Action
◌>>◌ f g h = then_heap (f h) g

unfoldable pub nothing : Action
nothing h = some h

abbrev pub without : ℕ → Heap → Heap
without p h q = if q == p then h q - 1 else h q

unfoldable pub free : ℕ → Action
free p h = if h p == 0 then none else some (without p h)

unfoldable pub free_maybe : Option ℕ → Action
free_maybe none = nothing
free_maybe (some p) = free p

unfoldable mutual
  pub expr_free : ExprBlocks → Action
  expr_free no_block = nothing
  expr_free (int_block e) = free e
  expr_free (var_blocks e name) = free name >> free e
  expr_free (binop_block e l r) = expr_free l >> expr_free r >> free e
  expr_free (unop_block e x) = expr_free x >> free e
  expr_free (call_blocks e name args xs) = args_free xs >> free_maybe args >> free name >> free e

  -- The loop over the arguments.
  pub args_free : ArgBlocks → Action
  args_free no_args = nothing
  args_free (arg_blocks x xs) = expr_free x >> args_free xs

unfoldable pub stmt_free : StmtBlocks → Action
stmt_free no_stmt = nothing
stmt_free (expr_stmt s e n) = expr_free e >> free s >> stmt_free n
stmt_free (decl_stmt s name e n) = free name >> expr_free e >> free s >> stmt_free n
stmt_free (block_stmt s b n) = stmt_free b >> free s >> stmt_free n
stmt_free (if_stmt s c t e n) = expr_free c >> stmt_free t >> stmt_free e >> free s >> stmt_free n
stmt_free (while_stmt s c b n) = expr_free c >> stmt_free b >> free s >> stmt_free n

unfoldable pub names_free : List ℕ → Action
names_free [] = nothing
names_free (p ∷ ps) = free p >> names_free ps

unfoldable pub func_free : FuncBlocks → Action
func_free f =
    free f.name
    >> names_free f.param_names
    >> free_maybe f.params
    >> stmt_free f.body
    >> free f.func

unfoldable pub funcs_free : List FuncBlocks → Action
funcs_free [] = nothing
funcs_free (f ∷ fs) = func_free f >> funcs_free fs

-- The block of the program is the last.
unfoldable pub program_free : ℕ → List FuncBlocks → Action
program_free p fs = funcs_free fs >> free p
