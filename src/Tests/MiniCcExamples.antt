-- ===== src/Tests/MiniCcExamples.antt =====
-- The theorems on the bridge, the code generator and `main` of mini-cc, at the program
-- `int f(int x) { return x; }`.
use micro_colorschemes.Prelude.{
  ℕ, zero, suc, ◌-◌, ◌≡◌, ◌↔◌, true, List, [], ◌∷◌, codes, none, some, arith,
}
use micro_colorschemes.MiniCc.Ast.{
  pos, null_expr, expr_var, Stmt, stmt_return, stmt_decl, no_stmts, add_stmt, Program,
}
use micro_colorschemes.MiniCc.Clang.{
  CursorKind, decl_ref_expr, compound_stmt, return_stmt, function_decl, other_kind, other_binary,
  other_unary, warning, Clang,
}
use micro_colorschemes.MiniCc.Bridge.{empty_list, head_of, push_all}
use micro_colorschemes.MiniCc.Bridge.Chains.{
  short_empty, short_one, short_nil, short_cons, push_all-AllShort, push_all-lost,
}
use micro_colorschemes.MiniCc.Codegen.{Cranelift, codegen_emit}
use micro_colorschemes.MiniCc.Codegen.Laws.{IsGenerated, AllIdentity, codegen_emit-AllIdentity}
use micro_colorschemes.MiniCc.Main.{main}
use micro_colorschemes.MiniCc.Main.Laws.{IsReturned, main-IsReturned}
use micro_colorschemes.MiniCc.Own.{Heap, FuncBlocks, expr_stmt, no_stmt, var_blocks, program_free}
use micro_colorschemes.MiniCc.Own.Laws.{count, program_free-count}

abbrev first_decl : Stmt
first_decl = stmt_decl (codes "a") null_expr

abbrev second_decl : Stmt
second_decl = stmt_decl (codes "b") null_expr

abbrev last_return : Stmt
last_return = stmt_return (expr_var (codes "b"))

push_all-AllShort_example :
    head_of (
      push_all empty_list
        (add_stmt first_decl no_stmts ∷ no_stmts ∷ add_stmt last_return no_stmts ∷ []))
    ≡ add_stmt first_decl (add_stmt last_return no_stmts)
push_all-AllShort_example =
    push_all-AllShort (add_stmt first_decl no_stmts ∷ no_stmts ∷ add_stmt last_return no_stmts ∷ [])
      (short_cons short_one (short_cons short_empty (short_cons short_one short_nil)))

-- `int a, b; return b;`
push_all-lost_example :
    head_of (
      push_all empty_list
        (add_stmt first_decl (add_stmt second_decl no_stmts) ∷ add_stmt last_return no_stmts ∷ []))
    ≡ add_stmt first_decl (head_of (push_all empty_list (add_stmt last_return no_stmts ∷ [])))
push_all-lost_example =
    push_all-lost first_decl last_return (add_stmt second_decl no_stmts) no_stmts []

-- 4 is the root, 3 the function, 2 its body, 1 the `return`, and 0 the name.
abbrev cursor_kind : ℕ → CursorKind
cursor_kind zero = decl_ref_expr
cursor_kind (suc zero) = return_stmt
cursor_kind (suc (suc zero)) = compound_stmt
cursor_kind (suc (suc (suc zero))) = function_decl
cursor_kind _ = other_kind

abbrev child_of : ℕ → List ℕ
child_of zero = []
child_of (suc n) = n ∷ []

abbrev clang : Clang ℕ
clang = record {
  kind = cursor_kind;
  children = child_of;
  arguments = λ c. [];
  spelling = λ c. codes "x";
  binary_kind = λ c. other_binary;
  unary_kind = λ c. other_unary;
  evaluate = λ c. none;
  to_long = λ v. v;
  strtol = λ s. pos 0;
  is_from_main_file = λ c. true;
  is_definition = λ c. true;
  parse = λ path. some (warning ∷ [], 4);
}

-- A Cranelift that counts the functions of a module.
abbrev cranelift : Cranelift
cranelift = record {
  Module = ℕ;
  Signature = ℕ;
  Builder = ℕ;
  Block = ℕ;
  Value = ℕ;
  module_new = λ name. 0;
  signature_new = 0;
  params_push = suc;
  returns_push = suc;
  declare_function = λ m name sig. (m, suc m);
  builder_new = λ sig. 0;
  create_block = λ b. (0, b);
  append_block_params = λ b e. b;
  switch_to_block = λ b e. b;
  seal_block = λ b e. b;
  iconst = λ b v. (0, b);
  block_param = λ b e i. i;
  return_ = λ b v. b;
  finalize = λ b. b;
  define_function = λ m fid fn. m;
  finish_and_emit = λ m path. 0;
}

abbrev identity_program : Program
identity_program =
    record {
      name = codes "f";
      params = codes "x" ∷ [];
      body = add_stmt (stmt_return (expr_var (codes "x"))) no_stmts;
    }
    ∷ []

codegen_emit-AllIdentity_example :
    IsGenerated (codegen_emit cranelift identity_program (codes "out.o"))
    ↔ AllIdentity identity_program
codegen_emit-AllIdentity_example =
    codegen_emit-AllIdentity cranelift identity_program (codes "out.o")

main-IsReturned_example :
    IsReturned (main clang 4 cranelift (λ p. none) (codes "--emit-obj" ∷ codes "f.c" ∷ []))
main-IsReturned_example =
    main-IsReturned clang 4 cranelift (λ p. none) (codes "--emit-obj" ∷ codes "f.c" ∷ [])

-- A program of the block 1, with a function that returns its parameter.
abbrev program_blocks : List FuncBlocks
program_blocks =
    record {
      func = 2;
      name = 3;
      params = some 4;
      param_names = 5 ∷ [];
      body = expr_stmt 6 (var_blocks 7 8) no_stmt;
    }
    ∷ []

abbrev blocks : List ℕ
blocks = 1 ∷ 2 ∷ 3 ∷ 5 ∷ 4 ∷ 6 ∷ 7 ∷ 8 ∷ []

-- The heap of these blocks alone.
abbrev heap : Heap
heap q = count q blocks

program_free-count_example :
    (g : Heap) × (program_free 1 program_blocks heap ≡ some g)
    × ((q : ℕ) → g q ≡ heap q - count q blocks)
program_free-count_example = program_free-count 1 program_blocks heap (λ q. omega arith)
