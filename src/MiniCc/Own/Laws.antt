-- ===== src/MiniCc/Own/Laws.antt =====
-- The blocks that `program_free` of mini-cc/src/ast.c frees.
use micro_colorschemes.Prelude.{
  ℕ, ◌+◌, ◌-◌, ◌≤◌, ◌≡◌, refl, ap, ◌∙◌, List, [], ◌∷◌, ◌++◌, Option, none, some, ◌==◌,
  if◌then◌else◌, arith,
}
use micro_colorschemes.MiniCc.Own.{
  ExprBlocks, no_block, int_block, var_blocks, binop_block, unop_block, call_blocks, ArgBlocks,
  no_args, arg_blocks, StmtBlocks, no_stmt, expr_stmt, decl_stmt, block_stmt, if_stmt, while_stmt,
  FuncBlocks, Heap, Action, then_heap, ◌>>◌, nothing, without, free, free_maybe, expr_free,
  args_free, stmt_free, names_free, func_free, funcs_free, program_free,
}

-- How often a pointer stands in a list.
abbrev pub count : ℕ → List ℕ → ℕ
count q [] = 0
count q (p ∷ ps) = let rest = count q ps in if q == p then rest + 1 else rest

-- With a heap that holds the blocks, the action frees them, each as often as it is listed, and no
-- other.
pub data Releases (f : Action) (ps : List ℕ) : Type 0 where
  releases :
      ((h : Heap)
        → ((q : ℕ) → count q ps ≤ h q)
        → (g : Heap) × (f h ≡ some g) × ((q : ℕ) → g q ≡ h q - count q ps))
      → Releases f ps

count-append : (q : ℕ) (xs ys : List ℕ) → count q (xs ++ ys) ≡ count q xs + count q ys
count-append q [] ys = omega arith
count-append q (x ∷ xs) ys = ground (arith, count-append q xs ys)

nothing-Releases : Releases nothing []
unfolding nothing
nothing-Releases = releases (λ h b. (h, refl, λ q. omega arith))

free-Releases : (p : ℕ) → Releases (free p) (p ∷ [])
unfolding free
free-Releases p = releases (λ h b. (without p h, ground (arith, b p), λ q. ground arith))

then-Releases :
    {f g : Action} {xs ys : List ℕ} → Releases f xs → Releases g ys → Releases (f >> g) (xs ++ ys)
unfolding ◌>>◌
then-Releases {f} {g} {xs} {ys} (releases r) (releases s) = releases (λ h b.
    let (h1, e, x) = r h (λ q. omega (arith, b q, count-append q xs ys)) in
    let (h2, d, y) = s h1 (λ q. omega (arith, b q, count-append q xs ys, x q)) in
    (h2, ap (λ o. then_heap o g) e ∙ d, λ q. omega (arith, x q, y q, count-append q xs ys)))

Releases-same :
    {f : Action} {xs ys : List ℕ}
    → ((q : ℕ) → count q xs ≡ count q ys)
    → Releases f xs
    → Releases f ys
Releases-same {f} {xs} {ys} w (releases r) = releases (λ h b.
    let (g, e, x) = r h (λ q. omega (arith, b q, w q)) in (g, e, λ q. omega (arith, x q, w q)))

-- A block that is freed last stands first in the list.
last-Releases : {f : Action} {xs : List ℕ} (p : ℕ) → Releases f xs → Releases (f >> free p) (p ∷ xs)
last-Releases {xs} p r =
    Releases-same (λ q. ground (arith, count-append q xs (p ∷ [])))
      (then-Releases r (free-Releases p))

-- The blocks that a tree owns.
abbrev pub maybe_block : Option ℕ → List ℕ
maybe_block none = []
maybe_block (some p) = p ∷ []

abbrev mutual
  pub expr_owned : ExprBlocks → List ℕ
  expr_owned no_block = []
  expr_owned (int_block e) = e ∷ []
  expr_owned (var_blocks e name) = e ∷ name ∷ []
  expr_owned (binop_block e l r) = e ∷ (expr_owned l ++ expr_owned r)
  expr_owned (unop_block e x) = e ∷ expr_owned x
  expr_owned (call_blocks e name args xs) = e ∷ name ∷ (args_owned xs ++ maybe_block args)

  pub args_owned : ArgBlocks → List ℕ
  args_owned no_args = []
  args_owned (arg_blocks x xs) = expr_owned x ++ args_owned xs

abbrev pub stmt_owned : StmtBlocks → List ℕ
stmt_owned no_stmt = []
stmt_owned (expr_stmt s e n) = s ∷ (expr_owned e ++ stmt_owned n)
stmt_owned (decl_stmt s name e n) = s ∷ name ∷ (expr_owned e ++ stmt_owned n)
stmt_owned (block_stmt s b n) = s ∷ (stmt_owned b ++ stmt_owned n)
stmt_owned (if_stmt s c t e n) =
    s ∷ (((expr_owned c ++ stmt_owned t) ++ stmt_owned e) ++ stmt_owned n)
stmt_owned (while_stmt s c b n) = s ∷ ((expr_owned c ++ stmt_owned b) ++ stmt_owned n)

abbrev pub func_owned : FuncBlocks → List ℕ
func_owned f = f.func ∷ (((f.name ∷ f.param_names) ++ maybe_block f.params) ++ stmt_owned f.body)

abbrev pub funcs_owned : List FuncBlocks → List ℕ
funcs_owned [] = []
funcs_owned (f ∷ fs) = func_owned f ++ funcs_owned fs

maybe-Releases : (o : Option ℕ) → Releases (free_maybe o) (maybe_block o)
unfolding free_maybe
maybe-Releases none = nothing-Releases
maybe-Releases (some p) = free-Releases p

mutual
  unfolding expr_free

  expr_free-Releases : (e : ExprBlocks) → Releases (expr_free e) (expr_owned e)
  expr_free-Releases no_block = nothing-Releases
  expr_free-Releases (int_block e) = free-Releases e
  expr_free-Releases (var_blocks e name) = last-Releases e (free-Releases name)
  expr_free-Releases (binop_block e l r) =
      last-Releases e (then-Releases (expr_free-Releases l) (expr_free-Releases r))
  expr_free-Releases (unop_block e x) = last-Releases e (expr_free-Releases x)
  expr_free-Releases (call_blocks e name args xs) =
      last-Releases e
        (last-Releases name (then-Releases (args_free-Releases xs) (maybe-Releases args)))

  args_free-Releases : (xs : ArgBlocks) → Releases (args_free xs) (args_owned xs)
  args_free-Releases no_args = nothing-Releases
  args_free-Releases (arg_blocks x xs) =
      then-Releases (expr_free-Releases x) (args_free-Releases xs)

stmt_free-Releases : (s : StmtBlocks) → Releases (stmt_free s) (stmt_owned s)
unfolding stmt_free
stmt_free-Releases no_stmt = nothing-Releases
stmt_free-Releases (expr_stmt s e n) =
    then-Releases (last-Releases s (expr_free-Releases e)) (stmt_free-Releases n)
stmt_free-Releases (decl_stmt s name e n) =
    then-Releases (last-Releases s (then-Releases (free-Releases name) (expr_free-Releases e)))
      (stmt_free-Releases n)
stmt_free-Releases (block_stmt s b n) =
    then-Releases (last-Releases s (stmt_free-Releases b)) (stmt_free-Releases n)
stmt_free-Releases (if_stmt s c t e n) =
    then-Releases
      (last-Releases s (
        then-Releases (then-Releases (expr_free-Releases c) (stmt_free-Releases t))
          (stmt_free-Releases e)))
      (stmt_free-Releases n)
stmt_free-Releases (while_stmt s c b n) =
    then-Releases (last-Releases s (then-Releases (expr_free-Releases c) (stmt_free-Releases b)))
      (stmt_free-Releases n)

names_free-Releases : (ps : List ℕ) → Releases (names_free ps) ps
unfolding names_free
names_free-Releases [] = nothing-Releases
names_free-Releases (p ∷ ps) = then-Releases (free-Releases p) (names_free-Releases ps)

func_free-Releases : (f : FuncBlocks) → Releases (func_free f) (func_owned f)
unfolding func_free
func_free-Releases f = last-Releases f.func (
    then-Releases
      (then-Releases (then-Releases (free-Releases f.name) (names_free-Releases f.param_names))
        (maybe-Releases f.params))
      (stmt_free-Releases f.body))

funcs_free-Releases : (fs : List FuncBlocks) → Releases (funcs_free fs) (funcs_owned fs)
unfolding funcs_free
funcs_free-Releases [] = nothing-Releases
funcs_free-Releases (f ∷ fs) = then-Releases (func_free-Releases f) (funcs_free-Releases fs)

program_free-Releases :
    (p : ℕ) (fs : List FuncBlocks) → Releases (program_free p fs) (p ∷ funcs_owned fs)
unfolding program_free
program_free-Releases p fs = last-Releases p (funcs_free-Releases fs)

released :
    {f : Action} {ps : List ℕ} (h : Heap)
    → Releases f ps
    → ((q : ℕ) → count q ps ≤ h q)
    → (g : Heap) × (f h ≡ some g) × ((q : ℕ) → g q ≡ h q - count q ps)
released h (releases r) b = r h b

-- On a heap in which every block of a program is live at least as often as the program holds it,
-- `program_free` ends, and it frees each of these blocks that often and no other: with blocks that are
-- all different, none is freed twice and none is left.
pub program_free-count :
    (p : ℕ) (fs : List FuncBlocks) (h : Heap)
    → ((q : ℕ) → count q (p ∷ funcs_owned fs) ≤ h q)
    → (g : Heap) × (program_free p fs h ≡ some g)
      × ((q : ℕ) → g q ≡ h q - count q (p ∷ funcs_owned fs))
program_free-count p fs h b = released h (program_free-Releases p fs) b
