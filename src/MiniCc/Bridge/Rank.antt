-- ===== src/MiniCc/Bridge/Rank.antt =====
-- The level of mini-cc/src/clang_bridge.c's recursion on expressions.
use micro_colorschemes.Prelude.{
  ℕ, zero, suc, ◌≤◌, ◌<◌, ◌≡◌, refl, ap, ◌∙◌, List, ◌∷◌, map, Option, none, some, arith,
}
use micro_colorschemes.MiniCc.Ast.{Expr, add_expr, BinOpKind, UnOpKind, expr_call}
use micro_colorschemes.MiniCc.Clang.{
  CursorKind, integer_literal, binary_operator, unary_operator, call_expr, paren_expr,
  unexposed_expr, Clang, AllBelow, none_below, one_below, IsTree,
}
use micro_colorschemes.MiniCc.Bridge.{
  map_binop, map_unop, checked_binop, checked_unop, first_of, all_exprs, binop_of, mapped_binop,
  mapped_unop, expr_at, lower_expr,
}

module _ {Cursor : Type 0} (clang : Clang Cursor) (rank : Cursor → ℕ) (t : IsTree clang rank) where
  -- Two functions that agree on the cursors of a lower rank than `k`.
  abbrev pub SameBelow : {A : Type 0} → ℕ → (Cursor → A) → (Cursor → A) → Type 0
  SameBelow k f g = (c : Cursor) → rank c < k → f c ≡ g c

  first_of_agree :
      {k : ℕ} {cs : List Cursor} (f g : Cursor → Expr)
      → AllBelow rank k cs
      → SameBelow k f g
      → first_of f cs ≡ first_of g cs
  first_of_agree f g none_below h = refl
  first_of_agree f g (one_below {c} l b) h = h c l

  all_exprs_agree :
      {k : ℕ} {cs : List Cursor} (f g : Cursor → Expr)
      → AllBelow rank k cs
      → SameBelow k f g
      → all_exprs f cs ≡ all_exprs g cs
  all_exprs_agree f g none_below h = refl
  all_exprs_agree f g (one_below {c} {cs} l b) h =
      ap (λ x. add_expr x (all_exprs f cs)) (h c l) ∙ ap (add_expr (g c)) (all_exprs_agree f g b h)

  pub map_agree :
      {A : Type 0} {k : ℕ} {cs : List Cursor} (f g : Cursor → A)
      → AllBelow rank k cs
      → SameBelow k f g
      → map f cs ≡ map g cs
  map_agree f g none_below h = refl
  map_agree f g (one_below {c} {cs} l b) h =
      ap (λ x. x ∷ map f cs) (h c l) ∙ ap (λ xs. g c ∷ xs) (map_agree f g b h)

  binop_of_agree :
      {k : ℕ} {cs : List Cursor} (f g : Cursor → Expr) (op : BinOpKind)
      → AllBelow rank k cs
      → SameBelow k f g
      → binop_of clang f op cs ≡ binop_of clang g op cs
  binop_of_agree f g op none_below h = refl
  binop_of_agree f g op (one_below l none_below) h = refl
  binop_of_agree f g op (one_below {c} l (one_below {c = d} m b)) h =
      ap (λ x. checked_binop op x (f d)) (h c l) ∙ ap (checked_binop op (g c)) (h d m)

  mapped_binop_agree :
      {k : ℕ} {cs : List Cursor} (f g : Cursor → Expr) (o : Option BinOpKind)
      → AllBelow rank k cs
      → SameBelow k f g
      → mapped_binop clang f o cs ≡ mapped_binop clang g o cs
  mapped_binop_agree f g none b h = refl
  mapped_binop_agree f g (some op) b h = binop_of_agree f g op b h

  mapped_unop_agree :
      {k : ℕ} {cs : List Cursor} (f g : Cursor → Expr) (o : Option UnOpKind)
      → AllBelow rank k cs
      → SameBelow k f g
      → mapped_unop clang f o cs ≡ mapped_unop clang g o cs
  mapped_unop_agree f g none b h = refl
  mapped_unop_agree f g (some op) b h = ap (checked_unop op) (first_of_agree f g b h)

  expr_at_agree :
      (f g : Cursor → Expr) (c : Cursor) (k : CursorKind)
      → SameBelow (rank c) f g
      → expr_at clang f c k ≡ expr_at clang g c k
  expr_at_agree f g c integer_literal h = refl
  expr_at_agree f g c binary_operator h =
      mapped_binop_agree f g (map_binop (clang.binary_kind c)) (t.children-AllBelow c) h
  expr_at_agree f g c unary_operator h =
      mapped_unop_agree f g (map_unop (clang.unary_kind c)) (t.children-AllBelow c) h
  expr_at_agree f g c call_expr h =
      ap (expr_call (clang.spelling c)) (all_exprs_agree f g (t.arguments-AllBelow c) h)
  expr_at_agree f g c paren_expr h = first_of_agree f g (t.children-AllBelow c) h
  expr_at_agree f g c unexposed_expr h = first_of_agree f g (t.children-AllBelow c) h
  expr_at_agree f g c _ h = refl

  pub lower_expr_agree :
      (n m : ℕ) (c : Cursor) → rank c < n → rank c < m → lower_expr clang n c ≡ lower_expr clang m c
  unfolding lower_expr
  lower_expr_agree zero m c l b = let no : ⊥ = omega (arith, l) in elim no [ ]
  lower_expr_agree (suc n) zero c l b = let no : ⊥ = omega (arith, b) in elim no [ ]
  lower_expr_agree (suc n) (suc m) c l b =
      expr_at_agree (lower_expr clang n) (lower_expr clang m) c (clang.kind c)
        (λ d x. lower_expr_agree n m d (omega (arith, l, x)) (omega (arith, b, x)))

  -- The first child of a cursor whose rank is within both levels.
  pub first_below :
      (n m : ℕ) (c : Cursor)
      → rank c ≤ n
      → rank c ≤ m
      → first_of (lower_expr clang n) (clang.children c)
        ≡ first_of (lower_expr clang m) (clang.children c)
  first_below n m c l b =
      first_of_agree (lower_expr clang n) (lower_expr clang m) (t.children-AllBelow c)
        (λ d x. lower_expr_agree n m d (omega (arith, l, x)) (omega (arith, b, x)))
