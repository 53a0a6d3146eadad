-- ===== src/Qbe/Steady/Stmt.antt =====
-- The statements of qbebasedcompiler/src/qbe.c leave the stack of loops as they found it.
use micro_colorschemes.Prelude.{
  ℕ, suc, Bool, not, Bool-cases, inl, inr, ltb, leb, some, none, List, [], ◌∷◌, length, Bytes, refl,
  subst, ◌≡◌, arith,
}
use micro_colorschemes.Token.{token_text}
use micro_colorschemes.Ast.{
  CType, Node, no_node, decl, var_decl, compound, expr_stmt, if_stmt, while_stmt, do_stmt, for_stmt,
  switch_stmt, case_stmt, default_stmt, return_stmt, break_stmt, continue_stmt, goto_stmt,
  label_stmt, NodeList, nil, cons,
}
use micro_colorschemes.Qbe.Code.{Instr}
use micro_colorschemes.Qbe.Emit.{LoopCtx, Emitter, Emit, emitted}
use micro_colorschemes.Qbe.Stmt.{
  qbe_label_id, label_place, optional_expr, emit_if, var_init, return_code, if_code, while_code,
  do_code, for_test, for_code, break_at, break_code, continue_at, continue_code, goto_code,
  label_code, qbe_stmt, qbe_stmts, qbe_labelled,
}
use micro_colorschemes.Qbe.Switch.{dispatch_code, switch_code, switch_cases}
use micro_colorschemes.Qbe.Steady.{
  Follows, RunFollows, Steady, steady, Steady-run, Steady-bind, Steady-then, Steady-pure,
  Steady-stop, Steady-emit, Steady-new_tmp, Steady-assign_new, Steady-in_ctx,
}
use micro_colorschemes.Qbe.Steady.Expr.{expr-Steady, store-Steady, Steady-if}

optional_expr-Steady : (e : Node) → Steady (optional_expr e)
optional_expr-Steady no_node = Steady-pure tt
optional_expr-Steady e = Steady-then (expr-Steady e) (Steady-pure tt)

emit_if-Steady : (b : Bool) {m : Emit Unit} → Steady m → Steady (emit_if b m)
emit_if-Steady b h = Steady-if b h (Steady-pure tt)

var_init-Steady : (id : ℕ) (t : CType) (e : Node) → Steady (var_init id t e)
unfolding var_init
var_init-Steady id t no_node = Steady-pure tt
var_init-Steady id t e =
    Steady-bind (Steady-assign_new _ _)
      (λ addr. Steady-bind (expr-Steady e) (λ v. store-Steady addr v t))

return_code-Steady : (e : Node) → Steady (return_code e)
unfolding return_code
return_code-Steady no_node = Steady-emit _
return_code-Steady e = Steady-bind (expr-Steady e) (λ v. Steady-emit _)

for_test-Steady : (id : ℕ) (c : Node) → Steady (for_test id c)
unfolding for_test
for_test-Steady id no_node = Steady-pure tt
for_test-Steady id c = Steady-bind (expr-Steady c) (λ t. Steady-emit _)

label_id-Steady : (name : Bytes) → Steady (qbe_label_id name)
unfolding qbe_label_id RunFollows
label_id-Steady name = steady (λ E.
    elim (Bool-cases (ltb (label_place E.qbe_labels name) (length E.qbe_labels))) [
      | inl e ↦ rw e (record { same_ctx = refl; counted = omega arith })
      | inr e ↦ rw e (elim (Bool-cases (leb 256 (label_place E.qbe_labels name))) [
        | inl f ↦ rw f tt
        | inr f ↦ rw f (record { same_ctx = refl; counted = omega arith })
      ])
    ])

break_at-Steady : (cs : List LoopCtx) → Steady (break_at cs)
unfolding break_at
break_at-Steady [] = Steady-stop _
break_at-Steady (c ∷ cs) = Steady-emit _

break_code-Steady : Steady break_code
unfolding break_code
break_code-Steady = steady (λ E. Steady-run (break_at-Steady E.qbe_ctx) E)

continue_at-Steady : (cs : List LoopCtx) → Steady (continue_at cs)
unfolding continue_at
continue_at-Steady [] = Steady-stop _
continue_at-Steady (c ∷ cs) = Steady-if c.is_switch (continue_at-Steady cs) (Steady-emit _)

continue_code-Steady : Steady continue_code
unfolding continue_code
continue_code-Steady = steady (λ E. Steady-run (continue_at-Steady E.qbe_ctx) E)

goto_code-Steady : (name : Bytes) → Steady (goto_code name)
unfolding goto_code
goto_code-Steady name = Steady-bind (label_id-Steady name) (λ id. Steady-emit _)

dispatch_code-Steady : (id test i : ℕ) (cases : List Node) → Steady (dispatch_code id test i cases)
unfolding dispatch_code
dispatch_code-Steady id test i [] = Steady-pure tt
dispatch_code-Steady id test i (case_stmt _ value _ ∷ cases) = Steady-bind (expr-Steady value) (λ v.
    Steady-bind (Steady-assign_new _ _) (λ m.
      Steady-then (Steady-then (Steady-emit _) (Steady-emit _))
        (dispatch_code-Steady id test (suc i) cases)))
dispatch_code-Steady id test i (_ ∷ cases) = dispatch_code-Steady id test (suc i) cases

module _ {m : Emit Unit} (h : Steady m) where
  label_code-Steady : (n : Node) → Steady (label_code n m)
  unfolding label_code
  label_code-Steady n = steady (λ E.
      Steady-run
        (Steady-bind (label_id-Steady (E.label_name n)) (λ id. Steady-then (Steady-emit _) h)) E)

  if_code-Steady : (c : Node) (ends : Bool) → Steady (if_code c m ends none)
  unfolding if_code
  if_code-Steady c ends = Steady-bind (expr-Steady c) (λ t. Steady-bind Steady-new_tmp (λ id.
      Steady-then (Steady-then (Steady-then (Steady-emit _) (Steady-emit _)) h) (Steady-emit _)))

  if_else_code-Steady :
      {k : Emit Unit} (c : Node) (ends : Bool) → Steady k → Steady (if_code c m ends (some k))
  unfolding if_code
  if_else_code-Steady c ends hk = Steady-bind (expr-Steady c) (λ t.
      Steady-bind Steady-new_tmp (λ id.
        Steady-then
          (Steady-then
            (Steady-then
              (Steady-then (Steady-then (Steady-then (Steady-emit _) (Steady-emit _)) h)
                (emit_if-Steady (not ends) (Steady-emit _)))
              (Steady-emit _))
            hk)
          (Steady-emit _)))

  while_code-Steady : (c : Node) (ends : Bool) → Steady (while_code c m ends)
  unfolding while_code
  while_code-Steady c ends = Steady-bind Steady-new_tmp (λ id.
      Steady-bind (Steady-then (Steady-emit _) (expr-Steady c)) (λ t.
        Steady-then
          (Steady-then
            (Steady-then (Steady-then (Steady-emit _) (Steady-emit _)) (Steady-in_ctx _ h))
            (emit_if-Steady (not ends) (Steady-emit _)))
          (Steady-emit _)))

  do_code-Steady : (c : Node) → Steady (do_code c m)
  unfolding do_code
  do_code-Steady c = Steady-bind Steady-new_tmp (λ id.
      Steady-then (Steady-then (Steady-then (Steady-emit _) (Steady-in_ctx _ h)) (Steady-emit _))
        (Steady-bind (expr-Steady c) (λ t. Steady-then (Steady-emit _) (Steady-emit _))))

  for_code-Steady : (i c p : Node) → Steady (for_code i c p m)
  unfolding for_code
  for_code-Steady i c p = Steady-bind Steady-new_tmp (λ id.
      Steady-then
        (Steady-then
          (Steady-then
            (Steady-then
              (Steady-then
                (Steady-then
                  (Steady-then (Steady-then (optional_expr-Steady i) (Steady-emit _))
                    (for_test-Steady id c))
                  (Steady-emit _))
                (Steady-in_ctx _ h))
              (Steady-emit _))
            (optional_expr-Steady p))
          (Steady-emit _))
        (Steady-emit _))

switch_code-Steady :
    (c body : Node) {k : ℕ → Emit Unit} → ((id : ℕ) → Steady (k id)) → Steady (switch_code c body k)
unfolding switch_code
switch_code-Steady c body h = Steady-bind Steady-new_tmp (λ id. Steady-bind (expr-Steady c) (λ test.
    Steady-then
      (Steady-then
        (Steady-then (dispatch_code-Steady id test 0 (switch_cases body)) (Steady-emit _))
        (Steady-in_ctx _ (h id)))
      (Steady-emit _)))

mutual
  unfolding qbe_stmt

  stmt-Steady : (n : Node) → Steady (qbe_stmt n)
  stmt-Steady no_node = Steady-pure tt
  stmt-Steady (compound _ ss) = stmts-Steady ss
  stmt-Steady (expr_stmt _ e) = optional_expr-Steady e
  stmt-Steady (var_decl _ id _ t init) = var_init-Steady id t init
  stmt-Steady (decl _ _ _) = Steady-pure tt
  stmt-Steady (return_stmt _ e) = return_code-Steady e
  stmt-Steady (if_stmt _ c m no_node) = if_code-Steady (stmt-Steady m) c _
  stmt-Steady (if_stmt _ c m e) = if_else_code-Steady (stmt-Steady m) c _ (stmt-Steady e)
  stmt-Steady (while_stmt _ c m) = while_code-Steady (stmt-Steady m) c _
  stmt-Steady (do_stmt _ c m) = do_code-Steady (stmt-Steady m) c
  stmt-Steady (for_stmt _ i c p m) = for_code-Steady (stmt-Steady m) i c p
  stmt-Steady (switch_stmt _ c (compound t ss)) =
      switch_code-Steady c _ (λ id. labelled-Steady id 0 0 ss)
  stmt-Steady (switch_stmt _ c (case_stmt t v m)) =
      switch_code-Steady c _ (λ id. Steady-then (Steady-emit _) (stmt-Steady m))
  stmt-Steady (switch_stmt _ c (default_stmt t m)) =
      switch_code-Steady c _ (λ id. Steady-then (Steady-emit _) (stmt-Steady m))
  stmt-Steady (switch_stmt _ c m) = switch_code-Steady c m (λ id. stmt-Steady m)
  stmt-Steady (case_stmt _ _ m) = stmt-Steady m
  stmt-Steady (default_stmt _ m) = stmt-Steady m
  stmt-Steady (break_stmt _) = break_code-Steady
  stmt-Steady (continue_stmt _) = continue_code-Steady
  stmt-Steady (goto_stmt _ name) = goto_code-Steady (token_text name)
  stmt-Steady (label_stmt t m) = label_code-Steady (stmt-Steady m) (label_stmt t m)
  stmt-Steady _ = Steady-stop _

  stmts-Steady : (ss : NodeList) → Steady (qbe_stmts ss)
  stmts-Steady nil = Steady-pure tt
  stmts-Steady (cons s ss) = Steady-then (stmt-Steady s) (stmts-Steady ss)

  labelled-Steady : (id place number : ℕ) (ss : NodeList) → Steady (qbe_labelled id place number ss)
  labelled-Steady id place number nil = Steady-pure tt
  labelled-Steady id place number (cons (case_stmt _ _ m) ss) =
      Steady-then (Steady-then (Steady-emit _) (stmt-Steady m))
        (labelled-Steady id (suc place) (suc number) ss)
  labelled-Steady id place number (cons (default_stmt _ m) ss) =
      Steady-then (Steady-then (Steady-emit _) (stmt-Steady m))
        (labelled-Steady id (suc place) (suc number) ss)
  labelled-Steady id place number (cons s ss) =
      Steady-then (stmt-Steady s) (labelled-Steady id (suc place) number ss)

-- A statement whose code is printed leaves the stack of loops and switches as it found it, and the
-- counter of temporaries and labels has not gone back.
pub qbe_stmt-Follows :
    (n : Node) (E F : Emitter) (code : List Instr) → qbe_stmt n E ≡ emitted code tt F → Follows E F
unfolding RunFollows
qbe_stmt-Follows n E F code e = subst (RunFollows E) e (Steady-run (stmt-Steady n) E)
