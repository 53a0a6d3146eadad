-- ===== src/Qbe/Switch.antt =====
-- The cases of a `switch` in qbebasedcompiler/src/qbe.c and the jumps to them.
use micro_colorschemes.Prelude.{
  ℕ, zero, suc, ◌+◌, ◌-◌, Bool, true, false, List, [], ◌∷◌, ◌++◌, length, if◌then◌else◌,
}
use micro_colorschemes.Ast.{Node, no_node, compound, case_stmt, default_stmt, NodeList, nil, cons}
use micro_colorschemes.Qbe.Types.{type_w}
use micro_colorschemes.Qbe.Code.{
  Label, switch_end, case_label, switch_next, compare, ceq, jnz, jmp, label,
}
use micro_colorschemes.Qbe.Emit.{
  LoopCtx, Emit, ◌>>=◌, ◌>>◌, pure, emit, qbe_new_tmp, assign_new, in_ctx,
}
use micro_colorschemes.Qbe.Expr.{qbe_expr_val}

abbrev pub switch_ctx : ℕ → LoopCtx
switch_ctx id = record { break_id = id; continue_id = 0; is_switch = true }

abbrev pub is_case : Node → Bool
is_case (case_stmt _ _ _) = true
is_case (default_stmt _ _) = true
is_case _ = false

-- The statements of a compound; none of any other.
abbrev pub statements_of : Node → NodeList
statements_of (compound _ ss) = ss
statements_of _ = nil

-- At most `n` of the statements, as entries of the queue.
abbrev pub first_of : ℕ → NodeList → List Node
first_of zero ss = []
first_of (suc n) nil = []
first_of (suc n) (cons s ss) = s ∷ first_of n ss

-- The walk over the queue, of which `used` entries have been used: the cases, in the order of their
-- numbers. A queue of 128 entries needs 128 rounds at most.
unfoldable pub queue_walk : ℕ → ℕ → List Node → List Node
queue_walk zero used queue = []
queue_walk (suc n) used [] = []
queue_walk (suc n) used (s ∷ queue) =
    let below = first_of (128 - used) (statements_of s) in
    let rest = queue_walk n (used + length below) (queue ++ below) in
    if is_case s then s ∷ rest else rest

-- The queue in front of the walk.
abbrev pub switch_queue : Node → List Node
switch_queue no_node = []
switch_queue (compound _ ss) = first_of 128 ss
switch_queue s = s ∷ []

unfoldable pub switch_cases : Node → List Node
switch_cases body = queue_walk 128 (length (switch_queue body)) (switch_queue body)

-- The comparisons with the cases, from the `i`th on.
unfoldable pub dispatch_code : ℕ → ℕ → ℕ → List Node → Emit Unit
dispatch_code id test i [] = pure tt
dispatch_code id test i (case_stmt _ value _ ∷ cases) = qbe_expr_val value >>= λ v.
    assign_new type_w (compare ceq type_w test v) >>= λ m.
    emit (jnz m (case_label id i) (switch_next id i))
    >> emit (label (switch_next id i))
    >> dispatch_code id test (suc i) cases
dispatch_code id test i (_ ∷ cases) = dispatch_code id test (suc i) cases

-- The number of the last `default`, or that behind all.
unfoldable pub default_jump : ℕ → ℕ → Label → List Node → Label
default_jump id i found [] = found
default_jump id i found (default_stmt _ _ ∷ cases) = default_jump id (suc i) (case_label id i) cases
default_jump id i found (_ ∷ cases) = default_jump id (suc i) found cases

unfoldable pub switch_code : Node → Node → (ℕ → Emit Unit) → Emit Unit
switch_code c body labelled = qbe_new_tmp >>= λ id. qbe_expr_val c >>= λ test.
    dispatch_code id test 0 (switch_cases body)
    >> emit (jmp (default_jump id 0 (switch_end id) (switch_cases body)))
    >> in_ctx (switch_ctx id) (labelled id)
    >> emit (label (switch_end id))
