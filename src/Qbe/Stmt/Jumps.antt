-- ===== src/Qbe/Stmt/Jumps.antt =====
-- Where `continue` of qbebasedcompiler/src/qbe.c leads.
use micro_colorschemes.Prelude.{◌≡◌, refl, true, false, List, [], ◌∷◌, ◌++◌}
use micro_colorschemes.Qbe.Code.{while_cond, jmp}
use micro_colorschemes.Qbe.Emit.{LoopCtx, Emitter, emitted, stopped, stop, emit, continue_outside}
use micro_colorschemes.Qbe.Stmt.{continue_at, continue_code}

pub data AllSwitches : List LoopCtx → Type 0 where
  no_switch : AllSwitches []
  one_switch :
      {c : LoopCtx} {cs : List LoopCtx} → c.is_switch ≡ true → AllSwitches cs → AllSwitches (c ∷ cs)

continue_at-loop :
    (cs rest : List LoopCtx) (c : LoopCtx)
    → AllSwitches cs
    → c.is_switch ≡ false
    → continue_at (cs ++ c ∷ rest) ≡ emit (jmp (while_cond c.continue_id))
unfolding continue_at
continue_at-loop [] rest c no_switch h = rw h refl
continue_at-loop (d ∷ cs) rest c (one_switch e k) h = rw e (continue_at-loop cs rest c k h)

continue_at-none : (cs : List LoopCtx) → AllSwitches cs → continue_at cs ≡ stop continue_outside
unfolding continue_at
continue_at-none [] no_switch = refl
continue_at-none (d ∷ cs) (one_switch e k) = rw e (continue_at-none cs k)

-- Inside switches alone, `continue` stops with a message. Inside a loop, whatever switches are
-- entered within it, it prints one jump, to the condition of the innermost loop as if that was a
-- `while`.
pub continue_code-innermost :
    (cs rest : List LoopCtx) (c : LoopCtx) (E : Emitter)
    → AllSwitches cs
    → c.is_switch ≡ false
    → (continue_code (record E { qbe_ctx = cs }) ≡ stopped continue_outside)
      × (continue_code (record E { qbe_ctx = cs ++ c ∷ rest })
          ≡ emitted
              (jmp (while_cond c.continue_id) ∷ [])
              tt
              (record E { qbe_ctx = cs ++ c ∷ rest }))
unfolding continue_code emit stop
continue_code-innermost cs rest c E k h =
    (rw (continue_at-none cs k) refl, rw (continue_at-loop cs rest c k h) refl)
