-- ===== src/Qbe/Steady.antt =====
-- What the emitter of qbebasedcompiler/src/qbe.c leaves of its state.
pub mod Expr
pub mod Stmt
use micro_colorschemes.Prelude.{
  ℕ, ◌+◌, ◌≤◌, ◌≡◌, refl, sym, ap, ◌∙◌, arith, Bool-cases, inl, inr, leb, length, List, [], ◌∷◌,
  Bytes, ltb,
}
use micro_colorschemes.Ast.{Node}
use micro_colorschemes.Qbe.Types.{QbeType}
use micro_colorschemes.Qbe.Code.{Rhs, Instr, assign_to}
use micro_colorschemes.Qbe.Emit.{
  LoopCtx, Emitter, EmitError, Emitted, emitted, stopped, Emit, behind, then_emit, ◌>>=◌, ◌>>◌,
  pure, stop, emit, qbe_new_tmp, assign_new, enter_ctx, leave_ctx, in_ctx, tail_ctx,
}

-- The stack of loops and switches is the same, and the counter has not gone back.
pub record Follows (E F : Emitter) : Type 0 where
  pub same_ctx : F.qbe_ctx ≡ E.qbe_ctx
  pub counted : E.qbe_tmp ≤ F.qbe_tmp

-- A run that is not stopped.
unfoldable pub RunFollows : {A : Type 0} → Emitter → Emitted A → Type 0
RunFollows E (emitted code a F) = Follows E F
RunFollows E (stopped e) = Unit

pub data Steady {A : Type 0} (m : Emit A) : Type 0 where
  steady : ((E : Emitter) → RunFollows E (m E)) → Steady m

pub Steady-run : {A : Type 0} {m : Emit A} → Steady m → (E : Emitter) → RunFollows E (m E)
Steady-run (steady h) = h

Follows-refl : (E : Emitter) → Follows E E
Follows-refl E = record { same_ctx = refl; counted = omega arith }

Follows-trans : {E F G : Emitter} → Follows E F → Follows F G → Follows E G
Follows-trans f g = record {
  same_ctx = g.same_ctx ∙ f.same_ctx;
  counted = omega (arith, f.counted, g.counted);
}

RunFollows-behind :
    {A : Type 0} (E F : Emitter) (code : List Instr) (o : Emitted A)
    → Follows E F
    → RunFollows F o
    → RunFollows E (behind code o)
unfolding RunFollows
RunFollows-behind E F code (emitted more a G) f g = Follows-trans f g
RunFollows-behind E F code (stopped e) f g = tt

RunFollows-bind :
    {A B : Type 0} (E : Emitter) (o : Emitted A) (f : A → Emit B)
    → RunFollows E o
    → ((a : A) → Steady (f a))
    → RunFollows E (then_emit o f)
unfolding RunFollows
RunFollows-bind E (emitted code a F) f h g =
    RunFollows-behind E F code (f a F) h (Steady-run (g a) F)
RunFollows-bind E (stopped e) f h g = tt

module _ {A B : Type 0} {m : Emit A} where
  pub Steady-bind : {f : A → Emit B} → Steady m → ((a : A) → Steady (f a)) → Steady (m >>= f)
  unfolding ◌>>=◌
  Steady-bind {f} h g = steady (λ E. RunFollows-bind E (m E) f (Steady-run h E) g)

  pub Steady-then : {k : Emit B} → Steady m → Steady k → Steady (m >> k)
  unfolding ◌>>◌
  Steady-then h g = Steady-bind h (λ a. g)

module _ {A : Type 0} where
  pub Steady-pure : (a : A) → Steady (pure a)
  unfolding pure RunFollows
  Steady-pure a = steady (λ E. Follows-refl E)

  pub Steady-stop : (e : EmitError) → Steady {A = A} (stop e)
  unfolding stop RunFollows
  Steady-stop e = steady (λ E. tt)

pub Steady-emit : (i : Instr) → Steady (emit i)
unfolding emit RunFollows
Steady-emit i = steady (λ E. Follows-refl E)

pub Steady-new_tmp : Steady qbe_new_tmp
unfolding qbe_new_tmp RunFollows
Steady-new_tmp = steady (λ E. record { same_ctx = refl; counted = omega arith })

pub Steady-assign_new : (c : QbeType) (r : Rhs) → Steady (assign_new c r)
unfolding assign_new
Steady-assign_new c r =
    Steady-bind Steady-new_tmp (λ t. Steady-then (Steady-emit _) (Steady-pure t))

-- A context that is entered and left.
RunFollows-left :
    (E F : Emitter) (c : LoopCtx) (o : Emitted Unit)
    → F.qbe_ctx ≡ c ∷ E.qbe_ctx
    → E.qbe_tmp ≤ F.qbe_tmp
    → RunFollows F o
    → RunFollows E (then_emit o (λ u. leave_ctx))
unfolding RunFollows leave_ctx
RunFollows-left E F c (emitted code u G) e l f = record {
  same_ctx = ap tail_ctx (f.same_ctx ∙ e);
  counted = omega (arith, l, f.counted);
}
RunFollows-left E F c (stopped x) e l f = tt

-- Lines in front change nothing.
RunFollows-no_lines :
    {A : Type 0} (E : Emitter) (o : Emitted A) → RunFollows E o → RunFollows E (behind [] o)
RunFollows-no_lines E o h = RunFollows-behind E E [] o (Follows-refl E) h

pub Steady-in_ctx : (c : LoopCtx) {m : Emit Unit} → Steady m → Steady (in_ctx c m)
unfolding enter_ctx ◌>>◌ ◌>>=◌ RunFollows
Steady-in_ctx c {m} h = steady (λ E. elim (Bool-cases (leb 64 (length E.qbe_ctx))) [
  | inl e ↦ rw e tt
  | inr e ↦
      rw e
        (RunFollows-left E _ c _ refl (omega arith) (RunFollows-no_lines _ (m _) (Steady-run h _)))
])
