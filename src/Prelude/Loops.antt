-- ===== src/Prelude/Loops.antt =====
-- `for (;;) { ... }` with `break`: the body returns `none` where the source breaks.
use Prim.Native.Nat.{ℕ, zero, suc, ◌<◌}
use mathlib.Core.Path.{◌≡◌, refl}
use mathlib.Core.Bool.{Bool, true, false}
use mathlib.Core.Logic.{◌⊎◌, inl, inr}
use mathlib.Core.Option.{Option, none, some}
use native.Mathlib.Omega.{arith}
use micro_colorschemes.Prelude.Tests.{Option-cases, if◌then◌else◌}

module _ {ℓ} {S : Type ℓ} where
  unfoldable pub iterate : ℕ → (S → Option S) → S → S
  iterate zero step s = s
  iterate (suc f) step s = elim (step s) [ none ↦ s | some t ↦ iterate f step t ]

  -- What every round keeps holds after the loop.
  pub iterate_inv {κ} :
      (P : S → Type κ) (step : S → Option S)
      → ((s t : S) → P s → step s ≡ some t → P t)
      → (f : ℕ) (s : S) → P s
      → P (iterate f step s)
  unfolding iterate
  iterate_inv P step keep zero s h = h
  iterate_inv P step keep (suc f) s h = elim (Option-cases (step s)) [
    | inl e ↦ rw (e, iterate) h
    | inr (t, e) ↦ rw (e, iterate) (iterate_inv P step keep f t (keep s t h e))
  ]

  -- With a measure below the fuel, the loop ends by its `break`.
  pub iterate_done {κ} :
      (P : S → Type κ) (measure : S → ℕ) (step : S → Option S)
      → ((s t : S) → P s → step s ≡ some t → P t × (measure t < measure s))
      → (f : ℕ) (s : S) → P s
      → measure s < f
      → step (iterate f step s) ≡ none
  unfolding iterate
  iterate_done P measure step keep zero s h m = absurd (omega arith)
  iterate_done P measure step keep (suc f) s h m = elim (Option-cases (step s)) [
    | inl e ↦ rw (e, iterate) e
    | inr (t, e) ↦
        let (h', less) = keep s t h e in
        rw (e, iterate) (iterate_done P measure step keep f t h' (omega arith))
  ]

-- The branch that a result of an optional value came from.
pub if-eq-some {ℓ} :
    {S : Type ℓ} (b : Bool) {x : S} {y : Option S} {z : S}
    → (if b then some x else y) ≡ some z
    → ((b ≡ true) × (x ≡ z)) ⊎ ((b ≡ false) × (y ≡ some z))
if-eq-some true h = inl (refl, cc)
if-eq-some false h = inr (refl, h)
