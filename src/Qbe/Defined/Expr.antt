-- ===== src/Qbe/Defined/Expr.antt =====
-- The temporaries of the expressions of qbebasedcompiler/src/qbe.c.
use micro_colorschemes.Prelude.{◌≡◌, refl, ℕ, Bool-cases, inl, inr, leb, ltb, List, [], length}
use micro_colorschemes.Ast.{CType, no_type}
use micro_colorschemes.Qbe.Types.{QbeType, type_l, type_size}
use micro_colorschemes.Qbe.Code.{Rhs, copy_int}
use micro_colorschemes.Qbe.Emit.{Emit, assign_new}
use micro_colorschemes.Qbe.Expr.{
  is_address, ident_value, cast_value, is_loaded, deref_value, call_value,
}
use micro_colorschemes.Qbe.Memory.{
  qbe_load_from_addr, qbe_store_to_addr, scaled, qbe_scale, index_size, index_address,
}
use micro_colorschemes.Qbe.Defined.{
  argument_temporaries, read_by_rhs, read_by, Among, none_left, one_more, Defines, Among-Grows,
  AllAmong-Grows, Grows-trans, itself, no_temporary, Defines-bind, Defines-pure, Defines-stop,
  Defines-emit, Defines-assign_new, one, two, one-among,
}

-- Code that defines its value wherever it stands.
pub data Value (m : Emit ℕ) : Type 0 where
  value : ((D : List ℕ) → Defines D itself m) → Value m

pub Value-at : {m : Emit ℕ} {D : List ℕ} → Value m → Defines D itself m
Value-at (value h) = h _

pub load-Defines :
    {D : List ℕ} {addr : ℕ} (t : CType)
    → Among addr D
    → Defines D itself (qbe_load_from_addr addr t)
unfolding qbe_load_from_addr read_by_rhs
load-Defines t h = Defines-assign_new _ _ (one h)

pub store-Defines :
    {D : List ℕ} {addr src : ℕ} (t : CType)
    → Among addr D
    → Among src D
    → Defines D no_temporary (qbe_store_to_addr addr src t)
unfolding qbe_store_to_addr read_by
store-Defines t h k = Defines-emit _ (two k h)

scaled-Defines : {D : List ℕ} {v : ℕ} (size : ℕ) → Among v D → Defines D itself (scaled v size)
unfolding scaled read_by_rhs
scaled-Defines size h = elim (Bool-cases (leb size 1)) [
  | inl e ↦ rw e (Defines-pure _ (one h))
  | inr e ↦ rw e (
      Defines-bind (Defines-assign_new type_l (copy_int size) none_left)
        (λ c D g k. Defines-assign_new type_l _ (two (Among-Grows g h) (one-among k))))
]

pub scale-Defines : {D : List ℕ} {v : ℕ} (t : CType) → Among v D → Defines D itself (qbe_scale v t)
unfolding qbe_scale
scale-Defines no_type h = Defines-pure _ (one h)
scale-Defines t h = scaled-Defines (type_size t) h

pub index-Value : {b i : Emit ℕ} (t : CType) → Value b → Value i → Value (index_address b i t)
unfolding index_address read_by_rhs
index-Value t hb hi = value (λ C. Defines-bind (Value-at hb) (λ b D g kb.
    Defines-bind (Value-at hi) (λ i D' g' ki.
      Defines-bind (scaled-Defines (index_size t) (one-among ki)) (λ s D'' g'' ks.
        Defines-assign_new _ _
          (two (Among-Grows (Grows-trans g' g'') (one-among kb)) (one-among ks))))))

pub Value-assign : (c : QbeType) (r : Rhs) → read_by_rhs r ≡ [] → Value (assign_new c r)
Value-assign c r e = value (λ D. Defines-assign_new c r (rw e none_left))

pub ident-Value : (id : ℕ) (t : CType) → Value (ident_value id t)
unfolding ident_value read_by_rhs
ident-Value id t = elim (Bool-cases (is_address t)) [
  | inl e ↦ rw e (Value-assign _ _ refl)
  | inr e ↦ rw e (
      value (λ C.
        Defines-bind (Defines-assign_new _ _ none_left) (λ a D g k. load-Defines t (one-among k))))
]

pub cast-Value : {e : Emit ℕ} (to from : CType) → Value e → Value (cast_value e to from)
unfolding cast_value read_by_rhs
cast-Value to from he =
    value
      (λ C. Defines-bind (Value-at he) (λ src D g k. Defines-assign_new _ _ (one (one-among k))))

pub deref-Value : {e : Emit ℕ} (t : CType) → Value e → Value (deref_value e t)
unfolding deref_value
deref-Value t he = elim (Bool-cases (is_loaded t)) [
  | inl e ↦ rw e (value (λ C. Defines-bind (Value-at he) (λ a D g k. load-Defines t (one-among k))))
  | inr e ↦ rw e he
]

-- Code that defines the arguments of a call wherever it stands.
pub data Arguments (m : Emit (List (QbeType × ℕ))) : Type 0 where
  arguments : ((D : List ℕ) → Defines D argument_temporaries m) → Arguments m

pub Arguments-at :
    {m : Emit (List (QbeType × ℕ))} {D : List ℕ} → Arguments m → Defines D argument_temporaries m
Arguments-at (arguments h) = h _

pub call-Value :
    {args : Emit (List (QbeType × ℕ))} {f : Emit ℕ} (t : CType)
    → Arguments args
    → Value f
    → Value (call_value args f t)
unfolding call_value read_by_rhs
call-Value t ha hf = value (λ C. Defines-bind (Arguments-at ha) (λ ts D g k.
    elim (Bool-cases (ltb 32 (length ts))) [
      | inl e ↦ rw e (Defines-stop _)
      | inr e ↦ rw e (
          Defines-bind (Value-at hf)
            (λ cf D' g' k'. Defines-assign_new _ _ (one_more (one-among k') (AllAmong-Grows g' k))))
    ]))
