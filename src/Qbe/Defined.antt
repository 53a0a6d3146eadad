-- ===== src/Qbe/Defined.antt =====
-- Which temporaries the lines of qbebasedcompiler/src/qbe.c read and assign.
pub mod Expr
pub mod Operators
pub mod Values
use micro_colorschemes.Prelude.{ℕ, ◌≡◌, refl, sym, subst, List, [], ◌∷◌, ◌++◌}
use micro_colorschemes.Qbe.Types.{QbeType}
use micro_colorschemes.Qbe.Code.{
  Rhs, copy_int, copy_float, copy_str, copy_var, convert, load, arith_op, compare, not_zero,
  call_of, Instr, assign_to, store, jnz, ret,
}
use micro_colorschemes.Qbe.Emit.{
  Emitter, EmitError, Emitted, emitted, stopped, Emit, behind, then_emit, ◌>>=◌, ◌>>◌, pure, stop,
  emit, qbe_new_tmp, assign_new,
}

abbrev pub argument_temporaries : List (QbeType × ℕ) → List ℕ
argument_temporaries [] = []
argument_temporaries ((_, t) ∷ args) = t ∷ argument_temporaries args

unfoldable pub read_by_rhs : Rhs → List ℕ
read_by_rhs (convert _ t) = t ∷ []
read_by_rhs (load _ t) = t ∷ []
read_by_rhs (arith_op _ a b) = a ∷ b ∷ []
read_by_rhs (compare _ _ a b) = a ∷ b ∷ []
read_by_rhs (not_zero t) = t ∷ []
read_by_rhs (call_of f args) = f ∷ argument_temporaries args
read_by_rhs _ = []

unfoldable pub read_by : Instr → List ℕ
unfolding read_by_rhs
read_by (assign_to _ _ r) = read_by_rhs r
read_by (store _ src addr) = src ∷ addr ∷ []
read_by (jnz t _ _) = t ∷ []
read_by (ret t) = t ∷ []
read_by _ = []

-- The temporaries assigned behind a line, if those of `D` are in front of it.
unfoldable pub assigned : List ℕ → Instr → List ℕ
assigned D (assign_to t _ _) = t ∷ D
assigned D _ = D

unfoldable pub assigned_all : List ℕ → List Instr → List ℕ
unfolding assigned
assigned_all D [] = D
assigned_all D (i ∷ code) = assigned_all (assigned D i) code

pub data Among (t : ℕ) : List ℕ → Type 0 where
  first : {u : ℕ} {D : List ℕ} → t ≡ u → Among t (u ∷ D)
  later : {u : ℕ} {D : List ℕ} → Among t D → Among t (u ∷ D)

pub data AllAmong : List ℕ → List ℕ → Type 0 where
  none_left : {D : List ℕ} → AllAmong [] D
  one_more : {t : ℕ} {ts D : List ℕ} → Among t D → AllAmong ts D → AllAmong (t ∷ ts) D

-- Every line reads only temporaries of `D` and those that a line in front of it assigns.
pub data IsDefined : List ℕ → List Instr → Type 0 where
  no_line : {D : List ℕ} → IsDefined D []
  line :
      {D : List ℕ} {i : Instr} {code : List Instr}
      → AllAmong (read_by i) D
      → IsDefined (assigned D i) code
      → IsDefined D (i ∷ code)

-- The lines of a run are defined, and the temporaries of its value are assigned behind them.
unfoldable pub RunDefined : {A : Type 0} → List ℕ → (A → List ℕ) → Emitted A → Type 0
RunDefined D ts (emitted code a E) = IsDefined D code × AllAmong (ts a) (assigned_all D code)
RunDefined D ts (stopped e) = Unit

pub data Defines (D : List ℕ) {A : Type 0} (ts : A → List ℕ) (m : Emit A) : Type 0 where
  defines : ((E : Emitter) → RunDefined D ts (m E)) → Defines D ts m

pub Defines-run :
    {D : List ℕ} {A : Type 0} {ts : A → List ℕ} {m : Emit A}
    → Defines D ts m
    → (E : Emitter) → RunDefined D ts (m E)
Defines-run (defines h) = h

pub data Grows (D D' : List ℕ) : Type 0 where
  grows : ((t : ℕ) → Among t D → Among t D') → Grows D D'

pub Among-Grows : {t : ℕ} {D D' : List ℕ} → Grows D D' → Among t D → Among t D'
Among-Grows (grows g) h = g _ h

pub AllAmong-Grows : {ts D D' : List ℕ} → Grows D D' → AllAmong ts D → AllAmong ts D'
AllAmong-Grows g none_left = none_left
AllAmong-Grows g (one_more h hs) = one_more (Among-Grows g h) (AllAmong-Grows g hs)

pub Grows-trans : {C D E : List ℕ} → Grows C D → Grows D E → Grows C E
Grows-trans (grows f) (grows g) = grows (λ t h. g t (f t h))

pub Grows-refl : {D : List ℕ} → Grows D D
Grows-refl = grows (λ t h. h)

Grows-assigned : (D : List ℕ) (i : Instr) → Grows D (assigned D i)
unfolding assigned
Grows-assigned D (assign_to t c r) = grows (λ u h. later h)
Grows-assigned D _ = Grows-refl

Grows-assigned_all : (D : List ℕ) (code : List Instr) → Grows D (assigned_all D code)
unfolding assigned_all
Grows-assigned_all D [] = Grows-refl
Grows-assigned_all D (i ∷ code) =
    Grows-trans (Grows-assigned D i) (Grows-assigned_all (assigned D i) code)

assigned_all-append :
    (D : List ℕ) (code more : List Instr)
    → assigned_all D (code ++ more) ≡ assigned_all (assigned_all D code) more
unfolding assigned_all
assigned_all-append D [] more = refl
assigned_all-append D (i ∷ code) more = assigned_all-append (assigned D i) code more

IsDefined-append :
    (D : List ℕ) (code more : List Instr)
    → IsDefined D code
    → IsDefined (assigned_all D code) more
    → IsDefined D (code ++ more)
unfolding assigned_all
IsDefined-append D [] more h g = g
IsDefined-append D (i ∷ code) more (line r h) g =
    line r (IsDefined-append (assigned D i) code more h g)

RunDefined-behind :
    {A : Type 0} (D : List ℕ) (ts : A → List ℕ) (code : List Instr) (o : Emitted A)
    → IsDefined D code
    → RunDefined (assigned_all D code) ts o
    → RunDefined D ts (behind code o)
unfolding RunDefined
RunDefined-behind D ts code (emitted more a E) h (g, k) = (
  IsDefined-append D code more h g,
  subst (AllAmong (ts a)) (sym (assigned_all-append D code more)) k,
)
RunDefined-behind D ts code (stopped e) h g = tt

RunDefined-bind :
    {A B : Type 0} (D : List ℕ) (ts : A → List ℕ) (us : B → List ℕ) (o : Emitted A) (f : A → Emit B)
    → RunDefined D ts o
    → ((a : A) (D' : List ℕ) → Grows D D' → AllAmong (ts a) D' → Defines D' us (f a))
    → RunDefined D us (then_emit o f)
unfolding RunDefined
RunDefined-bind D ts us (emitted code a E) f (h, k) g =
    RunDefined-behind D us code (f a E) h
      (Defines-run (g a (assigned_all D code) (Grows-assigned_all D code) k) E)
RunDefined-bind D ts us (stopped e) f h g = tt

-- No temporary, and the temporary that a value is.
abbrev pub no_temporary : {A : Type 0} → A → List ℕ
no_temporary a = []

abbrev pub itself : ℕ → List ℕ
itself t = t ∷ []

module _ {A B : Type 0} {D : List ℕ} {ts : A → List ℕ} {us : B → List ℕ} {m : Emit A} where
  pub Defines-bind :
      {f : A → Emit B}
      → Defines D ts m
      → ((a : A) (D' : List ℕ) → Grows D D' → AllAmong (ts a) D' → Defines D' us (f a))
      → Defines D us (m >>= f)
  unfolding ◌>>=◌
  Defines-bind {f} (defines h) g = defines (λ E. RunDefined-bind D ts us (m E) f (h E) g)

module _ {A : Type 0} {D : List ℕ} {ts : A → List ℕ} where
  pub Defines-pure : (a : A) → AllAmong (ts a) D → Defines D ts (pure a)
  unfolding pure RunDefined assigned_all
  Defines-pure a h = defines (λ E. (no_line, h))

  pub Defines-stop : (e : EmitError) → Defines D ts (stop e)
  unfolding stop RunDefined
  Defines-stop e = defines (λ E. tt)

pub Defines-emit :
    {D : List ℕ} (i : Instr) → AllAmong (read_by i) D → Defines D no_temporary (emit i)
unfolding emit RunDefined
Defines-emit i h = defines (λ E. (line h no_line, none_left))

pub Defines-new_tmp : {D : List ℕ} → Defines D no_temporary qbe_new_tmp
unfolding qbe_new_tmp RunDefined
Defines-new_tmp = defines (λ E. (no_line, none_left))

pub Defines-assign :
    {D : List ℕ} (t : ℕ) (c : QbeType) (r : Rhs)
    → AllAmong (read_by_rhs r) D
    → Defines D (λ u. itself t) (emit (assign_to t c r))
unfolding emit RunDefined read_by assigned_all assigned
Defines-assign t c r h = defines (λ E. (line h no_line, one_more (first refl) none_left))

pub Defines-assign_new :
    {D : List ℕ} (c : QbeType) (r : Rhs)
    → AllAmong (read_by_rhs r) D
    → Defines D itself (assign_new c r)
unfolding assign_new ◌>>◌
Defines-assign_new c r h = Defines-bind Defines-new_tmp (λ t D g n.
    Defines-bind (Defines-assign t c r (AllAmong-Grows g h)) (λ u D' g' k. Defines-pure t k))

module _ {A B : Type 0} {D : List ℕ} {ts : A → List ℕ} {us : B → List ℕ} {m : Emit A}
    {k : Emit B} where
  pub Defines-then :
      Defines D ts m
      → ((a : A) (D' : List ℕ) → Grows D D' → AllAmong (ts a) D' → Defines D' us k)
      → Defines D us (m >> k)
  unfolding ◌>>◌
  Defines-then h g = Defines-bind h g

-- What is assigned in front of some code is assigned behind it.
RunDefined-keep :
    {A : Type 0} (D ts : List ℕ) (us : A → List ℕ) (o : Emitted A)
    → AllAmong ts D
    → RunDefined D us o
    → RunDefined D (λ a. ts) o
unfolding RunDefined
RunDefined-keep D ts us (emitted code a E) k (h, n) =
    (h, AllAmong-Grows (Grows-assigned_all D code) k)
RunDefined-keep D ts us (stopped e) k h = tt

pub Defines-keep :
    {A : Type 0} {D ts : List ℕ} {us : A → List ℕ} {m : Emit A}
    → AllAmong ts D
    → Defines D us m
    → Defines D (λ a. ts) m
Defines-keep {m} k (defines h) = defines (λ E. RunDefined-keep _ _ _ (m E) k (h E))

-- One temporary is there, and two.
pub one : {t : ℕ} {D : List ℕ} → Among t D → AllAmong (t ∷ []) D
one h = one_more h none_left

pub two : {t u : ℕ} {D : List ℕ} → Among t D → Among u D → AllAmong (t ∷ u ∷ []) D
two h k = one_more h (one k)

pub one-among : {t : ℕ} {D : List ℕ} → AllAmong (t ∷ []) D → Among t D
one-among (one_more h n) = h
