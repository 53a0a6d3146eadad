-- ===== src/Sema/Convert/Laws.antt =====
-- Laws of the conversions of qbebasedcompiler/src/sema.c.
use micro_colorschemes.Prelude.{◌≡◌, refl, ◌⊎◌, inl, inr, true, false, arith, Bool-cases, ==_refl}
use micro_colorschemes.Ast.{CType, no_type, scalar, ptr, array, func, Node, cast}
use micro_colorschemes.Ast.Types.{same_pointer, node_type, node_tok, kind_of, is_unsigned, base_of}
use micro_colorschemes.Sema.Convert.Kinds.{same_kind-path, Alike, same_pointer-Alike}
use micro_colorschemes.Sema.Convert.{usual_arith, fits_type, is_no_node, make_cast}

-- `usual_arith` returns the same type whatever the order of its operands.
pub usual_arith_comm : (a b : CType) → usual_arith a b ≡ usual_arith b a
unfolding usual_arith
usual_arith_comm a b = ground arith

same_pointer_refl : (t : CType) → same_pointer t t ≡ true
same_pointer_refl no_type = refl
same_pointer_refl (scalar s) = ==_refl _
same_pointer_refl (ptr i _) = ==_refl i
same_pointer_refl (array i _ _) = ==_refl i
same_pointer_refl (func i _ _ _) = ==_refl i

fits_type_refl : (t : CType) → fits_type t t ≡ true
unfolding fits_type
fits_type_refl t = ground (arith, same_pointer_refl t)

-- What `make_cast` returns for a node that is not NULL has a type that needs no cast to the wanted
-- one.
pub make_cast-fits :
    (n : Node) (to : CType)
    → is_no_node n ≡ false
    → fits_type (node_type (make_cast n to)) to ≡ true
unfolding make_cast
make_cast-fits n to e = elim (Bool-cases (fits_type (node_type n) to)) [
  | inl f ↦ ground (arith, e, f)
  | inr f ↦ ground (arith, e, f, fits_type_refl to)
]

fits_type-Alike : (a b : CType) → fits_type a b ≡ true → Alike a b
unfolding fits_type
fits_type-Alike a b h = elim (Bool-cases (same_pointer a b)) [
  | inl e ↦ same_pointer-Alike a b e
  | inr e ↦ (same_kind-path _ _ (ground (arith, h, e)), ground (arith, h, e))
]

fits_type-base :
    (a b : CType)
    → fits_type a b ≡ true
    → (same_pointer a b ≡ true) ⊎ (same_pointer (base_of a) (base_of b) ≡ true)
unfolding fits_type
fits_type-base a b h = elim (Bool-cases (same_pointer a b)) [
  | inl e ↦ inl e
  | inr e ↦ inr (ground (arith, h, e))
]

made_by :
    (n : Node) (to : CType)
    → is_no_node n ≡ false
    → (make_cast n to ≡ n) ⊎ (make_cast n to ≡ cast (node_tok n) to n to true)
unfolding make_cast
made_by n to e = elim (Bool-cases (fits_type (node_type n) to)) [
  | inl f ↦ inl (rw (e, f) refl)
  | inr f ↦ inr (rw (e, f) refl)
]

-- The node `r`, made of `n`, can stand where the type `to` is wanted: it has the kind and the sign of
-- `to`, and its type is `to` itself or has the base of `to`. It is `n`, or an implicit cast of `n`.
pub record IsCastOf (n : Node) (to : CType) (r : Node) : Type 0 where
  pub kind : kind_of (node_type r) ≡ kind_of to
  pub sign : is_unsigned (node_type r) ≡ is_unsigned to
  pub base :
      (same_pointer (node_type r) to ≡ true)
      ⊎ (same_pointer (base_of (node_type r)) (base_of to) ≡ true)
  pub made : (r ≡ n) ⊎ (r ≡ cast (node_tok n) to n to true)

-- What `make_cast` returns for a node that is not NULL has the kind and the sign of the wanted type,
-- and it is of that type or has its base. It is the node itself or an implicit cast of it to the
-- wanted type.
pub make_cast-IsCastOf :
    (n : Node) (to : CType) → is_no_node n ≡ false → IsCastOf n to (make_cast n to)
make_cast-IsCastOf n to e =
    let f = make_cast-fits n to e in
    let alike = fits_type-Alike (node_type (make_cast n to)) to f in
    record {
      kind = alike.0;
      sign = alike.1;
      base = fits_type-base (node_type (make_cast n to)) to f;
      made = made_by n to e;
    }
