-- ===== src/Parser/Fuel/Steps.antt =====
-- Tokens passed by `parse_advance` to `parse_expect` of qbebasedcompiler/src/parser.c, and by what
-- follows a test.
use micro_colorschemes.Prelude.{
  ℕ, ◌<◌, ◌≡◌, refl, ap, ◌∙◌, inl, inr, Bool, true, false, Bool-cases, arith, if◌then◌else◌,
}
use micro_colorschemes.Token.{TokenKind, Token, tok_eof}
use micro_colorschemes.Token.Kinds.{kind_eq, kind_eq_iff}
use micro_colorschemes.Parser.State.{
  ◌>>◌, Parser, Parse, ◌>>=◌, pure, current, advanced, parse_advance, parse_match, if_check,
  if_state, parse_expect, new_type_id,
}
use micro_colorschemes.Parser.Fuel.{
  one_unless_eof, left, Goes, Fed, fed, FedOn, fed_on, Fed-of, FedOn-of, advanced-left,
  advanced-IsValid, Goes-later, Fed-pure, FedOn-weaken,
}

module _ {B : Type 0} where
  -- At a kind other than the end, `parse_advance` passes a token.
  pub FedOn-advance :
      {t : TokenKind} {k : ℕ} {f : Token → Parse B}
      → kind_eq t tok_eof ≡ false
      → ((a : Token) (j : ℕ) → j < k → Fed 0 j (f a))
      → FedOn t 1 k (parse_advance >>= f)
  unfolding parse_advance ◌>>=◌
  FedOn-advance {t} {k} {f} n g = fed_on (λ P e v l.
      let one : one_unless_eof P.cur.kind ≡ 1 =
        ap one_unless_eof e ∙ ap (λ b. if b then 0 else 1) n in
      let less = advanced-left P v in
      Goes-later 1 0 1 P (advanced P) (f P.cur (advanced P)) (omega (arith, less, one))
        (omega arith)
        (Fed-of (g P.cur (left (advanced P)) (omega (arith, less, one, l))) (advanced P)
          (advanced-IsValid P v) (omega arith)))

  pub Fed-if_check :
      (t : TokenKind) {d k : ℕ} {m n : Parse B}
      → FedOn t d k m
      → Fed d k n
      → Fed d k (if_check t m n)
  unfolding if_check
  Fed-if_check t {d} {k} {m} {n} hm hn = fed (λ P v l. elim (Bool-cases (kind_eq P.cur.kind t)) [
    | inl e ↦ rw e (FedOn-of hm P ((kind_eq_iff P.cur.kind t).0 e) v l)
    | inr e ↦ rw e (Fed-of hn P v l)
  ])

  pub FedOn-if_check :
      (t : TokenKind) {k : ℕ} {m : Parse B} (n : Parse B)
      → FedOn t 1 k m
      → FedOn t 1 k (if_check t m n)
  unfolding if_check
  FedOn-if_check t n h =
      fed_on (λ P e v l. rw ((kind_eq_iff P.cur.kind t).1 e) (FedOn-of h P e v l))

  pub FedOn-if_check_other :
      {t : TokenKind} (u : TokenKind) {d k : ℕ} (m : Parse B) {n : Parse B}
      → kind_eq t u ≡ false
      → FedOn t d k n
      → FedOn t d k (if_check u m n)
  unfolding if_check
  FedOn-if_check_other u m ne h = fed_on (λ P e v l.
      let other : kind_eq P.cur.kind u ≡ false = ap (λ j. kind_eq j u) e ∙ ne in
      rw other (FedOn-of h P e v l))

  pub FedOn-match :
      (t : TokenKind) {k : ℕ} {m : Parse B} (n : Parse B)
      → kind_eq t tok_eof ≡ false
      → ((j : ℕ) → j < k → Fed 0 j m)
      → FedOn t 1 k (parse_match t m n)
  unfolding parse_match ◌>>=◌ ◌>>◌ parse_advance
  FedOn-match t {k} {m} n ne hm = fed_on (λ P e v l.
      rw ((kind_eq_iff P.cur.kind t).1 e)
        (FedOn-of (FedOn-advance {f = λ a. m} ne (λ a j s. hm j s)) P e v l))

  pub Fed-match :
      (t : TokenKind) {k : ℕ} {m n : Parse B}
      → kind_eq t tok_eof ≡ false
      → ((j : ℕ) → j < k → Fed 0 j m)
      → Fed 0 k n
      → Fed 0 k (parse_match t m n)
  unfolding parse_match ◌>>=◌ ◌>>◌ parse_advance
  Fed-match t {k} {m} {n} ne hm hn = fed (λ P v l. elim (Bool-cases (kind_eq P.cur.kind t)) [
    | inl e ↦ rw e (
        FedOn-of (FedOn-weaken (FedOn-advance {f = λ a. m} ne (λ a j s. hm j s))) P
          ((kind_eq_iff P.cur.kind t).0 e) v l)
    | inr e ↦ rw e (Fed-of hn P v l)
  ])

module _ {A : Type 0} {d k : ℕ} {m n : Parse A} where
  pub Fed-if_state : (c : Parser → Bool) → Fed d k m → Fed d k n → Fed d k (if_state c m n)
  unfolding if_state
  Fed-if_state c hm hn = fed (λ P v l. elim (Bool-cases (c P)) [
    | inl e ↦ rw e (Fed-of hm P v l)
    | inr e ↦ rw e (Fed-of hn P v l)
  ])

  pub FedOn-if_state :
      {t : TokenKind} (c : Parser → Bool)
      → FedOn t d k m
      → FedOn t d k n
      → FedOn t d k (if_state c m n)
  unfolding if_state
  FedOn-if_state c hm hn = fed_on (λ P w v l. elim (Bool-cases (c P)) [
    | inl e ↦ rw e (FedOn-of hm P w v l)
    | inr e ↦ rw e (FedOn-of hn P w v l)
  ])

  -- A test that fails at the end.
  pub Fed-unless_eof :
      (c : Parser → Bool)
      → ((P : Parser) → c P ≡ true → kind_eq P.cur.kind tok_eof ≡ false)
      → ((t : TokenKind) → kind_eq t tok_eof ≡ false → FedOn t d k m)
      → Fed d k n
      → Fed d k (if_state c m n)
  unfolding if_state
  Fed-unless_eof c g hm hn = fed (λ P v l. elim (Bool-cases (c P)) [
    | inl e ↦ rw e (FedOn-of (hm P.cur.kind (g P e)) P refl v l)
    | inr e ↦ rw e (Fed-of hn P v l)
  ])

pub Fed-advance : {k : ℕ} → Fed 0 k parse_advance
unfolding Goes parse_advance
Fed-advance = fed (λ P v l. (advanced-IsValid P v, omega (arith, advanced-left P v)))

pub Fed-expect : {k : ℕ} (t : TokenKind) → kind_eq t tok_eof ≡ false → Fed 1 k (parse_expect t)
unfolding parse_expect Goes parse_advance ◌>>=◌ pure
Fed-expect t n = fed (λ P v l. elim (Bool-cases (kind_eq P.cur.kind t)) [
  | inl e ↦
      rw e (FedOn-of (FedOn-advance n (λ a j s. Fed-pure a)) P ((kind_eq_iff P.cur.kind t).0 e) v l)
  | inr e ↦ rw e tt
])

pub Fed-current : {k : ℕ} → Fed 0 k current
unfolding Goes current
Fed-current = fed (λ P v l. (v, omega arith))

pub Fed-new_type_id : {k : ℕ} → Fed 0 k new_type_id
unfolding Goes new_type_id
Fed-new_type_id = fed (λ P v l. (v, omega arith))
