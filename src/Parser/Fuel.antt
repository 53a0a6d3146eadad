-- ===== src/Parser/Fuel.antt =====
-- The tokens that a function of qbebasedcompiler/src/parser.c passes, and the tokens left.
pub mod Steps
pub mod Expr
pub mod Types
pub mod Stmt
pub mod Unit
pub mod Progress
pub mod Loop
use micro_colorschemes.Prelude.{
  ℕ, suc, ◌+◌, ◌-◌, ◌≤◌, ◌<◌, ◌≡◌, ◌≢◌, refl, sym, ap, ◌∙◌, subst, inl, inr, Bool, true, false,
  Bool-cases, arith, if◌then◌else◌, length,
}
use micro_colorschemes.Token.{TokenKind, Token, Ptr, tok_eof}
use micro_colorschemes.Token.Kinds.{kind_eq, kind_eq_iff}
use micro_colorschemes.Lexer.{Lexer}
use micro_colorschemes.Lexer.Next.{next_token}
use micro_colorschemes.Lexer.Bounds.{IsValid, length-view}
use micro_colorschemes.Lexer.Bounds.Next.{next_token-IsTokenOf}
use micro_colorschemes.Lexer.Bounds.Finish.{fewer_left}
use micro_colorschemes.Ast.{CType, Node, NodeList}
use micro_colorschemes.Parser.State.{
  ◌>>◌, Parser, ParseError, Outcome, done, failed, no_fuel, Parse, then_parse, ◌>>=◌, pure, fail,
  on_kind, current, advanced, parse_advance, parse_check, parse_match, if_check, if_state,
  parse_expect, new_type_id,
}
use micro_colorschemes.Parser.Level.{Saw, Level}

-- 0 for the end, 1 for any other kind.
abbrev pub one_unless_eof : TokenKind → ℕ
one_unless_eof k = if kind_eq k tok_eof then 0 else 1

-- A bound on the tokens left: the two that were read, and a byte for each behind them.
abbrev pub left : Parser → ℕ
left P = one_unless_eof P.cur.kind + one_unless_eof P.peek.kind + length P.lex.cur.bytes

-- The run is done or fails, and if it is done, it has passed `d` tokens at least.
unfoldable pub Goes : {A : Type 0} → ℕ → Parser → Outcome A → Type 0
Goes d P (done a Q) = IsValid Q.lex × (left Q + d ≤ left P)
Goes d P (failed e) = Unit
Goes d P no_fuel = ⊥

-- From every state with at most `k` tokens left, `m` passes `d` tokens at least, or fails.
pub data Fed (d k : ℕ) {A : Type 0} (m : Parse A) : Type 0 where
  fed : ((P : Parser) → IsValid P.lex → left P ≤ k → Goes d P (m P)) → Fed d k m

-- The same at a current token of the kind `t`.
pub data FedOn (t : TokenKind) (d k : ℕ) {A : Type 0} (m : Parse A) : Type 0 where
  fed_on :
      ((P : Parser) → P.cur.kind ≡ t → IsValid P.lex → left P ≤ k → Goes d P (m P)) → FedOn t d k m

pub Fed-of :
    {d k : ℕ} {A : Type 0} {m : Parse A}
    → Fed d k m
    → (P : Parser) → IsValid P.lex
    → left P ≤ k
    → Goes d P (m P)
Fed-of (fed h) = h

pub FedOn-of :
    {t : TokenKind} {d k : ℕ} {A : Type 0} {m : Parse A}
    → FedOn t d k m
    → (P : Parser) → P.cur.kind ≡ t
    → IsValid P.lex
    → left P ≤ k
    → Goes d P (m P)
FedOn-of (fed_on h) = h

-- What a valid lexer still has to give.
next_token-shorter :
    (L : Lexer) → IsValid L → length (next_token L).1.cur.bytes ≤ length L.cur.bytes
next_token-shorter L v =
    let t = next_token-IsTokenOf L v in
    omega (
      arith,
      t.onward,
      t.reaches,
      length-view v.cursor,
      length-view t.valid.cursor,
      ap (λ (p : Ptr). length p.bytes) t.same_src,
    )

not_eof : (k : TokenKind) → kind_eq k tok_eof ≡ false → k ≢ tok_eof
not_eof k e h = cc (e, (kind_eq_iff k tok_eof).1 h)

next_token-left :
    (L : Lexer)
    → IsValid L
    → one_unless_eof (next_token L).0.kind + length (next_token L).1.cur.bytes ≤ length L.cur.bytes
next_token-left L v = elim (Bool-cases (kind_eq (next_token L).0.kind tok_eof)) [
  | inl e ↦ rw e (omega (arith, next_token-shorter L v))
  | inr e ↦ rw e (omega (arith, fewer_left L v (not_eof (next_token L).0.kind e)))
]

pub advanced-left :
    (P : Parser) → IsValid P.lex → left (advanced P) + one_unless_eof P.cur.kind ≤ left P
unfolding advanced
advanced-left P v = omega (arith, next_token-left P.lex v)

pub advanced-IsValid : (P : Parser) → IsValid P.lex → IsValid (advanced P).lex
unfolding advanced
advanced-IsValid P v = (next_token-IsTokenOf P.lex v).valid

pub Goes-later :
    {A : Type 0} (a d e : ℕ) (P Q : Parser) (o : Outcome A)
    → left Q + a ≤ left P
    → e ≤ a + d
    → Goes d Q o
    → Goes e P o
unfolding Goes
Goes-later a d e P Q (done x R) l s (v, h) = (v, omega (arith, l, s, h))
Goes-later a d e P Q (failed x) l s h = tt
Goes-later a d e P Q no_fuel l s h = elim h [ ]

pub Goes-bind :
    {A B : Type 0} (a d e : ℕ) (P : Parser) (o : Outcome A) (f : A → Parse B)
    → e ≤ a + d
    → Goes a P o
    → ((x : A) (Q : Parser) → IsValid Q.lex → left Q + a ≤ left P → Goes d Q (f x Q))
    → Goes e P (then_parse o f)
unfolding Goes
Goes-bind a d e P (done x Q) f s (v, l) g = Goes-later a d e P Q (f x Q) l s (g x Q v l)
Goes-bind a d e P (failed x) f s h g = tt
Goes-bind a d e P no_fuel f s h g = elim h [ ]

module _ {A : Type 0} where
  pub Fed-pure : {k : ℕ} (a : A) → Fed 0 k (pure a)
  unfolding Goes pure
  Fed-pure a = fed (λ P v l. (v, omega arith))

  pub Fed-fail : {d k : ℕ} (e : ParseError) → Fed d k {A = A} (fail e)
  unfolding Goes fail
  Fed-fail e = fed (λ P v l. tt)

  pub Fed-weaken : {k : ℕ} {m : Parse A} → Fed 1 k m → Fed 0 k m
  Fed-weaken {k} {m} h =
      fed (λ P v l. Goes-later 0 1 0 P P (m P) (omega arith) (omega arith) (Fed-of h P v l))

  -- What holds at every kind holds at the one there.
  pub Fed-on_kind :
      {d k : ℕ} (g : TokenKind → Parse A)
      → ((t : TokenKind) → FedOn t d k (g t))
      → Fed d k (on_kind g)
  unfolding on_kind
  Fed-on_kind g h = fed (λ P v l. FedOn-of (h P.cur.kind) P refl v l)

  pub FedOn-any : {t : TokenKind} {d k : ℕ} {m : Parse A} → Fed d k m → FedOn t d k m
  FedOn-any h = fed_on (λ P e v l. Fed-of h P v l)

  pub FedOn-weaken : {t : TokenKind} {k : ℕ} {m : Parse A} → FedOn t 1 k m → FedOn t 0 k m
  FedOn-weaken {t} {k} {m} h =
      fed_on
        (λ P e v l. Goes-later 0 1 0 P P (m P) (omega arith) (omega arith) (FedOn-of h P e v l))

module _ {A B : Type 0} where
  -- Behind a token that was passed, one less is left.
  pub Fed-pass :
      {k : ℕ} {m : Parse A} {f : A → Parse B}
      → Fed 1 k m
      → ((a : A) (j : ℕ) → j < k → Fed 0 j (f a))
      → Fed 1 k (m >>= f)
  unfolding ◌>>=◌
  Fed-pass {k} {m} {f} h g = fed (λ P v l.
      Goes-bind 1 0 1 P (m P) f (omega arith) (Fed-of h P v l)
        (λ a Q w s. Fed-of (g a (left Q) (omega (arith, s, l))) Q w (omega arith)))

  pub Fed-stay :
      {d k : ℕ} {m : Parse A} {f : A → Parse B}
      → Fed 0 k m
      → ((a : A) → Fed d k (f a))
      → Fed d k (m >>= f)
  unfolding ◌>>=◌
  Fed-stay {d} {k} {m} {f} h g = fed (λ P v l.
      Goes-bind 0 d d P (m P) f (omega arith) (Fed-of h P v l)
        (λ a Q w s. Fed-of (g a) Q w (omega (arith, s, l))))

  pub Fed-past :
      {k : ℕ} {m : Parse A} {f : A → Parse B}
      → Fed 1 k m
      → ((a : A) (j : ℕ) → j < k → Fed 0 j (f a))
      → Fed 0 k (m >>= f)
  Fed-past h g = Fed-weaken (Fed-pass h g)

  pub FedOn-pass :
      {t : TokenKind} {k : ℕ} {m : Parse A} {f : A → Parse B}
      → FedOn t 1 k m
      → ((a : A) (j : ℕ) → j < k → Fed 0 j (f a))
      → FedOn t 1 k (m >>= f)
  unfolding ◌>>=◌
  FedOn-pass {t} {k} {m} {f} h g = fed_on (λ P e v l.
      Goes-bind 1 0 1 P (m P) f (omega arith) (FedOn-of h P e v l)
        (λ a Q w s. Fed-of (g a (left Q) (omega (arith, s, l))) Q w (omega arith)))

-- What the calls back do with at most `k` tokens left.
pub record Feeds (k : ℕ) (r : Level) : Type 0 where
  pub expression : Fed 1 k r.expression
  pub assignment : Fed 1 k r.assignment
  pub conditional : Fed 1 k r.conditional
  pub binary : (n : ℕ) → Fed 1 k (r.binary n)
  pub unary : Fed 1 k r.unary
  pub statement : Fed 1 k r.statement
  pub commas : (n : Node) → Fed 0 k (r.commas n)
  pub operators : (p : ℕ) (n : Node) → Fed 0 k (r.operators p n)
  pub postfixes : (n : Node) → Fed 0 k (r.postfixes n)
  pub arguments : Fed 1 k r.arguments
  pub specifiers : (s : Saw) → Fed 0 k (r.specifiers s)
  pub stars : (t : CType) → Fed 0 k (r.stars t)
  pub arrays : (t : CType) → Fed 0 k (r.arrays t)
  pub params : Fed 0 k r.params
  pub declarators : (t : CType) → Fed 0 k (r.declarators t)
  pub block : Fed 0 k r.block
  pub variables : (t : CType) → Fed 1 k (r.variables t)

abbrev pub Below : ℕ → Level → Type 0
Below k r = (j : ℕ) → j < k → Feeds j r

pub Below-less : {j k : ℕ} {r : Level} → j < k → Below k r → Below j r
Below-less s b i t = b i (omega (arith, s, t))
