-- ===== src/Parser/Grammar/Steps.antt =====
-- Runs of the functions of qbebasedcompiler/src/parser.c over given tokens.
use micro_colorschemes.Prelude.{
  ℕ, suc, zero, ◌+◌, ◌≤◌, ◌<◌, length-append, ◌≡◌, refl, sym, ap, ◌∙◌, subst, Bool, true, false,
  not, ◌&&◌, leb, List, [], ◌∷◌, ◌++◌, length, arith,
}
use micro_colorschemes.Token.{
  TokenKind, Token, tok_lbracket, tok_lparen, tok_dot, tok_arrow, tok_plusplus, tok_minusminus,
  tok_question, tok_comma, tok_rparen, tok_rbracket, tok_colon,
}
use micro_colorschemes.Token.Kinds.{kind_eq, kind_eq_iff}
use micro_colorschemes.Ast.{Node}
use micro_colorschemes.Parser.State.{
  Parser, done, Parse, then_parse, ◌>>=◌, on_kind, advanced, parse_advance, parse_match, ◌>>◌,
  if_check, parse_expect,
}
use micro_colorschemes.Parser.Tables.{parse_precedence}
use micro_colorschemes.Parser.Level.{Level}
use micro_colorschemes.Parser.Unit.{level}
use micro_colorschemes.Parser.Grammar.{is_assignment_operator}

-- The next tokens from `P` on are `ts`, and `Q` is the state behind them.
abbrev pub Over : Parser → List Token → Parser → Type 0
Over P [] Q = P ≡ Q
Over P (t ∷ ts) Q = (P.cur ≡ t) × Over (advanced P) ts Q

pub Over-append :
    (ts us : List Token) (P Q : Parser)
    → Over P (ts ++ us) Q
    → (R : Parser) × Over P ts R × Over R us Q
Over-append [] us P Q h = (P, refl, h)
Over-append (t ∷ ts) us P Q (e, h) =
    let (R, f, g) = Over-append ts us (advanced P) Q h in (R, (e, f), g)

-- The kinds that go on with a postfix expression.
abbrev pub ends_postfix : TokenKind → Bool
ends_postfix tok_lbracket = false
ends_postfix tok_lparen = false
ends_postfix tok_dot = false
ends_postfix tok_arrow = false
ends_postfix tok_plusplus = false
ends_postfix tok_minusminus = false
ends_postfix _ = true

-- What stands behind an expression of the level `p`.
abbrev pub ends_binary : ℕ → TokenKind → Bool
ends_binary p k = ends_postfix k && leb (parse_precedence k) p

abbrev pub ends_conditional : TokenKind → Bool
ends_conditional k = ends_binary 0 k && not (kind_eq k tok_question)

abbrev pub ends_assignment : TokenKind → Bool
ends_assignment k = ends_conditional k && not (is_assignment_operator k)

abbrev pub ends_expression : TokenKind → Bool
ends_expression k = ends_assignment k && not (kind_eq k tok_comma)

pub closes_rparen : ends_expression tok_rparen ≡ true
unfolding parse_precedence kind_eq
closes_rparen = refl

pub closes_rbracket : ends_expression tok_rbracket ≡ true
unfolding parse_precedence kind_eq
closes_rbracket = refl

pub closes_colon : ends_expression tok_colon ≡ true
unfolding parse_precedence kind_eq
closes_colon = refl

-- The first token is of a kind in `f`.
pub data Starts (f : TokenKind → Bool) : List Token → Type 0 where
  starts : {t : Token} {ts : List Token} → f t.kind ≡ true → Starts f (t ∷ ts)

-- With a level of the tokens' number at least, `m` reads the tokens `ts` to `e`, in front of a token
-- of a kind in `f`.
pub data Parses (f : TokenKind → Bool) (ts : List Token) {A : Type 0} (m : Level → Parse A) (e : A)
    : Type 0 where
  parses :
      ((n : ℕ) (P Q : Parser)
        → length ts ≤ n
        → Over P ts Q
        → f Q.cur.kind ≡ true
        → m (level n) P ≡ done e Q)
      → Parses f ts m e

-- The same up to a loop that holds `e`, at a level lower by the number of tokens at most.
pub data Loops (f : TokenKind → Bool) (ts : List Token) (m : Level → Parse Node)
    (loop : Level → Node → Parse Node) (e : Node) : Type 0 where
  loops :
      ((n : ℕ) (P Q : Parser)
        → length ts ≤ n
        → Over P ts Q
        → f Q.cur.kind ≡ true
        → (k : ℕ) × (n ≤ k + length ts) × (m (level n) P ≡ loop (level k) e Q))
      → Loops f ts m loop e

-- A round of the loop over the tokens `us`.
pub data Turns (f : TokenKind → Bool) (us : List Token) (loop : Level → Node → Parse Node)
    (e d : Node) : Type 0 where
  turns :
      ((k : ℕ) (P Q : Parser)
        → length us ≤ suc k
        → Over P us Q
        → f Q.cur.kind ≡ true
        → loop (level (suc k)) e P ≡ loop (level k) d Q)
      → Turns f us loop e d

length_pos : {f : TokenKind → Bool} {us : List Token} → Starts f us → 0 < length us
length_pos (starts h) = omega arith

pub first_kind :
    {f : TokenKind → Bool} {us : List Token} (R Q : Parser)
    → Starts f us
    → Over R us Q
    → f R.cur.kind ≡ true
first_kind {f} R Q (starts h) (e, o) = ap (λ (u : Token). f u.kind) e ∙ h

module _ {loop : Level → Node → Parse Node} {e d : Node} where
  turn :
      {g : TokenKind → Bool} (ts : List Token) {us : List Token} (m : Level → Parse Node) (n k : ℕ)
      (P R Q : Parser)
      → Turns g us loop e d
      → length ts + length us ≤ n
      → 0 < length us
      → Over R us Q
      → g Q.cur.kind ≡ true
      → n ≤ k + length ts
      → m (level n) P ≡ loop (level k) e R
      → (j : ℕ) × (n ≤ j + (length ts + length us)) × (m (level n) P ≡ loop (level j) d Q)
  turn ts m n zero P R Q t l z o h b x = let no : ⊥ = omega (arith, l, z, b) in elim no [ ]
  turn ts m n (suc k) P R Q (turns t) l z o h b x =
      (k, omega (arith, b, z), x ∙ t k R Q (omega (arith, l, b)) o h)

  pub Loops-turn :
      {f g : TokenKind → Bool} {ts us : List Token} {m : Level → Parse Node}
      → Loops f ts m loop e
      → Starts f us
      → Turns g us loop e d
      → Loops g (ts ++ us) m loop d
  Loops-turn {ts} {us} {m} (loops l) s t = loops (λ n P Q b o h.
      let (R, u, v) = Over-append ts us P Q o in
      let b' = subst (λ x. x ≤ n) (length-append ts us) b in
      let (k, c, x) = l n P R (omega (arith, b')) u (first_kind R Q s v) in
      subst (λ y. (j : ℕ) × (n ≤ j + y) × (m (level n) P ≡ loop (level j) d Q))
        (sym (length-append ts us)) (turn ts m n k P R Q t b' (length_pos s) v h c x))

module _ {A B : Type 0} where
  pub bind-done :
      (m : Parse A) (f : A → Parse B) (P Q : Parser) (a : A) → m P ≡ done a Q → (m >>= f) P ≡ f a Q
  unfolding ◌>>=◌
  bind-done m f P Q a e = rw e refl

  pub bind-same :
      (m n : Parse A) (f : A → Parse B) (P : Parser) → m P ≡ n P → (m >>= f) P ≡ (n >>= f) P
  unfolding ◌>>=◌
  bind-same m n f P e = ap (λ x. then_parse x f) e

module _ {B : Type 0} (P : Parser) where
  pub advance-done :
      (f : Token → Parse B) (t : Token) → P.cur ≡ t → (parse_advance >>= f) P ≡ f t (advanced P)
  unfolding ◌>>=◌ parse_advance
  advance-done f t e = ap (λ u. f u (advanced P)) e

  pub expect-done :
      (k : TokenKind) (f : Token → Parse B) (t : Token)
      → P.cur ≡ t
      → t.kind ≡ k
      → (parse_expect k >>= f) P ≡ f t (advanced P)
  unfolding ◌>>=◌ parse_advance parse_expect
  expect-done k f t e h =
      rw ((kind_eq_iff P.cur.kind k).1 (ap (λ (u : Token). u.kind) e ∙ h))
        (ap (λ u. f u (advanced P)) e)

  pub on_kind-done :
      (g : TokenKind → Parse B) (t : Token) (k : TokenKind)
      → P.cur ≡ t
      → t.kind ≡ k
      → on_kind g P ≡ g k P
  unfolding on_kind
  on_kind-done g t k e h = ap (λ u. g u P) (ap (λ (u : Token). u.kind) e ∙ h)

  pub match-done :
      (k : TokenKind) (m n : Parse B) → P.cur.kind ≡ k → parse_match k m n P ≡ m (advanced P)
  unfolding parse_match ◌>>◌ ◌>>=◌ parse_advance
  match-done k m n h = rw ((kind_eq_iff P.cur.kind k).1 h) refl

  pub match-other :
      (k : TokenKind) (m n : Parse B) → kind_eq P.cur.kind k ≡ false → parse_match k m n P ≡ n P
  unfolding parse_match
  match-other k m n h = rw h refl

  pub if_check-done : (k : TokenKind) (m n : Parse B) → P.cur.kind ≡ k → if_check k m n P ≡ m P
  unfolding if_check
  if_check-done k m n h = rw ((kind_eq_iff P.cur.kind k).1 h) refl

  pub if_check-other :
      (k : TokenKind) (m n : Parse B) → kind_eq P.cur.kind k ≡ false → if_check k m n P ≡ n P
  unfolding if_check
  if_check-other k m n h = rw h refl
