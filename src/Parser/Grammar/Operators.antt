-- ===== src/Parser/Grammar/Operators.antt =====
-- `parse_binary` to `parse_expression` and the arguments of a call, of qbebasedcompiler/src/parser.c,
-- on the rules of the grammar.
use micro_colorschemes.Prelude.{
  ℕ, suc, zero, ◌+◌, ◌≤◌, ◌<◌, ◌≡◌, refl, ap, ◌∙◌, subst, Bool, true, false, List, ◌∷◌, ◌++◌,
  length, length-append, arith,
}
use micro_colorschemes.Token.{TokenKind, Token, tok_question, tok_colon}
use micro_colorschemes.Token.Kinds.{kind_eq}
use micro_colorschemes.Ast.{Node, no_type, binary, conditional}
use micro_colorschemes.Parser.State.{
  Parser, done, Parse, pure, ◌>>=◌, parse_advance, parse_expect, advanced, if_check,
}
use micro_colorschemes.Parser.Tables.{parse_precedence}
use micro_colorschemes.Parser.Level.{Level}
use micro_colorschemes.Parser.Unit.{level}
use micro_colorschemes.Parser.Expr.{
  parse_unary, operator_at, operator_loop, parse_binary, parse_conditional, parse_expression,
}
use micro_colorschemes.Parser.Grammar.Prefixes.{Parses-Loops}
use micro_colorschemes.Parser.Grammar.Steps.{
  Over, Over-append, ends_postfix, ends_binary, ends_conditional, ends_expression, Parses, parses,
  Loops, loops, Turns, turns, bind-done, advance-done, expect-done, on_kind-done, if_check-done,
  if_check-other, closes_colon,
}

-- What follows an expression of one level also follows that of a higher one.
pub ends_binary-higher :
    (p q : ℕ) (k : TokenKind) → p ≤ q → ends_binary p k ≡ true → ends_binary q k ≡ true
ends_binary-higher p q k l h = ground (arith, l, h)

pub ends_binary-postfix : (p : ℕ) (k : TokenKind) → ends_binary p k ≡ true → ends_postfix k ≡ true
ends_binary-postfix p k h = ground (arith, h)

pub binary-unary :
    {ts : List Token} {e : Node} (p q : ℕ)
    → Parses ends_postfix ts parse_unary e
    → Loops (ends_binary p) ts (λ r. parse_binary r q) (λ r. operator_loop r q) e
unfolding parse_binary
binary-unary {e} p q (parses h) = loops (λ n P Q l o f. (
  n,
  omega arith,
  bind-done (parse_unary (level n)) (operator_loop (level n) q) P Q e
      (h n P Q l o (ends_binary-postfix p Q.cur.kind f)),
))

pub Loops-weaken :
    {f g : TokenKind → Bool} {ts : List Token} {m : Level → Parse Node}
    {loop : Level → Node → Parse Node} {e : Node}
    → Loops f ts m loop e
    → ((k : TokenKind) → g k ≡ true → f k ≡ true)
    → Loops g ts m loop e
Loops-weaken (loops h) w = loops (λ n P Q l o x. h n P Q l o (w Q.cur.kind x))

operator_at-end :
    (r : Level) (p q : ℕ) (e : Node) (k : TokenKind)
    → ends_binary p k ≡ true
    → p < q
    → operator_at r q e k ≡ pure e
unfolding operator_at
operator_at-end r p q e k h l = ground (arith, h, l)

operator_at-taken :
    (r : Level) (p q : ℕ) (e : Node) (k : TokenKind)
    → parse_precedence k ≡ p
    → 0 < p
    → q ≤ p
    → operator_at r q e k ≡ (
        parse_advance >>= λ t.
        r.binary (parse_precedence k + 1) >>= λ x. r.operators q (binary t no_type e x k))
unfolding operator_at
operator_at-taken r p q e k h z l = ground (arith, h, z, l)

operator_at-go :
    (r : Level) (p q : ℕ) (e : Node) (k : TokenKind)
    → parse_precedence k ≡ p
    → 0 < p
    → q ≤ p
    → operator_at r q e k
      ≡ (parse_advance >>= λ t. r.binary (suc p) >>= λ x. r.operators q (binary t no_type e x k))
operator_at-go r p q e k h z l =
    let next : parse_precedence k + 1 ≡ suc p = omega (arith, h) in
    operator_at-taken r p q e k h z l
    ∙ ap (λ n. parse_advance >>= λ t. r.binary n >>= λ x. r.operators q (binary t no_type e x k))
        next

operator_loop-end :
    (p q : ℕ) (e : Node) (k : ℕ) (Q : Parser)
    → ends_binary p Q.cur.kind ≡ true
    → p < q
    → operator_loop (level k) q e Q ≡ done e Q
unfolding operator_loop pure
operator_loop-end p q e k Q h l =
    on_kind-done Q (operator_at (level k) q e) Q.cur Q.cur.kind refl refl
    ∙ ap (λ (m : Parse Node). m Q) (operator_at-end (level k) p q e Q.cur.kind h l)

-- The right operand of an operator of the level `p`.
pub binary-right :
    {ts : List Token} {e : Node} (p : ℕ)
    → Loops (ends_binary (suc p)) ts (λ r. parse_binary r (suc p)) (λ r. operator_loop r (suc p)) e
    → Parses (ends_binary p) ts (λ r. parse_binary r (suc p)) e
binary-right {e} p h =
    Parses-Loops h (λ k x. ends_binary-higher p (suc p) k (omega arith) x)
      (λ k Q x. operator_loop-end p (suc p) e k Q x (omega arith))

pub turn-operation :
    {us : List Token} {l e : Node} (p q : ℕ) (o : Token)
    → parse_precedence o.kind ≡ p
    → 0 < p
    → q ≤ p
    → Parses (ends_binary p) us (λ r. parse_binary r (suc p)) e
    → Turns (ends_binary p) (o ∷ us) (λ r. operator_loop r q) l (binary o no_type l e o.kind)
unfolding operator_loop level
turn-operation {l} {e} p q o h z b (parses s) = turns (λ k P Q w (a, u) f.
    on_kind-done P (operator_at (level (suc k)) q l) o o.kind a refl
    ∙ ap (λ (m : Parse Node). m P) (operator_at-go (level (suc k)) p q l o.kind h z b)
    ∙ advance-done P
        (λ t. parse_binary (level k) (suc p) >>= λ d.
          operator_loop (level k) q (binary t no_type l d o.kind))
        o a
    ∙ bind-done (parse_binary (level k) (suc p))
        (λ d. operator_loop (level k) q (binary o no_type l d o.kind)) (advanced P) Q e
        (s k (advanced P) Q (omega (arith, w)) u f))

-- No operator: a precedence of 0 ends the loop of any level.
operator_at-none :
    (r : Level) (e : Node) (k : TokenKind) → ends_binary 0 k ≡ true → operator_at r 0 e k ≡ pure e
unfolding operator_at
operator_at-none r e k h = ground (arith, h)

no_operator :
    (e : Node) (k : ℕ) (Q : Parser)
    → ends_binary 0 Q.cur.kind ≡ true
    → operator_loop (level k) 0 e Q ≡ done e Q
unfolding operator_loop pure
no_operator e k Q h =
    on_kind-done Q (operator_at (level k) 0 e) Q.cur Q.cur.kind refl refl
    ∙ ap (λ (m : Parse Node). m Q) (operator_at-none (level k) e Q.cur.kind h)

ends_conditional-binary : (k : TokenKind) → ends_conditional k ≡ true → ends_binary 0 k ≡ true
ends_conditional-binary k h = ground (arith, h)

ends_conditional-question :
    (k : TokenKind) → ends_conditional k ≡ true → kind_eq k tok_question ≡ false
ends_conditional-question k h = ground (arith, h)

-- Behind the condition `c`.
abbrev choice_of : ℕ → Node → Parse Node
choice_of n c = parse_advance >>= λ t. (level n).expression >>= λ x. parse_expect tok_colon >>= λ _.
    (level n).conditional >>= λ y. pure (conditional t no_type c x y)

abbrev choice_behind : ℕ → Node → Parse Node
choice_behind n c = if_check tok_question (choice_of n c) (pure c)

-- A condition, and what `parse_conditional` makes of it.
pub condition :
    {ts : List Token} {e : Node}
    → Loops (ends_binary 1) ts (λ r. parse_binary r 0) (λ r. operator_loop r 0) e
    → Parses (ends_binary 0) ts (λ r. parse_binary r 0) e
condition {e} h = Parses-Loops h (λ k x. ends_binary-higher 0 1 k (omega arith) x) (no_operator e)

pub conditional-tested :
    {ts : List Token} {e : Node}
    → Parses (ends_binary 0) ts (λ r. parse_binary r 0) e
    → Parses ends_conditional ts parse_conditional e
unfolding parse_conditional pure
conditional-tested {e} (parses h) = parses (λ n P Q l o f.
    bind-done (parse_binary (level n) 0) (choice_behind n) P Q e
      (h n P Q l o (ends_conditional-binary Q.cur.kind f))
    ∙ if_check-other Q tok_question (choice_of n e) (pure e)
        (ends_conditional-question Q.cur.kind f))

choice_run :
    {us vs : List Token} {x y : Node} (e : Node) (q c : Token) (n : ℕ) (P Q : Parser)
    → q.kind ≡ tok_question
    → Parses ends_expression us parse_expression x
    → c.kind ≡ tok_colon
    → Parses ends_conditional vs parse_conditional y
    → length (us ++ c ∷ vs) < n
    → Over P (q ∷ (us ++ c ∷ vs)) Q
    → ends_conditional Q.cur.kind ≡ true
    → choice_of n e P ≡ done (conditional q no_type e x y) Q
unfolding level pure
choice_run e q c zero P Q h s w r l o f = let no : ⊥ = omega (arith, l) in elim no [ ]
choice_run {us} {vs} {x} {y} e q c (suc n) P Q h (parses s) w (parses r) l (a, o) f =
    let (R, u, (b, v)) = Over-append us (c ∷ vs) (advanced P) Q o in
    let m = subst (λ i. i < suc n) (length-append us (c ∷ vs)) l in
    advance-done P
      (λ t. parse_expression (level n) >>= λ x. parse_expect tok_colon >>= λ _.
        parse_conditional (level n) >>= λ y. pure (conditional t no_type e x y))
      q a
    ∙ bind-done (parse_expression (level n))
        (λ x. parse_expect tok_colon >>= λ _.
          parse_conditional (level n) >>= λ y. pure (conditional q no_type e x y))
        (advanced P) R x
        (s n (advanced P) R (omega (arith, m)) u
          (ap (λ (i : Token). ends_expression i.kind) b ∙ ap ends_expression w ∙ closes_colon))
    ∙ expect-done R tok_colon
        (λ _. parse_conditional (level n) >>= λ y. pure (conditional q no_type e x y)) c b w
    ∙ bind-done (parse_conditional (level n)) (λ y. pure (conditional q no_type e x y)) (advanced R)
        Q y (r n (advanced R) Q (omega (arith, m)) v f)

binary_question : ends_binary 0 tok_question ≡ true
unfolding parse_precedence
binary_question = refl

pub conditional-choice :
    {ts us vs : List Token} {e x y : Node} (q c : Token)
    → Parses (ends_binary 0) ts (λ r. parse_binary r 0) e
    → q.kind ≡ tok_question
    → Parses ends_expression us parse_expression x
    → c.kind ≡ tok_colon
    → Parses ends_conditional vs parse_conditional y
    → Parses ends_conditional
        (ts ++ q ∷ (us ++ c ∷ vs))
        parse_conditional
        (conditional q no_type e x y)
unfolding parse_conditional
conditional-choice {ts} {us} {vs} {e} q c (parses d) h s w r = parses (λ n P Q l o f.
    let (R, u, v) = Over-append ts (q ∷ (us ++ c ∷ vs)) P Q o in
    let m = subst (λ i. i ≤ n) (length-append ts (q ∷ (us ++ c ∷ vs))) l in
    let k = ap (λ (i : Token). i.kind) v.0 ∙ h in
    bind-done (parse_binary (level n) 0) (choice_behind n) P R e
      (d n P R (omega (arith, m)) u (ap (ends_binary 0) k ∙ binary_question))
    ∙ if_check-done R tok_question (choice_of n e) (pure e) k
    ∙ choice_run e q c n R Q h s w r (omega (arith, m)) v f)
