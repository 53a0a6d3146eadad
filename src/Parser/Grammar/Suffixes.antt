-- ===== src/Parser/Grammar/Suffixes.antt =====
-- `parse_primary` and `parse_postfix` of qbebasedcompiler/src/parser.c on the rules of the grammar.
use micro_colorschemes.Prelude.{
  ℕ, suc, zero, ◌≤◌, ◌<◌, ◌≡◌, refl, ap, ◌∙◌, subst, Bool, true, false, List, [], ◌∷◌, ◌++◌, length,
  length-append, arith,
}
use micro_colorschemes.Token.{
  TokenKind, Token, tok_lbracket, tok_rbracket, tok_lparen, tok_rparen, tok_dot, tok_arrow,
  tok_plusplus, tok_minusminus, tok_ident, tok_intlit, tok_floatlit, tok_charlit,
}
use micro_colorschemes.Token.Kinds.{kind_eq}
use micro_colorschemes.Ast.{Node, NodeList, nil, no_type, index, call, member, postfix}
use micro_colorschemes.Parser.State.{
  Parser, done, Parse, pure, ◌>>=◌, parse_advance, parse_expect, advanced, if_check,
}
use micro_colorschemes.Parser.Level.{Level}
use micro_colorschemes.Parser.Unit.{level}
use micro_colorschemes.Parser.Expr.{
  ident_node, int_node, float_node, char_node, primary_at, parse_primary, member_of, postfix_at,
  postfix_loop, parse_postfix, parse_expression, argument_loop,
}
use micro_colorschemes.Parser.Grammar.{is_increment}
use micro_colorschemes.Parser.Grammar.Steps.{
  Over, Over-append, ends_expression, Starts, starts, first_kind, Parses, parses, Loops, loops,
  Turns, turns, bind-done, bind-same, closes_rparen, closes_rbracket, advance-done, expect-done,
  on_kind-done, if_check-done, if_check-other,
}

abbrev pub any_kind : TokenKind → Bool
any_kind _ = true

-- The first tokens of a primary expression.
abbrev pub starts_primary : TokenKind → Bool
starts_primary tok_ident = true
starts_primary tok_intlit = true
starts_primary tok_floatlit = true
starts_primary tok_charlit = true
starts_primary tok_lparen = true
starts_primary _ = false

-- A token of its own, `parse_advance` and a node.
primary-token :
    {t : Token} (k : TokenKind) (node : Token → Node)
    → ((r : Level) → primary_at r k ≡ (parse_advance >>= λ u. pure (node u)))
    → t.kind ≡ k
    → Parses any_kind (t ∷ []) parse_primary (node t)
unfolding parse_primary pure
primary-token {t} k node a h = parses (λ n P Q l (e, o) f.
    on_kind-done P (primary_at (level n)) t k e h
    ∙ ap (λ (m : Parse Node). m P) (a (level n))
    ∙ advance-done P (λ u. pure (node u)) t e
    ∙ ap (done (node t)) o)

pub primary-ident :
    {t : Token} → t.kind ≡ tok_ident → Parses any_kind (t ∷ []) parse_primary (ident_node t)
unfolding primary_at
primary-ident h = primary-token tok_ident ident_node (λ r. refl) h

pub primary-int :
    {t : Token} → t.kind ≡ tok_intlit → Parses any_kind (t ∷ []) parse_primary (int_node t)
unfolding primary_at
primary-int h = primary-token tok_intlit int_node (λ r. refl) h

pub primary-float :
    {t : Token} → t.kind ≡ tok_floatlit → Parses any_kind (t ∷ []) parse_primary (float_node t)
unfolding primary_at
primary-float h = primary-token tok_floatlit float_node (λ r. refl) h

pub primary-char :
    {t : Token} → t.kind ≡ tok_charlit → Parses any_kind (t ∷ []) parse_primary (char_node t)
unfolding primary_at
primary-char h = primary-token tok_charlit char_node (λ r. refl) h

-- `m`, and behind it a closing token.
pub closed :
    {A B : Type 0} {f : TokenKind → Bool} {ts : List Token} {m : Level → Parse A} {e : A} (n : ℕ)
    (P Q : Parser) (c : Token) (k : TokenKind) (g : A → Parse B)
    → Parses f ts m e
    → f k ≡ true
    → c.kind ≡ k
    → length (ts ++ c ∷ []) ≤ suc n
    → Over P (ts ++ c ∷ []) Q
    → (m (level n) >>= λ x. parse_expect k >>= λ _. g x) P ≡ g e Q
closed {f} {ts} {m} {e} n P Q c k g (parses h) s w l o =
    let (R, u, (a, v)) = Over-append ts (c ∷ []) P Q o in
    let r = ap (λ (x : Token). f x.kind) a ∙ ap f w ∙ s in
    let b = subst (λ x. x ≤ suc n) (length-append ts (c ∷ [])) l in
    bind-done (m (level n)) (λ x. parse_expect k >>= λ _. g x) P R e
      (h n P R (omega (arith, b)) u r)
    ∙ expect-done R k (λ _. g e) c a w
    ∙ ap (g e) v

parens_run :
    {ts : List Token} {e : Node} (o c : Token) (n : ℕ) (P Q : Parser)
    → o.kind ≡ tok_lparen
    → Parses ends_expression ts parse_expression e
    → c.kind ≡ tok_rparen
    → length (ts ++ c ∷ []) < n
    → Over P (o ∷ (ts ++ c ∷ [])) Q
    → parse_primary (level n) P ≡ done e Q
unfolding parse_primary primary_at level pure
parens_run o c zero P Q h s w l x = let no : ⊥ = omega (arith, l) in elim no [ ]
parens_run {e} o c (suc n) P Q h s w l (a, u) =
    on_kind-done P (primary_at (level (suc n))) o tok_lparen a h
    ∙ advance-done P
        (λ _. parse_expression (level n) >>= λ x. parse_expect tok_rparen >>= λ _. pure x) o a
    ∙ closed n (advanced P) Q c tok_rparen pure s closes_rparen w (omega (arith, l)) u

pub primary-parens :
    {ts : List Token} {e : Node} (o c : Token)
    → o.kind ≡ tok_lparen
    → Parses ends_expression ts parse_expression e
    → c.kind ≡ tok_rparen
    → Parses any_kind (o ∷ (ts ++ c ∷ [])) parse_primary e
primary-parens o c h s w = parses (λ n P Q l x f. parens_run o c n P Q h s w (omega (arith, l)) x)

-- A postfix expression starts as its loop.
pub postfix-primary :
    {ts : List Token} {e : Node}
    → Parses any_kind ts parse_primary e
    → Loops any_kind ts parse_postfix postfix_loop e
unfolding parse_postfix
postfix-primary {e} (parses h) = loops (λ n P Q l o f. (
  n,
  omega arith,
  bind-done (parse_primary (level n)) (postfix_loop (level n)) P Q e (h n P Q l o refl),
))

pub turn-subscript :
    {us : List Token} {e i : Node} (o c : Token)
    → o.kind ≡ tok_lbracket
    → Parses ends_expression us parse_expression i
    → c.kind ≡ tok_rbracket
    → Turns any_kind (o ∷ (us ++ c ∷ [])) postfix_loop e (index o no_type e i)
unfolding postfix_loop postfix_at level
turn-subscript {e} o c h s w = turns (λ k P Q l (a, u) f.
    on_kind-done P (postfix_at (level (suc k)) e) o tok_lbracket a h
    ∙ advance-done P
        (λ t. parse_expression (level k) >>= λ i.
          parse_expect tok_rbracket >>= λ _. postfix_loop (level k) (index t no_type e i))
        o a
    ∙ closed k (advanced P) Q c tok_rbracket (λ i. postfix_loop (level k) (index o no_type e i)) s
        closes_rbracket w (omega (arith, l)) u)

pub turn-call_none :
    {e : Node} (o c : Token)
    → o.kind ≡ tok_lparen
    → c.kind ≡ tok_rparen
    → Turns any_kind (o ∷ c ∷ []) postfix_loop e (call o no_type e nil)
unfolding postfix_loop postfix_at level pure
turn-call_none {e} o c h w = turns (λ k P Q l (a, (u, v)) f.
    on_kind-done P (postfix_at (level (suc k)) e) o tok_lparen a h
    ∙ advance-done P
        (λ t. if_check tok_rparen (pure nil) (argument_loop (level k)) >>= λ args.
          parse_expect tok_rparen >>= λ _. postfix_loop (level k) (call t no_type e args))
        o a
    ∙ bind-done (if_check tok_rparen (pure nil) (argument_loop (level k)))
        (λ args. parse_expect tok_rparen >>= λ _. postfix_loop (level k) (call o no_type e args))
        (advanced P) (advanced P) nil
        (if_check-done (advanced P) tok_rparen (pure nil) (argument_loop (level k))
          (ap (λ (x : Token). x.kind) u ∙ w))
    ∙ expect-done (advanced P) tok_rparen (λ _. postfix_loop (level k) (call o no_type e nil)) c u w
    ∙ ap (postfix_loop (level k) (call o no_type e nil)) v)

abbrev pub no_rparen : TokenKind → Bool
no_rparen tok_rparen = false
no_rparen _ = true

no_rparen-kind : (k : TokenKind) → no_rparen k ≡ true → kind_eq k tok_rparen ≡ false
unfolding kind_eq
no_rparen-kind tok_rparen h = cc
no_rparen-kind _ h = refl

pub Starts-append :
    {f : TokenKind → Bool} {ts : List Token} (us : List Token) → Starts f ts → Starts f (ts ++ us)
Starts-append us (starts h) = starts h

pub turn-call_some :
    {us : List Token} {e : Node} {args : NodeList} (o c : Token)
    → o.kind ≡ tok_lparen
    → Starts no_rparen us
    → Parses ends_expression us argument_loop args
    → c.kind ≡ tok_rparen
    → Turns any_kind (o ∷ (us ++ c ∷ [])) postfix_loop e (call o no_type e args)
unfolding postfix_loop postfix_at level
turn-call_some {us} {e} {args} o c h z (parses s) w = turns (λ k P Q l (a, u) f.
    on_kind-done P (postfix_at (level (suc k)) e) o tok_lparen a h
    ∙ advance-done P
        (λ t. if_check tok_rparen (pure nil) (argument_loop (level k)) >>= λ args.
          parse_expect tok_rparen >>= λ _. postfix_loop (level k) (call t no_type e args))
        o a
    ∙ bind-same (if_check tok_rparen (pure nil) (argument_loop (level k))) (argument_loop (level k))
        (λ x. parse_expect tok_rparen >>= λ _. postfix_loop (level k) (call o no_type e x))
        (advanced P)
        (if_check-other (advanced P) tok_rparen (pure nil) (argument_loop (level k))
          (no_rparen-kind _ (first_kind (advanced P) Q (Starts-append (c ∷ []) z) u)))
    ∙ closed {m = argument_loop} k (advanced P) Q c tok_rparen
        (λ x. postfix_loop (level k) (call o no_type e x)) (parses s) closes_rparen w
        (omega (arith, l)) u)

-- `.` and `->`.
turn-member :
    {e : Node} (o f : Token) (k : TokenKind) (w : Bool)
    → ((r : Level) → postfix_at r e k ≡ member_of r e w)
    → o.kind ≡ k
    → f.kind ≡ tok_ident
    → Turns any_kind (o ∷ f ∷ []) postfix_loop e (member o no_type e (ident_node f) w)
unfolding postfix_loop member_of level
turn-member {e} o f k w z h x = turns (λ n P Q l (a, (u, v)) y.
    on_kind-done P (postfix_at (level (suc n)) e) o k a h
    ∙ ap (λ (m : Parse Node). m P) (z (level (suc n)))
    ∙ advance-done P
        (λ t. parse_expect tok_ident >>= λ i.
          postfix_loop (level n) (member t no_type e (ident_node i) w))
        o a
    ∙ expect-done (advanced P) tok_ident
        (λ i. postfix_loop (level n) (member o no_type e (ident_node i) w)) f u x
    ∙ ap (postfix_loop (level n) (member o no_type e (ident_node f) w)) v)

pub turn-dot :
    {e : Node} (o f : Token)
    → o.kind ≡ tok_dot
    → f.kind ≡ tok_ident
    → Turns any_kind (o ∷ f ∷ []) postfix_loop e (member o no_type e (ident_node f) false)
unfolding postfix_at
turn-dot o f h x = turn-member o f tok_dot false (λ r. refl) h x

pub turn-arrow :
    {e : Node} (o f : Token)
    → o.kind ≡ tok_arrow
    → f.kind ≡ tok_ident
    → Turns any_kind (o ∷ f ∷ []) postfix_loop e (member o no_type e (ident_node f) true)
unfolding postfix_at
turn-arrow o f h x = turn-member o f tok_arrow true (λ r. refl) h x

increment_at :
    (r : Level) (e : Node) (k : TokenKind)
    → is_increment k ≡ true
    → postfix_at r e k ≡ (parse_advance >>= λ t. r.postfixes (postfix t no_type e k))
unfolding postfix_at
increment_at r e tok_plusplus h = refl
increment_at r e tok_minusminus h = refl
increment_at r e _ h = cc

pub turn-increment :
    {e : Node} (o : Token)
    → is_increment o.kind ≡ true
    → Turns any_kind (o ∷ []) postfix_loop e (postfix o no_type e o.kind)
unfolding postfix_loop level
turn-increment {e} o h = turns (λ n P Q l (a, v) y.
    on_kind-done P (postfix_at (level (suc n)) e) o o.kind a refl
    ∙ ap (λ (m : Parse Node). m P) (increment_at (level (suc n)) e o.kind h)
    ∙ advance-done P (λ t. postfix_loop (level n) (postfix t no_type e o.kind)) o a
    ∙ ap (postfix_loop (level n) (postfix o no_type e o.kind)) v)
