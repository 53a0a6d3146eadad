-- ===== src/Parser/Grammar/Assign.antt =====
-- `parse_assignment`, `parse_expression` and the arguments of a call, of
-- qbebasedcompiler/src/parser.c, on the rules of the grammar.
use micro_colorschemes.Prelude.{
  ℕ, suc, zero, ◌≤◌, ◌<◌, ◌≡◌, refl, ap, ◌∙◌, subst, true, false, List, ◌∷◌, ◌++◌, length,
  length-append, arith,
}
use micro_colorschemes.Token.{
  TokenKind, Token, tok_eq, tok_pluseq, tok_minuseq, tok_stareq, tok_slasheq, tok_percenteq,
  tok_shleq, tok_shreq, tok_andeq, tok_xoreq, tok_oreq, tok_comma,
}
use micro_colorschemes.Token.Kinds.{kind_eq}
use micro_colorschemes.Ast.{Node, NodeList, nil, cons, no_type, assign, comma_expr}
use micro_colorschemes.Parser.State.{
  Parser, done, Parse, pure, ◌>>=◌, on_kind, parse_advance, parse_match, advanced,
}
use micro_colorschemes.Parser.Tables.{parse_precedence}
use micro_colorschemes.Parser.Level.{Level}
use micro_colorschemes.Parser.Unit.{level}
use micro_colorschemes.Parser.Expr.{
  parse_conditional, assign_at, parse_assignment, comma_loop, parse_expression, argument_loop,
}
use micro_colorschemes.Parser.Grammar.{is_assignment_operator}
use micro_colorschemes.Parser.Grammar.Prefixes.{Parses-Loops}
use micro_colorschemes.Parser.Grammar.Steps.{
  Over, Over-append, ends_conditional, ends_assignment, ends_expression, Parses, parses, Loops,
  loops, Turns, turns, bind-done, advance-done, on_kind-done, match-done, match-other,
  if_check-done, if_check-other,
}

assign_at-other :
    (r : Level) (l : Node) (k : TokenKind)
    → is_assignment_operator k ≡ false
    → assign_at r l k ≡ pure l
unfolding assign_at
assign_at-other r l tok_eq h = cc
assign_at-other r l tok_pluseq h = cc
assign_at-other r l tok_minuseq h = cc
assign_at-other r l tok_stareq h = cc
assign_at-other r l tok_slasheq h = cc
assign_at-other r l tok_percenteq h = cc
assign_at-other r l tok_shleq h = cc
assign_at-other r l tok_shreq h = cc
assign_at-other r l tok_andeq h = cc
assign_at-other r l tok_xoreq h = cc
assign_at-other r l tok_oreq h = cc
assign_at-other r l _ h = refl

assign_at-operator :
    (r : Level) (l : Node) (k : TokenKind)
    → is_assignment_operator k ≡ true
    → assign_at r l k ≡ (parse_advance >>= λ t. r.assignment >>= λ e. pure (assign t no_type l e k))
unfolding assign_at
assign_at-operator r l tok_eq h = refl
assign_at-operator r l tok_pluseq h = refl
assign_at-operator r l tok_minuseq h = refl
assign_at-operator r l tok_stareq h = refl
assign_at-operator r l tok_slasheq h = refl
assign_at-operator r l tok_percenteq h = refl
assign_at-operator r l tok_shleq h = refl
assign_at-operator r l tok_shreq h = refl
assign_at-operator r l tok_andeq h = refl
assign_at-operator r l tok_xoreq h = refl
assign_at-operator r l tok_oreq h = refl
assign_at-operator r l _ h = cc

-- The operators of assignments follow any condition.
assignment_operator-ends :
    (k : TokenKind) → is_assignment_operator k ≡ true → ends_conditional k ≡ true
unfolding parse_precedence kind_eq
assignment_operator-ends tok_eq h = refl
assignment_operator-ends tok_pluseq h = refl
assignment_operator-ends tok_minuseq h = refl
assignment_operator-ends tok_stareq h = refl
assignment_operator-ends tok_slasheq h = refl
assignment_operator-ends tok_percenteq h = refl
assignment_operator-ends tok_shleq h = refl
assignment_operator-ends tok_shreq h = refl
assignment_operator-ends tok_andeq h = refl
assignment_operator-ends tok_xoreq h = refl
assignment_operator-ends tok_oreq h = refl
assignment_operator-ends _ h = cc

ends_assignment-conditional : (k : TokenKind) → ends_assignment k ≡ true → ends_conditional k ≡ true
ends_assignment-conditional k h = ground (arith, h)

ends_assignment-other :
    (k : TokenKind) → ends_assignment k ≡ true → is_assignment_operator k ≡ false
ends_assignment-other k h = ground (arith, h)

pub assignment-value :
    {ts : List Token} {e : Node}
    → Parses ends_conditional ts parse_conditional e
    → Parses ends_assignment ts parse_assignment e
unfolding parse_assignment pure
assignment-value {e} (parses h) = parses (λ n P Q l o f.
    bind-done (parse_conditional (level n)) (λ x. on_kind (assign_at (level n) x)) P Q e
      (h n P Q l o (ends_assignment-conditional Q.cur.kind f))
    ∙ on_kind-done Q (assign_at (level n) e) Q.cur Q.cur.kind refl refl
    ∙ ap (λ (m : Parse Node). m Q)
        (assign_at-other (level n) e Q.cur.kind (ends_assignment-other Q.cur.kind f)))

assigned_run :
    {us : List Token} {e : Node} (l : Node) (o : Token) (n : ℕ) (P Q : Parser)
    → is_assignment_operator o.kind ≡ true
    → Parses ends_assignment us parse_assignment e
    → length us < n
    → Over P (o ∷ us) Q
    → ends_assignment Q.cur.kind ≡ true
    → on_kind (assign_at (level n) l) P ≡ done (assign o no_type l e o.kind) Q
unfolding level pure
assigned_run l o zero P Q h s w v f = let no : ⊥ = omega (arith, w) in elim no [ ]
assigned_run {e} l o (suc n) P Q h (parses s) w (a, v) f =
    on_kind-done P (assign_at (level (suc n)) l) o o.kind a refl
    ∙ ap (λ (m : Parse Node). m P) (assign_at-operator (level (suc n)) l o.kind h)
    ∙ advance-done P (λ t. parse_assignment (level n) >>= λ e. pure (assign t no_type l e o.kind)) o
        a
    ∙ bind-done (parse_assignment (level n)) (λ e. pure (assign o no_type l e o.kind)) (advanced P)
        Q e (s n (advanced P) Q (omega (arith, w)) v f)

pub assignment-assigned :
    {ts us : List Token} {l e : Node} (o : Token)
    → Parses ends_conditional ts parse_conditional l
    → is_assignment_operator o.kind ≡ true
    → Parses ends_assignment us parse_assignment e
    → Parses ends_assignment (ts ++ o ∷ us) parse_assignment (assign o no_type l e o.kind)
unfolding parse_assignment
assignment-assigned {ts} {us} {l} o (parses d) h s = parses (λ n P Q w x f.
    let (R, u, v) = Over-append ts (o ∷ us) P Q x in
    let m = subst (λ i. i ≤ n) (length-append ts (o ∷ us)) w in
    bind-done (parse_conditional (level n)) (λ x. on_kind (assign_at (level n) x)) P R l
      (d n P R (omega (arith, m)) u (
        assignment_operator-ends R.cur.kind
          (ap (λ (i : Token). is_assignment_operator i.kind) v.0 ∙ h)))
    ∙ assigned_run l o n R Q h s (omega (arith, m)) v f)

-- `parse_expression` starts as its loop.
pub expression-single :
    {ts : List Token} {e : Node}
    → Parses ends_assignment ts parse_assignment e
    → Loops ends_assignment ts parse_expression comma_loop e
unfolding parse_expression
expression-single {e} (parses h) = loops (λ n P Q l o f. (
  n,
  omega arith,
  bind-done (parse_assignment (level n)) (comma_loop (level n)) P Q e (h n P Q l o f),
))

pub turn-comma :
    {us : List Token} {l e : Node} (c : Token)
    → c.kind ≡ tok_comma
    → Parses ends_assignment us parse_assignment e
    → Turns ends_assignment (c ∷ us) comma_loop l (comma_expr c no_type l e)
unfolding comma_loop level
turn-comma {l} {e} c h (parses s) = turns (λ k P Q w (a, u) f.
    if_check-done P tok_comma
      (parse_advance >>= λ t.
        parse_assignment (level (suc k)) >>= λ x. comma_loop (level k) (comma_expr t no_type l x))
      (pure l) (ap (λ (i : Token). i.kind) a ∙ h)
    ∙ advance-done P
        (λ t.
          parse_assignment (level (suc k)) >>= λ x. comma_loop (level k) (comma_expr t no_type l x))
        c a
    ∙ bind-done (parse_assignment (level (suc k)))
        (λ x. comma_loop (level k) (comma_expr c no_type l x)) (advanced P) Q e
        (s (suc k) (advanced P) Q (omega (arith, w)) u f))

ends_expression-assignment : (k : TokenKind) → ends_expression k ≡ true → ends_assignment k ≡ true
ends_expression-assignment k h = ground (arith, h)

ends_expression-comma : (k : TokenKind) → ends_expression k ≡ true → kind_eq k tok_comma ≡ false
ends_expression-comma k h = ground (arith, h)

comma_loop-end :
    (e : Node) (k : ℕ) (Q : Parser)
    → ends_expression Q.cur.kind ≡ true
    → comma_loop (level k) e Q ≡ done e Q
unfolding comma_loop pure
comma_loop-end e k Q h =
    if_check-other Q tok_comma
      (parse_advance >>= λ t.
        parse_assignment (level k) >>= λ x. (level k).commas (comma_expr t no_type e x))
      (pure e) (ends_expression-comma Q.cur.kind h)

pub expression_whole :
    {ts : List Token} {e : Node}
    → Loops ends_assignment ts parse_expression comma_loop e
    → Parses ends_expression ts parse_expression e
expression_whole {e} h = Parses-Loops h ends_expression-assignment (comma_loop-end e)

-- Behind an argument.
abbrev arguments_behind : ℕ → Node → Parse NodeList
arguments_behind n e =
    parse_match tok_comma ((level n).arguments >>= λ es. pure (cons e es)) (pure (cons e nil))

pub arguments-last :
    {ts : List Token} {e : Node}
    → Parses ends_assignment ts parse_assignment e
    → Parses ends_expression ts argument_loop (cons e nil)
unfolding argument_loop pure
arguments-last {e} (parses h) = parses (λ n P Q l o f.
    bind-done (parse_assignment (level n)) (arguments_behind n) P Q e
      (h n P Q l o (ends_expression-assignment Q.cur.kind f))
    ∙ match-other Q tok_comma ((level n).arguments >>= λ es. pure (cons e es)) (pure (cons e nil))
        (ends_expression-comma Q.cur.kind f))

pub comma_ends : ends_assignment tok_comma ≡ true
unfolding parse_precedence kind_eq
comma_ends = refl

more_run :
    {us : List Token} {es : NodeList} (e : Node) (c : Token) (n : ℕ) (P Q : Parser)
    → c.kind ≡ tok_comma
    → Parses ends_expression us argument_loop es
    → length us < n
    → Over P (c ∷ us) Q
    → ends_expression Q.cur.kind ≡ true
    → arguments_behind n e P ≡ done (cons e es) Q
unfolding level pure
more_run e c zero P Q h s w v f = let no : ⊥ = omega (arith, w) in elim no [ ]
more_run {es} e c (suc n) P Q h (parses s) w (a, v) f =
    match-done P tok_comma (argument_loop (level n) >>= λ es. pure (cons e es)) (pure (cons e nil))
      (ap (λ (i : Token). i.kind) a ∙ h)
    ∙ bind-done (argument_loop (level n)) (λ es. pure (cons e es)) (advanced P) Q es
        (s n (advanced P) Q (omega (arith, w)) v f)

pub arguments-more :
    {ts us : List Token} {e : Node} {es : NodeList} (c : Token)
    → Parses ends_assignment ts parse_assignment e
    → c.kind ≡ tok_comma
    → Parses ends_expression us argument_loop es
    → Parses ends_expression (ts ++ c ∷ us) argument_loop (cons e es)
unfolding argument_loop
arguments-more {ts} {us} {e} c (parses d) h s = parses (λ n P Q w x f.
    let (R, u, v) = Over-append ts (c ∷ us) P Q x in
    let m = subst (λ i. i ≤ n) (length-append ts (c ∷ us)) w in
    bind-done (parse_assignment (level n)) (arguments_behind n) P R e (
      d n P R (omega (arith, m)) u
        (ap (λ (i : Token). ends_assignment i.kind) v.0 ∙ ap ends_assignment h ∙ comma_ends))
    ∙ more_run e c n R Q h s (omega (arith, m)) v f)
