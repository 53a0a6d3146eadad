-- ===== src/Parser/Grammar/Prefixes.antt =====
-- `parse_unary` of qbebasedcompiler/src/parser.c on the rules of the grammar.
use micro_colorschemes.Prelude.{
  ℕ, suc, zero, ◌<◌, ◌≡◌, ◌≢◌, inl, inr, Bool-cases, refl, ap, ◌∙◌, Bool, true, false, List, [],
  ◌∷◌, ◌++◌, length, arith,
}
use micro_colorschemes.Token.{
  tok_plus, tok_minus, tok_bang, tok_tilde, tok_amp, tok_star, TokenKind, Token, tok_lbracket,
  tok_lparen, tok_rparen, tok_dot, tok_arrow, tok_plusplus, tok_minusminus, tok_ident, tok_intlit,
  tok_floatlit, tok_charlit, tok_sizeof,
}
use micro_colorschemes.Token.Kinds.{kind_eq, kind_eq_iff}
use micro_colorschemes.Ast.{Node, no_type, unary, sizeof_expr}
use micro_colorschemes.Parser.State.{
  Parser, done, Parse, pure, ◌>>=◌, parse_advance, parse_expect, advanced,
}
use micro_colorschemes.Parser.Level.{Level}
use micro_colorschemes.Parser.Unit.{level}
use micro_colorschemes.Parser.Expr.{
  postfix_at, postfix_loop, parse_postfix, unary_at, parse_unary, sizeof_operand, parse_expression,
}
use micro_colorschemes.Parser.Grammar.{is_unary_operator}
use micro_colorschemes.Parser.Grammar.Steps.{
  Over, ends_postfix, ends_expression, Starts, first_kind, Parses, parses, Loops, loops, bind-done,
  closes_rparen, advance-done, on_kind-done, match-done, match-other,
}
use micro_colorschemes.Parser.Grammar.Suffixes.{any_kind, starts_primary, closed}

-- The unary operators.
unary_at-operator :
    (r : Level) (k : TokenKind)
    → is_unary_operator k ≡ true
    → unary_at r k ≡ (parse_advance >>= λ t. r.unary >>= λ e. pure (unary t no_type e k))
unfolding unary_at
unary_at-operator r tok_plus h = refl
unary_at-operator r tok_minus h = refl
unary_at-operator r tok_bang h = refl
unary_at-operator r tok_tilde h = refl
unary_at-operator r tok_amp h = refl
unary_at-operator r tok_star h = refl
unary_at-operator r tok_plusplus h = refl
unary_at-operator r tok_minusminus h = refl
unary_at-operator r _ h = cc

unary_at-primary :
    (r : Level) (k : TokenKind) → starts_primary k ≡ true → unary_at r k ≡ parse_postfix r
unfolding unary_at
unary_at-primary r tok_ident h = refl
unary_at-primary r tok_intlit h = refl
unary_at-primary r tok_floatlit h = refl
unary_at-primary r tok_charlit h = refl
unary_at-primary r tok_lparen h = refl
unary_at-primary r _ h = cc

postfix_at-end :
    (r : Level) (e : Node) (k : TokenKind) → ends_postfix k ≡ true → postfix_at r e k ≡ pure e
unfolding postfix_at
postfix_at-end r e tok_lbracket h = cc
postfix_at-end r e tok_lparen h = cc
postfix_at-end r e tok_dot h = cc
postfix_at-end r e tok_arrow h = cc
postfix_at-end r e tok_plusplus h = cc
postfix_at-end r e tok_minusminus h = cc
postfix_at-end r e _ h = refl

-- A loop that is at its end.
pub Parses-Loops :
    {f g : TokenKind → Bool} {ts : List Token} {m : Level → Parse Node}
    {loop : Level → Node → Parse Node} {e : Node}
    → Loops f ts m loop e
    → ((k : TokenKind) → g k ≡ true → f k ≡ true)
    → ((k : ℕ) (Q : Parser) → g Q.cur.kind ≡ true → loop (level k) e Q ≡ done e Q)
    → Parses g ts m e
Parses-Loops (loops h) w z =
    parses (λ n P Q l o x. let (k, b, y) = h n P Q l o (w Q.cur.kind x) in y ∙ z k Q x)

postfix_loop-end :
    (e : Node) (k : ℕ) (Q : Parser)
    → ends_postfix Q.cur.kind ≡ true
    → postfix_loop (level k) e Q ≡ done e Q
unfolding postfix_loop pure
postfix_loop-end e k Q h =
    on_kind-done Q (postfix_at (level k) e) Q.cur Q.cur.kind refl refl
    ∙ ap (λ (m : Parse Node). m Q) (postfix_at-end (level k) e Q.cur.kind h)

unary-whole :
    {ts : List Token} {e : Node}
    → Parses ends_postfix ts parse_postfix e
    → Starts starts_primary ts
    → Parses ends_postfix ts parse_unary e
unfolding parse_unary
unary-whole (parses w) s = parses (λ n P Q l o x.
    on_kind-done P (unary_at (level n)) P.cur P.cur.kind refl refl
    ∙ ap (λ (m : Parse Node). m P) (unary_at-primary (level n) P.cur.kind (first_kind P Q s o))
    ∙ w n P Q l o x)

pub unary-postfix :
    {ts : List Token} {e : Node}
    → Loops any_kind ts parse_postfix postfix_loop e
    → Starts starts_primary ts
    → Parses ends_postfix ts parse_unary e
unary-postfix {e} h s = unary-whole (Parses-Loops h (λ k x. refl) (postfix_loop-end e)) s

prefix_run :
    {ts : List Token} {e : Node} (t : Token) (n : ℕ) (P Q : Parser)
    → is_unary_operator t.kind ≡ true
    → Parses ends_postfix ts parse_unary e
    → length ts < n
    → Over P (t ∷ ts) Q
    → ends_postfix Q.cur.kind ≡ true
    → parse_unary (level n) P ≡ done (unary t no_type e t.kind) Q
unfolding parse_unary level pure
prefix_run t zero P Q h s l o x = let no : ⊥ = omega (arith, l) in elim no [ ]
prefix_run {e} t (suc n) P Q h (parses s) l (a, u) x =
    on_kind-done P (unary_at (level (suc n))) t t.kind a refl
    ∙ ap (λ (m : Parse Node). m P) (unary_at-operator (level (suc n)) t.kind h)
    ∙ advance-done P (λ v. parse_unary (level n) >>= λ e. pure (unary v no_type e t.kind)) t a
    ∙ bind-done (parse_unary (level n)) (λ e. pure (unary t no_type e t.kind)) (advanced P) Q e
        (s n (advanced P) Q (omega (arith, l)) u x)

pub unary-prefix :
    {ts : List Token} {e : Node} (t : Token)
    → is_unary_operator t.kind ≡ true
    → Parses ends_postfix ts parse_unary e
    → Parses ends_postfix (t ∷ ts) parse_unary (unary t no_type e t.kind)
unary-prefix t h s = parses (λ n P Q l o x. prefix_run t n P Q h s (omega (arith, l)) o x)

sizeof_run :
    {ts : List Token} {e : Node} (s o c : Token) (n : ℕ) (P Q : Parser)
    → s.kind ≡ tok_sizeof
    → o.kind ≡ tok_lparen
    → Parses ends_expression ts parse_expression e
    → c.kind ≡ tok_rparen
    → length (ts ++ c ∷ []) < n
    → Over P (s ∷ o ∷ (ts ++ c ∷ [])) Q
    → parse_unary (level n) P ≡ done (sizeof_expr s no_type e) Q
unfolding parse_unary unary_at sizeof_operand level pure
sizeof_run s o c zero P Q h g p w l x = let no : ⊥ = omega (arith, l) in elim no [ ]
sizeof_run {e} s o c (suc n) P Q h g p w l (a, (b, u)) =
    let inner : Parse Node =
      parse_expression (level n) >>= λ x. parse_expect tok_rparen >>= λ _. pure x in
    on_kind-done P (unary_at (level (suc n))) s tok_sizeof a h
    ∙ advance-done P (λ t. sizeof_operand (level (suc n)) >>= λ e. pure (sizeof_expr t no_type e)) s
        a
    ∙ bind-done (sizeof_operand (level (suc n))) (λ e. pure (sizeof_expr s no_type e)) (advanced P)
        Q e
        (match-done (advanced P) tok_lparen inner (parse_unary (level n))
            (ap (λ (x : Token). x.kind) b ∙ g)
          ∙ closed n (advanced (advanced P)) Q c tok_rparen pure p closes_rparen w
              (omega (arith, l)) u)

pub unary-sizeof :
    {ts : List Token} {e : Node} (s o c : Token)
    → s.kind ≡ tok_sizeof
    → o.kind ≡ tok_lparen
    → Parses ends_expression ts parse_expression e
    → c.kind ≡ tok_rparen
    → Parses ends_postfix (s ∷ o ∷ (ts ++ c ∷ [])) parse_unary (sizeof_expr s no_type e)
unary-sizeof s o c h g p w =
    parses (λ n P Q l x f. sizeof_run s o c n P Q h g p w (omega (arith, l)) x)

not_lparen : (k : TokenKind) → k ≢ tok_lparen → kind_eq k tok_lparen ≡ false
not_lparen k h = elim (Bool-cases (kind_eq k tok_lparen)) [
  | inl e ↦ absurd (h ((kind_eq_iff k tok_lparen).0 e))
  | inr e ↦ e
]

sizeof_unary_run :
    {us : List Token} {e : Node} (s t : Token) (n : ℕ) (P Q : Parser)
    → s.kind ≡ tok_sizeof
    → t.kind ≢ tok_lparen
    → Parses ends_postfix (t ∷ us) parse_unary e
    → length (t ∷ us) < n
    → Over P (s ∷ t ∷ us) Q
    → ends_postfix Q.cur.kind ≡ true
    → parse_unary (level n) P ≡ done (sizeof_expr s no_type e) Q
unfolding parse_unary unary_at sizeof_operand level pure
sizeof_unary_run s t zero P Q h g p l x f = let no : ⊥ = omega (arith, l) in elim no [ ]
sizeof_unary_run {e} s t (suc n) P Q h g (parses p) l (a, (b, u)) f =
    let inner : Parse Node =
      parse_expression (level n) >>= λ x. parse_expect tok_rparen >>= λ _. pure x in
    on_kind-done P (unary_at (level (suc n))) s tok_sizeof a h
    ∙ advance-done P (λ t. sizeof_operand (level (suc n)) >>= λ e. pure (sizeof_expr t no_type e)) s
        a
    ∙ bind-done (sizeof_operand (level (suc n))) (λ e. pure (sizeof_expr s no_type e)) (advanced P)
        Q e
        (match-other (advanced P) tok_lparen inner (parse_unary (level n))
            (ap (λ (x : Token). kind_eq x.kind tok_lparen) b ∙ not_lparen t.kind g)
          ∙ p n (advanced P) Q (omega (arith, l)) (b, u) f)

pub unary-sizeof_unary :
    {us : List Token} {e : Node} (s t : Token)
    → s.kind ≡ tok_sizeof
    → t.kind ≢ tok_lparen
    → Parses ends_postfix (t ∷ us) parse_unary e
    → Parses ends_postfix (s ∷ t ∷ us) parse_unary (sizeof_expr s no_type e)
unary-sizeof_unary s t h g p =
    parses (λ n P Q l x f. sizeof_unary_run s t n P Q h g p (omega (arith, l)) x f)
