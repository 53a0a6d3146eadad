-- ===== src/Parser/Fuel/Loop.antt =====
-- The loop of `parse_translation_unit` of qbebasedcompiler/src/parser.c: where it ends and where not.
use micro_colorschemes.Prelude.{
  ℕ, zero, suc, ◌⊎◌, ◌<◌, ◌≤◌, ◌≡◌, refl, ◌∙◌, true, false, arith, Bool-cases, inl, inr,
}
use micro_colorschemes.Token.{tok_eof}
use micro_colorschemes.Token.Kinds.{kind_eq}
use micro_colorschemes.Lexer.Bounds.{IsValid}
use micro_colorschemes.Ast.{CType, Node, NodeList}
use micro_colorschemes.Parser.State.{
  Parser, Outcome, done, failed, no_fuel, then_parse, ◌>>=◌, pure, if_check, out_of_fuel,
}
use micro_colorschemes.Parser.Level.{Level}
use micro_colorschemes.Parser.Expr.{parse_expression}
use micro_colorschemes.Parser.Types.{parse_declarator}
use micro_colorschemes.Parser.Stmt.{parse_statement, parse_compound}
use micro_colorschemes.Parser.Unit.{parse_external_decl, level, cons_node, unit_loop}
use micro_colorschemes.Parser.Fuel.{Goes, Fed-of, Below, left}
use micro_colorschemes.Parser.Fuel.Expr.{parse_expression-Fed}
use micro_colorschemes.Parser.Fuel.Types.{parse_declarator-Fed}
use micro_colorschemes.Parser.Fuel.Stmt.{parse_statement-Fed, parse_compound-Fed}
use micro_colorschemes.Parser.Fuel.Unit.{parse_external_decl-Fed, Below-level}
use micro_colorschemes.Parser.Fuel.Progress.{
  is_stuck, is_stuck-none, parse_external_decl-Goes, parse_external_decl-stuck,
}

-- With a level of the number of tokens left, from a valid lexer: `parse_expression`,
-- `parse_statement` and `parse_compound` are done behind one token at least or fail with a message,
-- and `parse_declarator` and `parse_external_decl` are done, perhaps without passing a token, or
-- fail. None of them runs for ever.
pub level-Goes :
    (n : ℕ) (P : Parser) (base : CType)
    → IsValid P.lex
    → left P ≤ n
    → Goes 1 P (parse_expression (level n) P)
      × Goes 1 P (parse_statement (level n) P)
      × Goes 1 P (parse_compound (level n) P)
      × Goes 0 P (parse_declarator (level n) base P)
      × Goes 0 P (parse_external_decl (level n) P)
level-Goes n P base v l =
    let b : Below n (level n) = Below-level n in
    (
      Fed-of (parse_expression-Fed b) P v l,
      Fed-of (parse_statement-Fed b) P v l,
      Fed-of (parse_compound-Fed b) P v l,
      Fed-of (parse_declarator-Fed b base) P v l,
      Fed-of (parse_external_decl-Fed b) P v l,
    )

-- The states that the loop comes to, round by round.
pub data Reaches (r : Level) : Parser → Parser → Type 0 where
  here : {P : Parser} → Reaches r P P
  round :
      {P Q R : Parser} (d : Node)
      → kind_eq P.cur.kind tok_eof ≡ false
      → parse_external_decl r P ≡ done d Q
      → Reaches r Q R
      → Reaches r P R

module _ (r : Level) (P : Parser) where
  unit_loop-suc :
      (m : ℕ)
      → kind_eq P.cur.kind tok_eof ≡ false
      → unit_loop r (suc m) P
        ≡ then_parse (parse_external_decl r P) (λ d. unit_loop r m >>= λ ds. pure (cons_node d ds))
  unfolding unit_loop if_check ◌>>=◌
  unit_loop-suc m n = rw n refl

bind-no_fuel :
    {A B : Type 0} (o : Outcome A) (f : A → B)
    → o ≡ no_fuel
    → then_parse o (λ x. pure (f x)) ≡ no_fuel
bind-no_fuel o f e = rw e refl

-- If the loop comes to a state that is stuck, at a token other than the end, `;`, a specifier and
-- the beginnings `*`, `[`, `(` and identifier of a declarator, it never ends: no number of rounds
-- is enough, whatever the level.
pub unit_loop-hangs :
    (r : Level) (P Q : Parser) (m : ℕ)
    → Reaches r P Q
    → is_stuck Q ≡ true
    → unit_loop r m P ≡ no_fuel
unfolding ◌>>=◌ unit_loop out_of_fuel
unit_loop-hangs r P Q zero w st = refl
unit_loop-hangs r P Q (suc m) here st =
    unit_loop-suc r P m (is_stuck-none P st).1
    ∙ rw (parse_external_decl-stuck r P st) (bind-no_fuel _ _ (unit_loop-hangs r P P m here st))
unit_loop-hangs r P Q (suc m) (round {Q = S} d n e w) st =
    unit_loop-suc r P m n ∙ rw e (bind-no_fuel _ _ (unit_loop-hangs r S Q m w st))

-- The state comes to a token that is stuck.
abbrev pub GetsStuck : Level → Parser → Type 0
GetsStuck r P = (Q : Parser) × Reaches r P Q × (is_stuck Q ≡ true)

cons_node-Goes :
    (P Q : Parser) (d : Node) (o : Outcome NodeList)
    → left Q ≤ left P
    → Goes 0 Q o
    → Goes 0 P (then_parse o (λ ds. pure (cons_node d ds)))
unfolding Goes pure
cons_node-Goes P Q d (done ds R) l (v, s) = (v, omega (arith, l, s))
cons_node-Goes P Q d (failed e) l g = tt
cons_node-Goes P Q d no_fuel l g = elim g [ ]

module _ (r : Level) (m : ℕ) (P : Parser) (ne : kind_eq P.cur.kind tok_eof ≡ false) where
  -- A round that passed a token, and the rounds behind it.
  after_round :
      (o : Outcome Node)
      → parse_external_decl r P ≡ o
      → Goes 1 P o
      → ((Q : Parser)
          → IsValid Q.lex
          → left Q < left P
          → GetsStuck r Q ⊎ Goes 0 Q (unit_loop r m Q))
      → GetsStuck r P ⊎ Goes 0 P (unit_loop r (suc m) P)
  unfolding Goes ◌>>=◌
  after_round (done d Q) e (v, s) rest = elim (rest Q v (omega (arith, s))) [
    | inl (R, w, st) ↦ inl (R, round d ne e w, st)
    | inr g ↦ inr (rw (unit_loop-suc r P m ne) (rw e (cons_node-Goes P Q d _ (omega (arith, s)) g)))
  ]
  after_round (failed x) e g rest = inr (rw (unit_loop-suc r P m ne) (rw e tt))
  after_round no_fuel e g rest = elim g [ ]

unit_loop-Goes_eof :
    (r : Level) (m : ℕ) (P : Parser)
    → kind_eq P.cur.kind tok_eof ≡ true
    → IsValid P.lex
    → Goes 0 P (unit_loop r (suc m) P)
unfolding unit_loop if_check Goes pure
unit_loop-Goes_eof r m P e v = rw e (v, omega arith)

-- With more rounds than tokens left, and a level of the tokens left, from a valid lexer, the loop
-- of `parse_translation_unit` is done or fails with a message, unless it comes to a state that is
-- stuck: at a token with which no external declaration begins.
pub unit_loop-ends :
    (n m : ℕ) (P : Parser)
    → IsValid P.lex
    → left P ≤ n
    → left P < m
    → GetsStuck (level n) P ⊎ Goes 0 P (unit_loop (level n) m P)
unit_loop-ends n zero P v l s = let no : ⊥ = omega (arith, s) in elim no [ ]
unit_loop-ends n (suc m) P v l s = elim (Bool-cases (kind_eq P.cur.kind tok_eof)) [
  | inl e ↦ inr (unit_loop-Goes_eof (level n) m P e v)
  | inr ne ↦ elim (Bool-cases (is_stuck P)) [
    | inl st ↦ inl (P, here, st)
    | inr st ↦
        after_round (level n) m P ne (parse_external_decl (level n) P) refl
          (parse_external_decl-Goes (Below-level n) P v l ne st)
          (λ Q w t. unit_loop-ends n m Q w (omega (arith, l, t)) (omega (arith, s, t)))
  ]
]
