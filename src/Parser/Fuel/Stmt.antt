-- ===== src/Parser/Fuel/Stmt.antt =====
-- Tokens passed by the statements of qbebasedcompiler/src/parser.c.
use micro_colorschemes.Prelude.{ℕ, ◌≡◌, refl, false, arith}
use micro_colorschemes.Token.{
  TokenKind, Token, tok_eof, tok_comma, tok_eq, tok_semi, tok_colon, tok_lbrace, tok_rbrace,
  tok_lparen, tok_rparen, tok_ident, tok_if, tok_else, tok_while, tok_do, tok_for, tok_switch,
  tok_case, tok_default, tok_break, tok_continue, tok_goto, tok_return,
}
use micro_colorschemes.Token.Kinds.{kind_eq}
use micro_colorschemes.Ast.{CType, Node, no_node, break_stmt, continue_stmt, nil}
use micro_colorschemes.Parser.Level.{Level}
use micro_colorschemes.Parser.Stmt.{
  parse_compound, variable, variable_loop, parse_var_decl, parenthesized, optional_until,
  word_and_semi, expression_statement, label_or_expression, statement_at, parse_statement,
  block_loop,
}
use micro_colorschemes.Parser.Fuel.{
  Fed, FedOn, Fed-pure, Fed-weaken, Fed-past, Fed-on_kind, FedOn-any, Fed-pass, Fed-stay, Below,
  Below-less,
}
use micro_colorschemes.Parser.Fuel.Steps.{
  FedOn-advance, Fed-if_check, Fed-if_state, FedOn-if_state, Fed-match, Fed-expect, Fed-current,
  Fed-advance,
}
use micro_colorschemes.Parser.Fuel.Expr.{
  parse_expression-Fed, parse_assignment-Fed, parse_conditional-Fed,
}
use micro_colorschemes.Parser.Fuel.Types.{parse_decl_specifiers-Fed, star_loop-Fed, array_loop-Fed}

module _ {k : ℕ} {r : Level} (b : Below k r) where
  pub parse_compound-Fed : Fed 1 k (parse_compound r)
  unfolding parse_compound kind_eq
  parse_compound-Fed = Fed-pass (Fed-expect tok_lbrace refl) (λ t j s.
      Fed-stay (b j s).block (λ ss. Fed-past (Fed-expect tok_rbrace refl) (λ c i u. Fed-pure _)))

  variable-Fed : (t : CType) → Fed 1 k (variable r t)
  unfolding variable kind_eq
  variable-Fed t = Fed-pass (Fed-expect tok_ident refl) (λ name j s.
      Fed-stay (star_loop-Fed (Below-less s b) t) (λ p.
        Fed-stay (array_loop-Fed (Below-less s b) p) (λ a.
          Fed-stay
            (Fed-match tok_eq refl
              (λ i u. Fed-weaken (parse_assignment-Fed (Below-less (omega (arith, s, u)) b)))
              (Fed-pure no_node))
            (λ init. Fed-pure _))))

  pub variable_loop-Fed : (t : CType) → Fed 1 k (variable_loop r t)
  unfolding variable_loop kind_eq
  variable_loop-Fed t = Fed-pass (variable-Fed t) (λ v j s.
      Fed-match tok_comma refl
        (λ i u. Fed-past ((b i (omega (arith, s, u))).variables _) (λ vs h w. Fed-pure _))
        (Fed-pure _))

  parse_var_decl-Fed : Fed 1 k (parse_var_decl r)
  unfolding parse_var_decl kind_eq
  parse_var_decl-Fed = Fed-stay (parse_decl_specifiers-Fed b) (λ base.
      Fed-pass (variable_loop-Fed base)
        (λ vs j s. Fed-past (Fed-expect tok_semi refl) (λ c i u. Fed-pure _)))

  parenthesized-Fed : Fed 1 k (parenthesized r)
  unfolding parenthesized kind_eq
  parenthesized-Fed = Fed-pass (Fed-expect tok_lparen refl) (λ t j s.
      Fed-past (parse_expression-Fed (Below-less s b))
        (λ e i u. Fed-past (Fed-expect tok_rparen refl) (λ c h v. Fed-pure e)))

  optional_until-Fed : (t : TokenKind) → kind_eq t tok_eof ≡ false → Fed 1 k (optional_until r t)
  unfolding optional_until
  optional_until-Fed t n =
      Fed-stay (Fed-if_check t (FedOn-any (Fed-pure no_node)) (Fed-weaken (parse_expression-Fed b)))
        (λ e. Fed-pass (Fed-expect t n) (λ c j s. Fed-pure e))

  expression_statement-Fed : Fed 1 k (expression_statement r)
  unfolding expression_statement kind_eq
  expression_statement-Fed = Fed-stay Fed-current (λ t.
      Fed-pass (parse_expression-Fed b)
        (λ e j s. Fed-past (Fed-expect tok_semi refl) (λ c i u. Fed-pure _)))

  label_or_expression-FedOn : FedOn tok_ident 1 k (label_or_expression r)
  unfolding label_or_expression kind_eq
  label_or_expression-FedOn =
      FedOn-if_state _
        (FedOn-advance refl
          (λ t j s. Fed-stay Fed-advance (λ c. Fed-past (b j s).statement (λ x i u. Fed-pure _))))
        (FedOn-any expression_statement-Fed)

word_and_semi-FedOn :
    {t : TokenKind} {k : ℕ} (f : Token → Node)
    → kind_eq t tok_eof ≡ false
    → FedOn t 1 k (word_and_semi f)
unfolding word_and_semi kind_eq
word_and_semi-FedOn f n =
    FedOn-advance n (λ t j s. Fed-past (Fed-expect tok_semi refl) (λ c i u. Fed-pure _))

module _ {k : ℕ} {r : Level} (b : Below k r) where
  statement_at-Fed : (t : TokenKind) → FedOn t 1 k (statement_at r t)
  unfolding statement_at kind_eq
  statement_at-Fed tok_lbrace = FedOn-any (parse_compound-Fed b)
  statement_at-Fed tok_semi = FedOn-advance refl (λ t j s. Fed-pure _)
  statement_at-Fed tok_if = FedOn-advance refl (λ t j s.
      Fed-past (parenthesized-Fed (Below-less s b)) (λ c i u.
        Fed-past (b i (omega (arith, s, u))).statement (λ x h v.
          Fed-stay
            (Fed-match tok_else refl (λ g w. Fed-weaken (b g (omega (arith, s, u, v, w))).statement)
              (Fed-pure no_node))
            (λ e. Fed-pure _))))
  statement_at-Fed tok_while = FedOn-advance refl (λ t j s.
      Fed-past (parenthesized-Fed (Below-less s b))
        (λ c i u. Fed-past (b i (omega (arith, s, u))).statement (λ x h v. Fed-pure _)))
  statement_at-Fed tok_do = FedOn-advance refl (λ t j s. Fed-past (b j s).statement (λ x i u.
      Fed-past (Fed-expect tok_while refl) (λ w h v.
        Fed-past (parenthesized-Fed (Below-less (omega (arith, s, u, v)) b))
          (λ c g y. Fed-past (Fed-expect tok_semi refl) (λ d f z. Fed-pure _)))))
  statement_at-Fed tok_for = FedOn-advance refl (λ t j s.
      Fed-past (Fed-expect tok_lparen refl) (λ o i u.
        Fed-past (optional_until-Fed (Below-less (omega (arith, s, u)) b) tok_semi refl) (λ a h v.
          Fed-past (optional_until-Fed (Below-less (omega (arith, s, u, v)) b) tok_semi refl)
            (λ c g w.
              Fed-past
                (optional_until-Fed (Below-less (omega (arith, s, u, v, w)) b) tok_rparen refl)
                (λ p f y.
                  Fed-past (b f (omega (arith, s, u, v, w, y))).statement (λ x e z. Fed-pure _))))))
  statement_at-Fed tok_switch = FedOn-advance refl (λ t j s.
      Fed-past (parenthesized-Fed (Below-less s b))
        (λ c i u. Fed-past (b i (omega (arith, s, u))).statement (λ x h v. Fed-pure _)))
  statement_at-Fed tok_case = FedOn-advance refl (λ t j s.
      Fed-past (parse_conditional-Fed (Below-less s b)) (λ c i u.
        Fed-past (Fed-expect tok_colon refl)
          (λ d h v. Fed-past (b h (omega (arith, s, u, v))).statement (λ x g w. Fed-pure _))))
  statement_at-Fed tok_default = FedOn-advance refl (λ t j s.
      Fed-past (Fed-expect tok_colon refl)
        (λ d i u. Fed-past (b i (omega (arith, s, u))).statement (λ x h v. Fed-pure _)))
  statement_at-Fed tok_break = word_and_semi-FedOn break_stmt refl
  statement_at-Fed tok_continue = word_and_semi-FedOn continue_stmt refl
  statement_at-Fed tok_goto = FedOn-advance refl (λ t j s.
      Fed-past (Fed-expect tok_ident refl)
        (λ x i u. Fed-past (Fed-expect tok_semi refl) (λ c h v. Fed-pure _)))
  statement_at-Fed tok_return =
      FedOn-advance refl (λ t j s.
        Fed-past (optional_until-Fed (Below-less s b) tok_semi refl) (λ e i u. Fed-pure _))
  statement_at-Fed tok_ident = label_or_expression-FedOn b
  statement_at-Fed _ = FedOn-any (expression_statement-Fed b)

  pub parse_statement-Fed : Fed 1 k (parse_statement r)
  unfolding parse_statement
  parse_statement-Fed =
      Fed-if_state _ (parse_var_decl-Fed b) (Fed-on_kind (statement_at r) statement_at-Fed)

  pub block_loop-Fed : Fed 0 k (block_loop r)
  unfolding block_loop
  block_loop-Fed = Fed-if_check tok_rbrace (FedOn-any (Fed-pure nil)) (
      Fed-if_check tok_eof (FedOn-any (Fed-pure nil))
        (Fed-past parse_statement-Fed (λ x j s. Fed-stay (b j s).block (λ ss. Fed-pure _))))
