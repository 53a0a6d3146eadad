-- ===== src/Parser/Fuel/Expr.antt =====
-- Tokens passed by the expressions of qbebasedcompiler/src/parser.c.
use micro_colorschemes.Prelude.{
  ℕ, ◌<◌, ◌≡◌, refl, Bool, true, false, arith, ◌==◌, ltb, Bool-cases, inl, inr,
}
use micro_colorschemes.Token.{
  TokenKind, tok_eof, tok_comma, tok_eq, tok_pluseq, tok_minuseq, tok_stareq, tok_slasheq,
  tok_percenteq, tok_shleq, tok_shreq, tok_andeq, tok_xoreq, tok_oreq, tok_question, tok_colon,
  tok_plus, tok_minus, tok_bang, tok_tilde, tok_amp, tok_star, tok_plusplus, tok_minusminus,
  tok_sizeof, tok_lparen, tok_rparen, tok_lbracket, tok_rbracket, tok_dot, tok_arrow, tok_ident,
  tok_intlit, tok_floatlit, tok_charlit, tok_strlit,
}
use micro_colorschemes.Token.Kinds.{kind_eq}
use micro_colorschemes.Ast.{Node, nil}
use micro_colorschemes.Parser.Tables.{parse_precedence}
use micro_colorschemes.Parser.Level.{Level}
use micro_colorschemes.Parser.Expr.{
  primary_at, parse_primary, member_of, postfix_at, postfix_loop, parse_postfix, prefix_of,
  sizeof_operand, sizeof_of, unary_at, parse_unary, operator_at, operator_loop, parse_binary,
  parse_conditional, assign_of, assign_at, parse_assignment, comma_loop, parse_expression,
  argument_loop,
}
use micro_colorschemes.Parser.Fuel.{
  Fed, FedOn, Fed-pure, Fed-fail, Fed-weaken, Fed-past, Fed-on_kind, FedOn-any, FedOn-weaken,
  Fed-pass, Fed-stay, Below, Below-less,
}
use micro_colorschemes.Parser.Fuel.Steps.{
  FedOn-advance, Fed-if_check, Fed-match, Fed-expect, Fed-current, Fed-new_type_id,
}

module _ {k : ℕ} {r : Level} (b : Below k r) where
  primary_at-Fed : (t : TokenKind) → FedOn t 1 k (primary_at r t)
  unfolding primary_at kind_eq
  primary_at-Fed tok_intlit = FedOn-advance refl (λ t j s. Fed-pure _)
  primary_at-Fed tok_floatlit = FedOn-advance refl (λ t j s. Fed-pure _)
  primary_at-Fed tok_charlit = FedOn-advance refl (λ t j s. Fed-pure _)
  primary_at-Fed tok_strlit =
      FedOn-advance refl (λ t j s. Fed-stay Fed-new_type_id (λ id. Fed-pure _))
  primary_at-Fed tok_ident = FedOn-advance refl (λ t j s. Fed-pure _)
  primary_at-Fed tok_lparen = FedOn-advance refl (λ t j s.
      Fed-past (b j s).expression
        (λ e i u. Fed-past (Fed-expect tok_rparen refl) (λ c h v. Fed-pure e)))
  primary_at-Fed _ = FedOn-any (Fed-stay Fed-current (λ t. Fed-fail _))

  pub parse_primary-Fed : Fed 1 k (parse_primary r)
  unfolding parse_primary
  parse_primary-Fed = Fed-on_kind (primary_at r) primary_at-Fed

  member_of-FedOn :
      {t : TokenKind} (e : Node) (w : Bool)
      → kind_eq t tok_eof ≡ false
      → FedOn t 1 k (member_of r e w)
  unfolding member_of kind_eq
  member_of-FedOn e w n = FedOn-advance n (λ t j s.
      Fed-past (Fed-expect tok_ident refl) (λ f i u. (b i (omega (arith, s, u))).postfixes _))

  postfix_at-Fed : (e : Node) (t : TokenKind) → FedOn t 0 k (postfix_at r e t)
  unfolding postfix_at kind_eq
  postfix_at-Fed e tok_lbracket = FedOn-weaken (
      FedOn-advance refl (λ t j s. Fed-past (b j s).expression (λ x i u.
        Fed-past (Fed-expect tok_rbracket refl)
          (λ c h v. (b h (omega (arith, s, u, v))).postfixes _))))
  postfix_at-Fed e tok_lparen = FedOn-weaken (
      FedOn-advance refl (λ t j s.
        Fed-stay (Fed-if_check tok_rparen (FedOn-any (Fed-pure nil)) (Fed-weaken (b j s).arguments))
          (λ args.
            Fed-past (Fed-expect tok_rparen refl)
              (λ c i u. (b i (omega (arith, s, u))).postfixes _))))
  postfix_at-Fed e tok_dot = FedOn-weaken (member_of-FedOn e false refl)
  postfix_at-Fed e tok_arrow = FedOn-weaken (member_of-FedOn e true refl)
  postfix_at-Fed e tok_plusplus = FedOn-weaken (FedOn-advance refl (λ t j s. (b j s).postfixes _))
  postfix_at-Fed e tok_minusminus = FedOn-weaken (FedOn-advance refl (λ t j s. (b j s).postfixes _))
  postfix_at-Fed e _ = FedOn-any (Fed-pure e)

  pub postfix_loop-Fed : (e : Node) → Fed 0 k (postfix_loop r e)
  unfolding postfix_loop
  postfix_loop-Fed e = Fed-on_kind (postfix_at r e) (postfix_at-Fed e)

module _ {k : ℕ} {r : Level} (b : Below k r) where
  parse_postfix-Fed : Fed 1 k (parse_postfix r)
  unfolding parse_postfix
  parse_postfix-Fed = Fed-pass (parse_primary-Fed b) (λ e j s. postfix_loop-Fed (Below-less s b) e)

  prefix_of-FedOn :
      {t : TokenKind} (op : TokenKind) → kind_eq t tok_eof ≡ false → FedOn t 1 k (prefix_of r op)
  prefix_of-FedOn op n = FedOn-advance n (λ t j s. Fed-past (b j s).unary (λ e i u. Fed-pure _))

  sizeof_operand-Fed : {j : ℕ} → j < k → Fed 0 j (sizeof_operand r)
  unfolding sizeof_operand kind_eq
  sizeof_operand-Fed {j} s =
      Fed-match tok_lparen refl
        (λ i u.
          Fed-past (b i (omega (arith, s, u))).expression
            (λ e h v. Fed-past (Fed-expect tok_rparen refl) (λ c g w. Fed-pure e)))
        (Fed-weaken (b j s).unary)

  sizeof_of-FedOn : {t : TokenKind} → kind_eq t tok_eof ≡ false → FedOn t 1 k (sizeof_of r)
  sizeof_of-FedOn n = FedOn-advance n (λ t j s. Fed-stay (sizeof_operand-Fed s) (λ e. Fed-pure _))

  unary_at-Fed : (t : TokenKind) → FedOn t 1 k (unary_at r t)
  unfolding unary_at kind_eq
  unary_at-Fed tok_plus = prefix_of-FedOn tok_plus refl
  unary_at-Fed tok_minus = prefix_of-FedOn tok_minus refl
  unary_at-Fed tok_bang = prefix_of-FedOn tok_bang refl
  unary_at-Fed tok_tilde = prefix_of-FedOn tok_tilde refl
  unary_at-Fed tok_amp = prefix_of-FedOn tok_amp refl
  unary_at-Fed tok_star = prefix_of-FedOn tok_star refl
  unary_at-Fed tok_plusplus = prefix_of-FedOn tok_plusplus refl
  unary_at-Fed tok_minusminus = prefix_of-FedOn tok_minusminus refl
  unary_at-Fed tok_sizeof = sizeof_of-FedOn refl
  unary_at-Fed _ = FedOn-any parse_postfix-Fed

  pub parse_unary-Fed : Fed 1 k (parse_unary r)
  unfolding parse_unary
  parse_unary-Fed = Fed-on_kind (unary_at r) unary_at-Fed

  -- The end is no operator.
  operator_kind : (t : TokenKind) → parse_precedence t == 0 ≡ false → kind_eq t tok_eof ≡ false
  unfolding parse_precedence kind_eq
  operator_kind tok_eof h = cc
  operator_kind _ h = refl

  operator_at-Fed : (p : ℕ) (e : Node) (t : TokenKind) → FedOn t 0 k (operator_at r p e t)
  unfolding operator_at
  operator_at-Fed p e t = elim (Bool-cases (parse_precedence t == 0)) [
    | inl h ↦ rw h (FedOn-any (Fed-pure e))
    | inr h ↦ rw h (elim (Bool-cases (ltb (parse_precedence t) p)) [
      | inl g ↦ rw g (FedOn-any (Fed-pure e))
      | inr g ↦ rw g (
          FedOn-weaken (
            FedOn-advance (operator_kind t h) (λ a j s.
              Fed-past ((b j s).binary _) (λ x i u. (b i (omega (arith, s, u))).operators p _))))
    ])
  ]

  pub operator_loop-Fed : (p : ℕ) (e : Node) → Fed 0 k (operator_loop r p e)
  unfolding operator_loop
  operator_loop-Fed p e = Fed-on_kind (operator_at r p e) (operator_at-Fed p e)

module _ {k : ℕ} {r : Level} (b : Below k r) where
  pub parse_binary-Fed : (p : ℕ) → Fed 1 k (parse_binary r p)
  unfolding parse_binary
  parse_binary-Fed p =
      Fed-pass (parse_unary-Fed b) (λ e j s. operator_loop-Fed (Below-less s b) p e)

  pub parse_conditional-Fed : Fed 1 k (parse_conditional r)
  unfolding parse_conditional kind_eq
  parse_conditional-Fed = Fed-pass (parse_binary-Fed 0) (λ c j s.
      Fed-if_check tok_question
        (FedOn-weaken (
          FedOn-advance refl (λ t i u. Fed-past (b i (omega (arith, s, u))).expression (λ x h v.
            Fed-past (Fed-expect tok_colon refl) (λ d g w.
              Fed-past (b g (omega (arith, s, u, v, w))).conditional (λ y f z. Fed-pure _))))))
        (Fed-pure c))

  assign_of-FedOn :
      {t : TokenKind} (e : Node) (op : TokenKind)
      → kind_eq t tok_eof ≡ false
      → FedOn t 0 k (assign_of r e op)
  assign_of-FedOn e op n =
      FedOn-weaken (FedOn-advance n (λ t j s. Fed-past (b j s).assignment (λ x i u. Fed-pure _)))

  assign_at-Fed : (e : Node) (t : TokenKind) → FedOn t 0 k (assign_at r e t)
  unfolding assign_at kind_eq
  assign_at-Fed e tok_eq = assign_of-FedOn e tok_eq refl
  assign_at-Fed e tok_pluseq = assign_of-FedOn e tok_pluseq refl
  assign_at-Fed e tok_minuseq = assign_of-FedOn e tok_minuseq refl
  assign_at-Fed e tok_stareq = assign_of-FedOn e tok_stareq refl
  assign_at-Fed e tok_slasheq = assign_of-FedOn e tok_slasheq refl
  assign_at-Fed e tok_percenteq = assign_of-FedOn e tok_percenteq refl
  assign_at-Fed e tok_shleq = assign_of-FedOn e tok_shleq refl
  assign_at-Fed e tok_shreq = assign_of-FedOn e tok_shreq refl
  assign_at-Fed e tok_andeq = assign_of-FedOn e tok_andeq refl
  assign_at-Fed e tok_xoreq = assign_of-FedOn e tok_xoreq refl
  assign_at-Fed e tok_oreq = assign_of-FedOn e tok_oreq refl
  assign_at-Fed e _ = FedOn-any (Fed-pure e)

module _ {k : ℕ} {r : Level} (b : Below k r) where
  pub parse_assignment-Fed : Fed 1 k (parse_assignment r)
  unfolding parse_assignment
  parse_assignment-Fed =
      Fed-pass (parse_conditional-Fed b)
        (λ e j s. Fed-on_kind (assign_at r e) (assign_at-Fed (Below-less s b) e))

module _ {k : ℕ} {r : Level} (b : Below k r) where
  pub comma_loop-Fed : (e : Node) → Fed 0 k (comma_loop r e)
  unfolding comma_loop kind_eq
  comma_loop-Fed e =
      Fed-if_check tok_comma
        (FedOn-weaken (
          FedOn-advance refl (λ t j s.
            Fed-past (parse_assignment-Fed (Below-less s b))
              (λ x i u. (b i (omega (arith, s, u))).commas _))))
        (Fed-pure e)

  pub argument_loop-Fed : Fed 1 k (argument_loop r)
  unfolding argument_loop kind_eq
  argument_loop-Fed = Fed-pass (parse_assignment-Fed b) (λ e j s.
      Fed-match tok_comma refl
        (λ i u. Fed-past (b i (omega (arith, s, u))).arguments (λ es h v. Fed-pure _)) (Fed-pure _))

module _ {k : ℕ} {r : Level} (b : Below k r) where
  pub parse_expression-Fed : Fed 1 k (parse_expression r)
  unfolding parse_expression
  parse_expression-Fed =
      Fed-pass (parse_assignment-Fed b) (λ e j s. comma_loop-Fed (Below-less s b) e)
