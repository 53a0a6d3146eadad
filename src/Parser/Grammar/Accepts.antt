-- ===== src/Parser/Grammar/Accepts.antt =====
-- The parser of expressions of qbebasedcompiler/src/parser.c on the derivations of the grammar.
use micro_colorschemes.Prelude.{
  ℕ, suc, ◌≤◌, ◌<◌, ◌≡◌, refl, ap, ◌∙◌, Bool, true, false, List, [], ◌∷◌, ◌++◌, length, arith,
}
use micro_colorschemes.Token.{
  TokenKind, Token, tok_lbracket, tok_lparen, tok_dot, tok_arrow, tok_plusplus, tok_minusminus,
  tok_rparen,
}
use micro_colorschemes.Ast.{Node, NodeList}
use micro_colorschemes.Parser.State.{Parser, done}
use micro_colorschemes.Parser.Tables.{parse_precedence}
use micro_colorschemes.Parser.Unit.{level}
use micro_colorschemes.Parser.Expr.{
  parse_primary, postfix_loop, parse_postfix, parse_unary, operator_loop, parse_binary,
  parse_conditional, parse_assignment, comma_loop, parse_expression, argument_loop,
}
use micro_colorschemes.Parser.Grammar.{
  is_unary_operator, goes_on, Primary, name, int_literal, float_literal, char_literal, parens,
  Postfix, primary, subscript, call_none, call_some, dot, arrow, increment, Arguments, last, more,
  Unary, postfixed, prefixed, sizeof_parens, sizeof_unary, Binary, operand, above, operation,
  Conditional, tested, choice, Assignment, value, assigned, Expression, single, sequence,
}
use micro_colorschemes.Parser.Grammar.Steps.{
  Over, ends_postfix, ends_binary, ends_conditional, ends_assignment, ends_expression, Starts,
  starts, Parses, parses, Loops, Loops-turn,
}
use micro_colorschemes.Parser.Grammar.Suffixes.{
  any_kind, starts_primary, no_rparen, Starts-append, primary-ident, primary-int, primary-float,
  primary-char, primary-parens, postfix-primary, turn-subscript, turn-call_none, turn-call_some,
  turn-dot, turn-arrow, turn-increment,
}
use micro_colorschemes.Parser.Grammar.Prefixes.{
  unary-postfix, unary-prefix, unary-sizeof, unary-sizeof_unary,
}
use micro_colorschemes.Parser.Grammar.Operators.{
  ends_binary-higher, binary-unary, Loops-weaken, binary-right, turn-operation, condition,
  conditional-tested, conditional-choice,
}
use micro_colorschemes.Parser.Grammar.Assign.{
  assignment-value, assignment-assigned, expression-single, turn-comma, expression_whole,
  arguments-last, arguments-more, comma_ends,
}
use micro_colorschemes.Parser.Grammar.Tables.{BinaryOperator-level, goes_on-ends}

-- The first tokens.
Primary-Starts : {ts : List Token} {e : Node} → Primary ts e → Starts starts_primary ts
Primary-Starts (name h) = starts (ap starts_primary h)
Primary-Starts (int_literal h) = starts (ap starts_primary h)
Primary-Starts (float_literal h) = starts (ap starts_primary h)
Primary-Starts (char_literal h) = starts (ap starts_primary h)
Primary-Starts (parens o c ts h x w) = starts (ap starts_primary h)

Postfix-Starts : {ts : List Token} {e : Node} → Postfix ts e → Starts starts_primary ts
Postfix-Starts (primary p) = Primary-Starts p
Postfix-Starts (subscript o c ts us p h x w) = Starts-append (o ∷ (us ++ c ∷ [])) (Postfix-Starts p)
Postfix-Starts (call_none o c ts p h w) = Starts-append (o ∷ c ∷ []) (Postfix-Starts p)
Postfix-Starts (call_some o c ts us p h x w) = Starts-append (o ∷ (us ++ c ∷ [])) (Postfix-Starts p)
Postfix-Starts (dot o f ts p h w) = Starts-append (o ∷ f ∷ []) (Postfix-Starts p)
Postfix-Starts (arrow o f ts p h w) = Starts-append (o ∷ f ∷ []) (Postfix-Starts p)
Postfix-Starts (increment o ts p h) = Starts-append (o ∷ []) (Postfix-Starts p)

primary-no_rparen : (k : TokenKind) → starts_primary k ≡ true → no_rparen k ≡ true
primary-no_rparen tok_rparen h = cc
primary-no_rparen _ h = refl

operator-no_rparen : (k : TokenKind) → is_unary_operator k ≡ true → no_rparen k ≡ true
operator-no_rparen tok_rparen h = cc
operator-no_rparen _ h = refl

Starts-other :
    {f g : TokenKind → Bool} {ts : List Token}
    → ((k : TokenKind) → f k ≡ true → g k ≡ true)
    → Starts f ts
    → Starts g ts
Starts-other w (starts h) = starts (w _ h)

Unary-Starts : {ts : List Token} {e : Node} → Unary ts e → Starts no_rparen ts
Unary-Starts (postfixed p) = Starts-other primary-no_rparen (Postfix-Starts p)
Unary-Starts (prefixed o ts h u) = starts (operator-no_rparen o.kind h)
Unary-Starts (sizeof_parens s o c ts h w x z) = starts (ap no_rparen h)
Unary-Starts (sizeof_unary s t ts h w u) = starts (ap no_rparen h)

Binary-Starts : {p : ℕ} {ts : List Token} {e : Node} → Binary p ts e → Starts no_rparen ts
Binary-Starts (operand u) = Unary-Starts u
Binary-Starts (above b) = Binary-Starts b
Binary-Starts (operation o ts us b h r) = Starts-append (o ∷ us) (Binary-Starts b)

Conditional-Starts : {ts : List Token} {e : Node} → Conditional ts e → Starts no_rparen ts
Conditional-Starts (tested b) = Binary-Starts b
Conditional-Starts (choice q c ts us vs b h x w y) =
    Starts-append (q ∷ (us ++ c ∷ vs)) (Binary-Starts b)

Assignment-Starts : {ts : List Token} {e : Node} → Assignment ts e → Starts no_rparen ts
Assignment-Starts (value c) = Conditional-Starts c
Assignment-Starts (assigned o ts us u h a) = Starts-append (o ∷ us) (Unary-Starts u)

Arguments-Starts : {ts : List Token} {es : NodeList} → Arguments ts es → Starts no_rparen ts
Arguments-Starts (last a) = Assignment-Starts a
Arguments-Starts (more c ts us a h x) = Starts-append (c ∷ us) (Assignment-Starts a)

-- An operator with a precedence is no suffix.
operator_kind : (k : TokenKind) → 0 < parse_precedence k → ends_postfix k ≡ true
unfolding parse_precedence
operator_kind tok_lbracket h = ground (arith, h)
operator_kind tok_lparen h = ground (arith, h)
operator_kind tok_dot h = ground (arith, h)
operator_kind tok_arrow h = ground (arith, h)
operator_kind tok_plusplus h = ground (arith, h)
operator_kind tok_minusminus h = ground (arith, h)
operator_kind _ h = refl

operator_ends : (p : ℕ) (k : TokenKind) → parse_precedence k ≡ p → 0 < p → ends_binary p k ≡ true
operator_ends p k h z = ground (arith, h, z, operator_kind k (omega (arith, h, z)))

mutual
  Primary-Parses : {ts : List Token} {e : Node} → Primary ts e → Parses any_kind ts parse_primary e
  Primary-Parses (name h) = primary-ident h
  Primary-Parses (int_literal h) = primary-int h
  Primary-Parses (float_literal h) = primary-float h
  Primary-Parses (char_literal h) = primary-char h
  Primary-Parses (parens o c ts h x w) =
      primary-parens o c h (expression_whole (Expression-Loops x)) w

  Postfix-Loops :
      {ts : List Token} {e : Node} → Postfix ts e → Loops any_kind ts parse_postfix postfix_loop e
  Postfix-Loops (primary p) = postfix-primary (Primary-Parses p)
  Postfix-Loops (subscript o c ts us p h x w) =
      Loops-turn (Postfix-Loops p) (starts refl)
        (turn-subscript o c h (expression_whole (Expression-Loops x)) w)
  Postfix-Loops (call_none o c ts p h w) =
      Loops-turn (Postfix-Loops p) (starts refl) (turn-call_none o c h w)
  Postfix-Loops (call_some o c ts us p h x w) =
      Loops-turn (Postfix-Loops p) (starts refl)
        (turn-call_some o c h (Arguments-Starts x) (Arguments-Parses x) w)
  Postfix-Loops (dot o f ts p h w) = Loops-turn (Postfix-Loops p) (starts refl) (turn-dot o f h w)
  Postfix-Loops (arrow o f ts p h w) =
      Loops-turn (Postfix-Loops p) (starts refl) (turn-arrow o f h w)
  Postfix-Loops (increment o ts p h) =
      Loops-turn (Postfix-Loops p) (starts refl) (turn-increment o h)

  Arguments-Parses :
      {ts : List Token} {es : NodeList}
      → Arguments ts es
      → Parses ends_expression ts argument_loop es
  Arguments-Parses (last a) = arguments-last (Assignment-Parses a)
  Arguments-Parses (more c ts us a h x) =
      arguments-more c (Assignment-Parses a) h (Arguments-Parses x)

  Unary-Parses : {ts : List Token} {e : Node} → Unary ts e → Parses ends_postfix ts parse_unary e
  Unary-Parses (postfixed p) = unary-postfix (Postfix-Loops p) (Postfix-Starts p)
  Unary-Parses (prefixed o ts h u) = unary-prefix o h (Unary-Parses u)
  Unary-Parses (sizeof_parens s o c ts h w x z) =
      unary-sizeof s o c h w (expression_whole (Expression-Loops x)) z
  Unary-Parses (sizeof_unary s t ts h w u) = unary-sizeof_unary s t h w (Unary-Parses u)

  Binary-Loops :
      {p : ℕ} {ts : List Token} {e : Node} (q : ℕ)
      → q ≤ p
      → Binary p ts e
      → Loops (ends_binary p) ts (λ r. parse_binary r q) (λ r. operator_loop r q) e
  Binary-Loops q l (operand u) = binary-unary 11 q (Unary-Parses u)
  Binary-Loops {p} q l (above b) =
      Loops-weaken (Binary-Loops q (omega (arith, l)) b)
        (λ k x. ends_binary-higher p (suc p) k (omega arith) x)
  Binary-Loops {p} q l (operation o ts us b h r) =
      let (e, z) = BinaryOperator-level p o.kind h in
      Loops-turn (Binary-Loops q l b) (starts (operator_ends p o.kind e z))
        (turn-operation p q o e z l (binary-right p (Binary-Loops (suc p) (omega arith) r)))

  Conditional-Parses :
      {ts : List Token} {e : Node}
      → Conditional ts e
      → Parses ends_conditional ts parse_conditional e
  Conditional-Parses (tested b) = conditional-tested (condition (Binary-Loops 0 (omega arith) b))
  Conditional-Parses (choice q c ts us vs b h x w y) =
      conditional-choice q c (condition (Binary-Loops 0 (omega arith) b)) h
        (expression_whole (Expression-Loops x)) w (Conditional-Parses y)

  Assignment-Parses :
      {ts : List Token} {e : Node} → Assignment ts e → Parses ends_assignment ts parse_assignment e
  Assignment-Parses (value c) = assignment-value (Conditional-Parses c)
  Assignment-Parses (assigned o ts us u h a) =
      assignment-assigned o
        (conditional-tested
          (condition (Loops-weaken (binary-unary 1 0 (Unary-Parses u)) (λ k x. x))))
        h (Assignment-Parses a)

  Expression-Loops :
      {ts : List Token} {e : Node}
      → Expression ts e
      → Loops ends_assignment ts parse_expression comma_loop e
  Expression-Loops (single a) = expression-single (Assignment-Parses a)
  Expression-Loops (sequence c ts us x h a) =
      Loops-turn (Expression-Loops x) (starts (ap ends_assignment h ∙ comma_ends))
        (turn-comma c h (Assignment-Parses a))

derived_run :
    {ts : List Token} {e : Node} (n : ℕ) (P Q : Parser)
    → Parses ends_expression ts parse_expression e
    → length ts ≤ n
    → Over P ts Q
    → ends_expression Q.cur.kind ≡ true
    → parse_expression (level n) P ≡ done e Q
derived_run n P Q (parses h) l o f = h n P Q l o f

-- If the grammar derives the node `e` from the tokens `ts`, these are the next tokens of the parser,
-- and the token behind them does not go on with an expression (it is none of `[`, `(`, `.`, `->`, `++`,
-- `--`, the binary operators, `?`, the operators of assignments and `,`), then `parse_expression`
-- returns `e` and stops in front of that token, with a level of the number of the tokens at least.
-- The levels of the binary operators are those of C, written out in the grammar.
pub parse_expression-derived :
    {ts : List Token} {e : Node} (n : ℕ) (P Q : Parser)
    → Expression ts e
    → length ts ≤ n
    → Over P ts Q
    → goes_on Q.cur.kind ≡ false
    → parse_expression (level n) P ≡ done e Q
parse_expression-derived n P Q x l o f =
    derived_run n P Q (expression_whole (Expression-Loops x)) l o (goes_on-ends Q.cur.kind f)
