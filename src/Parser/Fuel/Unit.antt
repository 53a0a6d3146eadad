-- ===== src/Parser/Fuel/Unit.antt =====
-- Tokens passed at the top level of qbebasedcompiler/src/parser.c, and the levels that are enough.
use micro_colorschemes.Prelude.{ℕ, zero, suc, refl, arith}
use micro_colorschemes.Token.{Token, tok_semi, tok_comma}
use micro_colorschemes.Token.Kinds.{kind_eq}
use micro_colorschemes.Ast.{CType, Node, no_node, nil}
use micro_colorschemes.Parser.Level.{Level}
use micro_colorschemes.Parser.Unit.{
  declarator_loop, function_definition, declaration, external_rest, external_tail,
  parse_external_decl, level,
}
use micro_colorschemes.Parser.Fuel.{
  Fed, Fed-pure, Fed-past, FedOn-any, Fed-stay, Feeds, Below, Below-less,
}
use micro_colorschemes.Parser.Fuel.Steps.{
  Fed-if_check, Fed-if_state, Fed-match, Fed-expect, Fed-current, Fed-advance,
}
use micro_colorschemes.Parser.Fuel.Expr.{
  parse_expression-Fed, parse_assignment-Fed, parse_conditional-Fed, parse_binary-Fed,
  parse_unary-Fed, comma_loop-Fed, operator_loop-Fed, postfix_loop-Fed, argument_loop-Fed,
}
use micro_colorschemes.Parser.Fuel.Types.{
  specifier_loop-Fed, parse_decl_specifiers-Fed, star_loop-Fed, array_loop-Fed, param_loop-Fed,
  parse_declarator-Fed,
}
use micro_colorschemes.Parser.Fuel.Stmt.{
  parse_statement-Fed, parse_compound-Fed, block_loop-Fed, variable_loop-Fed,
}

module _ {k : ℕ} {r : Level} (b : Below k r) where
  declarator_loop-Fed : (t : CType) → Fed 0 k (declarator_loop r t)
  unfolding declarator_loop kind_eq
  declarator_loop-Fed t =
      Fed-match tok_comma refl
        (λ j s.
          Fed-stay (parse_declarator-Fed (Below-less s b) t)
            (λ d. Fed-stay ((b j s).declarators t) (λ ds. Fed-pure _)))
        (Fed-pure nil)

  function_definition-Fed : (t : Token) (name : Node) → Fed 0 k (function_definition r t name)
  unfolding function_definition
  function_definition-Fed t name = Fed-past (parse_compound-Fed b) (λ body j s. Fed-pure _)

  declaration-Fed : (t : Token) (base : CType) (name : Node) → Fed 0 k (declaration r t base name)
  unfolding declaration kind_eq
  declaration-Fed t base name =
      Fed-stay (declarator_loop-Fed base)
        (λ ds. Fed-past (Fed-expect tok_semi refl) (λ s j u. Fed-pure _))

  pub external_rest-Fed :
      (t : Token) (base : CType) (name : Node) → Fed 0 k (external_rest r t base name)
  unfolding external_rest
  external_rest-Fed t base no_node = Fed-pure no_node
  external_rest-Fed t base name =
      Fed-if_state _ (function_definition-Fed t name) (declaration-Fed t base name)

  pub external_tail-Fed : (base : CType) → Fed 0 k (external_tail r base)
  unfolding external_tail
  external_tail-Fed base =
      Fed-if_check tok_semi (FedOn-any (Fed-stay Fed-advance (λ s. Fed-pure no_node))) (
        Fed-stay Fed-current
          (λ t. Fed-stay (parse_declarator-Fed b base) (λ name. external_rest-Fed t base name)))

  pub parse_external_decl-Fed : Fed 0 k (parse_external_decl r)
  unfolding parse_external_decl
  parse_external_decl-Fed = Fed-stay (parse_decl_specifiers-Fed b) external_tail-Fed

-- The functions over a level that is enough for fewer tokens.
Feeds-level : {k : ℕ} (n : ℕ) → Below k (level n) → Feeds k (level (suc n))
unfolding level
Feeds-level n b = record {
  expression = parse_expression-Fed b;
  assignment = parse_assignment-Fed b;
  conditional = parse_conditional-Fed b;
  binary = parse_binary-Fed b;
  unary = parse_unary-Fed b;
  statement = parse_statement-Fed b;
  commas = comma_loop-Fed b;
  operators = operator_loop-Fed b;
  postfixes = postfix_loop-Fed b;
  arguments = argument_loop-Fed b;
  specifiers = specifier_loop-Fed b;
  stars = star_loop-Fed b;
  arrays = array_loop-Fed b;
  params = param_loop-Fed b;
  declarators = declarator_loop-Fed b;
  block = block_loop-Fed b;
  variables = variable_loop-Fed b;
}

pub Below-level : (n : ℕ) → Below n (level n)
Below-level zero j s = let no : ⊥ = omega (arith, s) in elim no [ ]
Below-level (suc n) j s = Feeds-level n (λ i t. Below-level n i (omega (arith, s, t)))
