-- ===== src/Parser/Unit.antt =====
-- The top level of qbebasedcompiler/src/parser.c: `parse_external_decl`, `parse_translation_unit` and
-- `parse_file`.
use micro_colorschemes.Prelude.{ℕ, zero, suc, Bool, true, false, ◌&&◌, []}
use micro_colorschemes.Token.{Token, tok_eof, tok_semi, tok_comma, tok_lbrace}
use micro_colorschemes.Lexer.{Lexer}
use micro_colorschemes.Lexer.Next.{next_token}
use micro_colorschemes.Ast.{
  CType, func, Node, no_node, translation_unit, func_def, decl, NodeList, nil, cons,
}
use micro_colorschemes.Ast.Types.{node_type, base_of, params_of}
use micro_colorschemes.Parser.State.{
  Parser, Outcome, Parse, ◌>>=◌, pure, current, out_of_fuel, parse_advance, parse_check,
  parse_match, if_check, if_state, parse_expect,
}
use micro_colorschemes.Parser.Level.{Level, bottom}
use micro_colorschemes.Parser.Expr.{
  parse_expression, parse_assignment, parse_conditional, parse_binary, parse_unary, comma_loop,
  operator_loop, postfix_loop, argument_loop,
}
use micro_colorschemes.Parser.Types.{
  specifier_loop, parse_decl_specifiers, star_loop, array_loop, param_loop, parse_declarator,
}
use micro_colorschemes.Parser.Stmt.{parse_statement, parse_compound, block_loop, variable_loop}

-- A node into a list, unless it is NULL.
abbrev pub cons_node : Node → NodeList → NodeList
cons_node no_node ns = ns
cons_node n ns = cons n ns

-- The loop over the declarators behind the first, each behind a comma.
unfoldable pub declarator_loop : Level → CType → Parse NodeList
declarator_loop r base =
    parse_match tok_comma
      (parse_declarator r base >>= λ d. r.declarators base >>= λ ds. pure (cons_node d ds))
      (pure nil)

abbrev pub is_func_type : CType → Bool
is_func_type (func _ _ _ _) = true
is_func_type _ = false

unfoldable pub function_definition : Level → Token → Node → Parse Node
function_definition r t name = parse_compound r >>= λ body.
    pure (func_def t name (params_of (node_type name)) body (base_of (node_type name)))

unfoldable pub declaration : Level → Token → CType → Node → Parse Node
declaration r t base name = declarator_loop r base >>= λ ds.
    parse_expect tok_semi >>= λ s. pure (decl t base (cons name ds))

-- Behind the first declarator of `parse_external_decl`.
unfoldable pub external_rest : Level → Token → CType → Node → Parse Node
external_rest r t base no_node = pure no_node
external_rest r t base name =
    if_state (λ P. parse_check tok_lbrace P && is_func_type (node_type name))
      (function_definition r t name) (declaration r t base name)

-- Behind the specifiers.
unfoldable pub external_tail : Level → CType → Parse Node
external_tail r base =
    if_check tok_semi (parse_advance >>= λ s. pure no_node)
      (current >>= λ t. parse_declarator r base >>= λ name. external_rest r t base name)

unfoldable pub parse_external_decl : Level → Parse Node
parse_external_decl r = parse_decl_specifiers r >>= external_tail r

-- The functions with `n` calls or rounds inside one another.
unfoldable pub level : ℕ → Level
level zero = bottom
level (suc n) =
    let r = level n in
    record {
      expression = parse_expression r;
      assignment = parse_assignment r;
      conditional = parse_conditional r;
      binary = parse_binary r;
      unary = parse_unary r;
      statement = parse_statement r;
      commas = comma_loop r;
      operators = operator_loop r;
      postfixes = postfix_loop r;
      arguments = argument_loop r;
      specifiers = specifier_loop r;
      stars = star_loop r;
      arrays = array_loop r;
      params = param_loop r;
      declarators = declarator_loop r;
      block = block_loop r;
      variables = variable_loop r;
    }

-- `n` rounds of the loop of `parse_translation_unit`.
unfoldable pub unit_loop : Level → ℕ → Parse NodeList
unit_loop r zero = out_of_fuel
unit_loop r (suc n) =
    if_check tok_eof (pure nil)
      (parse_external_decl r >>= λ d. unit_loop r n >>= λ ds. pure (cons_node d ds))

unfoldable pub parse_translation_unit : Level → ℕ → Parse Node
parse_translation_unit r n = current >>= λ t. unit_loop r n >>= λ ds. pure (translation_unit t ds)

-- The parser in front of the first token.
unfoldable pub parser_start : Lexer → (Node → ℕ) → Parser
parser_start L union_value =
    let first = next_token L in
    let second = next_token first.1 in
    record {
      lex = second.1;
      cur = first.0;
      peek = second.0;
      typedefs = [];
      next_id = 0;
      union_value = union_value;
    }

unfoldable pub parse_file : ℕ → ℕ → Lexer → (Node → ℕ) → Outcome Node
parse_file n rounds L union_value =
    parse_translation_unit (level n) rounds (parser_start L union_value)
