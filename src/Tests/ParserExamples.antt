-- ===== src/Tests/ParserExamples.antt =====
-- Runs of the parser, and its theorems at small inputs.
use micro_colorschemes.Prelude.{ℕ, suc, ◌≡◌, refl, ◌⊎◌, true, [], ◌++◌, Bytes, codes, arith}
use micro_colorschemes.Token.{token_text}
use micro_colorschemes.Token.Keywords.{lookup_keyword}
use micro_colorschemes.Lexer.{lexer_init}
use micro_colorschemes.Lexer.Trivia.{skip_trivia}
use micro_colorschemes.Lexer.Punct.{punct}
use micro_colorschemes.Lexer.Next.{next_token, scan_token}
use micro_colorschemes.Lexer.Bounds.{IsValid, lexer_init-IsValid}
use micro_colorschemes.Lexer.Bounds.Next.{next_token-IsTokenOf}
use micro_colorschemes.Ast.{
  no_type, Node, no_node, NodeList, cons, translation_unit, func_def, compound, var_decl,
  return_stmt, ident, binary, assign, unary, conditional,
}
use micro_colorschemes.Parser.State.{
  Parser, Outcome, done, no_fuel, ◌>>=◌, ◌>>◌, on_kind, pure, current, advanced, parse_expect,
  parse_advance, if_check, if_state, has_name, parse_is_typedef_name, parse_match, new_type_id,
}
use micro_colorschemes.Parser.Tables.{
  parse_is_type_keyword, parse_precedence, parse_starts_decl, has_u, has_l, int_literal_type,
}
use micro_colorschemes.Parser.Expr.{
  parse_expression, parse_assignment, parse_conditional, parse_binary, parse_unary, unary_at,
  parse_postfix, parse_primary, primary_at, postfix_loop, postfix_at, operator_loop, operator_at,
  assign_at, comma_loop, argument_loop,
}
use micro_colorschemes.Parser.Types.{
  at_specifier, specifier_loop, parse_decl_specifiers, parse_declarator, specified_type, see,
  star_loop, read_int_value, array_loop, declared_name, void_or_params, function_suffix, param_loop,
}
use micro_colorschemes.Parser.Stmt.{
  parse_statement, parse_compound, variable, variable_loop, parse_var_decl, parenthesized,
  optional_until, word_and_semi, expression_statement, label_or_expression, statement_at,
  block_loop,
}
use micro_colorschemes.Parser.Unit.{
  parse_external_decl, external_tail, level, unit_loop, parser_start, parse_file, declarator_loop,
  function_definition, declaration, external_rest, parse_translation_unit,
}
use micro_colorschemes.Parser.Fuel.{Goes, left}
use micro_colorschemes.Parser.Fuel.Progress.{is_stuck}
use micro_colorschemes.Parser.Fuel.Loop.{
  level-Goes, Reaches, here, round, unit_loop-hangs, GetsStuck, unit_loop-ends,
}

abbrev no_value : Node → ℕ
no_value n = 0

-- The parser in front of a text.
abbrev pub parser_of : Bytes → Parser
parser_of s = parser_start (lexer_init s []) no_value

parser_of-IsValid : (s : Bytes) → IsValid (parser_of s).lex
unfolding parser_start
parser_of-IsValid s =
    (next_token-IsTokenOf _ (next_token-IsTokenOf _ (lexer_init-IsValid s [])).valid).valid

abbrev stuck_text : Bytes
stuck_text = codes ";+"

abbrev stuck_unit : Parser
stuck_unit = parser_of stuck_text

level-Goes_example :
    Goes 1 stuck_unit (parse_expression (level (left stuck_unit)) stuck_unit)
    × Goes 1 stuck_unit (parse_statement (level (left stuck_unit)) stuck_unit)
    × Goes 1 stuck_unit (parse_compound (level (left stuck_unit)) stuck_unit)
    × Goes 0 stuck_unit (parse_declarator (level (left stuck_unit)) no_type stuck_unit)
    × Goes 0 stuck_unit (parse_external_decl (level (left stuck_unit)) stuck_unit)
level-Goes_example =
    level-Goes (left stuck_unit) stuck_unit no_type (parser_of-IsValid stuck_text) (omega arith)

semi_passed : Reaches (level 0) stuck_unit (advanced stuck_unit)
unfolding parser_start lexer_init next_token skip_trivia scan_token punct advanced
    parse_external_decl parse_decl_specifiers specifier_loop if_state ◌>>=◌ external_tail if_check
    parse_advance pure parse_is_typedef_name has_name parse_is_type_keyword specified_type
    at_specifier
semi_passed = round {P = stuck_unit} {Q = advanced stuck_unit} no_node refl refl here

plus_stuck : is_stuck (advanced stuck_unit) ≡ true
unfolding parser_start lexer_init next_token skip_trivia scan_token punct advanced is_stuck
    at_specifier parse_is_typedef_name has_name parse_is_type_keyword
plus_stuck = refl

unit_loop-hangs_example : unit_loop (level 0) 5 stuck_unit ≡ no_fuel
unit_loop-hangs_example =
    unit_loop-hangs (level 0) stuck_unit (advanced stuck_unit) 5 semi_passed plus_stuck

unit_loop-ends_example :
    GetsStuck (level (left stuck_unit)) stuck_unit
    ⊎ Goes 0 stuck_unit (unit_loop (level (left stuck_unit)) (suc (left stuck_unit)) stuck_unit)
unit_loop-ends_example =
    unit_loop-ends (left stuck_unit) (suc (left stuck_unit)) stuck_unit
      (parser_of-IsValid stuck_text) (omega arith) (omega arith)

-- An expression with all its parentheses.
abbrev shown : Node → Bytes
shown (ident t _ _) = token_text t
shown (binary t _ a b _) = codes "(" ++ shown a ++ token_text t ++ shown b ++ codes ")"
shown (assign t _ a b _) = codes "(" ++ shown a ++ token_text t ++ shown b ++ codes ")"
shown (unary t _ a _) = codes "(" ++ token_text t ++ shown a ++ codes ")"
shown (conditional _ _ c a b) =
    codes "(" ++ shown c ++ codes "?" ++ shown a ++ codes ":" ++ shown b ++ codes ")"
shown _ = []

abbrev shown_of : Outcome Node → Bytes
shown_of (done n _) = shown n
shown_of _ = []

precedence_run :
    shown_of (parse_expression (level 9) (parser_of (codes "a=b*c+d==-e?f:g")))
    ≡ codes "(a=((((b*c)+d)==(-e))?f:g))"
unfolding parser_start lexer_init next_token skip_trivia scan_token punct lookup_keyword level
    parse_expression parse_assignment parse_conditional parse_binary parse_unary unary_at
    parse_postfix parse_primary primary_at postfix_loop postfix_at operator_loop operator_at
    assign_at comma_loop ◌>>=◌ ◌>>◌ pure on_kind if_check parse_advance advanced parse_precedence
    parse_expect
precedence_run = refl

-- A program of one function, of the texts of its statements.
abbrev statement_texts : NodeList → Bytes
statement_texts (cons (func_def _ _ _ (compound _ ss) _) _) = statement_texts ss
statement_texts (cons (var_decl _ _ n _ i) ss) =
    shown n ++ codes "=" ++ shown i ++ codes ";" ++ statement_texts ss
statement_texts (cons (return_stmt _ e) ss) = codes "return " ++ shown e ++ codes ";"
statement_texts _ = []

abbrev unit_texts : Outcome Node → Bytes
unit_texts (done (translation_unit _ ds) _) = statement_texts ds
unit_texts _ = []

function_run :
    unit_texts (parse_file 9 9 (lexer_init (codes "int f(int a){int b=a;return b+a;}") []) no_value)
    ≡ codes "b=a;return (b+a);"
unfolding lexer_init next_token skip_trivia scan_token punct lookup_keyword ◌>>=◌ ◌>>◌ pure on_kind
    current advanced parse_advance parse_match if_check if_state parse_expect has_name
    parse_is_typedef_name new_type_id parse_precedence parse_is_type_keyword parse_starts_decl has_u
    has_l int_literal_type primary_at parse_primary postfix_at postfix_loop parse_postfix unary_at
    parse_unary operator_at operator_loop parse_binary parse_conditional assign_at parse_assignment
    comma_loop parse_expression argument_loop see specified_type at_specifier specifier_loop
    parse_decl_specifiers star_loop read_int_value array_loop declared_name void_or_params
    function_suffix parse_declarator param_loop parse_compound variable variable_loop parse_var_decl
    parenthesized optional_until word_and_semi expression_statement label_or_expression statement_at
    parse_statement block_loop declarator_loop function_definition declaration external_rest
    external_tail parse_external_decl level unit_loop parse_translation_unit parser_start parse_file
function_run = refl
