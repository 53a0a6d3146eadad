-- ===== src/Tests/GrammarExamples.antt =====
-- The theorem on the grammar of expressions at the text `a-b*c;`.
use micro_colorschemes.Prelude.{ℕ, suc, zero, ◌≡◌, refl, [], ◌∷◌, codes, arith}
use micro_colorschemes.Token.{Token, tok_ident, tok_minus, tok_star}
use micro_colorschemes.Token.Keywords.{lookup_keyword}
use micro_colorschemes.Token.Kinds.{kind_eq}
use micro_colorschemes.Lexer.{lexer_init}
use micro_colorschemes.Lexer.Trivia.{skip_trivia}
use micro_colorschemes.Lexer.Punct.{punct}
use micro_colorschemes.Lexer.Next.{next_token, scan_token}
use micro_colorschemes.Ast.{Node, no_type, binary}
use micro_colorschemes.Parser.State.{Parser, done, advanced}
use micro_colorschemes.Parser.Tables.{parse_precedence}
use micro_colorschemes.Parser.Expr.{ident_node, parse_expression}
use micro_colorschemes.Parser.Unit.{level, parser_start}
use micro_colorschemes.Parser.Grammar.{
  multiply, subtract, name, primary, postfixed, Unary, Binary, operand, above, operation, tested,
  value, single,
}
use micro_colorschemes.Parser.Grammar.Accepts.{parse_expression-derived}
use micro_colorschemes.Tests.ParserExamples.{parser_of}

-- The state behind `n` tokens, and its token.
abbrev behind : ℕ → Parser
behind zero = parser_of (codes "a-b*c;")
behind (suc n) = advanced (behind n)

abbrev token : ℕ → Token
token n = (behind n).cur

name_of : (t : Token) → t.kind ≡ tok_ident → Unary (t ∷ []) (ident_node t)
name_of t h = postfixed (primary (name h))

abbrev product : Node
product = binary (token 3) no_type (ident_node (token 2)) (ident_node (token 4)) tok_star

product-Binary : Binary 10 (token 2 ∷ token 3 ∷ token 4 ∷ []) product
unfolding parser_start lexer_init next_token skip_trivia scan_token punct advanced lookup_keyword
    parse_precedence
product-Binary =
    operation {p = 10} (token 3) (token 2 ∷ []) (token 4 ∷ [])
      (above (operand (name_of (token 2) refl))) multiply (operand (name_of (token 4) refl))

abbrev difference : Node
difference = binary (token 1) no_type (ident_node (token 0)) product tok_minus

difference-Binary : Binary 9 (token 0 ∷ token 1 ∷ token 2 ∷ token 3 ∷ token 4 ∷ []) difference
unfolding parser_start lexer_init next_token skip_trivia scan_token punct advanced lookup_keyword
    parse_precedence
difference-Binary =
    operation {p = 9} (token 1) (token 0 ∷ []) (token 2 ∷ token 3 ∷ token 4 ∷ [])
      (above (above (operand (name_of (token 0) refl)))) subtract product-Binary

parse_expression-derived_example :
    parse_expression (level 5) (behind 0) ≡ done difference (behind 5)
unfolding parser_start lexer_init next_token skip_trivia scan_token punct advanced lookup_keyword
    parse_precedence kind_eq
parse_expression-derived_example =
    parse_expression-derived 5 (behind 0) (behind 5)
      (single (
        value (
          tested
            (above (above (above (above (above (above (above (above difference-Binary)))))))))))
      (omega arith) (refl, (refl, (refl, (refl, (refl, refl))))) refl
