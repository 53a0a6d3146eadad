-- ===== src/Parser/Grammar/Tables.antt =====
-- The tables of the grammar of expressions against those of qbebasedcompiler/src/parser.c.
use micro_colorschemes.Prelude.{ℕ, ◌<◌, ◌≡◌, refl, true, false, arith}
use micro_colorschemes.Token.{
  TokenKind, tok_amp, tok_andand, tok_andeq, tok_arrow, tok_caret, tok_comma, tok_dot, tok_eq,
  tok_eqeq, tok_geq, tok_gt, tok_lbracket, tok_leq, tok_lparen, tok_lt, tok_minus, tok_minuseq,
  tok_minusminus, tok_neq, tok_oreq, tok_oror, tok_percent, tok_percenteq, tok_pipe, tok_plus,
  tok_pluseq, tok_plusplus, tok_question, tok_shl, tok_shleq, tok_shr, tok_shreq, tok_slash,
  tok_slasheq, tok_star, tok_stareq, tok_xoreq,
}
use micro_colorschemes.Token.Kinds.{kind_eq}
use micro_colorschemes.Parser.Tables.{parse_precedence}
use micro_colorschemes.Parser.Grammar.{
  BinaryOperator, goes_on, logical_or, logical_and, bit_or, bit_xor, bit_and, equal, not_equal,
  less, greater, at_most, at_least, shift_left, shift_right, add, subtract, multiply, divide,
  remainder,
}
use micro_colorschemes.Parser.Grammar.Steps.{ends_expression}

-- An operator of a level has it as its precedence.
pub BinaryOperator-level :
    (p : ℕ) (k : TokenKind) → BinaryOperator p k → (parse_precedence k ≡ p) × (0 < p)
unfolding parse_precedence
BinaryOperator-level p k logical_or = (refl, omega arith)
BinaryOperator-level p k logical_and = (refl, omega arith)
BinaryOperator-level p k bit_or = (refl, omega arith)
BinaryOperator-level p k bit_xor = (refl, omega arith)
BinaryOperator-level p k bit_and = (refl, omega arith)
BinaryOperator-level p k equal = (refl, omega arith)
BinaryOperator-level p k not_equal = (refl, omega arith)
BinaryOperator-level p k less = (refl, omega arith)
BinaryOperator-level p k greater = (refl, omega arith)
BinaryOperator-level p k at_most = (refl, omega arith)
BinaryOperator-level p k at_least = (refl, omega arith)
BinaryOperator-level p k shift_left = (refl, omega arith)
BinaryOperator-level p k shift_right = (refl, omega arith)
BinaryOperator-level p k add = (refl, omega arith)
BinaryOperator-level p k subtract = (refl, omega arith)
BinaryOperator-level p k multiply = (refl, omega arith)
BinaryOperator-level p k divide = (refl, omega arith)
BinaryOperator-level p k remainder = (refl, omega arith)

-- What does not go on with an expression follows any of them.
pub goes_on-ends : (k : TokenKind) → goes_on k ≡ false → ends_expression k ≡ true
unfolding parse_precedence kind_eq
goes_on-ends tok_lbracket h = cc
goes_on-ends tok_lparen h = cc
goes_on-ends tok_dot h = cc
goes_on-ends tok_arrow h = cc
goes_on-ends tok_plusplus h = cc
goes_on-ends tok_minusminus h = cc
goes_on-ends tok_oror h = cc
goes_on-ends tok_andand h = cc
goes_on-ends tok_pipe h = cc
goes_on-ends tok_caret h = cc
goes_on-ends tok_amp h = cc
goes_on-ends tok_eqeq h = cc
goes_on-ends tok_neq h = cc
goes_on-ends tok_lt h = cc
goes_on-ends tok_gt h = cc
goes_on-ends tok_leq h = cc
goes_on-ends tok_geq h = cc
goes_on-ends tok_shl h = cc
goes_on-ends tok_shr h = cc
goes_on-ends tok_plus h = cc
goes_on-ends tok_minus h = cc
goes_on-ends tok_star h = cc
goes_on-ends tok_slash h = cc
goes_on-ends tok_percent h = cc
goes_on-ends tok_question h = cc
goes_on-ends tok_eq h = cc
goes_on-ends tok_pluseq h = cc
goes_on-ends tok_minuseq h = cc
goes_on-ends tok_stareq h = cc
goes_on-ends tok_slasheq h = cc
goes_on-ends tok_percenteq h = cc
goes_on-ends tok_shleq h = cc
goes_on-ends tok_shreq h = cc
goes_on-ends tok_andeq h = cc
goes_on-ends tok_xoreq h = cc
goes_on-ends tok_oreq h = cc
goes_on-ends tok_comma h = cc
goes_on-ends _ h = refl
