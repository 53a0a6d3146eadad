-- ===== src/Parser/Level.antt =====
-- The calls of qbebasedcompiler/src/parser.c that lead back to a function that is running, and the
-- rounds of its loops.
--
-- Each stands behind a token that was passed, so the functions of the parser take the level below,
-- and a level of the number of tokens left is enough (Fuel).
use micro_colorschemes.Prelude.{ℕ, Bool}
use micro_colorschemes.Ast.{CType, Node, NodeList}
use micro_colorschemes.Parser.State.{Parse, out_of_fuel}

-- What `parse_decl_specifiers` saw so far.
pub record Saw : Type 0 where
  pub saw_void : Bool
  pub saw_bool : Bool
  pub saw_char : Bool
  pub saw_short : Bool
  pub saw_long : Bool
  pub saw_longlong : Bool
  pub saw_float : Bool
  pub saw_double : Bool
  pub saw_unsigned : Bool
  pub saw_any : Bool

pub record Level : Type 0 where
  pub expression : Parse Node
  pub assignment : Parse Node
  pub conditional : Parse Node
  pub binary : ℕ → Parse Node
  pub unary : Parse Node
  pub statement : Parse Node
  pub commas : Node → Parse Node
  pub operators : ℕ → Node → Parse Node
  pub postfixes : Node → Parse Node
  pub arguments : Parse NodeList
  pub specifiers : Saw → Parse Saw
  pub stars : CType → Parse CType
  pub arrays : CType → Parse CType
  pub params : Parse (NodeList × Bool)
  pub declarators : CType → Parse NodeList
  pub block : Parse NodeList
  pub variables : CType → Parse NodeList

-- No level is left.
abbrev pub bottom : Level
bottom = record {
  expression = out_of_fuel;
  assignment = out_of_fuel;
  conditional = out_of_fuel;
  binary = λ n. out_of_fuel;
  unary = out_of_fuel;
  statement = out_of_fuel;
  commas = λ n. out_of_fuel;
  operators = λ n l. out_of_fuel;
  postfixes = λ n. out_of_fuel;
  arguments = out_of_fuel;
  specifiers = λ s. out_of_fuel;
  stars = λ t. out_of_fuel;
  arrays = λ t. out_of_fuel;
  params = out_of_fuel;
  declarators = λ t. out_of_fuel;
  block = out_of_fuel;
  variables = λ t. out_of_fuel;
}
