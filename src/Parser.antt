-- ===== src/Parser.antt =====
-- The parser of qbebasedcompiler/src/parser.c.
pub mod State
pub mod Tables
pub mod Level
pub mod Expr
pub mod Types
pub mod Stmt
pub mod Unit
pub mod Fuel
pub mod Grammar
