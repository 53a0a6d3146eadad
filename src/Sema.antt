-- ===== src/Sema.antt =====
-- The semantic analysis of qbebasedcompiler/src/sema.c.
pub mod Scopes
pub mod Convert
pub mod Monad
pub mod Expr
pub mod Stmt
