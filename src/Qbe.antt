-- ===== src/Qbe.antt =====
-- The emitter of QBE code, qbebasedcompiler/src/qbe.c.
pub mod Types
pub mod Convert
pub mod Strings
pub mod Code
pub mod Emit
pub mod Memory
pub mod Expr
pub mod Switch
pub mod Stmt
pub mod Program
pub mod Defined
pub mod Steady
