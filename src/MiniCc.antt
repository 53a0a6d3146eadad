-- ===== src/MiniCc.antt =====
-- The compiler of mini-cc/src: its syntax trees (ast.h, ast.c, sema.c), their making from those of
-- libclang (clang_bridge.c), the calls of Cranelift (codegen.c) and main.c.
pub mod Ast
pub mod Print
pub mod Verify
pub mod Clang
pub mod Bridge
pub mod Codegen
pub mod Main
pub mod Own
