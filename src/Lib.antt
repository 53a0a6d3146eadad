-- ===== src/Lib.antt =====
-- Verification of micro-colorschemes: the C compiler of qbebasedcompiler/src, which reads C and
-- writes QBE code, and the compiler of mini-cc/src.
--
-- The compiler is one translation unit. `next_token` (Lexer.c) turns bytes into tokens; the parser
-- (parser.c) builds the nodes and types of ast.c in an arena; `sema_program` (sema.c) resolves names,
-- writes types and casts into the nodes; `qbe_emit` (qbe.c) prints QBE code, and the driver (driver.c)
-- runs the preprocessor, qbe, the assembler and the linker. mini-cc makes its own trees from
-- libclang's, checks them, and prints them or hands them to Cranelift.
--
-- - Prelude: names of the libraries, Boolean tests, lists and iterated steps over native numbers.
-- - Token, Lexer: Lexer.c. A pointer into the buffer is a `Ptr`, its offset and the bytes from there
--   on. `Lexer` is the record of the source; `trivia_step` is a round of the loop of `skip_trivia`,
--   `dispatch` and the `lex_*` functions are those of the source. Loops run on fuel: the bytes left
--   and one round more, enough since a round takes a byte.
-- - Literal: `decode_int`, `decode_char` and `decode_str` of parser.c. A `long long` is its bit
--   pattern. Signed overflow is undefined in C: `decode_int` keeps the low 64 bits and flags it.
-- - Parser: parser.c. A function is a state monad over the record `Parser`, with failures for the
--   messages before `exit(1)`. Calls back to a function that is running, and the rounds of loops,
--   are those of the level below (Parser.Level); a level of the tokens left is enough,
--   since each such call stands behind a token that was passed (Parser.Fuel). `parse_match`, `parse_check` and the like take
--   the branches of the `if` they stand in.
-- - Ast: the types and nodes of ast.c and `arena_alloc`. A chain along `next` is a list; types that
--   `new_type` makes are numbered, which stands for their address. A `size_t` wraps at 2^64.
-- - Sema: sema.c. `sema_expr`, `sema_stmt` and `sema_program` return the node with what the source
--   writes into it, in a state monad whose errors stand for a message and `exit(1)`.
-- - Qbe: qbe.c. Its tables, `ends_in_terminator`, `qbe_convert` and the text of the string data;
--   `qbe_expr_val` and `qbe_stmt` (Qbe.Expr, Qbe.Stmt) and the functions that they call (Qbe.Memory,
--   Qbe.Switch) as a state monad over the counter, the stack of loops and the labels, which returns
--   the lines it prints as data (Qbe.Emit, Qbe.Code);
--   `qbe_collect_strings` and `qbe_emit` (Qbe.Program). Code that a node's `case` prints is a
--   function of the code of its operands. The walk over the cases of a `switch` runs on the 128
--   entries of the source's queue.
-- - Driver: driver.c. The operating system is a record of operations over an unknown world
--   (Driver.System); the static buffers of `driver_tool_path` and `driver_bin_file` are part of the
--   state, and a `Str` is a text or a pointer to one of them, read when a command runs.
--   Driver.Options is the loop over the arguments, Driver.Tools, Driver.Front and Driver.Link the
--   steps, Driver.Main `driver_main`, and Driver.Main.Plan the list of commands that it should run, with a
--   machine that notes the commands: how a command ends, what a file holds and whether it can be
--   opened for writing are functions of the commands that ran before.
--   Driver.Front puts the lexer, the parser, the analysis and the emitter one behind the other.
-- - MiniCc: the trees of mini-cc/src/ast.h, the functions of ast.c that append, its dump, and the
--   check of sema.c. MiniCc.Bridge makes the trees from libclang's cursors (clang_bridge.c); its
--   recursion runs on a level, and that of the root's rank is enough (MiniCc.Bridge.Levels).
--   MiniCc.Codegen calls Cranelift (codegen.c). Both libraries are records of operations.
--   MiniCc.Main is `main`. MiniCc.Own is the freeing of a program: its trees keep only the blocks, and
--   the heap counts how often each may still be freed.
-- - Tests: runs on small inputs, and each theorem at one of them.
--
-- Parser.Grammar is a grammar of expressions in the form of the C standard, as relations between
-- tokens and nodes, with its own table of binary operators; Parser.Grammar.Tables compares it with
-- `parse_precedence`, and Parser.Grammar.Accepts runs the parser on its derivations.
--
-- Not modelled: how `fprintf` spells the lines of the code; in mini-cc the messages, the debug
-- output; mini-cc/src/probe.c, a program of its own; the headers of Cranelift; failures of
-- allocation. Counters of lines, columns and symbols are natural numbers; a dereference
-- of NULL is a default that its definition names.
pub mod Prelude
pub mod Token
pub mod Lexer
pub mod Literal
pub mod Ast
pub mod Sema
pub mod Parser
pub mod Qbe
pub mod Driver
pub mod MiniCc
mod Tests
