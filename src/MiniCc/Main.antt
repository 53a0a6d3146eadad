-- ===== src/MiniCc/Main.antt =====
-- mini-cc/src/main.c: the options, and the bridge, the check and the output one behind the other.
pub mod Laws
use micro_colorschemes.Prelude.{
  ℕ, Bool, true, false, List, [], ◌∷◌, Bytes, codes, Option, none, some, ◌==◌, bytes_eq, get_or,
  if◌then◌else◌,
}
use micro_colorschemes.MiniCc.Ast.{Program}
use micro_colorschemes.MiniCc.Print.{Line, program_print}
use micro_colorschemes.MiniCc.Verify.{sema_check}
use micro_colorschemes.MiniCc.Clang.{Clang}
use micro_colorschemes.MiniCc.Bridge.{clang_bridge_parse}
use micro_colorschemes.MiniCc.Codegen.{Cranelift, Gen, generated, exit_1, null_read, codegen_emit}

-- The variables that the loop over the arguments sets. A later source replaces an earlier one.
pub record Options : Type 0 where
  pub src : Option Bytes
  pub print_ast : Bool

-- A round of the loop: the options, or none behind the usage message.
unfoldable pub option_at : Options → Bytes → Option Options
option_at o a =
    if bytes_eq a (codes "--ast")
    then some (record o { print_ast = true })
    else if bytes_eq a (codes "--emit-obj")
    then some o
    else if get_or a 0 0 == b'-'
    then none
    else some (record o { src = some a })

unfoldable pub read_options : Options → List Bytes → Option Options
read_options o [] = some o
read_options o (a ∷ rest) = elim (option_at o a) [ some p ↦ read_options p rest | none ↦ none ]

-- The code that `main` returns, with what is printed to stdout, or a read through a null pointer.
pub data Ran : Type 0 where
  returned : ℕ → List Line → Ran
  crashed : Ran

-- `exit(1)` ends the process as a return of 1 does.
abbrev pub generated_code : Gen ℕ → Ran
generated_code (generated rc) = returned rc []
generated_code exit_1 = returned 1 []
generated_code null_read = crashed

-- `full_path` is `_fullpath` on Windows, and none elsewhere.
module _ {Cursor : Type 0} (clang : Clang Cursor) (level : ℕ) (cl : Cranelift)
    (full_path : Bytes → Option Bytes) where
  abbrev pub output : Bool → Program → Ran
  output true prog = returned 0 (program_print prog)
  output false prog = generated_code (codegen_emit cl prog (codes "out.o"))

  abbrev pub checked : Bool → Program → Option Bytes → Ran
  checked print_ast prog (some name) = returned 2 []
  checked print_ast prog none = output print_ast prog

  abbrev pub compiled : Bool → Option Program → Ran
  compiled print_ast none = returned 1 []
  compiled print_ast (some prog) = checked print_ast prog (sema_check prog)

  abbrev pub absolute : Bytes → Option Bytes → Bytes
  absolute src none = src
  absolute src (some path) = path

  abbrev pub run_source : Bool → Option Bytes → Ran
  run_source print_ast none = returned 1 []
  run_source print_ast (some src) =
      compiled print_ast (clang_bridge_parse clang level (absolute src (full_path src)))

  abbrev pub run_parsed : Option Options → Ran
  run_parsed none = returned 1 []
  run_parsed (some o) = run_source o.print_ast o.src

  -- `args` is `argv` behind the program's name.
  unfoldable pub main : List Bytes → Ran
  main args = run_parsed (read_options (record { src = none; print_ast = false }) args)
