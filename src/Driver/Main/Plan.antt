-- ===== src/Driver/Main/Plan.antt =====
-- What qbebasedcompiler/src/driver.c runs, as a list of commands, and a machine that notes the commands.
use micro_colorschemes.Prelude.{
  ℕ, Bool, List, [], ◌∷◌, ◌++◌, Bytes, codes, Option, none, some, ◌==◌, if◌then◌else◌,
}
use micro_colorschemes.Driver.{driver_derive_name}
use micro_colorschemes.Driver.System.{Mode, x_ok, Ended, no_fork, exited, killed, System}
use micro_colorschemes.Driver.Options.{Options}
use micro_colorschemes.Driver.Tools.{snprintf}

-- How a command ends, what a file holds and whether it can be opened for writing may depend on the
-- commands that ran before; which tools are there does not.
pub record Machine : Type 0 where
  pub link : Bytes
  pub has : Bytes → Mode → Bool
  pub ends : List (List Bytes) → List Bytes → Ended
  pub holds : Bytes → List (List Bytes) → Option Bytes
  pub can_write : Bytes → List (List Bytes) → Bool

-- The world is the list of the commands so far.
abbrev pub recorder : Machine → System (List (List Bytes))
recorder m = record {
  executable = λ w. m.link;
  access = λ p mode w. m.has p mode;
  spawn = λ argv w. (m.ends w argv, w ++ argv ∷ []);
  read = λ p w. m.holds p w;
  write = λ p c w. if m.can_write p w then some w else none;
  rename = λ from to w. w;
  put_out = λ c w. w;
  put_err = λ e w. w;
}

-- The code that the driver reads off the end of a command.
abbrev pub code_of : Ended → ℕ
code_of no_fork = 1
code_of (exited n) = n
code_of killed = 1

-- The commands in order, up to the first that fails: the code 0 if none does, and the commands run.
abbrev pub run_all : Machine → List (List Bytes) → List (List Bytes) → ℕ × List (List Bytes)
run_all m [] w = (0, w)
run_all m (c ∷ cs) w =
    if code_of (m.ends w c) == 0 then run_all m cs (w ++ c ∷ []) else (1, w ++ c ∷ [])

abbrev pub path_in : Bytes → Bytes → Bytes
path_in dir name = snprintf 1200 (dir ++ codes "/" ++ name)

abbrev pub tool_in : Machine → Bytes → Bytes → Bytes → Bytes
tool_in m dir name other = if m.has (path_in dir name) x_ok then path_in dir name else other

module _ (m : Machine) (dir : Bytes) (o : Options) (input : Bytes) where
  abbrev pub made : Bytes → Bytes
  made ext = driver_derive_name input ext

  abbrev pub cpp_command : List Bytes
  cpp_command =
      tool_in m dir (codes "cpp.exe") (codes "gcc")
      ∷ codes "-E"
      ∷ codes "-P"
      ∷ codes "-o"
      ∷ made (codes ".i")
      ∷ input
      ∷ o.extra

  abbrev pub qbe_command : List Bytes
  qbe_command =
      tool_in m dir (codes "qbe.exe") (codes "qbe")
      ∷ codes "-o"
      ∷ made (codes ".s")
      ∷ made (codes ".qbe")
      ∷ []

  abbrev pub as_command : List Bytes
  as_command =
      tool_in m dir (codes "as.exe") (codes "as")
      ∷ codes "-o"
      ∷ made (codes ".o")
      ∷ made (codes ".s")
      ∷ []

  abbrev pub exe_name : Bytes
  exe_name = elim o.output [ none ↦ codes "a.out" | some output ↦ output ]

  -- In the place of each of the five start files stands `crtn.o`.
  abbrev pub ld_command : List Bytes
  ld_command =
      let crtn = path_in dir (codes "crtn.o") in
      path_in dir (codes "ld.exe")
      ∷ codes "-o"
      ∷ exe_name
      ∷ crtn
      ∷ crtn
      ∷ crtn
      ∷ made (codes ".o")
      ∷ snprintf 1200 (codes "-L" ++ dir)
      ∷ codes "-lmsys-2.0"
      ∷ codes "-lmingw32"
      ∷ codes "-lmsvcrt"
      ∷ codes "-lgcc"
      ∷ codes "-ladvapi32"
      ∷ codes "-lshell32"
      ∷ codes "-luser32"
      ∷ codes "-lkernel32"
      ∷ crtn
      ∷ crtn
      ∷ []

  abbrev pub link_plan : List (List Bytes)
  link_plan = if o.emit_obj_only then [] else ld_command ∷ []

  abbrev pub assemble_plan : List (List Bytes)
  assemble_plan = if o.emit_asm_only then [] else as_command ∷ link_plan

  -- The commands behind the preprocessor.
  abbrev pub back_plan : List (List Bytes)
  back_plan =
      if o.emit_pp_only then [] else if o.emit_qbe_only then [] else qbe_command ∷ assemble_plan

  abbrev pub plan : List (List Bytes)
  plan = cpp_command ∷ back_plan
