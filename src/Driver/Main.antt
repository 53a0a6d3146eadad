-- ===== src/Driver/Main.antt =====
-- `driver_main` of qbebasedcompiler/src/driver.c.
pub mod Plan
pub mod Recorded
pub mod Laws
use micro_colorschemes.Prelude.{
  ℕ, Bool, true, false, List, [], ◌∷◌, Bytes, codes, Option, none, some, ◌==◌, bytes_eq,
  if◌then◌else◌,
}
use micro_colorschemes.Driver.{driver_derive_name}
use micro_colorschemes.Driver.System.{
  Message, usage, qbe_failed, as_failed, plain, System, Driver, Ran, returned, exits, unfinished, D,
  ◌>>=◌, ◌>>◌, pure, text,
}
use micro_colorschemes.Driver.Options.{Options, no_options, Parsed, parsed, stopped, read_options}
use micro_colorschemes.Driver.Tools.{
  driver_find_own_dir, c_string, message, tool_or, driver_run, driver_preprocess,
}
use micro_colorschemes.Driver.Front.{Unset, driver_compile_qbe, print_qbe}
use micro_colorschemes.Driver.Link.{driver_link, driver_copy_runtime}

module _ {W : Type 0} (os : System W) (u : Unset) (prog : Bytes) where
  -- `output`, where it is set and another name.
  abbrev pub rename_output : Bytes → Option Bytes → D W ℕ
  rename_output path none d = returned 0 d
  rename_output path (some output) d =
      if bytes_eq output path
      then returned 0 d
      else returned 0 (record d { world = os.rename path output d.world })

  -- A message and 1, unless the step before returned 0.
  abbrev pub step_done : Message → ℕ → D W ℕ → D W ℕ
  step_done m rc k = if rc == 0 then k else (λ d. returned 1 (message os m d))

  abbrev pub exe_of : Options → Bytes
  exe_of o = elim o.output [ none ↦ codes "a.out" | some output ↦ output ]

  -- Steps 4 and 5.
  unfoldable pub link_step : Options → Bytes → D W ℕ
  link_step o obj_path = driver_link os obj_path (exe_of o) o.verbose >>= λ rc.
      if rc == 0 then (driver_copy_runtime os (exe_of o) >>= λ _. pure 0) else pure 1

  -- Step 3.
  unfoldable pub assemble_step : Options → Bytes → Bytes → D W ℕ
  assemble_step o input asm_path =
      let obj_path = driver_derive_name input (codes ".o") in
      tool_or os (codes "as.exe") (codes "as") >>= λ as_bin.
      driver_run os (as_bin ∷ text (codes "-o") ∷ text obj_path ∷ text asm_path ∷ []) o.verbose
      >>= λ rc.
          step_done (as_failed prog asm_path) rc
            (if o.emit_obj_only then rename_output obj_path o.output else link_step o obj_path)

  -- Step 2.
  unfoldable pub qbe_step : Options → Bytes → Bytes → D W ℕ
  qbe_step o input qbe_path =
      let asm_path = driver_derive_name input (codes ".s") in
      tool_or os (codes "qbe.exe") (codes "qbe") >>= λ qbe_bin.
      driver_run os (qbe_bin ∷ text (codes "-o") ∷ text asm_path ∷ text qbe_path ∷ []) o.verbose
      >>= λ rc. step_done (qbe_failed prog qbe_path) rc (
          if o.emit_asm_only
          then rename_output asm_path o.output
          else assemble_step o input asm_path)

  -- Step 1.
  unfoldable pub compile_step : Options → Bytes → Bytes → D W ℕ
  compile_step o input src =
      let qbe_path = driver_derive_name input (codes ".qbe") in
      driver_compile_qbe os u src input qbe_path >>= λ rc.
      if rc == 0 then qbe_step o input qbe_path else pure 1

  unfoldable pub source_step : Options → Bytes → Option Bytes → D W ℕ
  source_step o input none = pure 1
  source_step o input (some src) =
      if o.emit_pp_only
      then (λ d. returned 0 (record d { world = os.put_out (plain (c_string src)) d.world }))
      else if o.emit_qbe_only
      then print_qbe os u (c_string src) input
      else compile_step o input (c_string src)

  -- Behind the options.
  unfoldable pub run_options : Options → Option Bytes → D W ℕ
  run_options o none = λ d. returned 1 (message os (usage prog) d)
  run_options o (some input) = driver_preprocess os input o.extra o.verbose >>= source_step o input

  abbrev pub messages : List Message → Driver W → Driver W
  messages [] d = d
  messages (m ∷ ms) d = messages ms (message os m d)

  abbrev pub run_parsed : Parsed → D W ℕ
  run_parsed (parsed o) = run_options o o.input
  run_parsed (stopped n ms) = λ d. returned n (messages ms d)

  -- `argv` behind the program's name.
  unfoldable pub driver_main : List Bytes → D W ℕ
  driver_main argv d = run_parsed (read_options prog no_options argv) (driver_find_own_dir os d)
