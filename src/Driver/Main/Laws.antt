-- ===== src/Driver/Main/Laws.antt =====
-- The commands that `driver_main` of qbebasedcompiler/src/driver.c runs.
use micro_colorschemes.Prelude.{
  ℕ, ◌≡◌, refl, ap, Bool, true, false, List, [], ◌∷◌, ◌++◌, Bytes, codes, none, some, ◌==◌,
  if◌then◌else◌, Bool-cases, inl, inr,
}
use micro_colorschemes.Ast.{NodeList}
use micro_colorschemes.Qbe.Program.{Item, qbe_emit, written}
use micro_colorschemes.Driver.{driver_derive_name}
use micro_colorschemes.Driver.System.{
  x_ok, plain, qbe_failed, as_failed, Driver, returned, D, then_run,
}
use micro_colorschemes.Driver.Tools.{driver_find_own_dir, own_dir, snprintf}
use micro_colorschemes.Prelude.{take, ◌∙◌}
use micro_colorschemes.Driver.Options.{Options, no_options, parsed, read_options}
use micro_colorschemes.Driver.Tools.{c_string, driver_read_file, driver_preprocess, preprocessed}
use micro_colorschemes.Driver.Front.{
  Unset, analysed, frontend, driver_compile_qbe, print_qbe, write_program,
}
use micro_colorschemes.Driver.Main.{
  rename_output, link_step, assemble_step, qbe_step, compile_step, source_step, run_options,
  run_parsed, driver_main,
}
use micro_colorschemes.Driver.Main.Plan.{
  Machine, recorder, code_of, run_all, path_in, cpp_command, qbe_command, as_command, ld_command,
  link_plan, assemble_plan, back_plan, plan,
}
use micro_colorschemes.Driver.Main.Recorded.{
  Log, EndsWith, EndsWith-path, tool_run, rename-recorder, link_step-EndsWith, behind_tool,
  tool_step, ends_with,
}

module _ (m : Machine) (u : Unset) (prog : Bytes) (o : Options) (input : Bytes) where
  -- Behind the assembler.
  abbrev behind_as : Bool → D Log ℕ
  behind_as b =
      if b
      then rename_output (recorder m) u prog (driver_derive_name input (codes ".o")) o.output
      else link_step (recorder m) u prog o (driver_derive_name input (codes ".o"))

  behind_as-EndsWith :
      (d : Driver Log)
      → m.has (path_in d.driver_bin_dir (codes "ld.exe")) x_ok ≡ true
      → (b : Bool)
      → EndsWith
          (behind_as b d)
          (run_all m (if b then [] else ld_command m d.driver_bin_dir o input ∷ []) d.world)
  behind_as-EndsWith d h true =
      rename-recorder m u prog (driver_derive_name input (codes ".o")) o.output d
  behind_as-EndsWith d h false = link_step-EndsWith m u prog o input d h

  assemble_step-EndsWith :
      (d : Driver Log)
      → m.has (path_in d.driver_bin_dir (codes "ld.exe")) x_ok ≡ true
      → EndsWith
          (assemble_step (recorder m) u prog o input (driver_derive_name input (codes ".s")) d)
          (run_all m
            (as_command m d.driver_bin_dir o input ∷ link_plan m d.driver_bin_dir o input)
            d.world)
  unfolding assemble_step
  assemble_step-EndsWith d h =
      let made = driver_derive_name input in
      let rest = codes "-o" ∷ made (codes ".o") ∷ made (codes ".s") ∷ [] in
      tool_step m u prog (as_failed prog (made (codes ".s"))) (codes "as.exe") (codes "as") rest
        o.verbose (behind_as o.emit_obj_only) (link_plan m d.driver_bin_dir o input) d
        (behind_as-EndsWith (behind_tool m (codes "as.exe") (codes "as") rest d) h o.emit_obj_only)

  abbrev behind_qbe : Bool → D Log ℕ
  behind_qbe b =
      if b
      then rename_output (recorder m) u prog (driver_derive_name input (codes ".s")) o.output
      else assemble_step (recorder m) u prog o input (driver_derive_name input (codes ".s"))

  behind_qbe-EndsWith :
      (d : Driver Log)
      → m.has (path_in d.driver_bin_dir (codes "ld.exe")) x_ok ≡ true
      → (b : Bool)
      → EndsWith (behind_qbe b d) (
          run_all m
            (if b
              then []
              else as_command m d.driver_bin_dir o input ∷ link_plan m d.driver_bin_dir o input)
            d.world)
  behind_qbe-EndsWith d h true =
      rename-recorder m u prog (driver_derive_name input (codes ".s")) o.output d
  behind_qbe-EndsWith d h false = assemble_step-EndsWith d h

  qbe_step-EndsWith :
      (d : Driver Log)
      → m.has (path_in d.driver_bin_dir (codes "ld.exe")) x_ok ≡ true
      → EndsWith
          (qbe_step (recorder m) u prog o input (driver_derive_name input (codes ".qbe")) d)
          (run_all m
            (qbe_command m d.driver_bin_dir o input ∷ assemble_plan m d.driver_bin_dir o input)
            d.world)
  unfolding qbe_step
  qbe_step-EndsWith d h =
      let made = driver_derive_name input in
      let rest = codes "-o" ∷ made (codes ".s") ∷ made (codes ".qbe") ∷ [] in
      tool_step m u prog (qbe_failed prog (made (codes ".qbe"))) (codes "qbe.exe") (codes "qbe")
        rest o.verbose (behind_qbe o.emit_asm_only) (assemble_plan m d.driver_bin_dir o input) d
        (behind_qbe-EndsWith (behind_tool m (codes "qbe.exe") (codes "qbe") rest d) h
          o.emit_asm_only)

  none_step :
      (d : Driver Log) → EndsWith (source_step (recorder m) u prog o input none d) (1, d.world)
  unfolding source_step
  none_step d = ends_with d refl refl

  compile_step-EndsWith :
      (src : Bytes) (ds : NodeList) (items : List Item) (d : Driver Log)
      → m.has (path_in d.driver_bin_dir (codes "ld.exe")) x_ok ≡ true
      → m.can_write (driver_derive_name input (codes ".qbe")) d.world ≡ true
      → frontend u src input ≡ analysed ds
      → qbe_emit u.label_name ds ≡ written items
      → EndsWith (compile_step (recorder m) u prog o input src d) (
          run_all m
            (qbe_command m d.driver_bin_dir o input ∷ assemble_plan m d.driver_bin_dir o input)
            d.world)
  unfolding compile_step driver_compile_qbe
  compile_step-EndsWith src ds items d h w f q =
      rw (f, q) (rw (w, write_program) (qbe_step-EndsWith d h))

  print_qbe-EndsWith :
      (src : Bytes) (ds : NodeList) (items : List Item) (d : Driver Log)
      → frontend u src input ≡ analysed ds
      → qbe_emit u.label_name ds ≡ written items
      → EndsWith (print_qbe (recorder m) u src input d) (0, d.world)
  unfolding print_qbe
  print_qbe-EndsWith src ds items d f q = rw (f, q) (ends_with _ refl refl)

  -- Behind the preprocessor, where the program is analysed and emitted.
  source_cases :
      (src : Bytes) (ds : NodeList) (items : List Item) (d : Driver Log)
      → m.has (path_in d.driver_bin_dir (codes "ld.exe")) x_ok ≡ true
      → m.can_write (driver_derive_name input (codes ".qbe")) d.world ≡ true
      → frontend u src input ≡ analysed ds
      → qbe_emit u.label_name ds ≡ written items
      → (b c : Bool)
      → EndsWith
          ((if b
              then (λ e. returned 0 (record e { world = (recorder m).put_out (plain src) e.world }))
              else if c
              then print_qbe (recorder m) u src input
              else compile_step (recorder m) u prog o input src)
            d)
          (run_all m
            (if b
              then []
              else if c
              then []
              else qbe_command m d.driver_bin_dir o input
                ∷ assemble_plan m d.driver_bin_dir o input)
            d.world)
  source_cases src ds items d h w f q true c = ends_with d refl refl
  source_cases src ds items d h w f q false true = print_qbe-EndsWith src ds items d f q
  source_cases src ds items d h w f q false false = compile_step-EndsWith src ds items d h w f q

  source_step-EndsWith :
      (src : Bytes) (ds : NodeList) (items : List Item) (d : Driver Log)
      → m.has (path_in d.driver_bin_dir (codes "ld.exe")) x_ok ≡ true
      → m.can_write (driver_derive_name input (codes ".qbe")) d.world ≡ true
      → frontend u (c_string src) input ≡ analysed ds
      → qbe_emit u.label_name ds ≡ written items
      → EndsWith
          (source_step (recorder m) u prog o input (some src) d)
          (run_all m (back_plan m d.driver_bin_dir o input) d.world)
  unfolding source_step
  source_step-EndsWith src ds items d h w f q =
      source_cases (c_string src) ds items d h w f q o.emit_pp_only o.emit_qbe_only

  run_options-plan :
      (src : Bytes) (ds : NodeList) (items : List Item) (d : Driver Log)
      → m.has (path_in d.driver_bin_dir (codes "ld.exe")) x_ok ≡ true
      → m.holds
          (driver_derive_name input (codes ".i"))
          (d.world ++ cpp_command m d.driver_bin_dir o input ∷ [])
        ≡ some src
      → m.can_write
          (driver_derive_name input (codes ".qbe"))
          (d.world ++ cpp_command m d.driver_bin_dir o input ∷ [])
        ≡ true
      → frontend u (c_string src) input ≡ analysed ds
      → qbe_emit u.label_name ds ≡ written items
      → EndsWith
          (run_options (recorder m) u prog o (some input) d)
          (run_all m (plan m d.driver_bin_dir o input) d.world)
  unfolding run_options driver_preprocess driver_read_file
  run_options-plan src ds items d h r w f q =
      let tmp = driver_derive_name input (codes ".i") in
      let rest = codes "-E" ∷ codes "-P" ∷ codes "-o" ∷ tmp ∷ input ∷ o.extra in
      let behind = behind_tool m (codes "cpp.exe") (codes "gcc") rest d in
      let code = code_of (m.ends d.world (cpp_command m d.driver_bin_dir o input)) in
      EndsWith-path
        (ap (λ x. then_run x (source_step (recorder m) u prog o input))
          (tool_run m (codes "cpp.exe") (codes "gcc") rest o.verbose (preprocessed (recorder m) tmp)
            d))
        (elim (Bool-cases (code == 0)) [
          | inl e ↦ rw (e, r) (source_step-EndsWith src ds items behind h w f q)
          | inr e ↦ rw e (none_step behind)
        ])

  -- The directory that `driver_find_own_dir` finds.
  abbrev pub found_dir : Bytes
  found_dir = snprintf 1024 (own_dir (take 1023 m.link))

  -- Where the arguments are read as options with an input, `ld.exe` stands in the driver's directory,
  -- behind the preprocessor its output can be read and the `.qbe` file can be opened for writing, and
  -- the program in the output is analysed and emitted:
  -- `driver_main` runs the commands of the plan in order, up to the first that does not exit with 0,
  -- and no other. It returns 0 if all of them did, else 1. The commands are the preprocessor, then,
  -- without `-E` and `-emit-qbe`, `qbe`, then, without `-S`, the assembler, and, without `-c`, the
  -- linker, which is given `crtn.o` in the places of all five start files.
  pub driver_main-plan :
      (argv : List Bytes) (src : Bytes) (ds : NodeList) (items : List Item) (d : Driver Log)
      → read_options prog no_options argv ≡ parsed o
      → o.input ≡ some input
      → m.has (path_in found_dir (codes "ld.exe")) x_ok ≡ true
      → m.holds
          (driver_derive_name input (codes ".i"))
          (d.world ++ cpp_command m found_dir o input ∷ [])
        ≡ some src
      → m.can_write
          (driver_derive_name input (codes ".qbe"))
          (d.world ++ cpp_command m found_dir o input ∷ [])
        ≡ true
      → frontend u (c_string src) input ≡ analysed ds
      → qbe_emit u.label_name ds ≡ written items
      → EndsWith
          (driver_main (recorder m) u prog argv d)
          (run_all m (plan m found_dir o input) d.world)
  unfolding driver_main driver_find_own_dir
  driver_main-plan argv src ds items d a i h r w f q =
      let found : Driver Log = record d { driver_bin_dir = found_dir } in
      EndsWith-path
        (ap (λ p. run_parsed (recorder m) u prog p found) a
          ∙ ap (λ x. run_options (recorder m) u prog o x found) i)
        (run_options-plan src ds items found h r w f q)
