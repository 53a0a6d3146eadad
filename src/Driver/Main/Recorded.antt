-- ===== src/Driver/Main/Recorded.antt =====
-- The tools and the linker of qbebasedcompiler/src/driver.c on a machine that notes the commands.
use micro_colorschemes.Prelude.{
  ℕ, ◌≡◌, refl, ap, ◌∙◌, sym, subst, Bool, true, false, List, [], ◌∷◌, ◌++◌, map, Bytes, codes,
  Option, none, some, ◌==◌, if◌then◌else◌, bytes_eq, Bool-cases, Option-cases, inl, inr,
}
use micro_colorschemes.Driver.{driver_derive_name}
use micro_colorschemes.Driver.System.{
  f_ok, x_ok, Ended, no_fork, exited, killed, Message, Driver, Ran, returned, D, ◌>>=◌, pure, Str,
  text, in_tool_buf, load, then_run,
}
use micro_colorschemes.Driver.Options.{Options}
use micro_colorschemes.Driver.Tools.{
  driver_tool_path, driver_bin_file, tool_or, status_of, driver_run,
}
use micro_colorschemes.Driver.Front.{Unset}
use micro_colorschemes.Driver.Link.{
  driver_link, run_ld, driver_copy_runtime, runtime_path, copy_from, copy_to, linked,
}
use micro_colorschemes.Driver.Main.{rename_output, step_done, link_step}
use micro_colorschemes.Driver.Main.Plan.{
  Machine, recorder, code_of, run_all, path_in, tool_in, exe_name, ld_command,
}

abbrev pub Log : Type 0
Log = List (List Bytes)

-- A run that returns, with the code and the commands so far.
pub data EndsWith (r : Ran Log ℕ) (result : ℕ × Log) : Type 0 where
  ends_with : (d : Driver Log) → r ≡ returned result.0 d → d.world ≡ result.1 → EndsWith r result

map_text : (d : Driver Log) (xs : List Bytes) → map (load d) (map text xs) ≡ xs
map_text d [] = refl
map_text d (x ∷ xs) = ap (λ ys. x ∷ ys) (map_text d xs)

load_tool :
    (d : Driver Log) (b : Bool) (other : Bytes)
    → load d (if b then in_tool_buf else text other) ≡ (if b then d.tool_buf else other)
load_tool d true other = refl
load_tool d false other = refl

pub EndsWith-path : {r s : Ran Log ℕ} {x : ℕ × Log} → r ≡ s → EndsWith s x → EndsWith r x
EndsWith-path {x} e h = subst (λ r. EndsWith r x) (sym e) h

abbrev tail : List Bytes → List Bytes
tail [] = []
tail (x ∷ xs) = xs

module _ (m : Machine) where
  status-recorder :
      (e : Ended) (d : Driver Log) → status_of (recorder m) e d ≡ returned (code_of e) d
  status-recorder no_fork d = refl
  status-recorder (exited n) d = refl
  status-recorder killed d = refl

  abbrev noted : List Bytes → Driver Log → Driver Log
  noted argv d = record d { world = d.world ++ argv ∷ [] }

  driver_run-recorder :
      (argv : List Str) (v : Bool) (d : Driver Log)
      → driver_run (recorder m) argv v d
        ≡ returned (code_of (m.ends d.world (map (load d) argv))) (noted (map (load d) argv) d)
  unfolding driver_run
  driver_run-recorder argv true d = status-recorder _ _
  driver_run-recorder argv false d = status-recorder _ _

  pub tool_run :
      {A : Type 0} (name other : Bytes) (rest : List Bytes) (v : Bool) (k : ℕ → D Log A)
      (d : Driver Log)
      → (tool_or (recorder m) name other >>= λ p.
            driver_run (recorder m) (p ∷ map text rest) v >>= k)
          d
        ≡ k (code_of (m.ends d.world (tool_in m d.driver_bin_dir name other ∷ rest))) (
            noted
              (tool_in m d.driver_bin_dir name other ∷ rest)
              (record d { tool_buf = path_in d.driver_bin_dir name }))
  unfolding tool_or driver_tool_path
  tool_run name other rest v k d =
      let found = m.has (path_in d.driver_bin_dir name) x_ok in
      let e : Driver Log = record d { tool_buf = path_in d.driver_bin_dir name } in
      let p : Str = if found then in_tool_buf else text other in
      ap (λ r. then_run r k) (driver_run-recorder (p ∷ map text rest) v e)
      ∙ ap (λ argv. k (code_of (m.ends d.world argv)) (noted argv e))
          (ap (λ x. x ∷ map (load e) (map text rest)) (load_tool e found other)
            ∙ ap (λ xs. tool_in m d.driver_bin_dir name other ∷ xs) (map_text e rest))

  copy_to-world : (dst s : Bytes) (d : Driver Log) → (copy_to (recorder m) dst s d).world ≡ d.world
  copy_to-world dst s d = elim (Bool-cases (m.can_write dst d.world)) [
    | inl w ↦ rw (w, copy_to) refl
    | inr w ↦ rw (w, copy_to) refl
  ]

  copied : (src dst : Bytes) (d : Driver Log) → (copy_from (recorder m) src dst d).world ≡ d.world
  copied src dst d = elim (Option-cases (m.holds src d.world)) [
    | inl e ↦ rw e refl
    | inr (s, e) ↦ rw e (copy_to-world dst s d)
  ]

  -- The commands are as they were behind `driver_copy_runtime`.
  copy_runtime-recorder :
      (exe : Bytes) (d : Driver Log)
      → EndsWith ((driver_copy_runtime (recorder m) exe >>= λ _. pure 0) d) (0, d.world)
  unfolding driver_copy_runtime driver_bin_file
  copy_runtime-recorder exe d = elim (Bool-cases (m.has (runtime_path exe) f_ok)) [
    | inl e ↦ rw e (ends_with _ refl refl)
    | inr e ↦ rw e (
        ends_with _ refl
          (copied (path_in d.driver_bin_dir (codes "msys-2.0.dll")) (runtime_path exe) _))
  ]

  -- A code that is not 0 ends the steps.
  after_code :
      (u : Unset) (prog : Bytes) (msg : Message) (code : ℕ) (k : D Log ℕ) (cs : Log)
      (d : Driver Log)
      → EndsWith (k d) (run_all m cs d.world)
      → EndsWith
          (step_done (recorder m) u prog msg code k d)
          (if code == 0 then run_all m cs d.world else (1, d.world))
  after_code u prog msg code k cs d h = elim (Bool-cases (code == 0)) [
    | inl e ↦ rw e h
    | inr e ↦ rw e (ends_with _ refl refl)
  ]

  pub rename-recorder :
      (u : Unset) (prog path : Bytes) (o : Option Bytes) (d : Driver Log)
      → EndsWith (rename_output (recorder m) u prog path o d) (0, d.world)
  rename-recorder u prog path none d = ends_with _ refl refl
  rename-recorder u prog path (some output) d = elim (Bool-cases (bytes_eq output path)) [
    | inl e ↦ rw e (ends_with _ refl refl)
    | inr e ↦ rw e (ends_with _ refl refl)
  ]

  -- Steps 4 and 5, where `ld.exe` is found.
  after_link :
      (code : ℕ) (exe : Bytes) (d : Driver Log)
      → EndsWith
          ((linked (recorder m) code >>= λ rc.
              if rc == 0 then (driver_copy_runtime (recorder m) exe >>= λ _. pure 0) else pure 1)
            d)
          (if code == 0 then (0, d.world) else (1, d.world))
  after_link code exe d = elim (Bool-cases (code == 0)) [
    | inl e ↦ rw e (copy_runtime-recorder exe d)
    | inr e ↦ rw (e, e) (ends_with _ refl refl)
  ]

  run_ld-recorder :
      (o : Options) (input : Bytes) (d : Driver Log)
      → d.tool_buf ≡ path_in d.driver_bin_dir (codes "ld.exe")
      → run_ld
          (recorder m)
          in_tool_buf
          (driver_derive_name input (codes ".o"))
          (exe_name m d.driver_bin_dir o input)
          o.verbose
          d
        ≡ linked (recorder m) (code_of (m.ends d.world (ld_command m d.driver_bin_dir o input))) (
            noted
              (ld_command m d.driver_bin_dir o input)
              (record d { bin_buf = path_in d.driver_bin_dir (codes "crtn.o") }))
  unfolding run_ld driver_bin_file
  run_ld-recorder o input d h =
      let rest = tail (ld_command m d.driver_bin_dir o input) in
      let e : Driver Log = record d { bin_buf = path_in d.driver_bin_dir (codes "crtn.o") } in
      ap (λ r. then_run r (linked (recorder m))) (driver_run-recorder _ o.verbose e)
      ∙ ap (λ p. linked (recorder m) (code_of (m.ends d.world (p ∷ rest))) (noted (p ∷ rest) e)) h

  abbrev link_end : Bytes → ℕ → D Log ℕ
  link_end exe rc =
      if rc == 0 then (driver_copy_runtime (recorder m) exe >>= λ _. pure 0) else pure 1

  pub link_step-EndsWith :
      (u : Unset) (prog : Bytes) (o : Options) (input : Bytes) (d : Driver Log)
      → m.has (path_in d.driver_bin_dir (codes "ld.exe")) x_ok ≡ true
      → EndsWith
          (link_step (recorder m) u prog o (driver_derive_name input (codes ".o")) d)
          (run_all m (ld_command m d.driver_bin_dir o input ∷ []) d.world)
  unfolding link_step driver_link driver_tool_path
  link_step-EndsWith u prog o input d h =
      let exe = exe_name m d.driver_bin_dir o input in
      let argv = ld_command m d.driver_bin_dir o input in
      let found : Driver Log = record d { tool_buf = path_in d.driver_bin_dir (codes "ld.exe") } in
      let last : Driver Log =
        noted argv (record found { bin_buf = path_in d.driver_bin_dir (codes "crtn.o") }) in
      rw h (
        EndsWith-path (ap (λ r. then_run r (link_end exe)) (run_ld-recorder o input found refl))
          (after_link (code_of (m.ends d.world argv)) exe last))

  -- The state behind a tool.
  abbrev pub behind_tool : Bytes → Bytes → List Bytes → Driver Log → Driver Log
  behind_tool name other rest d =
      noted (tool_in m d.driver_bin_dir name other ∷ rest)
        (record d { tool_buf = path_in d.driver_bin_dir name })

  pub tool_step :
      (u : Unset) (prog : Bytes) (msg : Message) (name other : Bytes) (rest : List Bytes) (v : Bool)
      (k : D Log ℕ) (cs : Log) (d : Driver Log)
      → EndsWith
          (k (behind_tool name other rest d))
          (run_all m cs (behind_tool name other rest d).world)
      → EndsWith
          ((tool_or (recorder m) name other >>= λ p.
              driver_run (recorder m) (p ∷ map text rest) v >>= λ rc.
              step_done (recorder m) u prog msg rc k)
            d)
          (run_all m ((tool_in m d.driver_bin_dir name other ∷ rest) ∷ cs) d.world)
  tool_step u prog msg name other rest v k cs d h =
      EndsWith-path (tool_run name other rest v (λ rc. step_done (recorder m) u prog msg rc k) d) (
        after_code u prog msg
          (code_of (m.ends d.world (tool_in m d.driver_bin_dir name other ∷ rest))) k cs
          (behind_tool name other rest d) h)
