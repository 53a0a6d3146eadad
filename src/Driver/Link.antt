-- ===== src/Driver/Link.antt =====
-- `driver_link` and `driver_copy_runtime` of qbebasedcompiler/src/driver.c.
use micro_colorschemes.Prelude.{
  ℕ, Bool, true, false, [], ◌∷◌, ◌++◌, Bytes, codes, Option, none, some, ◌==◌, if◌then◌else◌, take,
}
use micro_colorschemes.Driver.{strrchr, later}
use micro_colorschemes.Driver.System.{
  f_ok, x_ok, cannot_find, link_failed, plain, System, Driver, D, ◌>>=◌, returned, Str, text, load,
}
use micro_colorschemes.Driver.Tools.{
  snprintf, driver_tool_path, driver_bin_file, message, driver_run,
}

-- The directory of the executable, if its path has a separator, and the name of the library in it.
abbrev pub dll_in : Bytes → Option ℕ → Bytes
dll_in exe none = codes "msys-2.0.dll"
dll_in exe (some n) = take n exe ++ codes "/msys-2.0.dll"

unfoldable pub runtime_path : Bytes → Bytes
runtime_path exe = snprintf 1200 (dll_in exe (later (strrchr exe b'/') (strrchr exe b'\\')))

module _ {W : Type 0} (os : System W) where
  abbrev pub linked : ℕ → D W ℕ
  linked rc d = if rc == 0 then returned 0 d else returned rc (message os (link_failed rc) d)

  -- The five paths are pointers into one buffer.
  unfoldable pub run_ld : Str → Bytes → Bytes → Bool → D W ℕ
  run_ld ld_bin obj_path exe verbose = driver_bin_file (codes "crt0.o") >>= λ crt0.
      driver_bin_file (codes "crti.o") >>= λ crti.
      driver_bin_file (codes "crtbegin.o") >>= λ crtbegin.
      driver_bin_file (codes "crtend.o") >>= λ crtend. driver_bin_file (codes "crtn.o") >>= λ crtn.
      λ d.
        let libflag = snprintf 1200 (codes "-L" ++ d.driver_bin_dir) in
        (driver_run os
              (ld_bin
                ∷ text (codes "-o")
                ∷ text exe
                ∷ crt0
                ∷ crti
                ∷ crtbegin
                ∷ text obj_path
                ∷ text libflag
                ∷ text (codes "-lmsys-2.0")
                ∷ text (codes "-lmingw32")
                ∷ text (codes "-lmsvcrt")
                ∷ text (codes "-lgcc")
                ∷ text (codes "-ladvapi32")
                ∷ text (codes "-lshell32")
                ∷ text (codes "-luser32")
                ∷ text (codes "-lkernel32")
                ∷ crtend
                ∷ crtn
                ∷ [])
              verbose
            >>= linked)
          d

  unfoldable pub driver_link : Bytes → Bytes → Bool → D W ℕ
  driver_link obj_path exe verbose = driver_tool_path (codes "ld.exe") >>= λ ld_bin. λ d.
      if os.access (load d ld_bin) x_ok d.world
      then run_ld ld_bin obj_path exe verbose d
      else returned 1 (message os (cannot_find (load d ld_bin)) d)

  -- The pieces of 65536 bytes that the loop copies are the file.
  abbrev pub copy_to : Bytes → Bytes → Driver W → Driver W
  copy_to dst s d = elim (os.write dst (plain s) d.world) [
    | some next ↦ record d { world = next }
    | none ↦ d
  ]

  abbrev pub copy_from : Bytes → Bytes → Driver W → Driver W
  copy_from src dst d = elim (os.read src d.world) [ some s ↦ copy_to dst s d | none ↦ d ]

  -- The result, which the source has not, is that the library is there already.
  unfoldable pub driver_copy_runtime : Bytes → D W Bool
  driver_copy_runtime exe d =
      let dst = runtime_path exe in
      if os.access dst f_ok d.world
      then returned true d
      else (driver_bin_file (codes "msys-2.0.dll") >>= λ p.
            λ e. returned false (copy_from (load e p) dst e))
          d
