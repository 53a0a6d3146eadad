-- ===== src/Driver/Tools.antt =====
-- `driver_find_own_dir` to `driver_preprocess` of qbebasedcompiler/src/driver.c, but for
-- `driver_derive_name`.
use micro_colorschemes.Prelude.{
  ℕ, ◌-◌, Bool, List, [], ◌∷◌, ◌++◌, map, Bytes, codes, Option, none, some, ◌==◌, if◌then◌else◌,
  take,
}
use micro_colorschemes.Driver.{strrchr, driver_derive_name, stem_of}
use micro_colorschemes.Driver.System.{
  x_ok, Ended, no_fork, exited, killed, Message, command, fork_error, cannot_open,
  preprocessor_failed, System, Driver, D, ◌>>=◌, returned, Str, text, in_tool_buf, in_bin_buf, load,
}

-- `snprintf` into `size` bytes, of which the last is the 0.
abbrev pub snprintf : ℕ → Bytes → Bytes
snprintf size s = take (size - 1) s

-- The directory of the path `buf`, or the path itself.
abbrev pub own_dir : Bytes → Bytes
own_dir [] = codes "."
own_dir (b ∷ bs) = stem_of (b ∷ bs) (strrchr (b ∷ bs) b'/')

-- `driver_tool_path` writes its buffer and returns a pointer to it; so does `driver_bin_file`.
unfoldable pub driver_tool_path : {W : Type 0} → Bytes → D W Str
driver_tool_path name d =
    returned in_tool_buf
      (record d { tool_buf = snprintf 1200 (d.driver_bin_dir ++ codes "/" ++ name) })

unfoldable pub driver_bin_file : {W : Type 0} → Bytes → D W Str
driver_bin_file name d =
    returned in_bin_buf
      (record d { bin_buf = snprintf 1200 (d.driver_bin_dir ++ codes "/" ++ name) })

-- The bytes in front of the first 0.
unfoldable pub c_string : Bytes → Bytes
c_string [] = []
c_string (b ∷ bs) = if b == 0 then [] else b ∷ c_string bs

module _ {W : Type 0} (os : System W) where
  abbrev pub message : Message → Driver W → Driver W
  message m d = record d { world = os.put_err m d.world }

  -- The buffer of `readlink` holds 1023 bytes in front of the 0.
  unfoldable pub driver_find_own_dir : Driver W → Driver W
  driver_find_own_dir d = record d {
    driver_bin_dir = snprintf 1024 (own_dir (take 1023 (os.executable d.world)));
  }

  -- The tool of the directory, or else the one that the system finds.
  unfoldable pub tool_or : Bytes → Bytes → D W Str
  tool_or name other = driver_tool_path name >>= λ p.
      λ d. returned (if os.access (load d p) x_ok d.world then p else text other) d

  unfoldable pub driver_read_file : Bytes → D W (Option Bytes)
  driver_read_file path d = elim (os.read path d.world) [
    | some s ↦ returned (some s) d
    | none ↦ returned none (message (cannot_open path) d)
  ]

  abbrev pub status_of : Ended → D W ℕ
  status_of no_fork d = returned 1 (message fork_error d)
  status_of (exited n) d = returned n d
  status_of killed d = returned 1 d

  abbrev pub spawned : List Bytes → D W ℕ
  spawned argv d =
      let (ended, w) = os.spawn argv d.world in status_of ended (record d { world = w })

  -- The strings of `argv` are read when it runs.
  unfoldable pub driver_run : List Str → Bool → D W ℕ
  driver_run argv verbose d =
      let strings = map (load d) argv in
      spawned strings (if verbose then message (command strings) d else d)

  -- The output is read whole; the caller takes it up to its first 0.
  abbrev pub preprocessed : Bytes → ℕ → D W (Option Bytes)
  preprocessed tmp rc =
      if rc == 0 then driver_read_file tmp else (λ d. returned none (message preprocessor_failed d))

  unfoldable pub driver_preprocess : Bytes → List Bytes → Bool → D W (Option Bytes)
  driver_preprocess input extra verbose =
      let tmp = driver_derive_name input (codes ".i") in
      tool_or (codes "cpp.exe") (codes "gcc") >>= λ cpp_bin.
      driver_run
        (cpp_bin
          ∷ text (codes "-E")
          ∷ text (codes "-P")
          ∷ text (codes "-o")
          ∷ text tmp
          ∷ text input
          ∷ map text extra)
        verbose
      >>= preprocessed tmp
