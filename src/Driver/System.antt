-- ===== src/Driver/System.antt =====
-- What qbebasedcompiler/src/driver.c asks of the operating system, and the state and the runs of its
-- functions. The operating system is a parameter: a record of operations over an unknown world `W`.
use micro_colorschemes.Prelude.{ℕ, Bool, List, Bytes, Option}
use micro_colorschemes.Parser.State.{ParseError}
use micro_colorschemes.Sema.Monad.{SemaError}
use micro_colorschemes.Qbe.Emit.{EmitError}
use micro_colorschemes.Qbe.Program.{Written}

-- The mode of `access`.
pub data Mode : Type 0 where
  f_ok x_ok : Mode

-- How a command ended: `fork` failed, the child exited, or it ended otherwise. A child in which
-- `execvp` fails exits with 127.
pub data Ended : Type 0 where
  no_fork : Ended
  exited : ℕ → Ended
  killed : Ended

-- What is written to stderr.
pub data Message : Type 0 where
  usage : Bytes → Message
  unknown_option : Bytes → Bytes → Message
  multiple_inputs : Bytes → Message
  command : List Bytes → Message
  fork_error : Message
  cannot_open : Bytes → Message
  preprocessor_failed : Message
  cannot_find : Bytes → Message
  link_failed : ℕ → Message
  qbe_failed as_failed : Bytes → Bytes → Message
  parse_error : ParseError → Message
  sema_error : SemaError → Message
  emit_error : EmitError → Message

-- What is written to a file or to stdout: bytes, or a program of the emitter. A run of the emitter
-- that is aborted leaves a part of it.
pub data Content : Type 0 where
  plain : Bytes → Content
  program : Written → Content

-- `access` is true where the call returns 0. `executable` is the target of `/proc/self/exe`, no bytes where `readlink` fails. `read` and
-- `write` are none where `fopen` fails.
pub record System (W : Type 0) : Type 0 where
  pub executable : W → Bytes
  pub access : Bytes → Mode → W → Bool
  pub spawn : List Bytes → W → Ended × W
  pub read : Bytes → W → Option Bytes
  pub write : Bytes → Content → W → Option W
  pub rename : Bytes → Bytes → W → W
  pub put_out : Content → W → W
  pub put_err : Message → W → W

-- `driver_bin_dir`, and the static buffers of `driver_tool_path` and `driver_bin_file`.
pub record Driver (W : Type 0) : Type 0 where
  pub world : W
  pub driver_bin_dir : Bytes
  pub tool_buf : Bytes
  pub bin_buf : Bytes

-- A function returns, or it ends the process, or the parser's fuel is at its end.
pub data Ran (W : Type 0) (A : Type 0) : Type 0 where
  returned : A → Driver W → Ran W A
  exits : ℕ → Driver W → Ran W A
  unfinished : Ran W A

abbrev pub D : Type 0 → Type 0 → Type 0
D W A = Driver W → Ran W A

abbrev pub then_run : {W A B : Type 0} → Ran W A → (A → D W B) → Ran W B
then_run (returned a d) f = f a d
then_run (exits n d) f = exits n d
then_run unfinished f = unfinished

infixl 5 ◌>>=◌ ◌>>◌
abbrev pub ◌>>=◌ : {W A B : Type 0} → D W A → (A → D W B) → D W B
◌>>=◌ m f d = then_run (m d) f

abbrev pub ◌>>◌ : {W A B : Type 0} → D W A → D W B → D W B
m >> k = m >>= λ _. k

abbrev pub pure : {W A : Type 0} → A → D W A
pure a d = returned a d

abbrev pub exit : {W A : Type 0} → ℕ → D W A
exit n d = exits n d

-- A string, or a pointer to one of the static buffers.
pub data Str : Type 0 where
  text : Bytes → Str
  in_tool_buf in_bin_buf : Str

abbrev pub load : {W : Type 0} → Driver W → Str → Bytes
load d (text s) = s
load d in_tool_buf = d.tool_buf
load d in_bin_buf = d.bin_buf
