-- ===== src/Driver/Options.antt =====
-- The loop over the arguments in `driver_main` of qbebasedcompiler/src/driver.c.
pub mod Laws
use micro_colorschemes.Prelude.{
  ℕ, ◌+◌, Bool, true, false, ◌&&◌, ◌||◌, List, [], ◌∷◌, ◌++◌, Bytes, codes, Option, none, some, ltb,
  ◌==◌, bytes_eq, if◌then◌else◌, length, get_or,
}
use micro_colorschemes.Driver.System.{Message, usage, unknown_option, multiple_inputs}

-- The variables that the loop sets. `nextra` is the length of `extra`.
pub record Options : Type 0 where
  pub input : Option Bytes
  pub output : Option Bytes
  pub emit_qbe_only : Bool
  pub emit_asm_only : Bool
  pub emit_obj_only : Bool
  pub emit_pp_only : Bool
  pub verbose : Bool
  pub extra : List Bytes

abbrev pub no_options : Options
no_options = record {
  input = none;
  output = none;
  emit_qbe_only = false;
  emit_asm_only = false;
  emit_obj_only = false;
  emit_pp_only = false;
  verbose = false;
  extra = [];
}

-- What a round of the loop does: it goes on behind the next argument or in front of it, or it
-- returns from `driver_main`, with a message.
pub data Round : Type 0 where
  skip_next : Options → Round
  goes_on : Options → Round
  returns : ℕ → List Message → Round

-- The letters of an option with its value in the same argument.
abbrev pub joined : Bytes → ℕ → Bool
joined a c = get_or a 0 0 == b'-' && (get_or a 1 0 == c && ltb 2 (length a))

-- Two more of `extra`, if there is room.
abbrev pub push_two : Options → Bytes → Bytes → Round
push_two o a b =
    if ltb (length o.extra + 2) 256
    then skip_next (record o { extra = o.extra ++ a ∷ b ∷ [] })
    else goes_on o

abbrev pub push_one : Options → Bytes → Round
push_one o a =
    if ltb (length o.extra) 256 then goes_on (record o { extra = o.extra ++ a ∷ [] }) else goes_on o

abbrev pub take_input : Bytes → Options → Bytes → Round
take_input prog o a = elim o.input [
  | none ↦ goes_on (record o { input = some a })
  | some _ ↦ returns 1 (multiple_inputs prog ∷ [])
]

-- The tests behind those for the options that take the next argument.
unfoldable pub single_option : Bytes → Options → Bytes → Round
single_option prog o a =
    if joined a b'I' || (joined a b'D' || joined a b'U')
    then push_one o a
    else if bytes_eq a (codes "-h") || bytes_eq a (codes "--help")
    then returns 0 (usage prog ∷ [])
    else if get_or a 0 0 == b'-'
    then returns 1 (unknown_option prog a ∷ usage prog ∷ [])
    else take_input prog o a

-- `-I`, `-D` and `-U` in front of the argument `b`.
unfoldable pub paired_option : Bytes → Options → Bytes → Option Bytes → Round
paired_option prog o a none = single_option prog o a
paired_option prog o a (some b) =
    if bytes_eq a (codes "-I") || (bytes_eq a (codes "-D") || bytes_eq a (codes "-U"))
    then push_two o a b
    else single_option prog o a

unfoldable pub flag_option : Bytes → Options → Bytes → Option Bytes → Round
flag_option prog o a next =
    if bytes_eq a (codes "-S")
    then goes_on (record o { emit_asm_only = true })
    else if bytes_eq a (codes "-c")
    then goes_on (record o { emit_obj_only = true })
    else if bytes_eq a (codes "-emit-qbe")
    then goes_on (record o { emit_qbe_only = true })
    else if bytes_eq a (codes "-E")
    then goes_on (record o { emit_pp_only = true })
    else if bytes_eq a (codes "-v")
    then goes_on (record o { verbose = true })
    else paired_option prog o a next

-- A round at the argument `a`; `next` is the argument behind it.
unfoldable pub option_at : Bytes → Options → Bytes → Option Bytes → Round
option_at prog o a none = flag_option prog o a none
option_at prog o a (some b) =
    if bytes_eq a (codes "-o")
    then skip_next (record o { output = some b })
    else flag_option prog o a (some b)

pub data Parsed : Type 0 where
  parsed : Options → Parsed
  stopped : ℕ → List Message → Parsed

unfoldable pub read_options : Bytes → Options → List Bytes → Parsed
read_options prog o [] = parsed o
read_options prog o (a ∷ []) = elim (option_at prog o a none) [
  | skip_next p ↦ parsed p
  | goes_on p ↦ parsed p
  | returns n m ↦ stopped n m
]
read_options prog o (a ∷ b ∷ rest) = elim (option_at prog o a (some b)) [
  | skip_next p ↦ read_options prog p rest
  | goes_on p ↦ read_options prog p (b ∷ rest)
  | returns n m ↦ stopped n m
]
