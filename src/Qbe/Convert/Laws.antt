-- ===== src/Qbe/Convert/Laws.antt =====
-- The conversions of qbebasedcompiler/src/qbe.c against the types of QBE's instructions.
use micro_colorschemes.Prelude.{◌≡◌, Bool, true, false, not, ◌&&◌, ◌||◌, arith}
use micro_colorschemes.Ast.{TypeKind, ty_kind_long, ty_kind_float, ty_kind_double}
use micro_colorschemes.Qbe.Types.{QbeType, type_w, type_l, type_s, type_d, qbe_type}
use micro_colorschemes.Qbe.Convert.{
  ConvertOp, copy, extuw, extsw, stosi, dtosi, exts, truncd, qbe_convert, is_floating_ty, widens,
}

-- Can a value of the second class stand where the first is wanted? A long serves as a word.
abbrev pub serves : QbeType → QbeType → Bool
serves type_w type_w = true
serves type_w type_l = true
serves type_l type_l = true
serves type_s type_s = true
serves type_d type_d = true
serves _ _ = false

abbrev is_integer_class : QbeType → Bool
is_integer_class type_w = true
is_integer_class type_l = true
is_integer_class _ = false

-- The types of the instructions, by QBE's manual: result class, mnemonic, class of the operand.
abbrev pub is_typed : QbeType → ConvertOp → QbeType → Bool
is_typed r copy a = serves r a
is_typed type_l extuw a = serves type_w a
is_typed type_l extsw a = serves type_w a
is_typed r stosi type_s = is_integer_class r
is_typed r dtosi type_d = is_integer_class r
is_typed type_d exts type_s = true
is_typed type_s truncd type_d = true
is_typed _ _ _ = false

-- The kinds of numbers but enum.
abbrev pub is_number : TypeKind → Bool
is_number ty_kind_long = true
is_number ty_kind_float = true
is_number ty_kind_double = true
is_number k = widens k

abbrev is_long : TypeKind → Bool
is_long ty_kind_long = true
is_long _ = false

abbrev is_double : TypeKind → Bool
is_double ty_kind_double = true
is_double _ = false

-- Which conversions between numbers are right: those between integers, those between floating types,
-- and from a double to an integer that is no long.
abbrev pub is_sound : TypeKind → TypeKind → Bool
is_sound to from =
    not (is_floating_ty to) && not (is_floating_ty from)
    || is_floating_ty to && is_floating_ty from
    || not (is_floating_ty to) && not (is_long to) && is_double from

-- The class of the target, as the result of the instruction.
abbrev pub gives_class : TypeKind → TypeKind → Bool → Bool
gives_class to from unsigned =
    let r = qbe_convert to from unsigned in
    serves (qbe_type to) r.0 && is_typed r.0 r.1 (qbe_type from)

-- Between kinds of numbers, enum left out, the instruction is typed by QBE's rules and gives the
-- class of the target exactly for the conversions between integers, between floating types, and from
-- double to an integer that is no long.
pub qbe_convert-is_sound :
    (to from : TypeKind) (unsigned : Bool)
    → is_number to ≡ true
    → is_number from ≡ true
    → gives_class to from unsigned ≡ is_sound to from
unfolding qbe_convert
qbe_convert-is_sound _ _ u h k = ground arith
