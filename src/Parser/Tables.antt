-- ===== src/Parser/Tables.antt =====
-- The functions of qbebasedcompiler/src/parser.c that only look at a token: `parse_precedence`,
-- `parse_is_type_keyword`, `parse_starts_decl` and `int_literal_type`.
pub mod Laws
use micro_colorschemes.Prelude.{
  ℕ, Bool, true, false, ◌&&◌, ◌||◌, [], ◌∷◌, Bytes, ltb, ◌==◌, ◌^◌, if◌then◌else◌,
}
use micro_colorschemes.Token.{
  TokenKind, tok_oror, tok_andand, tok_pipe, tok_caret, tok_amp, tok_eqeq, tok_neq, tok_lt, tok_gt,
  tok_leq, tok_geq, tok_shl, tok_shr, tok_plus, tok_minus, tok_star, tok_slash, tok_percent,
  tok_void, tok_char, tok_short, tok_int, tok_long, tok_float, tok_double, tok_signed, tok_unsigned,
  tok__bool, tok_const, tok_volatile, tok_restrict, tok_struct, tok_union, tok_enum, tok_typedef,
  tok_static, tok_extern, tok_auto, tok_register, tok_inline, tok_ident,
}
use micro_colorschemes.Ast.{Scalar, ty_int, ty_uint, ty_long, ty_ulong}

unfoldable pub parse_precedence : TokenKind → ℕ
parse_precedence tok_oror = 1
parse_precedence tok_andand = 2
parse_precedence tok_pipe = 3
parse_precedence tok_caret = 4
parse_precedence tok_amp = 5
parse_precedence tok_eqeq = 6
parse_precedence tok_neq = 6
parse_precedence tok_lt = 7
parse_precedence tok_gt = 7
parse_precedence tok_leq = 7
parse_precedence tok_geq = 7
parse_precedence tok_shl = 8
parse_precedence tok_shr = 8
parse_precedence tok_plus = 9
parse_precedence tok_minus = 9
parse_precedence tok_star = 10
parse_precedence tok_slash = 10
parse_precedence tok_percent = 10
parse_precedence _ = 0

unfoldable pub parse_is_type_keyword : TokenKind → Bool
parse_is_type_keyword tok_void = true
parse_is_type_keyword tok_char = true
parse_is_type_keyword tok_short = true
parse_is_type_keyword tok_int = true
parse_is_type_keyword tok_long = true
parse_is_type_keyword tok_float = true
parse_is_type_keyword tok_double = true
parse_is_type_keyword tok_signed = true
parse_is_type_keyword tok_unsigned = true
parse_is_type_keyword tok__bool = true
parse_is_type_keyword tok_const = true
parse_is_type_keyword tok_volatile = true
parse_is_type_keyword tok_restrict = true
parse_is_type_keyword tok_struct = true
parse_is_type_keyword tok_union = true
parse_is_type_keyword tok_enum = true
parse_is_type_keyword tok_typedef = true
parse_is_type_keyword tok_static = true
parse_is_type_keyword tok_extern = true
parse_is_type_keyword tok_auto = true
parse_is_type_keyword tok_register = true
parse_is_type_keyword tok_inline = true
parse_is_type_keyword _ = false

-- By the kind of the current token, and whether its text is a typedef name.
unfoldable pub parse_starts_decl : TokenKind → Bool → Bool
parse_starts_decl tok_int named = true
parse_starts_decl tok_char named = true
parse_starts_decl tok_short named = true
parse_starts_decl tok_long named = true
parse_starts_decl tok_float named = true
parse_starts_decl tok_double named = true
parse_starts_decl tok_signed named = true
parse_starts_decl tok_unsigned named = true
parse_starts_decl tok_void named = true
parse_starts_decl tok__bool named = true
parse_starts_decl tok_const named = true
parse_starts_decl tok_volatile named = true
parse_starts_decl tok_register named = true
parse_starts_decl tok_static named = true
parse_starts_decl tok_auto named = true
parse_starts_decl tok_ident named = named
parse_starts_decl _ named = false

-- The loop over the bytes: is there a `u`, or an `l`, in either case?
unfoldable pub has_u : Bytes → Bool
has_u [] = false
has_u (c ∷ cs) = c == b'u' || c == b'U' || has_u cs

unfoldable pub has_l : Bytes → Bool
has_l [] = false
has_l (c ∷ cs) = c == b'l' || c == b'L' || has_l cs

-- The value is a bit pattern: from 2^63 on it is negative, and not above any bound.
unfoldable pub int_literal_type : ℕ → Bytes → Scalar
unfolding has_u has_l
int_literal_type v s =
    if has_u s && has_l s
    then ty_ulong
    else if has_l s
    then ty_long
    else if has_u s
    then ty_uint
    else if ltb 2147483647 v && ltb v (2 ^ 63)
    then ty_long
    else ty_int
