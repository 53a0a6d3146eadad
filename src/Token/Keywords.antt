-- ===== src/Token/Keywords.antt =====
-- The keyword table of qbebasedcompiler/src/Lexer.c and its lookup.
pub mod Laws
use micro_colorschemes.Prelude.{List, [], ◌∷◌, Bytes, codes, if◌then◌else◌, bytes_eq}
use micro_colorschemes.Token.{
  TokenKind, tok_other, tok_auto, tok_break, tok_case, tok_char, tok_const, tok_continue,
  tok_default, tok_do, tok_double, tok_else, tok_enum, tok_extern, tok_float, tok_for, tok_goto,
  tok_if, tok_inline, tok_int, tok_long, tok_register, tok_restrict, tok_return, tok_short,
  tok_signed, tok_sizeof, tok_static, tok_struct, tok_switch, tok_typedef, tok_union, tok_unsigned,
  tok_void, tok_volatile, tok_while, tok__alignas, tok__alignof, tok__atomic, tok__bool,
  tok__complex, tok__generic, tok__imaginary, tok__noreturn, tok__static_assert, tok__thread_local,
}

-- A `KeywordEntry` is a name and its kind; the length field is that of the name.
abbrev pub keywords : List (Bytes × TokenKind)
keywords =
    (codes "auto", tok_auto)
    ∷ (codes "break", tok_break)
    ∷ (codes "case", tok_case)
    ∷ (codes "char", tok_char)
    ∷ (codes "const", tok_const)
    ∷ (codes "continue", tok_continue)
    ∷ (codes "default", tok_default)
    ∷ (codes "do", tok_do)
    ∷ (codes "double", tok_double)
    ∷ (codes "else", tok_else)
    ∷ (codes "enum", tok_enum)
    ∷ (codes "extern", tok_extern)
    ∷ (codes "float", tok_float)
    ∷ (codes "for", tok_for)
    ∷ (codes "goto", tok_goto)
    ∷ (codes "if", tok_if)
    ∷ (codes "inline", tok_inline)
    ∷ (codes "int", tok_int)
    ∷ (codes "long", tok_long)
    ∷ (codes "register", tok_register)
    ∷ (codes "restrict", tok_restrict)
    ∷ (codes "return", tok_return)
    ∷ (codes "short", tok_short)
    ∷ (codes "signed", tok_signed)
    ∷ (codes "sizeof", tok_sizeof)
    ∷ (codes "static", tok_static)
    ∷ (codes "struct", tok_struct)
    ∷ (codes "switch", tok_switch)
    ∷ (codes "typedef", tok_typedef)
    ∷ (codes "union", tok_union)
    ∷ (codes "unsigned", tok_unsigned)
    ∷ (codes "void", tok_void)
    ∷ (codes "volatile", tok_volatile)
    ∷ (codes "while", tok_while)
    ∷ (codes "_Alignas", tok__alignas)
    ∷ (codes "_Alignof", tok__alignof)
    ∷ (codes "_Atomic", tok__atomic)
    ∷ (codes "_Bool", tok__bool)
    ∷ (codes "_Complex", tok__complex)
    ∷ (codes "_Generic", tok__generic)
    ∷ (codes "_Imaginary", tok__imaginary)
    ∷ (codes "_Noreturn", tok__noreturn)
    ∷ (codes "_Static_assert", tok__static_assert)
    ∷ (codes "_Thread_local", tok__thread_local)
    ∷ []

-- The loop of `lookup_keyword` over a table: the first entry of that name.
lookup_in : List (Bytes × TokenKind) → Bytes → TokenKind
lookup_in [] s = tok_other
lookup_in ((name, kind) ∷ entries) s = if bytes_eq name s then kind else lookup_in entries s

unfoldable pub lookup_keyword : Bytes → TokenKind
unfolding lookup_in bytes_eq
lookup_keyword s = lookup_in keywords s
