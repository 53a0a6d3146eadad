-- ===== src/Token/Spelling.antt =====
-- The spelling of each keyword and each punctuator, written down from the C standard's tables and
-- apart from the lexer: what the lexer of qbebasedcompiler/src/Lexer.c is measured by.
use micro_colorschemes.Prelude.{Option, none, some, Bytes, codes}
use micro_colorschemes.Token.{
  TokenKind, tok_auto, tok_break, tok_case, tok_char, tok_const, tok_continue, tok_default, tok_do,
  tok_double, tok_else, tok_enum, tok_extern, tok_float, tok_for, tok_goto, tok_if, tok_inline,
  tok_int, tok_long, tok_register, tok_restrict, tok_return, tok_short, tok_signed, tok_sizeof,
  tok_static, tok_struct, tok_switch, tok_typedef, tok_union, tok_unsigned, tok_void, tok_volatile,
  tok_while, tok__alignas, tok__alignof, tok__atomic, tok__bool, tok__complex, tok__generic,
  tok__imaginary, tok__noreturn, tok__static_assert, tok__thread_local, tok_lbracket, tok_rbracket,
  tok_lparen, tok_rparen, tok_lbrace, tok_rbrace, tok_dot, tok_arrow, tok_plusplus, tok_minusminus,
  tok_amp, tok_star, tok_plus, tok_minus, tok_tilde, tok_bang, tok_slash, tok_percent, tok_shl,
  tok_shr, tok_lt, tok_gt, tok_leq, tok_geq, tok_eqeq, tok_neq, tok_caret, tok_pipe, tok_andand,
  tok_oror, tok_question, tok_colon, tok_semi, tok_ellipsis, tok_eq, tok_stareq, tok_slasheq,
  tok_percenteq, tok_pluseq, tok_minuseq, tok_shleq, tok_shreq, tok_andeq, tok_xoreq, tok_oreq,
  tok_comma, tok_hash, tok_hashhash,
}

abbrev pub keyword_text : TokenKind → Option Bytes
keyword_text tok_auto = some (codes "auto")
keyword_text tok_break = some (codes "break")
keyword_text tok_case = some (codes "case")
keyword_text tok_char = some (codes "char")
keyword_text tok_const = some (codes "const")
keyword_text tok_continue = some (codes "continue")
keyword_text tok_default = some (codes "default")
keyword_text tok_do = some (codes "do")
keyword_text tok_double = some (codes "double")
keyword_text tok_else = some (codes "else")
keyword_text tok_enum = some (codes "enum")
keyword_text tok_extern = some (codes "extern")
keyword_text tok_float = some (codes "float")
keyword_text tok_for = some (codes "for")
keyword_text tok_goto = some (codes "goto")
keyword_text tok_if = some (codes "if")
keyword_text tok_inline = some (codes "inline")
keyword_text tok_int = some (codes "int")
keyword_text tok_long = some (codes "long")
keyword_text tok_register = some (codes "register")
keyword_text tok_restrict = some (codes "restrict")
keyword_text tok_return = some (codes "return")
keyword_text tok_short = some (codes "short")
keyword_text tok_signed = some (codes "signed")
keyword_text tok_sizeof = some (codes "sizeof")
keyword_text tok_static = some (codes "static")
keyword_text tok_struct = some (codes "struct")
keyword_text tok_switch = some (codes "switch")
keyword_text tok_typedef = some (codes "typedef")
keyword_text tok_union = some (codes "union")
keyword_text tok_unsigned = some (codes "unsigned")
keyword_text tok_void = some (codes "void")
keyword_text tok_volatile = some (codes "volatile")
keyword_text tok_while = some (codes "while")
keyword_text tok__alignas = some (codes "_Alignas")
keyword_text tok__alignof = some (codes "_Alignof")
keyword_text tok__atomic = some (codes "_Atomic")
keyword_text tok__bool = some (codes "_Bool")
keyword_text tok__complex = some (codes "_Complex")
keyword_text tok__generic = some (codes "_Generic")
keyword_text tok__imaginary = some (codes "_Imaginary")
keyword_text tok__noreturn = some (codes "_Noreturn")
keyword_text tok__static_assert = some (codes "_Static_assert")
keyword_text tok__thread_local = some (codes "_Thread_local")
keyword_text _ = none

abbrev pub punct_text : TokenKind → Option Bytes
punct_text tok_lbracket = some (codes "[")
punct_text tok_rbracket = some (codes "]")
punct_text tok_lparen = some (codes "(")
punct_text tok_rparen = some (codes ")")
punct_text tok_lbrace = some (codes "{")
punct_text tok_rbrace = some (codes "}")
punct_text tok_dot = some (codes ".")
punct_text tok_arrow = some (codes "->")
punct_text tok_plusplus = some (codes "++")
punct_text tok_minusminus = some (codes "--")
punct_text tok_amp = some (codes "&")
punct_text tok_star = some (codes "*")
punct_text tok_plus = some (codes "+")
punct_text tok_minus = some (codes "-")
punct_text tok_tilde = some (codes "~")
punct_text tok_bang = some (codes "!")
punct_text tok_slash = some (codes "/")
punct_text tok_percent = some (codes "%")
punct_text tok_shl = some (codes "<<")
punct_text tok_shr = some (codes ">>")
punct_text tok_lt = some (codes "<")
punct_text tok_gt = some (codes ">")
punct_text tok_leq = some (codes "<=")
punct_text tok_geq = some (codes ">=")
punct_text tok_eqeq = some (codes "==")
punct_text tok_neq = some (codes "!=")
punct_text tok_caret = some (codes "^")
punct_text tok_pipe = some (codes "|")
punct_text tok_andand = some (codes "&&")
punct_text tok_oror = some (codes "||")
punct_text tok_question = some (codes "?")
punct_text tok_colon = some (codes ":")
punct_text tok_semi = some (codes ";")
punct_text tok_ellipsis = some (codes "...")
punct_text tok_eq = some (codes "=")
punct_text tok_stareq = some (codes "*=")
punct_text tok_slasheq = some (codes "/=")
punct_text tok_percenteq = some (codes "%=")
punct_text tok_pluseq = some (codes "+=")
punct_text tok_minuseq = some (codes "-=")
punct_text tok_shleq = some (codes "<<=")
punct_text tok_shreq = some (codes ">>=")
punct_text tok_andeq = some (codes "&=")
punct_text tok_xoreq = some (codes "^=")
punct_text tok_oreq = some (codes "|=")
punct_text tok_comma = some (codes ",")
punct_text tok_hash = some (codes "#")
punct_text tok_hashhash = some (codes "##")
punct_text _ = none
