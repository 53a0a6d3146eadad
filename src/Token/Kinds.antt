-- ===== src/Token/Kinds.antt =====
-- The comparison of token kinds that C makes on enumeration values (qbebasedcompiler/src/Lexer.c,
-- `TokenKind`).
use micro_colorschemes.Prelude.{
  ℕ, Bool, true, List, [], ◌∷◌, some, ◌≡◌, refl, ap, ◌↔◌, ◌==◌, ==_iff, ==_refl, get_elem?,
}
use micro_colorschemes.Token.{TokenKind}

-- The enumeration value plus one: `tok_eof` is -1.
unfoldable pub index : TokenKind → ℕ
index TokenKind.tok_eof = 0
index TokenKind.tok_other = 1
index TokenKind.tok_ident = 2
index TokenKind.tok_intlit = 3
index TokenKind.tok_floatlit = 4
index TokenKind.tok_charlit = 5
index TokenKind.tok_strlit = 6
index TokenKind.tok_pp_number = 7
index TokenKind.tok_auto = 8
index TokenKind.tok_break = 9
index TokenKind.tok_case = 10
index TokenKind.tok_char = 11
index TokenKind.tok_const = 12
index TokenKind.tok_continue = 13
index TokenKind.tok_default = 14
index TokenKind.tok_do = 15
index TokenKind.tok_double = 16
index TokenKind.tok_else = 17
index TokenKind.tok_enum = 18
index TokenKind.tok_extern = 19
index TokenKind.tok_float = 20
index TokenKind.tok_for = 21
index TokenKind.tok_goto = 22
index TokenKind.tok_if = 23
index TokenKind.tok_inline = 24
index TokenKind.tok_int = 25
index TokenKind.tok_long = 26
index TokenKind.tok_register = 27
index TokenKind.tok_restrict = 28
index TokenKind.tok_return = 29
index TokenKind.tok_short = 30
index TokenKind.tok_signed = 31
index TokenKind.tok_sizeof = 32
index TokenKind.tok_static = 33
index TokenKind.tok_struct = 34
index TokenKind.tok_switch = 35
index TokenKind.tok_typedef = 36
index TokenKind.tok_union = 37
index TokenKind.tok_unsigned = 38
index TokenKind.tok_void = 39
index TokenKind.tok_volatile = 40
index TokenKind.tok_while = 41
index TokenKind.tok__alignas = 42
index TokenKind.tok__alignof = 43
index TokenKind.tok__atomic = 44
index TokenKind.tok__bool = 45
index TokenKind.tok__complex = 46
index TokenKind.tok__generic = 47
index TokenKind.tok__imaginary = 48
index TokenKind.tok__noreturn = 49
index TokenKind.tok__static_assert = 50
index TokenKind.tok__thread_local = 51
index TokenKind.tok_lbracket = 52
index TokenKind.tok_rbracket = 53
index TokenKind.tok_lparen = 54
index TokenKind.tok_rparen = 55
index TokenKind.tok_lbrace = 56
index TokenKind.tok_rbrace = 57
index TokenKind.tok_dot = 58
index TokenKind.tok_arrow = 59
index TokenKind.tok_plusplus = 60
index TokenKind.tok_minusminus = 61
index TokenKind.tok_amp = 62
index TokenKind.tok_star = 63
index TokenKind.tok_plus = 64
index TokenKind.tok_minus = 65
index TokenKind.tok_tilde = 66
index TokenKind.tok_bang = 67
index TokenKind.tok_slash = 68
index TokenKind.tok_percent = 69
index TokenKind.tok_shl = 70
index TokenKind.tok_shr = 71
index TokenKind.tok_lt = 72
index TokenKind.tok_gt = 73
index TokenKind.tok_leq = 74
index TokenKind.tok_geq = 75
index TokenKind.tok_eqeq = 76
index TokenKind.tok_neq = 77
index TokenKind.tok_caret = 78
index TokenKind.tok_pipe = 79
index TokenKind.tok_andand = 80
index TokenKind.tok_oror = 81
index TokenKind.tok_question = 82
index TokenKind.tok_colon = 83
index TokenKind.tok_semi = 84
index TokenKind.tok_ellipsis = 85
index TokenKind.tok_eq = 86
index TokenKind.tok_stareq = 87
index TokenKind.tok_slasheq = 88
index TokenKind.tok_percenteq = 89
index TokenKind.tok_pluseq = 90
index TokenKind.tok_minuseq = 91
index TokenKind.tok_shleq = 92
index TokenKind.tok_shreq = 93
index TokenKind.tok_andeq = 94
index TokenKind.tok_xoreq = 95
index TokenKind.tok_oreq = 96
index TokenKind.tok_comma = 97
index TokenKind.tok_hash = 98
index TokenKind.tok_hashhash = 99
index TokenKind.tok_defined = 100
index TokenKind.tok_include = 101
index TokenKind.tok_ifdef = 102
index TokenKind.tok_ifndef = 103
index TokenKind.tok_endif = 104
index TokenKind.tok_elif = 105
index TokenKind.tok_else_pp = 106
index TokenKind.tok_undef = 107
index TokenKind.tok_line = 108
index TokenKind.tok_error = 109
index TokenKind.tok_pragma = 110

all_kinds : List TokenKind
all_kinds =
    TokenKind.tok_eof ∷ TokenKind.tok_other ∷ TokenKind.tok_ident ∷ TokenKind.tok_intlit
    ∷ TokenKind.tok_floatlit ∷ TokenKind.tok_charlit ∷ TokenKind.tok_strlit
    ∷ TokenKind.tok_pp_number ∷ TokenKind.tok_auto ∷ TokenKind.tok_break ∷ TokenKind.tok_case
    ∷ TokenKind.tok_char ∷ TokenKind.tok_const ∷ TokenKind.tok_continue ∷ TokenKind.tok_default
    ∷ TokenKind.tok_do ∷ TokenKind.tok_double ∷ TokenKind.tok_else ∷ TokenKind.tok_enum
    ∷ TokenKind.tok_extern ∷ TokenKind.tok_float ∷ TokenKind.tok_for ∷ TokenKind.tok_goto
    ∷ TokenKind.tok_if ∷ TokenKind.tok_inline ∷ TokenKind.tok_int ∷ TokenKind.tok_long
    ∷ TokenKind.tok_register ∷ TokenKind.tok_restrict ∷ TokenKind.tok_return ∷ TokenKind.tok_short
    ∷ TokenKind.tok_signed ∷ TokenKind.tok_sizeof ∷ TokenKind.tok_static ∷ TokenKind.tok_struct
    ∷ TokenKind.tok_switch ∷ TokenKind.tok_typedef ∷ TokenKind.tok_union ∷ TokenKind.tok_unsigned
    ∷ TokenKind.tok_void ∷ TokenKind.tok_volatile ∷ TokenKind.tok_while ∷ TokenKind.tok__alignas
    ∷ TokenKind.tok__alignof ∷ TokenKind.tok__atomic ∷ TokenKind.tok__bool ∷ TokenKind.tok__complex
    ∷ TokenKind.tok__generic ∷ TokenKind.tok__imaginary ∷ TokenKind.tok__noreturn
    ∷ TokenKind.tok__static_assert ∷ TokenKind.tok__thread_local ∷ TokenKind.tok_lbracket
    ∷ TokenKind.tok_rbracket ∷ TokenKind.tok_lparen ∷ TokenKind.tok_rparen ∷ TokenKind.tok_lbrace
    ∷ TokenKind.tok_rbrace ∷ TokenKind.tok_dot ∷ TokenKind.tok_arrow ∷ TokenKind.tok_plusplus
    ∷ TokenKind.tok_minusminus ∷ TokenKind.tok_amp ∷ TokenKind.tok_star ∷ TokenKind.tok_plus
    ∷ TokenKind.tok_minus ∷ TokenKind.tok_tilde ∷ TokenKind.tok_bang ∷ TokenKind.tok_slash
    ∷ TokenKind.tok_percent ∷ TokenKind.tok_shl ∷ TokenKind.tok_shr ∷ TokenKind.tok_lt
    ∷ TokenKind.tok_gt ∷ TokenKind.tok_leq ∷ TokenKind.tok_geq ∷ TokenKind.tok_eqeq
    ∷ TokenKind.tok_neq ∷ TokenKind.tok_caret ∷ TokenKind.tok_pipe ∷ TokenKind.tok_andand
    ∷ TokenKind.tok_oror ∷ TokenKind.tok_question ∷ TokenKind.tok_colon ∷ TokenKind.tok_semi
    ∷ TokenKind.tok_ellipsis ∷ TokenKind.tok_eq ∷ TokenKind.tok_stareq ∷ TokenKind.tok_slasheq
    ∷ TokenKind.tok_percenteq ∷ TokenKind.tok_pluseq ∷ TokenKind.tok_minuseq ∷ TokenKind.tok_shleq
    ∷ TokenKind.tok_shreq ∷ TokenKind.tok_andeq ∷ TokenKind.tok_xoreq ∷ TokenKind.tok_oreq
    ∷ TokenKind.tok_comma ∷ TokenKind.tok_hash ∷ TokenKind.tok_hashhash ∷ TokenKind.tok_defined
    ∷ TokenKind.tok_include ∷ TokenKind.tok_ifdef ∷ TokenKind.tok_ifndef ∷ TokenKind.tok_endif
    ∷ TokenKind.tok_elif ∷ TokenKind.tok_else_pp ∷ TokenKind.tok_undef ∷ TokenKind.tok_line
    ∷ TokenKind.tok_error ∷ TokenKind.tok_pragma ∷ []

all_kinds-index : (k : TokenKind) → get_elem? all_kinds (index k) ≡ some k
unfolding all_kinds index
all_kinds-index TokenKind.tok_eof = refl
all_kinds-index _ = refl

index-injective : (a b : TokenKind) → index a ≡ index b → a ≡ b
index-injective a b e = cc (all_kinds-index a, all_kinds-index b, ap (get_elem? all_kinds) e)

-- `a == b` on token kinds.
unfoldable pub kind_eq : TokenKind → TokenKind → Bool
unfolding index
kind_eq a b = index a == index b

pub kind_eq_iff : (a b : TokenKind) → (kind_eq a b ≡ true) ↔ (a ≡ b)
unfolding kind_eq
kind_eq_iff a b =
    (λ e. index-injective a b ((==_iff (index a) (index b)).0 e), λ e. rw e (==_refl (index b)))
