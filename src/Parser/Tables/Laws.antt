-- ===== src/Parser/Tables/Laws.antt =====
-- Laws of the tables of qbebasedcompiler/src/parser.c.
use micro_colorschemes.Prelude.{
  ℕ, ◌≤◌, ◌<◌, ◌^◌, ◌≡◌, refl, Bool, true, false, not, ◌&&◌, Bytes, arith,
}
use micro_colorschemes.Token.{
  TokenKind, tok_restrict, tok_struct, tok_union, tok_enum, tok_typedef, tok_extern, tok_inline,
}
use micro_colorschemes.Ast.{Scalar, ty_int, ty_uint, ty_long}
use micro_colorschemes.Parser.Tables.{
  parse_is_type_keyword, parse_starts_decl, has_u, int_literal_type,
}

-- The largest value of the four types of an integer literal.
abbrev pub max_of : Scalar → ℕ
max_of ty_int = 2147483647
max_of ty_uint = 4294967295
max_of ty_long = 9223372036854775807
max_of _ = 18446744073709551615

-- An integer literal below 2^63 with no `u` in it has a value that its type holds.
pub int_literal_type-max_of :
    (v : ℕ) (s : Bytes) → v < 2 ^ 63 → has_u s ≡ false → v ≤ max_of (int_literal_type v s)
unfolding int_literal_type
int_literal_type-max_of v s h e = ground (arith, e)

-- The specifiers that begin a declaration at the top level only.
abbrev pub is_outer_keyword : TokenKind → Bool
is_outer_keyword tok_restrict = true
is_outer_keyword tok_struct = true
is_outer_keyword tok_union = true
is_outer_keyword tok_enum = true
is_outer_keyword tok_typedef = true
is_outer_keyword tok_extern = true
is_outer_keyword tok_inline = true
is_outer_keyword _ = false

-- A token that is no typedef name begins a declaration inside a block exactly if it is a specifier
-- other than `restrict`, `struct`, `union`, `enum`, `typedef`, `extern` and `inline`.
pub parse_starts_decl-keyword :
    (k : TokenKind)
    → parse_starts_decl k false ≡ parse_is_type_keyword k && not (is_outer_keyword k)
unfolding parse_starts_decl parse_is_type_keyword
parse_starts_decl-keyword tok_restrict = refl
parse_starts_decl-keyword _ = refl
