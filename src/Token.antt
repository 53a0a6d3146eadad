-- ===== src/Token.antt =====
-- Tokens of the qbe based compiler: qbebasedcompiler/src/Lexer.c, its token kinds, the `Token`
-- struct and the keyword table.
pub mod Kinds
pub mod Keywords
pub mod Spelling
use micro_colorschemes.Prelude.{ℕ, Bytes, take}

-- `TokenKind`, in the order of the enumeration. `tok_count_` only counts them.
pub data TokenKind : Type 0 where
  tok_eof tok_other tok_ident tok_intlit tok_floatlit tok_charlit tok_strlit tok_pp_number :
      TokenKind
  tok_auto tok_break tok_case tok_char tok_const tok_continue tok_default tok_do tok_double :
      TokenKind
  tok_else tok_enum tok_extern tok_float tok_for tok_goto tok_if tok_inline tok_int : TokenKind
  tok_long tok_register tok_restrict tok_return tok_short tok_signed tok_sizeof tok_static :
      TokenKind
  tok_struct tok_switch tok_typedef tok_union tok_unsigned tok_void tok_volatile tok_while :
      TokenKind
  tok__alignas tok__alignof tok__atomic tok__bool tok__complex tok__generic tok__imaginary :
      TokenKind
  tok__noreturn tok__static_assert tok__thread_local tok_lbracket tok_rbracket tok_lparen :
      TokenKind
  tok_rparen tok_lbrace tok_rbrace tok_dot tok_arrow tok_plusplus tok_minusminus tok_amp : TokenKind
  tok_star tok_plus tok_minus tok_tilde tok_bang tok_slash tok_percent tok_shl tok_shr : TokenKind
  tok_lt tok_gt tok_leq tok_geq tok_eqeq tok_neq tok_caret tok_pipe tok_andand tok_oror : TokenKind
  tok_question tok_colon tok_semi tok_ellipsis tok_eq tok_stareq tok_slasheq tok_percenteq :
      TokenKind
  tok_pluseq tok_minuseq tok_shleq tok_shreq tok_andeq tok_xoreq tok_oreq tok_comma : TokenKind
  tok_hash tok_hashhash tok_defined tok_include tok_ifdef tok_ifndef tok_endif tok_elif : TokenKind
  tok_else_pp tok_undef tok_line tok_error tok_pragma : TokenKind

-- A `const char *` into the source: the offset, and the bytes from there to the end of the buffer.
pub record Ptr : Type 0 where
  pub offset : ℕ
  pub bytes : Bytes

pub record Token : Type 0 where
  pub kind : TokenKind
  pub start : Ptr
  pub len : ℕ
  pub line : ℕ
  pub col : ℕ

-- The bytes of a token.
abbrev pub token_text : Token → Bytes
token_text t = take t.len t.start.bytes
