-- ===== src/Parser/Types.antt =====
-- Specifiers and declarators: `parse_decl_specifiers` and `parse_declarator` of
-- qbebasedcompiler/src/parser.c.
use micro_colorschemes.Prelude.{ℕ, Bool, true, false, not, ◌&&◌, ◌||◌, if◌then◌else◌}
use micro_colorschemes.Token.{
  TokenKind, tok_void, tok__bool, tok_char, tok_short, tok_long, tok_float, tok_double,
  tok_unsigned, tok_ident, tok_star, tok_lbracket, tok_rbracket, tok_lparen, tok_rparen, tok_comma,
  tok_ellipsis,
}
use micro_colorschemes.Token.Kinds.{kind_eq}
use micro_colorschemes.Ast.{
  ty_void, ty_bool, ty_schar, ty_uchar, ty_short, ty_ushort, ty_int, ty_uint, ty_long, ty_ulong,
  ty_float, ty_double, Scalar, CType, scalar, ptr, array, func, Node, no_node, ident, int_lit,
  param, NodeList, nil, cons,
}
use micro_colorschemes.Ast.Types.{node_tok}
use micro_colorschemes.Parser.State.{
  Parser, Parse, ◌>>=◌, pure, current, done, parse_advance, parse_check, parse_match, if_check,
  if_state, parse_expect, parse_is_typedef_name, new_type_id,
}
use micro_colorschemes.Parser.Tables.{parse_is_type_keyword}
use micro_colorschemes.Parser.Level.{Saw, Level}
use micro_colorschemes.Parser.Expr.{parse_primary}

abbrev pub saw_nothing : Saw
saw_nothing = record {
  saw_void = false;
  saw_bool = false;
  saw_char = false;
  saw_short = false;
  saw_long = false;
  saw_longlong = false;
  saw_float = false;
  saw_double = false;
  saw_unsigned = false;
  saw_any = false;
}

-- The switch of the loop.
unfoldable pub see : TokenKind → Saw → Saw
see tok_void s = record s { saw_void = true; saw_any = true }
see tok__bool s = record s { saw_bool = true; saw_any = true }
see tok_char s = record s { saw_char = true; saw_any = true }
see tok_short s = record s { saw_short = true; saw_any = true }
see tok_long s = record s {
  saw_longlong = s.saw_long || s.saw_longlong;
  saw_long = true;
  saw_any = true;
}
see tok_float s = record s { saw_float = true; saw_any = true }
see tok_double s = record s { saw_double = true; saw_any = true }
see tok_unsigned s = record s { saw_unsigned = true; saw_any = true }
see _ s = record s { saw_any = true }

-- The type of the specifiers that were seen.
unfoldable pub specified_type : Saw → Scalar
specified_type s =
    if not s.saw_any
    then ty_int
    else if s.saw_void
    then ty_void
    else if s.saw_bool
    then ty_bool
    else if s.saw_float
    then ty_float
    else if s.saw_double
    then ty_double
    else if s.saw_char
    then (if s.saw_unsigned then ty_uchar else ty_schar)
    else if s.saw_short
    then (if s.saw_unsigned then ty_ushort else ty_short)
    else if s.saw_longlong || s.saw_long
    then (if s.saw_unsigned then ty_ulong else ty_long)
    else if s.saw_unsigned
    then ty_uint
    else ty_int

-- Does the loop of the specifiers go on?
unfoldable pub at_specifier : Parser → Bool
at_specifier P =
    parse_is_type_keyword P.cur.kind
    || kind_eq P.cur.kind tok_ident && parse_is_typedef_name P P.cur

unfoldable pub specifier_loop : Level → Saw → Parse Saw
specifier_loop r s =
    if_state at_specifier (parse_advance >>= λ t. r.specifiers (see t.kind s)) (pure s)

unfoldable pub parse_decl_specifiers : Level → Parse CType
parse_decl_specifiers r = specifier_loop r saw_nothing >>= λ s. pure (scalar (specified_type s))

-- The loop over `*`.
unfoldable pub star_loop : Level → CType → Parse CType
star_loop r base = parse_match tok_star (new_type_id >>= λ id. r.stars (ptr id base)) (pure base)

-- `u.intlit.value` of a node.
abbrev pub int_value : Parser → Node → ℕ
int_value P (int_lit _ _ v _) = v
int_value P n = P.union_value n

unfoldable pub read_int_value : Node → Parse ℕ
read_int_value n P = done (int_value P n) P

-- A dimension of an array behind `[`; one that is left out is 0.
abbrev pub dimension : Level → CType → Parse CType
dimension r base = do
  len ← if_check tok_rbracket (pure 0) (parse_primary r >>= read_int_value)
  _ ← parse_expect tok_rbracket
  id ← new_type_id
  r.arrays (array id base len)

unfoldable pub array_loop : Level → CType → Parse CType
array_loop r base = parse_match tok_lbracket (dimension r base) (pure base)

-- An identifier, if one is there.
unfoldable pub declared_name : CType → Parse Node
declared_name base =
    if_check tok_ident (parse_advance >>= λ t. pure (ident t base 0)) (pure no_node)

-- The name of a declarator gets the whole type.
abbrev pub set_type : Node → CType → Node
set_type (ident t _ id) ty = ident t ty id
set_type n ty = n

-- `void` alone between the parentheses.
abbrev pub at_void_only : Parser → Bool
at_void_only P = parse_check tok_void P && kind_eq P.peek.kind tok_rparen

unfoldable pub void_or_params : Level → Parse (NodeList × Bool)
void_or_params r = if_state at_void_only (parse_advance >>= λ t. pure (nil, false)) r.params

-- Behind `(`: the parameters and whether the function is variadic, behind the type made for it.
abbrev pub parameters : Level → CType → Parse CType
parameters r base = do
  id ← new_type_id
  ps ← if_check tok_rparen (pure (nil, false)) (void_or_params r)
  _ ← parse_expect tok_rparen
  pure (func id base ps.0 ps.1)

unfoldable pub function_suffix : Level → CType → Parse CType
function_suffix r base = parse_match tok_lparen (parameters r base) (pure base)

unfoldable pub parse_declarator : Level → CType → Parse Node
parse_declarator r base = do
  pointed ← star_loop r base
  name ← declared_name pointed
  dims ← array_loop r pointed
  whole ← function_suffix r dims
  pure (set_type name whole)

-- The token of a parameter: that of its name, or the current one.
abbrev pub param_node : CType → Node → Parse Node
param_node t no_node = current >>= λ tok. pure (param tok 0 t no_node)
param_node t name = pure (param (node_tok name) 0 t name)

-- The loop over the parameters. A parameter's node keeps the type of the specifiers alone.
unfoldable pub param_loop : Level → Parse (NodeList × Bool)
param_loop r = if_check tok_ellipsis (parse_advance >>= λ t. pure (nil, true)) (do
  t ← parse_decl_specifiers r
  name ← parse_declarator r t
  p ← param_node t name
  parse_match tok_comma (r.params >>= λ ps. pure (cons p ps.0, ps.1)) (pure (cons p nil, false)))
