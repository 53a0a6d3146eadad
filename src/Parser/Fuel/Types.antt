-- ===== src/Parser/Fuel/Types.antt =====
-- Tokens passed by the specifiers and declarators of qbebasedcompiler/src/parser.c.
use micro_colorschemes.Prelude.{ℕ, ◌<◌, ◌≡◌, refl, Bool, true, false, arith, ◌||◌, ◌&&◌}
use micro_colorschemes.Token.{
  TokenKind, tok_eof, tok_star, tok_lbracket, tok_rbracket, tok_lparen, tok_rparen, tok_comma,
  tok_ident, tok_ellipsis,
}
use micro_colorschemes.Token.Kinds.{kind_eq}
use micro_colorschemes.Ast.{CType, Node, no_node}
use micro_colorschemes.Parser.State.{Parser, parse_is_typedef_name, ◌>>=◌}
use micro_colorschemes.Parser.Tables.{parse_is_type_keyword}
use micro_colorschemes.Parser.Level.{Saw, Level}
use micro_colorschemes.Parser.Expr.{parse_primary}
use micro_colorschemes.Parser.Types.{
  saw_nothing, at_specifier, specifier_loop, parse_decl_specifiers, star_loop, read_int_value,
  dimension, array_loop, declared_name, parameters, at_void_only, void_or_params, function_suffix,
  parse_declarator, param_node, param_loop,
}
use micro_colorschemes.Parser.Fuel.{
  Fed, fed, Goes, Fed-pure, Fed-past, FedOn-any, FedOn-weaken, Fed-stay, Below, Below-less,
}
use micro_colorschemes.Parser.Fuel.Steps.{
  FedOn-advance, Fed-if_check, Fed-if_state, Fed-unless_eof, Fed-match, Fed-expect, Fed-current,
  Fed-new_type_id, Fed-advance,
}
use micro_colorschemes.Parser.Fuel.Expr.{parse_primary-Fed}

specifier_kind :
    (t : TokenKind) (b : Bool)
    → (parse_is_type_keyword t || kind_eq t tok_ident && b) ≡ true
    → kind_eq t tok_eof ≡ false
unfolding parse_is_type_keyword kind_eq
specifier_kind tok_eof b h = cc
specifier_kind _ b h = refl

pub at_specifier-kind : (P : Parser) → at_specifier P ≡ true → kind_eq P.cur.kind tok_eof ≡ false
unfolding at_specifier
at_specifier-kind P h = specifier_kind P.cur.kind (parse_is_typedef_name P P.cur) h

Fed-read_int_value : {k : ℕ} (n : Node) → Fed 0 k (read_int_value n)
unfolding Goes read_int_value
Fed-read_int_value n = fed (λ P v l. (v, omega arith))

pub declared_name-Fed : {k : ℕ} (t : CType) → Fed 0 k (declared_name t)
unfolding declared_name
declared_name-Fed t =
    Fed-if_check tok_ident (FedOn-any (Fed-stay Fed-advance (λ a. Fed-pure _))) (Fed-pure no_node)

param_node-Fed : {k : ℕ} (t : CType) (n : Node) → Fed 0 k (param_node t n)
param_node-Fed t no_node = Fed-stay Fed-current (λ a. Fed-pure _)
param_node-Fed t _ = Fed-pure _

module _ {k : ℕ} {r : Level} (b : Below k r) where
  pub specifier_loop-Fed : (s : Saw) → Fed 0 k (specifier_loop r s)
  unfolding specifier_loop
  specifier_loop-Fed s =
      Fed-unless_eof at_specifier at_specifier-kind
        (λ t n. FedOn-weaken (FedOn-advance n (λ a j u. (b j u).specifiers _))) (Fed-pure s)

  pub parse_decl_specifiers-Fed : Fed 0 k (parse_decl_specifiers r)
  unfolding parse_decl_specifiers
  parse_decl_specifiers-Fed = Fed-stay (specifier_loop-Fed saw_nothing) (λ s. Fed-pure _)

  pub star_loop-Fed : (t : CType) → Fed 0 k (star_loop r t)
  unfolding star_loop kind_eq
  star_loop-Fed t =
      Fed-match tok_star refl (λ j s. Fed-stay Fed-new_type_id (λ id. (b j s).stars _)) (Fed-pure t)

  pub array_length-Fed : {j : ℕ} → j < k → Fed 0 j (parse_primary r >>= read_int_value)
  array_length-Fed s = Fed-past (parse_primary-Fed (Below-less s b)) (λ n i u. Fed-read_int_value n)

  pub dimension-Fed : {j : ℕ} (t : CType) → j < k → Fed 0 j (dimension r t)
  unfolding kind_eq
  dimension-Fed t s =
      Fed-stay (Fed-if_check tok_rbracket (FedOn-any (Fed-pure 0)) (array_length-Fed s)) (λ len.
        Fed-past (Fed-expect tok_rbracket refl)
          (λ c i u. Fed-stay Fed-new_type_id (λ id. (b i (omega (arith, s, u))).arrays _)))

  pub array_loop-Fed : (t : CType) → Fed 0 k (array_loop r t)
  unfolding array_loop kind_eq
  array_loop-Fed t = Fed-match tok_lbracket refl (λ j s. dimension-Fed t s) (Fed-pure t)

  pub void_or_params-Fed : {j : ℕ} → j < k → Fed 0 j (void_or_params r)
  unfolding void_or_params
  void_or_params-Fed {j} s =
      Fed-if_state at_void_only (Fed-stay Fed-advance (λ t. Fed-pure _)) (b j s).params

  pub parameters-Fed : {j : ℕ} (t : CType) → j < k → Fed 0 j (parameters r t)
  unfolding kind_eq
  parameters-Fed t s = Fed-stay Fed-new_type_id (λ id.
      Fed-stay (Fed-if_check tok_rparen (FedOn-any (Fed-pure _)) (void_or_params-Fed s))
        (λ ps. Fed-past (Fed-expect tok_rparen refl) (λ c i u. Fed-pure _)))

  pub function_suffix-Fed : (t : CType) → Fed 0 k (function_suffix r t)
  unfolding function_suffix kind_eq
  function_suffix-Fed t = Fed-match tok_lparen refl (λ j s. parameters-Fed t s) (Fed-pure t)

  pub parse_declarator-Fed : (t : CType) → Fed 0 k (parse_declarator r t)
  unfolding parse_declarator
  parse_declarator-Fed t = Fed-stay (star_loop-Fed t) (λ p. Fed-stay (declared_name-Fed p) (λ name.
      Fed-stay (array_loop-Fed p) (λ a. Fed-stay (function_suffix-Fed a) (λ w. Fed-pure _))))

  pub param_loop-Fed : Fed 0 k (param_loop r)
  unfolding param_loop kind_eq
  param_loop-Fed = Fed-if_check tok_ellipsis (FedOn-any (Fed-stay Fed-advance (λ t. Fed-pure _))) (
      Fed-stay parse_decl_specifiers-Fed (λ t. Fed-stay (parse_declarator-Fed t) (λ name.
        Fed-stay (param_node-Fed t name) (λ p.
          Fed-match tok_comma refl (λ j s. Fed-stay (b j s).params (λ ps. Fed-pure _))
            (Fed-pure _)))))
