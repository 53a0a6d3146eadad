-- ===== src/Qbe/Emit.antt =====
-- The state of the emitter of qbebasedcompiler/src/qbe.c, and its output.
--
-- A function of the source is a state monad that also returns the lines it prints. It stops with a
-- message before `exit(1)`; what it printed before is not kept. Three stops stand for undefined
-- behaviour: a NULL node, a 33rd argument, a 65th loop.
use micro_colorschemes.Prelude.{
  ℕ, ◌+◌, Bool, List, [], ◌∷◌, ◌++◌, Bytes, leb, length, if◌then◌else◌,
}
use micro_colorschemes.Token.{TokenKind}
use micro_colorschemes.Ast.{Node}
use micro_colorschemes.Qbe.Types.{QbeType}
use micro_colorschemes.Qbe.Code.{Rhs, Instr, assign_to}

-- Both ids of a loop are its number; a switch has no `continue_id`.
pub record LoopCtx : Type 0 where
  pub break_id : ℕ
  pub continue_id : ℕ
  pub is_switch : Bool

-- The counter, the stack of loops and switches, the innermost first, and the labels of the function.
-- `label_name` is what `u.ident` reads at a label's node, whose name the parser has overwritten by
-- the statement in the same union; it is a parameter of the model and never changes.
pub record Emitter : Type 0 where
  pub qbe_tmp : ℕ
  pub qbe_ctx : List LoopCtx
  pub qbe_labels : List Bytes
  pub label_name : Node → Bytes

pub data EmitError : Type 0 where
  not_an_lvalue null_node too_many_arguments loops_too_deep : EmitError
  unsupported_expr unsupported_stmt bad_compound_op too_many_labels : EmitError
  break_outside continue_outside : EmitError
  unsupported_binary : TokenKind → EmitError

pub data Emitted (A : Type 0) : Type 0 where
  emitted : List Instr → A → Emitter → Emitted A
  stopped : EmitError → Emitted A

abbrev pub Emit : Type 0 → Type 0
Emit A = Emitter → Emitted A

-- The lines `code` in front.
abbrev pub behind : {A : Type 0} → List Instr → Emitted A → Emitted A
behind code (emitted more a E) = emitted (code ++ more) a E
behind code (stopped e) = stopped e

abbrev pub then_emit : {A B : Type 0} → Emitted A → (A → Emit B) → Emitted B
then_emit (emitted code a E) f = behind code (f a E)
then_emit (stopped e) f = stopped e

infixl 5 ◌>>=◌ ◌>>◌
unfoldable pub ◌>>=◌ : {A B : Type 0} → Emit A → (A → Emit B) → Emit B
◌>>=◌ m f E = then_emit (m E) f

unfoldable pub ◌>>◌ : {A B : Type 0} → Emit A → Emit B → Emit B
unfolding ◌>>=◌
m >> k = m >>= λ _. k

unfoldable pub pure : {A : Type 0} → A → Emit A
pure a E = emitted [] a E

unfoldable pub stop : {A : Type 0} → EmitError → Emit A
stop e E = stopped e

-- `fprintf` of a line.
unfoldable pub emit : Instr → Emit Unit
emit i E = emitted (i ∷ []) tt E

unfoldable pub qbe_new_tmp : Emit ℕ
qbe_new_tmp E = emitted [] E.qbe_tmp (record E { qbe_tmp = E.qbe_tmp + 1 })

-- A new temporary, and the line that assigns to it.
unfoldable pub assign_new : QbeType → Rhs → Emit ℕ
assign_new c r = qbe_new_tmp >>= λ t. emit (assign_to t c r) >> pure t

-- A loop or a switch around `m`.
unfoldable pub enter_ctx : LoopCtx → Emit Unit
enter_ctx c E =
    if leb 64 (length E.qbe_ctx)
    then stopped loops_too_deep
    else emitted [] tt (record E { qbe_ctx = c ∷ E.qbe_ctx })

abbrev pub tail_ctx : List LoopCtx → List LoopCtx
tail_ctx [] = []
tail_ctx (c ∷ cs) = cs

unfoldable pub leave_ctx : Emit Unit
leave_ctx E = emitted [] tt (record E { qbe_ctx = tail_ctx E.qbe_ctx })

abbrev pub in_ctx : LoopCtx → Emit Unit → Emit Unit
in_ctx c m = enter_ctx c >> m >> leave_ctx
