-- ===== src/Qbe/Code.antt =====
-- The lines that qbebasedcompiler/src/qbe.c prints into a function, by their forms.
use micro_colorschemes.Prelude.{ℕ, List}
use micro_colorschemes.Token.{Token}
use micro_colorschemes.Qbe.Types.{QbeType, LoadOp, StoreOp, AllocOp}
use micro_colorschemes.Qbe.Convert.{ConvertOp}

-- `@sc_rhs_%d` is `sc_rhs` of the number, and so on.
pub data Label : Type 0 where
  sc_rhs sc_end cond_then cond_else cond_end if_then if_else if_end : ℕ → Label
  while_cond while_body while_end do_body do_cond do_end : ℕ → Label
  for_cond for_body for_post for_end switch_end user_label : ℕ → Label
  case_label switch_next : ℕ → ℕ → Label

pub data ArithOp : Type 0 where
  op_add op_sub op_mul op_div op_rem op_and op_or op_xor op_shl op_shr : ArithOp

-- `csltw` is `cslt` of `type_w`.
pub data CompareOp : Type 0 where
  clt cslt cgt csgt cle csle cge csge ceq cne : CompareOp

-- What stands behind `=w`: a copy of a number, of a floating literal, of the address of a string or
-- of a slot, a conversion or copy of a temporary, a load, two operands, `cnew %t, 0`, a call.
pub data Rhs : Type 0 where
  copy_int : ℕ → Rhs
  copy_float : Token → Rhs
  copy_str : ℕ → Rhs
  copy_var : ℕ → Rhs
  convert : ConvertOp → ℕ → Rhs
  load : LoadOp → ℕ → Rhs
  arith_op : ArithOp → ℕ → ℕ → Rhs
  compare : CompareOp → QbeType → ℕ → ℕ → Rhs
  not_zero : ℕ → Rhs
  call_of : ℕ → List (QbeType × ℕ) → Rhs

-- `assign t c r` is `%t =c r`; `store o s a` stores `%ts` at `%ta`.
pub data Instr : Type 0 where
  assign_to : ℕ → QbeType → Rhs → Instr
  store : StoreOp → ℕ → ℕ → Instr
  jnz : ℕ → Label → Label → Instr
  jmp : Label → Instr
  label : Label → Instr
  ret : ℕ → Instr
  ret_zero : Instr
  alloc_var : ℕ → AllocOp → ℕ → Instr
  store_param : StoreOp → ℕ → Instr
