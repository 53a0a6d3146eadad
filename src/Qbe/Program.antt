-- ===== src/Qbe/Program.antt =====
-- `qbe_collect_strings`, `qbe_emit_string_data` and `qbe_emit` of qbebasedcompiler/src/qbe.c.
pub mod Numbers
use micro_colorschemes.Prelude.{
  ℕ, ◌+◌, ltb, Option, some, none, List, [], ◌∷◌, ◌++◌, length, Bytes, bytes_eq, if◌then◌else◌,
}
use micro_colorschemes.Token.{token_text}
use micro_colorschemes.Ast.{
  ty_int, CType, Node, func_def, var_decl, param, compound, expr_stmt, if_stmt, while_stmt, do_stmt,
  for_stmt, switch_stmt, case_stmt, default_stmt, return_stmt, str_lit, binary, unary, postfix,
  assign, call, index, cast, conditional, comma_expr, NodeList, nil, cons,
}
use micro_colorschemes.Ast.Types.{kind_of, node_tok}
use micro_colorschemes.Qbe.Types.{QbeType, alloc_op, store_op, type_size, last_ends}
use micro_colorschemes.Qbe.Strings.{escape_text}
use micro_colorschemes.Qbe.Code.{Instr, ret_zero, alloc_var, store_param}
use micro_colorschemes.Qbe.Emit.{Emitter, EmitError, Emitted, emitted, stopped}
use micro_colorschemes.Qbe.Memory.{type_or, class_of}
use micro_colorschemes.Qbe.Stmt.{qbe_stmt}

-- The table of strings with their numbers, the first one first, and the count of the numbers given.
pub record Strings : Type 0 where
  pub qbe_strings : List (Bytes × ℕ)
  pub qbe_str_total : ℕ

abbrev pub Collect : Type 0 → Type 0
Collect A = Strings → A × Strings

infixl 5 ◌>>=◌
abbrev pub ◌>>=◌ : {A B : Type 0} → Collect A → (A → Collect B) → Collect B
◌>>=◌ m f S = f (m S).0 (m S).1

abbrev pub pure : {A : Type 0} → A → Collect A
pure a S = (a, S)

abbrev pub string_number : List (Bytes × ℕ) → Bytes → Option ℕ
string_number [] text = none
string_number ((stored, id) ∷ strings) text =
    let rest = string_number strings text in if bytes_eq stored text then some id else rest

-- A string that is new gets the next number, and a place in the table if one of 1024 is left.
abbrev pub number_string : Option ℕ → Bytes → Collect ℕ
number_string (some id) text S = (id, S)
number_string none text S = (
  S.qbe_str_total,
  record S {
    qbe_str_total = S.qbe_str_total + 1;
    qbe_strings =
        if ltb (length S.qbe_strings) 1024
        then S.qbe_strings ++ (text, S.qbe_str_total) ∷ []
        else S.qbe_strings;
  },
)

-- The node with the numbers that the source writes into it.
unfoldable mutual
  pub qbe_collect_strings : Node → Collect Node
  qbe_collect_strings (str_lit t ty _ text) = λ S.
      (number_string (string_number S.qbe_strings text) text >>= λ id. pure (str_lit t ty id text))
        S
  qbe_collect_strings (func_def t n ps b ty) =
      qbe_collect_strings b >>= λ b'. pure (func_def t n ps b' ty)
  qbe_collect_strings (compound t ss) = collect_list ss >>= λ ss'. pure (compound t ss')
  qbe_collect_strings (expr_stmt t e) = qbe_collect_strings e >>= λ e'. pure (expr_stmt t e')
  qbe_collect_strings (return_stmt t e) = qbe_collect_strings e >>= λ e'. pure (return_stmt t e')
  qbe_collect_strings (binary t ty a b op) =
      qbe_collect_strings a >>= λ a'. qbe_collect_strings b >>= λ b'. pure (binary t ty a' b' op)
  qbe_collect_strings (assign t ty a b op) =
      qbe_collect_strings a >>= λ a'. qbe_collect_strings b >>= λ b'. pure (assign t ty a' b' op)
  qbe_collect_strings (unary t ty e op) = qbe_collect_strings e >>= λ e'. pure (unary t ty e' op)
  qbe_collect_strings (postfix t ty e op) =
      qbe_collect_strings e >>= λ e'. pure (postfix t ty e' op)
  qbe_collect_strings (call t ty f args) =
      qbe_collect_strings f >>= λ f'. collect_list args >>= λ args'. pure (call t ty f' args')
  qbe_collect_strings (index t ty b i) =
      qbe_collect_strings b >>= λ b'. qbe_collect_strings i >>= λ i'. pure (index t ty b' i')
  qbe_collect_strings (if_stmt t c m e) = qbe_collect_strings c >>= λ c'.
      qbe_collect_strings m >>= λ m'. qbe_collect_strings e >>= λ e'. pure (if_stmt t c' m' e')
  qbe_collect_strings (while_stmt t c m) =
      qbe_collect_strings c >>= λ c'. qbe_collect_strings m >>= λ m'. pure (while_stmt t c' m')
  qbe_collect_strings (do_stmt t c m) =
      qbe_collect_strings c >>= λ c'. qbe_collect_strings m >>= λ m'. pure (do_stmt t c' m')
  qbe_collect_strings (for_stmt t i c p m) = qbe_collect_strings i >>= λ i'.
      qbe_collect_strings c >>= λ c'.
      qbe_collect_strings p >>= λ p'. qbe_collect_strings m >>= λ m'. pure (for_stmt t i' c' p' m')
  qbe_collect_strings (switch_stmt t c m) =
      qbe_collect_strings c >>= λ c'. qbe_collect_strings m >>= λ m'. pure (switch_stmt t c' m')
  qbe_collect_strings (case_stmt t v m) =
      qbe_collect_strings v >>= λ v'. qbe_collect_strings m >>= λ m'. pure (case_stmt t v' m')
  qbe_collect_strings (default_stmt t m) = qbe_collect_strings m >>= λ m'. pure (default_stmt t m')
  qbe_collect_strings (var_decl t id n ty i) =
      qbe_collect_strings i >>= λ i'. pure (var_decl t id n ty i')
  qbe_collect_strings (cast t ty e to i) = qbe_collect_strings e >>= λ e'. pure (cast t ty e' to i)
  qbe_collect_strings (conditional t ty c x y) = qbe_collect_strings c >>= λ c'.
      qbe_collect_strings x >>= λ x'.
      qbe_collect_strings y >>= λ y'. pure (conditional t ty c' x' y')
  qbe_collect_strings (comma_expr t ty a b) =
      qbe_collect_strings a >>= λ a'. qbe_collect_strings b >>= λ b'. pure (comma_expr t ty a' b')
  qbe_collect_strings n = pure n

  pub collect_list : NodeList → Collect NodeList
  collect_list nil = pure nil
  collect_list (cons n ns) =
      qbe_collect_strings n >>= λ n'. collect_list ns >>= λ ns'. pure (cons n' ns')

-- What stands in the output: the data of a string, and a function with its name, the class that it
-- returns, its parameters and its lines.
pub data Item : Type 0 where
  string_data : ℕ → Bytes → Item
  function : Bytes → QbeType → List (QbeType × ℕ) → List Instr → Item

unfoldable pub qbe_emit_string_data : List (Bytes × ℕ) → List Item
qbe_emit_string_data [] = []
qbe_emit_string_data ((text, id) ∷ strings) =
    string_data id (escape_text text) ∷ qbe_emit_string_data strings

-- The parameters of a function, and the lines that store them into their slots.
abbrev pub param_list : NodeList → List (QbeType × ℕ)
param_list nil = []
param_list (cons (param _ id t _) ps) = (class_of t, id) ∷ param_list ps
param_list (cons _ ps) = param_list ps

abbrev pub param_lines : NodeList → List Instr
param_lines nil = []
param_lines (cons (param _ id t _) ps) =
    alloc_var id (alloc_op (kind_of t)) (type_size t)
    ∷ store_param (store_op (kind_of t)) id
    ∷ param_lines ps
param_lines (cons _ ps) = param_lines ps

-- The slots of the variables that the body itself declares.
abbrev pub slot_lines : NodeList → List Instr
slot_lines nil = []
slot_lines (cons (var_decl _ id _ t _) ss) =
    alloc_var id (alloc_op (kind_of t)) (type_size t) ∷ slot_lines ss
slot_lines (cons _ ss) = slot_lines ss

abbrev pub body_statements : Node → NodeList
body_statements (compound _ ss) = ss
body_statements _ = nil

abbrev pub final_ret : NodeList → List Instr
final_ret ss = if last_ends ss then [] else ret_zero ∷ []

-- The emitter in front of the body of a function.
abbrev pub function_start : (Node → Bytes) → Emitter
function_start names = record { qbe_tmp = 0; qbe_ctx = []; qbe_labels = []; label_name = names }

pub data Written : Type 0 where
  written : List Item → Written
  aborted : EmitError → Written

abbrev pub function_item : Node → CType → NodeList → Node → Emitted Unit → Written → Written
function_item name t ps body (stopped e) rest = aborted e
function_item name t ps body (emitted code _ _) (aborted e) = aborted e
function_item name t ps body (emitted code _ _) (written items) = written (
    function (token_text (node_tok name)) (class_of (type_or t ty_int)) (param_list ps) (
      param_lines ps
      ++ slot_lines (body_statements body)
      ++ code
      ++ final_ret (body_statements body))
    ∷ items)

-- The loop of `qbe_emit` over the functions. Each leaves the stack of loops as it was, empty.
unfoldable pub emit_functions : (Node → Bytes) → NodeList → Written
emit_functions names nil = written []
emit_functions names (cons (func_def _ name ps body t) ns) =
    function_item name t ps body (qbe_stmt body (function_start names)) (emit_functions names ns)
emit_functions names (cons _ ns) = emit_functions names ns

abbrev pub no_strings : Strings
no_strings = record { qbe_strings = []; qbe_str_total = 0 }

abbrev pub behind_strings : List Item → Written → Written
behind_strings strings (written items) = written (strings ++ items)
behind_strings strings (aborted e) = aborted e

unfoldable pub qbe_emit : (Node → Bytes) → NodeList → Written
qbe_emit names decls =
    let collected = collect_list decls no_strings in
    behind_strings (qbe_emit_string_data collected.1.qbe_strings) (emit_functions names collected.0)
