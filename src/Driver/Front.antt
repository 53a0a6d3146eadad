-- ===== src/Driver/Front.antt =====
-- `driver_compile_qbe` of qbebasedcompiler/src/driver.c: the lexer, the parser, the analysis and the
-- emitter, one behind the other.
use micro_colorschemes.Prelude.{ℕ, [], Bytes, none, some}
use micro_colorschemes.Lexer.{lexer_init}
use micro_colorschemes.Ast.{no_type, Node, translation_unit, NodeList, nil}
use micro_colorschemes.Parser.State.{Outcome, done, failed, no_fuel}
use micro_colorschemes.Parser.Unit.{parse_file}
use micro_colorschemes.Sema.Scopes.{Sema}
use micro_colorschemes.Sema.Monad.{Result, ok, err}
use micro_colorschemes.Sema.Stmt.Program.{sema_program}
use micro_colorschemes.Qbe.Program.{Written, written, aborted, qbe_emit}
use micro_colorschemes.Driver.System.{
  Message, parse_error, sema_error, emit_error, cannot_open, program, System, returned, exits,
  unfinished, D,
}
use micro_colorschemes.Driver.Tools.{message}

-- What the parser and the emitter read that is not set: see `Parser` and `Emitter`. The fuel is that
-- of `parse_file`.
pub record Unset : Type 0 where
  pub union_value : Node → ℕ
  pub label_name : Node → Bytes
  pub levels : ℕ
  pub rounds : ℕ

-- `memset(&S, 0, sizeof(S))`; the numbers of the types go on behind the parser's.
abbrev pub sema_start : ℕ → Sema
sema_start id = record {
  scope = [];
  current_func_ret = no_type;
  tmp_counter = 0;
  local_counter = 0;
  global_counter = 0;
  next_id = id;
}

abbrev pub decls_of : Node → NodeList
decls_of (translation_unit _ ds) = ds
decls_of _ = nil

-- The frontend up to the analysis: the declarations, or the message before `exit(1)`.
pub data Front : Type 0 where
  analysed : NodeList → Front
  refused : Message → Front
  no_end : Front

abbrev pub front_sema : Result (NodeList × Sema) → Front
front_sema (ok (ds, S)) = analysed ds
front_sema (err e) = refused (sema_error e)

abbrev pub front_parse : Outcome Node → Front
front_parse (done root P) = front_sema (sema_program (decls_of root) (sema_start P.next_id))
front_parse (failed e) = refused (parse_error e)
front_parse no_fuel = no_end

unfoldable pub frontend : Unset → Bytes → Bytes → Front
frontend u src filename =
    front_parse (parse_file u.levels u.rounds (lexer_init src filename) u.union_value)

module _ {W : Type 0} (os : System W) where
  -- Behind the emitter: an aborted run ends the process.
  abbrev pub emitted_to : {A : Type 0} → A → Written → D W A
  emitted_to a (written items) d = returned a d
  emitted_to a (aborted e) d = exits 1 (message os (emit_error e) d)

  abbrev pub write_program : Bytes → Written → D W ℕ
  write_program path w d = elim (os.write path (program w) d.world) [
    | some next ↦ emitted_to 0 w (record d { world = next })
    | none ↦ returned 1 (message os (cannot_open path) d)
  ]

  -- The declarations to the next step, unless the process ends.
  abbrev pub with_front : {A : Type 0} → Front → (NodeList → D W A) → D W A
  with_front (analysed ds) k d = k ds d
  with_front (refused m) k d = exits 1 (message os m d)
  with_front no_end k d = unfinished

  unfoldable pub driver_compile_qbe : Unset → Bytes → Bytes → Bytes → D W ℕ
  driver_compile_qbe u src filename qbe_path =
      with_front (frontend u src filename) (λ ds. write_program qbe_path (qbe_emit u.label_name ds))

  -- `-emit-qbe`: the same to stdout.
  unfoldable pub print_qbe : Unset → Bytes → Bytes → D W ℕ
  print_qbe u src filename = with_front (frontend u src filename) (λ ds d.
      let w = qbe_emit u.label_name ds in
      emitted_to 0 w (record d { world = os.put_out (program w) d.world }))
