-- ===== src/Tests/DriverExamples.antt =====
-- The theorems on the driver, at the program `int main(){}` and a machine whose assembler fails.
use micro_colorschemes.Prelude.{
  refl, true, List, [], ◌∷◌, Bytes, codes, none, some, bytes_eq, if◌then◌else◌, arith,
}
use micro_colorschemes.Token.Keywords.{lookup_keyword}
use micro_colorschemes.Lexer.{lexer_init}
use micro_colorschemes.Lexer.Trivia.{skip_trivia}
use micro_colorschemes.Lexer.Punct.{punct}
use micro_colorschemes.Lexer.Next.{next_token, scan_token}
use micro_colorschemes.Ast.{NodeList, nil}
use micro_colorschemes.Parser.State.{
  Parser, Outcome, done, no_fuel, ◌>>=◌, ◌>>◌, on_kind, pure, current, advanced, parse_expect,
  parse_advance, if_check, if_state, has_name, parse_is_typedef_name, parse_match, new_type_id,
}
use micro_colorschemes.Parser.Tables.{parse_is_type_keyword, parse_starts_decl}
use micro_colorschemes.Parser.Types.{
  at_specifier, specifier_loop, parse_decl_specifiers, parse_declarator, specified_type, see,
  star_loop, array_loop, declared_name, void_or_params, function_suffix, param_loop,
}
use micro_colorschemes.Parser.Stmt.{parse_compound, block_loop}
use micro_colorschemes.Parser.Unit.{
  parse_external_decl, external_tail, level, unit_loop, parser_start, parse_file,
  function_definition, external_rest, parse_translation_unit,
}
use micro_colorschemes.Sema.Scopes.{sema_enter_scope, sema_leave_scope, sema_declare}
use micro_colorschemes.Sema.Stmt.{sema_stmt}
use micro_colorschemes.Sema.Stmt.Program.{sema_program}
use micro_colorschemes.Qbe.Stmt.{qbe_stmt}
use micro_colorschemes.Qbe.Program.{
  Item, Written, written, qbe_emit, collect_list, emit_functions, qbe_emit_string_data,
}
use micro_colorschemes.Driver.{strrchr}
use micro_colorschemes.Driver.System.{exited, Driver}
use micro_colorschemes.Driver.Options.{
  Options, no_options, read_options, flag_option, paired_option, single_option, option_at,
}
use micro_colorschemes.Driver.Options.Laws.{ParsedFits, read_options-ParsedFits, room}
use micro_colorschemes.Driver.Tools.{c_string}
use micro_colorschemes.Driver.Front.{Unset, Front, analysed, frontend}
use micro_colorschemes.Driver.Main.{driver_main}
use micro_colorschemes.Driver.Main.Plan.{Machine, recorder, run_all, plan}
use micro_colorschemes.Driver.Main.Recorded.{Log, EndsWith}
use micro_colorschemes.Driver.Main.Laws.{driver_main-plan}

-- The assembler is the system's `as`; it exits with 1. The preprocessor's output is there behind the
-- preprocessor.
abbrev machine : Machine
machine = record {
  link = codes "/opt/minicc";
  has = λ p mode. bytes_eq p (codes "/opt/ld.exe");
  ends = λ w argv. elim argv [
    | [] ↦ exited 0
    | tool ∷ args ↦ if bytes_eq tool (codes "as") then exited 1 else exited 0
  ];
  holds = λ p w. elim w [ [] ↦ none | argv ∷ argvs ↦ some (codes "int main(){}") ];
  can_write = λ p w. true;
}

abbrev unset : Unset
unset = record { union_value = λ n. 0; label_name = λ n. []; levels = 9; rounds = 9 }

abbrev compile_only : Options
compile_only = record no_options { input = some (codes "a.c"); emit_obj_only = true }

abbrev at_start : Driver Log
at_start = record { world = []; driver_bin_dir = []; tool_buf = []; bin_buf = [] }

abbrev front_decls : Front → NodeList
front_decls (analysed ds) = ds
front_decls _ = nil

abbrev main_decls : NodeList
main_decls = front_decls (frontend unset (c_string (codes "int main(){}")) (codes "a.c"))

abbrev items_of : Written → List Item
items_of (written items) = items
items_of _ = []

driver_main-plan_example :
    EndsWith
      (driver_main
        (recorder machine)
        unset
        (codes "minicc")
        (codes "-c" ∷ codes "a.c" ∷ [])
        at_start)
      (run_all machine (plan machine (codes "/opt") compile_only (codes "a.c")) [])
unfolding lexer_init next_token skip_trivia scan_token punct lookup_keyword
    micro_colorschemes.Parser.State.◌>>=◌ on_kind current advanced parse_advance parse_match
    if_check if_state parse_expect has_name parse_is_typedef_name parse_is_type_keyword
    parse_starts_decl see specified_type at_specifier specifier_loop parse_decl_specifiers star_loop
    array_loop declared_name void_or_params function_suffix parse_declarator param_loop
    parse_compound block_loop function_definition external_rest external_tail parse_external_decl
    level unit_loop parse_translation_unit parser_start parse_file frontend c_string sema_program
    sema_stmt sema_leave_scope sema_enter_scope sema_declare bytes_eq pure
    micro_colorschemes.Qbe.Emit.pure new_type_id qbe_emit collect_list emit_functions
    qbe_emit_string_data qbe_stmt strrchr read_options micro_colorschemes.Driver.Options.option_at
    flag_option paired_option single_option
driver_main-plan_example =
    driver_main-plan machine unset (codes "minicc") compile_only (codes "a.c")
      (codes "-c" ∷ codes "a.c" ∷ []) (codes "int main(){}") main_decls
      (items_of (qbe_emit unset.label_name main_decls)) at_start refl refl refl refl refl refl refl

abbrev arguments : List Bytes
arguments = codes "-c" ∷ codes "-I" ∷ codes "include" ∷ codes "-DX" ∷ codes "a.c" ∷ []

read_options-ParsedFits_example : ParsedFits (read_options (codes "minicc") no_options arguments)
read_options-ParsedFits_example =
    read_options-ParsedFits (codes "minicc") no_options arguments (room (omega arith))
