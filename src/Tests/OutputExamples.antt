-- ===== src/Tests/OutputExamples.antt =====
-- The theorems on the tables of parser.c and qbe.c and on mini-cc at small inputs.
use micro_colorschemes.Driver.{strrchr, driver_derive_name}
use micro_colorschemes.Driver.Laws.{driver_derive_name-path}
use micro_colorschemes.Prelude.{◌≤◌, ◌≡◌, ◌↔◌, refl, true, false, [], ◌∷◌, ◌++◌, codes, none, arith}
use micro_colorschemes.Ast.{ty_kind_int, ty_kind_double}
use micro_colorschemes.Qbe.Strings.{escape_text}
use micro_colorschemes.Qbe.Strings.Escapes.{unescape, plain, unescape-escape_text}
use micro_colorschemes.Parser.Tables.{int_literal_type, has_u}
use micro_colorschemes.Parser.Tables.Laws.{max_of, int_literal_type-max_of}
use micro_colorschemes.Qbe.Convert.Laws.{gives_class, is_sound, qbe_convert-is_sound}
use micro_colorschemes.MiniCc.Ast.{Func, Program, stmt_return, null_expr, add_stmt, no_stmts}
use micro_colorschemes.MiniCc.Print.{program_print}
use micro_colorschemes.MiniCc.Verify.{sema_check}
use micro_colorschemes.MiniCc.Verify.Laws.{is_complete, sema_check-complete_iff}

unescape-escape_text_example : unescape plain (escape_text (codes "a\n\\")) ≡ codes "a\n\\"
unescape-escape_text_example = unescape-escape_text (codes "a\n\\") refl

abbrev no_value : Program
no_value =
    record { name = codes "f"; params = []; body = add_stmt (stmt_return null_expr) no_stmts } ∷ []

sema_check-complete_iff_example :
    (sema_check no_value ≡ none) ↔ (is_complete (program_print no_value) ≡ true)
sema_check-complete_iff_example = sema_check-complete_iff no_value

digits-no-u : has_u (codes "3000000000") ≡ false
unfolding has_u
digits-no-u = refl

int_literal_type-max_of_example :
    3000000000 ≤ max_of (int_literal_type 3000000000 (codes "3000000000"))
int_literal_type-max_of_example =
    int_literal_type-max_of 3000000000 (codes "3000000000") (omega arith) digits-no-u

qbe_convert-is_sound_example :
    gives_class ty_kind_double ty_kind_int false ≡ is_sound ty_kind_double ty_kind_int
qbe_convert-is_sound_example = qbe_convert-is_sound ty_kind_double ty_kind_int false refl refl

abbrev empty_func : Func
empty_func = record { name = codes "g"; params = []; body = no_stmts }

no_slash : strrchr (codes "a.b" ++ b'.' ∷ codes "c") b'/' ≡ none
unfolding strrchr
no_slash = refl

no_backslash : strrchr (codes "a.b" ++ b'.' ∷ codes "c") b'\\' ≡ none
unfolding strrchr
no_backslash = refl

no_dot : strrchr (codes "c") b'.' ≡ none
unfolding strrchr
no_dot = refl

driver_derive_name-path_example :
    driver_derive_name (codes "x\\y.d" ++ b'/' ∷ (codes "a.b" ++ b'.' ∷ codes "c")) (codes ".s")
    ≡ codes "a.b" ++ codes ".s"
driver_derive_name-path_example =
    driver_derive_name-path (codes "x\\y.d") (codes "a.b") (codes "c") (codes ".s") no_slash
      no_backslash no_dot
