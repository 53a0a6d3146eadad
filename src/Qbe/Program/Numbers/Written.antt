-- ===== src/Qbe/Program/Numbers/Written.antt =====
-- The data that `qbe_emit_string_data` of qbebasedcompiler/src/qbe.c prints, and the strings of the
-- program.
use micro_colorschemes.Prelude.{
  ℕ, suc, ◌≤◌, ◌≡◌, sym, ap, ◌∙◌, Bool-cases, inl, inr, some, List, [], ◌∷◌, Bytes, bytes_eq,
  bytes_eq_iff, if◌then◌else◌,
}
use micro_colorschemes.Ast.{NodeList}
use micro_colorschemes.Qbe.Strings.{escape_text}
use micro_colorschemes.Qbe.Program.{
  Strings, string_number, collect_list, no_strings, Item, string_data, qbe_emit_string_data,
}
use micro_colorschemes.Qbe.Program.Numbers.{
  Pairs, AllFound, all_nil, all_cons, AreCounted, counted_cons,
}
use micro_colorschemes.Qbe.Program.Numbers.Walk.{strings_of, collect_list-AllFound}

-- An item of the output is there.
pub data IsWritten (i : Item) : List Item → Type 0 where
  first : {items : List Item} → IsWritten i (i ∷ items)
  later : {j : Item} {items : List Item} → IsWritten i items → IsWritten i (j ∷ items)

-- The data of each text are there, under its number.
pub data AllWritten (items : List Item) : Pairs → Type 0 where
  all_written : AllWritten items []
  one_written :
      {text : Bytes} {id : ℕ} {l : Pairs}
      → IsWritten (string_data id (escape_text text)) items
      → AllWritten items l
      → AllWritten items ((text, id) ∷ l)

string_number-IsWritten :
    (l : Pairs) (text : Bytes) (id : ℕ)
    → string_number l text ≡ some id
    → IsWritten (string_data id (escape_text text)) (qbe_emit_string_data l)
unfolding qbe_emit_string_data
string_number-IsWritten [] text id h = cc
string_number-IsWritten ((stored, n) ∷ l) text id h = elim (Bool-cases (bytes_eq stored text)) [
  | inl e ↦
      let same : some n ≡ some id =
        ap (λ b. if b then some n else string_number l text) (sym e) ∙ h in
      let number : n ≡ id = cc in
      let text_there : stored ≡ text = (bytes_eq_iff stored text).0 e in
      rw (sym number) (rw (sym text_there) first)
  | inr e ↦ later (
      string_number-IsWritten l text id
        (sym (ap (λ b. if b then some n else string_number l text) e) ∙ h))
]

AllFound-AllWritten :
    (S : Strings) (l : Pairs) → AllFound S l → AllWritten (qbe_emit_string_data S.qbe_strings) l
AllFound-AllWritten S [] all_nil = all_written
AllFound-AllWritten S ((text, id) ∷ l) (all_cons e h) =
    one_written (string_number-IsWritten S.qbe_strings text id e) (AllFound-AllWritten S l h)

-- The items are data under the numbers `i`, `i + 1` and so on, one under each.
pub data DataFrom : ℕ → List Item → Type 0 where
  no_data : {i : ℕ} → DataFrom i []
  next_data :
      {i : ℕ} {items : List Item} (b : Bytes)
      → DataFrom (suc i) items
      → DataFrom i (string_data i b ∷ items)

AreCounted-DataFrom : (l : Pairs) (i : ℕ) → AreCounted i l → DataFrom i (qbe_emit_string_data l)
unfolding qbe_emit_string_data
AreCounted-DataFrom [] i c = no_data
AreCounted-DataFrom ((text, id) ∷ l) i (counted_cons e c) =
    rw e (next_data (escape_text text) (AreCounted-DataFrom l (suc i) c))

-- If `qbe_collect_strings` gives at most 1024 numbers for a program, then `qbe_emit_string_data`
-- prints data under the numbers 0, 1, 2 and so on, one under each number, and for each string that
-- `qbe_collect_strings` comes to, the data under the number in its node are its text.
pub collect_list-AllWritten :
    (ns : NodeList)
    → (collect_list ns no_strings).1.qbe_str_total ≤ 1024
    → DataFrom 0 (qbe_emit_string_data (collect_list ns no_strings).1.qbe_strings)
      × AllWritten
          (qbe_emit_string_data (collect_list ns no_strings).1.qbe_strings)
          (strings_of (collect_list ns no_strings).0)
collect_list-AllWritten ns few =
    let (full, found) = collect_list-AllFound ns few in
    (
      AreCounted-DataFrom (collect_list ns no_strings).1.qbe_strings 0 full.1,
      AllFound-AllWritten (collect_list ns no_strings).1 (strings_of (collect_list ns no_strings).0)
          found,
    )
