-- ===== src/MiniCc/Bridge/Chains.antt =====
-- What `stmtlist_push` of mini-cc/src/clang_bridge.c keeps.
use micro_colorschemes.Prelude.{◌≡◌, refl, ap, ◌∙◌, List, [], ◌∷◌, ◌++◌}
use micro_colorschemes.MiniCc.Ast.{Stmt, Stmts, no_stmts, add_stmt}
use micro_colorschemes.MiniCc.Bridge.{empty_list, chain, stmtlist_push, push_all, head_of}

-- The chains one behind the other.
abbrev pub joined_stmts : Stmts → Stmts → Stmts
joined_stmts no_stmts t = t
joined_stmts (add_stmt s ss) t = add_stmt s (joined_stmts ss t)

abbrev pub all_joined : List Stmts → Stmts
all_joined [] = no_stmts
all_joined (s ∷ ss) = joined_stmts s (all_joined ss)

pub data IsShort : Stmts → Type 0 where
  short_empty : IsShort no_stmts
  short_one : {s : Stmt} → IsShort (add_stmt s no_stmts)

pub data AllShort : List Stmts → Type 0 where
  short_nil : AllShort []
  short_cons : {s : Stmts} {ss : List Stmts} → IsShort s → AllShort ss → AllShort (s ∷ ss)

chain-append : (xs ys : List Stmt) (t : Stmts) → chain (xs ++ ys) t ≡ chain xs (chain ys t)
chain-append [] ys t = refl
chain-append (x ∷ xs) ys t = ap (add_stmt x) (chain-append xs ys t)

-- From a list whose tail has one statement.
push_all-one :
    (front : List Stmt) (t : Stmt) (ss : List Stmts)
    → AllShort ss
    → head_of (push_all (record { front = front; tail = add_stmt t no_stmts }) ss)
      ≡ chain front (add_stmt t (all_joined ss))
unfolding stmtlist_push
push_all-one front t _ short_nil = refl
push_all-one front t _ (short_cons {ss} short_empty h) = push_all-one front t ss h
push_all-one front t _ (short_cons {ss} (short_one {s}) h) =
    push_all-one (front ++ t ∷ []) s ss h ∙ chain-append front (t ∷ []) (add_stmt s (all_joined ss))

-- If every statement of a block is lowered to one statement or to none, the block's list keeps all of
-- them, in order.
pub push_all-AllShort :
    (ss : List Stmts) → AllShort ss → head_of (push_all empty_list ss) ≡ all_joined ss
unfolding stmtlist_push
push_all-AllShort _ short_nil = refl
push_all-AllShort _ (short_cons {ss} short_empty h) = push_all-AllShort ss h
push_all-AllShort _ (short_cons {ss} (short_one {s}) h) = push_all-one [] s ss h

-- A list keeps what stands in front of its tail.
push_all-front :
    (x : Stmt) (front : List Stmt) (t : Stmts) (ss : List Stmts)
    → head_of (push_all (record { front = x ∷ front; tail = t }) ss)
      ≡ add_stmt x (head_of (push_all (record { front = front; tail = t }) ss))
unfolding stmtlist_push
push_all-front x front t [] = refl
push_all-front x front t (no_stmts ∷ ss) = push_all-front x front t ss
push_all-front x front no_stmts (add_stmt s ss ∷ rest) = push_all-front x front (add_stmt s ss) rest
push_all-front x front (add_stmt t ts) (add_stmt s ss ∷ rest) =
    push_all-front x (front ++ t ∷ []) (add_stmt s ss) rest

-- A statement that is lowered to several, as `int a, b;` is, keeps only the first of them if another
-- statement follows that is lowered to any.
pub push_all-lost :
    (a u : Stmt) (rest us : Stmts) (ss : List Stmts)
    → head_of (push_all empty_list (add_stmt a rest ∷ add_stmt u us ∷ ss))
      ≡ add_stmt a (head_of (push_all empty_list (add_stmt u us ∷ ss)))
unfolding stmtlist_push
push_all-lost a u rest us ss = push_all-front a [] (add_stmt u us) ss
