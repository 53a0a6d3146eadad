-- ===== src/Qbe/Program/Numbers/Walk.antt =====
-- The strings in a tree behind `qbe_collect_strings` of qbebasedcompiler/src/qbe.c.
use micro_colorschemes.Prelude.{◌≤◌, [], ◌∷◌, ◌++◌, ◌≡◌, refl}
use micro_colorschemes.Ast.{
  Node, func_def, var_decl, compound, expr_stmt, if_stmt, while_stmt, do_stmt, for_stmt,
  switch_stmt, case_stmt, default_stmt, return_stmt, str_lit, binary, unary, postfix, assign, call,
  index, cast, conditional, comma_expr, NodeList, nil, cons,
}
use micro_colorschemes.Qbe.Program.{
  Strings, Collect, ◌>>=◌, pure, qbe_collect_strings, collect_list, no_strings,
}
use micro_colorschemes.Qbe.Program.Numbers.{
  Pairs, AllFound, IsFull, counted_nil, all_nil, AllFound-append, AllFound-Extends, Numbers,
  Numbers-run, Anything, Numbers-bind, Numbers-pure, Kept, kept, Numbers-frame, number-Numbers,
  RunNumbers,
}

-- The texts and numbers of the strings that `qbe_collect_strings` comes to.
unfoldable mutual
  pub strings_in : Node → Pairs
  strings_in (str_lit _ _ id text) = (text, id) ∷ []
  strings_in (func_def _ _ _ b _) = strings_in b
  strings_in (expr_stmt _ e) = strings_in e
  strings_in (return_stmt _ e) = strings_in e
  strings_in (unary _ _ e _) = strings_in e
  strings_in (postfix _ _ e _) = strings_in e
  strings_in (default_stmt _ m) = strings_in m
  strings_in (var_decl _ _ _ _ i) = strings_in i
  strings_in (cast _ _ e _ _) = strings_in e
  strings_in (compound _ ss) = strings_of ss
  strings_in (call _ _ f args) = strings_in f ++ strings_of args
  strings_in (binary _ _ a b _) = strings_in a ++ strings_in b
  strings_in (assign _ _ a b _) = strings_in a ++ strings_in b
  strings_in (index _ _ b i) = strings_in b ++ strings_in i
  strings_in (while_stmt _ c m) = strings_in c ++ strings_in m
  strings_in (do_stmt _ c m) = strings_in c ++ strings_in m
  strings_in (switch_stmt _ c m) = strings_in c ++ strings_in m
  strings_in (case_stmt _ v m) = strings_in v ++ strings_in m
  strings_in (comma_expr _ _ a b) = strings_in a ++ strings_in b
  strings_in (if_stmt _ c m e) = (strings_in c ++ strings_in m) ++ strings_in e
  strings_in (conditional _ _ c x y) = (strings_in c ++ strings_in x) ++ strings_in y
  strings_in (for_stmt _ i c p m) = ((strings_in i ++ strings_in c) ++ strings_in p) ++ strings_in m
  strings_in _ = []

  pub strings_of : NodeList → Pairs
  strings_of nil = []
  strings_of (cons n ns) = strings_in n ++ strings_of ns

-- Every string of the result has its number.
abbrev Found : {A : Type 0} → (A → Pairs) → A → Strings → Type 0
Found f a S = AllFound S (f a)

abbrev Numbered : {A : Type 0} → (A → Pairs) → Collect A → Type 0
Numbered f m = Numbers Anything (Found f) m

Kept-AllFound : (l : Pairs) → Kept (λ S. AllFound S l)
Kept-AllFound l = kept (λ S T x h. AllFound-Extends l x h)

module _ {A B : Type 0} (f : A → Pairs) (g : B → Pairs) where
  Numbered-map :
      (m : Collect A) (h : A → B)
      → ((a : A) → g (h a) ≡ f a)
      → Numbered f m
      → Numbered g (m >>= λ a. pure (h a))
  Numbered-map m h e n = Numbers-bind m _ n (λ a. Numbers-pure (h a) (λ S found. rw (e a) found))

module _ {A B D : Type 0} (f : A → Pairs) (g : B → Pairs) (d : D → Pairs) where
  -- Two results, and both of their strings.
  Numbered-both :
      (m : Collect A) (k : Collect B) (h : A → B → D)
      → ((a : A) (b : B) → d (h a b) ≡ f a ++ g b)
      → Numbered f m
      → Numbered g k
      → Numbered d (m >>= λ a. k >>= λ b. pure (h a b))
  Numbered-both m k h e n o = Numbers-bind m _ n (λ a.
      Numbers-bind k _ (Numbers-frame k (Kept-AllFound (f a)) o)
        (λ b. Numbers-pure (h a b) (λ S p. rw (e a b) (AllFound-append (f a) (g b) p.0 p.1))))

Kept-both : {C D : Strings → Type 0} → Kept C → Kept D → Kept (λ S. C S × D S)
Kept-both (kept f) (kept g) = kept (λ S T x p. (f S T x p.0, g S T x p.1))

module _ {k l m : Collect Node} (h : Node → Node → Node → Node) where
  Numbered-three :
      ((a b c : Node) → strings_in (h a b c) ≡ (strings_in a ++ strings_in b) ++ strings_in c)
      → Numbered strings_in k
      → Numbered strings_in l
      → Numbered strings_in m
      → Numbered strings_in (k >>= λ a. l >>= λ b. m >>= λ c. pure (h a b c))
  Numbered-three e hk hl hm = Numbers-bind k _ hk (λ a.
      Numbers-bind l _ (Numbers-frame l (Kept-AllFound (strings_in a)) hl) (λ b.
        Numbers-bind m _
          (Numbers-frame m (Kept-both (Kept-AllFound (strings_in a)) (Kept-AllFound (strings_in b)))
            hm)
          (λ c.
            Numbers-pure (h a b c)
              (λ S p. rw (e a b c) (AllFound-append _ _ (AllFound-append _ _ p.0.0 p.0.1) p.1)))))

module _ {i k l m : Collect Node} (h : Node → Node → Node → Node → Node) where
  Numbered-four :
      ((a b c d : Node)
        → strings_in (h a b c d) ≡ ((strings_in a ++ strings_in b) ++ strings_in c) ++ strings_in d)
      → Numbered strings_in i
      → Numbered strings_in k
      → Numbered strings_in l
      → Numbered strings_in m
      → Numbered strings_in (i >>= λ a. k >>= λ b. l >>= λ c. m >>= λ d. pure (h a b c d))
  Numbered-four e hi hk hl hm = Numbers-bind i _ hi (λ a.
      Numbers-bind k _ (Numbers-frame k (Kept-AllFound (strings_in a)) hk) (λ b.
        let two = Kept-both (Kept-AllFound (strings_in a)) (Kept-AllFound (strings_in b)) in
        Numbers-bind l _ (Numbers-frame l two hl) (λ c.
          Numbers-bind m _ (Numbers-frame m (Kept-both two (Kept-AllFound (strings_in c))) hm) (λ d.
            Numbers-pure (h a b c d) (λ S p. rw (e a b c d) (
              AllFound-append _ _ (AllFound-append _ _ (AllFound-append _ _ p.0.0.0 p.0.0.1) p.0.1)
                p.1))))))

mutual
  unfolding strings_in qbe_collect_strings

  collect-Numbered : (n : Node) → Numbered strings_in (qbe_collect_strings n)
  collect-Numbered (str_lit t ty _ text) =
      Numbers-bind _ _ (number-Numbers text) (λ id. Numbers-pure (str_lit t ty id text) (λ S h. h))
  collect-Numbered (func_def t n ps b ty) =
      Numbered-map strings_in strings_in _ (λ b'. func_def t n ps b' ty) (λ a. refl)
        (collect-Numbered b)
  collect-Numbered (expr_stmt t e) =
      Numbered-map strings_in strings_in _ (λ e'. expr_stmt t e') (λ a. refl) (collect-Numbered e)
  collect-Numbered (return_stmt t e) =
      Numbered-map strings_in strings_in _ (λ e'. return_stmt t e') (λ a. refl) (collect-Numbered e)
  collect-Numbered (unary t ty e op) =
      Numbered-map strings_in strings_in _ (λ e'. unary t ty e' op) (λ a. refl) (collect-Numbered e)
  collect-Numbered (postfix t ty e op) =
      Numbered-map strings_in strings_in _ (λ e'. postfix t ty e' op) (λ a. refl)
        (collect-Numbered e)
  collect-Numbered (default_stmt t m) =
      Numbered-map strings_in strings_in _ (λ m'. default_stmt t m') (λ a. refl)
        (collect-Numbered m)
  collect-Numbered (var_decl t id n ty i) =
      Numbered-map strings_in strings_in _ (λ i'. var_decl t id n ty i') (λ a. refl)
        (collect-Numbered i)
  collect-Numbered (cast t ty e to i) =
      Numbered-map strings_in strings_in _ (λ e'. cast t ty e' to i) (λ a. refl)
        (collect-Numbered e)
  collect-Numbered (compound t ss) =
      Numbered-map strings_of strings_in _ (λ ss'. compound t ss') (λ a. refl) (list-Numbered ss)
  collect-Numbered (call t ty f args) =
      Numbered-both strings_in strings_of strings_in _ _ (λ f' args'. call t ty f' args')
        (λ a b. refl) (collect-Numbered f) (list-Numbered args)
  collect-Numbered (binary t ty a b op) =
      Numbered-both strings_in strings_in strings_in _ _ (λ a' b'. binary t ty a' b' op)
        (λ a b. refl) (collect-Numbered a) (collect-Numbered b)
  collect-Numbered (assign t ty a b op) =
      Numbered-both strings_in strings_in strings_in _ _ (λ a' b'. assign t ty a' b' op)
        (λ a b. refl) (collect-Numbered a) (collect-Numbered b)
  collect-Numbered (index t ty b i) =
      Numbered-both strings_in strings_in strings_in _ _ (λ b' i'. index t ty b' i') (λ a b. refl)
        (collect-Numbered b) (collect-Numbered i)
  collect-Numbered (while_stmt t c m) =
      Numbered-both strings_in strings_in strings_in _ _ (λ c' m'. while_stmt t c' m') (λ a b. refl)
        (collect-Numbered c) (collect-Numbered m)
  collect-Numbered (do_stmt t c m) =
      Numbered-both strings_in strings_in strings_in _ _ (λ c' m'. do_stmt t c' m') (λ a b. refl)
        (collect-Numbered c) (collect-Numbered m)
  collect-Numbered (switch_stmt t c m) =
      Numbered-both strings_in strings_in strings_in _ _ (λ c' m'. switch_stmt t c' m')
        (λ a b. refl) (collect-Numbered c) (collect-Numbered m)
  collect-Numbered (case_stmt t v m) =
      Numbered-both strings_in strings_in strings_in _ _ (λ v' m'. case_stmt t v' m') (λ a b. refl)
        (collect-Numbered v) (collect-Numbered m)
  collect-Numbered (comma_expr t ty a b) =
      Numbered-both strings_in strings_in strings_in _ _ (λ a' b'. comma_expr t ty a' b')
        (λ a b. refl) (collect-Numbered a) (collect-Numbered b)
  collect-Numbered (if_stmt t c m e) =
      Numbered-three (λ c' m' e'. if_stmt t c' m' e') (λ a b c. refl) (collect-Numbered c)
        (collect-Numbered m) (collect-Numbered e)
  collect-Numbered (conditional t ty c x y) =
      Numbered-three (λ c' x' y'. conditional t ty c' x' y') (λ a b c. refl) (collect-Numbered c)
        (collect-Numbered x) (collect-Numbered y)
  collect-Numbered (for_stmt t i c p m) =
      Numbered-four (for_stmt t) (λ a b c d. refl) (collect-Numbered i) (collect-Numbered c)
        (collect-Numbered p) (collect-Numbered m)
  collect-Numbered n = Numbers-pure n (λ S h. all_nil)

  list-Numbered : (ns : NodeList) → Numbered strings_of (collect_list ns)
  list-Numbered nil = Numbers-pure nil (λ S h. all_nil)
  list-Numbered (cons n ns) =
      Numbered-both strings_in strings_of strings_of _ _ (λ n' ns'. cons n' ns') (λ a b. refl)
        (collect-Numbered n) (list-Numbered ns)

pub collect_list-AllFound :
    (ns : NodeList)
    → (collect_list ns no_strings).1.qbe_str_total ≤ 1024
    → IsFull (collect_list ns no_strings).1
      × AllFound (collect_list ns no_strings).1 (strings_of (collect_list ns no_strings).0)
unfolding RunNumbers
collect_list-AllFound ns few =
    let run = (Numbers-run (list-Numbered ns) no_strings).1 (refl, counted_nil) few tt in
    (run.0, run.2)
