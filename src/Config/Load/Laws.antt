-- ===== src/Config/Load/Laws.antt =====
-- config.rs, `ConfigManager`: the names the configurations are kept under.
use Prim.Native.String.{String}
use text.Mathlib.Text.{◌==◌ as str_eq}
use text.Mathlib.TextEquality.{eq_iff}
use omni_stack_rust.Base.{
  ◌≡◌, refl, ◌∙◌, subst, Bool, true, false, Option, none, some, List, [], ◌∷◌, ◌++◌, ok, >>=-eq-ok,
  ok-injective, or_panic, if◌then◌else◌, All,
}
use omni_stack_rust.Config.{
  GraphConfig, StackConfig, Json, json_require_str, graph_config_from, stack_config_from,
}
use omni_stack_rust.Config.Load.{
  ConfigManager, find_named, add_unless, add_new, get_graph_config, get_stack_config, Entry,
  Entries, load_graph, load_stack, load_typed, load_file, load_entry, load_dir,
}

module _ {A : Type 0} (name_of : A → String) where
  find_named-append :
      (name : String) (xs ys : List A) {x : A}
      → find_named name_of name xs ≡ some x
      → find_named name_of name (xs ++ ys) ≡ some x
  unfolding find_named
  find_named-append name [] ys e = absurd (cc)
  find_named-append name (y ∷ xs) ys e =
      go (str_eq (name_of y) name) e (λ x h. find_named-append name xs ys h)
    where
      go :
          (b : Bool) {x : A}
          → (if b then some y else find_named name_of name xs) ≡ some x
          → ((x : A)
              → find_named name_of name xs ≡ some x
              → find_named name_of name (xs ++ ys) ≡ some x)
          → (if b then some y else find_named name_of name (xs ++ ys)) ≡ some x
      go true e ih = e
      go false e ih = ih _ e

  find_named-end :
      (name : String) (xs ys : List A)
      → find_named name_of name xs ≡ none
      → find_named name_of name (xs ++ ys) ≡ find_named name_of name ys
  unfolding find_named
  find_named-end name [] ys e = refl
  find_named-end name (y ∷ xs) ys e = go (str_eq (name_of y) name) e (find_named-end name xs ys)
    where
      go :
          (b : Bool)
          → (if b then some y else find_named name_of name xs) ≡ none
          → (find_named name_of name xs ≡ none
              → find_named name_of name (xs ++ ys) ≡ find_named name_of name ys)
          → (if b then some y else find_named name_of name (xs ++ ys)) ≡ find_named name_of name ys
      go true e ih = absurd (cc)
      go false e ih = ih e

  find_named_self : (x : A) → find_named name_of (name_of x) (x ∷ []) ≡ some x
  unfolding find_named
  find_named_self x = rw ((eq_iff (name_of x) (name_of x)).1 refl)

  -- Every configuration is the one that its name finds.
  abbrev pub IsUnique : List A → Type 0
  IsUnique xs = All (λ x. find_named name_of (name_of x) xs ≡ some x) xs

  -- What adding a configuration does to the table of them.
  pub record Added (x : A) (xs ys : List A) : Type 0 where
    pub kept :
        (name : String) (y : A)
        → find_named name_of name xs ≡ some y
        → find_named name_of name ys ≡ some y
    pub taken : (y : A) → find_named name_of (name_of x) xs ≡ some y → ys ≡ xs
    pub new : find_named name_of (name_of x) xs ≡ none → find_named name_of (name_of x) ys ≡ some x
    pub unique : IsUnique xs → IsUnique ys

  All-map : {P Q : A → Type 0} (xs : List A) → ((x : A) → P x → Q x) → All P xs → All Q xs
  All-map [] f all = tt
  All-map (x ∷ xs) f (h, all) = (f x h, All-map xs f all)

  All-end : (P : A → Type 0) (xs : List A) (x : A) → All P xs → P x → All P (xs ++ x ∷ [])
  All-end P [] x all h = (h, tt)
  All-end P (y ∷ ys) x (here, all) h = (here, All-end P ys x all h)

  pub add_new-Added : (x : A) (xs : List A) → Added x xs (add_new name_of x xs)
  unfolding add_new add_unless
  add_new-Added x xs = go (find_named name_of (name_of x) xs) refl
    where
      go :
          (o : Option A)
          → find_named name_of (name_of x) xs ≡ o
          → Added x xs (add_unless name_of o x xs)
      go none e =
          let found = find_named-end (name_of x) xs (x ∷ []) e ∙ find_named_self x in
          record {
            kept = λ name y h. find_named-append name xs (x ∷ []) h;
            taken = λ y h. absurd (cc);
            new = λ _. found;
            unique = λ u.
                All-end _ xs x (All-map xs (λ y h. find_named-append (name_of y) xs (x ∷ []) h) u)
                  found;
          }
      go (some z) e = record {
        kept = λ name y h. h;
        taken = λ y h. refl;
        new = λ h. absurd (cc);
        unique = λ u. u;
      }

module _ (J : Json) (debug : Bool) where
  -- What loading keeps: every name that was found is found as before, and unique names stay unique.
  pub record Kept (m m' : ConfigManager) : Type 0 where
    pub graphs :
        (name : String) (g : GraphConfig)
        → get_graph_config name m ≡ some g
        → get_graph_config name m' ≡ some g
    pub stacks :
        (name : String) (s : StackConfig)
        → get_stack_config name m ≡ some s
        → get_stack_config name m' ≡ some s
    pub unique_graphs :
        IsUnique (λ g. g.name) m.graph_configs → IsUnique (λ g. g.name) m'.graph_configs
    pub unique_stacks :
        IsUnique (λ s. s.name) m.stack_configs → IsUnique (λ s. s.name) m'.stack_configs

  Kept-refl : (m : ConfigManager) → Kept m m
  Kept-refl m = record {
    graphs = λ n g e. e;
    stacks = λ n s e. e;
    unique_graphs = λ u. u;
    unique_stacks = λ u. u;
  }

  Kept-trans : {l m n : ConfigManager} → Kept l m → Kept m n → Kept l n
  Kept-trans a b = record {
    graphs = λ n g e. b.graphs n g (a.graphs n g e);
    stacks = λ n s e. b.stacks n s (a.stacks n s e);
    unique_graphs = λ u. b.unique_graphs (a.unique_graphs u);
    unique_stacks = λ u. b.unique_stacks (a.unique_stacks u);
  }

  load_graph-Kept :
      (config : J.Value) (m : ConfigManager) {m' : ConfigManager}
      → load_graph J debug config m ≡ ok m'
      → Kept m m'
  unfolding load_graph get_graph_config get_stack_config
  load_graph-Kept config m e =
      let (g, read, e1) = >>=-eq-ok (graph_config_from J config) _ e in
      let a = add_new-Added (λ (g : GraphConfig). g.name) g m.graph_configs in
      subst (Kept m) (ok-injective e1) (record {
        graphs = λ n g e. a.kept n g e;
        stacks = λ n s e. e;
        unique_graphs = a.unique;
        unique_stacks = λ u. u;
      })

  load_stack-Kept :
      (config : J.Value) (m : ConfigManager) {m' : ConfigManager}
      → load_stack J debug config m ≡ ok m'
      → Kept m m'
  unfolding load_stack get_stack_config get_graph_config
  load_stack-Kept config m e =
      let (s, read, e1) = >>=-eq-ok (stack_config_from J debug config) _ e in
      let a = add_new-Added (λ (s : StackConfig). s.name) s m.stack_configs in
      subst (Kept m) (ok-injective e1) (record {
        graphs = λ n g e. e;
        stacks = λ n s e. a.kept n s e;
        unique_graphs = λ u. u;
        unique_stacks = a.unique;
      })

  load_typed-Kept :
      (config_type : String) (config : J.Value) (m : ConfigManager) {m' : ConfigManager}
      → load_typed J debug config_type config m ≡ ok m'
      → Kept m m'
  unfolding load_typed
  load_typed-Kept config_type config m e =
      go (str_eq config_type "Graph") (str_eq config_type "Stack") e
    where
      go :
          (g s : Bool) {m' : ConfigManager}
          → (if g
              then load_graph J debug config m
              else if s
              then load_stack J debug config m
              else ok m)
            ≡ ok m'
          → Kept m m'
      go true s e = load_graph-Kept config m e
      go false true e = load_stack-Kept config m e
      go false false e = subst (Kept m) (ok-injective e) (Kept-refl m)

  load_file-Kept :
      (parsed : Option J.Value) (m : ConfigManager) {m' : ConfigManager}
      → load_file J debug parsed m ≡ ok m'
      → Kept m m'
  unfolding load_file
  load_file-Kept parsed m e =
      let (config, read, e1) = >>=-eq-ok (or_panic parsed) _ e in
      let (config_type, typed, e2) = >>=-eq-ok (json_require_str J config "type") _ e1 in
      load_typed-Kept config_type config m e2

  mutual
    unfolding load_entry load_dir

    load_entry-Kept :
        (x : Entry J debug) (m : ConfigManager) {m' : ConfigManager}
        → load_entry J debug x m ≡ ok m'
        → Kept m m'
    load_entry-Kept (Entry.file parsed) m e = load_file-Kept parsed m e
    load_entry-Kept (Entry.directory es) m e = dir-Kept es m e
    load_entry-Kept Entry.unreadable m e = absurd (cc)

    dir-Kept :
        (es : Entries J debug) (m : ConfigManager) {m' : ConfigManager}
        → load_dir J debug es m ≡ ok m'
        → Kept m m'
    dir-Kept Entries.done m e = subst (Kept m) (ok-injective e) (Kept-refl m)
    dir-Kept (Entries.entry x es) m e =
        let (mid, one, e1) = >>=-eq-ok (load_entry J debug x m) _ e in
        Kept-trans (load_entry-Kept x m one) (dir-Kept es mid e1)

  -- Where loading a directory ends, at whatever depth and in whatever order its files lie: a configuration
  -- that was found by its name is found as before, and if each was the one that its name finds, so is each now.
  pub load_dir-Kept :
      (es : Entries J debug) (m : ConfigManager) {m' : ConfigManager}
      → load_dir J debug es m ≡ ok m'
      → Kept m m'
  load_dir-Kept es m e = dir-Kept es m e
