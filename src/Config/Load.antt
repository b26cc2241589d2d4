-- ===== src/Config/Load.antt =====
-- omnistack-core/src/config.rs, `ConfigManager`: the configurations that are loaded, found by their names.
-- What the file system and the crate json give is the input.
pub mod Laws
mod Tests
use Prim.Native.String.{String}
use text.Mathlib.Text.{◌==◌ as str_eq}
use omni_stack_rust.Base.{
  ℕ, Bool, true, false, Option, none, some, List, [], ◌∷◌, ◌++◌, Outcome, ok, panic, ◌>>=◌,
  or_panic, if◌then◌else◌,
}
use omni_stack_rust.Config.{
  GraphConfig, StackConfig, Json, json_require_str, graph_config_from, stack_config_from,
}

pub record ConfigManager : Type 0 where
  pub graph_configs : List GraphConfig
  pub stack_configs : List StackConfig

module _ {A : Type 0} (name_of : A → String) where
  -- `iter().find(|g| g.name == name)`.
  unfoldable pub find_named : String → List A → Option A
  find_named name [] = none
  find_named name (x ∷ xs) = if str_eq (name_of x) name then some x else find_named name xs

  add_unless : Option A → A → List A → List A
  add_unless none x xs = xs ++ x ∷ []
  add_unless (some _) x xs = xs

  -- A configuration whose name is taken is skipped.
  unfoldable pub add_new : A → List A → List A
  unfolding add_unless find_named
  add_new x xs = add_unless (find_named (name_of x) xs) x xs

unfoldable pub get_graph_config : String → ConfigManager → Option GraphConfig
unfolding find_named
get_graph_config name m = find_named (λ g. g.name) name m.graph_configs

unfoldable pub get_stack_config : String → ConfigManager → Option StackConfig
unfolding find_named
get_stack_config name m = find_named (λ s. s.name) name m.stack_configs

module _ (J : Json) (debug : Bool) where
  -- A file, with what `json::parse` makes of its text; a directory; or a path that cannot be read.
  mutual
    pub data Entry : Type 0 where
      file : Option J.Value → Entry
      directory : Entries → Entry
      unreadable : Entry

    pub data Entries : Type 0 where
      done : Entries
      entry : Entry → Entries → Entries

  load_graph : J.Value → ConfigManager → Outcome ConfigManager
  unfolding add_new
  load_graph config m = do
    g ← graph_config_from J config
    ok (record m { graph_configs = add_new (λ g. g.name) g m.graph_configs })

  load_stack : J.Value → ConfigManager → Outcome ConfigManager
  unfolding add_new
  load_stack config m = do
    s ← stack_config_from J debug config
    ok (record m { stack_configs = add_new (λ s. s.name) s m.stack_configs })

  load_typed : String → J.Value → ConfigManager → Outcome ConfigManager
  unfolding load_graph load_stack
  load_typed config_type config m =
      if str_eq config_type "Graph"
      then load_graph config m
      else if str_eq config_type "Stack"
      then load_stack config m
      else ok m

  unfoldable pub load_file : Option J.Value → ConfigManager → Outcome ConfigManager
  unfolding load_typed
  load_file parsed m = do
    config ← or_panic parsed
    config_type ← json_require_str J config "type"
    load_typed config_type config m

  unfoldable mutual
    unfolding load_file

    pub load_entry : Entry → ConfigManager → Outcome ConfigManager
    load_entry (file parsed) m = load_file parsed m
    load_entry (directory es) m = load_dir es m
    load_entry unreadable m = panic

    pub load_dir : Entries → ConfigManager → Outcome ConfigManager
    load_dir done m = ok m
    load_dir (entry e es) m = load_entry e m >>= λ m. load_dir es m
