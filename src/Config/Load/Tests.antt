-- ===== src/Config/Load/Tests.antt =====
-- config.rs, `ConfigManager`: a run on a small directory.
use Prim.Native.String.{String}
use text.Mathlib.Text.{◌==◌ as str_eq}
use omni_stack_rust.Base.{◌≡◌, refl, ok, some, none, [], ◌∷◌, true, false, if◌then◌else◌}
use omni_stack_rust.Config.{Json, json_require_str, graph_config_from}
use omni_stack_rust.Config.Load.{ConfigManager, Entries, file, directory, done, entry, load_dir}
use omni_stack_rust.Config.Load.Laws.{Kept, load_dir-Kept}

-- Every value is a text, the type is "Graph", and no array has members.
abbrev texts : Json
texts = record {
  Value = String;
  field = λ v key. if str_eq key "type" then "Graph" else v;
  element = λ v i. v;
  members = λ v. [];
  is_null = λ v. false;
  is_number = λ v. false;
  is_string = λ v. true;
  as_u32 = λ v. none;
  as_str = λ v. some v;
}

-- Two files, and a directory with a file of a name that is taken.
abbrev three_files : Entries texts true
three_files =
    entry (file (some "a"))
      (entry (directory (entry (file (some "a")) done)) (entry (file (some "b")) done))

abbrev loaded : ConfigManager
loaded = record {
  graph_configs =
      record { name = "a"; modules = []; links = [] }
      ∷ record { name = "b"; modules = []; links = [] }
      ∷ [];
  stack_configs = [];
}

abbrev nothing : ConfigManager
nothing = record { graph_configs = []; stack_configs = [] }

three_loaded : load_dir texts true three_files nothing ≡ ok loaded
unfolding load_dir json_require_str graph_config_from
three_loaded = refl

load_dir-Kept_example : Kept texts true nothing loaded
load_dir-Kept_example = load_dir-Kept texts true three_files nothing three_loaded
