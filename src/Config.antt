-- ===== src/Config.antt =====
-- omnistack-core/src/config.rs: the configuration that is read from JSON files. `JsonValue` is the crate
-- json's: an interface. `debug` is the build profile.
pub mod Load
use Prim.Native.Char.{code}
use Prim.Native.String.{String}
use text.Mathlib.Text.{◌==◌ as str_eq}
use omni_stack_rust.Base.{
  ℕ, ◌+◌, ◌/◌, ◌%◌, ltb, Bool, true, false, Option, none, some, List, [], ◌∷◌, ◌++◌, Outcome, ok,
  panic, ◌>>=◌, or_panic, if◌then◌else◌,
}
use omni_stack_rust.Base.Word.{u8_mod, u16_mod}
use omni_stack_rust.Protocol.Addr.{Ipv4Addr, Parsed, parsed, rejected, from_str}
use omni_stack_rust.Protocol.Route.{Route}
use omni_stack_rust.Protocol.Route

pub record GraphConfig : Type 0 where
  pub name : String
  pub modules : List String
  pub links : List (String × String)

pub record GraphEntry : Type 0 where
  pub name : String
  pub cpus : List ℕ

pub record NicConfig : Type 0 where
  pub adapter_name : String
  pub port : ℕ
  pub ipv4 : Ipv4Addr
  pub netmask : Ipv4Addr

pub record StackConfig : Type 0 where
  pub name : String
  pub nics : List NicConfig
  pub routes : List Route
  pub graphs : List GraphEntry

-- The crate's `JsonValue`: a missing field and a missing element are null, and what is no array has no
-- members. A string has a text; a number need not be a `u32`.
pub record Json : Type 1 where
  pub Value : Type 0
  pub field : Value → String → Value
  pub element : Value → ℕ → Value
  pub members : Value → List Value
  pub is_null : Value → Bool
  pub is_number : Value → Bool
  pub is_string : Value → Bool
  pub as_u32 : Value → Option ℕ
  pub as_str : Value → Option String

-- The UTF-8 bytes of a text.
utf8_char : ℕ → List ℕ
utf8_char c =
    if ltb c 0x80
    then c ∷ []
    else if ltb c 0x800
    then (0xC0 + c / 64) ∷ (0x80 + c % 64) ∷ []
    else if ltb c 0x10000
    then (0xE0 + c / 4096) ∷ (0x80 + c / 64 % 64) ∷ (0x80 + c % 64) ∷ []
    else (0xF0 + c / 262144) ∷ (0x80 + c / 4096 % 64) ∷ (0x80 + c / 64 % 64) ∷ (0x80 + c % 64) ∷ []

unfoldable pub utf8 : String → List ℕ
unfolding utf8_char
utf8 String.[] = []
utf8 (String.◌∷◌ c s) = utf8_char (code c) ++ utf8 s

-- `iter().map(..).collect()` with a function that may panic.
unfoldable pub collect : {A B : Type 0} → (A → Outcome B) → List A → Outcome (List B)
collect f [] = ok []
collect f (x ∷ xs) = do y ← f x; ys ← collect f xs; ok (y ∷ ys)

-- `parse::<Ipv4Addr>().unwrap()`.
unwrap_ipv4 : Parsed → Outcome Ipv4Addr
unwrap_ipv4 (parsed a) = ok a
unwrap_ipv4 (rejected e) = panic

unfoldable pub parse_ipv4 : String → Outcome Ipv4Addr
unfolding utf8 unwrap_ipv4
parse_ipv4 s = do r ← from_str (utf8 s); unwrap_ipv4 r

module _ (J : Json) where
  open J use {Value, field, element, members, is_null, is_number, is_string, as_u32, as_str}

  unfoldable pub json_require_value : Value → String → Outcome Value
  json_require_value v key = if is_null (field v key) then panic else ok (field v key)

  unfoldable pub json_assert_number : Value → Outcome ℕ
  json_assert_number v = if is_number v then or_panic (as_u32 v) else panic

  unfoldable pub json_require_number : Value → String → Outcome ℕ
  unfolding json_require_value
  json_require_number v key = do
    v ← json_require_value v key
    if is_number v then or_panic (as_u32 v) else panic

  unfoldable pub json_assert_str : Value → Outcome String
  json_assert_str v = if is_string v then or_panic (as_str v) else panic

  unfoldable pub json_require_str : Value → String → Outcome String
  unfolding json_require_value
  json_require_str v key = do
    v ← json_require_value v key
    if is_string v then or_panic (as_str v) else panic

  link_from : Value → Outcome (String × String)
  unfolding json_assert_str
  link_from l = do
    src ← json_assert_str (element l 0)
    dst ← json_assert_str (element l 1)
    ok (src, dst)

  unfoldable pub graph_config_from : Value → Outcome GraphConfig
  unfolding json_require_str link_from collect
  graph_config_from v = do
    name ← json_require_str v "name"
    modules ← json_require_value v "modules"
    modules ← collect json_assert_str (members modules)
    links ← json_require_value v "links"
    links ← collect link_from (members links)
    ok (record { name = name; modules = modules; links = links })

  unfoldable pub graph_entry_from : Value → Outcome GraphEntry
  unfolding json_require_str json_assert_number collect
  graph_entry_from v = do
    name ← json_require_str v "name"
    cpus ← json_require_value v "cpus"
    cpus ← collect json_assert_number (members cpus)
    ok (record { name = name; cpus = cpus })

  -- `port` is cut to 16 bits by `as`.
  unfoldable pub nic_config_from : Value → Outcome NicConfig
  unfolding json_require_str json_require_number parse_ipv4
  nic_config_from v = do
    adapter_name ← json_require_str v "adapter_name"
    port ← json_require_number v "port"
    ipv4 ← json_require_str v "ipv4"
    ipv4 ← parse_ipv4 ipv4
    netmask ← json_require_str v "netmask"
    netmask ← parse_ipv4 netmask
    ok (record {
      adapter_name = adapter_name;
      port = port % u16_mod;
      ipv4 = ipv4;
      netmask = netmask;
    })

  unfoldable pub route_from : Bool → Value → Outcome Route
  unfolding json_require_str json_require_number parse_ipv4
  route_from debug v = do
    ipv4 ← json_require_str v "ipv4"
    ipv4 ← parse_ipv4 ipv4
    cidr ← json_require_number v "cidr"
    nic ← json_require_number v "nic"
    Route.new debug ipv4 (cidr % u8_mod) (nic % u16_mod)

  unfoldable pub stack_config_from : Bool → Value → Outcome StackConfig
  unfolding json_require_str nic_config_from route_from graph_entry_from collect
  stack_config_from debug v = do
    name ← json_require_str v "name"
    nics ← json_require_value v "nics"
    nics ← collect nic_config_from (members nics)
    routes ← json_require_value v "routes"
    routes ← collect (route_from debug) (members routes)
    graphs ← json_require_value v "graphs"
    graphs ← collect graph_entry_from (members graphs)
    ok (record { name = name; nics = nics; routes = routes; graphs = graphs })
