-- ===== src/Engine/Registry.antt =====
-- omnistack-core/src/module.rs: the factory of modules. A builder makes a module in its first state.
mod Tests
use Prim.Native.String.{String}
use text.Mathlib.Text.{◌==◌ as str_eq}
use text.Mathlib.TextEquality.{eq_iff}
use omni_stack_rust.Base.{
  ◌≡◌, Bool, true, false, Option, none, some, List, [], ◌∷◌, ◌++◌, arith, refl, ◌∙◌, ap,
  if◌then◌else◌,
}

-- `HashMap<&'static str, ModuleBuildFn>`.
abbrev pub Factory {ℓ} : Type ℓ → Type ℓ
Factory A = List (String × A)

module _ {ℓ} {A : Type ℓ} where
  -- `build_module`; `none` is the `unwrap` of a name that is not registered.
  unfoldable pub build_module : Factory A → String → Option A
  build_module [] name = none
  build_module ((k, f) ∷ builders) name =
      if str_eq k name then some f else build_module builders name

  is_some : Option A → Bool
  is_some none = false
  is_some (some a) = true

  replace_builder : String → A → Factory A → Factory A
  replace_builder id f [] = (id, f) ∷ []
  replace_builder id f ((k, g) ∷ builders) =
      if str_eq k id then (k, f) ∷ builders else (k, g) ∷ replace_builder id f builders

  -- `register`: the builder replaces one of the same name, of which the flag warns.
  unfoldable pub register : String → A → Factory A → Factory A × Bool
  unfolding replace_builder is_some
  register id f builders = (replace_builder id f builders, is_some (build_module builders id))

  -- The constructors that the derive macro places run one after another before `main`.
  unfoldable pub register_all : List (String × A) → Factory A → Factory A
  unfolding register
  register_all [] builders = builders
  register_all ((id, f) ∷ rest) builders = register_all rest (register id f builders).0

  replaced :
      (id : String) (f : A) (builders : Factory A) (name : String)
      → build_module (replace_builder id f builders) name
        ≡ (if str_eq id name then some f else build_module builders name)
  unfolding build_module replace_builder
  replaced id f [] name = refl
  replaced id f ((k, g) ∷ builders) name =
      ground (arith, eq_iff id name, eq_iff k id, eq_iff k name, replaced id f builders name)

  -- The last registration of a name, or what was there before.
  abbrev pub last_of : List (String × A) → String → Option A → Option A
  last_of [] name before = before
  last_of ((id, f) ∷ rest) name before =
      last_of rest name (if str_eq id name then some f else before)

  -- Whatever modules register, in whatever order, a name is built by the last builder that was registered
  -- for it, and the other names are built as before.
  pub register_all-last :
      (regs : List (String × A)) (builders : Factory A) (name : String)
      → build_module (register_all regs builders) name
        ≡ last_of regs name (build_module builders name)
  unfolding register_all
  register_all-last [] builders name = refl
  register_all-last ((id, f) ∷ rest) builders name =
      register_all-last rest (register id f builders).0 name
      ∙ ap (last_of rest name) (replaced id f builders name)
