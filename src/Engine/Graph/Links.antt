-- ===== src/Engine/Graph/Links.antt =====
-- engine.rs, `Graph::new`: where the links of its nodes lead.
use Prim.Native.String.{String}
use omni_stack_rust.Base.{
  ℕ, zero, suc, ◌<◌, ◌≡◌, refl, sym, ap, ◌∙◌, inl, inr, Bool, true, false, Option, none, some, List,
  [], ◌∷◌, ◌++◌, ok, >>=-eq-ok, or_panic, length, get_elem?, set, length-set, All, arith,
  ok-injective, Option-cases, ◌==◌, or_panic-eq-ok, ==_iff, get_elem?-set_self, get_elem?-set_ne,
  lt_get_elem?, ◌≢◌, subst,
}
use mathlib.Core.List.{append-nil, append_assoc}
use omni_stack_rust.Config.{GraphConfig}
use omni_stack_rust.Engine.Graph.{
  Node, max_links, find_index, build_nodes, push_link, link_at, add_links, new_nodes,
}

find_index-lt :
    (name : String) (ms : List String) {i : ℕ} → find_index name ms ≡ some i → i < length ms
unfolding find_index
find_index-lt name [] e = absurd (cc)
find_index-lt name (m ∷ ms) {i} e = elim (Option-cases (find_index name ms)) [
  | inl none_left ↦ ground (arith, none_left)
  | inr (j, found) ↦ ground (arith, found, find_index-lt name ms found)
]

-- Where the links of the configuration lead from node `i`, in order.
abbrev add_target : Bool → Option ℕ → List ℕ → List ℕ
add_target true (some j) rest = j ∷ rest
add_target _ _ rest = rest

abbrev is_at : Option ℕ → ℕ → Bool
is_at none i = false
is_at (some j) i = j == i

pub outgoing : List String → ℕ → List (String × String) → List ℕ
outgoing ms i [] = []
outgoing ms i ((src, dst) ∷ links) =
    add_target (is_at (find_index src ms) i) (find_index dst ms) (outgoing ms i links)

add_target-append :
    (same : Bool) (o : Option ℕ) (rest : List ℕ)
    → add_target same o [] ++ rest ≡ add_target same o rest
add_target-append true none rest = refl
add_target-append true (some j) rest = refl
add_target-append false o rest = refl

module _ {ℓ} {A : Type ℓ} where
  abbrev links_of : Option (Node A) → List ℕ
  links_of none = []
  links_of (some n) = n.links_to

  abbrev pub links_at : List (Node A) → ℕ → List ℕ
  links_at nodes i = links_of (get_elem? nodes i)

  abbrev handler_of : Option (Node A) → Option A
  handler_of none = none
  handler_of (some n) = some n.handler

  -- What one link does.
  record Linked (src dst : ℕ) (nodes : List (Node A)) (nodes' : List (Node A)) : Type ℓ where
    node : Node A
    at : get_elem? nodes src ≡ some node
    room : length node.links_to < max_links
    result : nodes' ≡ set nodes src (record node { links_to = node.links_to ++ dst ∷ [] })

  push_link-eq-ok :
      (dst : ℕ) (n m : Node A)
      → push_link dst n ≡ ok m
      → (length n.links_to < max_links) × (m ≡ record n { links_to = n.links_to ++ dst ∷ [] })
  unfolding push_link
  push_link-eq-ok dst n m e = ground arith

  link_at-Linked :
      (src dst : ℕ) (nodes : List (Node A)) {nodes' : List (Node A)}
      → link_at src dst nodes ≡ ok nodes'
      → Linked src dst nodes nodes'
  unfolding link_at
  link_at-Linked src dst nodes e =
      let (n, found, e1) = >>=-eq-ok (or_panic (get_elem? nodes src)) _ e in
      let (m, pushed, e2) = >>=-eq-ok (push_link dst n) _ e1 in
      let (room, made) = push_link-eq-ok dst n m pushed in
      record {
        node = n;
        at = or_panic-eq-ok (get_elem? nodes src) found;
        room = room;
        result = sym (ok-injective e2) ∙ ap (set nodes src) made;
      }

  links_at-set :
      (src dst i : ℕ) (nodes : List (Node A)) (n : Node A) (same : Bool)
      → (src == i) ≡ same
      → get_elem? nodes src ≡ some n
      → links_at (set nodes src (record n { links_to = n.links_to ++ dst ∷ [] })) i
        ≡ links_at nodes i ++ add_target same (some dst) []
  links_at-set src dst i nodes n true e at =
      let here = (==_iff src i).0 e in
      ap links_of (
        ap (get_elem? (set nodes src _)) (sym here)
        ∙ get_elem?-set_self nodes src _ (lt_get_elem? nodes src at))
      ∙ ap (λ o. links_of o ++ dst ∷ []) (sym at ∙ ap (get_elem? nodes) here)
  links_at-set src dst i nodes n false e at =
      let apart : src ≢ i = λ same. absurd (cc (e, (==_iff src i).1 same)) in
      ap links_of (get_elem?-set_ne nodes src i _ apart) ∙ sym (append-nil _)

  links_at-Linked :
      (src dst i : ℕ) {nodes nodes' : List (Node A)}
      → Linked src dst nodes nodes'
      → links_at nodes' i ≡ links_at nodes i ++ add_target (src == i) (some dst) []
  links_at-Linked src dst i {nodes} l =
      ap (λ ns. links_at ns i) l.result ∙ links_at-set src dst i nodes l.node (src == i) refl l.at

  length-Linked :
      (src dst : ℕ) {nodes nodes' : List (Node A)}
      → Linked src dst nodes nodes'
      → length nodes' ≡ length nodes
  length-Linked src dst {nodes} l = ap length l.result ∙ length-set nodes src _

  -- What `Graph::new` makes of the modules and the links.
  pub record Graphed (modules : List String) (links : List (String × String))
      (before after : List (Node A)) : Type ℓ where
    pub same_length : length after ≡ length before
    pub follows : (i : ℕ) → links_at after i ≡ links_at before i ++ outgoing modules i links

  add_links-Graphed :
      (modules : List String) (links : List (String × String)) (nodes : List (Node A))
      {after : List (Node A)}
      → add_links modules links nodes ≡ ok after
      → Graphed modules links nodes after
  unfolding add_links outgoing
  add_links-Graphed modules [] nodes {after} e = record {
    same_length = ap length (sym (ok-injective e));
    follows = λ i. ap (λ ns. links_at ns i) (sym (ok-injective e)) ∙ sym (append-nil _);
  }
  add_links-Graphed modules ((src, dst) ∷ links) nodes {after} e =
      let (s, at_s, e1) = >>=-eq-ok (or_panic (find_index src modules)) _ e in
      let (d, at_d, e2) = >>=-eq-ok (or_panic (find_index dst modules)) _ e1 in
      let (mid, linked, e3) = >>=-eq-ok (link_at s d nodes) _ e2 in
      let found_s = or_panic-eq-ok (find_index src modules) at_s in
      let found_d = or_panic-eq-ok (find_index dst modules) at_d in
      let l = link_at-Linked s d nodes linked in
      let ih = add_links-Graphed modules links mid e3 in
      record {
        same_length = ih.same_length ∙ length-Linked s d l;
        follows = λ i.
            ih.follows i
            ∙ ap (λ xs. xs ++ outgoing modules i links) (links_at-Linked s d i l)
            ∙ append_assoc (links_at nodes i) _ _
            ∙ ap (λ xs. links_at nodes i ++ xs)
                (add_target-append (s == i) (some d) _
                  ∙ ap (λ o. add_target (is_at o i) (some d) (outgoing modules i links))
                      (sym found_s)
                  ∙ ap
                      (λ o.
                        add_target (is_at (find_index src modules) i) o (outgoing modules i links))
                      (sym found_d));
      }

  build_nodes-bare :
      (builders : String → Option A) (ms : List String) {nodes : List (Node A)}
      → build_nodes builders ms ≡ ok nodes
      → (length nodes ≡ length ms) × ((i : ℕ) → links_at nodes i ≡ [])
  unfolding build_nodes
  build_nodes-bare builders [] e =
      (ap length (sym (ok-injective e)), λ i. ap (λ ns. links_at ns i) (sym (ok-injective e)))
  build_nodes-bare builders (m ∷ ms) e =
      let (a, built, e1) = >>=-eq-ok (or_panic (builders m)) _ e in
      let (rest, built_rest, e2) = >>=-eq-ok (build_nodes builders ms) _ e1 in
      let (same, bare) = build_nodes-bare builders ms built_rest in
      (
        ap length (sym (ok-injective e2)) ∙ ap suc same,
        λ i. ap (λ ns. links_at ns i) (sym (ok-injective e2)) ∙ bare_cons a rest bare i,
      )
    where
      bare_cons :
          (a : A) (rest : List (Node A))
          → ((i : ℕ) → links_at rest i ≡ [])
          → (i : ℕ) → links_at (record { handler = a; links_to = [] } ∷ rest) i ≡ []
      bare_cons a rest bare zero = refl
      bare_cons a rest bare (suc i) = bare i

outgoing-closed :
    (ms : List String) (i : ℕ) (links : List (String × String))
    → All (λ j. j < length ms) (outgoing ms i links)
unfolding outgoing
outgoing-closed ms i [] = tt
outgoing-closed ms i ((src, dst) ∷ links) =
    closed_target (is_at (find_index src ms) i) (find_index dst ms) _
      (λ j e. find_index-lt dst ms e) (outgoing-closed ms i links)
  where
    closed_target :
        (same : Bool) (o : Option ℕ) (rest : List ℕ)
        → ((j : ℕ) → o ≡ some j → j < length ms)
        → All (λ j. j < length ms) rest
        → All (λ j. j < length ms) (add_target same o rest)
    closed_target true none rest h all = all
    closed_target true (some j) rest h all = (h j refl, all)
    closed_target false o rest h all = all

-- Where `Graph::new` returns, node `i` is linked, in order, to the nodes that the configuration links the
-- `i`-th module to (modules are found by name, the first of a name), there is one node for each module,
-- and every link leads to one of the nodes.
pub new_nodes-outgoing {ℓ} :
    {A : Type ℓ} (builders : String → Option A) (config : GraphConfig) {nodes : List (Node A)}
    → new_nodes builders config ≡ ok nodes
    → (length nodes ≡ length config.modules)
      × ((i : ℕ)
          → (links_at nodes i ≡ outgoing config.modules i config.links)
            × All (λ j. j < length nodes) (links_at nodes i))
unfolding new_nodes
new_nodes-outgoing builders config {nodes} e =
    let (bare, built, e1) = >>=-eq-ok (build_nodes builders config.modules) _ e in
    let (same, no_links) = build_nodes-bare builders config.modules built in
    let g = add_links-Graphed config.modules config.links bare e1 in
    let count = g.same_length ∙ same in
    let follows = λ (i : ℕ).
      g.follows i ∙ ap (λ xs. xs ++ outgoing config.modules i config.links) (no_links i) in
    (
      count,
      λ i. (
        follows i,
        subst (λ n. All (λ j. j < n) (links_at nodes i)) (sym count)
            (subst (All (λ j. j < length config.modules)) (sym (follows i))
              (outgoing-closed config.modules i config.links)),
      ),
    )
