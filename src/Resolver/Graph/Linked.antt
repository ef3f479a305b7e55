-- ===== src/Resolver/Graph/Linked.antt =====
-- What an expansion keeps of the nodes, the edges and the packages visited.
use cartridge_runtime.Prelude.{
  ℕ, ◌≤◌, true, false, ◌||◌, none, some, List, [], ◌∷◌, ◌++◌, map, length, is_some, All, All-append,
  ◌≡◌, refl, subst, inl, inr, Bool-cases, arith,
}
use cartridge_runtime.Prelude.Text.{Text, text_ord, text_eq_iff}
use cartridge_runtime.Prelude.Strings.{member}
use cartridge_runtime.Prelude.Map.{Map}
use cartridge_runtime.Resolver.Types.{
  UnavailableDependency, GraphNode, GraphEdge, ApprovedGraph, Key, key_eq, has_key, max_graph_nodes,
}
use cartridge_runtime.Resolver.Graph.{Search, lookup}

abbrev pub node_key : GraphNode → Key
node_key n = (n.cartridge_id, n.version)

abbrev pub instances : List GraphNode → List Text
instances = map (λ n. n.instance_name)

-- Both ends of an edge are among the names.
abbrev pub Joins : List Text → GraphEdge → Type 0
Joins names e = (member e.caller_instance names ≡ true) × (member e.provider_instance names ≡ true)

-- No key is there twice.
abbrev pub Distinct : List Key → Type 0
Distinct [] = Unit
Distinct (k ∷ ks) = (has_key k ks ≡ false) × Distinct ks

pub record IsLinked (s : Search) : Type 0 where
  pub joined : All (Joins (instances s.nodes)) s.edges
  pub named : All (λ v. member v.1 (instances s.nodes) ≡ true) s.visited
  pub known : All (λ n. is_some (lookup (node_key n) s.visited) ≡ true) s.nodes
  pub distinct : Distinct (map node_key s.nodes)

abbrev pub Grows : Search → Search → Type 0
Grows s t = (x : Text) → member x (instances s.nodes) ≡ true → member x (instances t.nodes) ≡ true

-- A graph whose edges join its nodes, with its root among them, of bounded size, and with every
-- package there once.
abbrev pub IsComposed : ApprovedGraph → Type 0
IsComposed g =
    All (Joins (instances g.nodes)) g.edges
    × (member g.root_instance (instances g.nodes) ≡ true)
    × (length g.nodes ≤ max_graph_nodes)
    × Distinct (map node_key g.nodes)

pub record IsReached (s t : Search) : Type 0 where
  pub linked : IsLinked t
  pub grows : Grows s t
  pub bounded : length t.nodes ≤ max_graph_nodes

pub member-append :
    (x : Text) (ns ms : List GraphNode)
    → member x (instances (ns ++ ms)) ≡ (member x (instances ns) || member x (instances ms))
unfolding member
member-append x [] ms = refl
member-append x (n ∷ ns) ms = ground (arith, member-append x ns ms)

pub key_eq_sym : (k j : Key) → key_eq k j ≡ key_eq j k
key_eq_sym (a, b) (c, d) =
    ground (arith, text_eq_iff a c, text_eq_iff c a, text_eq_iff b d, text_eq_iff d b)

pub key_eq-eq : (k j : Key) → key_eq k j ≡ true → k ≡ j
key_eq-eq (a, b) (c, d) h =
    cc ((text_eq_iff a c).0 (ground (arith, h)), (text_eq_iff b d).0 (ground (arith, h)))

pub has_key-append :
    (k : Key) (ns : List GraphNode) (n : GraphNode)
    → has_key k (map node_key (ns ++ n ∷ []))
      ≡ (has_key k (map node_key ns) || key_eq k (node_key n))
has_key-append k [] n = ground arith
has_key-append k (m ∷ ns) n = ground (arith, has_key-append k ns n)

pub Distinct-append :
    (ns : List GraphNode) (n : GraphNode)
    → Distinct (map node_key ns)
    → has_key (node_key n) (map node_key ns) ≡ false
    → Distinct (map node_key (ns ++ n ∷ []))
Distinct-append [] n d h = (refl, tt)
Distinct-append (m ∷ ns) n d h =
    let fresh : has_key (node_key m) (map node_key (ns ++ n ∷ [])) ≡ false =
      ground
        (arith, has_key-append (node_key m) ns n, key_eq_sym (node_key m) (node_key n), d.0, h) in
    (fresh, Distinct-append ns n d.1 (ground (arith, h)))

-- A key that was not visited is no node's.
pub unknown :
    (key : Key) (visited : List (Key × Text)) (ns : List GraphNode)
    → lookup key visited ≡ none
    → All (λ n. is_some (lookup (node_key n) visited) ≡ true) ns
    → has_key key (map node_key ns) ≡ false
unknown key visited [] h k = refl
unknown key visited (n ∷ ns) h k = elim (Bool-cases (key_eq key (node_key n))) [
  | inl same ↦ absurd (cc (h, k.0, key_eq-eq key (node_key n) same))
  | inr other ↦ ground (arith, other, unknown key visited ns h k.1)
]

pub lookup_more :
    (key k : Key) (name : Text) (visited : List (Key × Text))
    → is_some (lookup k visited) ≡ true
    → is_some (lookup k ((key, name) ∷ visited)) ≡ true
unfolding lookup
lookup_more key k name visited h = ground (arith, h)

pub known_more :
    (key : Key) (name : Text) (visited : List (Key × Text)) (ns : List GraphNode)
    → All (λ n. is_some (lookup (node_key n) visited) ≡ true) ns
    → All (λ n. is_some (lookup (node_key n) ((key, name) ∷ visited)) ≡ true) ns
known_more key name visited [] h = tt
known_more key name visited (n ∷ ns) h =
    (lookup_more key (node_key n) name visited h.0, known_more key name visited ns h.1)

pub found_first :
    (key : Key) (name : Text) (visited : List (Key × Text))
    → is_some (lookup key ((key, name) ∷ visited)) ≡ true
unfolding lookup
found_first (a, b) name visited = ground (arith, text_eq_iff a a, text_eq_iff b b)

pub lookup-All {ℓ} :
    (P : Text → Type ℓ) (key : Key) (name : Text) (visited : List (Key × Text))
    → All (λ v. P v.1) visited
    → lookup key visited ≡ some name
    → P name
unfolding lookup
lookup-All P key name [] k h = cc
lookup-All P key name ((j, i) ∷ visited) k h = elim (Bool-cases (key_eq key j)) [
  | inl same ↦ subst P (ground (arith, same, h)) k.0
  | inr other ↦ lookup-All P key name visited k.1 (ground (arith, other, h))
]

pub Joins-Grows :
    (s t : Search)
    → Grows s t
    → (es : List GraphEdge) → All (Joins (instances s.nodes)) es
    → All (Joins (instances t.nodes)) es
Joins-Grows s t g [] h = tt
Joins-Grows s t g (e ∷ es) h =
    ((g e.caller_instance h.0.0, g e.provider_instance h.0.1), Joins-Grows s t g es h.1)

pub named_grow :
    (s t : Search)
    → Grows s t
    → (vs : List (Key × Text)) → All (λ v. member v.1 (instances s.nodes) ≡ true) vs
    → All (λ v. member v.1 (instances t.nodes) ≡ true) vs
named_grow s t g [] h = tt
named_grow s t g (v ∷ vs) h = (g v.1 h.0, named_grow s t g vs h.1)

-- The path, the counts and what is left out do not matter.
pub relink :
    (s : Search) (path : List Key) (counts : Map Text ℕ) (us : List UnavailableDependency)
    → IsLinked s
    → IsLinked (record s { path = path; instance_counts = counts; unavailable_optional = us })
relink s path counts us l = record {
  joined = l.joined;
  named = l.named;
  known = l.known;
  distinct = l.distinct;
}

-- A new node, under a key that was not visited.
abbrev pub with_node : Search → GraphNode → List Key → Map Text ℕ → Search
with_node s n path counts = record s {
  nodes = s.nodes ++ n ∷ [];
  visited = (node_key n, n.instance_name) ∷ s.visited;
  path = path;
  instance_counts = counts;
}

pub with_node-Grows :
    (s : Search) (n : GraphNode) (path : List Key) (counts : Map Text ℕ)
    → Grows s (with_node s n path counts)
with_node-Grows s n path counts x h = ground (arith, member-append x s.nodes (n ∷ []), h)

pub member_last :
    (s : Search) (n : GraphNode) → member n.instance_name (instances (s.nodes ++ n ∷ [])) ≡ true
unfolding member
member_last s n = ground (
  arith,
  member-append n.instance_name s.nodes (n ∷ []),
  text_eq_iff n.instance_name n.instance_name,
)

pub with_node-IsLinked :
    (s : Search) (n : GraphNode) (path : List Key) (counts : Map Text ℕ)
    → IsLinked s
    → lookup (node_key n) s.visited ≡ none
    → IsLinked (with_node s n path counts)
with_node-IsLinked s n path counts l fresh = record {
  joined =
      Joins-Grows s (with_node s n path counts) (with_node-Grows s n path counts) s.edges l.joined;
  named = (
    member_last s n,
    named_grow s (with_node s n path counts) (with_node-Grows s n path counts) s.visited l.named,
  );
  known =
      All-append _ s.nodes (n ∷ [])
        (known_more (node_key n) n.instance_name s.visited s.nodes l.known)
        (found_first (node_key n) n.instance_name s.visited, tt);
  distinct =
      Distinct-append s.nodes n l.distinct (unknown (node_key n) s.visited s.nodes fresh l.known);
}

abbrev pub with_edge : Search → GraphEdge → Search
with_edge s e = record s { edges = s.edges ++ e ∷ [] }

pub with_edge-IsLinked :
    (s : Search) (e : GraphEdge)
    → IsLinked s
    → Joins (instances s.nodes) e
    → IsLinked (with_edge s e)
with_edge-IsLinked s e l j = record {
  joined = All-append (Joins (instances s.nodes)) s.edges (e ∷ []) l.joined (j, tt);
  named = l.named;
  known = l.known;
  distinct = l.distinct;
}
