-- ===== src/Network/Build/Grows.antt =====
-- What no operation that builds a network takes away: src/TransportNetwork.cpp.
use live_transport_network_m.Base.{
  ℕ, suc, ◌≡◌, refl, sym, ap, ◌∙◌, arith, Bool-cases, Option-cases, inl, inr, some, List, [], ◌∷◌,
  ◌++◌, ∈-append_left, ◌∈◌, map, append_assoc, append-nil, bytes_eq, lookup, pos, lookup-assign,
  lookup-emplace, ◌==◌,
}
use live_transport_network_m.Network.Types.{
  Ident, Station, Node, RouteInternal, GraphEdge, GraphNode, LineInternal, TransportNetwork,
  get_station, get_line, set_node,
}
use live_transport_network_m.Network.Build.{add_station, push_edge, push_edges}
use live_transport_network_m.Network.Travel.{set_edge_times, set_times_from, set_travel_time}

-- An edge without its travel time.
abbrev pub bare : GraphEdge → ℕ × RouteInternal × Node
bare e = (e.address, e.route, e.next_stop)

abbrev pub bare_edges : GraphNode → List (ℕ × RouteInternal × Node)
bare_edges node = map bare node.edges

-- A node with the same id, name and passenger count, and the same edges up to their travel times,
-- to which others may have been added.
pub record Grows (node node' : GraphNode) : Type 0 where
  pub id : node'.id ≡ node.id
  pub name : node'.name ≡ node.name
  pub passenger_count : node'.passenger_count ≡ node.passenger_count
  pub more : List (ℕ × RouteInternal × Node)
  pub edges : bare_edges node' ≡ bare_edges node ++ more

Grows-refl : (node : GraphNode) → Grows node node
Grows-refl node = record {
  id = refl;
  name = refl;
  passenger_count = refl;
  more = [];
  edges = sym (append-nil (bare_edges node));
}

Grows-trans : {a b c : GraphNode} → Grows a b → Grows b c → Grows a c
Grows-trans {a} g h = record {
  id = h.id ∙ g.id;
  name = h.name ∙ g.name;
  passenger_count = h.passenger_count ∙ g.passenger_count;
  more = g.more ++ h.more;
  edges = h.edges ∙ ap (λ es. es ++ h.more) g.edges ∙ append_assoc (bare_edges a) g.more h.more;
}

-- The second network has the nodes of the first, grown, and its lines.
pub record Grown (n n' : TransportNetwork) : Type 0 where
  pub nodes :
      (x : Node) (node : GraphNode)
      → get_station x n ≡ some node
      → (node' : GraphNode) × (get_station x n' ≡ some node') × Grows node node'
  pub lines : (x : Ident) (l : LineInternal) → get_line x n ≡ some l → get_line x n' ≡ some l

pub Grown-refl : (n : TransportNetwork) → Grown n n
Grown-refl n = record { nodes = λ x node e. (node, e, Grows-refl node); lines = λ x l e. e }

pub Grown-trans : {n₁ n₂ n₃ : TransportNetwork} → Grown n₁ n₂ → Grown n₂ n₃ → Grown n₁ n₃
Grown-trans g h = record {
  nodes = λ x node e.
      let (node₁, e₁, g₁) = g.nodes x node e in
      let (node₂, e₂, g₂) = h.nodes x node₁ e₁ in (node₂, e₂, Grows-trans g₁ g₂);
  lines = λ x l e. h.lines x l (g.lines x l e);
}

set_node-Grown :
    (a : Node) (node node' : GraphNode) (n : TransportNetwork)
    → get_station a n ≡ some node
    → Grows node node'
    → Grown n (set_node a node' n)
unfolding set_node get_station get_line
set_node-Grown a node node' n found g = record {
  nodes = λ x old e. elim (Bool-cases (a == x)) [
    | inl here ↦
        let same : a ≡ x = (bytes_eq.beq_iff a x).0 here in
        let is_old : node ≡ old = ground (arith, found, e, same) in
        (node', ground (arith, lookup-assign a x node' n.stations, here), rw (← is_old) g)
    | inr elsewhere ↦
        (old, ground (arith, lookup-assign a x node' n.stations, elsewhere, e), Grows-refl old)
  ];
  lines = λ x l e. e;
}

-- The next address does not matter.
pub fresh-Grown :
    (n n' : TransportNetwork) (address : ℕ) → Grown (record n { fresh = address }) n' → Grown n n'
unfolding get_station get_line
fresh-Grown n n' address g = record { nodes = g.nodes; lines = g.lines }

-- The node that `AddStation` makes.
abbrev pub fresh_node : Station → GraphNode
fresh_node s = record { id = s.id; name = s.name; passenger_count = pos 0; edges = [] }

pub add_station-Grown : (s : Station) (n : TransportNetwork) → Grown n (add_station s n).0
unfolding add_station get_station get_line
add_station-Grown s n = elim (Option-cases (lookup s.id n.stations)) [
  | inr (node, old) ↦ rw (old, add_station) (Grown-refl n)
  | inl new ↦ record {
    nodes = λ x node e. (
      node,
      ground
          (arith, new, e, lookup-emplace s.id x (fresh_node s) n.stations, bytes_eq.beq_iff s.id x),
      Grows-refl node,
    );
    lines = λ x l e. ground (arith, new, e);
  }
]

module _ (r : RouteInternal) where
  pub push_edge-Grown : (a b : Node) (n : TransportNetwork) → Grown n (push_edge r a b n)
  unfolding push_edge get_station
  push_edge-Grown a b n = elim (Option-cases (lookup a n.stations)) [
    | inl absent ↦ rw (absent, push_edge) (Grown-refl n)
    | inr (node, found) ↦
        rw (found, push_edge)
          (fresh-Grown n _ (suc n.fresh) (
            set_node-Grown a node _ (record n { fresh = suc n.fresh }) found
              (record {
                id = refl;
                name = refl;
                passenger_count = refl;
                more = (n.fresh, r, b) ∷ [];
                edges = map_append node.edges;
              })))
  ]
    where
      map_append :
          (es : List GraphEdge)
          → map bare
              (es ++ record { address = n.fresh; route = r; next_stop = b; travel_time = 0 } ∷ [])
            ≡ map bare es ++ (n.fresh, r, b) ∷ []
      map_append [] = refl
      map_append (e ∷ es) = ap (◌∷◌ (bare e)) (map_append es)

  pub push_edges-Grown : (stops : List Node) (n : TransportNetwork) → Grown n (push_edges r stops n)
  unfolding push_edges
  push_edges-Grown [] n = Grown-refl n
  push_edges-Grown (a ∷ []) n = Grown-refl n
  push_edges-Grown (a ∷ b ∷ stops) n =
      Grown-trans (push_edge-Grown a b n) (push_edges-Grown (b ∷ stops) (push_edge r a b n))

bare-set_edge_times :
    (to : Node) (t : ℕ) (es : List GraphEdge) → map bare (set_edge_times to t es) ≡ map bare es
unfolding set_edge_times
bare-set_edge_times to t [] = refl
bare-set_edge_times to t (e ∷ es) = elim (Bool-cases (e.next_stop == to)) [
  | inl here ↦ rw here (ap (◌∷◌ (bare e)) (bare-set_edge_times to t es))
  | inr elsewhere ↦ rw elsewhere (ap (◌∷◌ (bare e)) (bare-set_edge_times to t es))
]

set_times_from-Grown :
    (from to : Node) (t : ℕ) (n : TransportNetwork) → Grown n (set_times_from from to t n).0
unfolding set_times_from get_station
set_times_from-Grown from to t n = elim (Option-cases (lookup from n.stations)) [
  | inl absent ↦ rw (absent, set_times_from) (Grown-refl n)
  | inr (node, found) ↦
      rw (found, set_times_from)
        (set_node-Grown from node _ n found (record {
          id = refl;
          name = refl;
          passenger_count = refl;
          more = [];
          edges = bare-set_edge_times to t node.edges ∙ sym (append-nil (bare_edges node));
        }))
]

pub set_travel_time-Grown :
    (a b : Node) (t : ℕ) (n : TransportNetwork) → Grown n (set_travel_time a b t n).0
unfolding set_travel_time
set_travel_time-Grown a b t n = elim (Option-cases (get_station a n)) [
  | inl absent ↦ rw (absent, set_travel_time) (Grown-refl n)
  | inr (node_a, found_a) ↦ elim (Option-cases (get_station b n)) [
    | inl absent ↦ rw (found_a, set_travel_time) (rw absent (Grown-refl n))
    | inr (node_b, found_b) ↦
        rw (found_a, set_travel_time)
          (rw found_b (
            Grown-trans (set_times_from-Grown a b t n)
              (set_times_from-Grown b a t (set_times_from a b t n).0)))
  ]
]

-- An edge of the route leads from each stop to the next.
abbrev pub Runs : RouteInternal → List Node → TransportNetwork → Type 0
Runs r [] n = Unit
Runs r (a ∷ []) n = Unit
Runs r (a ∷ b ∷ stops) n =
    ((node : GraphNode) × (address : ℕ) × (get_station a n ≡ some node)
      × ((address, r, b) ∈ bare_edges node))
    × Runs r (b ∷ stops) n

pub Runs-Grown :
    {n n' : TransportNetwork} (r : RouteInternal) (stops : List Node)
    → Grown n n'
    → Runs r stops n
    → Runs r stops n'
Runs-Grown r [] g h = tt
Runs-Grown r (a ∷ []) g h = tt
Runs-Grown r (a ∷ b ∷ stops) g ((node, address, found, has), hs) =
    let (node', found', grows) = g.nodes a node found in
    (
      (node', address, found', rw grows.edges (∈-append_left (bare_edges node) grows.more has)),
      Runs-Grown r (b ∷ stops) g hs,
    )
