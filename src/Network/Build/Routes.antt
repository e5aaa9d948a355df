-- ===== src/Network/Build/Routes.antt =====
-- The routes that `AddLine` makes: src/TransportNetwork.cpp.
use live_transport_network_m.Base.{
  ◌≡◌, ◌∙◌, refl, arith, true, Option-cases, inl, inr, some, List, [], ◌∷◌, ◌++◌, map, bytes_eq,
  lookup, lookup-assign, All, All-weaken, ∈-append_right, here, there, ◌∈◌,
}
use live_transport_network_m.Network.Types.{
  Route, Line, Node, RouteInternal, GraphEdge, LineInternal, TransportNetwork, get_station,
  get_line, set_node,
}
use live_transport_network_m.Network.Build.{push_edge, push_edges}
use live_transport_network_m.Network.Build.Grows.{
  Grown, push_edge-Grown, push_edges-Grown, bare, Runs, Runs-Grown,
}
use live_transport_network_m.Network.Build.Linked.{AllKnown}
use live_transport_network_m.Network.Travel.Links.{known}

-- The line has the route, with its id and stops, and edges of it lead from each stop to the next.
abbrev pub HasRoute : LineInternal → TransportNetwork → Route → Type 0
HasRoute line n route =
    (r : RouteInternal) × (lookup route.id line.routes ≡ some r)
    × (r.id ≡ route.id)
    × (r.line ≡ line.id)
    × (r.stops ≡ route.stops)
    × Runs r route.stops n

-- The network has the line, with its id, name and routes.
abbrev pub HasLine : TransportNetwork → Line → Type 0
HasLine n line =
    (l : LineInternal) × (get_line line.id n ≡ some l)
    × (l.id ≡ line.id)
    × (l.name ≡ line.name)
    × All (HasRoute l n) line.routes

pub HasLine-Grown :
    {n n' : TransportNetwork} (line : Line) → Grown n n' → HasLine n line → HasLine n' line
HasLine-Grown line g (l, found, id, name, routes) = (
  l,
  g.lines line.id l found,
  id,
  name,
  All-weaken line.routes
      (λ r (i, at, is, of, stops, runs). (i, at, is, of, stops, Runs-Grown i r.stops g runs))
      routes,
)

known-Grown :
    {n n' : TransportNetwork} (x : Node) → Grown n n' → known x n ≡ true → known x n' ≡ true
known-Grown {n} {n'} x g k = elim (Option-cases (get_station x n)) [
  | inl absent ↦ ground (arith, absent, k)
  | inr (node, found) ↦ let (node', found', _) = g.nodes x node found in rw (found', known) refl
]

bare-∈ : (e : GraphEdge) (es : List GraphEdge) → e ∈ es → bare e ∈ map bare es
bare-∈ e (_ ∷ es) here = here
bare-∈ e (_ ∷ es) (there i) = there (bare-∈ e es i)
bare-∈ e [] i = elim i [ ]

push_edge-Runs :
    (r : RouteInternal) (a b : Node) (n : TransportNetwork)
    → known a n ≡ true
    → Runs r (a ∷ b ∷ []) (push_edge r a b n)
unfolding push_edge get_station set_node
push_edge-Runs r a b n k = elim (Option-cases (lookup a n.stations)) [
  | inl absent ↦ ground (arith, absent, k)
  | inr (node, found) ↦
      let edge : GraphEdge = record {
        address = n.fresh;
        route = r;
        next_stop = b;
        travel_time = 0;
      } in
      let longer = record node { edges = node.edges ++ edge ∷ [] } in
      (
        (
          longer,
          n.fresh,
          ground (arith, found, lookup-assign a a longer n.stations, bytes_eq.beq_iff a a),
          bare-∈ edge longer.edges (∈-append_right node.edges (edge ∷ []) here),
        ),
        tt,
      )
]

pub push_edges-Runs :
    (r : RouteInternal) (stops : List Node) (n : TransportNetwork)
    → AllKnown stops n
    → Runs r stops (push_edges r stops n)
unfolding push_edges
push_edges-Runs r [] n k = tt
push_edges-Runs r (a ∷ []) n k = tt
push_edges-Runs r (a ∷ b ∷ stops) n (k, ks) =
    let next = push_edge r a b n in
    (
      (Runs-Grown r (a ∷ b ∷ []) (push_edges-Grown r (b ∷ stops) next)
          (push_edge-Runs r a b n k)).0,
      push_edges-Runs r (b ∷ stops) next
          (All-weaken (b ∷ stops) (λ x e. known-Grown x (push_edge-Grown r a b n) e) ks),
    )

lines-push_edge :
    (r : RouteInternal) (a b : Node) (n : TransportNetwork) → (push_edge r a b n).lines ≡ n.lines
unfolding push_edge set_node
lines-push_edge r a b n = elim (Option-cases (get_station a n)) [
  | inl absent ↦ rw (absent, push_edge) refl
  | inr (node, found) ↦ rw (found, push_edge) refl
]

pub lines-push_edges :
    (r : RouteInternal) (stops : List Node) (n : TransportNetwork)
    → (push_edges r stops n).lines ≡ n.lines
unfolding push_edges
lines-push_edges r [] n = refl
lines-push_edges r (a ∷ []) n = refl
lines-push_edges r (a ∷ b ∷ stops) n =
    lines-push_edges r (b ∷ stops) (push_edge r a b n) ∙ lines-push_edge r a b n
