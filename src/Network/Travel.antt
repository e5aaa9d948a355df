-- ===== src/Network/Travel.antt =====
-- Travel times: src/TransportNetwork.cpp.
pub mod Links
pub mod Rides
use live_transport_network_m.Base.{
  ℕ, ◌+◌, ◌%◌, ◌^◌, Bool, false, ◌||◌, Option, none, some, List, [], ◌∷◌, bytes_eq, nat_eq, ◌==◌,
  if◌then◌else◌,
}
use live_transport_network_m.Network.Types.{
  Ident, Node, RouteInternal, GraphEdge, TransportNetwork, get_station, get_route, set_node,
}

-- The lambda of `SetTravelTime`, on the edges of the node `from`.
unfoldable pub set_edge_times : Node → ℕ → List GraphEdge → List GraphEdge
set_edge_times to time [] = []
set_edge_times to time (e ∷ edges) =
    (if e.next_stop == to then record e { travel_time = time } else e)
    ∷ set_edge_times to time edges

unfoldable pub has_edge_to : Node → List GraphEdge → Bool
has_edge_to to [] = false
has_edge_to to (e ∷ edges) = e.next_stop == to || has_edge_to to edges

-- The call of the lambda, with whether it found an edge.
unfoldable pub set_times_from : Node → Node → ℕ → TransportNetwork → TransportNetwork × Bool
set_times_from from to time n = elim (get_station from n) [
  | none ↦ (n, false)
  | some node ↦ (
    set_node from (record node { edges = set_edge_times to time node.edges }) n,
    has_edge_to to node.edges,
  )
]

unfoldable pub set_travel_time : Ident → Ident → ℕ → TransportNetwork → TransportNetwork × Bool
set_travel_time a b time n = elim (get_station a n) [
  | none ↦ (n, false)
  | some _ ↦ elim (get_station b n) [
    | none ↦ (n, false)
    | some _ ↦
        let (n₁, found₁) = set_times_from a b time n in
        let (n₂, found₂) = set_times_from b a time n₁ in (n₂, found₁ || found₂)
  ]
]

-- The travel time of the first edge to the node.
unfoldable pub time_to : Node → List GraphEdge → Option ℕ
time_to to [] = none
time_to to (e ∷ edges) = if e.next_stop == to then some e.travel_time else time_to to edges

unfoldable pub get_travel_time : Ident → Ident → TransportNetwork → ℕ
get_travel_time a b n = elim (get_station a n) [
  | none ↦ 0
  | some node_a ↦ elim (get_station b n) [
    | none ↦ 0
    | some node_b ↦ elim (time_to b node_a.edges) [
      | some time ↦ time
      | none ↦ elim (time_to a node_b.edges) [ some time ↦ time | none ↦ 0 ]
    ]
  ]
]

-- `unsigned int`
abbrev pub uint_mod : ℕ
uint_mod = 2 ^ 32

-- `FindEdgeForRoute`
unfoldable pub find_edge_for_route : ℕ → List GraphEdge → Option GraphEdge
find_edge_for_route address [] = none
find_edge_for_route address (e ∷ edges) =
    if e.route.address == address then some e else find_edge_for_route address edges

-- The walk along the stops of a route, from the stop at hand: whether A was found, and the time
-- since then.
unfoldable pub walk_route :
    RouteInternal → Node → Node → TransportNetwork → Bool → ℕ → List Node → ℕ
walk_route r a b n found time [] = 0
walk_route r a b n found time (stop ∷ stops) =
    let found' = stop == a || found in
    let skip = walk_route r a b n found' time stops in
    let edge : Option GraphEdge = elim (get_station stop n) [
      | none ↦ none
      | some node ↦ find_edge_for_route r.address node.edges
    ] in
    let ride : ℕ = elim edge [
      | none ↦ 0
      | some e ↦ walk_route r a b n found' ((time + e.travel_time) % uint_mod) stops
    ] in
    if stop == b then time else (if found' then ride else skip)

unfoldable pub get_route_travel_time : Ident → Ident → Ident → Ident → TransportNetwork → ℕ
get_route_travel_time line route a b n = elim (get_route line route n) [
  | none ↦ 0
  | some r ↦ elim (get_station a n) [
    | none ↦ 0
    | some _ ↦ elim (get_station b n) [ none ↦ 0 | some _ ↦ walk_route r a b n false 0 r.stops ]
  ]
]
