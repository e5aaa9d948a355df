-- ===== src/Network/Build.antt =====
-- Adding stations and lines: src/TransportNetwork.cpp.
pub mod Linked
pub mod Grows
pub mod Returns
pub mod Added
pub mod Routes
pub mod Lines
pub mod Complete
use live_transport_network_m.Base.{
  suc, Bool, true, false, none, some, List, [], ◌∷◌, ◌++◌, bytes_eq, nat_eq, pos, lookup, assign,
  emplace, if◌then◌else◌,
}
use live_transport_network_m.Network.Types.{
  Ident, Station, Route, Line, Node, RouteInternal, GraphEdge, GraphNode, LineInternal,
  TransportNetwork, Result, returns, undefined, ◌>>=◌, get_station, get_line, set_node,
}

unfoldable pub add_station : Station → TransportNetwork → TransportNetwork × Bool
add_station station n = elim (get_station station.id n) [
  | some _ ↦ (n, false)
  | none ↦
      let node : GraphNode = record {
        id = station.id;
        name = station.name;
        passenger_count = pos 0;
        edges = [];
      } in
      (record n { stations = emplace station.id node n.stations }, true)
]

-- Whether all stops are stations; the pointers to them are then the stops themselves.
unfoldable pub all_stations : List Ident → TransportNetwork → Bool
all_stations [] n = true
all_stations (stop ∷ stops) n = elim (get_station stop n) [
  | none ↦ false
  | some _ ↦ all_stations stops n
]

unfoldable pub push_edge : RouteInternal → Node → Node → TransportNetwork → TransportNetwork
push_edge r this next n = elim (get_station this n) [
  | none ↦ n
  | some node ↦
      let edge : GraphEdge = record {
        address = n.fresh;
        route = r;
        next_stop = next;
        travel_time = 0;
      } in
      set_node this (record node { edges = node.edges ++ edge ∷ [] })
        (record n { fresh = suc n.fresh })
]

-- The loop over the stops: an edge from each to the next.
unfoldable pub push_edges : RouteInternal → List Node → TransportNetwork → TransportNetwork
push_edges r [] n = n
push_edges r (a ∷ []) n = n
push_edges r (a ∷ b ∷ stops) n = push_edges r (b ∷ stops) (push_edge r a b n)

-- The second half of `AddRouteToLine`, where all stops are stations. With no stops
-- `stops.size() - 1` wraps, and the loop reads past the end.
unfoldable pub make_route :
    Route
    → List Node
    → LineInternal
    → TransportNetwork
    → Result (Bool × LineInternal × TransportNetwork)
make_route route [] line n = undefined
make_route route (stop ∷ stops) line n =
    let r : RouteInternal = record {
      address = n.fresh;
      id = route.id;
      line = line.id;
      stops = stop ∷ stops;
    } in
    returns (
      true,
      record line { routes = assign route.id r line.routes },
      push_edges r (stop ∷ stops) (record n { fresh = suc n.fresh }),
    )

-- `AddRouteToLine`
unfoldable pub add_route_to_line :
    Route → LineInternal → TransportNetwork → Result (Bool × LineInternal × TransportNetwork)
add_route_to_line route line n = elim (lookup route.id line.routes) [
  | some _ ↦ returns (false, line, n)
  | none ↦
      if all_stations route.stops n
      then make_route route route.stops line n
      else returns (false, line, n)
]

-- The loop of `AddLine` over the routes; it stops at the first that fails.
unfoldable pub add_routes :
    List Route → LineInternal → TransportNetwork → Result (Bool × LineInternal × TransportNetwork)
add_routes [] line n = returns (true, line, n)
add_routes (route ∷ routes) line n = add_route_to_line route line n >>= λ r.
    let rest = add_routes routes r.1 r.2 in if r.0 then rest else returns r

-- `AddLine`
unfoldable pub add_line : Line → TransportNetwork → Result (TransportNetwork × Bool)
add_line line n = elim (get_line line.id n) [
  | some _ ↦ returns (n, false)
  | none ↦
      add_routes line.routes (record { id = line.id; name = line.name; routes = [] }) n >>= λ r.
      if r.0
      then returns (record r.2 { lines = emplace line.id r.1 r.2.lines }, true)
      else returns (r.2, false)
]
