-- ===== src/Network/Paths.antt =====
-- The fastest path between two stations: src/TransportNetwork.cpp. The queue, the order of a hash
-- map and the sort are those of the standard library, which `Std` stands for.
pub mod Improves
pub mod Closed
pub mod Sound
pub mod Minutes
pub mod Loop
pub mod Chains
pub mod Ends
pub mod Walks
pub mod Fastest
use live_transport_network_m.Base.{
  ℕ, zero, suc, ◌+◌, ◌*◌, ◌%◌, Bool, true, false, not, ◌||◌, Option, none, some, List, [], ◌∷◌,
  ◌++◌, nat_eq, bytes_eq, lookup, assign, Assoc, length, ltb, ◌==◌, if◌then◌else◌,
}
use live_transport_network_m.Network.Stops.{PathStop, PathStopDist, TravelPath, stop_eq}
use live_transport_network_m.Network.Travel.{uint_mod}
use live_transport_network_m.Network.Types.{
  Ident, Node, GraphEdge, GraphNode, TransportNetwork, get_station,
}

-- What a search takes from the standard library: `top` with `pop` of a priority queue of stops by
-- distance, the entries of a hash map as they are iterated, a vector of stops sorted by falling
-- distance, and `top` with `pop` of a priority queue of paths by the distance of their last stop.
pub record Std : Type 0 where
  pub pop : List PathStopDist → Option (PathStopDist × List PathStopDist)
  pub iterate : Assoc PathStop ℕ → List PathStopDist
  pub sort : List PathStopDist → List PathStopDist
  pub pop_path : List TravelPath → Option (TravelPath × List TravelPath)

-- How a search ends. `throws` is `std::out_of_range`, `undefined` is behaviour that C++ does not
-- define; `out_of_fuel` is the model's own.
pub data Found (A : Type 0) : Type 0 where
  found : A → Found A
  throws undefined out_of_fuel : Found A

infixl 5 ◌>>=◌
abbrev pub ◌>>=◌ : {A B : Type 0} → Found A → (A → Found B) → Found B
found a >>= f = f a
throws >>= f = throws
undefined >>= f = undefined
out_of_fuel >>= f = out_of_fuel

-- The three structures of the search.
pub record Search : Type 0 where
  pub dist_from_a : Assoc PathStop ℕ
  pub previous_stop : Assoc PathStop PathStop
  pub nodes_to_visit : List PathStopDist

abbrev pub neighbor : GraphEdge → PathStop
neighbor e = record { node = e.next_stop; edge = some e }

unfoldable pub edges_of : Node → TransportNetwork → List GraphEdge
edges_of a n = elim (get_station a n) [ none ↦ [] | some node ↦ node.edges ]

unfoldable pub contains : PathStop → List PathStop → Bool
contains x [] = false
contains x (y ∷ ys) = y == x || contains x ys

-- Whether one changes routes at the stop.
unfoldable pub changes : PathStop → GraphEdge → Bool
changes curr e = elim curr.edge [ none ↦ false | some f ↦ not (f.route.address == e.route.address) ]

-- `neighborDistFromA`, an `unsigned int`.
unfoldable pub neighbor_dist : PathStop → ℕ → GraphEdge → ℕ
neighbor_dist curr d e =
    let v = (d + e.travel_time) % uint_mod in if changes curr e then (v + 5) % uint_mod else v

unfoldable pub update : PathStop → PathStop → ℕ → Search → Search
update x curr v s = record {
  dist_from_a = assign x v s.dist_from_a;
  previous_stop = assign x curr s.previous_stop;
  nodes_to_visit = (x, v) ∷ s.nodes_to_visit;
}

-- The body of the loop over the edges of a stop.
unfoldable pub relax : List PathStop → PathStop → ℕ → GraphEdge → Search → Search
relax excluded curr d e s =
    if contains (neighbor e) excluded then s else elim (lookup (neighbor e) s.dist_from_a) [
      | none ↦ update (neighbor e) curr (neighbor_dist curr d e) s
      | some old ↦
          if ltb (neighbor_dist curr d e) old
          then update (neighbor e) curr (neighbor_dist curr d e) s
          else s
    ]

unfoldable pub explore : List PathStop → PathStop → ℕ → List GraphEdge → Search → Search
explore excluded curr d [] s = s
explore excluded curr d (e ∷ es) s = explore excluded curr d es (relax excluded curr d e s)

-- What one stop taken from the queue does.
unfoldable pub visit : TransportNetwork → Node → List PathStop → PathStopDist → Search → Search
visit n b excluded (curr, d) s =
    if curr.node == b then s else explore excluded curr d (edges_of curr.node n) s

-- The `while` loop of the search.
unfoldable pub search : Std → TransportNetwork → Node → List PathStop → ℕ → Search → Option Search
search std n b excluded zero s = none
search std n b excluded (suc fuel) s = elim (std.pop s.nodes_to_visit) [
  | none ↦ some s
  | some (top, rest) ↦
      search std n b excluded fuel (visit n b excluded top (record s { nodes_to_visit = rest }))
]

-- The entries of the distances at the station.
unfoldable pub stops_at : Node → List PathStopDist → List PathStopDist
stops_at b [] = []
stops_at b ((x, d) ∷ entries) =
    if x.node == b then (x, d) ∷ stops_at b entries else stops_at b entries

unfoldable pub back : {A : Type 0} → List A → Option A
back [] = none
back (p ∷ []) = some p
back (p ∷ q ∷ ps) = back (q ∷ ps)

-- The `while` loop that follows `previousStop` back to station A, onto the path so far.
unfoldable pub assemble : ℕ → Search → Node → PathStop → TravelPath → Found TravelPath
assemble zero s a stop path = out_of_fuel
assemble (suc fuel) s a stop path =
    if stop.node == a then found path else elim (lookup stop s.previous_stop) [
      | none ↦ throws
      | some before ↦ elim (lookup before s.dist_from_a) [
        | none ↦ throws
        | some d ↦ assemble fuel s a before ((before, d) ∷ path)
      ]
    ]

abbrev pub start_search : PathStopDist → Search
start_search (x, d) = record {
  dist_from_a = (x, d) ∷ [];
  previous_stop = [];
  nodes_to_visit = (x, d) ∷ [];
}

-- All edges of the network.
unfoldable pub edges_in : Assoc Ident GraphNode → List GraphEdge
edges_in [] = []
edges_in ((_, node) ∷ stations) = node.edges ++ edges_in stations

-- A visit takes a stop from the queue, and each stop that it pushes has a smaller distance than
-- before, or had none.
abbrev pub search_fuel : TransportNetwork → ℕ
search_fuel n = 3 + 2 * (uint_mod * length (edges_in n.stations))

-- The internal `GetFastestTravelRoute`; no path is the empty list.
unfoldable pub fastest_path :
    Std → TransportNetwork → PathStopDist → Node → List PathStop → Found TravelPath
fastest_path std n stop_a b excluded =
    if stop_a.0.node == b
    then found ((record { node = stop_a.0.node; edge = none }, 0) ∷ [])
    else elim (search std n b excluded (search_fuel n) (start_search stop_a)) [
      | none ↦ out_of_fuel
      | some s ↦ elim (back (std.sort (stops_at b (std.iterate s.dist_from_a)))) [
        | none ↦ found []
        | some (x, d) ↦ assemble (suc (length s.previous_stop)) s stop_a.0.node x ((x, d) ∷ [])
      ]
    ]
