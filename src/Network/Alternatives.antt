-- ===== src/Network/Alternatives.antt =====
-- The fastest paths between two stations within a limit, by a variant of Yen's algorithm:
-- src/TransportNetwork.cpp.
pub mod Trips
pub mod Plans
pub mod Selection
use live_transport_network_m.Base.{
  ℕ, zero, suc, ◌-◌, Bool, true, false, ◌&&◌, not, Option, none, some, List, [], ◌∷◌, ◌++◌, length,
  get_elem?, take, ltb, leb, ◌==◌, list_beq, if◌then◌else◌,
}
use live_transport_network_m.Network.Stops.{PathStop, PathStopDist, TravelPath, path_eq}
use live_transport_network_m.Network.Types.{Node, TransportNetwork}
use live_transport_network_m.Network.Plans.{at_station}
use live_transport_network_m.Network.Paths.{
  Std, Found, found, undefined, out_of_fuel, ◌>>=◌, back, fastest_path,
}

-- The stops that come after the root of `idx` entries in the paths that share it.
unfoldable pub removed_stops : ℕ → TravelPath → List TravelPath → List PathStop
removed_stops idx last [] = []
removed_stops idx last (path ∷ paths) =
    let rest = removed_stops idx last paths in
    if ltb idx (length path - 1) && take idx path == take idx last
    then (elim (get_elem? path (suc idx)) [ none ↦ rest | some (x, _) ↦ x ∷ rest ])
    else rest

-- The paths that leave the last fastest path at one stop: none or one.
unfoldable pub spur :
    Std → TransportNetwork → Node → List TravelPath → TravelPath → ℕ → Found (List TravelPath)
spur std n b fastest_paths last idx = elim (get_elem? last idx) [
  | none ↦ undefined
  | some spur_node ↦
      fastest_path std n spur_node b (removed_stops idx last fastest_paths) >>= λ spur_path.
      elim spur_path [ [] ↦ found [] | p ∷ path ↦ found ((take idx last ++ (p ∷ path)) ∷ []) ]
]

-- The `for` loop over the stops of the last fastest path but its last, from `idx` on.
unfoldable pub spurs :
    Std
    → TransportNetwork
    → Node
    → List TravelPath
    → TravelPath
    → ℕ
    → ℕ
    → List TravelPath
    → Found (List TravelPath)
spurs std n b fastest_paths last zero idx potential_paths = found potential_paths
spurs std n b fastest_paths last (suc left) idx potential_paths =
    spur std n b fastest_paths last idx >>= λ new.
    spurs std n b fastest_paths last left (suc idx) (new ++ potential_paths)

-- `std::find`
unfoldable pub is_among : TravelPath → List TravelPath → Bool
is_among path [] = false
is_among path (p ∷ paths) = if p == path then true else is_among path paths

-- The `while` loop that takes paths from the queue up to one that is new.
unfoldable pub select :
    Std → ℕ → ℕ → List TravelPath → List TravelPath → Found (Option (TravelPath × List TravelPath))
select std zero max_travel_time fastest_paths potential_paths = out_of_fuel
select std (suc fuel) max_travel_time fastest_paths potential_paths =
    elim (std.pop_path potential_paths) [
      | none ↦ found none
      | some (kth_path, rest) ↦
          let again = select std fuel max_travel_time fastest_paths rest in
          elim (back kth_path) [
            | none ↦ undefined
            | some (_, time) ↦
                if ltb max_travel_time time
                then found none
                else if is_among kth_path fastest_paths
                then again
                else found (some (kth_path, rest))
          ]
    ]

-- One round of the outer `while` loop: no path is found, or one more and the queue.
unfoldable pub kth_round :
    Std
    → TransportNetwork
    → Node
    → ℕ
    → List TravelPath
    → List TravelPath
    → Found (Option (TravelPath × List TravelPath))
kth_round std n b max_travel_time fastest_paths potential_paths = elim (back fastest_paths) [
  | none ↦ undefined
  | some last ↦ spurs std n b fastest_paths last (length last - 1) 0 potential_paths >>= λ queue.
      select std (suc (length queue)) max_travel_time fastest_paths queue
]

-- The outer `while` loop. Each round but the last finds a path, so the rounds that the limit on the
-- number of paths allows are fuel enough.
unfoldable pub rounds :
    Std
    → TransportNetwork
    → Node
    → ℕ
    → ℕ
    → ℕ
    → List TravelPath
    → List TravelPath
    → Found (List TravelPath)
rounds std n b max_travel_time max_n_paths zero fastest_paths potential_paths =
    if ltb (length fastest_paths) max_n_paths then out_of_fuel else found fastest_paths
rounds std n b max_travel_time max_n_paths (suc fuel) fastest_paths potential_paths =
    if ltb (length fastest_paths) max_n_paths
    then (kth_round std n b max_travel_time fastest_paths potential_paths >>= λ kth. elim kth [
      | none ↦ found fastest_paths
      | some (path, queue) ↦
          rounds std n b max_travel_time max_n_paths fuel (fastest_paths ++ (path ∷ [])) queue
    ])
    else found fastest_paths

-- `GetFastestTravelRoutes`. `slowed` is the product of a time with `1 + maxSlowdownPc`, cast to
-- `unsigned int`.
unfoldable pub get_fastest_travel_routes :
    Std → TransportNetwork → (ℕ → ℕ) → ℕ → Node → Node → Found (List TravelPath)
get_fastest_travel_routes std n slowed max_n_paths a b =
    fastest_path std n (at_station a, 0) b [] >>= λ fastest. elim (back fastest) [
      | none ↦ found []
      | some (_, min_travel_time) ↦
          rounds std n b (slowed min_travel_time) max_n_paths max_n_paths (fastest ∷ []) []
    ]
