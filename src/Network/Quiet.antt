-- ===== src/Network/Quiet.antt =====
-- The most quiet travel route among the fastest: src/TransportNetwork.cpp.
pub mod Choice
pub mod Crowding
use live_transport_network_m.Base.{
  ℕ, ◌+◌, ◌-◌, ◌%◌, Bool, ◌&&◌, not, Option, none, some, List, [], ◌∷◌, bytes_eq, ltb, ℤ, pos,
  negsuc, ◌+ℤ◌, ◌==◌, if◌then◌else◌,
}
use live_transport_network_m.Network.Stops.{PathStop, PathStopDist, TravelPath}
use live_transport_network_m.Network.Travel.{uint_mod}
use live_transport_network_m.Network.Types.{Ident, TransportNetwork, get_station}
use live_transport_network_m.Network.Paths.{Std, Found, found, ◌>>=◌}
use live_transport_network_m.Network.Plans.{
  TravelRoute, empty_route, stay_route, no_route, travel_route,
}
use live_transport_network_m.Network.Alternatives.{get_fastest_travel_routes}

-- The conversion to `unsigned int`.
unfoldable pub to_uint : ℤ → ℕ
to_uint (pos k) = k % uint_mod
to_uint (negsuc k) = uint_mod - 1 - k % uint_mod

-- The loop over the stops of a path. A stop's node is one of the network's.
unfoldable pub add_crowding : TransportNetwork → ℕ → TravelPath → ℕ
add_crowding n total [] = total
add_crowding n total ((stop, _) ∷ path) =
    add_crowding n
      (elim (get_station stop.node n) [
        | none ↦ total
        | some node ↦ to_uint (pos total +ℤ node.passenger_count)
      ])
      path

unfoldable pub get_path_crowding : TransportNetwork → TravelPath → ℕ
get_path_crowding n path = add_crowding n 0 path

-- The loop over the paths after the first, with `minCrowding` and `mostQuietPath`.
unfoldable pub most_quiet : TransportNetwork → ℕ → List TravelPath → ℕ → TravelPath → TravelPath
most_quiet n max_crowding [] min_crowding most_quiet_path = most_quiet_path
most_quiet n max_crowding (path ∷ paths) min_crowding most_quiet_path =
    let crowding = get_path_crowding n path in
    let better = not (ltb max_crowding crowding) && ltb crowding min_crowding in
    most_quiet n max_crowding paths (if better then crowding else min_crowding)
      (if better then path else most_quiet_path)

-- `GetQuietTravelRoute`. `quieter` is the product of a crowding with `1 - minQuietnessPc`, cast to
-- `unsigned int`.
unfoldable pub get_quiet_travel_route :
    Std → TransportNetwork → (ℕ → ℕ) → (ℕ → ℕ) → ℕ → Ident → Ident → Found TravelRoute
get_quiet_travel_route std n slowed quieter max_n_paths a b = elim (get_station a n) [
  | none ↦ found empty_route
  | some _ ↦ elim (get_station b n) [
    | none ↦ found empty_route
    | some _ ↦
        if a == b
        then found (stay_route a)
        else (get_fastest_travel_routes std n slowed max_n_paths a b >>= λ paths. elim paths [
          | [] ↦ found (no_route a b)
          | fastest ∷ others ↦
              let min_crowding = get_path_crowding n fastest in
              travel_route a b (most_quiet n (quieter min_crowding) others min_crowding fastest)
        ])
  ]
]
