-- ===== src/Network/Stations.antt =====
-- Passenger counts, and the routes that serve a station: src/TransportNetwork.cpp.
pub mod Counts
use live_transport_network_m.Base.{
  Bool, true, false, Option, none, some, List, [], ◌∷◌, ◌++◌, map, bytes, bytes_eq, nat_eq, ℤ, pos,
  negsuc, ◌+ℤ◌, Assoc, ◌==◌, if◌then◌else◌,
}
use live_transport_network_m.Network.Types.{
  Ident, EventType, in_, out, PassengerEvent, Node, RouteInternal, LineInternal, TransportNetwork,
  Result, returns, throws, undefined, ◌>>=◌, get_station, set_node,
}

-- The change that a passenger event makes to a count.
abbrev pub event_change : EventType → ℤ
event_change in_ = pos 1
event_change out = negsuc 0

unfoldable pub record_passenger_event : PassengerEvent → TransportNetwork → TransportNetwork × Bool
record_passenger_event event n = elim (get_station event.station_id n) [
  | none ↦ (n, false)
  | some node ↦ (
    set_node event.station_id
        (record node { passenger_count = node.passenger_count +ℤ event_change event.type }) n,
    true,
  )
]

unfoldable pub get_passenger_count : Ident → TransportNetwork → Result ℤ
get_passenger_count station n = elim (get_station station n) [
  | none ↦ throws (bytes "Could not find station in the network: " ++ station)
  | some node ↦ returns node.passenger_count
]

-- The last stop of a route, `stops[stops.size() - 1]`.
unfoldable pub last_stop : List Node → Option Node
last_stop [] = none
last_stop (a ∷ []) = some a
last_stop (a ∷ b ∷ stops) = last_stop (b ∷ stops)

-- The routes of one line that end at the station.
unfoldable pub routes_ending : Ident → Assoc Ident RouteInternal → Result (List Ident)
routes_ending station [] = returns []
routes_ending station ((_, r) ∷ routes) =
    let rest = routes_ending station routes in
    elim (last_stop r.stops) [
      | none ↦ undefined
      | some stop ↦ if stop == station then (rest >>= λ ids. returns (r.id ∷ ids)) else rest
    ]

unfoldable pub lines_ending : Ident → Assoc Ident LineInternal → Result (List Ident)
lines_ending station [] = returns []
lines_ending station ((_, line) ∷ lines) =
    let rest = lines_ending station lines in
    routes_ending station line.routes >>= λ ids. rest >>= λ more. returns (ids ++ more)

unfoldable pub get_routes_serving_station : Ident → TransportNetwork → Result (List Ident)
get_routes_serving_station station n = elim (get_station station n) [
  | none ↦ returns []
  | some node ↦
      lines_ending station n.lines >>= λ ids. returns (map (λ e. e.route.id) node.edges ++ ids)
]
