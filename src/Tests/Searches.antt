-- ===== src/Tests/Searches.antt =====
-- The search for a path at concrete inputs: src/TransportNetwork.cpp.
use live_transport_network_m.Base.{
  ℕ, ◌+◌, ◌*◌, ◌≤◌, ◌<◌, ◌≡◌, ◌≢◌, refl, arith, none, some, List, [], ◌∷◌, bytes, pos, lookup,
  assign, bytes_eq, ◌+ℤ◌,
}
use live_transport_network_m.Network.Types.{
  Ident, RouteInternal, GraphEdge, TransportNetwork, get_station,
}
use live_transport_network_m.Network.Stops.{
  PathStop, TravelPath, stop_beq, pointer_beq, edge_beq, route_beq, dist_beq,
}
use live_transport_network_m.Network.Paths.{
  visit, explore, relax, update, neighbor_dist, changes, contains, edges_of, stops_at, back,
  assemble, found, search, search_fuel, start_search, edges_in, fastest_path, Search,
}
use live_transport_network_m.Network.Paths.Minutes.{minutes}
use live_transport_network_m.Network.Travel.{uint_mod}
use live_transport_network_m.Network.Paths.Ends.{search_from_start_ends}
use live_transport_network_m.Network.Paths.Fastest.{Fastest, fastest_path-Fastest}
use live_transport_network_m.Network.Plans.{
  TravelRoute, step_by, travel_route, steps_of, at_station, get_fastest_travel_route,
}
use live_transport_network_m.Network.Plans.Journeys.{
  Stepless, get_fastest_travel_route-Stepless, IsShortest, get_fastest_travel_route-IsShortest,
}
use live_transport_network_m.Network.Alternatives.{
  get_fastest_travel_routes, rounds, kth_round, spurs, spur, removed_stops, select, is_among,
}
use live_transport_network_m.Network.Alternatives.Selection.{
  Offers, get_fastest_travel_routes-Offers,
}
use live_transport_network_m.Network.Quiet.{
  get_path_crowding, add_crowding, to_uint, most_quiet, get_quiet_travel_route,
}
use live_transport_network_m.Network.Quiet.Crowding.{passenger_sum, get_path_crowding-passenger_sum}
use live_transport_network_m.Network.Quiet.Choice.{IsQuiet, get_quiet_travel_route-IsQuiet}
use live_transport_network_m.Tests.Library.{
  pop_least, insert, sort, path_time, std, std-IsStd, std-IsPathQueue,
}

abbrev pub a : Ident
a = bytes "a"

abbrev pub b : Ident
b = bytes "b"

abbrev pub c : Ident
c = bytes "c"

abbrev pub over_c : RouteInternal
over_c = record { address = 0; id = bytes "r0"; line = bytes "l"; stops = a ∷ c ∷ b ∷ [] }

abbrev pub direct : RouteInternal
direct = record { address = 1; id = bytes "r1"; line = bytes "l"; stops = a ∷ b ∷ [] }

abbrev pub first_ride : GraphEdge
first_ride = record { address = 2; route = over_c; next_stop = c; travel_time = 2 }

abbrev pub second_ride : GraphEdge
second_ride = record { address = 3; route = over_c; next_stop = b; travel_time = 3 }

abbrev pub direct_ride : GraphEdge
direct_ride = record { address = 4; route = direct; next_stop = b; travel_time = 9 }

-- Two routes from A to B; the fast one goes over a station with many passengers.
abbrev pub three_stations : TransportNetwork
three_stations = record {
  stations =
      (
        a,
        record { id = a; name = a; passenger_count = pos 0; edges = first_ride ∷ direct_ride ∷ [] },
      )
      ∷ (b, record { id = b; name = b; passenger_count = pos 1; edges = [] })
      ∷ (c, record { id = c; name = c; passenger_count = pos 7; edges = second_ride ∷ [] })
      ∷ [];
  lines = [];
  fresh = 5;
}

abbrev fast_path : TravelPath
fast_path =
    (at_station a, 0)
    ∷ (record { node = c; edge = some first_ride }, 2)
    ∷ (record { node = b; edge = some second_ride }, 5)
    ∷ []

abbrev direct_path : TravelPath
direct_path = (at_station a, 0) ∷ (record { node = b; edge = some direct_ride }, 9) ∷ []

abbrev pub twice : ℕ → ℕ
twice t = 2 * t

abbrev pub same : ℕ → ℕ
same t = t

pub a-ne-b : a ≢ b
a-ne-b e = ground (arith, e)

pub known_a : get_station a three_stations ≢ none
unfolding get_station lookup
known_a e = ground (arith, e)

pub known_b : get_station b three_stations ≢ none
unfolding get_station lookup
known_b e = ground (arith, e)

small : 0 + 2 * minutes (edges_in three_stations.stations) < uint_mod
unfolding edges_in
small = omega arith

pub fits :
    (t : ℕ)
    → t ≤ minutes (edges_in three_stations.stations)
    → twice t + 3 * minutes (edges_in three_stations.stations) < uint_mod
unfolding edges_in
fits t le = omega (arith, le)

search_from_start_ends_example :
    (s : Search) × (search std three_stations b []
        (search_fuel three_stations)
        (start_search (at_station a, 0))
      ≡ some s)
search_from_start_ends_example =
    search_from_start_ends three_stations std std-IsStd b [] (at_station a, 0) (omega arith)

fastest_path-Fastest_example :
    (path : TravelPath) × (fastest_path std three_stations (at_station a, 0) b [] ≡ found path)
    × Fastest three_stations b [] (at_station a) 0 path
fastest_path-Fastest_example =
    fastest_path-Fastest three_stations b [] (at_station a) 0 std std-IsStd small a-ne-b

get_fastest_travel_route-IsShortest_example :
    (r : TravelRoute) × (get_fastest_travel_route std three_stations a b ≡ found r)
    × IsShortest three_stations b a r
get_fastest_travel_route-IsShortest_example =
    get_fastest_travel_route-IsShortest three_stations b std std-IsStd a known_a known_b a-ne-b
      small

get_fastest_travel_routes-Offers_example :
    (paths : List TravelPath) × (get_fastest_travel_routes std three_stations twice 5 a b
      ≡ found paths)
    × Offers three_stations b (at_station a) std twice 5 paths
get_fastest_travel_routes-Offers_example =
    get_fastest_travel_routes-Offers three_stations std std-IsStd std-IsPathQueue twice 5 a b a-ne-b
      fits

get_quiet_travel_route-IsQuiet_example :
    (r : TravelRoute) × (get_quiet_travel_route std three_stations twice same 5 a b ≡ found r)
    × IsQuiet three_stations std std-IsStd std-IsPathQueue twice a b r
get_quiet_travel_route-IsQuiet_example =
    get_quiet_travel_route-IsQuiet three_stations std std-IsStd std-IsPathQueue twice same 5 a b
      known_a known_b a-ne-b fits

-- A network in which two paths to B leave the first station by different stops, and a third leads over
-- both: it is within the limit, and is not found, since the last stop of the first path is removed
-- from the search at the other path's stop.
abbrev d : Ident
d = bytes "d"

abbrev ride : ℕ → Ident → ℕ → GraphEdge
ride address next time = record {
  address = address;
  route = over_c;
  next_stop = next;
  travel_time = time;
}

abbrev four_stations : TransportNetwork
four_stations = record {
  stations =
      (
        a,
        record { id = a; name = a; passenger_count = pos 0; edges = ride 1 c 2 ∷ ride 2 d 2 ∷ [] },
      )
      ∷ (b, record { id = b; name = b; passenger_count = pos 1; edges = [] })
      ∷ (c, record { id = c; name = c; passenger_count = pos 7; edges = ride 3 b 3 ∷ [] })
      ∷ (
        d,
        record { id = d; name = d; passenger_count = pos 7; edges = ride 4 b 4 ∷ ride 5 c 3 ∷ [] },
      )
      ∷ [];
  lines = [];
  fresh = 6;
}

abbrev pub stop : Ident → GraphEdge → PathStop
stop node e = record { node = node; edge = some e }

two_of_three :
    get_fastest_travel_routes std four_stations twice 5 a b
    ≡ found (
        ((at_station a, 0) ∷ (stop c (ride 1 c 2), 2) ∷ (stop b (ride 3 b 3), 5) ∷ [])
        ∷ ((at_station a, 0) ∷ (stop d (ride 2 d 2), 2) ∷ (stop b (ride 4 b 4), 6) ∷ [])
        ∷ [])
unfolding get_fastest_travel_routes rounds kth_round spurs spur removed_stops select is_among search
    visit explore relax update neighbor_dist changes contains edges_of edges_in get_station lookup
    assign stop_beq pointer_beq edge_beq route_beq dist_beq stops_at back assemble fastest_path
    pop_least insert sort path_time
two_of_three = refl

-- The direct route is slower, and quiet.
pub direct_is_quiet :
    get_quiet_travel_route std three_stations twice same 5 a b
    ≡ found (record {
      start_station_id = a;
      end_station_id = b;
      total_travel_time = 9;
      steps = step_by (at_station a) direct_ride (stop b direct_ride) ∷ [];
    })
unfolding get_quiet_travel_route most_quiet get_path_crowding add_crowding to_uint travel_route
    steps_of ◌+ℤ◌ get_fastest_travel_routes rounds kth_round spurs spur removed_stops select
    is_among search visit explore relax update neighbor_dist changes contains edges_of edges_in
    get_station lookup assign stop_beq pointer_beq edge_beq route_beq dist_beq stops_at back
    assemble fastest_path pop_least insert sort path_time
direct_is_quiet = refl

-- The fastest route has no change of routes.
fastest_route :
    get_fastest_travel_route std three_stations a b
    ≡ found (record {
      start_station_id = a;
      end_station_id = b;
      total_travel_time = 5;
      steps =
          step_by (at_station a) first_ride (stop c first_ride)
          ∷ step_by (stop c first_ride) second_ride (stop b second_ride)
          ∷ [];
    })
unfolding get_fastest_travel_route travel_route steps_of search visit explore relax update
    neighbor_dist changes contains edges_of edges_in get_station lookup assign stop_beq pointer_beq
    edge_beq route_beq dist_beq stops_at back assemble fastest_path pop_least insert sort path_time
fastest_route = refl

get_fastest_travel_route-Stepless_example :
    (r : TravelRoute) × (get_fastest_travel_route std three_stations a b ≡ found r)
    × Stepless three_stations b a r
get_fastest_travel_route-Stepless_example =
    get_fastest_travel_route-Stepless three_stations b std std-IsStd a small

get_path_crowding-passenger_sum_example :
    get_path_crowding three_stations fast_path ≡ to_uint (passenger_sum three_stations fast_path)
get_path_crowding-passenger_sum_example = get_path_crowding-passenger_sum three_stations fast_path
