-- ===== src/Tests/Networks.antt =====
-- The network at concrete inputs: src/TransportNetwork.cpp.
use live_transport_network_m.Base.{
  ◌≡◌, ◌≤◌, ◌&&◌, ◌||◌, refl, Bool, none, ◌≢◌, true, some, List, [], ◌∷◌, bytes, lookup, assign,
  emplace, ◌+ℤ◌, nat_eq, bytes_eq, pos, negsuc, pos_part, neg_part, sub_ℕ, if◌then◌else◌, ◌==◌,
}
use live_transport_network_m.Network.Build.Linked.{Extends, HasRoutes}
use live_transport_network_m.Network.Build.Added.{add_line-HasRoutes}
use live_transport_network_m.Network.Build.Complete.{add_line_succeeds}
use live_transport_network_m.Network.Build.{
  add_station, add_line, add_routes, add_route_to_line, all_stations, make_route, push_edges,
  push_edge,
}
use live_transport_network_m.Network.Stations.{record_passenger_event}
use live_transport_network_m.Network.Stations.Counts.{
  count, record_all, entries, add_to, count-record_all, count-record_all_bounds,
}
use live_transport_network_m.Network.Travel.{
  set_travel_time, get_travel_time, set_edge_times, set_times_from, has_edge_to, time_to,
}
use live_transport_network_m.Network.Travel.{find_edge_for_route, get_route_travel_time}
use live_transport_network_m.Network.Travel.Rides.{ride_time, route_time_is_total}
use live_transport_network_m.Network.Types.{get_route}
use live_transport_network_m.Network.Travel.Links.{known, link, is_there, get-set_travel_time}
use live_transport_network_m.Network.Types.{
  Ident, PassengerEvent, in_, out, Line, RouteInternal, returns, get_line, TransportNetwork, empty,
  get_station, set_node,
}

abbrev a : Ident
a = bytes "a"

abbrev b : Ident
b = bytes "b"

abbrev route : RouteInternal
route = record { address = 0; id = bytes "r"; line = bytes "l"; stops = a ∷ b ∷ [] }

-- Two stations, with a route from the first to the second.
abbrev pub two_stations : TransportNetwork
two_stations = record {
  stations =
      (
        a,
        record {
          id = a;
          name = bytes "A";
          passenger_count = pos 0;
          edges = record { address = 1; route = route; next_stop = b; travel_time = 0 } ∷ [];
        },
      )
      ∷ (b, record { id = b; name = bytes "B"; passenger_count = pos 0; edges = [] })
      ∷ [];
  lines = [];
  fresh = 2;
}

-- The program builds it.
abbrev stations : TransportNetwork
stations =
    (add_station (record { id = b; name = bytes "B" })
      (add_station (record { id = a; name = bytes "A" }) empty).0).0

abbrev line : Line
line = record {
  id = bytes "l";
  name = bytes "L";
  routes =
      record {
        id = bytes "r";
        direction = bytes "inbound";
        line_id = bytes "l";
        start_station_id = a;
        end_station_id = b;
        stops = a ∷ b ∷ [];
      }
      ∷ [];
}

two_stations_built :
    add_line line stations
    ≡ returns (
      record two_stations {
        lines =
            (
              bytes "l",
              record { id = bytes "l"; name = bytes "L"; routes = (bytes "r", route) ∷ [] },
            )
            ∷ [];
      },
      true,
    )
unfolding add_station add_line add_routes add_route_to_line all_stations make_route push_edges
    push_edge set_node get_station get_line lookup assign emplace
two_stations_built = refl

get-set_travel_time_example :
    (get_travel_time b a (set_travel_time a b 5 two_stations).0 ≡ (
      if (set_travel_time a b 5 two_stations).1 && ((a == b && b == a) || (b == b && a == a))
      then 5
      else get_travel_time b a two_stations))
    × ((set_travel_time a b 5 two_stations).1 ≡ (
        known a two_stations
        && known b two_stations
        && (is_there (link a b two_stations) || is_there (link b a two_stations))))
get-set_travel_time_example = get-set_travel_time a b 5 two_stations b a

-- The time is set, in the direction without an edge too.
time_set : get_travel_time b a (set_travel_time a b 5 two_stations).0 ≡ 5
unfolding set_travel_time get_travel_time set_times_from set_node get_station lookup assign
    set_edge_times has_edge_to time_to
time_set = refl

abbrev pub two_events : List PassengerEvent
two_events =
    record { station_id = b; type = in_ }
    ∷ record { station_id = b; type = out }
    ∷ record { station_id = a; type = out }
    ∷ []

count-record_all_example :
    count a (record_all two_events two_stations)
    ≡ add_to (sub_ℕ (entries in_ a two_events) (entries out a two_events)) (count a two_stations)
count-record_all_example = count-record_all two_events two_stations a

no_one : count a two_stations ≡ some (pos 0)
unfolding get_station lookup
no_one = refl

one_left : count a (record_all two_events two_stations) ≡ some (negsuc 0)
unfolding get_station lookup record_passenger_event set_node assign ◌+ℤ◌
one_left = refl

count-record_all_bounds_example : (pos_part (negsuc 0) ≤ 3) × (neg_part (negsuc 0) ≤ 3)
count-record_all_bounds_example =
    count-record_all_bounds two_events two_stations a (negsuc 0) no_one one_left

add_line-HasRoutes_example :
    (r : TransportNetwork × Bool) × (add_line line stations ≡ returns r)
    × Extends stations r.0
    × (r.1 ≡ true → HasRoutes r.0 line.routes × (get_line (bytes "l") r.0 ≢ none))
add_line-HasRoutes_example = add_line-HasRoutes line stations (λ e. cc, tt)

line_is_new : get_line (bytes "l") stations ≡ none
unfolding add_station get_station get_line lookup emplace
line_is_new = refl

a_known : known a stations ≡ true
unfolding add_station get_station lookup emplace
a_known = refl

b_known : known b stations ≡ true
unfolding add_station get_station lookup emplace
b_known = refl

add_line_succeeds_example : (n : TransportNetwork) × (add_line line stations ≡ returns (n, true))
add_line_succeeds_example =
    add_line_succeeds line stations line_is_new (tt, tt) ((λ e. cc, (a_known, (b_known, tt))), tt)

-- The two stations and their line, five minutes apart.
abbrev timed : TransportNetwork
timed = record {
  stations =
      (
        a,
        record {
          id = a;
          name = bytes "A";
          passenger_count = pos 0;
          edges = record { address = 1; route = route; next_stop = b; travel_time = 5 } ∷ [];
        },
      )
      ∷ (b, record { id = b; name = bytes "B"; passenger_count = pos 0; edges = [] })
      ∷ [];
  lines =
      (bytes "l", record { id = bytes "l"; name = bytes "L"; routes = (bytes "r", route) ∷ [] })
      ∷ [];
  fresh = 2;
}

route_found : get_route (bytes "l") (bytes "r") timed ≡ some route
unfolding get_route get_line lookup
route_found = refl

a_there : known a timed ≡ true
unfolding get_station lookup
a_there = refl

b_there : known b timed ≡ true
unfolding get_station lookup
b_there = refl

a_ride : ride_time route timed a ≡ some 5
unfolding get_station lookup find_edge_for_route
a_ride = refl

route_time_is_total_example : get_route_travel_time (bytes "l") (bytes "r") a b timed ≡ 5
route_time_is_total_example =
    route_time_is_total route timed a b (bytes "l") (bytes "r") (λ s. 5) [] [] [] route_found
      a_there b_there refl tt tt (refl, tt) (a_ride, tt)
