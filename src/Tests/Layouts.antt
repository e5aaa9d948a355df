-- ===== src/Tests/Layouts.antt =====
-- Layouts and travel routes as JSON values, at concrete inputs: src/TransportNetwork.cpp.
use live_transport_network_m.Base.{
  ℕ, ◌≡◌, ◌↔◌, refl, ap, arith, Bool, true, Option, none, some, List, [], ◌∷◌, Bytes, bytes,
  bytes_eq, nat_eq, lookup, assign, emplace, ◌==◌, if◌then◌else◌,
}
use live_transport_network_m.Network.Types.{
  TransportNetwork, empty, get_station, get_line, set_node,
}
use live_transport_network_m.Network.Build.{
  add_station, add_line, add_routes, add_route_to_line, all_stations, make_route, push_edges,
  push_edge,
}
use live_transport_network_m.Network.Plans.{TravelRoute}
use live_transport_network_m.Network.Plans.Equality.{travel_route_beq, travel_route_beq_iff}
use live_transport_network_m.Network.Travel.{
  set_travel_time, set_edge_times, set_times_from, has_edge_to, get_travel_time, time_to,
}
use live_transport_network_m.Network.Layout.{
  JsonLibrary, Loading, returns, throws, read_all, string_at, unsigned_at, write_travel_route,
  read_travel_route, read_station, read_route, read_line, read_travel_time, load_stations,
  load_lines, load_travel_times, each, from_json,
}
use live_transport_network_m.Network.Layout.Routes.{IsJson, read-write_travel_route}
use live_transport_network_m.Network.Layout.Stations.{AreNew, load_stations_iff}
use live_transport_network_m.Network.Layout.Whole.{LayoutEnd, from_json-LayoutEnd}

-- An object is its fields, the last one set first; an array is its entries.
pub data Json : Type 0 where
  null end : Json
  text : Bytes → Json
  number : ℕ → Json
  field : Bytes → Json → Json → Json
  entry : Json → Json → Json

unfoldable pub at_key : Bytes → Json → Option Json
at_key k (field k' v rest) = if k' == k then some v else at_key k rest
at_key k null = none
at_key k j = none

abbrev get_string : Json → Option Bytes
get_string (text s) = some s
get_string j = none

abbrev get_unsigned : Json → Option ℕ
get_unsigned (number k) = some k
get_unsigned j = none

abbrev of_array : List Json → Json
of_array [] = end
of_array (j ∷ js) = entry j (of_array js)

abbrev elements : Json → List Json
elements (entry j js) = j ∷ elements js
elements null = []
elements j = []

abbrev get_array : Json → Option (List Json)
get_array end = some []
get_array (entry j js) = some (elements (entry j js))
get_array j = none

abbrev pub lib : JsonLibrary Json
lib = record {
  null = null;
  set_key = field;
  of_string = text;
  of_unsigned = number;
  of_array = of_array;
  at_key = at_key;
  get_string = get_string;
  get_unsigned = get_unsigned;
  get_array = get_array;
  elements = elements;
  is_time = λ t. true;
}

elements_of : (l : List Json) → elements (of_array l) ≡ l
elements_of [] = refl
elements_of (j ∷ js) = ap (◌∷◌ j) (elements_of js)

array_read : (l : List Json) → get_array (of_array l) ≡ some l
array_read [] = refl
array_read (j ∷ js) = ap (λ l. some (j ∷ l)) (elements_of js)

field_read :
    (k k' : Bytes) (v j : Json)
    → at_key k' (field k v j) ≡ (if k == k' then some v else at_key k' j)
unfolding at_key
field_read k k' v j = refl

lib-IsJson : IsJson lib
lib-IsJson = record {
  IsObject = λ j. Unit;
  null_object = tt;
  set_key_object = λ k v j o. tt;
  at-set_key = λ k k' v j o. field_read k k' v j;
  string_read = λ s. refl;
  unsigned_read = λ k small. refl;
  array_read = array_read;
}

abbrev a_to_b : TravelRoute
a_to_b = record {
  start_station_id = bytes "a";
  end_station_id = bytes "b";
  total_travel_time = 9;
  steps =
      record {
        start_station_id = bytes "a";
        end_station_id = bytes "b";
        line_id = bytes "l";
        route_id = bytes "r";
        travel_time = 9;
      }
      ∷ [];
}

read-write_travel_route_example :
    read_travel_route lib (write_travel_route lib a_to_b) ≡ some a_to_b
read-write_travel_route_example =
    read-write_travel_route lib lib-IsJson a_to_b (omega arith) (omega arith)

abbrev pub object : List (Bytes × Json) → Json
object [] = null
object ((k, v) ∷ fields) = field k v (object fields)

abbrev station : Bytes → Json
station id = object ((bytes "station_id", text id) ∷ (bytes "name", text id) ∷ [])

abbrev route : Json
route = object (
    (bytes "route_id", text (bytes "r"))
    ∷ (bytes "direction", text (bytes "inbound"))
    ∷ (bytes "line_id", text (bytes "l"))
    ∷ (bytes "start_station_id", text (bytes "a"))
    ∷ (bytes "end_station_id", text (bytes "b"))
    ∷ (bytes "route_stops", of_array (text (bytes "a") ∷ text (bytes "b") ∷ []))
    ∷ [])

abbrev line : Json
line = object (
    (bytes "line_id", text (bytes "l"))
    ∷ (bytes "name", text (bytes "L"))
    ∷ (bytes "routes", of_array (route ∷ []))
    ∷ [])

abbrev travel_time : Json
travel_time = object (
    (bytes "start_station_id", text (bytes "a"))
    ∷ (bytes "end_station_id", text (bytes "b"))
    ∷ (bytes "travel_time", number 9)
    ∷ [])

abbrev layout : List Json → Json
layout stations = object (
    (bytes "stations", of_array stations)
    ∷ (bytes "lines", of_array (line ∷ []))
    ∷ (bytes "travel_times", of_array (travel_time ∷ []))
    ∷ [])

abbrev two : List Json
two = station (bytes "a") ∷ station (bytes "b") ∷ []

from_json-LayoutEnd_example :
    LayoutEnd lib (layout two) true true empty (from_json lib (layout two) empty)
from_json-LayoutEnd_example = from_json-LayoutEnd lib (layout two) empty

-- The time from A to B in the network that was loaded, and whether all was.
abbrev loaded : Loading → Option (ℕ × Bool)
loaded (returns n ok) = some (get_travel_time (bytes "a") (bytes "b") n, ok)
loaded other = none

nine_minutes : loaded (from_json lib (layout two) empty) ≡ some (9, true)
unfolding from_json each load_stations load_lines load_travel_times read_all string_at unsigned_at
    read_station read_route read_line read_travel_time at_key add_station add_line add_routes
    add_route_to_line all_stations make_route push_edges push_edge get_station get_line set_node
    lookup assign emplace set_travel_time set_edge_times set_times_from has_edge_to get_travel_time
    time_to
nine_minutes = refl

-- The message of the exception, where there is one.
abbrev message : Loading → Option Bytes
message (throws n e) = some e
message other = none

-- A second station with the same id is an exception.
repeated_station :
    message (from_json lib (layout (station (bytes "a") ∷ station (bytes "a") ∷ [])) empty)
    ≡ some (bytes "Could not add station a")
unfolding from_json each load_stations string_at read_station at_key add_station get_station lookup
    emplace
repeated_station = refl

read_two :
    read_all (read_station lib) two
    ≡ some (
        record { id = bytes "a"; name = bytes "a" }
        ∷ record { id = bytes "b"; name = bytes "b" }
        ∷ [])
unfolding read_all read_station string_at at_key
read_two = refl

load_stations_iff_example :
    ((n : TransportNetwork) × (load_stations lib two empty ≡ returns n true))
    ↔ AreNew
        (record { id = bytes "a"; name = bytes "a" }
          ∷ record { id = bytes "b"; name = bytes "b" }
          ∷ [])
        empty
load_stations_iff_example =
    load_stations_iff lib two
      (record { id = bytes "a"; name = bytes "a" }
        ∷ record { id = bytes "b"; name = bytes "b" }
        ∷ [])
      empty read_two

travel_route_beq_iff_example : (travel_route_beq a_to_b a_to_b ≡ true) ↔ (a_to_b ≡ a_to_b)
travel_route_beq_iff_example = travel_route_beq_iff a_to_b a_to_b
