-- ===== src/Network/Layout.antt =====
-- Values of the JSON library read as passenger events, travel routes and a network layout, and travel
-- routes written: src/TransportNetwork.cpp. The type of the values and the calls of the library are
-- parameters; `none` is an exception of the library.
pub mod Routes
pub mod Loaded
pub mod Times
pub mod Whole
pub mod Stations
use live_transport_network_m.Base.{
  ℕ, ◌-◌, Bool, true, false, ◌&&◌, Option, none, some, List, [], ◌∷◌, ◌++◌, Bytes, bytes, bytes_eq,
  length, take, map, ◌==◌, if◌then◌else◌,
}
use live_transport_network_m.Network.Types.{
  Ident, Station, Route, Line, PassengerEvent, in_, out, TransportNetwork, Result,
}
use live_transport_network_m.Network.Build.{add_station, add_line}
use live_transport_network_m.Network.Plans.{Step, TravelRoute}
use live_transport_network_m.Network.Travel.{set_travel_time}

-- The calls: a fresh value, `value["key"] = v`, `value.at("key")`, `get`, and the values that a
-- range-based `for` visits. `is_time` is `from_iso_extended_string`, which throws or returns.
pub record JsonLibrary (Json : Type 0) : Type 0 where
  pub null : Json
  pub set_key : Bytes → Json → Json → Json
  pub of_string : Bytes → Json
  pub of_unsigned : ℕ → Json
  pub of_array : List Json → Json
  pub at_key : Bytes → Json → Option Json
  pub get_string : Json → Option Bytes
  pub get_unsigned : Json → Option ℕ
  pub get_array : Json → Option (List Json)
  pub elements : Json → List Json
  pub is_time : Bytes → Bool

infixl 5 ◌then_◌
abbrev pub ◌then_◌ {ℓ κ} : {A : Type ℓ} {B : Type κ} → Option A → (A → Option B) → Option B
none then_ f = none
some a then_ f = f a

-- Each of a list, up to the first exception.
unfoldable pub read_all : {A B : Type 0} → (A → Option B) → List A → Option (List B)
read_all f [] = some []
read_all f (x ∷ xs) = f x then_ λ y. read_all f xs then_ λ ys. some (y ∷ ys)

-- How `FromJson` ends, with the network that it leaves: with a result, by an exception of the JSON
-- library, by `std::runtime_error`, or with behaviour that C++ does not define.
pub data Loading : Type 0 where
  returns : TransportNetwork → Bool → Loading
  json_throws : TransportNetwork → Loading
  throws : TransportNetwork → Bytes → Loading
  undefined : Loading

infixl 5 ◌>>=◌
abbrev pub ◌>>=◌ : Loading → (TransportNetwork → Loading) → Loading
returns n ok >>= f = f n
json_throws n >>= f = json_throws n
throws n e >>= f = throws n e
undefined >>= f = undefined

module _ {Json : Type 0} (lib : JsonLibrary Json) where
  unfoldable pub string_at : Bytes → Json → Option Bytes
  string_at key src = lib.at_key key src then_ lib.get_string

  unfoldable pub unsigned_at : Bytes → Json → Option ℕ
  unsigned_at key src = lib.at_key key src then_ lib.get_unsigned

  -- `from_json` of a passenger event; the time is read and not kept.
  unfoldable pub read_passenger_event : Json → Option PassengerEvent
  read_passenger_event src = string_at (bytes "station_id") src then_ λ station_id.
      string_at (bytes "passenger_event") src then_ λ type.
      string_at (bytes "datetime") src then_ λ datetime_z.
      if lib.is_time (take (length datetime_z - 1) datetime_z)
      then some (record { station_id = station_id; type = if type == bytes "in" then in_ else out })
      else none

  -- `to_json` and `from_json` of a step.
  unfoldable pub write_step : Step → Json
  write_step src = lib.set_key (bytes "travel_time") (lib.of_unsigned src.travel_time) (
      lib.set_key (bytes "route_id") (lib.of_string src.route_id) (
        lib.set_key (bytes "line_id") (lib.of_string src.line_id) (
          lib.set_key (bytes "end_station_id") (lib.of_string src.end_station_id) (
            lib.set_key (bytes "start_station_id") (lib.of_string src.start_station_id) lib.null))))

  unfoldable pub read_step : Json → Option Step
  read_step src = string_at (bytes "start_station_id") src then_ λ start.
      string_at (bytes "end_station_id") src then_ λ end.
      string_at (bytes "line_id") src then_ λ line. string_at (bytes "route_id") src then_ λ route.
      unsigned_at (bytes "travel_time") src then_ λ time. some (record {
        start_station_id = start;
        end_station_id = end;
        line_id = line;
        route_id = route;
        travel_time = time;
      })

  -- `to_json` and `from_json` of a travel route.
  unfoldable pub write_travel_route : TravelRoute → Json
  write_travel_route src = lib.set_key (bytes "steps") (lib.of_array (map write_step src.steps)) (
      lib.set_key (bytes "total_travel_time") (lib.of_unsigned src.total_travel_time) (
        lib.set_key (bytes "end_station_id") (lib.of_string src.end_station_id)
          (lib.set_key (bytes "start_station_id") (lib.of_string src.start_station_id) lib.null)))

  unfoldable pub read_travel_route : Json → Option TravelRoute
  read_travel_route src = string_at (bytes "start_station_id") src then_ λ start.
      string_at (bytes "end_station_id") src then_ λ end.
      unsigned_at (bytes "total_travel_time") src then_ λ time.
      lib.at_key (bytes "steps") src then_ λ array. lib.get_array array then_ λ values.
      read_all read_step values then_ λ steps. some (record {
        start_station_id = start;
        end_station_id = end;
        total_travel_time = time;
        steps = steps;
      })

  -- The parts of a layout.
  unfoldable pub read_station : Json → Option Station
  read_station src = string_at (bytes "station_id") src then_ λ id.
      string_at (bytes "name") src then_ λ name. some (record { id = id; name = name })

  unfoldable pub read_route : Json → Option Route
  read_route src = string_at (bytes "route_id") src then_ λ id.
      string_at (bytes "direction") src then_ λ direction.
      string_at (bytes "line_id") src then_ λ line.
      string_at (bytes "start_station_id") src then_ λ start.
      string_at (bytes "end_station_id") src then_ λ end.
      lib.at_key (bytes "route_stops") src then_ λ array. lib.get_array array then_ λ values.
      read_all lib.get_string values then_ λ stops. some (record {
        id = id;
        direction = direction;
        line_id = line;
        start_station_id = start;
        end_station_id = end;
        stops = stops;
      })

  unfoldable pub read_line : Json → Option Line
  read_line src = string_at (bytes "line_id") src then_ λ id.
      string_at (bytes "name") src then_ λ name.
      lib.at_key (bytes "routes") src then_ λ routes_json.
      read_all read_route (lib.elements routes_json) then_ λ routes.
      some (record { id = id; name = name; routes = routes })

  unfoldable pub read_travel_time : Json → Option (Ident × Ident × ℕ)
  read_travel_time src = string_at (bytes "start_station_id") src then_ λ start.
      string_at (bytes "end_station_id") src then_ λ end.
      unsigned_at (bytes "travel_time") src then_ λ time. some (start, end, time)

  -- The three loops of `FromJson`.
  unfoldable pub load_stations : List Json → TransportNetwork → Loading
  load_stations [] n = returns n true
  load_stations (src ∷ rest) n = elim (read_station src) [
    | none ↦ json_throws n
    | some station ↦
        let (n', ok) = add_station station n in
        elim ok [
          | true ↦ load_stations rest n'
          | false ↦ throws n' (bytes "Could not add station " ++ station.id)
        ]
  ]

  unfoldable pub load_lines : List Json → TransportNetwork → Loading
  load_lines [] n = returns n true
  load_lines (src ∷ rest) n = elim (read_line src) [
    | none ↦ json_throws n
    | some line ↦ elim (add_line line n) [
      | Result.undefined ↦ undefined
      | Result.throws e ↦ throws n e
      | Result.returns (n', ok) ↦ elim ok [
        | true ↦ load_lines rest n'
        | false ↦ throws n' (bytes "Could not add line " ++ line.id)
      ]
    ]
  ]

  unfoldable pub load_travel_times : List Json → Bool → TransportNetwork → Loading
  load_travel_times [] ok n = returns n ok
  load_travel_times (src ∷ rest) ok n = elim (read_travel_time src) [
    | none ↦ json_throws n
    | some (start, end, time) ↦
        let (n', set) = set_travel_time start end time n in load_travel_times rest (ok && set) n'
  ]

  -- The values of one loop, or an exception.
  unfoldable pub each :
      Bytes → Json → (List Json → TransportNetwork → Loading) → TransportNetwork → Loading
  each key src loop n = elim (lib.at_key key src) [
    | none ↦ json_throws n
    | some values ↦ loop (lib.elements values) n
  ]

  -- `FromJson`
  unfoldable pub from_json : Json → TransportNetwork → Loading
  from_json src n = each (bytes "stations") src load_stations n >>= λ n₁.
      each (bytes "lines") src load_lines n₁ >>= λ n₂.
      each (bytes "travel_times") src (λ values. load_travel_times values true) n₂
