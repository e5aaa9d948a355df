-- ===== src/Tests/Monitors.antt =====
-- The monitor at concrete inputs: inc/network-monitor/NetworkMonitor.h.
use live_transport_network_m.Base.{
  ◌≡◌, ◌≢◌, ◌↔◌, refl, arith, bytes_eq, Option, some, none, List, [], ◌∷◌, Bytes, bytes, sub_ℕ,
}
use live_transport_network_m.Client.{send_subscribe}
use live_transport_network_m.Client.Errors.{StompClientError}
use live_transport_network_m.Monitor.Connected.{
  subscribe_headers, passenger_events, connected_subscribes,
}
use live_transport_network_m.Base.{ℤ, Assoc, pos, negsuc, lookup, bytes_eq}
use live_transport_network_m.Monitor.{abs, set_network_crowding}
use live_transport_network_m.Monitor.Crowding.{add_crowd, count-set_network_crowding}
use live_transport_network_m.Monitor.Errors.{NetworkMonitorError}
use live_transport_network_m.Monitor.Events.{
  receive_all, events, count-receive_all, on_network_events_message_code,
}
use live_transport_network_m.Monitor.{
  Monitor, Library, parse_event, passengers, client, on_network_events_connect,
  on_network_events_message,
}
use live_transport_network_m.Network.Stations.Counts.{count, entries, add_to}
use live_transport_network_m.Network.Types.{
  Ident, PassengerEvent, in_, out, get_station, TransportNetwork, returns, undefined,
}
use live_transport_network_m.Server.Frames.{frame_of}
use live_transport_network_m.Stomp.Command.{StompCommand}
use live_transport_network_m.Stomp.Outcome.{done}
use live_transport_network_m.Tests.Networks.{two_stations}
use live_transport_network_m.Tests.Layouts as Layouts
use live_transport_network_m.Tests.Layouts.{Json, text, number, field, object}
use live_transport_network_m.Tests.Library.{std}
use live_transport_network_m.Tests.Searches.{twice, same}
use live_transport_network_m.Network.Plans.{empty_route}
use live_transport_network_m.Tests.Sessions as Sessions
use live_transport_network_m.Tests.Sessions.{
  env, env-IsIteration, open_connection, connection_found, session_found,
}

-- A message is read as one passenger who leaves a station, or as the two ends of a route, with ids of
-- one byte each.
abbrev parse : Bytes → Option Json
parse (x ∷ []) = some (
    object (
      (bytes "station_id", text (x ∷ []))
      ∷ (bytes "passenger_event", text (bytes "out"))
      ∷ (bytes "datetime", text (bytes "2020-11-01T07:18:50Z"))
      ∷ []))
parse (x ∷ y ∷ []) = some (
    object
      ((bytes "start_station_id", text (x ∷ [])) ∷ (bytes "end_station_id", text (y ∷ [])) ∷ []))
parse _ = none

-- An object is written as its second field, a number in one byte.
abbrev dump : Json → Bytes
dump (field k v (field k' (number t) j)) = t ∷ []
dump _ = []

abbrev pub lib : Library Json
lib = record {
  json = Layouts.lib;
  parse = parse;
  dump = dump;
  std = std;
  slowed = twice;
  quieter = same;
  max_n_paths = 5;
}

abbrev pub monitor : TransportNetwork → Monitor
monitor n = record {
  network = n;
  stomp_client = Sessions.client;
  stomp_server = Sessions.server open_connection;
  connected_clients = bytes "abc" ∷ [];
  last_error = NetworkMonitorError.undefined_error;
  last_travel_route = empty_route;
}

abbrev messages : List Bytes
messages = bytes "a" ∷ bytes "what" ∷ bytes "z" ∷ []

count-receive_all_example :
    count (bytes "a") (receive_all lib messages (monitor two_stations)).network
    ≡ add_to
        (sub_ℕ
          (entries in_ (bytes "a") (events lib messages))
          (entries out (bytes "a") (events lib messages)))
        (count (bytes "a") two_stations)
count-receive_all_example = count-receive_all lib messages (monitor two_stations) (bytes "a")

on_network_events_message_code_example :
    ((on_network_events_message lib StompClientError.ok
        (bytes "a")
        (monitor two_stations)).last_error
      ≡ NetworkMonitorError.ok)
    ↔ ((event : PassengerEvent) × (parse_event lib (bytes "a") ≡ some event)
        × (get_station event.station_id two_stations ≢ none))
on_network_events_message_code_example =
    on_network_events_message_code lib StompClientError.ok (bytes "a") (monitor two_stations)

connected_subscribes_example :
    on_network_events_connect env (bytes "9") StompClientError.ok (monitor two_stations)
    ≡ done (
      record (monitor two_stations) { last_error = NetworkMonitorError.ok },
      client (
            send_subscribe
              (frame_of env StompCommand.subscribe
                (subscribe_headers (bytes "9") passengers)
                []).plain
              (bytes "9")
              passenger_events)
          ∷ [],
    )
connected_subscribes_example =
    connected_subscribes (monitor two_stations) env (bytes "9") env-IsIteration
      (λ e. cc, omega arith)

-- Three who leave the first station, and four who come to the second.
abbrev changes : Assoc Ident ℤ
changes = (bytes "a", negsuc 2) ∷ (bytes "b", pos 4) ∷ []

count-set_network_crowding_example :
    (n : TransportNetwork) × (set_network_crowding changes two_stations ≡ returns n)
    × ((x : Ident) → count x n ≡ add_crowd (lookup x changes) (count x two_stations))
count-set_network_crowding_example =
    count-set_network_crowding changes two_stations ((refl, tt), (tt, tt))
      (omega arith, (omega arith, tt))

-- The least `int`.
least_undefined :
    set_network_crowding ((bytes "a", negsuc 2_147_483_647) ∷ []) two_stations ≡ undefined
unfolding set_network_crowding abs
least_undefined = refl
