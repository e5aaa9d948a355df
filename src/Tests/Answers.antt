-- ===== src/Tests/Answers.antt =====
-- A request for a quiet route at a concrete input: inc/network-monitor/NetworkMonitor.h and
-- src/TransportNetwork.cpp.
use live_transport_network_m.Base.{◌≡◌, ◌<◌, length, refl, arith, none, some, [], ◌∷◌, Bytes, bytes}
use live_transport_network_m.Client.{on_ws_message, post_message}
use live_transport_network_m.Client.Errors.{StompClientError}
use live_transport_network_m.Monitor.Errors.{NetworkMonitorError}
use live_transport_network_m.Monitor.Journeys.{journey_answered}
use live_transport_network_m.Monitor.Quiet.{quiet_route_answered}
use live_transport_network_m.Network.Layout.{string_at, write_travel_route}
use live_transport_network_m.Network.Paths.{found}
use live_transport_network_m.Stomp.Number.{size_mod}
use live_transport_network_m.Tests.Layouts.{at_key}
use live_transport_network_m.Tests.Monitors.{lib, monitor}
use live_transport_network_m.Monitor.{
  quiet_route, server, on_quiet_route_client_message, parse_request, route_for, text_of,
}
use live_transport_network_m.Network.Plans.{TravelRoute, step_by, at_station}
use live_transport_network_m.Network.Quiet.Choice.{IsQuiet}
use live_transport_network_m.Server
use live_transport_network_m.Stomp.Outcome.{done}
use live_transport_network_m.Tests.Library.{std, std-IsStd, std-IsPathQueue}
use live_transport_network_m.Tests.Searches.{
  a, b, three_stations, twice, direct_ride, stop, a-ne-b, known_a, known_b, fits, direct_is_quiet,
}
use live_transport_network_m.Tests.Sessions as Sessions
use live_transport_network_m.Tests.Sessions.{
  env, env-IsIteration, open_connection, connection_found, session_found,
}

abbrev route : TravelRoute
route = record {
  start_station_id = a;
  end_station_id = b;
  total_travel_time = 9;
  steps = step_by (at_station a) direct_ride (stop b direct_ride) ∷ [];
}

request_read : parse_request lib (bytes "ab") ≡ some (a, b)
unfolding parse_request string_at at_key
request_read = refl

route_found : route_for lib a b three_stations ≡ found route
unfolding route_for
route_found = direct_is_quiet

text_fits : (r : TravelRoute) → length (text_of lib r) < size_mod
unfolding text_of write_travel_route
text_fits r = omega arith

quiet_route_answered_example :
    (text : Bytes) × (on_quiet_route_client_message lib env
        (bytes "9")
        (bytes "abc")
        quiet_route
        (bytes "8")
        (bytes "ab")
        (monitor three_stations)
      ≡ found (
          done (
            record (monitor three_stations) {
              last_error = NetworkMonitorError.ok;
              last_travel_route = route;
            },
            server (Server.send 4 text none) ∷ [],
          )))
    × (on_ws_message env text Sessions.client
        ≡ done (post_message StompClientError.ok quiet_route (text_of lib route) ∷ []))
quiet_route_answered_example =
    quiet_route_answered lib (monitor three_stations) env env-IsIteration 4 open_connection
      Sessions.client (bytes "9") (bytes "8") (bytes "ab") a b route session_found
      (connection_found open_connection) refl refl (λ e. cc, omega arith) request_read route_found
      (text_fits route)

-- The text has the time of the route.
answer_text : text_of lib route ≡ 9 ∷ []
unfolding text_of write_travel_route
answer_text = refl

journey_answered_example :
    (r : TravelRoute) × (text : Bytes) × (on_quiet_route_client_message lib env
        (bytes "9")
        (bytes "abc")
        quiet_route
        (bytes "8")
        (bytes "ab")
        (monitor three_stations)
      ≡ found (
          done (
            record (monitor three_stations) {
              last_error = NetworkMonitorError.ok;
              last_travel_route = r;
            },
            server (Server.send 4 text none) ∷ [],
          )))
    × (on_ws_message env text Sessions.client
        ≡ done (post_message StompClientError.ok quiet_route (text_of lib r) ∷ []))
    × (route_for lib a b three_stations ≡ found r)
    × IsQuiet three_stations std std-IsStd std-IsPathQueue twice a b r
journey_answered_example =
    journey_answered lib (monitor three_stations) std-IsStd std-IsPathQueue env env-IsIteration 4
      open_connection Sessions.client (bytes "9") (bytes "8") (bytes "ab") a b session_found
      (connection_found open_connection) refl refl (λ e. cc, omega arith) request_read
      (λ r e. text_fits r) known_a known_b a-ne-b fits
