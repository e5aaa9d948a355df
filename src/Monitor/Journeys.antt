-- ===== src/Monitor/Journeys.antt =====
-- A request for a quiet route and the network's answer, together:
-- inc/network-monitor/NetworkMonitor.h and src/TransportNetwork.cpp.
use live_transport_network_m.Base.{
  ℕ, none, ◌+◌, ◌*◌, ◌≤◌, ◌<◌, ◌≡◌, ◌≢◌, true, some, [], ◌∷◌, Bytes, bytes_eq, lookup, length,
  nat_eq,
}
use live_transport_network_m.Client.{Client, on_ws_message, post_message}
use live_transport_network_m.Client.Errors.{StompClientError}
use live_transport_network_m.Monitor.Errors.{NetworkMonitorError}
use live_transport_network_m.Monitor.{
  Monitor, Library, server, quiet_route, on_quiet_route_client_message, parse_request, route_for,
  text_of,
}
use live_transport_network_m.Monitor.Quiet.{quiet_route_answered}
use live_transport_network_m.Network.Types.{Ident, get_station}
use live_transport_network_m.Network.Travel.{uint_mod}
use live_transport_network_m.Network.Plans.{TravelRoute}
use live_transport_network_m.Network.Paths.{found, edges_in}
use live_transport_network_m.Network.Paths.Closed.{IsStd}
use live_transport_network_m.Network.Paths.Minutes.{minutes}
use live_transport_network_m.Network.Alternatives.Selection.{IsPathQueue}
use live_transport_network_m.Network.Quiet.Choice.{IsQuiet, get_quiet_travel_route-IsQuiet}
use live_transport_network_m.Server
use live_transport_network_m.Server.{Environment, Session, Connection, connected}
use live_transport_network_m.Server.Frames.{IsIteration, FitsLine}
use live_transport_network_m.Stomp.Number.{size_mod}
use live_transport_network_m.Stomp.Outcome.{done}

module _ {Json : Type 0} (lib : Library Json) (m : Monitor) (is : IsStd lib.std)
    (is_queue : IsPathQueue lib.std) where
  -- The client that asks for a quiet route between two different stations is given one: a connected
  -- client's request is answered by one call, which sends a text on which the client reports the JSON
  -- text of a route, byte for byte; and that route, which the monitor keeps, is the one of
  -- `GetQuietTravelRoute`, is empty where there is no journey, and otherwise is a journey between the
  -- stations that is the fastest or within the limit on its time. The request can be read and has an
  -- id that can stand in a header, the length of the route's JSON text fits a `size_t`, and no
  -- distance wraps around.
  pub journey_answered :
      (env : Environment)
      → IsIteration env.iterate
      → (ws : Session) (conn : Connection) (c : Client) (new_id request_id message : Bytes)
        (start end : Ident)
      → lookup conn.id m.stomp_server.sessions ≡ some ws
      → lookup ws m.stomp_server.connections ≡ some conn
      → conn.status ≡ connected
      → c.on_message ≡ true
      → FitsLine request_id
      → parse_request lib message ≡ some (start, end)
      → ((r : TravelRoute)
          → route_for lib start end m.network ≡ found r
          → length (text_of lib r) < size_mod)
      → get_station start m.network ≢ none
      → get_station end m.network ≢ none
      → start ≢ end
      → ((t : ℕ)
          → t ≤ minutes (edges_in m.network.stations)
          → lib.slowed t + 3 * minutes (edges_in m.network.stations) < uint_mod)
      → (r : TravelRoute) × (text : Bytes) × (on_quiet_route_client_message lib env new_id conn.id
            quiet_route request_id message m
          ≡ found (
              done (
                record m { last_error = NetworkMonitorError.ok; last_travel_route = r },
                server (Server.send ws text none) ∷ [],
              )))
        × (on_ws_message env text c
            ≡ done (post_message StompClientError.ok quiet_route (text_of lib r) ∷ []))
        × (route_for lib start end m.network ≡ found r)
        × IsQuiet m.network lib.std is is_queue lib.slowed start end r
  unfolding route_for
  journey_answered env it ws conn c new_id request_id message start end at found_ is_connected
        listens fits_line read bound known_start known_end ne fits =
      let (r, routed, quiet) =
        get_quiet_travel_route-IsQuiet m.network lib.std is is_queue lib.slowed lib.quieter
          lib.max_n_paths start end known_start known_end ne fits in
      let (text, sent, received) =
        quiet_route_answered lib m env it ws conn c new_id request_id message start end r at found_
          is_connected listens fits_line read routed (bound r routed) in
      (r, text, sent, received, routed, quiet)
