-- ===== src/Monitor/Quiet.antt =====
-- Requests for quiet routes, from the server's user to the client's:
-- inc/network-monitor/NetworkMonitor.h.
use live_transport_network_m.Base.{
  none, ◌<◌, ◌≡◌, refl, true, some, [], ◌∷◌, Bytes, bytes_eq, lookup, length, nat_eq, arith,
}
use live_transport_network_m.Client.{Client, on_ws_message, post_message}
use live_transport_network_m.Client.Errors.{StompClientError, client_error_eq}
use live_transport_network_m.Handshake.{reply_delivered}
use live_transport_network_m.Monitor.Errors.{NetworkMonitorError}
use live_transport_network_m.Monitor.{
  Monitor, Library, server, quiet_route, on_quiet_route_client_message, parse_request, route_for,
  text_of,
}
use live_transport_network_m.Network.Types.{Ident}
use live_transport_network_m.Network.Paths.{found}
use live_transport_network_m.Network.Plans.{TravelRoute}
use live_transport_network_m.Server
use live_transport_network_m.Server.{Environment, Session, Connection, connected}
use live_transport_network_m.Server.Frames.{IsIteration, FitsLine}
use live_transport_network_m.Stomp.Number.{size_mod}
use live_transport_network_m.Stomp.Outcome.{done}

module _ {Json : Type 0} (lib : Library Json) (m : Monitor) where
  -- A request for a quiet route is answered with the network's travel route: for a connected client
  -- and a message that is read as two stations, where `GetQuietTravelRoute` returns a route for them,
  -- the monitor keeps the route, reports no error, and makes one call, which sends a text on which
  -- the client's `OnWsMessage` reports the route's JSON text, byte for byte, for the destination of
  -- the request. The request has an id that can stand in a header, and the JSON text's length fits a
  -- `size_t`.
  pub quiet_route_answered :
      (env : Environment)
      → IsIteration env.iterate
      → (ws : Session) (conn : Connection) (c : Client) (new_id request_id message : Bytes)
        (start end : Ident) (route : TravelRoute)
      → lookup conn.id m.stomp_server.sessions ≡ some ws
      → lookup ws m.stomp_server.connections ≡ some conn
      → conn.status ≡ connected
      → c.on_message ≡ true
      → FitsLine request_id
      → parse_request lib message ≡ some (start, end)
      → route_for lib start end m.network ≡ found route
      → length (text_of lib route) < size_mod
      → (text : Bytes) × (on_quiet_route_client_message lib env new_id conn.id quiet_route
            request_id message m
          ≡ found (
              done (
                record m { last_error = NetworkMonitorError.ok; last_travel_route = route },
                server (Server.send ws text none) ∷ [],
              )))
        × (on_ws_message env text c
            ≡ done (post_message StompClientError.ok quiet_route (text_of lib route) ∷ []))
  unfolding on_quiet_route_client_message
  quiet_route_answered env it ws conn c new_id request_id message start end route at found_
        is_connected listens r read routed bound =
      let (reply, sent, received) =
        reply_delivered env it m.stomp_server ws conn c new_id request_id quiet_route
          (text_of lib route) at found_ is_connected listens r (λ e. cc, omega arith) bound in
      (reply, rw (read, on_quiet_route_client_message) (rw routed (rw sent refl)), received)
