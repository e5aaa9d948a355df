-- ===== src/Monitor/Connected.antt =====
-- The subscription to the passenger events: inc/network-monitor/NetworkMonitor.h, over
-- inc/network-monitor/StompClient.h.
use live_transport_network_m.Base.{
  ◌≡◌, refl, true, false, [], ◌∷◌, Bytes, bytes, bytes_eq, ◌==◌, lookup, arith,
}
use live_transport_network_m.Client
use live_transport_network_m.Client.{
  Subscription, Client, send_subscribe, post_subscribe, on_ws_send_subscribe,
  handle_subscription_receipt,
}
use live_transport_network_m.Client.Errors.{StompClientError, client_error_eq}
use live_transport_network_m.Monitor.Errors.{NetworkMonitorError}
use live_transport_network_m.Monitor.{Monitor, client, passengers, on_network_events_connect}
use live_transport_network_m.Server.{Environment}
use live_transport_network_m.Server.Frames.{IsIteration, FitsLine, frame_of, of_parts-iterate}
use live_transport_network_m.Stomp.Command.{StompCommand}
use live_transport_network_m.Stomp.Errors.{error_eq}
use live_transport_network_m.Stomp.Frame.{Headers}
use live_transport_network_m.Stomp.Frame.RoundTrip.{IsSendable}
use live_transport_network_m.Stomp.Header.{StompHeader, header_eq}
use live_transport_network_m.Stomp.Outcome.{done}

abbrev pub subscribe_headers : Bytes → Bytes → Headers
subscribe_headers new_id destination =
    (StompHeader.id, new_id)
    ∷ (StompHeader.destination, destination)
    ∷ (StompHeader.ack, bytes "auto")
    ∷ (StompHeader.receipt, new_id)
    ∷ []

subscribe-IsSendable :
    (new_id destination : Bytes)
    → FitsLine new_id
    → FitsLine destination
    → IsSendable StompCommand.subscribe (subscribe_headers new_id destination) []
unfolding lookup
subscribe-IsSendable new_id destination i d = record {
  known = λ e. cc;
  lines_valid = (
    (λ e. cc, i.0, i.1),
    ((λ e. cc, d.0, d.1), ((λ e. cc, λ e. cc, omega arith), ((λ e. cc, i.0, i.1), tt))),
  );
  distinct = ((refl, (refl, (refl, tt))), ((refl, (refl, tt)), ((refl, tt), (tt, tt))));
  body_fits = tt;
  has_required = (λ e. cc, (λ e. cc, tt));
}

-- The subscription that the monitor asks for.
abbrev pub passenger_events : Subscription
passenger_events = record { destination = passengers; on_subscribe = true; on_message = true }

module _ (m : Monitor) where
  -- Once the client is connected, the monitor makes one call, which sends a SUBSCRIBE frame for the
  -- passenger events, and reports no error. The id of the subscription can stand in a header.
  pub connected_subscribes :
      (env : Environment) (new_id : Bytes)
      → IsIteration env.iterate
      → FitsLine new_id
      → on_network_events_connect env new_id StompClientError.ok m
        ≡ done (
          record m { last_error = NetworkMonitorError.ok },
          client (
                send_subscribe
                  (frame_of env StompCommand.subscribe
                    (subscribe_headers new_id passengers)
                    []).plain
                  new_id
                  passenger_events)
              ∷ [],
        )
  unfolding on_network_events_connect Client.subscribe
  connected_subscribes env new_id it i =
      let sendable = subscribe-IsSendable new_id passengers i (λ e. cc, omega arith) in
      let kept : (new_id == []) ≡ false = ground (arith, bytes_eq.beq_iff new_id [], i.0) in
      rw
        (of_parts-iterate env it StompCommand.subscribe (subscribe_headers new_id passengers) []
          sendable)
        (rw kept refl)
