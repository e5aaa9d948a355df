-- ===== src/Monitor/Events.antt =====
-- The passenger events that the monitor takes in: inc/network-monitor/NetworkMonitor.h.
use live_transport_network_m.Base.{
  ◌≡◌, ◌↔◌, refl, arith, none, some, Option-cases, inl, inr, List, [], ◌∷◌, Bytes, ◌≢◌, sub_ℕ,
}
use live_transport_network_m.Client.Errors.{StompClientError}
use live_transport_network_m.Monitor.Errors.{NetworkMonitorError}
use live_transport_network_m.Monitor.{Monitor, Library, parse_event, on_network_events_message}
use live_transport_network_m.Network.Stations.Counts.{
  record_all, count, entries, add_to, count-record_all,
}
use live_transport_network_m.Network.Stations.{record_passenger_event}
use live_transport_network_m.Network.Types.{Ident, PassengerEvent, in_, out, get_station}

module _ {Json : Type 0} (lib : Library Json) where
  -- One message after another.
  abbrev pub receive_all : List Bytes → Monitor → Monitor
  receive_all [] m = m
  receive_all (msg ∷ msgs) m =
      receive_all msgs (on_network_events_message lib StompClientError.ok msg m)

  -- The events among the messages.
  abbrev pub events : List Bytes → List PassengerEvent
  events [] = []
  events (msg ∷ msgs) = elim (parse_event lib msg) [
    | none ↦ events msgs
    | some event ↦ event ∷ events msgs
  ]

  -- One message, with what the library makes of it.
  network-receive :
      (msgs : List Bytes) (msg : Bytes) (m : Monitor)
      → record_all (events msgs) (on_network_events_message lib StompClientError.ok msg m).network
        ≡ record_all (events (msg ∷ msgs)) m.network
  unfolding on_network_events_message
  network-receive msgs msg m = elim (Option-cases (parse_event lib msg)) [
    | inl bad ↦ cc
    | inr (event, parsed) ↦ cc
  ]

  network-receive_all :
      (msgs : List Bytes) (m : Monitor)
      → (receive_all msgs m).network ≡ record_all (events msgs) m.network
  network-receive_all [] m = refl
  network-receive_all (msg ∷ msgs) m =
      rw (network-receive_all msgs (on_network_events_message lib StompClientError.ok msg m))
        (network-receive msgs msg m)

  -- After any messages, each station's count is the old one, plus those who went in, less those who
  -- came out, by the messages that are passenger events; messages that cannot be parsed, and events
  -- at stations that the network does not have, change no count.
  pub count-receive_all :
      (msgs : List Bytes) (m : Monitor) (x : Ident)
      → count x (receive_all msgs m).network
        ≡ add_to
            (sub_ℕ (entries in_ x (events msgs)) (entries out x (events msgs)))
            (count x m.network)
  count-receive_all msgs m x =
      rw (network-receive_all msgs m) (count-record_all (events msgs) m.network x)

  -- What the error code says of one message, whatever code came with it: `kOk` exactly for an event
  -- at a station of the network.
  pub on_network_events_message_code :
      (ec : StompClientError) (msg : Bytes) (m : Monitor)
      → ((on_network_events_message lib ec msg m).last_error ≡ NetworkMonitorError.ok) ↔ (
          (event : PassengerEvent) × (parse_event lib msg ≡ some event)
          × (get_station event.station_id m.network ≢ none))
  unfolding on_network_events_message record_passenger_event
  on_network_events_message_code ec msg m = elim (Option-cases (parse_event lib msg)) [
    | inl bad ↦ (λ e. ground arith, λ p. ground arith)
    | inr (event, parsed) ↦
        (λ e. (event, parsed, ground arith), λ (event', parsed', there). ground arith)
  ]
