-- ===== src/Monitor.antt =====
-- The handlers of `NetworkMonitor`, and `SetNetworkCrowding`: inc/network-monitor/NetworkMonitor.h. They use the network, the
-- STOMP client and the STOMP server of the other modules.
pub mod Errors
pub mod Events
pub mod Quiet
pub mod Crowding
pub mod Connected
pub mod Journeys
use live_transport_network_m.Base.{
  ℕ, zero, suc, ℤ, pos, negsuc, ltb, ◌^◌, Bool, true, false, not, Option, none, some, List, [], ◌∷◌,
  ◌++◌, map, Bytes, bytes, bytes_eq, ◌==◌, if◌then◌else◌,
}
use live_transport_network_m.Client
use live_transport_network_m.Client.{Client, Subscription}
use live_transport_network_m.Client.Errors.{StompClientError, client_error_eq}
use live_transport_network_m.Monitor.Errors.{NetworkMonitorError}
use live_transport_network_m.Network.Stations.{record_passenger_event}
use live_transport_network_m.Network.Types
use live_transport_network_m.Network.Types.{
  Ident, PassengerEvent, in_, out, TransportNetwork, Result, returns, undefined,
}
use live_transport_network_m.Network.Layout.{
  JsonLibrary, ◌then_◌, string_at, read_passenger_event, write_travel_route,
}
use live_transport_network_m.Network.Paths
use live_transport_network_m.Network.Paths.{Std, Found, found}
use live_transport_network_m.Network.Plans.{TravelRoute}
use live_transport_network_m.Network.Quiet.{get_quiet_travel_route}
use live_transport_network_m.Server
use live_transport_network_m.Server.{Server, Environment, close_client, send_client}
use live_transport_network_m.Stomp.Outcome.{Outcome, done, ◌>>=◌}

-- A call that a handler makes on the client's side or on the server's side.
pub data Action : Type 0 where
  client : Client.Action → Action
  server : Server.Action → Action

abbrev pub passengers : Bytes
passengers = bytes "/passengers"

abbrev pub quiet_route : Bytes
quiet_route = bytes "/quiet-route"

-- The members.
pub record Monitor : Type 0 where
  pub network : TransportNetwork
  pub stomp_client : Client
  pub stomp_server : Server
  pub connected_clients : List Bytes
  pub last_error : NetworkMonitorError
  pub last_travel_route : TravelRoute

-- `std::unordered_set::insert` and `erase`.
unfoldable pub remove : Bytes → List Bytes → List Bytes
remove id [] = []
remove id (x ∷ xs) = if x == id then remove id xs else x ∷ remove id xs

unfoldable pub insert : Bytes → List Bytes → List Bytes
insert id [] = id ∷ []
insert id (x ∷ xs) = if x == id then x ∷ xs else x ∷ insert id xs

-- What the program takes from elsewhere: the JSON library, with `parse` (`none` is an exception) and
-- `dump`; what the search for a path takes of the standard library; and of the configuration the
-- products of a time and of a crowding with the percentages, and the greatest number of paths.
pub record Library (Json : Type 0) : Type 0 where
  pub json : JsonLibrary Json
  pub parse : Bytes → Option Json
  pub dump : Json → Bytes
  pub std : Std
  pub slowed : ℕ → ℕ
  pub quieter : ℕ → ℕ
  pub max_n_paths : ℕ

-- A message as a passenger event, and as a request for a route between two stations.
unfoldable pub parse_event : {Json : Type 0} → Library Json → Bytes → Option PassengerEvent
parse_event lib msg = lib.parse msg then_ read_passenger_event lib.json

unfoldable pub parse_request : {Json : Type 0} → Library Json → Bytes → Option (Ident × Ident)
parse_request lib message = lib.parse message then_ λ src.
    string_at lib.json (bytes "start_station_id") src then_ λ start.
    string_at lib.json (bytes "end_station_id") src then_ λ end. some (start, end)

-- The route of a request, and the text that answers it.
unfoldable pub route_for :
    {Json : Type 0} → Library Json → Ident → Ident → TransportNetwork → Found TravelRoute
route_for lib start end n =
    get_quiet_travel_route lib.std n lib.slowed lib.quieter lib.max_n_paths start end

unfoldable pub text_of : {Json : Type 0} → Library Json → TravelRoute → Bytes
text_of lib route = lib.dump (write_travel_route lib.json route)

-- `client_->Close(); server_->Stop();`
unfoldable pub shut_down : Monitor → Monitor × List Action
shut_down m =
    let (c, closing) = Client.close false m.stomp_client in
    let (s, stopping) = Server.stop m.stomp_server in
    (record m { stomp_client = c; stomp_server = s }, map client closing ++ map server stopping)

-- `OnNetworkEventsConnect`, with the id that the client generates for the subscription.
unfoldable pub on_network_events_connect :
    Environment → Bytes → StompClientError → Monitor → Outcome (Monitor × List Action)
on_network_events_connect env new_id ec m =
    if ec == StompClientError.ok
    then (do
      subscribed ←
          Client.subscribe env new_id
            (record { destination = passengers; on_subscribe = true; on_message = true })
      let after =
          if subscribed.1 == []
          then shut_down (record m {
            last_error = NetworkMonitorError.could_not_subscribe_to_passenger_events;
          })
          else (m, [])
      done (
        record (after.0) { last_error = NetworkMonitorError.ok },
        map client subscribed.0 ++ after.1,
      ))
    else done (
        shut_down (record m { last_error = NetworkMonitorError.could_not_connect_to_stomp_client }))

-- `OnNetworkEventsDisconnect`
unfoldable pub on_network_events_disconnect : StompClientError → Monitor → Monitor
on_network_events_disconnect ec m = record m {
  last_error = NetworkMonitorError.stomp_client_disconnected;
}

-- `OnSubscribe`
unfoldable pub on_subscribe : StompClientError → Bytes → Monitor → Monitor
on_subscribe ec id m =
    let reported =
      if ec == StompClientError.ok
      then m
      else record m { last_error = NetworkMonitorError.could_not_subscribe_to_passenger_events } in
    record reported { last_error = NetworkMonitorError.ok }

-- `OnNetworkEventsMessage`; the error code is not looked at.
unfoldable pub on_network_events_message :
    {Json : Type 0} → Library Json → StompClientError → Bytes → Monitor → Monitor
on_network_events_message lib ec msg m = elim (parse_event lib msg) [
  | none ↦ record m { last_error = NetworkMonitorError.could_not_parse_passenger_event }
  | some event ↦
      let (network, recorded) = record_passenger_event event m.network in
      record m {
        network = network;
        last_error =
            if recorded
            then NetworkMonitorError.ok
            else NetworkMonitorError.could_not_record_passenger_event;
      }
]

-- `OnQuietRouteClientConnect`
unfoldable pub on_quiet_route_client_connect : Bytes → Monitor → Monitor
on_quiet_route_client_connect id m = record m {
  connected_clients = insert id m.connected_clients;
  last_error = NetworkMonitorError.ok;
}

-- `server_->Close(connectionId); connectedClients_.erase(connectionId);`
unfoldable pub turn_away : Environment → Bytes → Monitor → Outcome (Monitor × List Action)
turn_away env id m = do
  closed ← close_client env id false m.stomp_server
  done (
    record m { stomp_server = closed.0; connected_clients = remove id m.connected_clients },
    map server closed.1,
  )

-- `OnQuietRouteClientMessage`, with the id that the server generates where the request has none.
-- `Found` says how the search for the route ends, and `Outcome` how the frames are made.
unfoldable pub on_quiet_route_client_message :
    {Json : Type 0}
    → Library Json
    → Environment
    → Bytes
    → Bytes
    → Bytes
    → Bytes
    → Bytes
    → Monitor
    → Found (Outcome (Monitor × List Action))
on_quiet_route_client_message lib env new_id id destination request_id message m =
    if destination == quiet_route
    then elim (parse_request lib message) [
      | none ↦ found (
          turn_away env id
            (record m { last_error = NetworkMonitorError.could_not_parse_quiet_route_request }))
      | some (start, end) ↦ Paths.◌>>=◌ (route_for lib start end m.network) λ route. found (do
        sent ←
            send_client env new_id id quiet_route (text_of lib route) false request_id
              m.stomp_server
        done (
          record m { last_error = NetworkMonitorError.ok; last_travel_route = route },
          map server sent.0,
        ))
    ]
    else found (turn_away env id m)

-- `OnQuietRouteClientDisconnect`
unfoldable pub on_quiet_route_client_disconnect : Bytes → Monitor → Monitor
on_quiet_route_client_disconnect id m = record m {
  connected_clients = remove id m.connected_clients;
  last_error = NetworkMonitorError.stomp_server_client_disconnected;
}

-- `OnQuietRouteDisconnect`
unfoldable pub on_quiet_route_disconnect : Monitor → Monitor
on_quiet_route_disconnect m = record m {
  last_error = NetworkMonitorError.stomp_server_disconnected;
}

-- The inner loop of `SetNetworkCrowding`.
unfoldable pub record_times : ℕ → PassengerEvent → TransportNetwork → TransportNetwork
record_times zero event n = n
record_times (suc k) event n = record_times k event (record_passenger_event event n).0

-- `std::abs` on `int`; that of the least `int` is no `int`.
unfoldable pub abs : ℤ → Result ℕ
abs (pos c) = returns c
abs (negsuc c) = if ltb (suc c) (2 ^ 31) then returns (suc c) else undefined

abbrev is_positive : ℤ → Bool
is_positive (pos c) = ltb 0 c
is_positive (negsuc c) = false

-- `SetNetworkCrowding`, on the entries of the map as they are iterated.
unfoldable pub set_network_crowding : List (Ident × ℤ) → TransportNetwork → Result TransportNetwork
set_network_crowding [] n = returns n
set_network_crowding ((station, count) ∷ counts) n = Types.◌>>=◌ (abs count) λ k.
    set_network_crowding counts (
      record_times k
        (record { station_id = station; type = if is_positive count then in_ else out }) n)
