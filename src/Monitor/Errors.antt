-- ===== src/Monitor/Errors.antt =====
-- `NetworkMonitorError` and its names: inc/network-monitor/NetworkMonitor.h and src/NetworkMonitor.cpp.
use live_transport_network_m.Base.{
  ℕ, ◌≡◌, refl, none, some, List, [], ◌∷◌, Bytes, bytes, bytes_eq, Eq, code_beq_iff, nat_beq,
  lookup, get_elem?,
}

pub data NetworkMonitorError : Type 0 where
  ok undefined_error could_not_connect_to_stomp_client : NetworkMonitorError
  could_not_parse_passenger_event could_not_parse_quiet_route_request : NetworkMonitorError
  could_not_record_passenger_event could_not_start_stomp_server : NetworkMonitorError
  could_not_subscribe_to_passenger_events : NetworkMonitorError
  failed_network_layout_file_download : NetworkMonitorError
  failed_network_layout_file_parsing : NetworkMonitorError
  failed_transport_network_construction missing_ca_cert_file : NetworkMonitorError
  missing_network_layout_file stomp_client_disconnected : NetworkMonitorError
  stomp_server_client_disconnected stomp_server_disconnected : NetworkMonitorError

-- The number of the enumerator.
abbrev pub code : NetworkMonitorError → ℕ
code ok = 0
code undefined_error = 1
code could_not_connect_to_stomp_client = 2
code could_not_parse_passenger_event = 3
code could_not_parse_quiet_route_request = 4
code could_not_record_passenger_event = 5
code could_not_start_stomp_server = 6
code could_not_subscribe_to_passenger_events = 7
code failed_network_layout_file_download = 8
code failed_network_layout_file_parsing = 9
code failed_transport_network_construction = 10
code missing_ca_cert_file = 11
code missing_network_layout_file = 12
code stomp_client_disconnected = 13
code stomp_server_client_disconnected = 14
code stomp_server_disconnected = 15

abbrev pub enumerators : List NetworkMonitorError
enumerators =
    ok ∷ undefined_error ∷ could_not_connect_to_stomp_client ∷ could_not_parse_passenger_event
    ∷ could_not_parse_quiet_route_request ∷ could_not_record_passenger_event
    ∷ could_not_start_stomp_server ∷ could_not_subscribe_to_passenger_events
    ∷ failed_network_layout_file_download ∷ failed_network_layout_file_parsing
    ∷ failed_transport_network_construction ∷ missing_ca_cert_file ∷ missing_network_layout_file
    ∷ stomp_client_disconnected ∷ stomp_server_client_disconnected ∷ stomp_server_disconnected ∷ []

pub decode-code : (x : NetworkMonitorError) → get_elem? enumerators (code x) ≡ some x
decode-code ok = refl
decode-code _ = refl

instance abbrev pub monitor_error_eq : Eq NetworkMonitorError
monitor_error_eq = record {
  beq = λ a b. nat_beq (code a) (code b);
  beq_iff = code_beq_iff code (get_elem? enumerators) decode-code;
}

-- The table of names.
abbrev pub monitor_error_strings : List (NetworkMonitorError × Bytes)
monitor_error_strings =
    (ok, bytes "Ok")
    ∷ (undefined_error, bytes "UndefinedError")
    ∷ (could_not_connect_to_stomp_client, bytes "CouldNotConnectToStompClient")
    ∷ (could_not_parse_passenger_event, bytes "CouldNotParsePassengerEvent")
    ∷ (could_not_parse_quiet_route_request, bytes "CouldNotParseQuietRouteRequest")
    ∷ (could_not_record_passenger_event, bytes "CouldNotRecordPassengerEvent")
    ∷ (could_not_start_stomp_server, bytes "CouldNotStartStompServer")
    ∷ (could_not_subscribe_to_passenger_events, bytes "CouldNotSubscribeToPassengerEvents")
    ∷ (failed_network_layout_file_download, bytes "FailedNetworkLayoutFileDownload")
    ∷ (failed_network_layout_file_parsing, bytes "FailedNetworkLayoutFileParsing")
    ∷ (failed_transport_network_construction, bytes "FailedTransportNetworkConstruction")
    ∷ (missing_ca_cert_file, bytes "MissingCaCertFile")
    ∷ (missing_network_layout_file, bytes "MissingNetworkLayoutFile")
    ∷ (stomp_client_disconnected, bytes "StompClientDisconnected")
    ∷ (stomp_server_client_disconnected, bytes "StompServerClientDisconnected")
    ∷ (stomp_server_disconnected, bytes "StompServerDisconnected")
    ∷ []

unfoldable pub to_string : NetworkMonitorError → Bytes
unfolding lookup
to_string x = elim (lookup x monitor_error_strings) [ none ↦ bytes "UndefinedError" | some s ↦ s ]
