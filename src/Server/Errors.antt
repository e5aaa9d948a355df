-- ===== src/Server/Errors.antt =====
-- `StompServerError` and its names: inc/network-monitor/StompServer.h and src/StompServer.cpp.
use live_transport_network_m.Base.{
  ℕ, ◌≡◌, refl, none, some, List, [], ◌∷◌, Bytes, bytes, bytes_eq, Eq, code_beq_iff, nat_beq,
  lookup, get_elem?,
}

pub data StompServerError : Type 0 where
  ok undefined_error client_cannot_reconnect : StompServerError
  could_not_close_client_connection could_not_parse_frame : StompServerError
  could_not_send_message could_not_start_websocket_server : StompServerError
  invalid_header_value_accept_version invalid_header_value_host : StompServerError
  unsupported_frame websocket_session_disconnected : StompServerError
  websocket_server_disconnected : StompServerError

-- The number of the enumerator.
abbrev pub code : StompServerError → ℕ
code ok = 0
code undefined_error = 1
code client_cannot_reconnect = 2
code could_not_close_client_connection = 3
code could_not_parse_frame = 4
code could_not_send_message = 5
code could_not_start_websocket_server = 6
code invalid_header_value_accept_version = 7
code invalid_header_value_host = 8
code unsupported_frame = 9
code websocket_session_disconnected = 10
code websocket_server_disconnected = 11

abbrev pub enumerators : List StompServerError
enumerators =
    ok ∷ undefined_error ∷ client_cannot_reconnect ∷ could_not_close_client_connection
    ∷ could_not_parse_frame ∷ could_not_send_message ∷ could_not_start_websocket_server
    ∷ invalid_header_value_accept_version ∷ invalid_header_value_host ∷ unsupported_frame
    ∷ websocket_session_disconnected ∷ websocket_server_disconnected ∷ []

pub decode-code : (x : StompServerError) → get_elem? enumerators (code x) ≡ some x
decode-code ok = refl
decode-code _ = refl

instance abbrev pub server_error_eq : Eq StompServerError
server_error_eq = record {
  beq = λ a b. nat_beq (code a) (code b);
  beq_iff = code_beq_iff code (get_elem? enumerators) decode-code;
}

-- The table of names.
abbrev pub server_error_strings : List (StompServerError × Bytes)
server_error_strings =
    (ok, bytes "Ok")
    ∷ (undefined_error, bytes "UndefinedError")
    ∷ (client_cannot_reconnect, bytes "ClientCannotReconnect")
    ∷ (could_not_close_client_connection, bytes "CouldNotCloseClientConnection")
    ∷ (could_not_parse_frame, bytes "CouldNotParseFrame")
    ∷ (could_not_send_message, bytes "CouldNotSendMessage")
    ∷ (could_not_start_websocket_server, bytes "CouldNotStartWebsocketServer")
    ∷ (invalid_header_value_accept_version, bytes "InvalidHeaderValueAcceptVersion")
    ∷ (invalid_header_value_host, bytes "InvalidHeaderValueHost")
    ∷ (unsupported_frame, bytes "UnsupportedFrame")
    ∷ (websocket_session_disconnected, bytes "WebsocketSessionDisconnected")
    ∷ (websocket_server_disconnected, bytes "WebsocketServerDisconnected")
    ∷ []

unfoldable pub to_string : StompServerError → Bytes
unfolding lookup
to_string x = elim (lookup x server_error_strings) [ none ↦ bytes "UndefinedError" | some s ↦ s ]
