-- ===== src/Client/Errors.antt =====
-- `StompClientError` and its names: inc/network-monitor/StompClient.h and src/StompClient.cpp.
use live_transport_network_m.Base.{
  ℕ, ◌≡◌, refl, none, some, List, [], ◌∷◌, Bytes, bytes, bytes_eq, Eq, code_beq_iff, nat_beq,
  lookup, get_elem?,
}

pub data StompClientError : Type 0 where
  ok undefined_error could_not_close_websocket_connection : StompClientError
  could_not_connect_to_websocket_server : StompClientError
  could_not_parse_message_as_stomp_frame could_not_send_message : StompClientError
  could_not_send_stomp_frame could_not_send_subscribe_frame : StompClientError
  unexpected_could_not_create_valid_frame : StompClientError
  unexpected_message_content_type unexpected_subscription_mismatch : StompClientError
  websocket_server_disconnected : StompClientError

-- The number of the enumerator.
abbrev pub code : StompClientError → ℕ
code ok = 0
code undefined_error = 1
code could_not_close_websocket_connection = 2
code could_not_connect_to_websocket_server = 3
code could_not_parse_message_as_stomp_frame = 4
code could_not_send_message = 5
code could_not_send_stomp_frame = 6
code could_not_send_subscribe_frame = 7
code unexpected_could_not_create_valid_frame = 8
code unexpected_message_content_type = 9
code unexpected_subscription_mismatch = 10
code websocket_server_disconnected = 11

abbrev pub enumerators : List StompClientError
enumerators =
    ok ∷ undefined_error ∷ could_not_close_websocket_connection
    ∷ could_not_connect_to_websocket_server ∷ could_not_parse_message_as_stomp_frame
    ∷ could_not_send_message ∷ could_not_send_stomp_frame ∷ could_not_send_subscribe_frame
    ∷ unexpected_could_not_create_valid_frame ∷ unexpected_message_content_type
    ∷ unexpected_subscription_mismatch ∷ websocket_server_disconnected ∷ []

pub decode-code : (x : StompClientError) → get_elem? enumerators (code x) ≡ some x
decode-code ok = refl
decode-code _ = refl

instance abbrev pub client_error_eq : Eq StompClientError
client_error_eq = record {
  beq = λ a b. nat_beq (code a) (code b);
  beq_iff = code_beq_iff code (get_elem? enumerators) decode-code;
}

-- The table of names.
abbrev pub client_error_strings : List (StompClientError × Bytes)
client_error_strings =
    (ok, bytes "Ok")
    ∷ (undefined_error, bytes "UndefinedError")
    ∷ (could_not_close_websocket_connection, bytes "CouldNotCloseWebsocketConnection")
    ∷ (could_not_connect_to_websocket_server, bytes "CouldNotConnectToWebsocketServer")
    ∷ (could_not_parse_message_as_stomp_frame, bytes "CouldNotParseMessageAsStompFrame")
    ∷ (could_not_send_stomp_frame, bytes "CouldNotSendStompFrame")
    ∷ (could_not_send_message, bytes "CouldNotSendMessage")
    ∷ (could_not_send_subscribe_frame, bytes "CouldNotSendSubscribeFrame")
    ∷ (unexpected_could_not_create_valid_frame, bytes "UnexpectedCouldNotCreateValidFrame")
    ∷ (unexpected_message_content_type, bytes "UnexpectedMessageContentType")
    ∷ (unexpected_subscription_mismatch, bytes "UnexpectedSubscriptionMismatch")
    ∷ (websocket_server_disconnected, bytes "WebsocketServerDisconnected")
    ∷ []

unfoldable pub to_string : StompClientError → Bytes
unfolding lookup
to_string x = elim (lookup x client_error_strings) [ none ↦ bytes "UndefinedError" | some s ↦ s ]
