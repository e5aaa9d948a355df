-- ===== src/Tests/Sessions.antt =====
-- The STOMP client and server at concrete inputs: inc/network-monitor/StompClient.h and
-- inc/network-monitor/StompServer.h.
use live_transport_network_m.Base.{
  ◌≡◌, refl, arith, Bool, true, false, some, none, [], ◌∷◌, Bytes, bytes, lookup, assign, nat_eq,
  bytes_eq,
}
use live_transport_network_m.Client
use live_transport_network_m.Client.{
  Subscription, post_subscribe, Client, send_stomp, send_message, post_connect, post_message,
  on_ws_connect, on_ws_message,
}
use live_transport_network_m.Client.Errors.{StompClientError}
use live_transport_network_m.Client.Subscribed.{receipt, subscribed, subscription_served}
use live_transport_network_m.Handshake.{handshake, request_delivered, reply_delivered}
use live_transport_network_m.Server
use live_transport_network_m.Server.{
  Environment, Session, Server, Step, Connection, pending, connected, client_connect,
  client_message, on_ws_session_connect, on_ws_session_message, on_ws_session_disconnect,
  send_client, run, send_frame,
}
use live_transport_network_m.Server.Errors.{StompServerError}
use live_transport_network_m.Server.Frames.{IsIteration, frame_of, send_headers, send-IsSendable}
use live_transport_network_m.Server.Invariant.{IsConsistent}
use live_transport_network_m.Server.Protocol.{Reply, dropped, message-Reply}
use live_transport_network_m.Server.Reach.{initial, runs, connects, start, next, Reach-IsConsistent}
use live_transport_network_m.Stomp.Command.{StompCommand}
use live_transport_network_m.Stomp.Errors.{StompError}
use live_transport_network_m.Stomp.Frame.{get_header_value, StompFrame, of_text, of_parts}
use live_transport_network_m.Stomp.Frame.RoundTrip.{of_parts_reads_back}
use live_transport_network_m.Stomp.Header.{StompHeader}
use live_transport_network_m.Stomp.Outcome.{done}

-- Maps that are iterated in the order in which they were filled.
abbrev pub env : Environment
env = record { indeterminate = 7; iterate = λ hs. hs }

pub env-IsIteration : IsIteration env.iterate
env-IsIteration = record { same = λ hs h. refl; distinct = λ hs d. d }

abbrev pub client : Client
client = record {
  url = bytes "ltnm.org";
  username = bytes "user";
  password = bytes "secret";
  on_connect = true;
  on_message = true;
  on_disconnect = true;
  subscriptions = [];
}

-- A server that listens, with one session in the given state.
abbrev pub server : Connection → Server
server c = record {
  host = bytes "ltnm.org";
  on_client_connect = true;
  on_client_message = true;
  on_client_disconnect = true;
  on_disconnect = true;
  connections = (4, c) ∷ [];
  sessions = (c.id, 4) ∷ [];
}

abbrev new_connection : Connection
new_connection = record { id = bytes "abc"; status = pending }

abbrev pub open_connection : Connection
open_connection = record { id = bytes "abc"; status = connected }

pub connection_found : (c : Connection) → lookup 4 (server c).connections ≡ some c
unfolding lookup
connection_found c = refl

pub session_found : lookup (bytes "abc") (server open_connection).sessions ≡ some 4
unfolding lookup
session_found = refl

abbrev content : Bytes
content = b'{' ∷ 0 ∷ b'}' ∷ []

handshake_example :
    (request : Bytes) × (reply : Bytes) × (on_ws_connect env false client
      ≡ done (send_stomp request ∷ []))
    × (on_ws_session_message env false 4 request (server new_connection)
        ≡ done (
          record (server new_connection) {
            connections = assign 4 open_connection (server new_connection).connections;
          },
          Server.send 4 reply none ∷ client_connect StompServerError.ok (bytes "abc") ∷ [],
        ))
    × (on_ws_message env reply client ≡ done (post_connect StompClientError.ok ∷ []))
handshake_example =
    handshake env env-IsIteration client (server new_connection) 4 (bytes "abc")
      (λ e. cc, omega arith) (λ e. cc, omega arith) (λ e. cc, omega arith) (λ e. cc, omega arith)
      refl (connection_found new_connection)

request_delivered_example :
    (text : Bytes) × (Client.send env (bytes "9") (bytes "/quiet-route") content false
      ≡ done (send_message text none ∷ [], bytes "9"))
    × (on_ws_session_message env false 4 text (server open_connection)
        ≡ done (
          server open_connection,
          client_message StompServerError.ok
                (bytes "abc")
                (bytes "/quiet-route")
                (bytes "9")
                content
              ∷ [],
        ))
request_delivered_example =
    request_delivered env env-IsIteration (server open_connection) 4 open_connection (bytes "9")
      (bytes "/quiet-route") content (connection_found open_connection) refl refl
      (λ e. cc, omega arith) (λ e. cc, omega arith) (omega arith)

reply_delivered_example :
    (text : Bytes) × (send_client env
        (bytes "9")
        (bytes "abc")
        (bytes "/quiet-route")
        content
        false
        (bytes "8")
        (server open_connection)
      ≡ done (Server.send 4 text none ∷ [], bytes "8"))
    × (on_ws_message env text client
        ≡ done (post_message StompClientError.ok (bytes "/quiet-route") content ∷ []))
reply_delivered_example =
    reply_delivered env env-IsIteration (server open_connection) 4 open_connection client
      (bytes "9") (bytes "8") (bytes "/quiet-route") content session_found
      (connection_found open_connection) refl refl (λ e. cc, omega arith) (λ e. cc, omega arith)
      (omega arith)

abbrev frame : StompFrame
frame =
    frame_of env StompCommand.send (send_headers (bytes "9") (bytes "/quiet-route") content) content

frame_read : of_text env.indeterminate frame.plain ≡ done (StompError.ok, frame)
unfolding of_parts
frame_read =
    of_parts_reads_back 7 StompCommand.send
      (send_headers (bytes "9") (bytes "/quiet-route") content) content
      (send-IsSendable (bytes "9") (bytes "/quiet-route") content (λ e. cc, omega arith)
        (λ e. cc, omega arith) (omega arith))

message-Reply_example :
    (r : Step) × (on_ws_session_message env false 4 frame.plain (server new_connection) ≡ done r)
    × Reply env 4 new_connection frame (server new_connection) r
    × ((ec : Bool)
        → on_ws_session_disconnect ec 4 (dropped new_connection 4 (server new_connection))
          ≡ (dropped new_connection 4 (server new_connection), []))
message-Reply_example =
    message-Reply env env-IsIteration (server new_connection) 4 new_connection frame.plain frame
      (connection_found new_connection) (λ e. cc, omega arith) frame_read

-- A server that was started and then took in a session.
abbrev started : Server
started = (run true true true true false (initial (bytes "ltnm.org"))).0

no_session : lookup (bytes "abc") started.sessions ≡ none
unfolding run lookup
no_session = refl

no_connection : lookup 4 started.connections ≡ none
unfolding run lookup
no_connection = refl

Reach-IsConsistent_example : IsConsistent (on_ws_session_connect (bytes "abc") false 4 started).0
Reach-IsConsistent_example =
    Reach-IsConsistent env (bytes "ltnm.org")
      (on_ws_session_connect (bytes "abc") false 4 started).0
      (next (next start (runs (initial (bytes "ltnm.org")) true true true true false))
        (connects started (bytes "abc") false 4 no_session no_connection))

abbrev passengers_subscription : Subscription
passengers_subscription = record {
  destination = bytes "/passengers";
  on_subscribe = true;
  on_message = true;
}

abbrev receipt_frame : StompFrame
receipt_frame = frame_of env StompCommand.receipt ((StompHeader.receipt_id, bytes "9") ∷ []) []

receipt_frame_read :
    of_text env.indeterminate receipt_frame.plain ≡ done (StompError.ok, receipt_frame)
unfolding of_parts lookup
receipt_frame_read =
    of_parts_reads_back 7 StompCommand.receipt ((StompHeader.receipt_id, bytes "9") ∷ []) []
      (record {
        known = λ e. cc;
        lines_valid = ((λ e. cc, λ e. cc, omega arith), tt);
        distinct = (tt, tt);
        body_fits = tt;
        has_required = (λ e. cc, tt);
      })

receipt_id_read : get_header_value receipt_frame StompHeader.receipt_id ≡ bytes "9"
unfolding get_header_value lookup
receipt_id_read = refl

not_subscribed : lookup (bytes "9") client.subscriptions ≡ none
unfolding lookup
not_subscribed = refl

subscription_served_example :
    on_ws_message env receipt_frame.plain (subscribed (bytes "9") passengers_subscription client)
    ≡ done (post_subscribe StompClientError.ok (bytes "9") ∷ [])
subscription_served_example =
    subscription_served (bytes "9") passengers_subscription client env receipt_frame.plain
      receipt_frame (post_subscribe StompClientError.ok (bytes "9")) not_subscribed refl refl
      receipt_frame_read (receipt refl receipt_id_read)
