-- ===== src/Server/Reach.antt =====
-- Runs of the server, as sequences of calls of its handlers and methods in any order:
-- inc/network-monitor/StompServer.h.
use live_transport_network_m.Base.{◌≡◌, Bool, false, none, [], Bytes, bytes_eq, nat_eq, lookup}
use live_transport_network_m.Server.Invariant.{
  IsConsistent, connect-IsConsistent, disconnect-IsConsistent, stop-IsConsistent,
  message-IsConsistent, close_client-IsConsistent,
}
use live_transport_network_m.Server.{
  Environment, Session, Server, Step, on_ws_session_connect, on_ws_session_message,
  on_ws_session_disconnect, close_client, stop, run,
}
use live_transport_network_m.Stomp.Outcome.{done}

-- `StompServer(host, …)`
abbrev pub initial : Bytes → Server
initial host = record {
  host = host;
  on_client_connect = false;
  on_client_message = false;
  on_client_disconnect = false;
  on_disconnect = false;
  connections = [];
  sessions = [];
}

-- One call. `GenerateId` returns an id that is not in use, and the Websocket server reports each
-- new session once.
pub data Next (env : Environment) : Server → Server → Type 0 where
  runs :
      (s : Server) (connect message disconnect server_stop ec : Bool)
      → Next env s (run connect message disconnect server_stop ec s).0
  connects :
      (s : Server) (new_id : Bytes) (ec : Bool) (ws : Session)
      → lookup new_id s.sessions ≡ none
      → lookup ws s.connections ≡ none
      → Next env s (on_ws_session_connect new_id ec ws s).0
  receives :
      (s : Server) (ec : Bool) (ws : Session) (msg : Bytes) (r : Step)
      → on_ws_session_message env ec ws msg s ≡ done r
      → Next env s r.0
  disconnects :
      (s : Server) (ec : Bool) (ws : Session) → Next env s (on_ws_session_disconnect ec ws s).0
  closes :
      (s : Server) (id : Bytes) (notify : Bool) (r : Step)
      → close_client env id notify s ≡ done r
      → Next env s r.0
  stops : (s : Server) → Next env s (stop s).0

pub data Reach (env : Environment) (host : Bytes) : Server → Type 0 where
  start : Reach env host (initial host)
  next : {s t : Server} → Reach env host s → Next env s t → Reach env host t

run-IsConsistent :
    (s : Server) (connect message disconnect server_stop ec : Bool)
    → IsConsistent s
    → IsConsistent (run connect message disconnect server_stop ec s).0
unfolding run
run-IsConsistent s connect message disconnect server_stop ec h = record {
  to_session = h.to_session;
  to_connection = h.to_connection;
}

Next-IsConsistent :
    (env : Environment) {s t : Server} → Next env s t → IsConsistent s → IsConsistent t
Next-IsConsistent env (runs s a b c d e) h = run-IsConsistent s a b c d e h
Next-IsConsistent env (connects s new_id ec ws fresh new) h =
    connect-IsConsistent s h new_id ec ws fresh new
Next-IsConsistent env (receives s ec ws msg r e) h = (message-IsConsistent s h env ec ws msg).at r e
Next-IsConsistent env (disconnects s ec ws) h = disconnect-IsConsistent s h ec ws
Next-IsConsistent env (closes s id notify r e) h =
    (close_client-IsConsistent s h env id notify).at r e
Next-IsConsistent env (stops s) h = stop-IsConsistent s h

initial-IsConsistent : (host : Bytes) → IsConsistent (initial host)
unfolding lookup
initial-IsConsistent host = record { to_session = λ ws c e. cc; to_connection = λ id ws e. cc }

-- After any sequence of calls, whatever the clients send and in whatever order, the two maps of the
-- server mirror one another: each connection's id leads to its session, and each id leads to a
-- session whose connection has that id.
pub Reach-IsConsistent :
    (env : Environment) (host : Bytes) (s : Server) → Reach env host s → IsConsistent s
Reach-IsConsistent env host _ start = initial-IsConsistent host
Reach-IsConsistent env host _ (next r step) =
    Next-IsConsistent env step (Reach-IsConsistent env host _ r)
