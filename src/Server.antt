-- ===== src/Server.antt =====
-- The STOMP server: inc/network-monitor/StompServer.h. A Websocket session is the number that
-- stands for its address. A handler takes the server's members and returns them with the calls that
-- it makes on the Websocket layer and the user callbacks that it posts, in order.
pub mod Errors
pub mod Invariant
pub mod Reach
pub mod Frames
pub mod Protocol
use live_transport_network_m.Base.{
  ℕ, Bool, true, false, Option, none, some, List, [], ◌∷◌, ◌++◌, map, Bytes, bytes, bytes_eq,
  nat_eq, lookup, assign, erase, Assoc, ◌==◌, if◌then◌else◌, length,
}
use live_transport_network_m.Server.Errors
use live_transport_network_m.Server.Errors.{StompServerError, server_error_eq}
use live_transport_network_m.Stomp.Command.{StompCommand}
use live_transport_network_m.Stomp.Decimal.{decimal}
use live_transport_network_m.Stomp.Errors.{StompError, error_eq}
use live_transport_network_m.Stomp.Frame.{StompFrame, Headers, get_header_value, of_text, of_parts}
use live_transport_network_m.Stomp.Header.{StompHeader}
use live_transport_network_m.Stomp.Outcome.{Outcome, done, ◌>>=◌}

abbrev pub Session : Type 0
Session = ℕ

-- What the program does not decide: the value of an uninitialised `size_t` in `ValidateFrame`, and
-- the order in which a map of headers is iterated.
pub record Environment : Type 0 where
  pub indeterminate : ℕ
  pub iterate : Headers → Headers

pub data ConnectionStatus : Type 0 where
  invalid pending connected : ConnectionStatus

-- `status != ConnectionStatus::…`, by the number of the enumerator.
abbrev pub status_is : ConnectionStatus → ConnectionStatus → Bool
status_is invalid invalid = true
status_is pending pending = true
status_is connected connected = true
status_is a b = false

pub record Connection : Type 0 where
  pub id : Bytes
  pub status : ConnectionStatus

-- A call that a handler makes. The last argument of `send` is the request id that the completion
-- handler will report, and that of `close` the connection id, where there is a handler.
pub data Action : Type 0 where
  stop_listening : Action
  send : Session → Bytes → Option Bytes → Action
  close : Session → Option Bytes → Action
  client_connect : StompServerError → Bytes → Action
  client_message : StompServerError → Bytes → Bytes → Bytes → Bytes → Action
  client_disconnect : StompServerError → Bytes → Action
  server_disconnect : StompServerError → Action

-- The members. Of a user callback only whether it was given matters here.
pub record Server : Type 0 where
  pub host : Bytes
  pub on_client_connect : Bool
  pub on_client_message : Bool
  pub on_client_disconnect : Bool
  pub on_disconnect : Bool
  pub connections : Assoc Session Connection
  pub sessions : Assoc Bytes Session

abbrev pub version : Bytes
version = bytes "1.2"

abbrev pub Step : Type 0
Step = Server × List Action

abbrev pub when : Bool → Action → List Action
when true a = a ∷ []
when false a = []

-- `OnWsSessionConnect`, with the id that `GenerateId` returns.
unfoldable pub on_ws_session_connect : Bytes → Bool → Session → Server → Step
on_ws_session_connect new_id true ws s = (s, close ws none ∷ [])
on_ws_session_connect new_id false ws s = (
  record s {
    sessions = assign new_id ws s.sessions;
    connections = assign ws (record { id = new_id; status = pending }) s.connections;
  },
  [],
)

-- The error code that a callback is given for a Websocket error code.
abbrev pub code_for : Bool → StompServerError → StompServerError
code_for true e = e
code_for false e = StompServerError.ok

-- `OnWsSessionDisconnect`
unfoldable pub on_ws_session_disconnect : Bool → Session → Server → Step
on_ws_session_disconnect ec ws s = elim (lookup ws s.connections) [
  | none ↦ (s, [])
  | some c ↦ (
    record s { sessions = erase c.id s.sessions; connections = erase ws s.connections },
    if status_is c.status connected
        then when s.on_client_disconnect
            (client_disconnect (code_for ec StompServerError.websocket_session_disconnected) c.id)
        else [],
  )
]

-- `OnWsDisconnect`
unfoldable pub on_ws_disconnect : Bool → Server → Step
on_ws_disconnect ec s = (
  s,
  when s.on_disconnect
      (server_disconnect (code_for ec StompServerError.websocket_server_disconnected)),
)

-- `Stop`
unfoldable pub stop : Server → Step
stop s = (
  record s { connections = []; sessions = [] },
  stop_listening ∷ map (λ p. close p.0 none) s.connections,
)

-- `Run`, with the callbacks that are given and the result of `ws_.Run`.
unfoldable pub run : Bool → Bool → Bool → Bool → Bool → Server → Server × StompServerError
run connect message disconnect server_stop ec s = (
  record s {
    on_client_connect = connect;
    on_client_message = message;
    on_client_disconnect = disconnect;
    on_disconnect = server_stop;
  },
  code_for ec StompServerError.could_not_start_websocket_server,
)

module _ (env : Environment) where
  -- `MakeErrorFrame`. An error code of the frame is only logged.
  unfoldable pub make_error_frame : StompServerError → Outcome StompFrame
  make_error_frame error = do
    made ←
        of_parts env.indeterminate StompCommand.error
          (env.iterate
            ((StompHeader.content_type, bytes "text/plain") ∷ (StompHeader.version, version) ∷ []))
          (Errors.to_string error)
    done made.1

  -- `CloseConnection`
  unfoldable pub close_connection :
      Connection → Session → StompServerError → Option Bytes → Server → Outcome Step
  close_connection c ws error on_close s =
      let s' = record s {
        sessions = erase c.id s.sessions;
        connections = erase ws s.connections;
      } in
      if error == StompServerError.undefined_error then done (s', close ws on_close ∷ []) else (do
        frame ← make_error_frame StompServerError.unsupported_frame
        done (s', send ws frame.plain none ∷ close ws on_close ∷ []))

  -- The end of `HandleStomp`, for a connection that becomes connected.
  unfoldable pub accept_stomp : Session → Connection → Server → Outcome Step
  accept_stomp ws c s =
      let s' = record s {
        connections = assign ws (record c { status = connected }) s.connections;
      } in
      do
        made ←
            of_parts env.indeterminate StompCommand.connected
              (env.iterate ((StompHeader.version, version) ∷ (StompHeader.session, c.id) ∷ [])) []
        done (
          s',
          if made.0 == StompError.ok
              then send ws made.1.plain none
                ∷ when s.on_client_connect (client_connect StompServerError.ok c.id)
              else [],
        )

  -- `HandleStomp`
  unfoldable pub handle_stomp : Session → Connection → StompFrame → Server → Outcome Step
  handle_stomp ws c frame s =
      if get_header_value frame StompHeader.accept_version == version
      then (if get_header_value frame StompHeader.host == s.host
          then (if status_is c.status pending
              then accept_stomp ws c s
              else close_connection c ws StompServerError.client_cannot_reconnect none s)
          else close_connection c ws StompServerError.invalid_header_value_host none s)
      else close_connection c ws StompServerError.invalid_header_value_accept_version none s

  -- `HandleSend`
  unfoldable pub handle_send : Session → Connection → StompFrame → Server → Outcome Step
  handle_send ws c frame s =
      if status_is c.status connected
      then done (
        s,
        when s.on_client_message (
            client_message StompServerError.ok c.id (get_header_value frame StompHeader.destination)
              (get_header_value frame StompHeader.id) frame.body),
      )
      else close_connection c ws StompServerError.undefined_error none s

  -- The switch of `OnWsSessionMessage`.
  unfoldable pub handle_frame :
      StompCommand → Session → Connection → StompFrame → Server → Outcome Step
  handle_frame StompCommand.stomp ws c frame s = handle_stomp ws c frame s
  handle_frame StompCommand.send ws c frame s = handle_send ws c frame s
  handle_frame _ ws c frame s = close_connection c ws StompServerError.unsupported_frame none s

  -- `OnWsSessionMessage`
  unfoldable pub on_ws_session_message : Bool → Session → Bytes → Server → Outcome Step
  on_ws_session_message ec ws msg s = elim (lookup ws s.connections) [
    | none ↦ done (s, close ws none ∷ [])
    | some c ↦ if ec then done (s, []) else (do
      read ← of_text env.indeterminate msg
      if read.0 == StompError.ok
          then handle_frame read.1.command ws c read.1 s
          else close_connection c ws StompServerError.could_not_parse_frame none s)
  ]

  -- `Close`, with whether a callback is given.
  unfoldable pub close_client : Bytes → Bool → Server → Outcome Step
  close_client id notify s =
      let on_close = if notify then some id else none in
      elim (lookup id s.sessions) [
        | none ↦ done (s, [])
        | some ws ↦ elim (lookup ws s.connections) [
          | none ↦ done (s, close ws on_close ∷ [])
          | some c ↦ close_connection c ws StompServerError.undefined_error on_close s
        ]
      ]

  -- The frame that `Send` makes.
  unfoldable pub send_frame : Bytes → Bytes → Bytes → Outcome (StompError × StompFrame)
  send_frame request_id destination content =
      of_parts env.indeterminate StompCommand.send
        (env.iterate (
          (StompHeader.id, request_id)
          ∷ (StompHeader.destination, destination)
          ∷ (StompHeader.content_type, bytes "application/json")
          ∷ (StompHeader.content_length, decimal (length content))
          ∷ []))
        content

  -- `Send`, with the id that `GenerateId` returns, whether a callback is given, and the request id
  -- that the user gives, empty for none. The request id is returned, or the empty text.
  unfoldable pub send_client :
      Bytes → Bytes → Bytes → Bytes → Bool → Bytes → Server → Outcome (List Action × Bytes)
  send_client new_id id destination content notify user_id s = elim (lookup id s.sessions) [
    | none ↦ done ([], [])
    | some ws ↦ elim (lookup ws s.connections) [
      | none ↦ done (close ws none ∷ [], [])
      | some c ↦
          if status_is c.status connected
          then (let request_id = if user_id == [] then new_id else user_id in
              do
                made ← send_frame request_id destination content
                done (
                    if made.0 == StompError.ok
                    then (
                      send ws made.1.plain (if notify then some request_id else none) ∷ [],
                      request_id,
                    )
                    else ([], [])))
          else done ([], [])
    ]
  ]
