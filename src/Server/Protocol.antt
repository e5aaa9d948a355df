-- ===== src/Server/Protocol.antt =====
-- What the server does with each kind of message: inc/network-monitor/StompServer.h.
use live_transport_network_m.Base.{
  ◌≡◌, ◌≢◌, refl, arith, false, Bool-cases, inl, inr, none, some, [], ◌∷◌, Bytes, bytes_eq, nat_eq,
  lookup, assign, erase, lookup-erase, Bool, ◌==◌,
}
use live_transport_network_m.Server.Errors
use live_transport_network_m.Server.Errors.{StompServerError, server_error_eq}
use live_transport_network_m.Server.Frames.{
  IsIteration, FitsLine, frame_of, connected_headers, connected-IsSendable, error_headers,
  of_parts-iterate, make_error_frame_lem,
}
use live_transport_network_m.Server.{
  Environment, Session, status_is, pending, connected, Connection, Server, Step, send, close,
  client_connect, client_message, when, version, close_connection, accept_stomp, handle_stomp,
  handle_send, handle_frame, on_ws_session_message, on_ws_session_disconnect,
}
use live_transport_network_m.Stomp.Command.{StompCommand}
use live_transport_network_m.Stomp.Errors.{StompError, error_eq}
use live_transport_network_m.Stomp.Frame.{StompFrame, of_text, get_header_value}
use live_transport_network_m.Stomp.Header.{StompHeader}
use live_transport_network_m.Stomp.Outcome.{done}

-- The connection is dropped, the Websocket session closed.
abbrev pub dropped : Connection → Session → Server → Server
dropped c ws s = record s { sessions = erase c.id s.sessions; connections = erase ws s.connections }

-- The end of a session whose connection was dropped: no callback, and no change.
disconnect_dropped :
    (ec : Bool) (ws : Session) (c : Connection) (s : Server)
    → on_ws_session_disconnect ec ws (dropped c ws s) ≡ (dropped c ws s, [])
unfolding on_ws_session_disconnect
disconnect_dropped ec ws c s =
    let gone : lookup ws (erase ws s.connections) ≡ none =
      ground (arith, lookup-erase ws ws s.connections, nat_eq.beq_iff ws ws) in
    rw (gone, on_ws_session_disconnect) refl

-- The only frame that opens a STOMP connection.
abbrev pub Acceptable : Connection → StompFrame → Server → Type 0
Acceptable c f s =
    (f.command ≡ StompCommand.stomp)
    × (c.status ≡ pending)
    × (get_header_value f StompHeader.accept_version ≡ version)
    × (get_header_value f StompHeader.host ≡ s.host)

-- What the server should do with a frame that it can read.
pub data Reply (env : Environment) (ws : Session) (c : Connection) (f : StompFrame) (s : Server)
    : Step → Type 0 where
  -- a first STOMP frame with the right version and host
  accepts :
      Acceptable c f s
      → Reply env ws c f s (
        record s { connections = assign ws (record c { status = connected }) s.connections },
        send ws (frame_of env StompCommand.connected (connected_headers c.id) []).plain none
            ∷ when s.on_client_connect (client_connect StompServerError.ok c.id),
      )
  -- a SEND frame from a connected client
  delivers :
      f.command ≡ StompCommand.send
      → c.status ≡ connected
      → Reply env ws c f s (
        s,
        when s.on_client_message (
            client_message StompServerError.ok c.id
              (get_header_value f StompHeader.destination)
              (get_header_value f StompHeader.id)
              f.body),
      )
  -- a SEND frame too early
  hangs_up :
      f.command ≡ StompCommand.send
      → c.status ≢ connected
      → Reply env ws c f s (dropped c ws s, close ws none ∷ [])
  -- anything else
  rejects :
      f.command ≢ StompCommand.send
      → ¬ Acceptable c f s
      → Reply env ws c f s (
        dropped c ws s,
        send ws
              (frame_of env StompCommand.error error_headers
                (Errors.to_string StompServerError.unsupported_frame)).plain
              none
            ∷ close ws none
            ∷ [],
      )

module _ (env : Environment) (it : IsIteration env.iterate) (s : Server) (ws : Session)
    (c : Connection) where
  close_reporting :
      (e : StompServerError)
      → e ≢ StompServerError.undefined_error
      → close_connection env c ws e none s
        ≡ done (
          dropped c ws s,
          send ws
                (frame_of env StompCommand.error error_headers
                  (Errors.to_string StompServerError.unsupported_frame)).plain
                none
              ∷ close ws none
              ∷ [],
        )
  unfolding close_connection
  close_reporting e ne = elim (Bool-cases (e == StompServerError.undefined_error)) [
    | inl same ↦ absurd (ne ((server_error_eq.beq_iff e StompServerError.undefined_error).0 same))
    | inr other ↦
        rw other (rw (make_error_frame_lem env it StompServerError.unsupported_frame) refl)
  ]

  pub accept_lem :
      FitsLine c.id
      → accept_stomp env ws c s
        ≡ done (
          record s { connections = assign ws (record c { status = connected }) s.connections },
          send ws (frame_of env StompCommand.connected (connected_headers c.id) []).plain none
              ∷ when s.on_client_connect (client_connect StompServerError.ok c.id),
        )
  unfolding accept_stomp
  accept_lem fits =
      rw
        (of_parts-iterate env it StompCommand.connected (connected_headers c.id) []
          (connected-IsSendable c.id fits))
        refl

  stomp-Reply :
      (f : StompFrame)
      → FitsLine c.id
      → f.command ≡ StompCommand.stomp
      → (r : Step) × (handle_stomp env ws c f s ≡ done r) × Reply env ws c f s r
  unfolding handle_stomp
  stomp-Reply f fits is_stomp =
      elim (Bool-cases (get_header_value f StompHeader.accept_version == version)) [
        | inr v ↦ (
          _,
          rw v (close_reporting StompServerError.invalid_header_value_accept_version (λ e. cc)),
          rejects (λ e. cc)
              (λ a.
                ground (
                  arith,
                  bytes_eq.beq_iff (get_header_value f StompHeader.accept_version) version,
                )),
        )
        | inl v ↦ elim (Bool-cases (get_header_value f StompHeader.host == s.host)) [
          | inr h ↦ (
            _,
            rw v (rw h (close_reporting StompServerError.invalid_header_value_host (λ e. cc))),
            rejects (λ e. cc)
                (λ a.
                  ground (arith, bytes_eq.beq_iff (get_header_value f StompHeader.host) s.host)),
          )
          | inl h ↦ elim (Bool-cases (status_is c.status pending)) [
            | inr p ↦ (
              _,
              rw v (
                  rw h (rw p (close_reporting StompServerError.client_cannot_reconnect (λ e. cc)))),
              rejects (λ e. cc) (λ a. ground arith),
            )
            | inl p ↦ (
              _,
              rw v (rw h (rw p (accept_lem fits))),
              accepts
                  (is_stomp, ground arith, (bytes_eq.beq_iff _ _).0 v, (bytes_eq.beq_iff _ _).0 h),
            )
          ]
        ]
      ]

  send-Reply :
      (f : StompFrame)
      → f.command ≡ StompCommand.send
      → (r : Step) × (handle_send env ws c f s ≡ done r) × Reply env ws c f s r
  unfolding handle_send close_connection
  send-Reply f is_send = elim (Bool-cases (status_is c.status connected)) [
    | inl p ↦ (_, rw p refl, delivers is_send (ground arith))
    | inr p ↦ (_, rw p refl, hangs_up is_send (ground arith))
  ]

  command-Reply :
      (command : StompCommand) (f : StompFrame)
      → FitsLine c.id
      → f.command ≡ command
      → (r : Step) × (handle_frame env command ws c f s ≡ done r) × Reply env ws c f s r
  unfolding handle_frame
  command-Reply StompCommand.stomp f fits e = stomp-Reply f fits e
  command-Reply StompCommand.send f fits e = send-Reply f e
  command-Reply _ f fits e = (
    _,
    close_reporting StompServerError.unsupported_frame (λ x. cc),
    rejects (λ x. cc) (λ a. ground arith),
  )

-- The server answers every message of a known session that is a valid frame, as the protocol has
-- it: a first STOMP frame with the right version and host opens the connection, is answered by
-- CONNECTED with the connection's id, and is reported to the user; a SEND frame from an open
-- connection is delivered to the user with its destination, id and body; a SEND frame from any
-- other closes the session and forgets the connection; and any other frame is answered by ERROR,
-- closes the session and forgets the connection. Of a connection that is forgotten in these ways
-- the user is told nothing, whether it was open or not, neither then nor when the session ends,
-- which changes nothing any more. The environment iterates a map over its entries, and the
-- connection's id can stand in a header.
pub message-Reply :
    (env : Environment)
    → IsIteration env.iterate
    → (s : Server) (ws : Session) (c : Connection) (msg : Bytes) (f : StompFrame)
    → lookup ws s.connections ≡ some c
    → FitsLine c.id
    → of_text env.indeterminate msg ≡ done (StompError.ok, f)
    → (r : Step) × (on_ws_session_message env false ws msg s ≡ done r)
      × Reply env ws c f s r
      × ((ec : Bool) → on_ws_session_disconnect ec ws (dropped c ws s) ≡ (dropped c ws s, []))
unfolding on_ws_session_message
message-Reply env it s ws c msg f found fits read =
    let (r, handled, reply) = command-Reply env it s ws c f.command f fits refl in
    (
      r,
      rw (found, on_ws_session_message) (rw read handled),
      reply,
      λ ec. disconnect_dropped ec ws c s,
    )
