-- ===== src/Handshake.antt =====
-- The client and the server of the program, talking to one another:
-- inc/network-monitor/StompClient.h and inc/network-monitor/StompServer.h.
use live_transport_network_m.Base.{
  ◌<◌, ◌≡◌, refl, sym, ◌∙◌, arith, true, false, none, some, [], ◌∷◌, Bytes, bytes_eq, nat_eq,
  lookup, assign, length, ◌==◌,
}
use live_transport_network_m.Client
use live_transport_network_m.Client.{
  Client, send_stomp, send_message, post_connect, post_message, on_ws_connect, on_ws_message,
  stomp_frame,
}
use live_transport_network_m.Client.Errors.{StompClientError}
use live_transport_network_m.Server
use live_transport_network_m.Server.{
  Environment, Session, pending, connected, Connection, Server, client_connect, client_message,
  version, accept_stomp, handle_stomp, handle_send, handle_frame, on_ws_session_message, Step,
  send_client,
}
use live_transport_network_m.Server.Errors.{StompServerError}
use live_transport_network_m.Server.Frames.{
  IsIteration, FitsLine, frame_of, connected_headers, connected-IsSendable, send_headers,
  send-IsSendable, send_frame_lem, of_parts-iterate,
}
use live_transport_network_m.Server.Protocol.{accept_lem}
use live_transport_network_m.Stomp.Command.{StompCommand}
use live_transport_network_m.Stomp.Errors.{StompError}
use live_transport_network_m.Stomp.Frame.{StompFrame, Headers, of_text, of_parts, get_header_value}
use live_transport_network_m.Stomp.Frame.RoundTrip.{IsSendable}
use live_transport_network_m.Stomp.Header.{StompHeader, header_eq}
use live_transport_network_m.Stomp.Number.{size_mod}
use live_transport_network_m.Stomp.Outcome.{done}

abbrev pub stomp_headers : Client → Headers
stomp_headers c =
    (StompHeader.accept_version, version)
    ∷ (StompHeader.host, c.url)
    ∷ (StompHeader.login, c.username)
    ∷ (StompHeader.passcode, c.password)
    ∷ []

stomp-IsSendable :
    (c : Client)
    → FitsLine c.url
    → FitsLine c.username
    → FitsLine c.password
    → IsSendable StompCommand.stomp (stomp_headers c) []
unfolding lookup
stomp-IsSendable c u n p = record {
  known = λ e. cc;
  lines_valid = (
    (λ e. cc, λ e. cc, omega arith),
    ((λ e. cc, u.0, u.1), ((λ e. cc, n.0, n.1), ((λ e. cc, p.0, p.1), tt))),
  );
  distinct = ((refl, (refl, (refl, tt))), ((refl, (refl, tt)), ((refl, tt), (tt, tt))));
  body_fits = tt;
  has_required = (λ e. cc, (λ e. cc, tt));
}

module _ (env : Environment) (it : IsIteration env.iterate) where
  -- The text of a frame is read back as that frame.
  of_text-frame_of :
      (c : StompCommand) (hs : Headers) (body : Bytes)
      → IsSendable c hs body
      → of_text env.indeterminate (frame_of env c hs body).plain
        ≡ done (StompError.ok, frame_of env c hs body)
  of_text-frame_of c hs body s = unfold of_parts in of_parts-iterate env it c hs body s

  value-frame_of :
      (c : StompCommand) (hs : Headers) (body : Bytes) (h : StompHeader) (v : Bytes)
      → lookup h hs ≡ some v
      → get_header_value (frame_of env c hs body) h ≡ v
  unfolding get_header_value
  value-frame_of c hs body h v found =
      let same : lookup h (env.iterate hs) ≡ some v = it.same hs h ∙ found in
      rw (same, get_header_value)

  -- A message of a known session that is a frame of the program's.
  receive :
      (s : Server) (ws : Session) (conn : Connection) (c : StompCommand) (hs : Headers)
      (body : Bytes)
      → lookup ws s.connections ≡ some conn
      → IsSendable c hs body
      → on_ws_session_message env false ws (frame_of env c hs body).plain s
        ≡ handle_frame env c ws conn (frame_of env c hs body) s
  unfolding on_ws_session_message
  receive s ws conn c hs body found sendable =
      rw (found, on_ws_session_message) (rw (of_text-frame_of c hs body sendable) refl)

  stomp_accepted :
      (s : Server) (ws : Session) (conn : Connection) (f : StompFrame)
      → get_header_value f StompHeader.accept_version ≡ version
      → get_header_value f StompHeader.host ≡ s.host
      → conn.status ≡ pending
      → handle_stomp env ws conn f s ≡ accept_stomp env ws conn s
  unfolding handle_stomp
  stomp_accepted s ws conn f v h p = ground (
    arith,
    bytes_eq.beq_iff (get_header_value f StompHeader.accept_version) version,
    bytes_eq.beq_iff (get_header_value f StompHeader.host) s.host,
  )

  -- The client opens a STOMP connection with the server: over a Websocket connection that both
  -- sides have just opened, the frame that the client sends makes the server mark the connection as
  -- connected, tell its user, and answer with a frame on which the client tells its own user that
  -- it is connected. The url that the client was given is the server's host, and the url, the
  -- credentials and the connection's id can stand in headers.
  pub handshake :
      (c : Client) (s : Server) (ws : Session) (id : Bytes)
      → FitsLine c.url
      → FitsLine c.username
      → FitsLine c.password
      → FitsLine id
      → s.host ≡ c.url
      → lookup ws s.connections ≡ some (record { id = id; status = pending })
      → (request : Bytes) × (reply : Bytes) × (on_ws_connect env false c
          ≡ done (send_stomp request ∷ []))
        × (on_ws_session_message env false ws request s
            ≡ done (
              record s {
                connections = assign ws (record { id = id; status = connected }) s.connections;
              },
              Server.send ws reply none
                  ∷ Server.when s.on_client_connect (client_connect StompServerError.ok id),
            ))
        × (on_ws_message env reply c
            ≡ done (Client.when c.on_connect (post_connect StompClientError.ok)))
  unfolding on_ws_connect stomp_frame handle_frame on_ws_message Client.handle_frame
  handshake c s ws id u n p i host_is found =
      let stomp = stomp-IsSendable c u n p in
      let request = frame_of env StompCommand.stomp (stomp_headers c) [] in
      let reply = frame_of env StompCommand.connected (connected_headers id) [] in
      (
        request.plain,
        reply.plain,
        rw (of_parts-iterate env it StompCommand.stomp (stomp_headers c) [] stomp) refl,
        receive s ws (record { id = id; status = pending }) StompCommand.stomp (stomp_headers c) []
              found stomp
            ∙ stomp_accepted s ws (record { id = id; status = pending }) request
                (value-frame_of StompCommand.stomp (stomp_headers c) [] StompHeader.accept_version
                  version (unfold lookup in refl))
                (value-frame_of StompCommand.stomp (stomp_headers c) [] StompHeader.host c.url
                    (unfold lookup in refl)
                  ∙ sym host_is)
                refl
            ∙ accept_lem env it s ws (record { id = id; status = pending }) i,
        rw
            (of_text-frame_of StompCommand.connected (connected_headers id) []
              (connected-IsSendable id i))
            refl,
      )

  -- A request of a connected client reaches the server's user byte for byte: the text of the frame
  -- that the client sends makes the server report the destination, the request id and the content,
  -- whatever bytes the content holds, and leaves the server's maps as they are. The id and the
  -- destination can stand in headers, and the content's length fits a `size_t`.
  pub request_delivered :
      (s : Server) (ws : Session) (conn : Connection) (request_id destination content : Bytes)
      → lookup ws s.connections ≡ some conn
      → conn.status ≡ connected
      → s.on_client_message ≡ true
      → FitsLine request_id
      → FitsLine destination
      → length content < size_mod
      → (text : Bytes) × (Client.send env request_id destination content false
          ≡ done (send_message text none ∷ [], request_id))
        × (on_ws_session_message env false ws text s
            ≡ done
                (s, client_message StompServerError.ok conn.id destination request_id content ∷ []))
  unfolding Client.send handle_frame handle_send
  request_delivered s ws conn request_id destination content found is_connected listens r d bound =
      let hs = send_headers request_id destination content in
      let sendable = send-IsSendable request_id destination content r d bound in
      let frame = frame_of env StompCommand.send hs content in
      let dest_is : get_header_value frame StompHeader.destination ≡ destination =
        value-frame_of StompCommand.send hs content StompHeader.destination destination
          (unfold lookup in refl) in
      let id_is : get_header_value frame StompHeader.id ≡ request_id =
        value-frame_of StompCommand.send hs content StompHeader.id request_id
          (unfold lookup in refl) in
      (
        frame.plain,
        rw (of_parts-iterate env it StompCommand.send hs content sendable) refl,
        receive s ws conn StompCommand.send hs content found sendable
            ∙ rw (is_connected, listens, dest_is, id_is) refl,
      )

  -- A reply of the server reaches the client's user byte for byte: for a connected client the text
  -- that `Send` sends makes the client report the destination and the content, whatever bytes the
  -- content holds. The request id and the destination can stand in headers, and the content's length
  -- fits a `size_t`.
  pub reply_delivered :
      (s : Server) (ws : Session) (conn : Connection) (c : Client)
      (new_id request_id destination content : Bytes)
      → lookup conn.id s.sessions ≡ some ws
      → lookup ws s.connections ≡ some conn
      → conn.status ≡ connected
      → c.on_message ≡ true
      → FitsLine request_id
      → FitsLine destination
      → length content < size_mod
      → (text : Bytes) × (send_client env new_id conn.id destination content false request_id s
          ≡ done (Server.send ws text none ∷ [], request_id))
        × (on_ws_message env text c
            ≡ done (post_message StompClientError.ok destination content ∷ []))
  unfolding send_client on_ws_message Client.handle_frame Client.handle_message
  reply_delivered s ws conn c new_id request_id destination content at found is_connected listens r
        d bound =
      let hs = send_headers request_id destination content in
      let sendable = send-IsSendable request_id destination content r d bound in
      let frame = frame_of env StompCommand.send hs content in
      let dest_is : get_header_value frame StompHeader.destination ≡ destination =
        value-frame_of StompCommand.send hs content StompHeader.destination destination
          (unfold lookup in refl) in
      let kept : (request_id == []) ≡ false = ground (arith, bytes_eq.beq_iff request_id [], r.0) in
      (
        frame.plain,
        rw (at, send_client)
            (rw found (
              rw (is_connected, kept)
                (rw (send_frame_lem env it request_id destination content r d bound) refl))),
        rw (of_text-frame_of StompCommand.send hs content sendable) (rw (listens, dest_is) refl),
      )
