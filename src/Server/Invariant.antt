-- ===== src/Server/Invariant.antt =====
-- The two maps of the server mirror one another: inc/network-monitor/StompServer.h.
use live_transport_network_m.Base.{
  ◌≡◌, refl, subst, arith, Bool, true, false, Bool-cases, Option-cases, inl, inr, Option, none,
  some, Bytes, bytes_eq, nat_eq, lookup, assign, erase, lookup-assign, lookup-erase, ◌==◌,
  if◌then◌else◌,
}
use live_transport_network_m.Server.Errors.{StompServerError, server_error_eq}
use live_transport_network_m.Stomp.Command.{StompCommand}
use live_transport_network_m.Stomp.Errors.{error_eq}
use live_transport_network_m.Stomp.Frame.{StompFrame}
use live_transport_network_m.Stomp.Outcome.{Outcome, done, ◌>>=◌, >>=-eq-done, done-injective}
use live_transport_network_m.Server.{
  Session, Environment, pending, connected, Connection, Server, Step, on_ws_session_connect,
  on_ws_session_disconnect, stop, close_connection, accept_stomp, handle_stomp, handle_send,
  handle_frame, on_ws_session_message, close_client,
}

-- Each connection is found by its id, and each id leads to a connection that has it.
pub record IsConsistent (s : Server) : Type 0 where
  pub to_session :
      (ws : Session) (c : Connection)
      → lookup ws s.connections ≡ some c
      → lookup c.id s.sessions ≡ some ws
  pub to_connection :
      (id : Bytes) (ws : Session)
      → lookup id s.sessions ≡ some ws
      → (c : Connection) × (lookup ws s.connections ≡ some c) × (c.id ≡ id)

-- The state that a handler leaves, where it returns, satisfies `P`.
pub record Leaves (P : Server → Type 0) (m : Outcome Step) : Type 0 where
  pub at : (r : Step) → m ≡ done r → P r.0

module _ {P : Server → Type 0} where
  Leaves-done : (r : Step) → P r.0 → Leaves P (done r)
  Leaves-done r h = record { at = λ r' e. subst (λ (x : Step). P x.0) (done-injective e) h }

  Leaves-bind :
      {A : Type 0} (m : Outcome A) (f : A → Outcome Step)
      → ((a : A) → Leaves P (f a))
      → Leaves P (m >>= f)
  Leaves-bind m f h = record {
    at = λ r e. let (a, _, later) = >>=-eq-done m f e in (h a).at r later;
  }

  Leaves-if :
      (b : Bool) (x y : Outcome Step) → Leaves P x → Leaves P y → Leaves P (if b then x else y)
  Leaves-if true x y hx hy = hx
  Leaves-if false x y hx hy = hy

ruleset leaves_rules = (Leaves-done, Leaves-bind, Leaves-if)

-- Both entries of one connection are removed.
abbrev drop_both : Connection → Session → Server → Server
drop_both c ws s = record s {
  sessions = erase c.id s.sessions;
  connections = erase ws s.connections;
}

module _ (s : Server) (h : IsConsistent s) where
  drop_both-IsConsistent :
      (ws : Session) (c : Connection)
      → lookup ws s.connections ≡ some c
      → IsConsistent (drop_both c ws s)
  drop_both-IsConsistent ws c found = record {
    to_session = λ ws' c' e. ground (
      arith,
      lookup-erase ws ws' s.connections,
      lookup-erase c.id c'.id s.sessions,
      h.to_session ws c found,
      h.to_session ws' c',
      bytes_eq.beq_iff c.id c'.id,
    );
    to_connection = λ id ws' e.
        let e' : lookup id s.sessions ≡ some ws' =
          ground (arith, lookup-erase c.id id s.sessions) in
        let (c', found', same) = h.to_connection id ws' e' in
        (
          c',
          ground (
            arith,
            lookup-erase ws ws' s.connections,
            lookup-erase c.id id s.sessions,
            bytes_eq.beq_iff c.id id,
          ),
          same,
        );
  }

  pub connect-IsConsistent :
      (new_id : Bytes) (ec : Bool) (ws : Session)
      → lookup new_id s.sessions ≡ none
      → lookup ws s.connections ≡ none
      → IsConsistent (on_ws_session_connect new_id ec ws s).0
  unfolding on_ws_session_connect
  connect-IsConsistent new_id true ws fresh new = h
  connect-IsConsistent new_id false ws fresh new = record {
    to_session = λ ws' c' e. ground (
      arith,
      lookup-assign new_id c'.id ws s.sessions,
      lookup-assign ws ws' (record { id = new_id; status = pending }) s.connections,
      h.to_session ws' c',
      bytes_eq.beq_iff new_id c'.id,
    );
    to_connection = λ id ws' e. elim (Bool-cases (new_id == id)) [
      | inl same ↦ (
        record { id = new_id; status = pending },
        ground (
          arith,
          lookup-assign new_id id ws s.sessions,
          lookup-assign ws ws' (record { id = new_id; status = pending }) s.connections,
        ),
        (bytes_eq.beq_iff new_id id).0 same,
      )
      | inr other ↦
          let e' : lookup id s.sessions ≡ some ws' =
            ground (arith, lookup-assign new_id id ws s.sessions) in
          let (c', found', same) = h.to_connection id ws' e' in
          (
            c',
            ground (
              arith,
              lookup-assign ws ws' (record { id = new_id; status = pending }) s.connections,
            ),
            same,
          )
    ];
  }

  -- A new status of one connection.
  restatus-IsConsistent :
      (ws : Session) (c c₂ : Connection)
      → lookup ws s.connections ≡ some c
      → c₂.id ≡ c.id
      → IsConsistent (record s { connections = assign ws c₂ s.connections })
  restatus-IsConsistent ws c c₂ found same_id = record {
    to_session = λ ws' c' e. ground (
      arith,
      lookup-assign ws ws' c₂ s.connections,
      h.to_session ws c found,
      h.to_session ws' c',
    );
    to_connection = λ id ws' e.
        let (c', found', same) = h.to_connection id ws' e in
        elim (Bool-cases (ws == ws')) [
          | inl here ↦ (c₂, ground (arith, lookup-assign ws ws' c₂ s.connections), ground arith)
          | inr there ↦ (c', ground (arith, lookup-assign ws ws' c₂ s.connections), same)
        ];
  }

  pub disconnect-IsConsistent :
      (ec : Bool) (ws : Session) → IsConsistent (on_ws_session_disconnect ec ws s).0
  unfolding on_ws_session_disconnect
  disconnect-IsConsistent ec ws = elim (Option-cases (lookup ws s.connections)) [
    | inl absent ↦ rw (absent, on_ws_session_disconnect) h
    | inr (c, found) ↦ rw (found, on_ws_session_disconnect) (drop_both-IsConsistent ws c found)
  ]

  pub stop-IsConsistent : IsConsistent (stop s).0
  unfolding stop lookup
  stop-IsConsistent = record { to_session = λ ws c e. cc; to_connection = λ id ws e. cc }

  module _ (env : Environment) (ws : Session) (c : Connection)
      (found : lookup ws s.connections ≡ some c) where
    close_connection-IsConsistent :
        (error : StompServerError) (on_close : Option Bytes)
        → Leaves IsConsistent (close_connection env c ws error on_close s)
    unfolding close_connection
    close_connection-IsConsistent error on_close =
        search (leaves_rules, drop_both-IsConsistent ws c found)

    accept_stomp-IsConsistent : Leaves IsConsistent (accept_stomp env ws c s)
    unfolding accept_stomp
    accept_stomp-IsConsistent =
        search
          (leaves_rules, restatus-IsConsistent ws c (record c { status = connected }) found refl)

    handle_stomp-IsConsistent :
        (frame : StompFrame) → Leaves IsConsistent (handle_stomp env ws c frame s)
    unfolding handle_stomp
    handle_stomp-IsConsistent frame =
        search (leaves_rules, accept_stomp-IsConsistent, close_connection-IsConsistent)

    handle_send-IsConsistent :
        (frame : StompFrame) → Leaves IsConsistent (handle_send env ws c frame s)
    unfolding handle_send
    handle_send-IsConsistent frame = search (leaves_rules, close_connection-IsConsistent)

    handle_frame-IsConsistent :
        (command : StompCommand) (frame : StompFrame)
        → Leaves IsConsistent (handle_frame env command ws c frame s)
    unfolding handle_frame
    handle_frame-IsConsistent StompCommand.stomp frame = handle_stomp-IsConsistent frame
    handle_frame-IsConsistent StompCommand.send frame = handle_send-IsConsistent frame
    handle_frame-IsConsistent _ frame =
        close_connection-IsConsistent StompServerError.unsupported_frame none

  module _ (env : Environment) where
    pub message-IsConsistent :
        (ec : Bool) (ws : Session) (msg : Bytes)
        → Leaves IsConsistent (on_ws_session_message env ec ws msg s)
    unfolding on_ws_session_message
    message-IsConsistent ec ws msg = elim (Option-cases (lookup ws s.connections)) [
      | inl absent ↦ rw (absent, on_ws_session_message) (Leaves-done _ h)
      | inr (c, found) ↦
          rw (found, on_ws_session_message)
            (search (
              leaves_rules,
              handle_frame-IsConsistent env ws c found,
              close_connection-IsConsistent env ws c found,
            ))
    ]

    pub close_client-IsConsistent :
        (id : Bytes) (notify : Bool) → Leaves IsConsistent (close_client env id notify s)
    unfolding close_client
    close_client-IsConsistent id notify = elim (Option-cases (lookup id s.sessions)) [
      | inl absent ↦ rw (absent, close_client) (Leaves-done _ h)
      | inr (ws, at) ↦ elim (Option-cases (lookup ws s.connections)) [
        | inl lost ↦ rw (at, close_client) (rw lost (Leaves-done _ h))
        | inr (c, found) ↦
            rw (at, close_client)
              (rw found
                (close_connection-IsConsistent env ws c found StompServerError.undefined_error _))
      ]
    ]
