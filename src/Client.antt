-- ===== src/Client.antt =====
-- The STOMP client: inc/network-monitor/StompClient.h. As for the server, a handler takes the
-- members and returns them with the calls on the Websocket layer and the callbacks that it posts.
pub mod Errors
pub mod Subscribed
use live_transport_network_m.Base.{
  Bool, true, false, not, Option, none, some, List, [], ◌∷◌, Bytes, bytes, bytes_eq, lookup,
  emplace, Assoc, length, ◌==◌, if◌then◌else◌,
}
use live_transport_network_m.Client.Errors.{StompClientError}
use live_transport_network_m.Server.{Environment, version}
use live_transport_network_m.Stomp.Command.{StompCommand}
use live_transport_network_m.Stomp.Decimal.{decimal}
use live_transport_network_m.Stomp.Errors.{StompError, error_eq}
use live_transport_network_m.Stomp.Frame.{StompFrame, Headers, get_header_value, of_text, of_parts}
use live_transport_network_m.Stomp.Header.{StompHeader}
use live_transport_network_m.Stomp.Outcome.{Outcome, done, ◌>>=◌}

-- Of a callback only whether it was given matters here.
pub record Subscription : Type 0 where
  pub destination : Bytes
  pub on_subscribe : Bool
  pub on_message : Bool

-- A call that a method makes. `send_stomp` and `send_subscribe` complete by `OnWsSendStomp` and
-- `OnWsSendSubscribe`. A subscription's callbacks are named by its id.
pub data Action : Type 0 where
  ws_connect : Action
  ws_close : Bool → Action
  send_stomp : Bytes → Action
  send_subscribe : Bytes → Bytes → Subscription → Action
  send_message : Bytes → Option Bytes → Action
  post_connect : StompClientError → Action
  post_disconnect : StompClientError → Action
  post_close : StompClientError → Action
  post_message : StompClientError → Bytes → Bytes → Action
  post_subscribe : StompClientError → Bytes → Action
  post_subscription_message : Bytes → StompClientError → Bytes → Action

pub record Client : Type 0 where
  pub url : Bytes
  pub username : Bytes
  pub password : Bytes
  pub on_connect : Bool
  pub on_message : Bool
  pub on_disconnect : Bool
  pub subscriptions : Assoc Bytes Subscription

abbrev pub when : Bool → Action → List Action
when true a = a ∷ []
when false a = []

abbrev pub code_for : Bool → StompClientError → StompClientError
code_for true e = e
code_for false e = StompClientError.ok

-- `Connect`
unfoldable pub connect : Bytes → Bytes → Bool → Bool → Bool → Client → Client × List Action
connect username password on_connect on_message on_disconnect c = (
  record c {
    username = username;
    password = password;
    on_connect = on_connect;
    on_message = on_message;
    on_disconnect = on_disconnect;
  },
  ws_connect ∷ [],
)

-- `Close`, with whether a callback is given.
unfoldable pub close : Bool → Client → Client × List Action
close notify c = (record c { subscriptions = [] }, ws_close notify ∷ [])

-- `OnWsSendStomp`
unfoldable pub on_ws_send_stomp : Bool → Client → List Action
on_ws_send_stomp ec c =
    if ec then when c.on_connect (post_connect StompClientError.could_not_send_stomp_frame) else []

-- `OnWsSendSubscribe`
unfoldable pub on_ws_send_subscribe : Bool → Bytes → Subscription → Client → Client × List Action
on_ws_send_subscribe ec id subscription c =
    if not ec then (record c { subscriptions = emplace id subscription c.subscriptions }, []) else (
      c,
      when subscription.on_subscribe
          (post_subscribe StompClientError.could_not_send_subscribe_frame []),
    )

-- `OnWsDisconnect`
unfoldable pub on_ws_disconnect : Bool → Client → List Action
on_ws_disconnect ec c =
    when c.on_disconnect
      (post_disconnect (code_for ec StompClientError.websocket_server_disconnected))

-- `OnWsClose`
unfoldable pub on_ws_close : Bool → Bool → List Action
on_ws_close ec notify =
    when notify (post_close (code_for ec StompClientError.could_not_close_websocket_connection))

-- `HandleSubscriptionMessage`
unfoldable pub handle_subscription_message : StompFrame → Client → List Action
handle_subscription_message f c =
    let id = get_header_value f StompHeader.subscription in
    elim (lookup id c.subscriptions) [
      | none ↦ []
      | some subscription ↦
          if get_header_value f StompHeader.destination == subscription.destination
          then when subscription.on_message
              (post_subscription_message id StompClientError.ok f.body)
          else when subscription.on_message
              (post_subscription_message id StompClientError.unexpected_subscription_mismatch [])
    ]

-- `HandleSubscriptionReceipt`
unfoldable pub handle_subscription_receipt : StompFrame → Client → List Action
handle_subscription_receipt f c =
    let id = get_header_value f StompHeader.receipt_id in
    elim (lookup id c.subscriptions) [
      | none ↦ []
      | some subscription ↦ when subscription.on_subscribe (post_subscribe StompClientError.ok id)
    ]

-- `HandleMessage`
unfoldable pub handle_message : StompFrame → Client → List Action
handle_message f c =
    when c.on_message
      (post_message StompClientError.ok (get_header_value f StompHeader.destination) f.body)

-- `HandleConnected`
abbrev handle_connected : StompFrame → Client → List Action
handle_connected f c = when c.on_connect (post_connect StompClientError.ok)

-- `HandleError`, which only logs.
abbrev handle_error : StompFrame → Client → List Action
handle_error f c = []

-- The switch of `OnWsMessage`.
unfoldable pub handle_frame : StompCommand → StompFrame → Client → List Action
handle_frame StompCommand.connected f c = handle_connected f c
handle_frame StompCommand.error f c = handle_error f c
handle_frame StompCommand.message f c = handle_subscription_message f c
handle_frame StompCommand.receipt f c = handle_subscription_receipt f c
handle_frame StompCommand.send f c = handle_message f c
handle_frame _ f c = []

module _ (env : Environment) where
  -- The frame that `OnWsConnect` makes.
  unfoldable pub stomp_frame : Client → Outcome (StompError × StompFrame)
  stomp_frame c =
      of_parts env.indeterminate StompCommand.stomp
        (env.iterate (
          (StompHeader.accept_version, version)
          ∷ (StompHeader.host, c.url)
          ∷ (StompHeader.login, c.username)
          ∷ (StompHeader.passcode, c.password)
          ∷ []))
        []

  -- `OnWsConnect`
  unfoldable pub on_ws_connect : Bool → Client → Outcome (List Action)
  on_ws_connect true c =
      done (when c.on_connect (post_connect StompClientError.could_not_connect_to_websocket_server))
  on_ws_connect false c = do
    made ← stomp_frame c
    done (
        if made.0 == StompError.ok
        then send_stomp made.1.plain ∷ []
        else when c.on_connect
            (post_connect StompClientError.unexpected_could_not_create_valid_frame))

  -- `Subscribe`, with the id that `GenerateId` returns; that id, or the empty text, is returned.
  unfoldable pub subscribe : Bytes → Subscription → Outcome (List Action × Bytes)
  subscribe new_id subscription = do
    made ←
        of_parts env.indeterminate StompCommand.subscribe
          (env.iterate (
            (StompHeader.id, new_id)
            ∷ (StompHeader.destination, subscription.destination)
            ∷ (StompHeader.ack, bytes "auto")
            ∷ (StompHeader.receipt, new_id)
            ∷ []))
          []
    done (
        if made.0 == StompError.ok
        then (send_subscribe made.1.plain new_id subscription ∷ [], new_id)
        else ([], []))

  -- `Send`, with the id that `GenerateId` returns and whether a callback is given.
  unfoldable pub send : Bytes → Bytes → Bytes → Bool → Outcome (List Action × Bytes)
  send new_id destination content notify = do
    made ←
        of_parts env.indeterminate StompCommand.send
          (env.iterate (
            (StompHeader.id, new_id)
            ∷ (StompHeader.destination, destination)
            ∷ (StompHeader.content_type, bytes "application/json")
            ∷ (StompHeader.content_length, decimal (length content))
            ∷ []))
          content
    done (
        if made.0 == StompError.ok
        then (send_message made.1.plain (if notify then some new_id else none) ∷ [], new_id)
        else ([], []))

  -- `OnWsMessage`; the error code that comes with the message is not looked at.
  unfoldable pub on_ws_message : Bytes → Client → Outcome (List Action)
  on_ws_message msg c = do
    read ← of_text env.indeterminate msg
    done (
        if read.0 == StompError.ok
        then handle_frame read.1.command read.1 c
        else when c.on_connect
            (post_connect StompClientError.could_not_parse_message_as_stomp_frame))
