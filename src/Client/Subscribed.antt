-- ===== src/Client/Subscribed.antt =====
-- What a subscription brings: inc/network-monitor/StompClient.h.
use live_transport_network_m.Base.{
  ◌≡◌, ◌≢◌, refl, arith, true, false, none, some, [], ◌∷◌, Bytes, bytes_eq, lookup, lookup-emplace,
}
use live_transport_network_m.Client.Errors.{StompClientError}
use live_transport_network_m.Client.{
  Client, Subscription, Action, post_subscribe, post_subscription_message, on_ws_send_subscribe,
  on_ws_message, handle_frame, handle_subscription_message, handle_subscription_receipt,
}
use live_transport_network_m.Server.{Environment}
use live_transport_network_m.Stomp.Command.{StompCommand}
use live_transport_network_m.Stomp.Errors.{StompError, error_eq}
use live_transport_network_m.Stomp.Frame.{StompFrame, of_text, get_header_value}
use live_transport_network_m.Stomp.Header.{StompHeader}
use live_transport_network_m.Stomp.Outcome.{done}

-- What a frame should bring to the user of the subscription `id`.
pub data Brings (id : Bytes) (sub : Subscription) (f : StompFrame) : Action → Type 0 where
  receipt :
      f.command ≡ StompCommand.receipt
      → get_header_value f StompHeader.receipt_id ≡ id
      → Brings id sub f (post_subscribe StompClientError.ok id)
  message :
      f.command ≡ StompCommand.message
      → get_header_value f StompHeader.subscription ≡ id
      → get_header_value f StompHeader.destination ≡ sub.destination
      → Brings id sub f (post_subscription_message id StompClientError.ok f.body)
  mismatch :
      f.command ≡ StompCommand.message
      → get_header_value f StompHeader.subscription ≡ id
      → get_header_value f StompHeader.destination ≢ sub.destination
      → Brings id sub f
          (post_subscription_message id StompClientError.unexpected_subscription_mismatch [])

module _ (id : Bytes) (sub : Subscription) (c : Client) where
  -- The client once the SUBSCRIBE frame is sent.
  abbrev pub subscribed : Client
  subscribed = (on_ws_send_subscribe false id sub c).0

  kept : lookup id c.subscriptions ≡ none → lookup id subscribed.subscriptions ≡ some sub
  unfolding on_ws_send_subscribe
  kept new = rw lookup-emplace (ground (arith, bytes_eq.beq_iff id id))

  handled :
      (d : Client)
      → lookup id d.subscriptions ≡ some sub
      → sub.on_subscribe ≡ true
      → sub.on_message ≡ true
      → (f : StompFrame) (a : Action) → Brings id sub f a
      → handle_frame f.command f d ≡ a ∷ []
  unfolding handle_frame handle_subscription_message handle_subscription_receipt
  handled d found s m f _ (receipt is at) = rw is (ground arith)
  handled d found s m f _ (message is at same) = rw is (
      ground (arith, bytes_eq.beq_iff (get_header_value f StompHeader.destination) sub.destination))
  handled d found s m f _ (mismatch is at other) = rw is (
      ground (arith, bytes_eq.beq_iff (get_header_value f StompHeader.destination) sub.destination))

  -- Once a SUBSCRIBE frame is sent under an id that is not in use, the client makes exactly the
  -- call that each frame for that id should bring: a RECEIPT is reported as the subscription's
  -- success, a MESSAGE of its destination is delivered to it with its body, and a MESSAGE of any
  -- other is reported to it as a mismatch, with no body. Both callbacks are given.
  pub subscription_served :
      (env : Environment) (text : Bytes) (f : StompFrame) (a : Action)
      → lookup id c.subscriptions ≡ none
      → sub.on_subscribe ≡ true
      → sub.on_message ≡ true
      → of_text env.indeterminate text ≡ done (StompError.ok, f)
      → Brings id sub f a
      → on_ws_message env text subscribed ≡ done (a ∷ [])
  unfolding on_ws_message
  subscription_served env text f a new s m read brings =
      rw (read, on_ws_message) (rw (handled subscribed (kept new) s m f a brings) refl)
