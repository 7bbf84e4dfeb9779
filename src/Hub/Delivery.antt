-- ===== src/Hub/Delivery.antt =====
-- What the hub sends to a client: frames, error frames and disconnect signals. A send on a closed
-- channel panics.
use django_websocket_gateway.Common.{ℕ, List, [], ◌∷◌, ◌++◌, Bytes, text, Run, ok, panic, ◌>>=◌}
use django_websocket_gateway.Common.Chan.{try_send, sent, full, on_closed, close}
use django_websocket_gateway.Client.{Ptr, DisconnectReason, close_slow_client}
use django_websocket_gateway.Json.{Json}
use django_websocket_gateway.Hub.State.{Hub, store}

module _ {M : Type 0} where
  -- `select { case c.disconnect <- reason: default: }`
  unfoldable pub signal : Ptr → DisconnectReason → Hub M → Run (Hub M)
  unfolding store
  signal c reason h = elim (try_send reason (h.heap c).disconnect) [
    | sent chan ↦ ok (store c (record (h.heap c) { disconnect = chan }) h)
    | full ↦ ok h
    | on_closed ↦ panic
  ]

  unfoldable pub disconnect_client : Ptr → ℕ → Bytes → Hub M → Run (Hub M)
  unfolding signal
  disconnect_client c code reason = signal c (record { code = code; reason = reason })

  unfoldable pub refuse : Ptr → ℕ → Bytes → Hub M → Run (Hub M)
  unfolding disconnect_client
  refuse c code reason = disconnect_client c code reason

  -- `go func(c *Client) { h.unregister <- c }(c)`
  unfoldable pub spawn_unregister : Ptr → Hub M → Hub M
  spawn_unregister c h = record h { spawned = h.spawned ++ c ∷ [] }

  unfoldable pub deliver_frame : Ptr → Bytes → Hub M → Run (Hub M)
  unfolding store disconnect_client spawn_unregister
  deliver_frame c payload h = elim (try_send payload (h.heap c).send) [
    | sent chan ↦ ok (store c (record (h.heap c) { send = chan }) h)
    | full ↦ do
      h' ← disconnect_client c close_slow_client (text "slow_client") h
      ok (spawn_unregister c h')
    | on_closed ↦ panic
  ]

  unfoldable pub send_error : Json → Ptr → Bytes → Bytes → Hub M → Run (Hub M)
  unfolding deliver_frame
  send_error json c channel reason = deliver_frame c (json.error_frame channel reason)

  -- `for c := range h.channels[msg.Channel] { h.deliverFrame(c, msg.Payload) }`
  unfoldable pub deliver_all : List Ptr → Bytes → Hub M → Run (Hub M)
  unfolding deliver_frame
  deliver_all [] payload h = ok h
  deliver_all (c ∷ cs) payload h = do h' ← deliver_frame c payload h; deliver_all cs payload h'

  -- `for c := range candidates { h.disconnectClient(c, code, reason) }`
  unfoldable pub disconnect_all : List Ptr → ℕ → Bytes → Hub M → Run (Hub M)
  unfolding disconnect_client
  disconnect_all [] code reason h = ok h
  disconnect_all (c ∷ cs) code reason h = do
    h' ← disconnect_client c code reason h
    disconnect_all cs code reason h'

  -- `closeChan(c)`: it recovers from a second close.
  unfoldable pub close_chan : Ptr → Hub M → Hub M
  unfolding store
  close_chan c h = store c (record (h.heap c) { send = close (h.heap c).send }) h
