-- ===== src/Hub/Invariant/Handlers.antt =====
-- The handlers of `Hub.Run` and the five ways of `Effect`.
use django_websocket_gateway.Common.{
  [], ◌∷◌, Bytes, bytes_eq, text, nat_eq, Bool, true, false, not, ◌≡◌, refl, inl, inr, Bool-cases,
  Option-cases, if◌then◌else◌, ◌==◌, ok, Returns, Returns-ok, Returns-bind, Returns-mono,
}
use django_websocket_gateway.Common.Int.{int_eq}
use django_websocket_gateway.Common.Set
use django_websocket_gateway.Client.{Ptr}
use django_websocket_gateway.Manager.{ChannelManager}
use django_websocket_gateway.Json.{Json}
use django_websocket_gateway.Hub.State.{
  Hub, Event, register, unregister, subscribe, unsubscribe, incoming, members,
}
use django_websocket_gateway.Hub.Routing.{admit, delist, leave_all}
use django_websocket_gateway.Hub.Delivery.{send_error}
use django_websocket_gateway.Hub.Handlers.{
  is_full, is_user_full, matches_channel_regex, is_invalid_channel, is_control, handle_register,
  dismiss, handle_unregister, judge_subscribe, handle_client_subscribe, handle_client_unsubscribe,
  handle_control_message, handle_incoming, handle,
}
use django_websocket_gateway.Hub.Invariant.{Inv, IsFresh}
use django_websocket_gateway.Hub.Invariant.Delivery.{
  SameRouting-refl, signal-SameRouting, deliver_frame-SameRouting, disconnect_all-SameRouting,
  deliver_all-SameRouting, members-registered,
}
use django_websocket_gateway.Hub.Effect.{Effect, quiet, admitted, joined, parted, departed}
use django_websocket_gateway.Hub.Invariant.Unregistration.{left-open}

decided : (m r : Bool) → (b : Bool) × ((if not m then ok true else ok r) ≡ ok b)
decided true r = (r, refl)
decided false r = (true, refl)

-- The test of a channel name does not index the empty string.
pub is_invalid_channel-total : (ch : Bytes) → (b : Bool) × (is_invalid_channel ch ≡ ok b)
unfolding is_invalid_channel
is_invalid_channel-total [] = (true, refl)
is_invalid_channel-total (b ∷ bs) = decided (matches_channel_regex (b ∷ bs)) (b == b'_')

-- What a client must be for an event about it: to be registered it must be fresh.
abbrev pub Admissible : {M : Type 0} → Event → Hub M → Type 0
Admissible (register c) h = IsFresh c h
Admissible (unregister c) h = Unit
Admissible (subscribe c ch) h = Unit
Admissible (unsubscribe c ch) h = Unit
Admissible (incoming ch payload) h = Unit

module _ {M : Type 0} (ops : ChannelManager M) (json : Json) (h : Hub M) (v : Inv h) where
  handle_register-Effect :
      (c : Ptr) → IsFresh c h → Returns (handle_register ops json c h) (Effect ops (register c) h)
  unfolding handle_register
  handle_register-Effect c f = elim (Bool-cases (is_full h)) [
    | inl over ↦
        rw over (Returns-mono (signal-SameRouting c _ h (v.open_disconnect c)) λ k s. quiet s)
    | inr room ↦ rw room (elim (Bool-cases (is_user_full (h.heap c).user_id h)) [
      | inl over ↦
          rw over (Returns-mono (signal-SameRouting c _ h (v.open_disconnect c)) λ k s. quiet s)
      | inr user_room ↦
          rw user_room (Returns-ok (admit ops c h) (admitted c refl f room user_room refl))
    ])
  ]

  handle_unregister-Effect :
      (c : Ptr) → Returns (handle_unregister ops json c h) (Effect ops (unregister c) h)
  unfolding handle_unregister dismiss
  handle_unregister-Effect c = elim (Bool-cases (Set.contains c h.clients)) [
    | inl r ↦ rw r (
        Returns-bind
          (signal-SameRouting c _ (leave_all ops c (h.heap c).subscribed (delist c h))
            (left-open ops c h v))
          λ k s. Returns-ok _ (departed c k refl r s refl))
    | inr out ↦ rw out (Returns-ok h (quiet (SameRouting-refl h)))
  ]

  send_error-Effect :
      (c : Ptr) (e : Event) (ch reason : Bytes)
      → Set.contains c h.clients ≡ true
      → Returns (send_error json c ch reason h) (Effect ops e h)
  unfolding send_error
  send_error-Effect c e ch reason r =
      Returns-mono (deliver_frame-SameRouting c _ h (v.open_send c r) (v.open_disconnect c))
        λ k s. quiet s

  judge_subscribe-Effect :
      (c : Ptr) (ch : Bytes) (invalid : Bool)
      → Set.contains c h.clients ≡ true
      → is_invalid_channel ch ≡ ok invalid
      → Returns (judge_subscribe ops json c ch invalid h) (Effect ops (subscribe c ch) h)
  unfolding judge_subscribe
  judge_subscribe-Effect c ch true r e = send_error-Effect c _ ch _ r
  judge_subscribe-Effect c ch false r e =
      elim (Bool-cases (Set.contains ch (h.heap c).allowed_channels)) [
        | inl allowed ↦ rw allowed (Returns-ok _ (joined c ch refl r e allowed refl))
        | inr refused ↦ rw refused (send_error-Effect c _ ch _ r)
      ]

  handle_client_subscribe-Effect :
      (c : Ptr) (ch : Bytes)
      → Returns (handle_client_subscribe ops json c ch h) (Effect ops (subscribe c ch) h)
  unfolding handle_client_subscribe
  handle_client_subscribe-Effect c ch = elim (Bool-cases (Set.contains c h.clients)) [
    | inl r ↦
        let (b, e) = is_invalid_channel-total ch in rw (r, e) (judge_subscribe-Effect c ch b r e)
    | inr out ↦ rw out (Returns-ok h (quiet (SameRouting-refl h)))
  ]

  handle_client_unsubscribe-Effect :
      (c : Ptr) (ch : Bytes)
      → Returns (handle_client_unsubscribe ops json c ch h) (Effect ops (unsubscribe c ch) h)
  unfolding handle_client_unsubscribe
  handle_client_unsubscribe-Effect c ch = elim (Bool-cases (Set.contains c h.clients)) [
    | inl r ↦ rw r (elim (Bool-cases (Set.contains ch (h.heap c).subscribed)) [
      | inl old ↦ rw old (Returns-ok _ (parted c ch refl r old refl))
      | inr new ↦ rw new (Returns-ok h (quiet (SameRouting-refl h)))
    ])
    | inr out ↦ rw out (Returns-ok h (quiet (SameRouting-refl h)))
  ]

  handle_control_message-Effect :
      (e : Event) (ch payload : Bytes)
      → Returns (handle_control_message ops json ch payload h) (Effect ops e h)
  unfolding handle_control_message
  handle_control_message-Effect e ch payload = elim (Option-cases (json.control_payload payload)) [
    | inl bad ↦ rw (bad, handle_control_message) (Returns-ok h (quiet (SameRouting-refl h)))
    | inr (parsed, good) ↦
        rw (good, handle_control_message)
          (elim (Bool-cases (parsed.kind == text "revoke")) [
            | inl revoke ↦
                rw revoke
                  (Returns-mono (disconnect_all-SameRouting (members ch h) _ _ h v) λ k s. quiet s)
            | inr other ↦ rw other (Returns-ok h (quiet (SameRouting-refl h)))
          ])
  ]

  handle_incoming-Effect :
      (ch payload : Bytes)
      → Returns (handle_incoming ops json ch payload h) (Effect ops (incoming ch payload) h)
  unfolding handle_incoming
  handle_incoming-Effect ch payload = elim (Bool-cases (is_control ch)) [
    | inl control ↦ rw control (handle_control_message-Effect _ ch payload)
    | inr public ↦ rw public (
        Returns-mono
          (deliver_all-SameRouting (members ch h) payload h v (members-registered ch h v))
          λ k s. quiet s)
  ]

  -- On a hub that meets the invariant, every event of the loop is handled without a panic, where a
  -- client that registers is fresh. The hub afterwards differs from the hub before in one of the ways
  -- of `Effect`: nothing but buffers of clients, a fresh client admitted below both limits, a
  -- registered client in one more channel whose name is valid and that it is allowed, a registered
  -- client in one channel less, or a registered client gone.
  pub handle-Effect : (e : Event) → Admissible e h → Returns (handle ops json e h) (Effect ops e h)
  unfolding handle
  handle-Effect (register c) f = handle_register-Effect c f
  handle-Effect (unregister c) _ = handle_unregister-Effect c
  handle-Effect (subscribe c ch) _ = handle_client_subscribe-Effect c ch
  handle-Effect (unsubscribe c ch) _ = handle_client_unsubscribe-Effect c ch
  handle-Effect (incoming ch payload) _ = handle_incoming-Effect ch payload
