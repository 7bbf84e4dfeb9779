-- ===== src/Hub/Subscribing.antt =====
-- The answer to a client's subscribe frame.
use django_websocket_gateway.Common.{
  [], ◌∷◌, ◌++◌, Bytes, bytes_eq, nat_eq, text, Option, none, some, Bool, true, false, not, ◌≡◌,
  refl, arith, if◌then◌else◌, ◌==◌, ◌&&◌, ◌||◌, inl, inr, Bool-cases, ok, Returns, Returns-ok,
  Returns-mono, Returns-both,
}
use django_websocket_gateway.Common.Set
use django_websocket_gateway.Client.{Ptr, Client}
use django_websocket_gateway.Manager.{ChannelManager}
use django_websocket_gateway.Json.{Json}
use django_websocket_gateway.Hub.State.{Hub, members}
use django_websocket_gateway.Hub.Delivery.{send_error}
use django_websocket_gateway.Hub.Handlers.{
  is_control, matches_channel_regex, is_invalid_channel, judge_subscribe, handle_client_subscribe,
}
use django_websocket_gateway.Hub.Invariant.{Inv}
use django_websocket_gateway.Hub.Invariant.Delivery.{SameRouting, deliver_frame-SameRouting}
use django_websocket_gateway.Hub.Invariant.Subscription.{
  add_subscription-Inv, clients-add_subscription,
}
use django_websocket_gateway.Hub.Effect.Access.{add_subscription-heap}
use django_websocket_gateway.Hub.Fanout.{offered, overflowing, deliver_frame-offered}

-- Why a client may not join a channel, if it may not.
abbrev pub refusal : Bytes → Client → Option Bytes
refusal ch a =
    if not (matches_channel_regex ch) || is_control ch
    then some (text "invalid_channel")
    else if not (Set.contains ch a.allowed_channels)
    then some (text "forbidden")
    else none

either_test : (m r : Bool) → (if not m then ok true else ok r) ≡ ok (not m || r)
either_test true r = refl
either_test false r = refl

is_invalid_channel_lem :
    (ch : Bytes) → is_invalid_channel ch ≡ ok (not (matches_channel_regex ch) || is_control ch)
unfolding is_invalid_channel is_control
is_invalid_channel_lem [] = refl
is_invalid_channel_lem (b ∷ bs) = either_test (matches_channel_regex (b ∷ bs)) (b == b'_')

module _ {M : Type 0} (ops : ChannelManager M) (json : Json) where
  -- What the handler comes to for a registered client.
  pub handle_client_subscribe_lem :
      (c : Ptr) (ch : Bytes) (h : Hub M)
      → Set.contains c h.clients ≡ true
      → handle_client_subscribe ops json c ch h
        ≡ judge_subscribe ops json c ch (not (matches_channel_regex ch) || is_control ch) h
  unfolding handle_client_subscribe
  handle_client_subscribe_lem c ch h r = rw (r, is_invalid_channel_lem ch) refl

  answered :
      (c : Ptr) (ch reason : Bytes) (h : Hub M)
      → Inv h
      → Set.contains c h.clients ≡ true
      → Returns (send_error json c ch reason h) (λ k.
        ((p : Ptr)
          → k.heap p
            ≡ (if c == p then offered (json.error_frame ch reason) (h.heap p) else h.heap p))
        × (k.spawned ≡ h.spawned ++ overflowing h.heap (c ∷ []))
        × SameRouting h k)
  unfolding send_error
  answered c ch reason h v r =
      Returns-mono
        (Returns-both
          (deliver_frame-offered c (json.error_frame ch reason) h (v.open_send c r)
            (v.open_disconnect c))
          (deliver_frame-SameRouting c (json.error_frame ch reason) h (v.open_send c r)
            (v.open_disconnect c)))
        λ k ((e, spawned), s). (e, spawned, s)

  -- On a hub that meets the invariant, a registered client that asks for a channel whose name is
  -- invalid or reserved, or that it is not allowed, is offered one error frame with the reason
  -- (behind the frames that wait, or, where there is no room, it is told to disconnect as slow). No
  -- other client changes, and nobody's subscriptions or registration change.
  pub subscribe-refused :
      (c : Ptr) (ch reason : Bytes) (h : Hub M)
      → Inv h
      → Set.contains c h.clients ≡ true
      → refusal ch (h.heap c) ≡ some reason
      → Returns (handle_client_subscribe ops json c ch h) (λ k.
        ((p : Ptr)
          → k.heap p
            ≡ (if c == p then offered (json.error_frame ch reason) (h.heap p) else h.heap p))
        × (k.spawned ≡ h.spawned ++ overflowing h.heap (c ∷ []))
        × SameRouting h k)
  unfolding judge_subscribe
  subscribe-refused c ch reason h v r denied =
      let invalid = not (matches_channel_regex ch) || is_control ch in
      rw (handle_client_subscribe_lem c ch h r) (elim (Bool-cases invalid) [
        | inl bad ↦
            let same : text "invalid_channel" ≡ reason = ground arith in
            rw (bad, ← same) (answered c ch _ h v r)
        | inr good ↦
            let forbidden : Set.contains ch (h.heap c).allowed_channels ≡ false = ground arith in
            let same : text "forbidden" ≡ reason = ground arith in
            rw (good, forbidden, ← same) (answered c ch _ h v r)
      ])

  -- On a hub that meets the invariant, a registered client that asks for a valid public channel
  -- that it is allowed is in it afterwards, and no other membership changes; the registered clients
  -- stay the same.
  pub subscribe-joined :
      (c : Ptr) (ch : Bytes) (h : Hub M)
      → Inv h
      → Set.contains c h.clients ≡ true
      → refusal ch (h.heap c) ≡ none
      → Returns (handle_client_subscribe ops json c ch h) (λ k.
        ((p : Ptr) (x : Bytes)
          → Set.contains p (members x k) ≡ ((c == p && ch == x) || Set.contains p (members x h)))
        × (k.clients ≡ h.clients))
  unfolding judge_subscribe
  subscribe-joined c ch h v r granted =
      let good : (not (matches_channel_regex ch) || is_control ch) ≡ false = ground arith in
      let allowed : Set.contains ch (h.heap c).allowed_channels ≡ true = ground arith in
      let w = add_subscription-Inv ops c ch h v r in
      let same = clients-add_subscription ops c ch h in
      rw (handle_client_subscribe_lem c ch h r) (
        rw (good, allowed)
          (Returns-ok _ (
            λ p x.
                ground
                  (arith, w.listed p x, v.listed p x, add_subscription-heap ops c p ch x h, same),
            same,
          )))
