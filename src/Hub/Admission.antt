-- ===== src/Hub/Admission.antt =====
-- The registration of a client that has just connected: it is refused, or it is admitted to its two
-- control channels.
use django_websocket_gateway.Common.{
  Bytes, bytes_eq, nat_eq, text, true, false, ◌≡◌, refl, ◌∙◌, ap, arith, if◌then◌else◌, ◌==◌, ◌||◌,
  ◌&&◌, inl, inr, Bool-cases, Returns, Returns-ok, Returns-mono, Returns-both,
}
use django_websocket_gateway.Common.Int.{int_eq}
use django_websocket_gateway.Common.Set
use django_websocket_gateway.Common.Map
use django_websocket_gateway.Common.Set.{contains-add}
use django_websocket_gateway.Client.{Ptr, DisconnectReason, close_too_many_connections}
use django_websocket_gateway.Manager.{ChannelManager}
use django_websocket_gateway.Json.{Json}
use django_websocket_gateway.Hub.State.{Hub, members, store, session_channel, user_channel}
use django_websocket_gateway.Hub.Routing.{admit, enlist, add_subscription}
use django_websocket_gateway.Hub.Routing.Laws.{join-SameElsewhere}
use django_websocket_gateway.Hub.Delivery.{signal}
use django_websocket_gateway.Hub.Handlers.{is_full, is_user_full, handle_register}
use django_websocket_gateway.Hub.Invariant.{Inv, IsFresh}
use django_websocket_gateway.Hub.Invariant.Delivery.{SameRouting, signal-SameRouting}
use django_websocket_gateway.Hub.Invariant.Subscription.{with_channel, clients-add_subscription}
use django_websocket_gateway.Hub.Effect.{admitted}
use django_websocket_gateway.Hub.Effect.Inv.{Effect-Inv}
use django_websocket_gateway.Hub.Effect.Access.{add_subscription-heap}
use django_websocket_gateway.Hub.Fanout.{told, signal-told}

module _ {M : Type 0} (ops : ChannelManager M) where
  spawned-add_subscription :
      (c : Ptr) (ch : Bytes) (h : Hub M) → (add_subscription ops c ch h).spawned ≡ h.spawned
  unfolding add_subscription store
  spawned-add_subscription c ch h =
      ground (arith, join-SameElsewhere ops c ch (Map.get ch h.channels) (with_channel ops c ch h))

  pub spawned-admit : (c : Ptr) (h : Hub M) → (admit ops c h).spawned ≡ h.spawned
  unfolding admit enlist
  spawned-admit c h =
      spawned-add_subscription c _ (add_subscription ops c _ (enlist c h))
      ∙ spawned-add_subscription c _ (enlist c h)

  pub contains-clients-admit :
      (c p : Ptr) (h : Hub M)
      → Set.contains p (admit ops c h).clients ≡ (c == p || Set.contains p h.clients)
  unfolding admit enlist
  contains-clients-admit c p h =
      ap (Set.contains p) (
        clients-add_subscription ops c _ (add_subscription ops c _ (enlist c h))
        ∙ clients-add_subscription ops c _ (enlist c h))
      ∙ contains-add c p h.clients

  subscribed-admit :
      (c p : Ptr) (ch : Bytes) (h : Hub M)
      → Set.contains ch ((admit ops c h).heap p).subscribed ≡ (
          (c == p
            && (session_channel (h.heap c).session_key == ch
                || user_channel (h.heap c).user_id == ch))
          || Set.contains ch (h.heap p).subscribed)
  unfolding admit enlist
  subscribed-admit c p ch h =
      let session = session_channel (h.heap c).session_key in
      let user = user_channel (h.heap c).user_id in
      ground (
        arith,
        add_subscription-heap ops c p session ch (enlist c h),
        add_subscription-heap ops c p user ch (add_subscription ops c session (enlist c h)),
      )

  -- Who is in which channel once a fresh client is in.
  members-admit :
      (c p : Ptr) (ch : Bytes) (h : Hub M)
      → Inv h
      → Inv (admit ops c h)
      → IsFresh c h
      → Set.contains p (members ch (admit ops c h)) ≡ (
          (c == p
            && (session_channel (h.heap c).session_key == ch
                || user_channel (h.heap c).user_id == ch))
          || Set.contains p (members ch h))
  members-admit c p ch h v w f =
      let nothing : Set.contains ch (h.heap c).subscribed ≡ false =
        unfold Set.contains in rw f.blank refl in
      ground (
        arith,
        w.listed p ch,
        v.listed p ch,
        subscribed-admit c p ch h,
        contains-clients-admit c p h,
        nothing,
        f.outside,
      )

module _ {M : Type 0} (ops : ChannelManager M) (json : Json) where
  pub signalled :
      (c : Ptr) (reason : DisconnectReason) (h : Hub M)
      → Inv h
      → Returns (signal c reason h) (λ k.
        ((p : Ptr) → k.heap p ≡ (if c == p then told reason (h.heap p) else h.heap p))
        × (k.spawned ≡ h.spawned)
        × SameRouting h k)
  signalled c reason h v =
      Returns-mono
        (Returns-both (signal-told c reason h (v.open_disconnect c))
          (signal-SameRouting c reason h (v.open_disconnect c)))
        λ k ((e, spawned), s). (e, spawned, s)

  -- On a hub that meets the invariant, a client is refused where one of the two limits is reached:
  -- it is told to disconnect with code 4429 and the name of the limit, the total limit first. No
  -- other client changes, nobody's registration or subscriptions change, and no goroutine is
  -- started.
  pub handle_register-refused :
      (c : Ptr) (h : Hub M)
      → Inv h
      → (is_full h || is_user_full (h.heap c).user_id h) ≡ true
      → Returns (handle_register ops json c h) (λ k.
        ((p : Ptr)
          → k.heap p ≡ (
              if c == p
              then told
                  (record {
                    code = close_too_many_connections;
                    reason =
                        if is_full h
                        then text "max_connections_total"
                        else text "max_connections_per_user";
                  })
                  (h.heap p)
              else h.heap p))
        × (k.spawned ≡ h.spawned)
        × SameRouting h k)
  unfolding handle_register
  handle_register-refused c h v over = elim (Bool-cases (is_full h)) [
    | inl full ↦ rw full (signalled c _ h v)
    | inr room ↦
        let user_over : is_user_full (h.heap c).user_id h ≡ true = ground arith in
        rw room (rw user_over (signalled c _ h v))
  ]

  -- On a hub that meets the invariant, a fresh client below both limits becomes registered, beside
  -- those that were, and a member of the channel of its session and of the revoke channel of its
  -- user. No other registration or membership changes, and no goroutine is started.
  pub handle_register-admitted :
      (c : Ptr) (h : Hub M)
      → Inv h
      → IsFresh c h
      → (is_full h || is_user_full (h.heap c).user_id h) ≡ false
      → Returns (handle_register ops json c h) (λ k.
        ((p : Ptr) → Set.contains p k.clients ≡ (c == p || Set.contains p h.clients))
        × ((p : Ptr) (ch : Bytes)
            → Set.contains p (members ch k) ≡ (
                (c == p
                  && (session_channel (h.heap c).session_key == ch
                      || user_channel (h.heap c).user_id == ch))
                || Set.contains p (members ch h)))
        × (k.spawned ≡ h.spawned))
  unfolding handle_register
  handle_register-admitted c h v f under =
      let room : is_full h ≡ false = ground arith in
      let user_room : is_user_full (h.heap c).user_id h ≡ false = ground arith in
      let w = Effect-Inv ops v (admitted c refl f room user_room refl) in
      rw room (
        rw user_room (
          Returns-ok (admit ops c h) (
            λ p. contains-clients-admit ops c p h,
            λ p ch. members-admit ops c p ch h v w f,
            spawned-admit ops c h,
          )))
