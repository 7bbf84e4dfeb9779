-- ===== src/Hub/Fanout.antt =====
-- Who gets what: the clients after a message on a public channel.
use django_websocket_gateway.Common.{
  List, [], ◌∷◌, ◌++◌, Bytes, bytes_eq, nat_eq, text, true, false, ◌≡◌, refl, sym, ◌∙◌, ap, ap₂,
  arith, inl, inr, Bool-cases, if◌then◌else◌, ◌==◌, ==_refl, Returns-both, Returns, Returns-ok,
  Returns-bind, Returns-mono, All, append-nil, append_assoc,
}
use django_websocket_gateway.Common.Set
use django_websocket_gateway.Common.Set.{IsNodup}
use django_websocket_gateway.Common.Chan.{has_room, push}
use django_websocket_gateway.Client.{Ptr, Client, DisconnectReason, close_slow_client}
use django_websocket_gateway.Manager.{ChannelManager}
use django_websocket_gateway.Json.{Json}
use django_websocket_gateway.Hub.State.{Hub, store, members}
use django_websocket_gateway.Hub.Delivery.{signal, deliver_frame, deliver_all}
use django_websocket_gateway.Hub.Handlers.{is_control, handle_incoming}
use django_websocket_gateway.Hub.Invariant.{Inv}
use django_websocket_gateway.Hub.Invariant.Delivery.{
  SameRouting, Inv-SameRouting, deliver_frame-SameRouting, deliver_all-SameRouting,
  members-registered,
}

-- A client that is told to disconnect, if it was not told so before.
abbrev pub told : DisconnectReason → Client → Client
told reason a =
    if has_room a.disconnect then record a { disconnect = push reason a.disconnect } else a

abbrev pub slow : DisconnectReason
slow = record { code = close_slow_client; reason = text "slow_client" }

-- A client that is sent a frame: it is queued behind the frames before it, or, where the queue is
-- full, the client is told to disconnect.
abbrev pub offered : Bytes → Client → Client
offered payload a = if has_room a.send then record a { send = push payload a.send } else told slow a

-- The clients of a list that have no room left.
unfoldable pub overflowing : (Ptr → Client) → List Ptr → List Ptr
overflowing heap [] = []
overflowing heap (c ∷ cs) =
    if has_room (heap c).send then overflowing heap cs else c ∷ overflowing heap cs

overflowing-ext :
    (f g : Ptr → Client) (cs : List Ptr)
    → ((p : Ptr) → Set.contains p cs ≡ true → f p ≡ g p)
    → overflowing f cs ≡ overflowing g cs
unfolding overflowing Set.contains
overflowing-ext f g [] h = refl
overflowing-ext f g (c ∷ cs) h =
    ground (arith, h c (rw (==_refl c) refl), overflowing-ext f g cs (λ p m. h p (ground arith)))

overflowing-cons :
    (f : Ptr → Client) (c : Ptr) (cs : List Ptr)
    → overflowing f (c ∷ []) ++ overflowing f cs ≡ overflowing f (c ∷ cs)
unfolding overflowing
overflowing-cons f c cs = ground arith

-- The goroutines of the first client and those of the rest.
overflowing-after :
    (f : Ptr → Client) (c : Ptr) (cs before between rest : List Ptr)
    → between ≡ before ++ overflowing f (c ∷ [])
    → rest ≡ overflowing f cs
    → between ++ rest ≡ before ++ overflowing f (c ∷ cs)
overflowing-after f c cs before between rest e s =
    ap₂ ◌++◌ e s
    ∙ append_assoc before (overflowing f (c ∷ [])) (overflowing f cs)
    ∙ ap (◌++◌ before) (overflowing-cons f c cs)

module _ {M : Type 0} where
  pub signal-told :
      (c : Ptr) (reason : DisconnectReason) (h : Hub M)
      → (h.heap c).disconnect.closed ≡ false
      → Returns (signal c reason h) (λ k.
        ((p : Ptr) → k.heap p ≡ (if c == p then told reason (h.heap p) else h.heap p))
        × (k.spawned ≡ h.spawned))
  unfolding signal store
  signal-told c reason h o = elim (Bool-cases (has_room (h.heap c).disconnect)) [
    | inl room ↦ rw (o, signal) (rw room (Returns-ok _ (λ p. ground arith, refl)))
    | inr none_left ↦ rw (o, signal) (rw none_left (Returns-ok h (λ p. ground arith, refl)))
  ]

  -- One frame to one client.
  pub deliver_frame-offered :
      (c : Ptr) (payload : Bytes) (h : Hub M)
      → (h.heap c).send.closed ≡ false
      → (h.heap c).disconnect.closed ≡ false
      → Returns (deliver_frame c payload h) (λ k.
        ((p : Ptr) → k.heap p ≡ (if c == p then offered payload (h.heap p) else h.heap p))
        × (k.spawned ≡ h.spawned ++ overflowing h.heap (c ∷ [])))
  unfolding deliver_frame store overflowing
  deliver_frame-offered c payload h o d = elim (Bool-cases (has_room (h.heap c).send)) [
    | inl room ↦
        rw (o, deliver_frame)
          (rw room (Returns-ok _ (λ p. ground arith, sym (append-nil h.spawned))))
    | inr none_left ↦
        rw (o, deliver_frame)
          (rw none_left (
            Returns-bind (signal-told c slow h d)
              λ k (e, s). Returns-ok _ (λ p. ground (arith, e p), ap (λ l. l ++ c ∷ []) s)))
  ]

  unfoldable pub Delivered : Bytes → List Ptr → Hub M → Hub M → Type 0
  Delivered payload cs h k =
      ((p : Ptr) → k.heap p ≡ (if Set.contains p cs then offered payload (h.heap p) else h.heap p))
      × (k.spawned ≡ h.spawned ++ overflowing h.heap cs)

  -- One frame to each client of a list.
  pub deliver_all-Delivered :
      (cs : List Ptr) (payload : Bytes) (h : Hub M)
      → Inv h
      → IsNodup cs
      → All (λ c. Set.contains c h.clients ≡ true) cs
      → Returns (deliver_all cs payload h) (Delivered payload cs h)
  unfolding deliver_all Delivered overflowing Set.contains
  deliver_all-Delivered [] payload h v _ _ = Returns-ok h (λ p. refl, sym (append-nil h.spawned))
  deliver_all-Delivered (c ∷ cs) payload h v (out, n) (r, rs) =
      Returns-bind
        (Returns-both (deliver_frame-offered c payload h (v.open_send c r) (v.open_disconnect c))
          (deliver_frame-SameRouting c payload h (v.open_send c r) (v.open_disconnect c)))
        λ k ((e, spawned), s).
          Returns-mono
            (deliver_all-Delivered cs payload k (Inv-SameRouting v s) n (rw s.clients rs))
            λ l (e', spawned'). (
              λ p. ground (arith, e p, e' p),
              spawned'
                  ∙ overflowing-after h.heap c cs h.spawned k.spawned (overflowing k.heap cs)
                      spawned (overflowing-ext k.heap h.heap cs (λ p m. ground (arith, e p))),
            )

module _ {M : Type 0} (ops : ChannelManager M) (json : Json) where
  -- On a hub that meets the invariant, a message on a public channel is offered once to each client
  -- in the channel and to no other: it goes behind the frames that wait for the client, or, where
  -- the client's queue is full, the client is told to disconnect as slow and one goroutine is
  -- started to unregister it. Nobody's subscriptions or registration change, and nothing panics.
  pub handle_incoming-fanout :
      (ch payload : Bytes) (h : Hub M)
      → Inv h
      → is_control ch ≡ false
      → Returns (handle_incoming ops json ch payload h) (λ k.
        ((p : Ptr)
          → k.heap p
            ≡ (if Set.contains p (members ch h) then offered payload (h.heap p) else h.heap p))
        × (k.spawned ≡ h.spawned ++ overflowing h.heap (members ch h))
        × SameRouting h k)
  unfolding handle_incoming Delivered
  handle_incoming-fanout ch payload h v public =
      let registered = members-registered ch h v in
      rw public (
        Returns-mono
          (Returns-both
            (deliver_all-Delivered (members ch h) payload h v (v.nodup_members ch) registered)
            (deliver_all-SameRouting (members ch h) payload h v registered))
          λ k ((e, spawned), s). (e, spawned, s))
