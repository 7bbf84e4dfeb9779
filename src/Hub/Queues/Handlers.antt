-- ===== src/Hub/Queues/Handlers.antt =====
-- What each handler puts into the queues.
use django_websocket_gateway.Common.{
  List, [], Bytes, bytes_eq, nat_eq, true, false, not, ◌||◌, ◌≡◌, ◌∙◌, refl, ap, inl, inr, arith,
  ◌==◌, Bool-cases, Option-cases, Returns, Returns-ok, Returns-bind, Returns-mono,
}
use django_websocket_gateway.Common.Set
use django_websocket_gateway.Common.Map
use django_websocket_gateway.Client.{Ptr, Client}
use django_websocket_gateway.Manager.{ChannelManager}
use django_websocket_gateway.Json.{Json}
use django_websocket_gateway.Hub.State.{
  Hub, Event, register, unregister, subscribe, unsubscribe, incoming, store, members,
}
use django_websocket_gateway.Hub.Routing.{
  admit, enlist, add_subscription, remove_from_channel, delist, leave_all,
}
use django_websocket_gateway.Hub.Routing.Laws.{
  join-SameElsewhere, remove-SameElsewhere, leave_all-SameElsewhere,
}
use django_websocket_gateway.Hub.Delivery.{close_chan}
use django_websocket_gateway.Hub.Handlers.{
  is_control, is_full, is_user_full, matches_channel_regex, handle, handle_register,
  handle_unregister, dismiss, handle_client_subscribe, handle_client_unsubscribe, handle_incoming,
  judge_subscribe,
}
use django_websocket_gateway.Hub.Invariant.{Inv}
use django_websocket_gateway.Hub.Invariant.Subscription.{with_channel, without_channel}
use django_websocket_gateway.Hub.Invariant.Registration.{delist-SameRest}
use django_websocket_gateway.Hub.Invariant.Unregistration.{left-open}
use django_websocket_gateway.Hub.Fanout.{told, signal-told, handle_incoming-fanout}
use django_websocket_gateway.Hub.Revocation.{revoked, revoked_by, handle_incoming-revocation}
use django_websocket_gateway.Hub.Admission.{handle_register-refused}
use django_websocket_gateway.Hub.Subscribing.{
  refusal, subscribe-refused, handle_client_subscribe_lem,
}
use django_websocket_gateway.Hub.Queues.{
  Growth, SameQueues, SameQueues-Growth, Growth-refl, told-Growth, offered-Growth, Growth-if, Cause,
}

module _ {M : Type 0} (ops : ChannelManager M) where
  add_subscription-SameQueues :
      (c p : Ptr) (ch : Bytes) (h : Hub M)
      → SameQueues (h.heap p) ((add_subscription ops c ch h).heap p)
  unfolding add_subscription store
  add_subscription-SameQueues c p ch h =
      let same = join-SameElsewhere ops c ch (Map.get ch h.channels) (with_channel ops c ch h) in
      elim (Bool-cases (Set.contains ch (h.heap c).subscribed)) [
        | inl old ↦ rw (old, add_subscription) (ground arith)
        | inr new ↦ rw (new, add_subscription) (ground (arith, same))
      ]

  SameQueues-trans : {a b c : Client} → SameQueues a b → SameQueues b c → SameQueues a c
  SameQueues-trans s t = record {
    allowed = t.allowed ∙ s.allowed;
    id = t.id ∙ s.id;
    frames = t.frames ∙ s.frames;
    signals = t.signals ∙ s.signals;
  }

  admit-SameQueues : (c p : Ptr) (h : Hub M) → SameQueues (h.heap p) ((admit ops c h).heap p)
  unfolding admit enlist
  admit-SameQueues c p h =
      SameQueues-trans (add_subscription-SameQueues c p _ (enlist c h))
        (add_subscription-SameQueues c p _ (add_subscription ops c _ (enlist c h)))

  drop_channel-SameQueues :
      (c p : Ptr) (ch : Bytes) (h : Hub M)
      → SameQueues (h.heap p) ((remove_from_channel ops c ch (without_channel ops c ch h)).heap p)
  unfolding store
  drop_channel-SameQueues c p ch h =
      ground (arith, remove-SameElsewhere ops c ch (without_channel ops c ch h))

  left-heap :
      (c : Ptr) (chs : List Bytes) (h : Hub M) → (leave_all ops c chs (delist c h)).heap ≡ h.heap
  left-heap c chs h =
      (leave_all-SameElsewhere ops c chs (delist c h)).heap ∙ (delist-SameRest c h).2

-- The queue of frames is closed after the signal.
closed-Growth :
    {M : Type 0} {F : Bytes → Type 0} (c p : Ptr) (h : Hub M) (a : Client)
    → Growth F a (h.heap p)
    → Growth F a ((close_chan c h).heap p)
unfolding close_chan store
closed-Growth c p h a g = elim (Bool-cases (c == p)) [
  | inl same ↦ rw same (record {
    allowed = ground (arith, g.allowed);
    id = ground (arith, g.id);
    frames = ground (arith, g);
    signals = ground (arith, g);
  })
  | inr other ↦ rw other g
]

module _ {M : Type 0} (ops : ChannelManager M) (json : Json) (h : Hub M) (v : Inv h) where
  abbrev Grows : Event → Hub M → Type 0
  Grows e k = (p : Ptr) → Growth (Cause json e h p) (h.heap p) (k.heap p)

  handle_register-Growth : (c : Ptr) → Returns (handle_register ops json c h) (Grows (register c))
  unfolding handle_register
  handle_register-Growth c = elim (Bool-cases (is_full h || is_user_full (h.heap c).user_id h)) [
    | inl over ↦ Returns-mono (handle_register-refused ops json c h v over) λ k (e, _, _) p.
        Growth-if (c == p) _ (h.heap p) (k.heap p) (e p)
          λ _. told-Growth _ (h.heap p) (inr (inr (inr (ground arith))))
    | inr under ↦
        let room : is_full h ≡ false = ground arith in
        let user_room : is_user_full (h.heap c).user_id h ≡ false = ground arith in
        rw room (
          rw user_room
            (Returns-ok (admit ops c h) λ p. SameQueues-Growth (admit-SameQueues ops c p h)))
  ]

  handle_unregister-Growth :
      (c : Ptr) → Returns (handle_unregister ops json c h) (Grows (unregister c))
  unfolding handle_unregister dismiss
  handle_unregister-Growth c = elim (Bool-cases (Set.contains c h.clients)) [
    | inl r ↦ rw r (
        Returns-bind
          (signal-told c _ (leave_all ops c (h.heap c).subscribed (delist c h))
            (left-open ops c h v))
          λ k (e, _). Returns-ok (close_chan c k) λ p.
            let heap = ap (λ f. f p) (left-heap ops c (h.heap c).subscribed h) in
            closed-Growth c p k (h.heap p) (
              Growth-if (c == p) (told (record { code = 0; reason = [] }) (h.heap p)) (h.heap p)
                (k.heap p) (rw (← heap) (e p)) λ _. told-Growth _ (h.heap p) (inl refl)))
    | inr out ↦ rw out (Returns-ok h λ p. Growth-refl (h.heap p))
  ]

  handle_client_subscribe-Growth :
      (c : Ptr) (ch : Bytes)
      → Returns (handle_client_subscribe ops json c ch h) (Grows (subscribe c ch))
  unfolding handle_client_subscribe judge_subscribe
  handle_client_subscribe-Growth c ch = elim (Bool-cases (Set.contains c h.clients)) [
    | inl r ↦ elim (Option-cases (refusal ch (h.heap c))) [
      | inl granted ↦
          let good : (not (matches_channel_regex ch) || is_control ch) ≡ false = ground arith in
          let allowed : Set.contains ch (h.heap c).allowed_channels ≡ true = ground arith in
          rw (handle_client_subscribe_lem ops json c ch h r) (
            rw (good, allowed)
              (Returns-ok _ λ p. SameQueues-Growth (add_subscription-SameQueues ops c p ch h)))
      | inr (reason, denied) ↦
          Returns-mono (subscribe-refused ops json c ch reason h v r denied) λ k (e, _, _) p.
            Growth-if (c == p) _ (h.heap p) (k.heap p) (e p)
              λ _. offered-Growth _ (h.heap p) (ch, reason, refl)
    ]
    | inr out ↦ rw out (Returns-ok h λ p. Growth-refl (h.heap p))
  ]

  handle_client_unsubscribe-Growth :
      (c : Ptr) (ch : Bytes)
      → Returns (handle_client_unsubscribe ops json c ch h) (Grows (unsubscribe c ch))
  unfolding handle_client_unsubscribe
  handle_client_unsubscribe-Growth c ch = elim (Bool-cases (Set.contains c h.clients)) [
    | inl r ↦ rw r (elim (Bool-cases (Set.contains ch (h.heap c).subscribed)) [
      | inl old ↦
          rw old (Returns-ok _ λ p. SameQueues-Growth (drop_channel-SameQueues ops c p ch h))
      | inr new ↦ rw new (Returns-ok h λ p. Growth-refl (h.heap p))
    ])
    | inr out ↦ rw out (Returns-ok h λ p. Growth-refl (h.heap p))
  ]

  handle_incoming-Growth :
      (ch payload : Bytes)
      → Returns (handle_incoming ops json ch payload h) (Grows (incoming ch payload))
  handle_incoming-Growth ch payload = elim (Bool-cases (is_control ch)) [
    | inl control ↦
        Returns-mono (handle_incoming-revocation ops json ch payload h v control) λ k (e, _, _) p.
          Growth-if (Set.contains p (revoked_by json ch payload h)) _ (h.heap p) (k.heap p) (e p)
            λ _. told-Growth revoked (h.heap p) (inr (inl (refl, refl)))
    | inr public ↦
        Returns-mono (handle_incoming-fanout ops json ch payload h v public) λ k (e, _, _) p.
          Growth-if (Set.contains p (members ch h)) _ (h.heap p) (k.heap p) (e p)
            λ m. offered-Growth payload (h.heap p) (refl, public, m)
  ]

  pub handle-Growth :
      (e : Event)
      → Returns
          (handle ops json e h)
          λ k. (p : Ptr) → Growth (Cause json e h p) (h.heap p) (k.heap p)
  unfolding handle
  handle-Growth (register c) = handle_register-Growth c
  handle-Growth (unregister c) = handle_unregister-Growth c
  handle-Growth (subscribe c ch) = handle_client_subscribe-Growth c ch
  handle-Growth (unsubscribe c ch) = handle_client_unsubscribe-Growth c ch
  handle-Growth (incoming ch payload) = handle_incoming-Growth ch payload
