-- ===== src/Hub/Effect/Manager.antt =====
-- What the handlers do to the manager: they call `Subscribe` and `Unsubscribe`, and nothing else.
use django_websocket_gateway.Common.{
  List, [], ◌∷◌, Bytes, bytes_eq, nat_eq, Option, inl, inr, Bool-cases, Option-cases, sym, subst,
}
use django_websocket_gateway.Common.Int.{int_eq}
use django_websocket_gateway.Common.Map
use django_websocket_gateway.Common.Set
use django_websocket_gateway.Client.{Ptr}
use django_websocket_gateway.Manager.{ChannelManager}
use django_websocket_gateway.Hub.State.{Hub, Event, store, session_channel, user_channel}
use django_websocket_gateway.Hub.Routing.{
  ask_subscribe, ask_unsubscribe, join, add_subscription, leave, remove_from_channel, leave_all,
  enlist, delist, admit,
}
use django_websocket_gateway.Hub.Delivery.{close_chan}
use django_websocket_gateway.Hub.Invariant.Delivery.{SameRouting}
use django_websocket_gateway.Hub.Invariant.Subscription.{with_channel, without_channel}
use django_websocket_gateway.Hub.Effect.{Effect, quiet, admitted, joined, parted, departed}

-- What both calls of the hub keep of the manager.
pub record Stable {M : Type 0} (ops : ChannelManager M) (P : Option M → Type 0) : Type 0 where
  pub asks : (ch : Bytes) (m : Option M) → P m → P (ask_subscribe ops ch m)
  pub gives_up : (ch : Bytes) (m : Option M) → P m → P (ask_unsubscribe ops ch m)

module _ {M : Type 0} {ops : ChannelManager M} {P : Option M → Type 0} (stable : Stable ops P) where
  open stable use {asks, gives_up}

  join-Stable :
      (c : Ptr) (ch : Bytes) (h : Hub M)
      → P h.manager
      → P (join ops c ch (Map.get ch h.channels) h).manager
  unfolding join
  join-Stable c ch h y = elim (Option-cases (Map.get ch h.channels)) [
    | inl e ↦ rw (e, join) (asks ch h.manager y)
    | inr (s, e) ↦ rw (e, join) y
  ]

  add_subscription-Stable :
      (c : Ptr) (ch : Bytes) (h : Hub M) → P h.manager → P (add_subscription ops c ch h).manager
  unfolding add_subscription store
  add_subscription-Stable c ch h y = elim (Bool-cases (Set.contains ch (h.heap c).subscribed)) [
    | inl old ↦ rw (old, add_subscription) y
    | inr new ↦ rw (new, add_subscription) (join-Stable c ch (with_channel ops c ch h) y)
  ]

  leave-Stable :
      (ch : Bytes) (rest : List Ptr) (h : Hub M) → P h.manager → P (leave ops ch rest h).manager
  unfolding leave
  leave-Stable ch [] h y = gives_up ch h.manager y
  leave-Stable ch (c ∷ rest) h y = y

  remove-Stable :
      (c : Ptr) (ch : Bytes) (h : Hub M) → P h.manager → P (remove_from_channel ops c ch h).manager
  unfolding remove_from_channel
  remove-Stable c ch h y = elim (Option-cases (Map.get ch h.channels)) [
    | inl e ↦ rw (e, remove_from_channel) y
    | inr (s, e) ↦ rw (e, remove_from_channel) (leave-Stable ch (Set.delete c s) h y)
  ]

  leave_all-Stable :
      (c : Ptr) (chs : List Bytes) (h : Hub M) → P h.manager → P (leave_all ops c chs h).manager
  unfolding leave_all
  leave_all-Stable c [] h y = y
  leave_all-Stable c (ch ∷ chs) h y =
      leave_all-Stable c chs (remove_from_channel ops c ch h) (remove-Stable c ch h y)

  delist-Stable : (c : Ptr) (h : Hub M) → P h.manager → P (delist c h).manager
  unfolding delist
  delist-Stable c h y = elim (Option-cases (Map.get (h.heap c).user_id h.user_clients)) [
    | inl e ↦ rw (e, delist) y
    | inr (s, e) ↦ rw (e, delist) y
  ]

  admit-Stable : (c : Ptr) (h : Hub M) → P h.manager → P (admit ops c h).manager
  unfolding admit enlist
  admit-Stable c h y =
      let first = session_channel (h.heap c).session_key in
      add_subscription-Stable c (user_channel (h.heap c).user_id)
        (add_subscription ops c first (enlist c h)) (add_subscription-Stable c first (enlist c h) y)

  SameRouting-Stable : {h k : Hub M} → SameRouting h k → P h.manager → P k.manager
  SameRouting-Stable s y = subst P (sym s.manager) y

  -- Whatever the event, the hub has called the manager only.
  pub Effect-Stable : {e : Event} {h k : Hub M} → Effect ops e h k → P h.manager → P k.manager
  unfolding store close_chan
  Effect-Stable (quiet s) y = SameRouting-Stable s y
  Effect-Stable {h} (admitted c _ _ _ _ same) y = rw same (admit-Stable c h y)
  Effect-Stable {h} (joined c ch _ _ _ _ same) y = rw same (add_subscription-Stable c ch h y)
  Effect-Stable {h} (parted c ch _ _ _ same) y =
      rw same (remove-Stable c ch (without_channel ops c ch h) y)
  Effect-Stable {h} (departed c m _ _ s same) y = rw same (
      SameRouting-Stable s
        (leave_all-Stable c (h.heap c).subscribed (delist c h) (delist-Stable c h y)))
