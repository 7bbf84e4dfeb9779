-- ===== src/Hub/Effect/Sync.antt =====
-- The channels that the manager was asked for.
use django_websocket_gateway.Common.{
  ℕ, List, [], ◌∷◌, Bytes, bytes_eq, nat_eq, Option, none, some, ◌≡◌, arith, inl, inr, Bool-cases,
  Option-cases,
}
use django_websocket_gateway.Common.Int.{int_eq}
use django_websocket_gateway.Common.Map
use django_websocket_gateway.Common.Map.{get-put, get-delete}
use django_websocket_gateway.Common.Set
use django_websocket_gateway.Client.{Ptr}
use django_websocket_gateway.Manager.{ChannelManager, Counts}
use django_websocket_gateway.Hub.State.{Hub, Event, store, session_channel, user_channel}
use django_websocket_gateway.Hub.Routing.{
  ask_subscribe, ask_unsubscribe, join, add_subscription, leave, remove_from_channel, leave_all,
  enlist, delist, admit,
}
use django_websocket_gateway.Hub.Routing.Laws.{get-same}
use django_websocket_gateway.Hub.Delivery.{close_chan}
use django_websocket_gateway.Hub.Invariant.Delivery.{SameRouting}
use django_websocket_gateway.Hub.Invariant.Subscription.{with_channel, without_channel}
use django_websocket_gateway.Hub.Effect.{Effect, quiet, admitted, joined, parted, departed}

abbrev pub present {ℓ} : {A : Type ℓ} → Option A → ℕ
present none = 0
present (some s) = 1

module _ {M : Type 0} {ops : ChannelManager M} (law : Counts ops) where
  open law use {IsReady, count}

  -- The manager, if there is one, is ready, and counts one for each channel with an entry.
  abbrev pub SyncedWith : Option M → List (Bytes × List Ptr) → Type 0
  SyncedWith none chs = Unit
  SyncedWith (some m) chs = IsReady m × ((x : Bytes) → count x m ≡ present (Map.get x chs))

  abbrev pub Synced : Hub M → Type 0
  Synced h = SyncedWith h.manager h.channels

  ask_subscribe-Synced :
      (ch : Bytes) (s : List Ptr) (m : Option M) (chs : List (Bytes × List Ptr))
      → Map.get ch chs ≡ none
      → SyncedWith m chs
      → SyncedWith (ask_subscribe ops ch m) (Map.put ch s chs)
  unfolding ask_subscribe
  ask_subscribe-Synced ch s none chs e y = tt
  ask_subscribe-Synced ch s (some m) chs e (o, y) = (
    law.subscribe-IsReady ch m o,
    λ x. rw get-put (ground (arith, law.count-subscribe ch x m o, y x, get-same ch x chs)),
  )

  ask_unsubscribe-Synced :
      (ch : Bytes) (s : List Ptr) (m : Option M) (chs : List (Bytes × List Ptr))
      → Map.get ch chs ≡ some s
      → SyncedWith m chs
      → SyncedWith (ask_unsubscribe ops ch m) (Map.delete ch chs)
  unfolding ask_unsubscribe
  ask_unsubscribe-Synced ch s none chs e y = tt
  ask_unsubscribe-Synced ch s (some m) chs e (o, y) = (
    law.unsubscribe-IsReady ch m o,
    λ x. rw get-delete (ground (arith, law.count-unsubscribe ch x m o, y x, get-same ch x chs)),
  )

  put-Synced :
      (ch : Bytes) (s t : List Ptr) (m : Option M) (chs : List (Bytes × List Ptr))
      → Map.get ch chs ≡ some s
      → SyncedWith m chs
      → SyncedWith m (Map.put ch t chs)
  put-Synced ch s t none chs e y = tt
  put-Synced ch s t (some m) chs e (o, y) =
      (o, λ x. rw get-put (ground (arith, y x, get-same ch x chs)))

  join-Synced :
      (c : Ptr) (ch : Bytes) (h : Hub M)
      → Synced h
      → Synced (join ops c ch (Map.get ch h.channels) h)
  unfolding join
  join-Synced c ch h y = elim (Option-cases (Map.get ch h.channels)) [
    | inl e ↦ rw (e, join) (ask_subscribe-Synced ch _ h.manager h.channels e y)
    | inr (s, e) ↦ rw (e, join) (put-Synced ch s _ h.manager h.channels e y)
  ]

  add_subscription-Synced :
      (c : Ptr) (ch : Bytes) (h : Hub M) → Synced h → Synced (add_subscription ops c ch h)
  unfolding add_subscription store
  add_subscription-Synced c ch h y = elim (Bool-cases (Set.contains ch (h.heap c).subscribed)) [
    | inl old ↦ rw (old, add_subscription) y
    | inr new ↦ rw (new, add_subscription) (join-Synced c ch (with_channel ops c ch h) y)
  ]

  leave-Synced :
      (ch : Bytes) (s rest : List Ptr) (h : Hub M)
      → Map.get ch h.channels ≡ some s
      → Synced h
      → Synced (leave ops ch rest h)
  unfolding leave
  leave-Synced ch s [] h e y = ask_unsubscribe-Synced ch s h.manager h.channels e y
  leave-Synced ch s (c ∷ rest) h e y = put-Synced ch s (c ∷ rest) h.manager h.channels e y

  remove-Synced :
      (c : Ptr) (ch : Bytes) (h : Hub M) → Synced h → Synced (remove_from_channel ops c ch h)
  unfolding remove_from_channel
  remove-Synced c ch h y = elim (Option-cases (Map.get ch h.channels)) [
    | inl e ↦ rw (e, remove_from_channel) y
    | inr (s, e) ↦ rw (e, remove_from_channel) (leave-Synced ch s (Set.delete c s) h e y)
  ]

  leave_all-Synced :
      (c : Ptr) (chs : List Bytes) (h : Hub M) → Synced h → Synced (leave_all ops c chs h)
  unfolding leave_all
  leave_all-Synced c [] h y = y
  leave_all-Synced c (ch ∷ chs) h y =
      leave_all-Synced c chs (remove_from_channel ops c ch h) (remove-Synced c ch h y)

  delist-Synced : (c : Ptr) (h : Hub M) → Synced h → Synced (delist c h)
  unfolding delist
  delist-Synced c h y = elim (Option-cases (Map.get (h.heap c).user_id h.user_clients)) [
    | inl e ↦ rw (e, delist) y
    | inr (s, e) ↦ rw (e, delist) y
  ]

  admit-Synced : (c : Ptr) (h : Hub M) → Synced h → Synced (admit ops c h)
  unfolding admit enlist
  admit-Synced c h y =
      let first = session_channel (h.heap c).session_key in
      add_subscription-Synced c (user_channel (h.heap c).user_id)
        (add_subscription ops c first (enlist c h)) (add_subscription-Synced c first (enlist c h) y)

  SameRouting-Synced : {h k : Hub M} → SameRouting h k → Synced h → Synced k
  SameRouting-Synced s y = rw (s.manager, s.channels) y

  -- Each way of changing the hub keeps manager and channels in step.
  pub Effect-Synced : {e : Event} {h k : Hub M} → Effect ops e h k → Synced h → Synced k
  unfolding store close_chan
  Effect-Synced (quiet s) y = SameRouting-Synced s y
  Effect-Synced {h} (admitted c _ _ _ _ same) y = rw same (admit-Synced c h y)
  Effect-Synced {h} (joined c ch _ _ _ _ same) y = rw same (add_subscription-Synced c ch h y)
  Effect-Synced {h} (parted c ch _ _ _ same) y =
      rw same (remove-Synced c ch (without_channel ops c ch h) y)
  Effect-Synced {h} (departed c m _ _ s same) y = rw same (
      SameRouting-Synced s
        (leave_all-Synced c (h.heap c).subscribed (delist c h) (delist-Synced c h y)))
