-- ===== src/Hub/Departure.antt =====
-- The unregistration of a client.
use django_websocket_gateway.Common.{
  List, Bytes, bytes_eq, nat_eq, true, false, not, ◌≡◌, refl, ◌∙◌, ap, arith, ◌==◌, ◌&&◌, ==_refl,
  ok, Returns, Returns-ok, Returns-bind, Returns-both,
}
use django_websocket_gateway.Common.Int.{ℤ, int_eq}
use django_websocket_gateway.Common.Set
use django_websocket_gateway.Common.Map
use django_websocket_gateway.Common.Set.{contains-delete}
use django_websocket_gateway.Client.{Ptr}
use django_websocket_gateway.Manager.{ChannelManager}
use django_websocket_gateway.Json.{Json}
use django_websocket_gateway.Hub.State.{Hub, members, store, or_empty, connections}
use django_websocket_gateway.Hub.Routing.{delist, leave_all}
use django_websocket_gateway.Hub.Routing.Laws.{
  leave_all-SameElsewhere, contains-members-leave_all, contains-connections-delist,
}
use django_websocket_gateway.Hub.Delivery.{close_chan}
use django_websocket_gateway.Hub.Handlers.{handle_unregister, dismiss}
use django_websocket_gateway.Hub.Invariant.{Inv}
use django_websocket_gateway.Hub.Invariant.Delivery.{signal-SameRouting}
use django_websocket_gateway.Hub.Invariant.Registration.{delist-SameRest}
use django_websocket_gateway.Hub.Invariant.Unregistration.{left-open}
use django_websocket_gateway.Hub.Fanout.{signal-told}

module _ {M : Type 0} (ops : ChannelManager M) (json : Json) where
  left-members :
      (c p : Ptr) (ch : Bytes) (h : Hub M)
      → Inv h
      → Set.contains p (members ch (leave_all ops c (h.heap c).subscribed (delist c h)))
        ≡ (not (c == p) && Set.contains p (members ch h))
  left-members c p ch h v =
      let same : members ch (delist c h) ≡ members ch h =
        ap (λ m. or_empty (Map.get ch m)) (delist-SameRest c h).1 in
      ground (
        arith,
        contains-members-leave_all ops c p ch (h.heap c).subscribed (delist c h),
        ap (Set.contains p) same,
        v.listed p ch,
      )

  user_left :
      (c p : Ptr) (u : ℤ) (h : Hub M) {users : List (ℤ × List Ptr)}
      → Inv h
      → users ≡ (delist c h).user_clients
      → Set.contains p (or_empty (Map.get u users))
        ≡ (not (c == p) && Set.contains p (connections u h))
  user_left c p u h v e =
      ap (λ m. Set.contains p (or_empty (Map.get u m))) e
      ∙ ground (arith, contains-connections-delist c p u h, v.owned c u)

  pub unregister-stranger :
      (c : Ptr) (h : Hub M)
      → Set.contains c h.clients ≡ false
      → handle_unregister ops json c h ≡ ok h
  unfolding handle_unregister
  unregister-stranger c h out = rw out refl

  -- On a hub that meets the invariant, the unregistration of a registered client takes it, and
  -- nobody else, out of the clients, out of every channel and out of every user's connections. Its
  -- queue of frames is closed. No other client changes. A second
  -- unregistration of it changes nothing.
  pub handle_unregister-departed :
      (c : Ptr) (h : Hub M)
      → Inv h
      → Set.contains c h.clients ≡ true
      → Returns (handle_unregister ops json c h) (λ k.
        ((p : Ptr) → Set.contains p k.clients ≡ (not (c == p) && Set.contains p h.clients))
        × ((p : Ptr) (ch : Bytes)
            → Set.contains p (members ch k) ≡ (not (c == p) && Set.contains p (members ch h)))
        × ((p : Ptr) (u : ℤ)
            → Set.contains p (connections u k) ≡ (not (c == p) && Set.contains p (connections u h)))
        × ((k.heap c).send.closed ≡ true)
        × ((p : Ptr) → (c == p) ≡ false → k.heap p ≡ h.heap p)
        × (handle_unregister ops json c k ≡ ok k))
  unfolding handle_unregister dismiss close_chan store
  handle_unregister-departed c h v r =
      let left = leave_all ops c (h.heap c).subscribed (delist c h) in
      let same = leave_all-SameElsewhere ops c (h.heap c).subscribed (delist c h) in
      let (clients, _, heap, _) = delist-SameRest c h in
      let open_ = left-open ops c h v in
      rw (r, handle_unregister)
        (Returns-bind
          (Returns-both (signal-told c _ left open_) (signal-SameRouting c _ left open_))
          λ k ((e, _), s).
            let gone : (p : Ptr)
                → Set.contains p k.clients ≡ (not (c == p) && Set.contains p h.clients) =
              λ p.
                ap (Set.contains p) (s.clients ∙ same.clients ∙ clients)
                ∙ contains-delete c p h.clients in
            Returns-ok (close_chan c k) (
              gone,
              λ p ch.
                  ap (λ m. Set.contains p (or_empty (Map.get ch m))) s.channels
                  ∙ left-members c p ch h v,
              λ p u. user_left c p u h v (s.user_clients ∙ same.user_clients),
              rw (==_refl c) refl,
              λ p other. rw other (e p ∙ (rw other (ap (λ f. f p) (same.heap ∙ heap)))),
              unregister-stranger c (close_chan c k) (gone c ∙ (rw (==_refl c) refl)),
            ))
