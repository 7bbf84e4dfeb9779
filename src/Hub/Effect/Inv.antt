-- ===== src/Hub/Effect/Inv.antt =====
-- The ways of changing the hub and its invariant.
use django_websocket_gateway.Common.{bytes_eq, nat_eq, true, ◌≡◌, ◌≢◌, sym}
use django_websocket_gateway.Common.Set
use django_websocket_gateway.Client.{Ptr}
use django_websocket_gateway.Manager.{ChannelManager}
use django_websocket_gateway.Hub.State.{Hub, Event, register}
use django_websocket_gateway.Hub.Invariant.{Inv, IsFresh}
use django_websocket_gateway.Hub.Invariant.Delivery.{Inv-SameRouting, IsFresh-SameRouting}
use django_websocket_gateway.Hub.Invariant.Subscription.{
  add_subscription-Inv, add_subscription-IsFresh, drop_channel-Inv, drop_channel-IsFresh,
}
use django_websocket_gateway.Hub.Invariant.Registration.{admit-Inv, admit-IsFresh}
use django_websocket_gateway.Hub.Invariant.Unregistration.{departed-Inv}
use django_websocket_gateway.Hub.Effect.{Effect, quiet, admitted, joined, parted, departed}

ne_of_registered :
    {M : Type 0} {c p : Ptr} {h : Hub M} → Set.contains c h.clients ≡ true → IsFresh p h → p ≢ c
ne_of_registered r f e = let r' = rw (sym e) at r in cc f.outside

module _ {M : Type 0} (ops : ChannelManager M) {e : Event} {h k : Hub M} (v : Inv h) where
  pub Effect-Inv : Effect ops e h k → Inv k
  Effect-Inv (quiet s) = Inv-SameRouting v s
  Effect-Inv (admitted c _ f room user_room same) = rw same (admit-Inv ops c h v f room user_room)
  Effect-Inv (joined c ch _ r _ _ same) = rw same (add_subscription-Inv ops c ch h v r)
  Effect-Inv (parted c ch _ _ _ same) = rw same (drop_channel-Inv ops c ch h v)
  Effect-Inv (departed c m _ _ s same) = rw same (departed-Inv ops c h v s).0

  pub Effect-IsFresh : Effect ops e h k → (p : Ptr) → e ≢ register p → IsFresh p h → IsFresh p k
  Effect-IsFresh (quiet s) p other f = IsFresh-SameRouting f s
  Effect-IsFresh (admitted c is _ _ _ same) p other f =
      rw same (admit-IsFresh ops c h p (λ e. other (rw e is)) f)
  Effect-IsFresh (joined c ch _ r _ _ same) p other f =
      rw same (add_subscription-IsFresh ops c ch h p (ne_of_registered r f) f)
  Effect-IsFresh (parted c ch _ r _ same) p other f =
      rw same (drop_channel-IsFresh ops c ch h p (ne_of_registered r f) f)
  Effect-IsFresh (departed c m _ r s same) p other f =
      rw same ((departed-Inv ops c h v s).1 p (ne_of_registered r f) f)
