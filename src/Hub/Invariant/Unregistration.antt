-- ===== src/Hub/Invariant/Unregistration.antt =====
-- A client that is unregistered, and the invariant.
use django_websocket_gateway.Common.{bytes_eq, nat_eq, false, ◌≡◌, ◌≢◌, arith, length, ==_refl}
use django_websocket_gateway.Common.Int.{int_eq}
use django_websocket_gateway.Common.Set
use django_websocket_gateway.Common.Set.{
  IsNodup, contains-add, contains-delete, add-IsNodup, delete-IsNodup, length-add-le,
  length-delete-le,
}
use django_websocket_gateway.Client.{Ptr, Client}
use django_websocket_gateway.Manager.{ChannelManager}
use django_websocket_gateway.Hub.State.{Hub, store}
use django_websocket_gateway.Hub.Routing.{delist, leave_all}
use django_websocket_gateway.Hub.Routing.Laws.{
  leave_all-SameElsewhere, contains-members-leave_all, contains-connections-delist,
}
use django_websocket_gateway.Hub.Routing.Shape.{occupied-leave_all, leave_all-IsNodup}
use django_websocket_gateway.Hub.Delivery.{close_chan}
use django_websocket_gateway.Hub.Invariant.{Inv, IsFresh}
use django_websocket_gateway.Hub.Invariant.Delivery.{
  SameRouting, Inv-SameRouting, IsFresh-SameRouting,
}
use django_websocket_gateway.Hub.Invariant.Registration.{
  Within-shrink, delist-SameRest, delist-users,
}

module _ {M : Type 0} (ops : ChannelManager M) (c : Ptr) (h : Hub M) where
  -- `handleUnregister` up to the disconnect signal.
  left : Hub M
  left = leave_all ops c (h.heap c).subscribed (delist c h)

  left-Inv : Inv h → Inv left
  unfolding left
  left-Inv v =
      let rest = delist-SameRest c h in
      let same = leave_all-SameElsewhere ops c (h.heap c).subscribed (delist c h) in
      record {
        listed = λ d x. ground (
          arith,
          rest,
          same,
          contains-members-leave_all ops c d x (h.heap c).subscribed (delist c h),
          contains-delete c d h.clients,
          v.listed d x,
        );
        owned = λ d u. ground (
          arith,
          rest,
          same,
          contains-connections-delist c d u h,
          contains-delete c d h.clients,
          v.owned d u,
        );
        open_send = λ d m. ground (arith, rest, same, contains-delete c d h.clients, v.open_send d);
        open_disconnect = λ d. ground (arith, rest, same, v.open_disconnect d);
        nodup_clients = rw (same.clients, rest.0) (delete-IsNodup c h.clients v.nodup_clients);
        nodup_members =
            leave_all-IsNodup ops c (h.heap c).subscribed (delist c h)
              (λ y. rw rest.1 (v.nodup_members y));
        nodup_users = λ u. rw same.user_clients (delist-users c h v u).0;
        occupied = λ x. occupied-leave_all ops c x _ (delist c h) (rw rest.1 (v.occupied x));
        within_total =
            simp (same.cfg, rest.3, same.clients, rest.0)
              (Within-shrink h.cfg.max_connections_total _ (length h.clients)
                (length-delete-le c h.clients) v.within_total);
        within_user = λ u. simp (same.cfg, rest.3, same.user_clients) (delist-users c h v u).1;
      }

  left-IsFresh : (p : Ptr) → p ≢ c → IsFresh p h → IsFresh p left
  unfolding left
  left-IsFresh p other f =
      let rest = delist-SameRest c h in
      let same = leave_all-SameElsewhere ops c (h.heap c).subscribed (delist c h) in
      ground (arith, rest, same, contains-delete c p h.clients)

  left-outside : Set.contains c left.clients ≡ false
  unfolding left
  left-outside =
      let rest = delist-SameRest c h in
      let same = leave_all-SameElsewhere ops c (h.heap c).subscribed (delist c h) in
      ground (arith, rest, same, contains-delete c c h.clients, ==_refl c)

-- The hub does not look at a client that is not registered.
pub store-outside-Inv :
    {M : Type 0} (c : Ptr) (new : Client) (h : Hub M)
    → Inv h
    → Set.contains c h.clients ≡ false
    → new.disconnect.closed ≡ false
    → Inv (store c new h)
unfolding store
store-outside-Inv c new h v out o = record {
  listed = λ d x. ground (arith, v.listed d x);
  owned = λ d u. ground (arith, v.owned d u);
  open_send = λ d m. ground (arith, v.open_send d);
  open_disconnect = λ d. ground (arith, v.open_disconnect d);
  nodup_clients = v.nodup_clients;
  nodup_members = v.nodup_members;
  nodup_users = v.nodup_users;
  occupied = v.occupied;
  within_total = v.within_total;
  within_user = v.within_user;
}

-- So the channel of a client that has left may be closed.
close_chan-Inv :
    {M : Type 0} (c : Ptr) (h : Hub M)
    → Inv h
    → Set.contains c h.clients ≡ false
    → Inv (close_chan c h)
unfolding close_chan
close_chan-Inv c h v out = store-outside-Inv c _ h v out (v.open_disconnect c)

close_chan-IsFresh :
    {M : Type 0} (c p : Ptr) (h : Hub M) → p ≢ c → IsFresh p h → IsFresh p (close_chan c h)
unfolding close_chan store
close_chan-IsFresh c p h other f = ground arith

module _ {M : Type 0} (ops : ChannelManager M) (c : Ptr) (h : Hub M) (v : Inv h) where
  pub left-open :
      ((leave_all ops c (h.heap c).subscribed (delist c h)).heap c).disconnect.closed ≡ false
  unfolding left
  left-open = let v' = left-Inv ops c h v in v'.open_disconnect c

  -- A client leaves for good, and the other clients are left alone.
  pub departed-Inv :
      {m : Hub M}
      → SameRouting (leave_all ops c (h.heap c).subscribed (delist c h)) m
      → Inv (close_chan c m) × ((p : Ptr) → p ≢ c → IsFresh p h → IsFresh p (close_chan c m))
  unfolding left
  departed-Inv {m} s = (
    close_chan-Inv c m (Inv-SameRouting (left-Inv ops c h v) s)
        (rw s.clients (left-outside ops c h)),
    λ p other f.
        close_chan-IsFresh c p m other (IsFresh-SameRouting (left-IsFresh ops c h p other f) s),
  )
