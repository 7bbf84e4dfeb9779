-- ===== src/Hub/Invariant/Subscription.antt =====
-- `addSubscription`, `removeFromChannel` and the two client requests.
use django_websocket_gateway.Common.{
  Bytes, bytes_eq, nat_eq, true, ◌≡◌, ◌≢◌, inl, inr, arith, Bool-cases,
}
use django_websocket_gateway.Common.Int.{int_eq}
use django_websocket_gateway.Common.Map
use django_websocket_gateway.Common.Set
use django_websocket_gateway.Common.Set.{contains-add, contains-delete}
use django_websocket_gateway.Client.{Ptr}
use django_websocket_gateway.Manager.{ChannelManager}
use django_websocket_gateway.Hub.State.{Hub, store}
use django_websocket_gateway.Hub.Routing.{join, add_subscription, remove_from_channel}
use django_websocket_gateway.Hub.Routing.Laws.{
  join-SameElsewhere, remove-SameElsewhere, contains-members-join, contains-members-remove,
}
use django_websocket_gateway.Hub.Routing.Shape.{
  occupied-join, occupied-remove, join-IsNodup, remove-IsNodup,
}
use django_websocket_gateway.Hub.Invariant.{Inv, IsFresh}

module _ {M : Type 0} (ops : ChannelManager M) (c : Ptr) (ch : Bytes) (h : Hub M) where
  -- The client with one more subscription, or with one less.
  abbrev pub with_channel : Hub M
  with_channel = store c (record (h.heap c) { subscribed = Set.add ch (h.heap c).subscribed }) h

  abbrev pub without_channel : Hub M
  without_channel =
      store c (record (h.heap c) { subscribed = Set.delete ch (h.heap c).subscribed }) h

  join-Inv :
      Inv h
      → Set.contains c h.clients ≡ true
      → Inv (join ops c ch (Map.get ch h.channels) with_channel)
  unfolding store
  join-Inv v r =
      let same = join-SameElsewhere ops c ch (Map.get ch h.channels) with_channel in
      record {
        listed = λ d x. ground (
          arith,
          same,
          contains-members-join ops c d ch x with_channel,
          contains-add ch x (h.heap c).subscribed,
          v.listed d x,
        );
        owned = λ d u. ground (arith, same, v.owned d u);
        open_send = λ d m. ground (arith, same, v.open_send d);
        open_disconnect = λ d. ground (arith, same, v.open_disconnect d, v.open_disconnect c);
        nodup_clients = rw same.clients v.nodup_clients;
        nodup_members = λ x. join-IsNodup ops c ch x (with_channel) v.nodup_members;
        nodup_users = λ u. rw same.user_clients (v.nodup_users u);
        occupied =
            λ x. occupied-join ops c ch x (Map.get ch h.channels) with_channel (v.occupied x);
        within_total = rw (same.clients, same.cfg) v.within_total;
        within_user = λ u. rw (same.user_clients, same.cfg) (v.within_user u);
      }

  pub add_subscription-Inv :
      Inv h → Set.contains c h.clients ≡ true → Inv (add_subscription ops c ch h)
  unfolding add_subscription
  add_subscription-Inv v r = elim (Bool-cases (Set.contains ch (h.heap c).subscribed)) [
    | inl old ↦ rw (old, add_subscription) v
    | inr new ↦ rw (new, add_subscription) (join-Inv v r)
  ]

  -- `handleClientUnsubscribe` past its guards.
  pub drop_channel-Inv : Inv h → Inv (remove_from_channel ops c ch without_channel)
  unfolding store
  drop_channel-Inv v =
      let same = remove-SameElsewhere ops c ch without_channel in
      record {
        listed = λ d x. ground (
          arith,
          same,
          contains-members-remove ops c d ch x without_channel,
          contains-delete ch x (h.heap c).subscribed,
          v.listed d x,
        );
        owned = λ d u. ground (arith, same, v.owned d u);
        open_send = λ d m. ground (arith, same, v.open_send d);
        open_disconnect = λ d. ground (arith, same, v.open_disconnect d, v.open_disconnect c);
        nodup_clients = rw same.clients v.nodup_clients;
        nodup_members = λ x. remove-IsNodup ops c ch x (without_channel) v.nodup_members;
        nodup_users = λ u. rw same.user_clients (v.nodup_users u);
        occupied = λ x. occupied-remove ops c ch x without_channel (v.occupied x);
        within_total = rw (same.clients, same.cfg) v.within_total;
        within_user = λ u. rw (same.user_clients, same.cfg) (v.within_user u);
      }

  -- A client that is not registered is not touched.
  pub add_subscription-IsFresh :
      (p : Ptr) → p ≢ c → IsFresh p h → IsFresh p (add_subscription ops c ch h)
  unfolding add_subscription store
  add_subscription-IsFresh p other f =
      let same = join-SameElsewhere ops c ch (Map.get ch h.channels) with_channel in
      elim (Bool-cases (Set.contains ch (h.heap c).subscribed)) [
        | inl old ↦ rw (old, add_subscription) f
        | inr new ↦ rw (new, add_subscription) (ground (arith, same))
      ]

  pub drop_channel-IsFresh :
      (p : Ptr) → p ≢ c → IsFresh p h → IsFresh p (remove_from_channel ops c ch without_channel)
  unfolding store
  drop_channel-IsFresh p other f =
      let same = remove-SameElsewhere ops c ch without_channel in ground (arith, same)

  pub clients-add_subscription : (add_subscription ops c ch h).clients ≡ h.clients
  unfolding add_subscription store
  clients-add_subscription =
      let same = join-SameElsewhere ops c ch (Map.get ch h.channels) with_channel in
      ground (arith, same)
