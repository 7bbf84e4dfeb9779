-- ===== src/Hub/Routing.antt =====
-- Who is in which channel: `addSubscription` and `removeFromChannel`, and the maps of a client that
-- comes or goes.
pub mod Laws
pub mod Shape
use django_websocket_gateway.Common.{
  ℕ, List, [], ◌∷◌, Bytes, bytes_eq, nat_eq, Option, none, some, if◌then◌else◌,
}
use django_websocket_gateway.Common.Int.{ℤ, int_eq}
use django_websocket_gateway.Common.Map
use django_websocket_gateway.Common.Set
use django_websocket_gateway.Client.{Ptr, Client}
use django_websocket_gateway.Manager.{ChannelManager}
use django_websocket_gateway.Hub.State.{Hub, store, session_channel, user_channel, or_empty}

-- The deletion from `userClients` in `handleUnregister`: an inner map that is left empty goes too.
unfoldable pub drop_user : ℤ → List Ptr → List (ℤ × List Ptr) → List (ℤ × List Ptr)
drop_user id [] users = Map.delete id users
drop_user id (c ∷ rest) users = Map.put id (c ∷ rest) users

module _ {M : Type 0} where
  -- `h.clients[c] = true` and `h.userClients[c.userID][c] = true`, with the inner map made if nil.
  unfoldable pub enlist : Ptr → Hub M → Hub M
  enlist c h = record h {
    clients = Set.add c h.clients;
    user_clients = Map.put id (Set.add c (or_empty (Map.get id h.user_clients))) h.user_clients;
  }
    where
      id : ℤ
      id = (h.heap c).user_id

  unfoldable pub delist : Ptr → Hub M → Hub M
  unfolding drop_user
  delist c h = elim (Map.get id h.user_clients) [
    | none ↦ record h { clients = Set.delete c h.clients }
    | some users ↦ record h {
      clients = Set.delete c h.clients;
      user_clients = drop_user id (Set.delete c users) h.user_clients;
    }
  ]
    where
      id : ℤ
      id = (h.heap c).user_id

module _ {M : Type 0} (ops : ChannelManager M) where
  -- `if h.manager != nil { h.manager.Subscribe(channel) }`: an error is logged only.
  unfoldable pub ask_subscribe : Bytes → Option M → Option M
  ask_subscribe ch none = none
  ask_subscribe ch (some m) = some (ops.subscribe ch m).0

  unfoldable pub ask_unsubscribe : Bytes → Option M → Option M
  ask_unsubscribe ch none = none
  ask_unsubscribe ch (some m) = some (ops.unsubscribe ch m).0

  -- `clients := h.channels[channel]`, made if it is nil, and then `clients[c] = true`.
  unfoldable pub join : Ptr → Bytes → Option (List Ptr) → Hub M → Hub M
  join c ch none h = record h {
    channels = Map.put ch (Set.add c []) h.channels;
    manager = ask_subscribe ch h.manager;
  }
  join c ch (some clients) h = record h { channels = Map.put ch (Set.add c clients) h.channels }

  unfoldable pub add_subscription : Ptr → Bytes → Hub M → Hub M
  unfolding join store
  add_subscription c ch h =
      if Set.contains ch (h.heap c).subscribed
      then h
      else join c ch (Map.get ch h.channels)
          (store c (record (h.heap c) { subscribed = Set.add ch (h.heap c).subscribed }) h)

  -- What is left of the channel's clients is put back, unless nothing is left.
  unfoldable pub leave : Bytes → List Ptr → Hub M → Hub M
  leave ch [] h = record h {
    channels = Map.delete ch h.channels;
    manager = ask_unsubscribe ch h.manager;
  }
  leave ch (c ∷ rest) h = record h { channels = Map.put ch (c ∷ rest) h.channels }

  unfoldable pub remove_from_channel : Ptr → Bytes → Hub M → Hub M
  unfolding leave
  remove_from_channel c ch h = elim (Map.get ch h.channels) [
    | none ↦ h
    | some clients ↦ leave ch (Set.delete c clients) h
  ]

  -- `for ch := range c.subscribed { h.removeFromChannel(c, ch) }`
  unfoldable pub leave_all : Ptr → List Bytes → Hub M → Hub M
  unfolding remove_from_channel
  leave_all c [] h = h
  leave_all c (ch ∷ chs) h = leave_all c chs (remove_from_channel c ch h)

  -- `handleRegister` past its guards.
  unfoldable pub admit : Ptr → Hub M → Hub M
  unfolding enlist add_subscription
  admit c h =
      add_subscription c (user_channel (h.heap c).user_id)
        (add_subscription c (session_channel (h.heap c).session_key) (enlist c h))
