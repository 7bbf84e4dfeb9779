-- ===== src/Hub/Effect.antt =====
-- The five ways in which an event may change who is registered and
-- who is in which channel.
pub mod Inv
pub mod Access
pub mod Sync
pub mod Manager
use django_websocket_gateway.Common.{Bytes, bytes_eq, nat_eq, Bool, true, false, ◌≡◌, ok}
use django_websocket_gateway.Common.Set
use django_websocket_gateway.Client.{Ptr}
use django_websocket_gateway.Manager.{ChannelManager}
use django_websocket_gateway.Hub.State.{
  Hub, Event, register, unregister, subscribe, unsubscribe, store,
}
use django_websocket_gateway.Hub.Routing.{
  admit, add_subscription, remove_from_channel, leave_all, delist,
}
use django_websocket_gateway.Hub.Delivery.{close_chan}
use django_websocket_gateway.Hub.Handlers.{is_full, is_user_full, is_invalid_channel}
use django_websocket_gateway.Hub.Invariant.{IsFresh}
use django_websocket_gateway.Hub.Invariant.Delivery.{SameRouting}
use django_websocket_gateway.Hub.Invariant.Subscription.{without_channel}

pub data Effect {M : Type 0} (ops : ChannelManager M) (e : Event) (h k : Hub M) : Type 0 where
  -- Only buffers of clients have changed.
  quiet : SameRouting h k → Effect ops e h k
  -- A new client within both limits is in, and in its two control channels.
  admitted :
      (c : Ptr)
      → e ≡ register c
      → IsFresh c h
      → is_full h ≡ false
      → is_user_full (h.heap c).user_id h ≡ false
      → k ≡ admit ops c h
      → Effect ops e h k
  -- A registered client joins a valid channel that it is allowed.
  joined :
      (c : Ptr) (ch : Bytes)
      → e ≡ subscribe c ch
      → Set.contains c h.clients ≡ true
      → is_invalid_channel ch ≡ ok false
      → Set.contains ch (h.heap c).allowed_channels ≡ true
      → k ≡ add_subscription ops c ch h
      → Effect ops e h k
  -- A registered client leaves a channel that it is in.
  parted :
      (c : Ptr) (ch : Bytes)
      → e ≡ unsubscribe c ch
      → Set.contains c h.clients ≡ true
      → Set.contains ch (h.heap c).subscribed ≡ true
      → k ≡ remove_from_channel ops c ch (without_channel ops c ch h)
      → Effect ops e h k
  -- A registered client leaves all its channels and the hub, and its channel is closed.
  departed :
      (c : Ptr) (m : Hub M)
      → e ≡ unregister c
      → Set.contains c h.clients ≡ true
      → SameRouting (leave_all ops c (h.heap c).subscribed (delist c h)) m
      → k ≡ close_chan c m
      → Effect ops e h k
