-- ===== src/Redis.antt =====
-- gateway/redis.go: `RedisSubscriber`, which counts the subscribers of each channel. The client and
-- the pub/sub session of the Redis library are a parameter.
pub mod Counting
pub mod Wire
pub mod Reader
use django_websocket_gateway.Common.{
  ℕ, suc, ◌+◌, ◌-◌, List, [], ◌∷◌, Bytes, bytes_eq, Option, none, some, Bool, true, false, ◌==◌,
  ltb, if◌then◌else◌, nat_eq,
}
use django_websocket_gateway.Common.Map
use django_websocket_gateway.Manager.{
  ChannelManager, ManagerError, subscriber_closed, subscribe_failed, unsubscribe_failed,
}

-- The pub/sub session in the state `N`: SUBSCRIBE, UNSUBSCRIBE and PING, with the error of each, the
-- two calls of `Close`, and `client.Subscribe(ctx)` of the client that a URL names.
pub record PubSub (N : Type 0) : Type 0 where
  pub connect : Bytes → Option N
  pub subscribe : Bytes → N → N × Option Bytes
  pub unsubscribe : Bytes → N → N × Option Bytes
  pub ping : N → Option Bytes
  pub close_pubsub : N → N
  pub close_client : N → N × Option Bytes

-- `D` is the type of the `deliver` callback. The number of read loops that `Start` has spawned
-- stands for these goroutines.
pub record RedisSubscriber (N D : Type 0) : Type 0 where
  pub pubsub : N
  pub deliver : Option D
  pub active_chans : List (Bytes × ℕ)
  pub closed : Bool
  pub started : Bool
  pub read_loops : ℕ

abbrev pub or_zero : Option ℕ → ℕ
or_zero none = 0
or_zero (some n) = n

module _ {N D : Type 0} where
  -- `r.activeChans[channel]`
  unfoldable pub count : Bytes → RedisSubscriber N D → ℕ
  count ch r = or_zero (Map.get ch r.active_chans)

  abbrev pub set_count : Bytes → ℕ → RedisSubscriber N D → RedisSubscriber N D
  set_count ch n r = record r { active_chans = Map.put ch n r.active_chans }

  unfoldable pub set_deliver : D → RedisSubscriber N D → RedisSubscriber N D
  set_deliver deliver r = record r { deliver = some deliver }

  unfoldable pub start : RedisSubscriber N D → RedisSubscriber N D
  start r = if r.started then r else record r { started = true; read_loops = suc r.read_loops }

module _ {N D : Type 0} (net : PubSub N) where
  -- The constructor; `none` is the error of `redis.ParseURL`.
  unfoldable pub new_redis_subscriber : Bytes → Option D → Option (RedisSubscriber N D)
  unfolding start
  new_redis_subscriber url deliver = elim (net.connect url) [
    | none ↦ none
    | some pubsub ↦
        let r : RedisSubscriber N D = record {
          pubsub = pubsub;
          deliver = deliver;
          active_chans = [];
          closed = false;
          started = false;
          read_loops = 0;
        } in
        elim deliver [ none ↦ some r | some _ ↦ some (start r) ]
  ]

  -- What follows `r.pubsub.Subscribe(ctx, channel)`: the count is taken back on an error.
  abbrev pub after_subscribe :
      Bytes → RedisSubscriber N D → N × Option Bytes → RedisSubscriber N D × Option ManagerError
  after_subscribe ch r (pubsub, none) = (record r { pubsub = pubsub }, none)
  after_subscribe ch r (pubsub, some err) =
      (set_count ch (count ch r - 1) (record r { pubsub = pubsub }), some (subscribe_failed ch err))

  unfoldable pub subscribe : Bytes → RedisSubscriber N D → RedisSubscriber N D × Option ManagerError
  unfolding count
  subscribe ch r =
      if r.closed
      then (r, some subscriber_closed)
      else let counted = set_count ch (count ch r + 1) r in
        if count ch counted == 1
        then after_subscribe ch counted (net.subscribe ch counted.pubsub)
        else (counted, none)

  abbrev pub after_unsubscribe :
      Bytes → RedisSubscriber N D → N × Option Bytes → RedisSubscriber N D × Option ManagerError
  after_unsubscribe ch r (pubsub, none) = (record r { pubsub = pubsub }, none)
  after_unsubscribe ch r (pubsub, some err) =
      (record r { pubsub = pubsub }, some (unsubscribe_failed ch err))

  -- The count of a channel that is there. A count of zero is left by a SUBSCRIBE that failed; the
  -- source takes it to -1, here it stays 0, and either is not above zero and is deleted.
  unfoldable pub release :
      Bytes → ℕ → RedisSubscriber N D → RedisSubscriber N D × Option ManagerError
  release ch n r =
      if ltb 0 (n - 1)
      then (set_count ch (n - 1) r, none)
      else let rest = record r { active_chans = Map.delete ch r.active_chans } in
        after_unsubscribe ch rest (net.unsubscribe ch rest.pubsub)

  unfoldable pub unsubscribe :
      Bytes → RedisSubscriber N D → RedisSubscriber N D × Option ManagerError
  unfolding release
  unsubscribe ch r =
      if r.closed
      then (r, none)
      else elim (Map.get ch r.active_chans) [ none ↦ (r, none) | some n ↦ release ch n r ]

  unfoldable pub ping : RedisSubscriber N D → Option Bytes
  ping r = net.ping r.pubsub

  unfoldable pub close : RedisSubscriber N D → RedisSubscriber N D × Option Bytes
  close r =
      if r.closed
      then (r, none)
      else let (pubsub, err) = net.close_client (net.close_pubsub r.pubsub) in
        (record r { closed = true; pubsub = pubsub }, err)

  -- The subscriber as the hub sees it.
  unfoldable pub manager : ChannelManager (RedisSubscriber N D)
  unfolding subscribe unsubscribe
  manager = record { subscribe = subscribe; unsubscribe = unsubscribe }

-- One round of `readLoop`: what is called with the message, if anything is.
unfoldable pub read_message :
    {N R : Type 0} → Bytes → Bytes → RedisSubscriber N (Bytes → Bytes → R) → Option R
read_message ch payload r = elim r.deliver [ none ↦ none | some f ↦ some (f ch payload) ]
