-- ===== src/Redis/Reader.antt =====
-- What `Subscribe` and `Unsubscribe` leave alone: the callback, the read loop, and whether the subscriber
-- is closed.
use django_websocket_gateway.Common.{
  Bytes, bytes_eq, nat_eq, Option, none, some, true, ◌≡◌, refl, ◌==◌, if_true_or, ◌+◌, ◌-◌, ltb, ℕ,
}
use django_websocket_gateway.Common.Map
use django_websocket_gateway.Manager.{ManagerError}
use django_websocket_gateway.Redis.{
  PubSub, RedisSubscriber, set_count, count, after_subscribe, subscribe, after_unsubscribe, release,
  unsubscribe,
}

module _ {N D : Type 0} where
  pub record SameReader (r q : RedisSubscriber N D) : Type 0 where
    pub deliver : q.deliver ≡ r.deliver
    pub started : q.started ≡ r.started
    pub read_loops : q.read_loops ≡ r.read_loops
    pub closed : q.closed ≡ r.closed

  abbrev KeepsReader : RedisSubscriber N D → RedisSubscriber N D × Option ManagerError → Type 0
  KeepsReader r p = SameReader r p.0

  reader :
      {r q : RedisSubscriber N D}
      → q.deliver ≡ r.deliver
      → q.started ≡ r.started
      → q.read_loops ≡ r.read_loops
      → q.closed ≡ r.closed
      → SameReader r q
  reader d s l c = record { deliver = d; started = s; read_loops = l; closed = c }

module _ {N D : Type 0} (net : PubSub N) (ch : Bytes) where
  after_subscribe-SameReader :
      (r : RedisSubscriber N D) (p : N × Option Bytes) → KeepsReader r (after_subscribe net ch r p)
  after_subscribe-SameReader r (n, none) = reader refl refl refl refl
  after_subscribe-SameReader r (n, some err) = reader refl refl refl refl

  after_unsubscribe-SameReader :
      (r : RedisSubscriber N D) (p : N × Option Bytes)
      → KeepsReader r (after_unsubscribe net ch r p)
  after_unsubscribe-SameReader r (n, none) = reader refl refl refl refl
  after_unsubscribe-SameReader r (n, some err) = reader refl refl refl refl

  pub subscribe-SameReader : (r : RedisSubscriber N D) → SameReader r (subscribe net ch r).0
  unfolding subscribe
  subscribe-SameReader r =
      let counted = set_count ch (count ch r + 1) r in
      let same = after_subscribe-SameReader counted (net.subscribe ch counted.pubsub) in
      if_true_or (KeepsReader r) r.closed (λ _. reader refl refl refl refl)
        (if_true_or (KeepsReader r) (count ch counted == 1)
          (λ _. reader same.deliver same.started same.read_loops same.closed)
          (reader refl refl refl refl))

  release-SameReader : (n : ℕ) (r : RedisSubscriber N D) → KeepsReader r (release net ch n r)
  unfolding release
  release-SameReader n r =
      let rest = record r { active_chans = Map.delete ch r.active_chans } in
      let same = after_unsubscribe-SameReader rest (net.unsubscribe ch rest.pubsub) in
      if_true_or (KeepsReader r) (ltb 0 (n - 1)) (λ _. reader refl refl refl refl)
        (reader same.deliver same.started same.read_loops same.closed)

  released-SameReader :
      (o : Option ℕ) (r : RedisSubscriber N D)
      → KeepsReader r (elim o [ none ↦ (r, none) | some n ↦ release net ch n r ])
  released-SameReader none r = reader refl refl refl refl
  released-SameReader (some n) r = release-SameReader n r

  pub unsubscribe-SameReader : (r : RedisSubscriber N D) → SameReader r (unsubscribe net ch r).0
  unfolding unsubscribe
  unsubscribe-SameReader r =
      if_true_or (KeepsReader r) r.closed (λ _. reader refl refl refl refl)
        (released-SameReader (Map.get ch r.active_chans) r)

  -- A subscriber that is closed does nothing any more.
  pub subscribe-closed : (r : RedisSubscriber N D) → r.closed ≡ true → (subscribe net ch r).0 ≡ r
  unfolding subscribe
  subscribe-closed r shut = rw shut refl

  pub unsubscribe-closed :
      (r : RedisSubscriber N D) → r.closed ≡ true → (unsubscribe net ch r).0 ≡ r
  unfolding unsubscribe
  unsubscribe-closed r shut = rw shut refl
