-- ===== src/Redis/Counting.antt =====
-- The counts of the subscriber, and the channels that Redis sends.
use django_websocket_gateway.Common.{
  ℕ, suc, ◌+◌, ◌-◌, ◌≡◌, refl, ap, ◌∙◌, inl, inr, arith, Bytes, bytes_eq, Option, none, some, true,
  false, ◌==◌, ltb, if◌then◌else◌, nat_eq, Bool-cases, Option-cases, list_beq_iff,
}
use django_websocket_gateway.Common.Map
use django_websocket_gateway.Common.Map.{get-put, get-delete}
use django_websocket_gateway.Redis.{
  PubSub, RedisSubscriber, count, set_count, subscribe, unsubscribe, release, after_subscribe,
  after_unsubscribe,
}

module _ {N D : Type 0} where
  pub count-set_count :
      (ch x : Bytes) (n : ℕ) (r : RedisSubscriber N D)
      → count x (set_count ch n r) ≡ (if ch == x then n else count x r)
  unfolding count
  count-set_count ch x n r = rw get-put (ground arith)

  pub count-same :
      (ch x : Bytes) (r : RedisSubscriber N D) → (ch == x) ≡ true → count ch r ≡ count x r
  count-same ch x r h = ap (λ y. count y r) ((list_beq_iff ch x).0 h)

module _ {N D : Type 0} (net : PubSub N) where
  count-after_subscribe :
      (ch x : Bytes) (r : RedisSubscriber N D) (p : N × Option Bytes)
      → count x (after_subscribe net ch r p).0
        ≡ elim p.1 [ none ↦ count x r | some e ↦ if ch == x then count x r - 1 else count x r ]
  unfolding count
  count-after_subscribe ch x r (n, none) = refl
  count-after_subscribe ch x r (n, some e) = rw get-put (ground (arith, count-same ch x r))

  -- Whether or not the SUBSCRIBE succeeds, a call on an open subscriber counts one more exactly if it
  -- returns no error, and no other count changes.
  pub count-subscribe :
      (ch x : Bytes) (r : RedisSubscriber N D)
      → r.closed ≡ false
      → count x (subscribe net ch r).0 ≡ (
          if ch == x
          then elim (subscribe net ch r).1 [ none ↦ suc (count x r) | some e ↦ count x r ]
          else count x r)
  unfolding subscribe
  count-subscribe ch x r o =
      let counted = set_count ch (count ch r + 1) r in
      elim (Bool-cases (count ch counted == 1)) [
        | inl first ↦ elim (Option-cases (net.subscribe ch r.pubsub).1) [
          | inl e ↦
              rw (o, first)
                (ground (
                  arith,
                  count-after_subscribe ch x counted (net.subscribe ch r.pubsub),
                  count-set_count ch x (count ch r + 1) r,
                  count-same ch x r,
                ))
          | inr (err, e) ↦
              rw (o, first)
                (ground (
                  arith,
                  count-after_subscribe ch x counted (net.subscribe ch r.pubsub),
                  count-set_count ch x (count ch r + 1) r,
                  count-same ch x r,
                ))
        ]
        | inr more ↦
            rw (o, more)
              (ground (arith, count-set_count ch x (count ch r + 1) r, count-same ch x r))
      ]

  count-after_unsubscribe :
      (ch x : Bytes) (r : RedisSubscriber N D) (p : N × Option Bytes)
      → count x (after_unsubscribe net ch r p).0 ≡ count x r
  unfolding count
  count-after_unsubscribe ch x r (n, none) = refl
  count-after_unsubscribe ch x r (n, some e) = refl

  count-release :
      (ch x : Bytes) (n : ℕ) (r : RedisSubscriber N D)
      → count x (release net ch n r).0 ≡ (if ch == x then n - 1 else count x r)
  unfolding release
  count-release ch x n r = elim (Bool-cases (ltb 0 (n - 1))) [
    | inl more ↦ rw more (count-set_count ch x (n - 1) r)
    | inr last ↦
        let rest = record r { active_chans = Map.delete ch r.active_chans } in
        rw last (
          count-after_unsubscribe ch x rest (net.unsubscribe ch r.pubsub)
          ∙ unfold count in rw get-delete (ground arith))
  ]

  -- A call of Unsubscribe on an open subscriber counts one less, but never below zero, also when the
  -- UNSUBSCRIBE fails, and no other count changes.
  pub count-unsubscribe :
      (ch x : Bytes) (r : RedisSubscriber N D)
      → r.closed ≡ false
      → count x (unsubscribe net ch r).0 ≡ (if ch == x then count x r - 1 else count x r)
  unfolding unsubscribe count
  count-unsubscribe ch x r o = elim (Option-cases (Map.get ch r.active_chans)) [
    | inl e ↦ rw (o, e) (ground (arith, count-same ch x r))
    | inr (n, e) ↦ rw (o, e) (rw count-release (ground (arith, count-same ch x r)))
  ]

  closed-after_subscribe :
      (ch : Bytes) (r : RedisSubscriber N D) (p : N × Option Bytes)
      → (after_subscribe net ch r p).0.closed ≡ r.closed
  closed-after_subscribe ch r (n, none) = refl
  closed-after_subscribe ch r (n, some e) = refl

  closed-after_unsubscribe :
      (ch : Bytes) (r : RedisSubscriber N D) (p : N × Option Bytes)
      → (after_unsubscribe net ch r p).0.closed ≡ r.closed
  closed-after_unsubscribe ch r (n, none) = refl
  closed-after_unsubscribe ch r (n, some e) = refl

  closed-release :
      (ch : Bytes) (n : ℕ) (r : RedisSubscriber N D) → (release net ch n r).0.closed ≡ r.closed
  unfolding release
  closed-release ch n r =
      let rest = record r { active_chans = Map.delete ch r.active_chans } in
      ground (arith, closed-after_unsubscribe ch rest (net.unsubscribe ch r.pubsub))

  pub closed-subscribe :
      (ch : Bytes) (r : RedisSubscriber N D) → (subscribe net ch r).0.closed ≡ r.closed
  unfolding subscribe
  closed-subscribe ch r =
      let counted = set_count ch (count ch r + 1) r in
      ground (arith, closed-after_subscribe ch counted (net.subscribe ch r.pubsub))

  pub closed-unsubscribe :
      (ch : Bytes) (r : RedisSubscriber N D) → (unsubscribe net ch r).0.closed ≡ r.closed
  unfolding unsubscribe
  closed-unsubscribe ch r = elim (Option-cases (Map.get ch r.active_chans)) [
    | inl e ↦ rw e (ground arith)
    | inr (n, e) ↦ rw e (ground (arith, closed-release ch n r))
  ]
