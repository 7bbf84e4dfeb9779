-- ===== src/Redis/Wire.antt =====
-- What the subscriber has asked of Redis, over a session that does not fail.
use django_websocket_gateway.Common.{
  ℕ, suc, ◌+◌, ◌-◌, ◌≡◌, refl, ap, ◌∙◌, inl, inr, arith, List, [], ◌∷◌, Bytes, bytes_eq, Option,
  none, some, Bool, false, not, ◌&&◌, ◌||◌, ◌==◌, ltb, if◌then◌else◌, nat_eq, Option-cases, ==_refl,
}
use django_websocket_gateway.Common.Map
use django_websocket_gateway.Manager.{Counts}
use django_websocket_gateway.Redis.{
  PubSub, RedisSubscriber, count, or_zero, set_count, subscribe, unsubscribe, release, manager,
  after_subscribe, after_unsubscribe, new_redis_subscriber,
}
use django_websocket_gateway.Redis.Counting.{
  count-set_count, count-same, count-subscribe, count-unsubscribe, closed-subscribe,
  closed-unsubscribe,
}

-- The documented effect of the two commands on the channels that the session receives, where no
-- command fails and a new session receives none.
pub record Reliable {N : Type 0} (net : PubSub N) : Type 0 where
  pub on_wire : Bytes → N → Bool
  pub subscribe_ok : (ch : Bytes) (n : N) → (net.subscribe ch n).1 ≡ none
  pub unsubscribe_ok : (ch : Bytes) (n : N) → (net.unsubscribe ch n).1 ≡ none
  pub on_wire-subscribe :
      (ch x : Bytes) (n : N) → on_wire x (net.subscribe ch n).0 ≡ (ch == x || on_wire x n)
  pub on_wire-unsubscribe :
      (ch x : Bytes) (n : N) → on_wire x (net.unsubscribe ch n).0 ≡ (not (ch == x) && on_wire x n)
  pub on_wire-connect : (url x : Bytes) (n : N) → net.connect url ≡ some n → on_wire x n ≡ false

pub data Request : Type 0 where
  subscribes unsubscribes : Bytes → Request

-- The subscribers that a history of requests leaves on a channel.
pub tally : Bytes → ℕ → List Request → ℕ
tally x n [] = n
tally x n (subscribes ch ∷ rs) = tally x (if ch == x then suc n else n) rs
tally x n (unsubscribes ch ∷ rs) = tally x (if ch == x then n - 1 else n) rs

module _ {N D : Type 0} (net : PubSub N) where
  pub serve : List Request → RedisSubscriber N D → RedisSubscriber N D
  serve [] r = r
  serve (subscribes ch ∷ rs) r = serve rs (subscribe net ch r).0
  serve (unsubscribes ch ∷ rs) r = serve rs (unsubscribe net ch r).0

  pubsub-after_subscribe :
      (ch : Bytes) (r : RedisSubscriber N D) (p : N × Option Bytes)
      → (after_subscribe net ch r p).0.pubsub ≡ p.0
  pubsub-after_subscribe ch r (n, none) = refl
  pubsub-after_subscribe ch r (n, some e) = refl

  pubsub-after_unsubscribe :
      (ch : Bytes) (r : RedisSubscriber N D) (p : N × Option Bytes)
      → (after_unsubscribe net ch r p).0.pubsub ≡ p.0
  pubsub-after_unsubscribe ch r (n, none) = refl
  pubsub-after_unsubscribe ch r (n, some e) = refl

  -- SUBSCRIBE is sent on the first subscriber only.
  pub pubsub-subscribe :
      (ch : Bytes) (r : RedisSubscriber N D)
      → r.closed ≡ false
      → (subscribe net ch r).0.pubsub
        ≡ (if count ch r == 0 then (net.subscribe ch r.pubsub).0 else r.pubsub)
  unfolding subscribe
  pubsub-subscribe ch r o =
      let counted = set_count ch (count ch r + 1) r in
      ground (
        arith,
        pubsub-after_subscribe ch counted (net.subscribe ch r.pubsub),
        count-set_count ch ch (count ch r + 1) r,
        ==_refl ch,
      )

  pubsub-release :
      (ch : Bytes) (n : ℕ) (r : RedisSubscriber N D)
      → (release net ch n r).0.pubsub
        ≡ (if ltb 0 (n - 1) then r.pubsub else (net.unsubscribe ch r.pubsub).0)
  unfolding release
  pubsub-release ch n r =
      let rest = record r { active_chans = Map.delete ch r.active_chans } in
      ground (arith, pubsub-after_unsubscribe ch rest (net.unsubscribe ch r.pubsub))

  module _ (law : Reliable net) where
    open law use {on_wire}

    subscribe-ok :
        (ch : Bytes) (r : RedisSubscriber N D) → r.closed ≡ false → (subscribe net ch r).1 ≡ none
    unfolding subscribe
    subscribe-ok ch r o = ground (arith, law.subscribe_ok ch r.pubsub)

    pub count-subscribe_ok :
        (ch x : Bytes) (r : RedisSubscriber N D)
        → r.closed ≡ false
        → count x (subscribe net ch r).0 ≡ (if ch == x then suc (count x r) else count x r)
    count-subscribe_ok ch x r o = count-subscribe net ch x r o ∙ (rw (subscribe-ok ch r o) refl)

    -- Redis sends exactly the channels with a subscriber.
    abbrev pub IsTracked : RedisSubscriber N D → Type 0
    IsTracked r = (x : Bytes) → on_wire x r.pubsub ≡ ltb 0 (count x r)

    pub subscribe-IsTracked :
        (ch : Bytes) (r : RedisSubscriber N D)
        → r.closed ≡ false
        → IsTracked r
        → IsTracked (subscribe net ch r).0
    subscribe-IsTracked ch r o t x = ground (
      arith,
      pubsub-subscribe ch r o,
      count-subscribe_ok ch x r o,
      count-same ch x r,
      law.on_wire-subscribe ch x r.pubsub,
      t x,
    )

    unsubscribe-IsTracked :
        (ch : Bytes) (r : RedisSubscriber N D)
        → r.closed ≡ false
        → IsTracked r
        → IsTracked (unsubscribe net ch r).0
    unfolding unsubscribe count
    unsubscribe-IsTracked ch r o t x = elim (Option-cases (Map.get ch r.active_chans)) [
      | inl e ↦ rw (o, e) (t x)
      | inr (n, e) ↦ ground (
        arith,
        pubsub-release ch n r,
        count-unsubscribe net ch x r o,
        count-same ch x r,
        law.on_wire-unsubscribe ch x r.pubsub,
        t x,
      )
    ]

    serve-IsTracked :
        (rs : List Request) (r : RedisSubscriber N D)
        → r.closed ≡ false
        → IsTracked r
        → (x : Bytes) → on_wire x (serve rs r).pubsub ≡ ltb 0 (tally x (count x r) rs)
    unfolding serve tally
    serve-IsTracked [] r o t x = t x
    serve-IsTracked (subscribes ch ∷ rs) r o t x =
        let k = (subscribe net ch r).0 in
        serve-IsTracked rs k (closed-subscribe net ch r ∙ o) (subscribe-IsTracked ch r o t) x
        ∙ ap (λ n. ltb 0 (tally x n rs)) (count-subscribe_ok ch x r o)
    serve-IsTracked (unsubscribes ch ∷ rs) r o t x =
        let k = (unsubscribe net ch r).0 in
        serve-IsTracked rs k (closed-unsubscribe net ch r ∙ o) (unsubscribe-IsTracked ch r o t) x
        ∙ ap (λ n. ltb 0 (tally x n rs)) (count-unsubscribe net ch x r o)

    pub new-state :
        (url : Bytes) (deliver : Option D) (r : RedisSubscriber N D)
        → new_redis_subscriber net url deliver ≡ some r
        → (n : N) × (net.connect url ≡ some n)
          × (r.pubsub ≡ n)
          × (r.active_chans ≡ [])
          × (r.closed ≡ false)
    unfolding new_redis_subscriber
    new-state url deliver r e = elim (Option-cases (net.connect url)) [
      | inl bad ↦ ground arith
      | inr (n, good) ↦ elim (Option-cases deliver) [
        | inl later ↦ (n, good, ground arith, ground arith, ground arith)
        | inr (d, now) ↦ (n, good, ground arith, ground arith, ground arith)
      ]
    ]

    -- From a new subscriber, after any history of calls of Subscribe and Unsubscribe over a session
    -- that does not fail, Redis sends exactly the channels on which the history leaves a subscriber.
    pub serve-wire :
        (url : Bytes) (deliver : Option D) (r : RedisSubscriber N D) (rs : List Request) (x : Bytes)
        → new_redis_subscriber net url deliver ≡ some r
        → on_wire x (serve rs r).pubsub ≡ ltb 0 (tally x 0 rs)
    unfolding count Map.get
    serve-wire url deliver r rs x e =
        let (n, connected, session, empty, open_) = new-state url deliver r e in
        let none_yet = λ (y : Bytes). ap (λ m. or_zero (Map.get y m)) empty in
        let tracked : IsTracked r =
          λ y. ground (arith, none_yet y, law.on_wire-connect url y n connected) in
        serve-IsTracked rs r open_ tracked x ∙ ap (λ k. ltb 0 (tally x k rs)) (none_yet x)

    -- The subscriber is a manager that counts, and stays one as long as it is open.
    abbrev pub IsLive : RedisSubscriber N D → Type 0
    IsLive r = (r.closed ≡ false) × IsTracked r

    pub subscribe-IsLive :
        (ch : Bytes) (r : RedisSubscriber N D) → IsLive r → IsLive (subscribe net ch r).0
    subscribe-IsLive ch r (o, t) = (closed-subscribe net ch r ∙ o, subscribe-IsTracked ch r o t)

    pub unsubscribe-IsLive :
        (ch : Bytes) (r : RedisSubscriber N D) → IsLive r → IsLive (unsubscribe net ch r).0
    unsubscribe-IsLive ch r (o, t) =
        (closed-unsubscribe net ch r ∙ o, unsubscribe-IsTracked ch r o t)

    unfoldable pub manager_counts : Counts (manager {D = D} net)
    unfolding manager
    manager_counts = record {
      IsReady = IsLive;
      count = count;
      subscribe-IsReady = subscribe-IsLive;
      unsubscribe-IsReady = unsubscribe-IsLive;
      count-subscribe = λ ch x r live. count-subscribe_ok ch x r live.0;
      count-unsubscribe = λ ch x r live. count-unsubscribe net ch x r live.0;
    }
