-- ===== src/Boot/Wire.antt =====
-- The subscriber of a gateway that has booted, and what Redis sends to it.
use django_websocket_gateway.Common.{
  List, Bytes, bytes_eq, nat_eq, Option, some, ◌≡◌, ◌∙◌, ap, inl, inr, arith, length, ltb,
  Bool-cases, ok,
}
use django_websocket_gateway.Common.Int.{ℤ}
use django_websocket_gateway.Config.Load.{Env}
use django_websocket_gateway.Json.{Json}
use django_websocket_gateway.Redis.{PubSub, RedisSubscriber, manager, set_deliver, start}
use django_websocket_gateway.Redis.Wire.{Reliable}
use django_websocket_gateway.Hub.State.{members}
use django_websocket_gateway.System.{System, Move, run}
use django_websocket_gateway.System.Wire.{IsNew, new_redis_subscriber-IsNew, run-IsNew}
use django_websocket_gateway.Boot.{Gateway, running, boot, attach, Deliver}
use django_websocket_gateway.Boot.Limits.{boot-running}

module _ {N : Type 0} where
  -- `SetDeliver` and `Start` leave the session and the counts alone.
  pub record SameSession (r q : RedisSubscriber N Deliver) : Type 0 where
    pub pubsub : q.pubsub ≡ r.pubsub
    pub active_chans : q.active_chans ≡ r.active_chans
    pub closed : q.closed ≡ r.closed

  attach-SameSession : (r : RedisSubscriber N Deliver) → SameSession r (attach r)
  unfolding attach start set_deliver
  attach-SameSession r = elim (Bool-cases r.started) [
    | inl on ↦ rw on (ground arith)
    | inr off ↦ rw off (ground arith)
  ]

module _ {N : Type 0} (net : PubSub N) where
  attach-IsNew :
      (law : Reliable net) (r : RedisSubscriber N Deliver)
      → IsNew net law r
      → IsNew net law (attach r)
  attach-IsNew law r new =
      let same = attach-SameSession r in
      record {
        empty = same.active_chans ∙ new.empty;
        open_ = same.closed ∙ new.open_;
        quiet = λ ch. ap (Reliable.on_wire law ch) same.pubsub ∙ new.quiet ch;
      }

  -- Where the Redis session does not fail, a gateway that boots receives, after any schedule, a Redis
  -- channel exactly if some client is in it.
  pub boot-wire :
      (law : Reliable net) (json : Json) (parse_duration : Bytes → Option ℤ) (env : Env)
      (g : Gateway N) (ms : List Move) (t : System (RedisSubscriber N Deliver))
      (q : RedisSubscriber N Deliver) (ch : Bytes)
      → boot net parse_duration env ≡ running g
      → run (manager net) json ms g.system ≡ ok t
      → t.hub.manager ≡ some q
      → Reliable.on_wire law ch q.pubsub ≡ ltb 0 (length (members ch t.hub))
  boot-wire law json parse_duration env g ms t q ch e done held =
      let (cfg, _, (r, new, from)) = boot-running net parse_duration env g e in
      run-IsNew net law json cfg (attach r) q ms t ch
        (attach-IsNew law r (new_redis_subscriber-IsNew net law cfg.redis_url r new))
        (rw from at done) held
