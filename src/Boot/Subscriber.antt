-- ===== src/Boot/Subscriber.antt =====
-- The subscriber of a gateway that has booted, whatever its goroutines have done since.
use django_websocket_gateway.Common.{
  suc, List, Bytes, bytes_eq, nat_eq, Option, none, some, true, false, ◌≡◌, ◌∙◌, refl, ap, inl, inr,
  arith, Returns, Option-cases,
}
use mathlib.Core.Option
use django_websocket_gateway.Common.Int.{ℤ}
use django_websocket_gateway.Config.Load.{Env}
use django_websocket_gateway.Json.{Json}
use django_websocket_gateway.Redis.{
  PubSub, RedisSubscriber, manager, new_redis_subscriber, set_deliver, start,
}
use django_websocket_gateway.Redis.Reader.{SameReader, subscribe-SameReader, unsubscribe-SameReader}
use django_websocket_gateway.Hub.Effect.Manager.{Stable}
use django_websocket_gateway.Hub.Routing.{ask_subscribe, ask_unsubscribe}
use django_websocket_gateway.System.{Move, run, init}
use django_websocket_gateway.System.Invariant.{SystemInv}
use django_websocket_gateway.System.Safety.{init-Inv}
use django_websocket_gateway.System.Subscriber.{run-Stable}
use django_websocket_gateway.Boot.{Gateway, running, boot, attach, Deliver, to_incoming}
use django_websocket_gateway.Boot.Limits.{boot-running}

module _ {N : Type 0} where
  -- An open subscriber with one read loop, which sends to the hub.
  pub record IsAttached (q : RedisSubscriber N Deliver) : Type 0 where
    pub deliver : q.deliver ≡ some to_incoming
    pub started : q.started ≡ true
    pub read_loops : q.read_loops ≡ 1
    pub closed : q.closed ≡ false

  abbrev pub Attached : Option (RedisSubscriber N Deliver) → Type 0
  Attached none = ⊥
  Attached (some q) = IsAttached q

  same-IsAttached : {r q : RedisSubscriber N Deliver} → SameReader r q → IsAttached r → IsAttached q
  same-IsAttached same is = record {
    deliver = same.deliver ∙ is.deliver;
    started = same.started ∙ is.started;
    read_loops = same.read_loops ∙ is.read_loops;
    closed = same.closed ∙ is.closed;
  }

  attached :
      (r : RedisSubscriber N Deliver)
      → r.started ≡ false
      → r.read_loops ≡ 0
      → r.closed ≡ false
      → IsAttached (attach r)
  unfolding attach start set_deliver
  attached r idle none_yet open_ =
      rw idle
        (record { deliver = refl; started = refl; read_loops = ap suc none_yet; closed = open_ })

  pub Attached-some :
      (o : Option (RedisSubscriber N Deliver))
      → Attached o
      → (q : RedisSubscriber N Deliver) × (o ≡ some q) × IsAttached q
  Attached-some none v = absurd v
  Attached-some (some q) v = (q, refl, v)

module _ {N : Type 0} (net : PubSub N) where
  pub Attached-Stable : Stable (manager net) Attached
  unfolding manager ask_subscribe ask_unsubscribe
  Attached-Stable = record {
    asks = λ ch o v.
        let (q, e, is) = Attached-some o v in
        rw e (same-IsAttached (subscribe-SameReader net ch q) is);
    gives_up = λ ch o v.
        let (q, e, is) = Attached-some o v in
        rw e (same-IsAttached (unsubscribe-SameReader net ch q) is);
  }

  new-IsIdle :
      (url : Bytes) (r : RedisSubscriber N Deliver)
      → new_redis_subscriber net url none ≡ some r
      → (r.started ≡ false) × (r.read_loops ≡ 0) × (r.closed ≡ false)
  unfolding new_redis_subscriber
  new-IsIdle url r e = elim (Option-cases (net.connect url)) [
    | inl bad ↦ ground arith
    | inr (n, good) ↦ ground arith
  ]

  pub boot-Attached :
      (json : Json) (parse_duration : Bytes → Option ℤ) (env : Env) (g : Gateway N) (ms : List Move)
      → boot net parse_duration env ≡ running g
      → Returns (run (manager net) json ms g.system) (λ s. SystemInv s × Attached s.hub.manager)
  unfolding init
  boot-Attached json parse_duration env g ms e =
      let (cfg, _, (r, new, from)) = boot-running net parse_duration env g e in
      let (idle, none_yet, open_) = new-IsIdle cfg.redis_url r new in
      rw from (
        run-Stable json Attached-Stable ms (init cfg (some (attach r)))
          (init-Inv (manager net) json cfg (some (attach r))) (attached r idle none_yet open_))
