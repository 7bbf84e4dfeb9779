-- ===== src/Boot.antt =====
-- `main` of gateway/main.go, up to the HTTP server, and what it does on a signal.
pub mod Limits
pub mod Wire
pub mod Subscriber
pub mod Ticker
pub mod Shutdown
use django_websocket_gateway.Common.{Bytes, Option, none, some, Bool, false, true}
use mathlib.Core.Option
use django_websocket_gateway.Common.Int.{ℤ}
use django_websocket_gateway.Config.{Config}
use django_websocket_gateway.Config.Load.{Env, LoadError, Loading, loaded, failed, load}
use django_websocket_gateway.Auth.{Authenticator, new_authenticator}
use django_websocket_gateway.Redis.{
  PubSub, RedisSubscriber, new_redis_subscriber, set_deliver, start, ping, close,
}
use django_websocket_gateway.System.{System, init}
use django_websocket_gateway.Gate.{Health, healthz}

-- The callback `func(m incomingMessage) { hub.incoming <- m }`, by the message that it sends.
abbrev pub Deliver : Type 0
Deliver = Bytes → Bytes → Bytes × Bytes

abbrev pub to_incoming : Deliver
to_incoming ch payload = (ch, payload)

-- The two calls of `log.Fatalf`.
pub data Fatal : Type 0 where
  config : LoadError → Fatal
  redis : Fatal

-- There is one subscriber, to which `main`, the hub and the handler of `/healthz` point: it is the
-- manager of the hub.
pub record Gateway (N : Type 0) : Type 0 where
  pub auth : Authenticator
  pub system : System (RedisSubscriber N Deliver)
  pub shutting_down : Bool

pub data Started {ℓ} (A : Type ℓ) : Type ℓ where
  running : A → Started A
  exited : Fatal → Started A

module _ {N : Type 0} where
  -- A call of a method of the subscriber, through any of the pointers to it.
  abbrev pub on_subscriber :
      (RedisSubscriber N Deliver → RedisSubscriber N Deliver)
      → System (RedisSubscriber N Deliver)
      → System (RedisSubscriber N Deliver)
  on_subscriber f s = record s { hub = record s.hub { manager = Option.map f s.hub.manager } }

  -- `mgr.SetDeliver(…)` and `mgr.Start()`
  unfoldable pub attach : RedisSubscriber N Deliver → RedisSubscriber N Deliver
  unfolding set_deliver start
  attach mgr = start (set_deliver to_incoming mgr)

  abbrev pub with_redis : Config → Option (RedisSubscriber N Deliver) → Started (Gateway N)
  with_redis cfg none = exited redis
  with_redis cfg (some mgr) = running (record {
    auth = new_authenticator cfg;
    system = on_subscriber attach (init cfg (some mgr));
    shutting_down = false;
  })

  abbrev pub with_config : PubSub N → Loading Config → Started (Gateway N)
  with_config net (failed e) = exited (config e)
  with_config net (loaded cfg) = with_redis cfg (new_redis_subscriber net cfg.redis_url none)

  unfoldable pub boot : PubSub N → (Bytes → Option ℤ) → Env → Started (Gateway N)
  unfolding load new_authenticator new_redis_subscriber attach init
  boot net parse_duration env = with_config net (load parse_duration env)

  -- `shuttingDown.Store(true)`
  unfoldable pub begin_shutdown : Gateway N → Gateway N
  begin_shutdown g = record g { shutting_down = true }

  -- `cancel()`, after `server.Shutdown`, which leaves the WebSocket connections alone: the context of
  -- `hub.Run` is done.
  unfoldable pub cancel : Gateway N → Gateway N
  cancel g = record g { system = record g.system { ctx_done = true } }

  -- `defer mgr.Close()`, when `main` returns.
  unfoldable pub close_subscriber : PubSub N → Gateway N → Gateway N
  unfolding close
  close_subscriber net g = record g { system = on_subscriber (λ mgr. (close net mgr).0) g.system }

  -- The PING of the subscriber.
  abbrev pub ping_manager : PubSub N → Option (RedisSubscriber N Deliver) → Option Bytes
  ping_manager net none = none
  ping_manager net (some mgr) = ping net mgr

  -- A request for `/healthz`.
  unfoldable pub probe : PubSub N → Gateway N → Health
  unfolding healthz ping
  probe net g = healthz g.shutting_down (ping_manager net g.system.hub.manager)
