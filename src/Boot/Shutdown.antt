-- ===== src/Boot/Shutdown.antt =====
-- What `main` of gateway/main.go does on a signal, and what goes on after it.
use django_websocket_gateway.Common.{Option, true}
use mathlib.Core.Option
use django_websocket_gateway.Json.{Json}
use django_websocket_gateway.Redis.{PubSub, RedisSubscriber}
use django_websocket_gateway.Hub.State.{Hub}
use django_websocket_gateway.System.{System}
use django_websocket_gateway.Boot.{Gateway, Deliver, begin_shutdown, cancel, close_subscriber}

-- The flag is set, the goroutines come to `s` while `server.Shutdown` waits, and the context is cancelled.
abbrev pub tell : {N : Type 0} → System (RedisSubscriber N Deliver) → Gateway N → Gateway N
tell s g = cancel (record (begin_shutdown g) { system = s })

-- The goroutines come to `s`, and the subscriber is closed when `main` returns.
abbrev pub shut_down :
    {N : Type 0} → PubSub N → System (RedisSubscriber N Deliver) → Gateway N → Gateway N
shut_down net s g = close_subscriber net (record g { system = s })

module _ {N : Type 0} (net : PubSub N) where
  -- The subscriber after its first `Close`.
  abbrev pub closed_once : RedisSubscriber N Deliver → RedisSubscriber N Deliver
  closed_once q = record q {
    closed = true;
    pubsub = (net.close_client (net.close_pubsub q.pubsub)).0;
  }
