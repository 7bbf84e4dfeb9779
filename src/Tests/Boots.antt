-- ===== src/Tests/Boots.antt =====
-- The theorems of `Boot`, for an environment that sets the two limits, and for one with a ping interval of
-- zero.
use django_websocket_gateway.Common.{
  List, [], ◌∷◌, Bytes, bytes_eq, nat_eq, text, Option, none, some, ◌≡◌, ◌≢◌, ◌↔◌, ◌==◌, refl,
  arith, if◌then◌else◌, list_beq, length, ltb, Returns, ok, panic, false, true,
}
use django_websocket_gateway.Common.Int.{ℤ, pos, is_positive}
use django_websocket_gateway.Common.Set
use django_websocket_gateway.Common.Map
use django_websocket_gateway.Common.Decimal.{format_int}
use django_websocket_gateway.Config.{Config}
use django_websocket_gateway.Config.Load.{Env, load, loaded, failed}
use django_websocket_gateway.Auth.{new_authenticator}
use django_websocket_gateway.Redis.{manager, RedisSubscriber}
use django_websocket_gateway.Redis.Wire.{Reliable}
use django_websocket_gateway.Hub.Routing.{ask_subscribe}
use django_websocket_gateway.Hub.State.{members, connections}
use django_websocket_gateway.Hub.Invariant.{Within}
use django_websocket_gateway.System.{System, Move, run, init, stop_reading, run_unregister}
use django_websocket_gateway.Boot.{Gateway, Deliver, running, boot, attach}
use django_websocket_gateway.Boot.Limits.{boot-limits}
use django_websocket_gateway.Boot.Wire.{boot-wire}
use mathlib.Core.Option
use django_websocket_gateway.Boot.Ticker.{ticker-panic}
use django_websocket_gateway.Pump.{start_write_pump, write_pump, Wake}
use django_websocket_gateway.Tests.{small_config, short_json, list_session, list_session_reliable}
use django_websocket_gateway.Tests.Visits.{visit}

abbrev no_duration : Bytes → Option ℤ
no_duration s = none

abbrev limited : Env
limited name =
    if name == text "INTERNAL_AUTH_SECRET"
    then text "0123456789abcdef0123456789abcdef"
    else if name == text "REDIS_URL"
    then text "redis://r"
    else if name == text "DJANGO_AUTH_URL"
    then text "http://d"
    else if name == text "ALLOWED_ORIGINS"
    then text "https://a"
    else if name == text "MAX_CONNECTIONS_TOTAL"
    then text "2"
    else if name == text "MAX_CONNECTIONS_PER_USER"
    then text "1"
    else []

abbrev limited_config : Config
limited_config = elim (load no_duration limited) [ loaded cfg ↦ cfg | failed e ↦ small_config ]

abbrev first_subscriber : RedisSubscriber (List Bytes) Deliver
first_subscriber = attach (record {
  pubsub = [];
  deliver = none;
  active_chans = [];
  closed = false;
  started = false;
  read_loops = 0;
})

abbrev booted : Gateway (List Bytes)
booted = record {
  auth = new_authenticator limited_config;
  system = init limited_config (some first_subscriber);
  shutting_down = false;
}

boot-booted : boot list_session no_duration limited ≡ running booted
unfolding boot load list_beq
boot-booted = refl

limits_set :
    (limited (text "MAX_CONNECTIONS_TOTAL") ≡ format_int (pos 2))
    × (limited (text "MAX_CONNECTIONS_PER_USER") ≡ format_int (pos 1))
unfolding list_beq format_int
limits_set = (refl, refl)

no_interval : (z : ℤ) → no_duration (limited (text "PING_INTERVAL")) ≡ some z → is_positive z ≡ true
no_interval z e = cc e

boot-limits_example :
    ((ws : List Wake) → start_write_pump booted.system.hub.cfg ws ≡ ok (write_pump ws))
    × Returns (run (manager list_session) short_json visit booted.system) (λ s.
      Within (pos 2) (length s.hub.clients)
      × ((u : ℤ) → Within (pos 1) (length (connections u s.hub))))
boot-limits_example =
    boot-limits list_session short_json no_duration limited booted (pos 2) (pos 1) (omega arith)
      (omega arith) limits_set.0 limits_set.1 boot-booted no_interval visit

abbrev later : System (RedisSubscriber (List Bytes) Deliver)
later = elim (run (manager list_session) short_json visit booted.system) [
  | ok s ↦ s
  | panic ↦ booted.system
]

after-later : run (manager list_session) short_json visit booted.system ≡ ok later
unfolding boot load init run manager attach Map.get Set.contains Set.add Map.put list_beq format_int
after-later = refl

abbrev later_subscriber : RedisSubscriber (List Bytes) Deliver
later_subscriber = elim later.hub.manager [ none ↦ first_subscriber | some q ↦ q ]

later_held : later.hub.manager ≡ some later_subscriber
unfolding boot load init run manager attach Map.get Set.contains Set.add Map.put list_beq format_int
    ask_subscribe
later_held = refl

boot-wire_example :
    Reliable.on_wire list_session_reliable (text "news") later_subscriber.pubsub
    ≡ ltb 0 (length (members (text "news") later.hub))
boot-wire_example =
    boot-wire list_session list_session_reliable short_json no_duration limited booted visit later
      later_subscriber (text "news") boot-booted after-later later_held

-- After the signal a client goes, while the hub still runs; then the subscriber is closed, and after the
-- hub has ended another client goes.
abbrev leaving : List Move
leaving = stop_reading 0 ∷ run_unregister ∷ []

abbrev gone : List Move
gone = stop_reading 1 ∷ run_unregister ∷ []

abbrev zero : Env
zero name = if name == text "PING_INTERVAL" then text "0s" else limited name

abbrev zero_duration : Bytes → Option ℤ
zero_duration s = if s == text "0s" then some (pos 0) else none

abbrev zero_config : Config
zero_config = elim (load zero_duration zero) [ loaded cfg ↦ cfg | failed e ↦ small_config ]

load-zero : load zero_duration zero ≡ loaded zero_config
unfolding load list_beq
load-zero = refl

ticker-panic_example : (start_write_pump zero_config [] ≡ panic) ↔ (
    (z : ℤ) × (zero (text "PING_INTERVAL") ≢ [])
    × (zero_duration (zero (text "PING_INTERVAL")) ≡ some z)
    × (is_positive z ≡ false))
ticker-panic_example = ticker-panic zero_duration zero zero_config [] load-zero
