-- ===== src/Boot/Limits.antt =====
-- From the environment to the limits of the running gateway.
use django_websocket_gateway.Common.{
  List, [], Bytes, bytes_eq, nat_eq, text, Option, none, some, ◌≡◌, ◌≢◌, ◌∙◌, refl, sym, ap, length,
  Returns, ok, true,
}
use django_websocket_gateway.Common.Int.{ℤ, is_positive}
use django_websocket_gateway.Common.Decimal.{format_int}
use django_websocket_gateway.Config.{Config}
use django_websocket_gateway.Config.Number.{parsed, unparsed, syntax, parse_int64, IsInt64}
use django_websocket_gateway.Config.Number.Laws.{parse_int64-format_int}
use django_websocket_gateway.Config.Load.{Env, Loading, loaded, failed, load}
use django_websocket_gateway.Config.Options.{IsOption}
use django_websocket_gateway.Config.Loaded.{load-IsLoaded}
use django_websocket_gateway.Boot.Ticker.{ticker-starts}
use django_websocket_gateway.Pump.{Wake, start_write_pump, write_pump}
use django_websocket_gateway.Json.{Json}
use django_websocket_gateway.Redis.{PubSub, RedisSubscriber, manager, new_redis_subscriber}
use django_websocket_gateway.Hub.State.{connections}
use django_websocket_gateway.Hub.Invariant.{Within}
use django_websocket_gateway.System.{Move, run, init}
use django_websocket_gateway.System.Safety.{run-init-Inv}
use django_websocket_gateway.System.Limits.{run-limits}
use django_websocket_gateway.Boot.{Gateway, running, boot, with_config, with_redis, attach, Deliver}

running-injective {ℓ} : {A : Type ℓ} {a b : A} → running a ≡ running b → a ≡ b
running-injective h = cc h

parse_int64_empty : parse_int64 [] ≡ unparsed syntax
unfolding parse_int64
parse_int64_empty = refl

-- A gateway that runs was made of a configuration that was loaded and of a subscriber.
module _ {N : Type 0} (net : PubSub N) where
  with_redis-running :
      (cfg : Config) (o : Option (RedisSubscriber N Deliver)) (g : Gateway N)
      → with_redis cfg o ≡ running g
      → (r : RedisSubscriber N Deliver) × (o ≡ some r) × (g.system ≡ init cfg (some (attach r)))
  unfolding init
  with_redis-running cfg none g e = cc e
  with_redis-running cfg (some r) g e = (r, refl, ap (λ x. x.system) (sym (running-injective e)))

  with_config-running :
      (l : Loading Config) (g : Gateway N)
      → with_config net l ≡ running g
      → (cfg : Config) × (l ≡ loaded cfg)
        × ((r : RedisSubscriber N Deliver) × (new_redis_subscriber net cfg.redis_url none ≡ some r)
            × (g.system ≡ init cfg (some (attach r))))
  with_config-running (failed x) g e = cc e
  with_config-running (loaded cfg) g e =
      (cfg, refl, with_redis-running cfg (new_redis_subscriber net cfg.redis_url none) g e)

  pub boot-running :
      (parse_duration : Bytes → Option ℤ) (env : Env) (g : Gateway N)
      → boot net parse_duration env ≡ running g
      → (cfg : Config) × (load parse_duration env ≡ loaded cfg)
        × ((r : RedisSubscriber N Deliver) × (new_redis_subscriber net cfg.redis_url none ≡ some r)
            × (g.system ≡ init cfg (some (attach r))))
  unfolding boot
  boot-running parse_duration env g e = with_config-running (load parse_duration env) g e

-- An option that is set to a printed number has this value.
option-set :
    (env : Env) (name : Bytes) (fallback v z : ℤ)
    → IsInt64 z
    → env name ≡ format_int z
    → IsOption env name fallback v
    → v ≡ z
option-set env name fallback v z fits e (unset, there) =
    let back : parse_int64 (env name) ≡ parsed z =
      ap parse_int64 e ∙ parse_int64-format_int z fits in
    let some_text : env name ≢ [] =
      λ empty. let bad = sym parse_int64_empty ∙ ap parse_int64 (sym empty) ∙ back in cc bad in
    let both = sym (there some_text) ∙ back in cc both

module _ {N : Type 0} (net : PubSub N) (json : Json) where
  -- Where the environment sets the two limits to printed integers of 64 bits, and the ping interval,
  -- if it is read as a duration, to a positive one, a gateway that boots from it starts each
  -- `WritePump` without a panic, runs without a panic through every schedule, and at the end of it
  -- the registered clients are within these limits, in all and for each user.
  pub boot-limits :
      (parse_duration : Bytes → Option ℤ) (env : Env) (g : Gateway N) (total per_user : ℤ)
      → IsInt64 total
      → IsInt64 per_user
      → env (text "MAX_CONNECTIONS_TOTAL") ≡ format_int total
      → env (text "MAX_CONNECTIONS_PER_USER") ≡ format_int per_user
      → boot net parse_duration env ≡ running g
      → ((z : ℤ) → parse_duration (env (text "PING_INTERVAL")) ≡ some z → is_positive z ≡ true)
      → (ms : List Move)
      → ((ws : List Wake) → start_write_pump g.system.hub.cfg ws ≡ ok (write_pump ws))
        × Returns (run (manager net) json ms g.system) (λ s.
          Within total (length s.hub.clients)
          × ((u : ℤ) → Within per_user (length (connections u s.hub))))
  unfolding init
  boot-limits parse_duration env g total per_user fits fits' t u e high ms =
      let (cfg, known, (r, _, from)) = boot-running net parse_duration env g e in
      let is = load-IsLoaded parse_duration env cfg known in
      let same_total = option-set env _ _ cfg.max_connections_total total fits t is.total in
      let same_user =
        option-set env _ _ cfg.max_connections_per_user per_user fits' u is.per_user in
      let done = run-init-Inv (manager net) json cfg (some (attach r)) ms in
      let (total_ok, _, user_ok) =
        run-limits (manager net) json cfg (some (attach r)) ms done.returned in
      rw from (
        λ ws. ticker-starts parse_duration env cfg ws known high,
        record {
          value = done.value;
          returned = done.returned;
          holds = (rw (← same_total) total_ok, λ w. rw (← same_user) (user_ok w).0);
        },
      )
