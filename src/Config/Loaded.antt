-- ===== src/Config/Loaded.antt =====
-- What a configuration that `Load` returns is.
use django_websocket_gateway.Common.{
  ◌≤◌, List, [], ◌∷◌, Bytes, bytes_eq, nat_eq, text, Option, ◌==◌, ◌≡◌, ◌≢◌, ltb, length, refl, sym,
  ap, arith, inl, inr, Bool-cases, list_beq_iff, All, ◌*◌,
}
use django_websocket_gateway.Common.Int.{ℤ, pos}
use django_websocket_gateway.Config.{Config, LogLevel, level_info}
use django_websocket_gateway.Config.Words.{split, trim_space}
use django_websocket_gateway.Config.Load.{
  Loading, loaded, failed, ◌>>=◌, Env, min_secret_length, check_required, check_secret,
  keep_origins, origins_of, at_least_one, load_origins, parse_int_into, parse_duration_into,
  parse_log_level_into, load_rest, load, second, required_names, assemble, steps,
}
use django_websocket_gateway.Config.Options.{
  IsOption, IsDuration, loaded-injective, parse_int_into-IsOption, parse_duration_into-IsDuration,
}

-- Inversion of a bind that succeeds.
bound {ℓ κ} :
    {A : Type ℓ} {B : Type κ} (m : Loading A) (f : A → Loading B) (b : B)
    → (m >>= f) ≡ loaded b
    → (a : A) × (m ≡ loaded a) × (f a ≡ loaded b)
bound (loaded a) f b h = (a, refl, h)
bound (failed e) f b h = cc h

present :
    (env : Env) (names : List Bytes) (done : Unit {0})
    → check_required env names ≡ loaded done
    → All (λ name. env name ≢ []) names
unfolding check_required
present env [] done h = tt
present env (name ∷ names) done h = elim (Bool-cases (env name == [])) [
  | inl unset ↦ let h' = (rw unset at h) in cc h'
  | inr set_ ↦
      (λ e. cc (set_, (list_beq_iff (env name) []).1 e), present env names done (rw set_ at h))
]

keep_origins-ne-nil : (parts : List Bytes) → All (λ origin. origin ≢ []) (keep_origins parts)
unfolding keep_origins
keep_origins-ne-nil [] = tt
keep_origins-ne-nil (part ∷ parts) = elim (Bool-cases (trim_space part == [])) [
  | inl empty ↦ rw empty (keep_origins-ne-nil parts)
  | inr some_ ↦
      rw some_ (λ e. cc (some_, (list_beq_iff (trim_space part) []).1 e), keep_origins-ne-nil parts)
]

origins_of-ne-nil : (raw : Bytes) → All (λ origin. origin ≢ []) (origins_of raw)
unfolding origins_of
origins_of-ne-nil raw = keep_origins-ne-nil (split b',' raw)

at_least_one-loaded :
    (origins found : List Bytes)
    → at_least_one origins ≡ loaded found
    → (found ≡ origins) × (origins ≢ [])
at_least_one-loaded [] found h = cc h
at_least_one-loaded (o ∷ os) found h = (ground arith, λ e. cc e)

load_origins-loaded :
    (raw : Bytes) (found : List Bytes)
    → load_origins raw ≡ loaded found
    → (found ≡ origins_of raw) × (found ≢ [])
unfolding load_origins
load_origins-loaded raw found h = elim (Bool-cases (raw == [])) [
  | inl unset ↦ let h' = (rw unset at h) in cc h'
  | inr set_ ↦
      let (same, some_) = at_least_one-loaded (origins_of raw) found (rw set_ at h) in
      (same, λ e. some_ (cc (e, same)))
]

check_secret-long :
    (env : Env) (done : Unit {0})
    → check_secret env ≡ loaded done
    → min_secret_length ≤ length (env (text "INTERNAL_AUTH_SECRET"))
unfolding check_secret
check_secret-long env done h =
    elim (Bool-cases (ltb (length (env (text "INTERNAL_AUTH_SECRET"))) min_secret_length)) [
      | inl short ↦ let h' = (rw short at h) in cc h'
      | inr long ↦ ground arith
    ]

pub record IsLoaded (parse_duration : Bytes → Option ℤ) (env : Env) (cfg : Config) : Type 0 where
  pub redis_url : (cfg.redis_url ≡ env (text "REDIS_URL")) × (cfg.redis_url ≢ [])
  pub django_auth_url :
      (cfg.django_auth_url ≡ env (text "DJANGO_AUTH_URL")) × (cfg.django_auth_url ≢ [])
  pub secret :
      (cfg.internal_auth_secret ≡ env (text "INTERNAL_AUTH_SECRET"))
      × (min_secret_length ≤ length cfg.internal_auth_secret)
  pub origins :
      (cfg.allowed_origins ≡ origins_of (env (text "ALLOWED_ORIGINS")))
      × (cfg.allowed_origins ≢ [])
      × All (λ origin. origin ≢ []) cfg.allowed_origins
  pub per_user :
      IsOption env (text "MAX_CONNECTIONS_PER_USER") (pos 10) cfg.max_connections_per_user
  pub total : IsOption env (text "MAX_CONNECTIONS_TOTAL") (pos 50000) cfg.max_connections_total
  pub size : IsOption env (text "MAX_MESSAGE_SIZE") (pos 8192) cfg.max_message_size
  pub lifetime :
      IsDuration parse_duration env
        (text "CONNECTION_MAX_LIFETIME")
        (pos (12 * 3600 * second))
        cfg.connection_max_lifetime
  pub ping :
      IsDuration parse_duration env (text "PING_INTERVAL") (pos (30 * second)) cfg.ping_interval
  pub pong :
      IsDuration parse_duration env (text "PONG_TIMEOUT") (pos (60 * second)) cfg.pong_timeout
  pub auth : IsDuration parse_duration env (text "AUTH_TIMEOUT") (pos (5 * second)) cfg.auth_timeout

-- What is left to be said of the configuration once the secret was tested.
record RestLoaded (parse_duration : Bytes → Option ℤ) (env : Env) (cfg : Config) : Type 0 where
  redis_url : cfg.redis_url ≡ env (text "REDIS_URL")
  django_auth_url : cfg.django_auth_url ≡ env (text "DJANGO_AUTH_URL")
  secret : cfg.internal_auth_secret ≡ env (text "INTERNAL_AUTH_SECRET")
  origins : load_origins (env (text "ALLOWED_ORIGINS")) ≡ loaded cfg.allowed_origins
  per_user :
      parse_int_into env (text "MAX_CONNECTIONS_PER_USER") (pos 10)
      ≡ loaded cfg.max_connections_per_user
  total :
      parse_int_into env (text "MAX_CONNECTIONS_TOTAL") (pos 50000)
      ≡ loaded cfg.max_connections_total
  size : parse_int_into env (text "MAX_MESSAGE_SIZE") (pos 8192) ≡ loaded cfg.max_message_size
  lifetime :
      parse_duration_into parse_duration env
        (text "CONNECTION_MAX_LIFETIME")
        (pos (12 * 3600 * second))
      ≡ loaded cfg.connection_max_lifetime
  ping :
      parse_duration_into parse_duration env (text "PING_INTERVAL") (pos (30 * second))
      ≡ loaded cfg.ping_interval
  pong :
      parse_duration_into parse_duration env (text "PONG_TIMEOUT") (pos (60 * second))
      ≡ loaded cfg.pong_timeout
  auth :
      parse_duration_into parse_duration env (text "AUTH_TIMEOUT") (pos (5 * second))
      ≡ loaded cfg.auth_timeout

-- All nine steps have succeeded, and the configuration is assembled of their results.
steps_loaded :
    (env : Env) (origins : Loading (List Bytes))
    (per_user total size lifetime ping pong auth : Loading ℤ) (level : Loading LogLevel)
    (cfg : Config)
    → steps env origins per_user total size lifetime ping pong auth level ≡ loaded cfg
    → (origins ≡ loaded cfg.allowed_origins)
      × (per_user ≡ loaded cfg.max_connections_per_user)
      × (total ≡ loaded cfg.max_connections_total)
      × (size ≡ loaded cfg.max_message_size)
      × (lifetime ≡ loaded cfg.connection_max_lifetime)
      × (ping ≡ loaded cfg.ping_interval)
      × (pong ≡ loaded cfg.pong_timeout)
      × (auth ≡ loaded cfg.auth_timeout)
      × (cfg.redis_url ≡ env (text "REDIS_URL"))
      × (cfg.django_auth_url ≡ env (text "DJANGO_AUTH_URL"))
      × (cfg.internal_auth_secret ≡ env (text "INTERNAL_AUTH_SECRET"))
unfolding assemble
steps_loaded env (failed x) per_user total size lifetime ping pong auth level cfg h = cc h
steps_loaded env (loaded a) (failed x) total size lifetime ping pong auth level cfg h = cc h
steps_loaded env (loaded a) (loaded b) (failed x) size lifetime ping pong auth level cfg h = cc h
steps_loaded env (loaded a) (loaded b) (loaded c) (failed x) lifetime ping pong auth level cfg h =
    cc h
steps_loaded env (loaded a) (loaded b) (loaded c) (loaded d) (failed x) ping pong auth level cfg h =
    cc h
steps_loaded env (loaded a) (loaded b) (loaded c) (loaded d) (loaded f) (failed x) pong auth level
      cfg h =
    cc h
steps_loaded env (loaded a) (loaded b) (loaded c) (loaded d) (loaded f) (loaded g) (failed x) auth
      level cfg h =
    cc h
steps_loaded env (loaded a) (loaded b) (loaded c) (loaded d) (loaded f) (loaded g) (loaded i)
      (failed x) level cfg h =
    cc h
steps_loaded env (loaded a) (loaded b) (loaded c) (loaded d) (loaded f) (loaded g) (loaded i)
      (loaded j) (failed x) cfg h =
    cc h
steps_loaded env (loaded a) (loaded b) (loaded c) (loaded d) (loaded f) (loaded g) (loaded i)
      (loaded j) (loaded k) cfg h =
    let same = loaded-injective h in
    (
      ap (λ r. loaded r.allowed_origins) same,
      ap (λ r. loaded r.max_connections_per_user) same,
      ap (λ r. loaded r.max_connections_total) same,
      ap (λ r. loaded r.max_message_size) same,
      ap (λ r. loaded r.connection_max_lifetime) same,
      ap (λ r. loaded r.ping_interval) same,
      ap (λ r. loaded r.pong_timeout) same,
      ap (λ r. loaded r.auth_timeout) same,
      ap (λ r. r.redis_url) (sym same),
      ap (λ r. r.django_auth_url) (sym same),
      ap (λ r. r.internal_auth_secret) (sym same),
    )

module _ (parse_duration : Bytes → Option ℤ) (env : Env) where
  load_rest-RestLoaded :
      (cfg : Config) → load_rest parse_duration env ≡ loaded cfg → RestLoaded parse_duration env cfg
  unfolding load_rest
  load_rest-RestLoaded cfg h =
      let duration = parse_duration_into parse_duration env in
      let (
        origins, per_user, total, size, lifetime, ping, pong, auth, redis_url, django_auth_url,
        secret,
      ) =
        steps_loaded env _ _ _ _
          (duration (text "CONNECTION_MAX_LIFETIME") (pos (12 * 3600 * second)))
          (duration (text "PING_INTERVAL") (pos (30 * second)))
          (duration (text "PONG_TIMEOUT") (pos (60 * second)))
          (duration (text "AUTH_TIMEOUT") (pos (5 * second)))
          (parse_log_level_into env (text "LOG_LEVEL") level_info) cfg h in
      record {
        redis_url = redis_url;
        django_auth_url = django_auth_url;
        secret = secret;
        origins = origins;
        per_user = per_user;
        total = total;
        size = size;
        lifetime = lifetime;
        ping = ping;
        pong = pong;
        auth = auth;
      }

  -- A configuration is loaded only if the required variables are set: the URLs are those of the
  -- environment and not empty, the secret is that of the environment and has at least 32 bytes, and
  -- there is an origin and none is empty. An integer option is the number that its variable
  -- spells and a duration what `time.ParseDuration` makes of it, or the default where it is not set.
  pub load-IsLoaded :
      (cfg : Config) → load parse_duration env ≡ loaded cfg → IsLoaded parse_duration env cfg
  unfolding load
  load-IsLoaded cfg h =
      let (there, required, h1) = bound (check_required env required_names) _ cfg h in
      let (redis, (django, _)) = present env required_names there required in
      let (tested, long, h2) = bound (check_secret env) _ cfg h1 in
      let enough = check_secret-long env tested long in
      let rest = load_rest-RestLoaded cfg h2 in
      let (same, some_) =
        load_origins-loaded (env (text "ALLOWED_ORIGINS")) cfg.allowed_origins rest.origins in
      record {
        redis_url = (rest.redis_url, λ e. redis (cc (e, rest.redis_url)));
        django_auth_url = (rest.django_auth_url, λ e. django (cc (e, rest.django_auth_url)));
        secret = (rest.secret, rw rest.secret enough);
        origins = (same, some_, rw same (origins_of-ne-nil (env (text "ALLOWED_ORIGINS"))));
        per_user = parse_int_into-IsOption env _ _ _ rest.per_user;
        total = parse_int_into-IsOption env _ _ _ rest.total;
        size = parse_int_into-IsOption env _ _ _ rest.size;
        lifetime = parse_duration_into-IsDuration parse_duration env _ _ _ rest.lifetime;
        ping = parse_duration_into-IsDuration parse_duration env _ _ _ rest.ping;
        pong = parse_duration_into-IsDuration parse_duration env _ _ _ rest.pong;
        auth = parse_duration_into-IsDuration parse_duration env _ _ _ rest.auth;
      }
