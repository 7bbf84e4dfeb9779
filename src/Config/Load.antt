-- ===== src/Config/Load.antt =====
-- `Load` of gateway/config.go. The environment is a parameter, and so is `time.ParseDuration`, which
-- computes with floating-point numbers.
use django_websocket_gateway.Common.{
  ℕ, List, [], ◌∷◌, Bytes, bytes_eq, nat_eq, text, ◌*◌, Option, none, some, ◌||◌, ◌==◌, ltb, length,
  if◌then◌else◌,
}
use django_websocket_gateway.Common.Int.{ℤ, pos}
use django_websocket_gateway.Config.{
  Config, LogLevel, level_debug, level_info, level_warn, level_error,
}
use django_websocket_gateway.Config.Words.{split, trim_space, to_lower}
use django_websocket_gateway.Config.Number.{NumError, Parsed, parsed, unparsed, parse_int64}

-- What an error of `Load` says: the variable, and where it is printed its value.
pub data LoadError : Type 0 where
  is_required : Bytes → LoadError
  short_secret : LoadError
  invalid_integer : Bytes → Bytes → NumError → LoadError
  invalid_duration unknown_log_level : Bytes → Bytes → LoadError

pub data Loading {ℓ} (A : Type ℓ) : Type ℓ where
  loaded : A → Loading A
  failed : LoadError → Loading A

infixl 5 ◌>>=◌
abbrev pub ◌>>=◌ {ℓ κ} : {A : Type ℓ} {B : Type κ} → Loading A → (A → Loading B) → Loading B
loaded a >>= f = f a
failed e >>= f = failed e

abbrev pub min_secret_length : ℕ
min_secret_length = 32

-- `os.Getenv`, for which a missing variable is empty.
abbrev pub Env : Type 0
Env = Bytes → Bytes

unfoldable pub env_or_default : Env → Bytes → Bytes → Bytes
env_or_default env key fallback = if env key == [] then fallback else env key

-- The loop over the required variables.
unfoldable pub check_required : Env → List Bytes → Loading (Unit {0})
check_required env [] = loaded tt
check_required env (name ∷ names) =
    if env name == [] then failed (is_required name) else check_required env names

-- The loop over the parts of ALLOWED_ORIGINS.
unfoldable pub keep_origins : List Bytes → List Bytes
unfolding trim_space
keep_origins [] = []
keep_origins (origin ∷ origins) =
    let trimmed = trim_space origin in
    let rest = keep_origins origins in if trimmed == [] then rest else trimmed ∷ rest

unfoldable pub origins_of : Bytes → List Bytes
unfolding keep_origins split
origins_of raw = keep_origins (split b',' raw)

abbrev pub at_least_one : List Bytes → Loading (List Bytes)
at_least_one [] = failed (is_required (text "ALLOWED_ORIGINS"))
at_least_one (origin ∷ origins) = loaded (origin ∷ origins)

-- The two tests of ALLOWED_ORIGINS, before and after the loop.
unfoldable pub load_origins : Bytes → Loading (List Bytes)
unfolding origins_of
load_origins raw =
    if raw == []
    then failed (is_required (text "ALLOWED_ORIGINS"))
    else at_least_one (origins_of raw)

abbrev pub integer_or_error : Bytes → Bytes → Parsed ℤ → Loading ℤ
integer_or_error name raw (parsed v) = loaded v
integer_or_error name raw (unparsed e) = failed (invalid_integer name raw e)

-- `parseIntInto` and `parseInt64Into`, where the last argument is what the destination holds.
unfoldable pub parse_int_into : Env → Bytes → ℤ → Loading ℤ
unfolding parse_int64
parse_int_into env name dest =
    if env name == []
    then loaded dest
    else integer_or_error name (env name) (parse_int64 (env name))

abbrev pub duration_or_error : Bytes → Bytes → Option ℤ → Loading ℤ
duration_or_error name raw (some v) = loaded v
duration_or_error name raw none = failed (invalid_duration name raw)

unfoldable pub parse_duration_into : (Bytes → Option ℤ) → Env → Bytes → ℤ → Loading ℤ
parse_duration_into parse_duration env name dest =
    if env name == []
    then loaded dest
    else duration_or_error name (env name) (parse_duration (env name))

-- `switch strings.ToLower(raw)`
unfoldable pub log_level_of : Bytes → Option LogLevel
log_level_of s =
    if s == text "debug"
    then some level_debug
    else if s == text "info"
    then some level_info
    else if s == text "warn" || s == text "warning"
    then some level_warn
    else if s == text "error"
    then some level_error
    else none

abbrev pub level_or_error : Bytes → Bytes → Option LogLevel → Loading LogLevel
level_or_error name raw (some v) = loaded v
level_or_error name raw none = failed (unknown_log_level name raw)

unfoldable pub parse_log_level_into : Env → Bytes → LogLevel → Loading LogLevel
unfolding log_level_of to_lower
parse_log_level_into env name dest =
    if env name == []
    then loaded dest
    else level_or_error name (env name) (log_level_of (to_lower (env name)))

abbrev pub second : ℕ
second = 1000000000

-- The fields of the configuration.
unfoldable pub assemble : Env → List Bytes → ℤ → ℤ → ℤ → ℤ → ℤ → ℤ → LogLevel → ℤ → Config
unfolding env_or_default
assemble env origins per_user total size lifetime ping pong level auth = record {
  listen_addr = env_or_default env (text "LISTEN_ADDR") (text ":8080");
  redis_url = env (text "REDIS_URL");
  django_auth_url = env (text "DJANGO_AUTH_URL");
  internal_auth_secret = env (text "INTERNAL_AUTH_SECRET");
  allowed_origins = origins;
  max_connections_per_user = per_user;
  max_connections_total = total;
  max_message_size = size;
  connection_max_lifetime = lifetime;
  ping_interval = ping;
  pong_timeout = pong;
  log_level = level;
  auth_timeout = auth;
}

-- The nine steps that may fail, and the configuration of their results.
abbrev pub steps :
    Env
    → Loading (List Bytes)
    → Loading ℤ
    → Loading ℤ
    → Loading ℤ
    → Loading ℤ
    → Loading ℤ
    → Loading ℤ
    → Loading ℤ
    → Loading LogLevel
    → Loading Config
steps env load_origins load_per_user load_total load_size load_lifetime load_ping load_pong
      load_auth load_level =
    do
      origins ← load_origins
      per_user ← load_per_user
      total ← load_total
      size ← load_size
      lifetime ← load_lifetime
      ping ← load_ping
      pong ← load_pong
      auth ← load_auth
      level ← load_level
      loaded (assemble env origins per_user total size lifetime ping pong level auth)

-- What follows the tests of the required variables.
unfoldable pub load_rest : (Bytes → Option ℤ) → Env → Loading Config
unfolding assemble load_origins parse_int_into parse_duration_into parse_log_level_into
load_rest parse_duration env =
    steps env (load_origins (env (text "ALLOWED_ORIGINS")))
      (parse_int_into env (text "MAX_CONNECTIONS_PER_USER") (pos 10))
      (parse_int_into env (text "MAX_CONNECTIONS_TOTAL") (pos 50000))
      (parse_int_into env (text "MAX_MESSAGE_SIZE") (pos 8192))
      (parse_duration_into parse_duration env (text "CONNECTION_MAX_LIFETIME")
        (pos (12 * 3600 * second)))
      (parse_duration_into parse_duration env (text "PING_INTERVAL") (pos (30 * second)))
      (parse_duration_into parse_duration env (text "PONG_TIMEOUT") (pos (60 * second)))
      (parse_duration_into parse_duration env (text "AUTH_TIMEOUT") (pos (5 * second)))
      (parse_log_level_into env (text "LOG_LEVEL") level_info)

abbrev pub required_names : List Bytes
required_names = text "REDIS_URL" ∷ text "DJANGO_AUTH_URL" ∷ text "INTERNAL_AUTH_SECRET" ∷ []

unfoldable pub check_secret : Env → Loading (Unit {0})
check_secret env =
    if ltb (length (env (text "INTERNAL_AUTH_SECRET"))) min_secret_length
    then failed short_secret
    else loaded tt

unfoldable pub load : (Bytes → Option ℤ) → Env → Loading Config
unfolding check_required check_secret load_rest
load parse_duration env = do
  present ← check_required env required_names
  long_enough ← check_secret env
  load_rest parse_duration env
