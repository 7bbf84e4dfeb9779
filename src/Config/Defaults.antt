-- ===== src/Config/Defaults.antt =====
-- `Load` where only the required variables are set.
use django_websocket_gateway.Common.{
  ◌≤◌, List, [], ◌∷◌, Bytes, bytes_eq, nat_eq, text, Option, false, ◌==◌, ◌≡◌, ◌≢◌, refl, length,
  arith, ◌*◌, inl, inr, Bool-cases, list_beq, list_beq_iff, ◌∙◌, ap,
}
use django_websocket_gateway.Common.Int.{ℤ, pos}
use django_websocket_gateway.Config.{Config, LogLevel, level_info}
use django_websocket_gateway.Config.Load.{
  loaded, Env, min_secret_length, check_required, check_secret, load_origins, parse_int_into,
  parse_duration_into, parse_log_level_into, env_or_default, assemble, steps, load_rest, load,
  second, required_names,
}

-- The environment sets the required variables, and no other.
pub record OnlyRequired (env : Env) (origins : List Bytes) : Type 0 where
  pub redis_url : env (text "REDIS_URL") ≢ []
  pub django_auth_url : env (text "DJANGO_AUTH_URL") ≢ []
  pub secret : min_secret_length ≤ length (env (text "INTERNAL_AUTH_SECRET"))
  pub origins_ : load_origins (env (text "ALLOWED_ORIGINS")) ≡ loaded origins
  pub listen_addr : env (text "LISTEN_ADDR") ≡ []
  pub per_user : env (text "MAX_CONNECTIONS_PER_USER") ≡ []
  pub total : env (text "MAX_CONNECTIONS_TOTAL") ≡ []
  pub size : env (text "MAX_MESSAGE_SIZE") ≡ []
  pub lifetime : env (text "CONNECTION_MAX_LIFETIME") ≡ []
  pub ping : env (text "PING_INTERVAL") ≡ []
  pub pong : env (text "PONG_TIMEOUT") ≡ []
  pub auth : env (text "AUTH_TIMEOUT") ≡ []
  pub level : env (text "LOG_LEVEL") ≡ []

-- The defaults: port 8080, 10 connections a user, 50000 in all, 8192 bytes a message, 12 hours, 30, 60
-- and 5 seconds, and the level info.
abbrev pub defaults : Env → List Bytes → Config
defaults env origins = record {
  listen_addr = text ":8080";
  redis_url = env (text "REDIS_URL");
  django_auth_url = env (text "DJANGO_AUTH_URL");
  internal_auth_secret = env (text "INTERNAL_AUTH_SECRET");
  allowed_origins = origins;
  max_connections_per_user = pos 10;
  max_connections_total = pos 50000;
  max_message_size = pos 8192;
  connection_max_lifetime = pos (12 * 3600 * second);
  ping_interval = pos (30 * second);
  pong_timeout = pos (60 * second);
  log_level = level_info;
  auth_timeout = pos (5 * second);
}

int_unset :
    (env : Env) (name : Bytes) (d : ℤ) → env name ≡ [] → parse_int_into env name d ≡ loaded d
unfolding parse_int_into list_beq
int_unset env name d e = rw e refl

duration_unset :
    (pd : Bytes → Option ℤ) (env : Env) (name : Bytes) (d : ℤ)
    → env name ≡ []
    → parse_duration_into pd env name d ≡ loaded d
unfolding parse_duration_into list_beq
duration_unset pd env name d e = rw e refl

level_unset :
    (env : Env) (name : Bytes) (d : LogLevel)
    → env name ≡ []
    → parse_log_level_into env name d ≡ loaded d
unfolding parse_log_level_into list_beq
level_unset env name d e = rw e refl

address_unset :
    (env : Env) (name fallback : Bytes)
    → env name ≡ []
    → env_or_default env name fallback ≡ fallback
unfolding env_or_default list_beq
address_unset env name fallback e = rw e refl

set_test : (s : Bytes) → s ≢ [] → (s == []) ≡ false
set_test s n = elim (Bool-cases (s == [])) [
  | inl e ↦ absurd (n ((list_beq_iff s []).0 e))
  | inr e ↦ e
]

secret_there : (s : Bytes) → min_secret_length ≤ length s → (s == []) ≡ false
unfolding list_beq
secret_there [] h = absurd (omega arith)
secret_there (b ∷ s) h = refl

module _ (parse_duration : Bytes → Option ℤ) (env : Env) (origins : List Bytes)
    (only : OnlyRequired env origins) where
  required_there : check_required env required_names ≡ loaded tt
  unfolding check_required
  required_there =
      rw
        (
          set_test (env (text "REDIS_URL")) only.redis_url,
          set_test (env (text "DJANGO_AUTH_URL")) only.django_auth_url,
          secret_there (env (text "INTERNAL_AUTH_SECRET")) only.secret,
        )
        refl

  secret_long : check_secret env ≡ loaded tt
  unfolding check_secret
  secret_long = ground (arith, only.secret)

  assemble-defaults :
      assemble env origins
        (pos 10)
        (pos 50000)
        (pos 8192)
        (pos (12 * 3600 * second))
        (pos (30 * second))
        (pos (60 * second))
        level_info
        (pos (5 * second))
      ≡ defaults env origins
  unfolding assemble
  assemble-defaults =
      rw (address_unset env (text "LISTEN_ADDR") (text ":8080") only.listen_addr) refl

  load_rest-defaults : load_rest parse_duration env ≡ loaded (defaults env origins)
  unfolding load_rest
  load_rest-defaults =
      (λ i.
        steps env (only.origins_ i) (int_unset env _ (pos 10) only.per_user i)
          (int_unset env _ (pos 50000) only.total i) (int_unset env _ (pos 8192) only.size i)
          (duration_unset parse_duration env _ (pos (12 * 3600 * second)) only.lifetime i)
          (duration_unset parse_duration env _ (pos (30 * second)) only.ping i)
          (duration_unset parse_duration env _ (pos (60 * second)) only.pong i)
          (duration_unset parse_duration env _ (pos (5 * second)) only.auth i)
          (level_unset env _ level_info only.level i))
      ∙ ap loaded assemble-defaults

  -- Where the required variables are set and no other, the secret has 32 bytes at least, and the
  -- origins are read, the configuration is loaded with the default of every option.
  pub load-defaults : load parse_duration env ≡ loaded (defaults env origins)
  unfolding load
  load-defaults = rw (required_there, secret_long) load_rest-defaults
