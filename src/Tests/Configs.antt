-- ===== src/Tests/Configs.antt =====
-- The theorems of `Config`, in an environment that sets the required variables only.
use django_websocket_gateway.Common.{
  List, [], ◌∷◌, Bytes, bytes_eq, nat_eq, text, Option, none, ◌≡◌, ◌==◌, refl, arith, if◌then◌else◌,
  list_beq, false,
}
use django_websocket_gateway.Common.Int.{ℤ}
use django_websocket_gateway.Config.Words.Laws.{join}
use django_websocket_gateway.Config.Load.{Env, loaded, load, load_origins}
use django_websocket_gateway.Config.Loaded.{IsLoaded, load-IsLoaded}
use django_websocket_gateway.Config.Secret.{error_of, Alike, load-secret_hidden}
use django_websocket_gateway.Config.Origins.{load_origins-join}
use django_websocket_gateway.Config.Defaults.{OnlyRequired, defaults, load-defaults}

abbrev no_duration : Bytes → Option ℤ
no_duration s = none

abbrev two_origins : List Bytes
two_origins = text "https://a" ∷ text "wss://b" ∷ []

-- The environment, by its secret.
abbrev shell : Bytes → Env
shell secret name =
    if name == text "INTERNAL_AUTH_SECRET"
    then secret
    else if name == text "REDIS_URL"
    then text "redis://r"
    else if name == text "DJANGO_AUTH_URL"
    then text "http://d"
    else if name == text "ALLOWED_ORIGINS"
    then join two_origins
    else []

abbrev first_env : Env
first_env = shell (text "0123456789abcdef0123456789abcdef")

abbrev second_env : Env
second_env = shell (text "fedcba9876543210fedcba9876543210")

load_origins-join_example : load_origins (join two_origins) ≡ loaded two_origins
load_origins-join_example =
    load_origins-join (text "https://a") (text "wss://b" ∷ []) (refl, (refl, tt)) (cc, (cc, tt))

first_OnlyRequired : OnlyRequired first_env two_origins
unfolding list_beq
first_OnlyRequired = record {
  redis_url = cc;
  django_auth_url = cc;
  secret = omega arith;
  origins_ = load_origins-join_example;
  listen_addr = refl;
  per_user = refl;
  total = refl;
  size = refl;
  lifetime = refl;
  ping = refl;
  pong = refl;
  auth = refl;
  level = refl;
}

first_env_loaded : load no_duration first_env ≡ loaded (defaults first_env two_origins)
first_env_loaded = load-defaults no_duration first_env two_origins first_OnlyRequired

load-IsLoaded_example : IsLoaded no_duration first_env (defaults first_env two_origins)
load-IsLoaded_example =
    load-IsLoaded no_duration first_env (defaults first_env two_origins) first_env_loaded

shell_other :
    (s t name : Bytes) → (name == text "INTERNAL_AUTH_SECRET") ≡ false → shell s name ≡ shell t name
shell_other s t name other = rw other refl

both_Alike : Alike first_env second_env
unfolding list_beq
both_Alike = record { others = λ name other. shell_other _ _ name other; secrets = refl }

load-secret_hidden_example :
    error_of (load no_duration first_env) ≡ error_of (load no_duration second_env)
load-secret_hidden_example = load-secret_hidden no_duration first_env second_env both_Alike
