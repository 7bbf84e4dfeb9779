-- ===== src/Config/Secret.antt =====
-- What an error of `Load` depends on.
use django_websocket_gateway.Common.{
  List, [], ◌∷◌, Bytes, bytes_eq, nat_eq, text, Option, none, some, false, ◌==◌, ◌≡◌, ◌∙◌, refl,
  length, list_beq, All, arith, ◌*◌,
}
use django_websocket_gateway.Common.Int.{ℤ, pos}
use django_websocket_gateway.Config.{LogLevel, level_info}
use django_websocket_gateway.Config.Load.{
  Loading, loaded, failed, ◌>>=◌, LoadError, Env, check_required, check_secret, load_origins,
  parse_int_into, parse_duration_into, parse_log_level_into, load_rest, load, second,
  required_names, steps,
}

abbrev secret_name : Bytes
secret_name = text "INTERNAL_AUTH_SECRET"

abbrev pub error_of {ℓ} : {A : Type ℓ} → Loading A → Option LoadError
error_of (loaded a) = none
error_of (failed e) = some e

-- Two continuations that fail alike.
error_of->>= {ℓ κ} :
    {A : Type ℓ} {B : Type κ} (m : Loading A) (f g : A → Loading B)
    → ((a : A) → error_of (f a) ≡ error_of (g a))
    → error_of (m >>= f) ≡ error_of (m >>= g)
error_of->>= (loaded a) f g h = h a
error_of->>= (failed e) f g h = refl

-- Two environments with the same variables, but for the secret, of which only the length is the same.
pub record Alike (env env' : Env) : Type 0 where
  pub others : (name : Bytes) → (name == text "INTERNAL_AUTH_SECRET") ≡ false → env name ≡ env' name
  pub secrets :
      length (env (text "INTERNAL_AUTH_SECRET")) ≡ length (env' (text "INTERNAL_AUTH_SECRET"))

empty_by_length : (s t : Bytes) → length s ≡ length t → (s == []) ≡ (t == [])
unfolding list_beq
empty_by_length [] [] h = refl
empty_by_length [] (b ∷ t) h = absurd (omega (arith, h))
empty_by_length (a ∷ s) [] h = absurd (omega (arith, h))
empty_by_length (a ∷ s) (b ∷ t) h = refl

module _ (parse_duration : Bytes → Option ℤ) (env env' : Env) (alike : Alike env env') where
  check_required-cong :
      (names : List Bytes)
      → All (λ name. (env name == []) ≡ (env' name == [])) names
      → check_required env names ≡ check_required env' names
  unfolding check_required
  check_required-cong [] h = refl
  check_required-cong (name ∷ names) (h, hs) = rw (h, check_required-cong names hs) refl

  other-Alike :
      (name : Bytes) → (name == secret_name) ≡ false → (env name == []) ≡ (env' name == [])
  other-Alike name other = rw (alike.others name other) refl

  check_required-Alike : check_required env required_names ≡ check_required env' required_names
  unfolding list_beq
  check_required-Alike = check_required-cong required_names (
    other-Alike (text "REDIS_URL") refl,
    (
      other-Alike (text "DJANGO_AUTH_URL") refl,
      (empty_by_length (env secret_name) (env' secret_name) alike.secrets, tt),
    ),
  )

  check_secret-Alike : check_secret env ≡ check_secret env'
  unfolding check_secret
  check_secret-Alike = rw alike.secrets refl

  int-Alike :
      (name : Bytes) (dest : ℤ)
      → (name == secret_name) ≡ false
      → parse_int_into env name dest ≡ parse_int_into env' name dest
  unfolding parse_int_into
  int-Alike name dest other = rw (alike.others name other) refl

  duration-Alike :
      (name : Bytes) (dest : ℤ)
      → (name == secret_name) ≡ false
      → parse_duration_into parse_duration env name dest
        ≡ parse_duration_into parse_duration env' name dest
  unfolding parse_duration_into
  duration-Alike name dest other = rw (alike.others name other) refl

  level-Alike :
      (name : Bytes) (dest : LogLevel)
      → (name == secret_name) ≡ false
      → parse_log_level_into env name dest ≡ parse_log_level_into env' name dest
  unfolding parse_log_level_into
  level-Alike name dest other = rw (alike.others name other) refl

  -- The nine steps fail alike, if each step does; the configurations may differ.
  steps-error_of :
      (origins : Loading (List Bytes)) (per_user total size lifetime ping pong auth : Loading ℤ)
      (level : Loading LogLevel)
      → error_of (steps env origins per_user total size lifetime ping pong auth level)
        ≡ error_of (steps env' origins per_user total size lifetime ping pong auth level)
  steps-error_of origins per_user total size lifetime ping pong auth level =
      error_of->>= origins _ _ λ a. error_of->>= per_user _ _ λ b. error_of->>= total _ _ λ c.
        error_of->>= size _ _ λ d. error_of->>= lifetime _ _ λ e. error_of->>= ping _ _ λ f.
          error_of->>= pong _ _ λ g. error_of->>= auth _ _ λ h. error_of->>= level _ _ λ i. refl

  load_rest-error_of :
      error_of (load_rest parse_duration env) ≡ error_of (load_rest parse_duration env')
  unfolding load_rest list_beq
  load_rest-error_of =
      steps-error_of (load_origins (env (text "ALLOWED_ORIGINS")))
        (parse_int_into env (text "MAX_CONNECTIONS_PER_USER") (pos 10))
        (parse_int_into env (text "MAX_CONNECTIONS_TOTAL") (pos 50000))
        (parse_int_into env (text "MAX_MESSAGE_SIZE") (pos 8192))
        (parse_duration_into parse_duration env (text "CONNECTION_MAX_LIFETIME")
          (pos (12 * 3600 * second)))
        (parse_duration_into parse_duration env (text "PING_INTERVAL") (pos (30 * second)))
        (parse_duration_into parse_duration env (text "PONG_TIMEOUT") (pos (60 * second)))
        (parse_duration_into parse_duration env (text "AUTH_TIMEOUT") (pos (5 * second)))
        (parse_log_level_into env (text "LOG_LEVEL") level_info)
      ∙ (λ i. error_of (
          steps env' (load_origins (alike.others (text "ALLOWED_ORIGINS") refl i))
            (int-Alike (text "MAX_CONNECTIONS_PER_USER") (pos 10) refl i)
            (int-Alike (text "MAX_CONNECTIONS_TOTAL") (pos 50000) refl i)
            (int-Alike (text "MAX_MESSAGE_SIZE") (pos 8192) refl i)
            (duration-Alike (text "CONNECTION_MAX_LIFETIME") (pos (12 * 3600 * second)) refl i)
            (duration-Alike (text "PING_INTERVAL") (pos (30 * second)) refl i)
            (duration-Alike (text "PONG_TIMEOUT") (pos (60 * second)) refl i)
            (duration-Alike (text "AUTH_TIMEOUT") (pos (5 * second)) refl i)
            (level-Alike (text "LOG_LEVEL") level_info refl i)))

-- Two runs of `Load` whose environments agree on every variable but the secret, and on the length of
-- the secret, end alike: both load a configuration, or both fail with the same error.
pub load-secret_hidden :
    (parse_duration : Bytes → Option ℤ) (env env' : Env)
    → Alike env env'
    → error_of (load parse_duration env) ≡ error_of (load parse_duration env')
unfolding load
load-secret_hidden pd env env' alike =
    error_of->>= (check_required env required_names) _ _
      (λ _. error_of->>= (check_secret env) _ _ λ _. load_rest-error_of pd env env' alike)
    ∙ (λ i. error_of (
        check_required-Alike pd env env' alike i >>= λ _.
        check_secret-Alike pd env env' alike i >>= λ _. load_rest pd env'))
