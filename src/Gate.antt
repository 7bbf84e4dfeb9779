-- ===== src/Gate.antt =====
-- gateway/main.go and gateway/health.go: who is let in. `wsHandler` up to the handshake, the origin
-- patterns, and the answer of `/healthz`.
use django_websocket_gateway.Common.{
  List, [], ◌∷◌, ◌++◌, map, Bytes, bytes_eq, nat_eq, text, Option, none, some, Bool, true, false,
  not, ◌≡◌, ◌≢◌, ◌⊎◌, ◌&&◌, ◌==◌, if◌then◌else◌, refl, arith, Bool-cases, inl, inr, list_beq_iff,
}
use django_websocket_gateway.Common.Set
use django_websocket_gateway.Config.{Config}
use django_websocket_gateway.Auth.{
  Authenticator, AuthResponse, AuthResult, HttpClient, Validated, valid, refused, validate,
}

-- What follows the first "://", if there is one.
unfoldable pub after_scheme : Bytes → Option Bytes
after_scheme [] = none
after_scheme (a ∷ s) =
    let later = after_scheme s in
    elim s [
      | [] ↦ later
      | b ∷ t ↦ elim t [
        | [] ↦ later
        | c ∷ host ↦ if a == b':' && b == b'/' && c == b'/' then some host else later
      ]
    ]

unfoldable pub origin_pattern : Bytes → Bytes
unfolding after_scheme
origin_pattern origin = elim (after_scheme origin) [ none ↦ origin | some host ↦ host ]

unfoldable pub origin_patterns_for : List Bytes → List Bytes
unfolding origin_pattern
origin_patterns_for origins = map origin_pattern origins

-- The parts of a request that the handler reads: the header `Origin`, empty if it is missing, and
-- the value of the cookie `sessionid`.
pub record WsRequest : Type 0 where
  pub origin : Bytes
  pub sessionid : Option Bytes

-- The answers of the handler; after `upgraded` it goes on with the connection.
pub data WsReply : Type 0 where
  origin_not_allowed no_session unauthenticated accept_failed : WsReply
  upgraded : AuthResult → WsReply

-- `websocket.Accept`, which is given the origin patterns.
unfoldable pub upgrade : (List Bytes → WsRequest → Bool) → Config → WsRequest → Validated → WsReply
unfolding origin_patterns_for
upgrade accepts cfg r (refused _) = unauthenticated
upgrade accepts cfg r (valid result) =
    if accepts (origin_patterns_for cfg.allowed_origins) r then upgraded result else accept_failed

-- The cookie, and the call of Django.
unfoldable pub authenticate :
    HttpClient
    → (Bytes → Option AuthResponse)
    → Authenticator
    → (List Bytes → WsRequest → Bool)
    → Config
    → WsRequest
    → Option Bytes
    → WsReply
unfolding validate upgrade
authenticate http unmarshal auth accepts cfg r none = no_session
authenticate http unmarshal auth accepts cfg r (some session) =
    if session == []
    then no_session
    else upgrade accepts cfg r (validate http unmarshal auth session)

unfoldable pub ws_handler :
    HttpClient
    → (Bytes → Option AuthResponse)
    → Authenticator
    → (List Bytes → WsRequest → Bool)
    → Config
    → WsRequest
    → WsReply
unfolding authenticate
ws_handler http unmarshal auth accepts cfg r =
    if not (r.origin == []) && not (Set.contains r.origin cfg.allowed_origins)
    then origin_not_allowed
    else authenticate http unmarshal auth accepts cfg r r.sessionid

-- The answer of `/healthz`, of `shuttingDown` and of the error of the PING.
pub data Health : Type 0 where
  ok_200 shutting_down_503 redis_unreachable_503 : Health

unfoldable pub healthz : Bool → Option Bytes → Health
healthz true err = shutting_down_503
healthz false (some err) = redis_unreachable_503
healthz false none = ok_200

-- The name of a scheme, which has no colon.
abbrev pub has_colon : Bytes → Bool
has_colon [] = false
has_colon (b ∷ bs) = if b == b':' then true else has_colon bs

after_scheme_lem :
    (scheme host : Bytes)
    → has_colon scheme ≡ false
    → after_scheme (scheme ++ text "://" ++ host) ≡ some host
unfolding after_scheme
after_scheme_lem [] host h = refl
after_scheme_lem (a ∷ []) host h = ground (arith, after_scheme_lem [] host)
after_scheme_lem (a ∷ b ∷ []) host h = ground (arith, after_scheme_lem (b ∷ []) host)
after_scheme_lem (a ∷ b ∷ c ∷ s) host h = ground (arith, after_scheme_lem (b ∷ c ∷ s) host)

-- Of an origin with a scheme, which has no colon, the pattern is what follows "://".
pub origin_pattern_lem :
    (scheme host : Bytes)
    → has_colon scheme ≡ false
    → origin_pattern (scheme ++ text "://" ++ host) ≡ host
unfolding origin_pattern
origin_pattern_lem scheme host h = rw (after_scheme_lem scheme host h, origin_pattern) refl

upgrade-valid :
    (accepts : List Bytes → WsRequest → Bool) (cfg : Config) (r : WsRequest) (result : AuthResult)
    (v : Validated)
    → upgrade accepts cfg r v ≡ upgraded result
    → v ≡ valid result
unfolding upgrade
upgrade-valid accepts cfg r result (refused e) h = cc h
upgrade-valid accepts cfg r result (valid known) h = ground arith

allowed_or_missing :
    (origin : Bytes) (allowed : List Bytes)
    → (not (origin == []) && not (Set.contains origin allowed)) ≡ false
    → (origin ≡ []) ⊎ (Set.contains origin allowed ≡ true)
allowed_or_missing origin allowed h = elim (Bool-cases (origin == [])) [
  | inl missing ↦ inl ((list_beq_iff origin []).0 missing)
  | inr there ↦ inr (ground arith)
]

authenticate-upgraded :
    (http : HttpClient) (unmarshal : Bytes → Option AuthResponse) (auth : Authenticator)
    (accepts : List Bytes → WsRequest → Bool) (cfg : Config) (r : WsRequest) (result : AuthResult)
    (cookie : Option Bytes)
    → authenticate http unmarshal auth accepts cfg r cookie ≡ upgraded result
    → (session : Bytes) × (cookie ≡ some session)
      × (session ≢ [])
      × (validate http unmarshal auth session ≡ valid result)
unfolding authenticate
authenticate-upgraded http unmarshal auth accepts cfg r result none h = cc h
authenticate-upgraded http unmarshal auth accepts cfg r result (some session) h =
    elim (Bool-cases (session == [])) [
      | inl empty ↦ let h' = (rw empty at h) in cc h'
      | inr there ↦ (
        session,
        refl,
        λ e. ground (arith, (list_beq_iff session []).1 e),
        upgrade-valid accepts cfg r result (validate http unmarshal auth session) (rw there at h),
      )
    ]

-- A connection is upgraded only if the origin is missing or allowed, the session cookie is not empty,
-- and Django has validated that very session, whose user, channels and key the connection then has.
pub ws_handler-upgraded :
    (http : HttpClient) (unmarshal : Bytes → Option AuthResponse) (auth : Authenticator)
    (accepts : List Bytes → WsRequest → Bool) (cfg : Config) (r : WsRequest) (result : AuthResult)
    → ws_handler http unmarshal auth accepts cfg r ≡ upgraded result
    → ((r.origin ≡ []) ⊎ (Set.contains r.origin cfg.allowed_origins ≡ true))
      × ((session : Bytes) × (r.sessionid ≡ some session)
          × (session ≢ [])
          × (validate http unmarshal auth session ≡ valid result))
unfolding ws_handler
ws_handler-upgraded http unmarshal auth accepts cfg r result h =
    elim (Bool-cases (not (r.origin == []) && not (Set.contains r.origin cfg.allowed_origins))) [
      | inl bad ↦ let h' = (rw bad at h) in cc h'
      | inr good ↦ (
        allowed_or_missing r.origin cfg.allowed_origins good,
        authenticate-upgraded http unmarshal auth accepts cfg r result r.sessionid (rw good at h),
      )
    ]
