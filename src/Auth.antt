-- ===== src/Auth.antt =====
-- gateway/auth.go: the call of Django's /internal/ws-auth/. The HTTP client and the JSON decoder are
-- parameters; logging, and the hash of the session that only the log prints, are left out.
use django_websocket_gateway.Common.{
  ℕ, ◌*◌, ◌≤◌, ◌<◌, List, Bytes, Option, none, some, Bool, true, not, ◌≡◌, ◌≢◌, ◌||◌, ◌==◌, nat_eq,
  ltb, leb, if◌then◌else◌, arith, Bool-cases, Option-cases, inl, inr,
}
use django_websocket_gateway.Common.Int.{ℤ, pos, is_positive}
use django_websocket_gateway.Config.{Config}

pub record AuthResult : Type 0 where
  pub user_id : ℤ
  pub username : Bytes
  pub allowed_channels : List Bytes
  pub session_key : Bytes

pub record AuthResponse : Type 0 where
  pub authenticated : Bool
  pub user_id : ℤ
  pub username : Bytes
  pub allowed_channels : List Bytes

-- `ErrUnauthenticated` and `ErrAuthFailed`, with the text that is wrapped left out.
pub data AuthError : Type 0 where
  unauthenticated auth_failed : AuthError

pub data Validated : Type 0 where
  valid : AuthResult → Validated
  refused : AuthError → Validated

-- The headers `X-Internal-Auth` and `X-Forwarded-Session`, which change from call to call.
pub record AuthRequest : Type 0 where
  pub url : Bytes
  pub internal_auth : Bytes
  pub forwarded_session : Bytes

-- `body n` is what `io.ReadAll(io.LimitReader(resp.Body, n))` returns; `none` is an error.
pub record Answer : Type 0 where
  pub status_code : ℕ
  pub body : ℕ → Option Bytes

-- `http.NewRequestWithContext` fails on some URLs, and `httpClient.Do` returns an answer in time or
-- an error; the first argument of `do_request` is the timeout of the client.
pub record HttpClient : Type 0 where
  pub accepts_url : Bytes → Bool
  pub do_request : ℤ → AuthRequest → Option Answer

pub record Authenticator : Type 0 where
  pub timeout : ℤ
  pub url : Bytes
  pub secret : Bytes

-- Five seconds in place of a timeout that is not positive.
unfoldable pub new_authenticator : Config → Authenticator
new_authenticator cfg = record {
  timeout = if not (is_positive cfg.auth_timeout) then pos 5000000000 else cfg.auth_timeout;
  url = cfg.django_auth_url;
  secret = cfg.internal_auth_secret;
}

abbrev pub max_body : ℕ
max_body = 64 * 1024

-- `json.Unmarshal(body, &parsed)` and what follows it.
unfoldable pub judge_response : Bytes → Option AuthResponse → Validated
judge_response session_id none = refused auth_failed
judge_response session_id (some parsed) =
    if not parsed.authenticated
    then refused unauthenticated
    else valid (record {
      user_id = parsed.user_id;
      username = parsed.username;
      allowed_channels = parsed.allowed_channels;
      session_key = session_id;
    })

-- The tests of `resp.StatusCode`, after the body was read.
unfoldable pub judge_answer : (Bytes → Option AuthResponse) → Bytes → ℕ → Option Bytes → Validated
unfolding judge_response
judge_answer unmarshal session_id status none = refused auth_failed
judge_answer unmarshal session_id status (some body) =
    if status == 401
    then refused unauthenticated
    else if leb 500 status || ltb status 200
    then refused auth_failed
    else judge_response session_id (unmarshal body)

abbrev pub auth_request : Authenticator → Bytes → AuthRequest
auth_request a session_id = record {
  url = a.url;
  internal_auth = a.secret;
  forwarded_session = session_id;
}

unfoldable pub validate :
    HttpClient → (Bytes → Option AuthResponse) → Authenticator → Bytes → Validated
unfolding judge_answer
validate http unmarshal a session_id =
    if not (http.accepts_url a.url)
    then refused auth_failed
    else elim (http.do_request a.timeout (auth_request a session_id)) [
      | none ↦ refused auth_failed
      | some answer ↦ judge_answer unmarshal session_id answer.status_code (answer.body max_body)
    ]

-- What an answer must be for a session to be valid.
pub record Vouches (unmarshal : Bytes → Option AuthResponse) (answer : Answer) (r : AuthResult)
    : Type 0 where
  pub body : Bytes
  pub parsed : AuthResponse
  pub read : answer.body max_body ≡ some body
  pub decoded : unmarshal body ≡ some parsed
  pub authenticated : parsed.authenticated ≡ true
  pub not_unauthorized : answer.status_code ≢ 401
  pub at_least : 200 ≤ answer.status_code
  pub below : answer.status_code < 500
  pub user_id : r.user_id ≡ parsed.user_id
  pub allowed_channels : r.allowed_channels ≡ parsed.allowed_channels

judge_response-valid :
    (session_id : Bytes) (parsed : AuthResponse) (r : AuthResult)
    → judge_response session_id (some parsed) ≡ valid r
    → (parsed.authenticated ≡ true)
      × (r.user_id ≡ parsed.user_id)
      × (r.allowed_channels ≡ parsed.allowed_channels)
      × (r.session_key ≡ session_id)
unfolding judge_response
judge_response-valid session_id parsed r h = elim (Bool-cases parsed.authenticated) [
  | inl known ↦ let same = (rw known at h) in ground (arith, same)
  | inr unknown ↦ let same = (rw unknown at h) in cc same
]

judge_status-valid :
    (unmarshal : Bytes → Option AuthResponse) (session_id : Bytes) (status : ℕ) (body : Bytes)
    (r : AuthResult)
    → judge_answer unmarshal session_id status (some body) ≡ valid r
    → (judge_response session_id (unmarshal body) ≡ valid r)
      × (status ≢ 401)
      × (200 ≤ status)
      × (status < 500)
unfolding judge_answer
judge_status-valid unmarshal session_id status body r h = elim (Bool-cases (status == 401)) [
  | inl rejected ↦ let h' = (rw rejected at h) in cc h'
  | inr other ↦ elim (Bool-cases (leb 500 status || ltb status 200)) [
    | inl outside ↦ let h' = (rw (other, outside) at h) in cc h'
    | inr inside ↦ ((rw (other, inside) at h), λ e. ground (arith, e), ground arith, ground arith)
  ]
]

judge_answer-Vouches :
    (unmarshal : Bytes → Option AuthResponse) (session_id : Bytes) (answer : Answer)
    (r : AuthResult)
    → judge_answer unmarshal session_id answer.status_code (answer.body max_body) ≡ valid r
    → Vouches unmarshal answer r × (r.session_key ≡ session_id)
unfolding judge_answer
judge_answer-Vouches unmarshal session_id answer r h = elim (Option-cases (answer.body max_body)) [
  | inl unread ↦ let h' = (rw unread at h) in cc h'
  | inr (body, read) ↦
      let h' = (rw read at h) in
      let (passed, status, low, high) =
        judge_status-valid unmarshal session_id answer.status_code body r h' in
      elim (Option-cases (unmarshal body)) [
        | inl malformed ↦ let h'' = (rw malformed at passed) in cc h''
        | inr (parsed, decoded) ↦
            let (authenticated, user_id, allowed_channels, key) =
              judge_response-valid session_id parsed r (rw decoded at passed) in
            (
              record {
                body = body;
                parsed = parsed;
                read = read;
                decoded = decoded;
                authenticated = authenticated;
                not_unauthorized = status;
                at_least = low;
                below = high;
                user_id = user_id;
                allowed_channels = allowed_channels;
              },
              key,
            )
      ]
]

-- A session is valid only if Django answered the request that carries the secret and the session,
-- with a status from 200 to 499 that is not 401 and a body of which the first 64 KiB decode to an
-- authenticated user. The user and the channels are those of the answer, and the session key is the
-- one that was asked about.
pub validate-Vouches :
    (http : HttpClient) (unmarshal : Bytes → Option AuthResponse) (a : Authenticator)
    (session_id : Bytes) (r : AuthResult)
    → validate http unmarshal a session_id ≡ valid r
    → (answer : Answer) × (http.do_request a.timeout (auth_request a session_id) ≡ some answer)
      × Vouches unmarshal answer r
      × (r.session_key ≡ session_id)
unfolding validate
validate-Vouches http unmarshal a session_id r h = elim (Bool-cases (http.accepts_url a.url)) [
  | inl built ↦
      let h' = (rw built at h) in
      elim (Option-cases (http.do_request a.timeout (auth_request a session_id))) [
        | inl lost ↦ let h'' = (rw lost at h') in cc h''
        | inr (answer, came) ↦
            let (vouches, key) =
              judge_answer-Vouches unmarshal session_id answer r (rw came at h') in
            (answer, came, vouches, key)
      ]
  | inr unbuilt ↦ let h' = (rw unbuilt at h) in cc h'
]
