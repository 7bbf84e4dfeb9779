-- ===== src/Serve.antt =====
-- `wsHandler` of gateway/main.go as a whole: the handshake, and the client that it makes for the hub.
use mathlib.Core.List.{Memᴰ}
use django_websocket_gateway.Common.{
  ℕ, ◌<◌, List, [], Bytes, bytes_eq, nat_eq, Option, none, some, Bool, true, ◌≡◌, ◌≢◌, ◌⊎◌, ◌∙◌,
  sym, refl, inl, inr, All, ok,
}
use django_websocket_gateway.Common.Int.{ℤ}
use django_websocket_gateway.Common.Set
use django_websocket_gateway.Config.{Config}
use django_websocket_gateway.Client.{Ptr}
use django_websocket_gateway.Manager.{ChannelManager}
use django_websocket_gateway.Json.{Json}
use django_websocket_gateway.Auth.{
  Authenticator, AuthResponse, AuthResult, Answer, HttpClient, Vouches, auth_request,
  validate-Vouches,
}
use django_websocket_gateway.Gate.{
  WsRequest, WsReply, origin_not_allowed, no_session, unauthenticated, accept_failed, upgraded,
  ws_handler, ws_handler-upgraded,
}
use django_websocket_gateway.Hub.Queues.{IsError}
use django_websocket_gateway.System.{System, Move, accept, deliver, init, run}
use django_websocket_gateway.System.Trace.{All-mono}
use django_websocket_gateway.System.Trace.Result.{run-written}
use django_websocket_gateway.System.Credentials.{Shown, init-Vouched}

-- After the handshake a client is made, with the user, the session and the channels of the result.
unfoldable pub connect : ℕ → WsReply → Option Move
connect now (upgraded result) =
    some (accept now result.user_id result.session_key result.allowed_channels)
connect now origin_not_allowed = none
connect now no_session = none
connect now unauthenticated = none
connect now accept_failed = none

connect-upgraded :
    (now : ℕ) (reply : WsReply) (m : Move)
    → connect now reply ≡ some m
    → (result : AuthResult) × (reply ≡ upgraded result)
      × (m ≡ accept now result.user_id result.session_key result.allowed_channels)
unfolding connect
connect-upgraded now (upgraded result) m e = (result, refl, cc e)
connect-upgraded now origin_not_allowed m e = cc e
connect-upgraded now no_session m e = cc e
connect-upgraded now unauthenticated m e = cc e
connect-upgraded now accept_failed m e = cc e

module _ (http : HttpClient) (unmarshal : Bytes → Option AuthResponse) (auth : Authenticator)
    (accepts : List Bytes → WsRequest → Bool) (cfg : Config) where
  unfoldable pub serve : ℕ → WsRequest → Option Move
  unfolding ws_handler connect
  serve now r = connect now (ws_handler http unmarshal auth accepts cfg r)

  -- A request for whose session Django vouches, with this user and these channels.
  pub record Handshake (id : ℤ) (key : Bytes) (allowed : List Bytes) : Type 0 where
    pub request : WsRequest
    pub result : AuthResult
    pub origin : (request.origin ≡ []) ⊎ (Set.contains request.origin cfg.allowed_origins ≡ true)
    pub cookie : request.sessionid ≡ some key
    pub present : key ≢ []
    pub answer : Answer
    pub answered : http.do_request auth.timeout (auth_request auth key) ≡ some answer
    pub vouches : Vouches unmarshal answer result
    pub user : id ≡ result.user_id
    pub channels : allowed ≡ result.allowed_channels

  -- A connection of the schedule is one that `wsHandler` served.
  abbrev pub Served : Move → Type 0
  Served m =
      (now : ℕ) (id : ℤ) (key : Bytes) (allowed : List Bytes)
      → m ≡ accept now id key allowed
      → (r : WsRequest) × (serve now r ≡ some m)

  Served-Shown : (m : Move) → Served m → Shown Handshake m
  unfolding serve
  Served-Shown m served now id key allowed e =
      let (r, up) = served now id key allowed e in
      let (result, there, same) = connect-upgraded now _ m up in
      let (origin, (session, cookie, present, validated)) =
        ws_handler-upgraded http unmarshal auth accepts cfg r result there in
      let (answer, answered, vouches, own) =
        validate-Vouches http unmarshal auth session result validated in
      let made : accept now id key allowed
          ≡ accept now result.user_id result.session_key result.allowed_channels =
        sym e ∙ same in
      let asked : key ≡ session = (cc made) ∙ own in
      record {
        request = r;
        result = result;
        origin = origin;
        cookie = rw asked cookie;
        present = rw asked present;
        answer = answer;
        answered = rw asked answered;
        vouches = vouches;
        user = cc made;
        channels = cc made;
      }

  module _ {M : Type 0} (ops : ChannelManager M) (json : Json) where
    -- The requests that the clients stand for.
    run-vouched :
        (manager : Option M) (ms : List Move) {s : System M}
        → All Served ms
        → run ops json ms (init cfg manager) ≡ ok s
        → (c : Ptr) → c < s.fresh
        → (allowed : List Bytes) × Handshake
            (s.hub.heap c).user_id
            (s.hub.heap c).session_key
            allowed
          × ((ch : Bytes)
              → Set.contains ch (s.hub.heap c).allowed_channels ≡ Set.contains ch allowed)
    run-vouched manager ms served e =
        init-Vouched Handshake ops json cfg manager ms
          (All-mono Served (Shown Handshake) ms Served-Shown served) e

    -- Whatever the schedule, if its connections are those that `wsHandler` served, then each client stands for a
    -- request whose origin is missing or allowed and whose session cookie, not empty, is the client's session
    -- key. Django, asked about that very session, answered that it is authenticated, and the client has the
    -- user and the channels of the answer. What was written to its socket is only error frames and the payloads
    -- of messages that Redis sent on one of these channels.
    pub run-private :
        (manager : Option M) (ms : List Move) {s : System M}
        → All Served ms
        → run ops json ms (init cfg manager) ≡ ok s
        → (c : Ptr) → c < s.fresh
        → (allowed : List Bytes) × Handshake
            (s.hub.heap c).user_id
            (s.hub.heap c).session_key
            allowed
          × ((ch : Bytes)
              → Set.contains ch (s.hub.heap c).allowed_channels ≡ Set.contains ch allowed)
          × All
              (λ f.
                IsError json f
                ⊎ ((ch : Bytes) × Memᴰ (deliver ch f) ms × (Set.contains ch allowed ≡ true)))
              (s.written c)
    run-private manager ms {s} served e c lt =
        let (allowed, shown, same) = run-vouched manager ms served e c lt in
        (
          allowed,
          shown,
          same,
          All-mono _ _ (s.written c)
              (λ f. elim [
                | inl answer ↦ inl answer
                | inr (ch, sent, may) ↦ inr (ch, sent, sym (same ch) ∙ may)
              ])
              (run-written ops json cfg manager ms e c),
        )
