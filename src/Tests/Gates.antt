-- ===== src/Tests/Gates.antt =====
-- The theorems of `Auth` and `Gate`: Django knows one session.
use django_websocket_gateway.Common.{
  [], ◌∷◌, List, bytes_eq, nat_eq, text, Option, some, Bool, true, ◌≡◌, ◌≢◌, ◌⊎◌, ◌==◌,
  if◌then◌else◌, refl, Bytes, list_beq,
}
use django_websocket_gateway.Common.Int.{pos}
use django_websocket_gateway.Common.Set
use django_websocket_gateway.Auth.{
  AuthResponse, AuthResult, Answer, HttpClient, Authenticator, Vouches, valid, validate,
  auth_request, new_authenticator, validate-Vouches,
}
use django_websocket_gateway.Gate.{WsRequest, upgraded, ws_handler, ws_handler-upgraded}
use django_websocket_gateway.Tests.{small_config}

abbrev pub one_session : HttpClient
one_session = record {
  accepts_url = λ url. true;
  do_request = λ timeout r. some (record {
    status_code = if r.forwarded_session == text "k" then 200 else 401;
    body = λ n. some (text "5");
  });
}

abbrev pub decode : Bytes → Option AuthResponse
decode body = some (record {
  authenticated = true;
  user_id = pos 5;
  username = text "ada";
  allowed_channels = text "news" ∷ [];
})

abbrev ada : AuthResult
ada = record {
  user_id = pos 5;
  username = text "ada";
  allowed_channels = text "news" ∷ [];
  session_key = text "k";
}

abbrev pub django : Authenticator
django = new_authenticator small_config

abbrev pub any_origin : List Bytes → WsRequest → Bool
any_origin patterns r = true

abbrev pub request : WsRequest
request = record { origin = text "https://a"; sessionid = some (text "k") }

ada_known : validate one_session decode django (text "k") ≡ valid ada
unfolding validate new_authenticator list_beq
ada_known = refl

ada_let_in : ws_handler one_session decode django any_origin small_config request ≡ upgraded ada
unfolding ws_handler new_authenticator list_beq Set.contains
ada_let_in = refl

validate-Vouches_example :
    (answer : Answer) × (one_session.do_request django.timeout (auth_request django (text "k"))
      ≡ some answer)
    × Vouches decode answer ada
    × (ada.session_key ≡ text "k")
validate-Vouches_example = validate-Vouches one_session decode django (text "k") ada ada_known

ws_handler-upgraded_example :
    ((request.origin ≡ []) ⊎ (Set.contains request.origin small_config.allowed_origins ≡ true))
    × ((session : Bytes) × (request.sessionid ≡ some session)
        × (session ≢ [])
        × (validate one_session decode django session ≡ valid ada))
ws_handler-upgraded_example =
    ws_handler-upgraded one_session decode django any_origin small_config request ada ada_let_in
