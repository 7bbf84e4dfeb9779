-- ===== src/Tests/Serves.antt =====
-- The theorems of `Serve` and `System.Drained`: a connection that Django let in, and clients that wait for
-- the loop.
use mathlib.Core.List.{Memᴰ}
use django_websocket_gateway.Common.{
  List, [], ◌∷◌, Bytes, bytes_eq, nat_eq, text, some, false, true, ◌≡◌, ◌⊎◌, refl, subst, ok, All,
  Returns, list_beq, ◌<◌, arith,
}
use django_websocket_gateway.Common.Int.{pos, int_eq}
use django_websocket_gateway.Common.Set
use django_websocket_gateway.Common.Map
use django_websocket_gateway.Common.Decimal.{format_int}
use django_websocket_gateway.Auth.{new_authenticator, validate}
use django_websocket_gateway.Gate.{ws_handler}
use django_websocket_gateway.Redis.{manager}
use django_websocket_gateway.Hub.Queues.{IsError}
use django_websocket_gateway.System.{
  System, Move, accept, post_register, read_frame, take_frame, deliver, run_register, run_subscribe,
  run_incoming, init, run,
}
use django_websocket_gateway.System.Drained.{handle_all}
use django_websocket_gateway.System.Drained.Cases.{rounds, pending, AllTaken, run-drained}
use django_websocket_gateway.System.Invariant.{SystemInv}
use django_websocket_gateway.Serve.{serve, Served, Handshake, run-private}
use django_websocket_gateway.Tests.{small_config, short_json, list_session, Subscriber}
use django_websocket_gateway.Tests.Visits.{state_or, subscriber}
use django_websocket_gateway.Tests.Gates.{one_session, decode, django, any_origin, request}

abbrev later : List Move
later =
    post_register 0
    ∷ run_register
    ∷ read_frame 0 (text "+news")
    ∷ run_subscribe
    ∷ deliver (text "news") (text "hi")
    ∷ run_incoming
    ∷ take_frame 0 false
    ∷ []

abbrev welcome : List Move
welcome = accept 7 (pos 5) (text "k") (text "news" ∷ []) ∷ later

abbrev guests : System Subscriber
guests =
    state_or (run (manager list_session) short_json welcome (init small_config (some subscriber)))

after-guests :
    run (manager list_session) short_json welcome (init small_config (some subscriber)) ≡ ok guests
unfolding run init manager Map.get Set.contains Set.add Map.put list_beq format_int
after-guests = refl

guests_accepted : 0 < guests.fresh
unfolding run init manager Map.get Set.contains Set.add Map.put list_beq format_int
guests_accepted = omega arith

ada_served :
    serve one_session decode django any_origin small_config 7 request
    ≡ some (accept 7 (pos 5) (text "k") (text "news" ∷ []))
unfolding serve ws_handler validate new_authenticator list_beq Set.contains
ada_served = refl

-- The other moves accept nobody.
calm : All (Served one_session decode django any_origin small_config) later
calm = (
  λ now id key allowed e. cc e,
  (
    λ now id key allowed e. cc e,
    (
      λ now id key allowed e. cc e,
      (
        λ now id key allowed e. cc e,
        (
          λ now id key allowed e. cc e,
          (λ now id key allowed e. cc e, (λ now id key allowed e. cc e, tt)),
        ),
      ),
    ),
  ),
)

welcome-Served : All (Served one_session decode django any_origin small_config) welcome
welcome-Served = (
  λ now id key allowed e.
      let clock : 7 ≡ now = cc e in
      (
        request,
        subst
            (λ n.
              serve one_session decode django any_origin small_config n request
              ≡ some (accept 7 (pos 5) (text "k") (text "news" ∷ [])))
            clock ada_served,
      ),
  calm,
)

run-private_example :
    (allowed : List Bytes) × Handshake one_session decode django any_origin small_config
      (guests.hub.heap 0).user_id
      (guests.hub.heap 0).session_key
      allowed
    × ((ch : Bytes)
        → Set.contains ch (guests.hub.heap 0).allowed_channels ≡ Set.contains ch allowed)
    × All
        (λ f.
          IsError short_json f
          ⊎ ((ch : Bytes) × Memᴰ (deliver ch f) welcome × (Set.contains ch allowed ≡ true)))
        (guests.written 0)
run-private_example =
    run-private one_session decode django any_origin small_config (manager list_session) short_json
      (some subscriber) welcome welcome-Served after-guests 0 guests_accepted

-- Two clients wait for the loop, one of them with a request.
abbrev crowd_waiting : List Move
crowd_waiting =
    accept 7 (pos 5) (text "k") (text "news" ∷ [])
    ∷ post_register 0
    ∷ read_frame 0 (text "+news")
    ∷ accept 8 (pos 6) (text "k2") []
    ∷ post_register 1
    ∷ deliver (text "news") (text "hi")
    ∷ []

abbrev queue_up : System Subscriber
queue_up =
    state_or
      (run (manager list_session) short_json crowd_waiting (init small_config (some subscriber)))

after-queue_up :
    run (manager list_session) short_json crowd_waiting (init small_config (some subscriber))
    ≡ ok queue_up
unfolding run init manager Map.get Set.contains Set.add Map.put list_beq format_int
after-queue_up = refl

queue_up_running : queue_up.loop_ended ≡ false
unfolding run init manager Map.get Set.contains Set.add Map.put list_beq format_int
queue_up_running = refl

run-drained_example :
    Returns (run (manager list_session) short_json (rounds queue_up) queue_up) (λ t.
      (handle_all (manager list_session) short_json (pending queue_up) queue_up.hub ≡ ok t.hub)
      × AllTaken t
      × SystemInv t)
run-drained_example =
    run-drained (manager list_session) short_json small_config (some subscriber) crowd_waiting
      after-queue_up queue_up_running
