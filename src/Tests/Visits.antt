-- ===== src/Tests/Visits.antt =====
-- A schedule, and the gateway after it.
use django_websocket_gateway.Common.{
  List, [], ◌∷◌, bytes_eq, nat_eq, text, none, some, false, ◌≡◌, refl, Run, ok, panic, list_beq,
  Returns-value,
}
use django_websocket_gateway.Common.Int.{pos, int_eq}
use django_websocket_gateway.Common.Set
use django_websocket_gateway.Common.Decimal.{format_int}
use django_websocket_gateway.Common.Map
use django_websocket_gateway.Redis.{manager, new_redis_subscriber}
use django_websocket_gateway.Hub.State.{Hub}
use django_websocket_gateway.Hub.Invariant.{Inv}
use django_websocket_gateway.System.{
  System, init, run, accepted, Move, accept, post_register, read_frame, take_frame, deliver,
  run_register, run_subscribe, run_incoming, take_disconnect,
}
use django_websocket_gateway.System.Invariant.{SystemInv}
use django_websocket_gateway.System.Safety.{run-init-Inv}
use django_websocket_gateway.Tests.{small_config, short_json, list_session, Subscriber}

-- One client connects, joins "news", is sent a message and reads it; two more connect, one of them of
-- the same user.
abbrev pub visit : List Move
visit =
    accept 7 (pos 5) (text "k") (text "news" ∷ text "sport" ∷ [])
    ∷ post_register 0
    ∷ run_register
    ∷ read_frame 0 (text "+news")
    ∷ run_subscribe
    ∷ deliver (text "news") (text "hi")
    ∷ run_incoming
    ∷ take_frame 0 false
    ∷ accept 8 (pos 5) (text "k2") []
    ∷ accept 9 (pos 6) (text "k3") []
    ∷ []

abbrev pub subscriber : Subscriber
subscriber = record {
  pubsub = [];
  deliver = none;
  active_chans = [];
  closed = false;
  started = false;
  read_loops = 0;
}

pub subscriber_new : new_redis_subscriber list_session (text "redis://r") none ≡ some subscriber
unfolding new_redis_subscriber
subscriber_new = refl

abbrev pub after : Run (System Subscriber)
after = run (manager list_session) short_json visit (init small_config (some subscriber))

abbrev pub state_or : Run (System Subscriber) → System Subscriber
state_or (ok s) = s
state_or panic = init small_config none

abbrev pub visited : System Subscriber
visited = state_or after

abbrev pub lobby : Hub Subscriber
lobby = visited.hub

pub after-visited : after ≡ ok visited
unfolding run init manager Map.get Set.contains Set.add Map.put list_beq
after-visited = refl

pub visited-SystemInv : SystemInv visited
visited-SystemInv =
    Returns-value
      (run-init-Inv (manager list_session) short_json small_config (some subscriber) visit)
      after-visited

pub lobby-Inv : Inv lobby
lobby-Inv = visited-SystemInv.hub

pub visited_waiting : (accepted ≡ visited.phase 1) × (accepted ≡ visited.phase 2)
unfolding run init manager Map.get Set.contains Set.add Map.put list_beq
visited_waiting = (refl, refl)

-- Two clients connect and are registered; one of them joins "news".
abbrev pub crowd : List Move
crowd =
    accept 7 (pos 5) (text "k") (text "news" ∷ [])
    ∷ post_register 0
    ∷ run_register
    ∷ accept 8 (pos 6) (text "k2") []
    ∷ post_register 1
    ∷ run_register
    ∷ read_frame 0 (text "+news")
    ∷ run_subscribe
    ∷ []

abbrev pub crowded : System Subscriber
crowded =
    state_or (run (manager list_session) short_json crowd (init small_config (some subscriber)))

after-crowded :
    run (manager list_session) short_json crowd (init small_config (some subscriber)) ≡ ok crowded
unfolding run init manager Map.get Set.contains Set.add Map.put list_beq format_int
after-crowded = refl

pub crowded-Inv : Inv crowded.hub
crowded-Inv =
    let v =
      Returns-value
        (run-init-Inv (manager list_session) short_json small_config (some subscriber) crowd)
        after-crowded in
    v.hub

-- The session of the first client is revoked, and its pump closes the connection.
abbrev pub closing : List Move
closing =
    accept 7 (pos 5) (text "k") []
    ∷ post_register 0
    ∷ run_register
    ∷ deliver (text "_session:k") (text "revoke")
    ∷ run_incoming
    ∷ take_disconnect 0
    ∷ []

abbrev pub closed : System Subscriber
closed =
    state_or (run (manager list_session) short_json closing (init small_config (some subscriber)))

pub after-closed :
    run (manager list_session) short_json closing (init small_config (some subscriber)) ≡ ok closed
unfolding run init manager Map.get Set.contains Set.add Map.put list_beq format_int
after-closed = refl

-- A client waits for two frames.
abbrev pub queued : System Subscriber
queued = state_or (
    run (manager list_session) short_json
      (accept 7 (pos 5) (text "k") (text "news" ∷ [])
        ∷ post_register 0
        ∷ run_register
        ∷ read_frame 0 (text "+news")
        ∷ run_subscribe
        ∷ deliver (text "news") (text "hi")
        ∷ run_incoming
        ∷ deliver (text "news") (text "ho")
        ∷ run_incoming
        ∷ [])
      (init small_config (some subscriber)))
