-- ===== src/System.antt =====
-- The goroutines of the gateway around the hub, one move of one of them at a time: `wsHandler`
-- (gateway/main.go), `ReadPump` and `WritePump` (gateway/client.go), the read loop of the Redis
-- subscriber (gateway/redis.go), the goroutines of `deliverFrame`, and `Hub.Run` (gateway/hub.go).
-- A schedule is a list of moves. A goroutine that would block makes no move.
pub mod State
pub mod Invariant
pub mod Pumps
pub mod Takes
pub mod Keeps
pub mod Accepts
pub mod Steps
pub mod Safety
pub mod Wire
pub mod Subscriber
pub mod Identity
pub mod Limits
pub mod Trace
pub mod Flush
pub mod Stopped
pub mod Credentials
pub mod Drained
pub mod Pumped
pub mod Rounds
pub mod Revoked
use django_websocket_gateway.Common.{
  ℕ, ◌+◌, List, [], ◌∷◌, ◌++◌, Bytes, bytes_eq, nat_eq, text, Option, none, some, Bool, ◌&&◌, ◌==◌,
  if◌then◌else◌, Run, ok, panic, ◌>>=◌,
}
use mathlib.Core.Option
use django_websocket_gateway.Common.Int.{ℤ, pos}
use django_websocket_gateway.Common.Chan.{Chan, make, recv, has_room, push}
use django_websocket_gateway.Config.{Config}
use django_websocket_gateway.Client.{Ptr, Client, Counter, next, new_pump_client, allow_channels}
use django_websocket_gateway.Manager.{ChannelManager}
use django_websocket_gateway.Pump.{
  Wake, cancelled, lifetime_over, send_closed, signalled, frame, tick, Exit, waiting, wake_up,
  written_by,
}
use django_websocket_gateway.Json.{Json, ClientFrame}
use django_websocket_gateway.Hub.State.{
  Hub, Event, register, unregister, subscribe, unsubscribe, incoming, new_hub, store,
}
use django_websocket_gateway.Hub.Handlers.{handle}
pub use django_websocket_gateway.System.State.{
  Phase, absent, accepted, reading, done, is_accepted, has_pump, is_waiting, is_reading, System,
  Move, accept, post_register, read_frame, stop_reading, take_frame, take_disconnect,
  pump_cancelled, pump_expired, pump_tick, post_spawned, deliver, run_register, run_unregister,
  run_subscribe, run_unsubscribe, run_incoming, run_done,
}
unfoldable pub use django_websocket_gateway.System.State.{init, without_first}

module _ {M : Type 0} where
  abbrev pub set_phase : Ptr → Phase → System M → Ptr → Phase
  set_phase c p s q = if c == q then p else s.phase q

  unfoldable pub accept_client : ℕ → ℤ → Bytes → List Bytes → System M → System M
  unfolding store next new_pump_client allow_channels
  accept_client now user_id session_key allowed s = record s {
    hub =
        store s.fresh
          (allow_channels allowed
            (new_pump_client s.hub.cfg (next s.counter) now user_id session_key))
          s.hub;
    phase = set_phase s.fresh accepted s;
    fresh = s.fresh + 1;
    counter = next s.counter;
  }

  unfoldable pub post_registration : Ptr → System M → System M
  post_registration c s =
      if is_accepted (s.phase c) && has_room s.register_chan
      then record s { register_chan = push c s.register_chan; phase = set_phase c reading s }
      else s

  -- `switch frame.Action`
  unfoldable pub forward : Ptr → ClientFrame → System M → System M
  forward c request s =
      if request.action == text "subscribe"
      then (if has_room s.subscribe_chan
          then record s { subscribe_chan = push (c, request.channel) s.subscribe_chan }
          else s)
      else if request.action == text "unsubscribe"
      then (if has_room s.unsubscribe_chan
          then record s { unsubscribe_chan = push (c, request.channel) s.unsubscribe_chan }
          else s)
      else s

  unfoldable pub read : Json → Ptr → Bytes → System M → System M
  unfolding forward
  read json c bytes s =
      if is_reading (s.phase c)
      then elim (json.client_frame bytes) [ none ↦ s | some request ↦ forward c request s ]
      else s

  -- The deferred `c.hub.unregister <- c` of `ReadPump`.
  unfoldable pub stop : Ptr → System M → System M
  stop c s =
      if is_reading (s.phase c) && has_room s.unregister_chan
      then record s { unregister_chan = push c s.unregister_chan; phase = set_phase c done s }
      else s

  -- A round of `WritePump`, if it has begun and has not returned.
  abbrev pub is_pumping : Ptr → System M → Bool
  is_pumping c s = has_pump (s.phase c) && is_waiting (s.pumps c)

  unfoldable pub after_round : Ptr → Wake → System M → System M
  unfolding wake_up written_by
  after_round c w s = record s {
    pumps = λ p. if c == p then wake_up w else s.pumps p;
    written = λ p. if c == p then s.written p ++ written_by w else s.written p;
  }

  -- `case payload, ok := <-c.send`: the queue is drained before its end is seen.
  unfoldable pub drain_send : Ptr → Bool → System M → System M
  unfolding store after_round
  drain_send c fails s = elim (recv (s.hub.heap c).send) [
    | none ↦ if (s.hub.heap c).send.closed then after_round c send_closed s else s
    | some (payload, rest) ↦
        after_round c (frame payload fails)
          (record s { hub = store c (record (s.hub.heap c) { send = rest }) s.hub })
  ]

  -- `case d := <-c.disconnect`
  unfoldable pub drain_disconnect : Ptr → System M → System M
  unfolding store after_round
  drain_disconnect c s = elim (recv (s.hub.heap c).disconnect) [
    | none ↦ s
    | some (reason, rest) ↦
        after_round c (signalled reason)
          (record s { hub = store c (record (s.hub.heap c) { disconnect = rest }) s.hub })
  ]

  abbrev pub if_pumping : Ptr → System M → System M → System M
  if_pumping c t s = if is_pumping c s then t else s

  abbrev pub after_spawned : Ptr → Option (List Ptr) → System M → System M
  after_spawned c none s = s
  after_spawned c (some rest) s = record s {
    hub = record s.hub { spawned = rest };
    unregister_chan = push c s.unregister_chan;
  }

  unfoldable pub post_unregistration : Ptr → System M → System M
  unfolding without_first
  post_unregistration c s =
      if has_room s.unregister_chan then after_spawned c (without_first c s.hub.spawned) s else s

  unfoldable pub receive : Bytes → Bytes → System M → System M
  receive ch payload s =
      if has_room s.incoming_chan
      then record s { incoming_chan = push (ch, payload) s.incoming_chan }
      else s

  -- `case <-ctx.Done(): return`, which `select` may take once the context is done, as it may take any
  -- other case that is ready.
  unfoldable pub end_loop : System M → System M
  end_loop s = if s.ctx_done then record s { loop_ended = Bool.true } else s

  -- The hub after an event, put back.
  abbrev pub put_hub : System M → Run (Hub M) → Run (System M)
  put_hub s r = do h ← r; ok (record s { hub = h })

module _ {M : Type 0} (ops : ChannelManager M) (json : Json) where
  -- A case of the `select`: where its Go channel holds a value, the loop takes it out (`put` is the
  -- state with the rest) and handles the event. Once `Run` has returned nothing is taken.
  abbrev pub take_value :
      {A : Type 0}
      → Option (A × Chan A)
      → (Chan A → System M)
      → (A → Event)
      → System M
      → Run (System M)
  take_value none put event s = ok s
  take_value (some (x, rest)) put event s = put_hub (put rest) (handle ops json (event x) s.hub)

  unfoldable pub take :
      {A : Type 0} → Chan A → (Chan A → System M) → (A → Event) → System M → Run (System M)
  unfolding handle
  take q put event s = if s.loop_ended then ok s else take_value (recv q) put event s

  -- `case c := <-h.register: h.handleRegister(c)`, and the four other cases.
  unfoldable pub take_register : System M → Run (System M)
  unfolding take
  take_register s = take s.register_chan (λ rest. record s { register_chan = rest }) register s

  unfoldable pub take_unregister : System M → Run (System M)
  unfolding take
  take_unregister s =
      take s.unregister_chan (λ rest. record s { unregister_chan = rest }) unregister s

  unfoldable pub take_subscribe : System M → Run (System M)
  unfolding take
  take_subscribe s =
      take s.subscribe_chan (λ rest. record s { subscribe_chan = rest }) (λ p. subscribe p.0 p.1) s

  unfoldable pub take_unsubscribe : System M → Run (System M)
  unfolding take
  take_unsubscribe s =
      take s.unsubscribe_chan (λ rest. record s { unsubscribe_chan = rest })
        (λ p. unsubscribe p.0 p.1) s

  unfoldable pub take_incoming : System M → Run (System M)
  unfolding take
  take_incoming s =
      take s.incoming_chan (λ rest. record s { incoming_chan = rest }) (λ p. incoming p.0 p.1) s

  unfoldable pub step : Move → System M → Run (System M)
  unfolding accept_client post_registration read stop after_round drain_send drain_disconnect
      post_unregistration receive end_loop take_register take_unregister take_subscribe
      take_unsubscribe take_incoming
  step (accept now user_id session_key allowed) s =
      ok (accept_client now user_id session_key allowed s)
  step (post_register c) s = ok (post_registration c s)
  step (read_frame c bytes) s = ok (read json c bytes s)
  step (stop_reading c) s = ok (stop c s)
  step (take_frame c fails) s = ok (if_pumping c (drain_send c fails s) s)
  step (take_disconnect c) s = ok (if_pumping c (drain_disconnect c s) s)
  step (pump_cancelled c) s = ok (if_pumping c (after_round c cancelled s) s)
  step (pump_expired c) s = ok (if_pumping c (after_round c lifetime_over s) s)
  step (pump_tick c fails) s = ok (if_pumping c (after_round c (tick fails) s) s)
  step (post_spawned c) s = ok (post_unregistration c s)
  step (deliver ch payload) s = ok (receive ch payload s)
  step run_done s = ok (end_loop s)
  step run_register s = take_register s
  step run_unregister s = take_unregister s
  step run_subscribe s = take_subscribe s
  step run_unsubscribe s = take_unsubscribe s
  step run_incoming s = take_incoming s

  unfoldable pub run : List Move → System M → Run (System M)
  unfolding step
  run [] s = ok s
  run (m ∷ ms) s = do s' ← step m s; run ms s'
