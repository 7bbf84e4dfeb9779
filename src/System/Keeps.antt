-- ===== src/System/Keeps.antt =====
-- What every schedule keeps: the changes that the moves come to, and a predicate that each of them keeps.
pub mod Steps
use django_websocket_gateway.Common.{
  ℕ, List, [], ◌∷◌, Bytes, bytes_eq, nat_eq, text, Option, none, some, Bool, true, false, ◌≡◌, ◌⊎◌,
  ◌&&◌, refl, inl, inr, arith, ◌==◌, if◌then◌else◌, Bool-cases, Option-cases, All, Run, ok, panic,
  ◌>>=◌,
}
use django_websocket_gateway.Common.Int.{ℤ}
use django_websocket_gateway.Common.Chan.{Chan, recv, has_room, push}
use django_websocket_gateway.Client.{Ptr, DisconnectReason}
use django_websocket_gateway.Manager.{ChannelManager}
use django_websocket_gateway.Json.{Json, ClientFrame}
use django_websocket_gateway.Pump.{
  Wake, cancelled, lifetime_over, tick, frame, signalled, send_closed,
}
use django_websocket_gateway.Hub.State.{
  Hub, Event, register, unregister, subscribe, unsubscribe, incoming, store,
}
use django_websocket_gateway.Hub.Handlers.{handle}
use django_websocket_gateway.System.Takes.{take-cases}
use django_websocket_gateway.System.{
  System, Move, accept, post_register, read_frame, stop_reading, take_frame, take_disconnect,
  pump_cancelled, pump_expired, pump_tick, post_spawned, deliver, run_done, run_register,
  run_unregister, run_subscribe, run_unsubscribe, run_incoming, is_reading, is_accepted, is_pumping,
  if_pumping, set_phase, reading, done, after_round, drain_send, drain_disconnect, accept_client,
  post_registration, forward, read, stop, after_spawned, post_unregistration, without_first,
  receive, end_loop, put_hub, take, take_register, take_unregister, take_subscribe,
  take_unsubscribe, take_incoming, step, run,
}

-- The client whose `WritePump` the move is a round of, if it is one.
abbrev pub pump_of : Move → Option Ptr
pump_of (take_frame c fails) = some c
pump_of (take_disconnect c) = some c
pump_of (pump_cancelled c) = some c
pump_of (pump_expired c) = some c
pump_of (pump_tick c fails) = some c
pump_of _ = none

-- A round of the pump of `c` is one of these moves.
abbrev pub Mover : (Move → Type 0) → Ptr → Type 0
Mover Good c = (m : Move) × Good m × (pump_of m ≡ some c)

-- What the loop leaves alone when it takes a value from a Go channel.
abbrev pub Took : {M : Type 0} → System M → System M → Type 0
Took s u =
    (u.fresh ≡ s.fresh)
    × (u.counter ≡ s.counter)
    × (u.pumps ≡ s.pumps)
    × (u.written ≡ s.written)
    × (u.loop_ended ≡ s.loop_ended)
    × (u.ctx_done ≡ s.ctx_done)

module _ {M : Type 0} (ops : ChannelManager M) (json : Json) where
  -- `Good` is what the moves of the schedule are, `J` what is known of each state, and `P` what is kept.
  pub record Keeps (Good : Move → Type 0) (J P : System M → Type 0) : Type 0 where
    -- `wsHandler` and `ReadPump`
    pub accepts :
        (now : ℕ) (id : ℤ) (key : Bytes) (allowed : List Bytes) (s : System M)
        → Good (accept now id key allowed)
        → P s
        → P (accept_client now id key allowed s)
    pub registers :
        (c : Ptr) (s : System M)
        → P s
        → P (record s { register_chan = push c s.register_chan; phase = set_phase c reading s })
    pub subscribes :
        (x : Ptr × Bytes) (s : System M)
        → P s
        → P (record s { subscribe_chan = push x s.subscribe_chan })
    pub unsubscribes :
        (x : Ptr × Bytes) (s : System M)
        → P s
        → P (record s { unsubscribe_chan = push x s.unsubscribe_chan })
    pub unregisters :
        (c : Ptr) (s : System M)
        → P s
        → P (record s { unregister_chan = push c s.unregister_chan; phase = set_phase c done s })
    -- `WritePump`
    pub takes_frame :
        (c : Ptr) (rest : Chan Bytes) (s : System M)
        → P s
        → P (record s { hub = store c (record (s.hub.heap c) { send = rest }) s.hub })
    pub takes_signal :
        (c : Ptr) (rest : Chan DisconnectReason) (s : System M)
        → P s
        → P (record s { hub = store c (record (s.hub.heap c) { disconnect = rest }) s.hub })
    pub rounds :
        (c : Ptr) (w : Wake) (s : System M)
        → Mover Good c
        → is_pumping c s ≡ true
        → P s
        → P (after_round c w s)
    -- The goroutines of `deliverFrame`, and the Redis subscriber.
    pub spawned :
        (c : Ptr) (rest : List Ptr) (s : System M) → P s → P (after_spawned c (some rest) s)
    pub receives :
        (x : Bytes × Bytes) (s : System M)
        → P s
        → P (record s { incoming_chan = push x s.incoming_chan })
    -- `Hub.Run`
    pub ends : (s : System M) → P s → P (end_loop s)
    pub handles :
        (e : Event) (s u : System M) (h : Hub M)
        → s.loop_ended ≡ false
        → J s
        → P s
        → Took s u
        → handle ops json e s.hub ≡ ok h
        → P (record u { hub = h })
