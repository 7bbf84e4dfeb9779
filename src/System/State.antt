-- ===== src/System/State.antt =====
-- The state of the gateway with its goroutines and Go channels, and the moves of a schedule.
use django_websocket_gateway.Common.{
  ℕ, List, [], ◌∷◌, Bytes, bytes_eq, nat_eq, Option, none, some, Bool, ◌==◌, if◌then◌else◌,
}
use mathlib.Core.Option
use django_websocket_gateway.Common.Int.{ℤ, pos}
use django_websocket_gateway.Common.Chan.{Chan, make}
use django_websocket_gateway.Config.{Config}
use django_websocket_gateway.Client.{Ptr, Counter, new_pump_client}
use django_websocket_gateway.Pump.{Exit, waiting}
use django_websocket_gateway.Hub.State.{Hub, new_hub}

-- Where the goroutine of a connection stands: not there yet, before `hub.register <- client`, in the
-- loop of `ReadPump`, or at its end.
pub data Phase : Type 0 where
  absent accepted reading done : Phase

abbrev pub is_accepted : Phase → Bool
is_accepted accepted = Bool.true
is_accepted _ = Bool.false

-- `WritePump` is started with `ReadPump` and may outlive it.
abbrev pub has_pump : Phase → Bool
has_pump reading = Bool.true
has_pump done = Bool.true
has_pump _ = Bool.false

abbrev pub is_waiting : Exit → Bool
is_waiting waiting = Bool.true
is_waiting _ = Bool.false

abbrev pub is_reading : Phase → Bool
is_reading reading = Bool.true
is_reading _ = Bool.false

pub record System (M : Type 0) : Type 0 where
  pub hub : Hub M
  -- The Go channels of the struct `Hub`.
  pub register_chan : Chan Ptr
  pub unregister_chan : Chan Ptr
  pub subscribe_chan : Chan (Ptr × Bytes)
  pub unsubscribe_chan : Chan (Ptr × Bytes)
  pub incoming_chan : Chan (Bytes × Bytes)
  -- The connections, and the next address for a client.
  pub phase : Ptr → Phase
  -- Where `WritePump` stands, and what it has written to the socket.
  pub pumps : Ptr → Exit
  pub written : Ptr → List Bytes
  pub fresh : Ptr
  pub counter : Counter
  -- Whether the context of `Hub.Run` is done, and whether `Hub.Run` has returned.
  pub ctx_done : Bool
  pub loop_ended : Bool

pub data Move : Type 0 where
  -- `wsHandler` past the handshake: the clock, and what `Validate` returned.
  accept : ℕ → ℤ → Bytes → List Bytes → Move
  -- `hub.register <- client`
  post_register : Ptr → Move
  -- A frame that `conn.Read` returned, and the end of `ReadPump`.
  read_frame : Ptr → Bytes → Move
  stop_reading : Ptr → Move
  -- `WritePump` takes a frame, and whether its write fails, or a disconnect signal; its context is
  -- cancelled, its lifetime is over, or its ticker ticks, and whether the ping fails.
  take_frame : Ptr → Bool → Move
  take_disconnect pump_cancelled pump_expired : Ptr → Move
  pump_tick : Ptr → Bool → Move
  -- A goroutine of `deliverFrame`, and a message from Redis.
  post_spawned : Ptr → Move
  deliver : Bytes → Bytes → Move
  -- The case of the `select` in `Hub.Run`; the first is `<-ctx.Done()`.
  run_done run_register run_unregister run_subscribe run_unsubscribe run_incoming : Move

-- The goroutines that are left when one of those of `c` has sent.
unfoldable pub without_first : Ptr → List Ptr → Option (List Ptr)
without_first c [] = none
without_first c (d ∷ ds) =
    if d == c then some ds else Option.map (λ rest. d ∷ rest) (without_first c ds)

module _ {M : Type 0} where
  -- `NewHub`, with its Go channels. An address that is not in use yet holds an empty client.
  unfoldable pub init : Config → Option M → System M
  unfolding new_hub new_pump_client
  init cfg manager = record {
    hub = new_hub cfg manager (λ _. new_pump_client cfg 0 0 (pos 0) []);
    register_chan = make 8;
    unregister_chan = make 8;
    subscribe_chan = make 32;
    unsubscribe_chan = make 32;
    incoming_chan = make 256;
    phase = λ _. absent;
    pumps = λ _. waiting;
    written = λ _. [];
    fresh = 0;
    counter = 0;
    ctx_done = Bool.false;
    loop_ended = Bool.false;
  }
