-- ===== src/System/Keeps/Steps.antt =====
-- A predicate that the changes keep is kept by each move, and by a schedule.
use django_websocket_gateway.Common.{
  if_true_or, List, [], ◌∷◌, Bytes, bytes_eq, nat_eq, text, Option, none, some, Bool, true, false,
  ◌≡◌, ◌⊎◌, ◌&&◌, refl, inl, inr, ◌==◌, Bool-cases, Option-cases, All, Run, ok, panic,
}
use django_websocket_gateway.Common.Chan.{Chan, recv, has_room}
use django_websocket_gateway.Client.{Ptr}
use django_websocket_gateway.Manager.{ChannelManager}
use django_websocket_gateway.Json.{Json, ClientFrame}
use django_websocket_gateway.Pump.{cancelled, lifetime_over, tick, frame, signalled, send_closed}
use django_websocket_gateway.Hub.State.{
  Hub, Event, register, unregister, subscribe, unsubscribe, incoming, store,
}
use django_websocket_gateway.Hub.Handlers.{handle}
use django_websocket_gateway.System.Takes.{take-cases}
use django_websocket_gateway.System.{
  System, Move, accept, post_register, read_frame, stop_reading, take_frame, take_disconnect,
  pump_cancelled, pump_expired, pump_tick, post_spawned, deliver, run_done, run_register,
  run_unregister, run_subscribe, run_unsubscribe, run_incoming, is_reading, is_accepted, is_pumping,
  if_pumping, after_round, drain_send, drain_disconnect, accept_client, post_registration, forward,
  read, stop, after_spawned, post_unregistration, without_first, receive, end_loop, put_hub, take,
  take_register, take_unregister, take_subscribe, take_unsubscribe, take_incoming, step, run,
}
use django_websocket_gateway.System.Keeps.{Keeps, Took, Mover}

pub Run-cases {ℓ} : {A : Type ℓ} (r : Run A) → ((a : A) × (r ≡ ok a)) ⊎ (r ≡ panic)
Run-cases (ok a) = inl (a, refl)
Run-cases panic = inr refl

module _ {M : Type 0} (ops : ChannelManager M) (json : Json) (Good : Move → Type 0)
    (J P : System M → Type 0) (keeps : Keeps ops json Good J P) where
  ok-kept : (u t : System M) → P u → ok u ≡ ok t → P t
  ok-kept u t v e = let here : u ≡ t = cc e in rw here at v

  if_pumping-kept :
      (c : Ptr) (s t : System M) → P s → (is_pumping c s ≡ true → P t) → P (if_pumping c t s)
  if_pumping-kept c s t v f = if_true_or P (is_pumping c s) f v

  drain_send-kept :
      (c : Ptr) (fails : Bool) (s : System M)
      → Mover Good c
      → P s
      → is_pumping c s ≡ true
      → P (drain_send c fails s)
  unfolding drain_send
  drain_send-kept c fails s g v on = elim (Option-cases (recv (s.hub.heap c).send)) [
    | inl e ↦
        rw (e, drain_send)
          (if_true_or P (s.hub.heap c).send.closed (λ _. keeps.rounds c send_closed s g on v) v)
    | inr ((payload, rest), e) ↦
        rw (e, drain_send)
          (keeps.rounds c (frame payload fails)
            (record s { hub = store c (record (s.hub.heap c) { send = rest }) s.hub }) g on
            (keeps.takes_frame c rest s v))
  ]

  drain_disconnect-kept :
      (c : Ptr) (s : System M)
      → Mover Good c
      → P s
      → is_pumping c s ≡ true
      → P (drain_disconnect c s)
  unfolding drain_disconnect
  drain_disconnect-kept c s g v on = elim (Option-cases (recv (s.hub.heap c).disconnect)) [
    | inl e ↦ rw (e, drain_disconnect) v
    | inr ((reason, rest), e) ↦
        rw (e, drain_disconnect)
          (keeps.rounds c (signalled reason)
            (record s { hub = store c (record (s.hub.heap c) { disconnect = rest }) s.hub }) g on
            (keeps.takes_signal c rest s v))
  ]

  forward-kept : (c : Ptr) (request : ClientFrame) (s : System M) → P s → P (forward c request s)
  unfolding forward
  forward-kept c request s v =
      if_true_or P (request.action == text "subscribe")
        (λ _.
          if_true_or P (has_room s.subscribe_chan) (λ _. keeps.subscribes (c, request.channel) s v)
            v)
        (if_true_or P (request.action == text "unsubscribe")
          (λ _.
            if_true_or P (has_room s.unsubscribe_chan)
              (λ _. keeps.unsubscribes (c, request.channel) s v) v)
          v)

  read-kept : (c : Ptr) (bytes : Bytes) (s : System M) → P s → P (read json c bytes s)
  unfolding read
  read-kept c bytes s v = elim (Bool-cases (is_reading (s.phase c))) [
    | inl on ↦ rw on (elim (Option-cases (json.client_frame bytes)) [
      | inl bad ↦ rw bad v
      | inr (request, good) ↦ rw good (forward-kept c request s v)
    ])
    | inr off ↦ rw off v
  ]

  after_spawned-kept :
      (c : Ptr) (o : Option (List Ptr)) (s : System M) → P s → P (after_spawned c o s)
  after_spawned-kept c none s v = v
  after_spawned-kept c (some rest) s v = keeps.spawned c rest s v

  put_hub-kept :
      (e : Event) (s u t : System M)
      → s.loop_ended ≡ false
      → J s
      → P s
      → Took s u
      → (r : Run (Hub M)) → handle ops json e s.hub ≡ r
      → put_hub u r ≡ ok t
      → P t
  put_hub-kept e s u t on j v took (ok h) there back =
      let here : record u { hub = h } ≡ t = cc back in
      rw (← here) (keeps.handles e s u h on j v took there)
  put_hub-kept e s u t on j v took panic there back = cc back

  take-kept :
      {A : Type 0} (q : Chan A) (put : Chan A → System M) (event : A → Event) (s t : System M)
      → J s
      → P s
      → ((rest : Chan A) → Took s (put rest))
      → take ops json q put event s ≡ ok t
      → P t
  take-kept q put event s t j v k h = elim (take-cases ops json q put event s) [
    | inl e ↦ ok-kept s t v (rw e at h)
    | inr (x, rest, on, _, e) ↦
        put_hub-kept (event x) s (put rest) t on j v (k rest) (handle ops json (event x) s.hub) refl
          (rw e at h)
  ]

  pub step-kept : (m : Move) (s t : System M) → Good m → J s → P s → step ops json m s ≡ ok t → P t
  unfolding step post_registration stop post_unregistration receive take_register take_unregister
      take_subscribe take_unsubscribe take_incoming
  step-kept (accept now id key allowed) s t g j v e =
      ok-kept (accept_client now id key allowed s) t (keeps.accepts now id key allowed s g v) e
  step-kept (post_register c) s t g j v e =
      ok-kept (post_registration c s) t
        (if_true_or P (is_accepted (s.phase c) && has_room s.register_chan)
          (λ _. keeps.registers c s v) v)
        e
  step-kept (read_frame c bytes) s t g j v e =
      ok-kept (read json c bytes s) t (read-kept c bytes s v) e
  step-kept (stop_reading c) s t g j v e =
      ok-kept (stop c s) t
        (if_true_or P (is_reading (s.phase c) && has_room s.unregister_chan)
          (λ _. keeps.unregisters c s v) v)
        e
  step-kept (take_frame c fails) s t g j v e =
      ok-kept _ t
        (if_pumping-kept c s (drain_send c fails s) v
          (drain_send-kept c fails s (take_frame c fails, g, refl) v))
        e
  step-kept (take_disconnect c) s t g j v e =
      ok-kept _ t
        (if_pumping-kept c s (drain_disconnect c s) v
          (drain_disconnect-kept c s (take_disconnect c, g, refl) v))
        e
  step-kept (pump_cancelled c) s t g j v e =
      ok-kept _ t
        (if_pumping-kept c s (after_round c cancelled s) v
          (λ on. keeps.rounds c cancelled s (pump_cancelled c, g, refl) on v))
        e
  step-kept (pump_expired c) s t g j v e =
      ok-kept _ t
        (if_pumping-kept c s (after_round c lifetime_over s) v
          (λ on. keeps.rounds c lifetime_over s (pump_expired c, g, refl) on v))
        e
  step-kept (pump_tick c fails) s t g j v e =
      ok-kept _ t
        (if_pumping-kept c s (after_round c (tick fails) s) v
          (λ on. keeps.rounds c (tick fails) s (pump_tick c fails, g, refl) on v))
        e
  step-kept (post_spawned c) s t g j v e =
      ok-kept (post_unregistration c s) t
        (if_true_or P (has_room s.unregister_chan)
          (λ _. after_spawned-kept c (without_first c s.hub.spawned) s v) v)
        e
  step-kept (deliver ch payload) s t g j v e =
      ok-kept (receive ch payload s) t
        (if_true_or P (has_room s.incoming_chan) (λ _. keeps.receives (ch, payload) s v) v) e
  step-kept run_done s t g j v e = ok-kept (end_loop s) t (keeps.ends s v) e
  step-kept run_register s t g j v e =
      take-kept s.register_chan (λ rest. record s { register_chan = rest }) register s t j v
        (λ rest. (refl, refl, refl, refl, refl, refl)) e
  step-kept run_unregister s t g j v e =
      take-kept s.unregister_chan (λ rest. record s { unregister_chan = rest }) unregister s t j v
        (λ rest. (refl, refl, refl, refl, refl, refl)) e
  step-kept run_subscribe s t g j v e =
      take-kept s.subscribe_chan (λ rest. record s { subscribe_chan = rest })
        (λ p. subscribe p.0 p.1) s t j v (λ rest. (refl, refl, refl, refl, refl, refl)) e
  step-kept run_unsubscribe s t g j v e =
      take-kept s.unsubscribe_chan (λ rest. record s { unsubscribe_chan = rest })
        (λ p. unsubscribe p.0 p.1) s t j v (λ rest. (refl, refl, refl, refl, refl, refl)) e
  step-kept run_incoming s t g j v e =
      take-kept s.incoming_chan (λ rest. record s { incoming_chan = rest }) (λ p. incoming p.0 p.1)
        s t j v (λ rest. (refl, refl, refl, refl, refl, refl)) e

  pub run-kept :
      ((m : Move) (s t : System M) → J s → step ops json m s ≡ ok t → J t)
      → (ms : List Move) (s t : System M) → All Good ms
      → J s
      → P s
      → run ops json ms s ≡ ok t
      → P t
  unfolding run
  run-kept k [] s t g j v e = ok-kept s t v e
  run-kept k (m ∷ ms) s t (good, rest) j v e = elim (Run-cases (step ops json m s)) [
    | inl (u, there) ↦
        run-kept k ms u t rest (k m s u j there) (step-kept m s u good j v there)
          (rw (there, run) at e)
    | inr bad ↦ let h = (rw (bad, run) at e) in cc h
  ]

abbrev Always {ℓ} : {A : Type ℓ} → A → Type 0
Always x = Unit

All-Always {ℓ} : {A : Type ℓ} (xs : List A) → All Always xs
All-Always [] = tt
All-Always (x ∷ xs) = (tt, All-Always xs)

-- What is kept with nothing asked of the moves and the states.
abbrev pub KeepsAlways : {M : Type 0} → ChannelManager M → Json → (System M → Type 0) → Type 0
KeepsAlways ops json P = Keeps ops json Always Always P

pub run-always :
    {M : Type 0} (ops : ChannelManager M) (json : Json) (P : System M → Type 0)
    → KeepsAlways ops json P
    → (ms : List Move) (s t : System M) → P s
    → run ops json ms s ≡ ok t
    → P t
run-always ops json P keeps ms s t =
    run-kept ops json Always Always P keeps (λ m s t j e. tt) ms s t (All-Always ms) tt
