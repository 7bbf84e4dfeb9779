-- ===== src/System/Rounds.antt =====
-- The rounds of `WritePump` that a schedule takes one at a time, and its loop as a whole
-- (gateway/client.go).
use django_websocket_gateway.Common.{
  ◌⊎◌, List, [], ◌∷◌, ◌++◌, Bytes, bytes_eq, nat_eq, Option, none, some, Bool, true, false, ◌≡◌,
  ◌≢◌, ◌∙◌, ap, refl, arith, inl, inr, ◌==◌, ◌&&◌, ==_refl, Bool-cases, Option-cases, ok, panic,
  append-nil, append_assoc, sym, if_true_or, if◌then◌else◌,
}
use django_websocket_gateway.Common.Chan.{Chan, recv}
use django_websocket_gateway.Config.{Config}
use django_websocket_gateway.Client.{Ptr, DisconnectReason}
use django_websocket_gateway.Manager.{ChannelManager}
use django_websocket_gateway.Json.{Json}
use django_websocket_gateway.Hub.State.{store}
use django_websocket_gateway.Pump.{
  Wake, cancelled, lifetime_over, send_closed, signalled, frame, tick, waiting, wake_up, written_by,
  write_pump,
}
use django_websocket_gateway.System.Pumped.{
  pumped, write_pump-append, write_pump-once, write_pump-ended, waits,
}
use django_websocket_gateway.System.Keeps.{Keeps, pump_of}
use django_websocket_gateway.System.Keeps.Steps.{Run-cases, step-kept}
use django_websocket_gateway.System.{
  System, Move, take_frame, take_disconnect, pump_cancelled, pump_expired, pump_tick, has_pump,
  is_waiting, if_pumping, after_round, drain_send, drain_disconnect, accept_client, end_loop, step,
  run, init,
}

abbrev from_send : Bool → Option (Bytes × Chan Bytes) → Bool → List Wake
from_send fails none closed = if closed then send_closed ∷ [] else []
from_send fails (some (payload, rest)) closed = frame payload fails ∷ []

abbrev from_disconnect : Option (DisconnectReason × Chan DisconnectReason) → List Wake
from_disconnect none = []
from_disconnect (some (d, rest)) = signalled d ∷ []

-- What a move of a pump wakes it up to: what its Go channel holds at this point, or what the move says.
abbrev woken : {M : Type 0} → Move → System M → List Wake
woken (take_frame c fails) s = from_send fails (recv (s.hub.heap c).send) (s.hub.heap c).send.closed
woken (take_disconnect c) s = from_disconnect (recv (s.hub.heap c).disconnect)
woken (pump_cancelled c) s = cancelled ∷ []
woken (pump_expired c) s = lifetime_over ∷ []
woken (pump_tick c fails) s = tick fails ∷ []
woken _ s = []

abbrev is_of : Ptr → Option Ptr → Bool
is_of c none = false
is_of c (some d) = c == d

abbrev woken_for : {M : Type 0} → Ptr → Move → System M → List Wake
woken_for c m s = if is_of c (pump_of m) && has_pump (s.phase c) then woken m s else []

is_of-cases :
    (c : Ptr) (o : Option Ptr)
    → ((o ≡ some c) × (is_of c o ≡ true)) ⊎ ((o ≢ some c) × (is_of c o ≡ false))
is_of-cases c none = inr (λ e. cc e, refl)
is_of-cases c (some d) = elim (Bool-cases (c == d)) [
  | inl same ↦ let here : c ≡ d = ground (arith, same) in inl (ap some (sym here), same)
  | inr other ↦ inr (λ e. let here : d ≡ c = cc e in cc (other, ==_refl c, here), other)
]

module _ {M : Type 0} where
  -- One more round, where the loop is in `select`.
  round-pumped :
      (c : Ptr) (w : Wake) (s : System M) (ws : List Wake)
      → write_pump ws ≡ pumped c s
      → is_waiting (s.pumps c) ≡ true
      → write_pump (ws ++ w ∷ []) ≡ pumped c (after_round c w s)
  unfolding after_round
  round-pumped c w s ws e on =
      let still : (write_pump ws).1 ≡ waiting = ap (λ p. p.1) e ∙ waits (s.pumps c) on in
      write_pump-append ws (w ∷ []) still
      ∙ ap (λ p. ((write_pump ws).0 ++ p.0, p.1)) (write_pump-once w)
      ∙ ap (λ p. (p.0 ++ written_by w, wake_up w)) e
      ∙ rw (==_refl c) refl

  nothing-pumped :
      (c : Ptr) (s : System M) (ws : List Wake)
      → write_pump ws ≡ pumped c s
      → write_pump (ws ++ []) ≡ pumped c s
  nothing-pumped c s ws e = ap write_pump (append-nil ws) ∙ e

  -- A move of the pump: nothing happens before it has begun and after it has returned.
  turn-pumped :
      (c : Ptr) (t s : System M) (ws xs : List Wake)
      → write_pump ws ≡ pumped c s
      → (is_waiting (s.pumps c) ≡ true → write_pump (ws ++ xs) ≡ pumped c t)
      → write_pump (ws ++ (if has_pump (s.phase c) then xs else [])) ≡ pumped c (if_pumping c t s)
  turn-pumped c t s ws xs e k = elim (Bool-cases (has_pump (s.phase c))) [
    | inr off ↦ rw off (nothing-pumped c s ws e)
    | inl on ↦ elim (Bool-cases (is_waiting (s.pumps c))) [
      | inl live ↦ rw on (rw live (k live))
      | inr over ↦ rw on (rw over (write_pump-ended ws xs (ap (λ p. is_waiting p.1) e ∙ over) ∙ e))
    ]
  ]

  drain_send-pumped :
      (c : Ptr) (fails : Bool) (s : System M) (ws : List Wake)
      → write_pump ws ≡ pumped c s
      → is_waiting (s.pumps c) ≡ true
      → write_pump (ws ++ woken (take_frame c fails) s) ≡ pumped c (drain_send c fails s)
  unfolding drain_send
  drain_send-pumped c fails s ws e on = elim (Option-cases (recv (s.hub.heap c).send)) [
    | inl none_there ↦ elim (Bool-cases (s.hub.heap c).send.closed) [
      | inl shut ↦ rw (none_there, drain_send) (rw shut (round-pumped c send_closed s ws e on))
      | inr open_ ↦ rw (none_there, drain_send) (rw open_ (nothing-pumped c s ws e))
    ]
    | inr ((payload, rest), there) ↦
        rw (there, drain_send)
          (round-pumped c (frame payload fails)
            (record s { hub = store c (record (s.hub.heap c) { send = rest }) s.hub }) ws e on)
  ]

  drain_disconnect-pumped :
      (c : Ptr) (s : System M) (ws : List Wake)
      → write_pump ws ≡ pumped c s
      → is_waiting (s.pumps c) ≡ true
      → write_pump (ws ++ woken (take_disconnect c) s) ≡ pumped c (drain_disconnect c s)
  unfolding drain_disconnect
  drain_disconnect-pumped c s ws e on = elim (Option-cases (recv (s.hub.heap c).disconnect)) [
    | inl none_there ↦ rw (none_there, drain_disconnect) (nothing-pumped c s ws e)
    | inr ((d, rest), there) ↦
        rw (there, drain_disconnect)
          (round-pumped c (signalled d)
            (record s { hub = store c (record (s.hub.heap c) { disconnect = rest }) s.hub }) ws e
            on)
  ]

module _ {M : Type 0} (ops : ChannelManager M) (json : Json) where
  -- The state after a move that cannot fail.
  arrived :
      (c d : Ptr) (m : Move) (v s u : System M) (ws : List Wake)
      → pump_of m ≡ some d
      → some d ≡ some c
      → ok (if_pumping d v s) ≡ ok u
      → write_pump ws ≡ pumped c s
      → (write_pump ws ≡ pumped d s
          → is_waiting (s.pumps d) ≡ true
          → write_pump (ws ++ woken m s) ≡ pumped d v)
      → write_pump (ws ++ (if has_pump (s.phase c) then woken m s else [])) ≡ pumped c u
  arrived c d m v s u ws o same there e k =
      let here : d ≡ c = cc same in
      let back : if_pumping d v s ≡ u = cc there in
      let at_d : write_pump ws ≡ pumped d s = rw here e in
      rw (← here) (rw (← back) (turn-pumped d v s ws (woken m s) at_d (k at_d)))

  own-pumped :
      (m : Move) (c : Ptr) (s u : System M) (ws : List Wake)
      → pump_of m ≡ some c
      → step ops json m s ≡ ok u
      → write_pump ws ≡ pumped c s
      → write_pump (ws ++ (if has_pump (s.phase c) then woken m s else [])) ≡ pumped c u
  unfolding step
  own-pumped (take_frame d fails) c s u ws o there e =
      arrived c d (take_frame d fails) (drain_send d fails s) s u ws refl o there e
        (drain_send-pumped d fails s ws)
  own-pumped (take_disconnect d) c s u ws o there e =
      arrived c d (take_disconnect d) (drain_disconnect d s) s u ws refl o there e
        (drain_disconnect-pumped d s ws)
  own-pumped (pump_cancelled d) c s u ws o there e =
      arrived c d (pump_cancelled d) (after_round d cancelled s) s u ws refl o there e
        (round-pumped d cancelled s ws)
  own-pumped (pump_expired d) c s u ws o there e =
      arrived c d (pump_expired d) (after_round d lifetime_over s) s u ws refl o there e
        (round-pumped d lifetime_over s ws)
  own-pumped (pump_tick d fails) c s u ws o there e =
      arrived c d (pump_tick d fails) (after_round d (tick fails) s) s u ws refl o there e
        (round-pumped d (tick fails) s ws)
  own-pumped m c s u ws o there e = cc o

  -- A move that is not of the pump of `c` leaves that pump where it is.
  Stays : Ptr → System M → System M → Type 0
  Stays c s t = (t.pumps c ≡ s.pumps c) × (t.written c ≡ s.written c)

  after_round-Stays :
      (c d : Ptr) (w : Wake) (s t : System M)
      → some d ≢ some c
      → Stays c s t
      → Stays c s (after_round d w t)
  unfolding Stays after_round
  after_round-Stays c d w s t apart v = elim (Bool-cases (d == c)) [
    | inl same ↦ let here : d ≡ c = ground (arith, same) in absurd (apart (ap some here))
    | inr other ↦ rw other v
  ]

  keeps-Stays :
      (c : Ptr) (s : System M) → Keeps ops json (λ m. pump_of m ≢ some c) (λ _. Unit) (Stays c s)
  unfolding Stays accept_client end_loop
  keeps-Stays c s = record {
    accepts = λ now id key allowed t g v. v;
    registers = λ d t v. v;
    subscribes = λ x t v. v;
    unsubscribes = λ x t v. v;
    unregisters = λ d t v. v;
    takes_frame = λ d rest t v. v;
    takes_signal = λ d rest t v. v;
    rounds = λ d w t (m, apart, by) on v. after_round-Stays c d w s t (λ e. apart (by ∙ e)) v;
    spawned = λ d rest t v. v;
    receives = λ x t v. v;
    ends = λ t v. if_true_or (Stays c s) t.ctx_done (λ _. v) v;
    handles = λ e t u h on j v (_, _, pumps, written, _, _) there. rw (pumps, written) v;
  }

  step-pumped :
      (m : Move) (c : Ptr) (s u : System M) (ws : List Wake)
      → step ops json m s ≡ ok u
      → write_pump ws ≡ pumped c s
      → write_pump (ws ++ woken_for c m s) ≡ pumped c u
  unfolding Stays
  step-pumped m c s u ws there e = elim (is_of-cases c (pump_of m)) [
    | inl (o, own) ↦ rw own (own-pumped m c s u ws o there e)
    | inr (o, other) ↦
        let (pumps, written) =
          step-kept ops json (λ m. pump_of m ≢ some c) (λ _. Unit) (Stays c s) (keeps-Stays c s) m s
            u o tt (refl, refl) there in
        rw other (rw (pumps, written) (nothing-pumped c s ws e))
  ]

  -- What a schedule wakes the pump of `c` up to, in order, as far as the schedule comes.
  pub wakes : Ptr → List Move → System M → List Wake
  wakes c [] s = []
  wakes c (m ∷ ms) s =
      woken_for c m s ++ elim (step ops json m s) [ ok t ↦ wakes c ms t | panic ↦ [] ]

  run-pumped :
      (ms : List Move) (c : Ptr) (s t : System M) (ws : List Wake)
      → write_pump ws ≡ pumped c s
      → run ops json ms s ≡ ok t
      → write_pump (ws ++ wakes c ms s) ≡ pumped c t
  unfolding run wakes
  run-pumped [] c s t ws e there =
      let here : s ≡ t = cc there in rw (← here) (nothing-pumped c s ws e)
  run-pumped (m ∷ ms) c s t ws e there = elim (Run-cases (step ops json m s)) [
    | inl (u, first) ↦
        let rest = (rw (first, run) at there) in
        rw (first, wakes)
          (ap write_pump (sym (append_assoc ws (woken_for c m s) (wakes c ms u)))
            ∙ run-pumped ms c u t (ws ++ woken_for c m s) (step-pumped m c s u ws first e) rest)
    | inr bad ↦ let h = (rw (bad, run) at there) in cc h
  ]

  -- After any schedule, what was written to a client's socket and where its pump stands are what the loop of
  -- `WritePump`, from its start, makes of the rounds that the schedule has for it (`wakes`): for each move of
  -- this pump, once the client has been sent to the hub for registration, the frame at the front of its queue with whether the
  -- write fails, the end of the queue if it is closed and empty, the signal at the front of its disconnect
  -- channel, or the context, the lifetime or the tick that the move says.
  pub run-write_pump :
      (cfg : Config) (manager : Option M) (ms : List Move) {s : System M}
      → run ops json ms (init cfg manager) ≡ ok s
      → (c : Ptr) → write_pump (wakes c ms (init cfg manager)) ≡ (s.written c, s.pumps c)
  unfolding init write_pump
  run-write_pump cfg manager ms {s} e c = run-pumped ms c (init cfg manager) s [] refl e
