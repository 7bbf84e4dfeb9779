-- ===== src/System/Trace/Rounds.antt =====
-- The rounds of a pump, and the account of the frames and the close codes.
use django_websocket_gateway.Common.{
  ℕ, [], ◌∷◌, Bytes, bytes_eq, nat_eq, some, Bool, true, false, ◌≡◌, ◌≢◌, refl, inl, inr, arith,
  All, ◌==◌, ==_refl, Bool-cases, Option-cases, if◌then◌else◌,
}
use django_websocket_gateway.Common.Int.{int_eq}
use django_websocket_gateway.Common.Chan.{Chan, recv}
use django_websocket_gateway.Client.{Ptr, DisconnectReason}
use django_websocket_gateway.Json.{Json}
use django_websocket_gateway.Pump.{
  Wake, send_closed, signalled, frame, waiting, stopped, closed_with, wake_up, written_by,
}
use django_websocket_gateway.Hub.State.{Hub, store}
use django_websocket_gateway.Hub.Queues.{IsSignal}
use django_websocket_gateway.System.{
  System, is_pumping, if_pumping, after_round, drain_send, drain_disconnect,
}
use django_websocket_gateway.System.Invariant.{SystemInv}
use django_websocket_gateway.System.Trace.{Named-heap, IsClose, Traced, started, after_round-Traced}

-- What a signal has the pump do.
IsSignal-IsClose :
    (d : DisconnectReason) (code : ℕ) (reason : Bytes)
    → IsSignal d
    → wake_up (signalled d) ≡ closed_with code reason
    → IsClose code reason
unfolding wake_up
IsSignal-IsClose d code reason (inl z) h = ground (arith, z, h)
IsSignal-IsClose d code reason (inr known) h = elim (Bool-cases (d.code == 0)) [
  | inl quiet ↦ let h' = (rw (quiet, wake_up) at h) in cc h'
  | inr loud ↦
      let h' = (rw (loud, wake_up) at h) in
      let same_code : d.code ≡ code = cc h' in
      let same_reason : d.reason ≡ reason = cc h' in
      inr (inr (inr (rw (same_code, same_reason) at known)))
]

pub stays :
    (fails : Bool) (code : ℕ) (reason : Bytes)
    → (if fails then stopped else waiting) ≢ closed_with code reason
stays true code reason h = cc h
stays false code reason h = cc h

written-All :
    (P : Bytes → Type 0) (payload : Bytes) (fails : Bool)
    → P payload
    → All P (written_by (frame payload fails))
unfolding written_by
written-All P payload true h = tt
written-All P payload false h = (h, tt)

stored-allowed :
    {M : Type 0} (c : Ptr) (rest : Chan Bytes) (h : Hub M)
    → ((store c (record (h.heap c) { send = rest }) h).heap c).allowed_channels
      ≡ (h.heap c).allowed_channels
unfolding store
stored-allowed c rest h = rw (==_refl c) refl

recv-buf {ℓ} :
    {A : Type ℓ} (c rest : Chan A) (v : A) → recv c ≡ some (v, rest) → c.buf ≡ v ∷ rest.buf
recv-buf c rest v e = ground arith

pub recv-All {ℓ κ} :
    {A : Type ℓ} (P : A → Type κ) (c rest : Chan A) (v : A)
    → recv c ≡ some (v, rest)
    → All P c.buf
    → P v × All P rest.buf
recv-All P c rest v e h = rw (recv-buf c rest v e) at h

module _ (json : Json) (Sent : Bytes → Bytes → Type 0) {M : Type 0} where
  pub if_pumping-Traced :
      (c : Ptr) (s t : System M)
      → Traced json Sent s
      → (is_pumping c s ≡ true → Traced json Sent t)
      → Traced json Sent (if_pumping c t s)
  if_pumping-Traced c s t v f = elim (Bool-cases (is_pumping c s)) [
    | inl on ↦ rw on (f on)
    | inr off ↦ rw off v
  ]

  -- A round that neither takes a frame nor a signal.
  pub round-Traced :
      (c : Ptr) (w : Wake) (s : System M)
      → SystemInv s
      → written_by w ≡ []
      → ((code : ℕ) (reason : Bytes) → wake_up w ≡ closed_with code reason → IsClose code reason)
      → Traced json Sent s
      → Traced json Sent (if_pumping c (after_round c w s) s)
  round-Traced c w s i e close v =
      if_pumping-Traced c s _ v λ on.
        after_round-Traced json Sent c w s (λ p. started json Sent c p s i on) (rw e tt) close v

  -- The client's queue of frames loses its first.
  taken_frame-Traced :
      (c : Ptr) (payload : Bytes) (rest : Chan Bytes) (s : System M)
      → recv (s.hub.heap c).send ≡ some (payload, rest)
      → Traced json Sent s
      → Traced json Sent (record s { hub = store c (record (s.hub.heap c) { send = rest }) s.hub })
  unfolding store
  taken_frame-Traced c payload rest s e v = record {
    delivered = v.delivered;
    frames = λ p. elim (Bool-cases (c == p)) [
      | inl same ↦ rw same (recv-All _ (s.hub.heap c).send rest payload e (v.frames c)).1
      | inr other ↦ rw other (v.frames p)
    ];
    writes = λ p. elim (Bool-cases (c == p)) [
      | inl same ↦ let e : c ≡ p = ground arith in rw same (rw (← e) (v.writes c))
      | inr other ↦ rw other (v.writes p)
    ];
    signals = λ p. elim (Bool-cases (c == p)) [
      | inl same ↦ rw same (v.signals c)
      | inr other ↦ rw other (v.signals p)
    ];
    closes = v.closes;
    unused = v.unused;
    named = Named-heap _ (λ p. ground arith) v.named;
  }

  taken_signal-Traced :
      (c : Ptr) (reason : DisconnectReason) (rest : Chan DisconnectReason) (s : System M)
      → recv (s.hub.heap c).disconnect ≡ some (reason, rest)
      → Traced json Sent s
      → Traced json Sent
          (record s { hub = store c (record (s.hub.heap c) { disconnect = rest }) s.hub })
  unfolding store
  taken_signal-Traced c reason rest s e v = record {
    delivered = v.delivered;
    frames = λ p. elim (Bool-cases (c == p)) [
      | inl same ↦ rw same (v.frames c)
      | inr other ↦ rw other (v.frames p)
    ];
    writes = λ p. elim (Bool-cases (c == p)) [
      | inl same ↦ let e : c ≡ p = ground arith in rw same (rw (← e) (v.writes c))
      | inr other ↦ rw other (v.writes p)
    ];
    signals = λ p. elim (Bool-cases (c == p)) [
      | inl same ↦ rw same (recv-All _ (s.hub.heap c).disconnect rest reason e (v.signals c)).1
      | inr other ↦ rw other (v.signals p)
    ];
    closes = v.closes;
    unused = v.unused;
    named = Named-heap _ (λ p. ground arith) v.named;
  }

  pub drain_send-Traced :
      (c : Ptr) (fails : Bool) (s : System M)
      → SystemInv s
      → Traced json Sent s
      → is_pumping c s ≡ true
      → Traced json Sent (drain_send c fails s)
  unfolding drain_send written_by wake_up
  drain_send-Traced c fails s i v on = elim (Option-cases (recv (s.hub.heap c).send)) [
    | inl e ↦ elim (Bool-cases (s.hub.heap c).send.closed) [
      | inl over ↦
          rw (e, drain_send)
            (rw over (
              after_round-Traced json Sent c send_closed s (λ p. started json Sent c p s i on) tt
                (λ code reason h. ground (arith, h)) v))
      | inr open_ ↦ rw (e, drain_send) (rw open_ v)
    ]
    | inr ((payload, rest), e) ↦
        rw (e, drain_send)
          (after_round-Traced json Sent c (frame payload fails) _
            (λ p. started json Sent c p s i on)
            (written-All _ payload fails (
              rw (stored-allowed c rest s.hub)
                (recv-All _ (s.hub.heap c).send rest payload e (v.frames c)).0))
            (λ code reason h. absurd (stays fails code reason h))
            (taken_frame-Traced c payload rest s e v))
  ]

  pub drain_disconnect-Traced :
      (c : Ptr) (s : System M)
      → SystemInv s
      → Traced json Sent s
      → is_pumping c s ≡ true
      → Traced json Sent (drain_disconnect c s)
  unfolding drain_disconnect written_by
  drain_disconnect-Traced c s i v on = elim (Option-cases (recv (s.hub.heap c).disconnect)) [
    | inl e ↦ rw (e, drain_disconnect) v
    | inr ((reason, rest), e) ↦
        rw (e, drain_disconnect)
          (after_round-Traced json Sent c (signalled reason) _ (λ p. started json Sent c p s i on)
            tt
            (λ code why.
              IsSignal-IsClose reason code why
                (recv-All _ (s.hub.heap c).disconnect rest reason e (v.signals c)).0)
            (taken_signal-Traced c reason rest s e v))
  ]
