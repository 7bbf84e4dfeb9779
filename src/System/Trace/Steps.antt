-- ===== src/System/Trace/Steps.antt =====
-- The moves of the other goroutines, and the account of the frames and the close codes.
use django_websocket_gateway.Common.Set
use django_websocket_gateway.Client.{
  Counter, Client, generate_connection_id, Ptr, allow_channels, new_pump_client, next,
}
use django_websocket_gateway.System.Trace.{Named, All-append, Traced, Traced-same}
use django_websocket_gateway.Common.{
  if◌then◌else◌, ◌==◌, ◌≡◌, ap, ◌∙◌, ◌+◌, ◌%◌, ◌^◌, ℕ, List, [], ◌∷◌, Bytes, bytes_eq, nat_eq, refl,
  inl, inr, arith, ◌==◌, Bool-cases, Option-cases,
}
use django_websocket_gateway.Common.Int.{ℤ, int_eq}
use django_websocket_gateway.Common.Chan.{has_room}
use django_websocket_gateway.Json.{Json, ClientFrame}
use django_websocket_gateway.Hub.State.{store}
use django_websocket_gateway.System.{
  System, accept_client, post_registration, forward, read, stop, post_unregistration, without_first,
  receive, is_reading,
}
use django_websocket_gateway.System.Accepts.{fresh_client}

allow_channels-id :
    (allowed : List Bytes) (a : Client) → (allow_channels allowed a).connection_id ≡ a.connection_id
unfolding allow_channels
allow_channels-id [] a = refl
allow_channels-id (ch ∷ chs) a =
    allow_channels-id chs (record a { allowed_channels = Set.add ch a.allowed_channels })

next-counts : (k fresh : ℕ) → k ≡ fresh % 2 ^ 64 → next k ≡ (fresh + 1) % 2 ^ 64
unfolding next
next-counts k fresh e = omega (arith, e)

-- A new client has the id of the next value of the counter.
accepted-Named :
    (k : Counter) (fresh : Ptr) (heap : Ptr → Client) (new : Client) (now : ℕ)
    → Named k fresh heap
    → new.connection_id ≡ generate_connection_id (next k) now
    → Named (next k) (fresh + 1) (λ p. if fresh == p then new else heap p)
accepted-Named k fresh heap new now v e = record {
  counts = next-counts k fresh v.counts;
  ids = λ p lt. elim (Bool-cases (fresh == p)) [
    | inl same ↦
        let here : fresh ≡ p = ground arith in
        (
          now,
          rw same (
              e
              ∙ ap (λ n. generate_connection_id n now) (next-counts k fresh v.counts)
              ∙ ap (λ q. generate_connection_id ((q + 1) % 2 ^ 64) now) here),
        )
    | inr other ↦ rw other (v.ids p (ground (arith, lt)))
  ];
}

module _ (json : Json) (Sent : Bytes → Bytes → Type 0) {M : Type 0} where
  pub receive-Traced :
      (ch payload : Bytes) (s : System M)
      → Sent ch payload
      → Traced json Sent s
      → Traced json Sent (receive ch payload s)
  unfolding receive
  receive-Traced ch payload s sent v = elim (Bool-cases (has_room s.incoming_chan)) [
    | inl room ↦ rw room (record {
      delivered = All-append _ s.incoming_chan.buf ((ch, payload) ∷ []) v.delivered (sent, tt);
      frames = v.frames;
      writes = v.writes;
      signals = v.signals;
      closes = v.closes;
      unused = v.unused;
      named = v.named;
    })
    | inr none_left ↦ rw none_left v
  ]

  -- A new client has an empty queue, and nothing was written for it.
  pub accept_client-Traced :
      (now : ℕ) (id : ℤ) (key : Bytes) (allowed : List Bytes) (s : System M)
      → Traced json Sent s
      → Traced json Sent (accept_client now id key allowed s)
  unfolding accept_client store
  accept_client-Traced now id key allowed s v =
      let new = allow_channels allowed (new_pump_client s.hub.cfg (next s.counter) now id key) in
      let (_, send, disconnect) =
        fresh_client allowed (new_pump_client s.hub.cfg (next s.counter) now id key) in
      record {
        delivered = v.delivered;
        frames = λ p. elim (Bool-cases (s.fresh == p)) [
          | inl same ↦ rw same (rw send tt)
          | inr other ↦ rw other (v.frames p)
        ];
        writes = λ p. elim (Bool-cases (s.fresh == p)) [
          | inl same ↦ rw same (rw (v.unused p (ground arith)) tt)
          | inr other ↦ rw other (v.writes p)
        ];
        signals = λ p. elim (Bool-cases (s.fresh == p)) [
          | inl same ↦ rw same (rw disconnect tt)
          | inr other ↦ rw other (v.signals p)
        ];
        closes = v.closes;
        unused = λ p le. v.unused p (omega (arith, le));
        named =
            accepted-Named s.counter s.fresh s.hub.heap new now v.named
              (unfold new_pump_client in allow_channels-id allowed _);
      }

  pub post_registration-Traced :
      (c : Ptr) (s : System M) → Traced json Sent s → Traced json Sent (post_registration c s)
  unfolding post_registration
  post_registration-Traced c s =
      Traced-same json Sent s _ (ground arith) (ground arith) (ground arith) (ground arith)
        (ground arith) (ground arith)

  pub stop-Traced : (c : Ptr) (s : System M) → Traced json Sent s → Traced json Sent (stop c s)
  unfolding stop
  stop-Traced c s =
      Traced-same json Sent s _ (ground arith) (ground arith) (ground arith) (ground arith)
        (ground arith) (ground arith)

  forward-Traced :
      (c : Ptr) (request : ClientFrame) (s : System M)
      → Traced json Sent s
      → Traced json Sent (forward c request s)
  unfolding forward
  forward-Traced c request s =
      Traced-same json Sent s _ (ground arith) (ground arith) (ground arith) (ground arith)
        (ground arith) (ground arith)

  pub read-Traced :
      (c : Ptr) (bytes : Bytes) (s : System M)
      → Traced json Sent s
      → Traced json Sent (read json c bytes s)
  unfolding read
  read-Traced c bytes s v = elim (Bool-cases (is_reading (s.phase c))) [
    | inl on ↦ rw on (elim (Option-cases (json.client_frame bytes)) [
      | inl bad ↦ rw bad v
      | inr (request, good) ↦ rw good (forward-Traced c request s v)
    ])
    | inr off ↦ rw off v
  ]

  pub post_unregistration-Traced :
      (c : Ptr) (s : System M) → Traced json Sent s → Traced json Sent (post_unregistration c s)
  unfolding post_unregistration
  post_unregistration-Traced c s v = elim (Bool-cases (has_room s.unregister_chan)) [
    | inl room ↦ rw room (elim (Option-cases (without_first c s.hub.spawned)) [
      | inl e ↦ rw e v
      | inr (rest, e) ↦ rw e (Traced-same json Sent s _ refl refl refl refl refl refl v)
    ])
    | inr none_left ↦ rw none_left v
  ]
