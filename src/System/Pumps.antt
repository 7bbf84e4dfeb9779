-- ===== src/System/Pumps.antt =====
-- The moves of the pumps, of the goroutines of `deliverFrame` and of the Redis loop, and the
-- registry.
use django_websocket_gateway.Common.{
  if_true_or, List, Bytes, bytes_eq, nat_eq, ◌&&◌, ◌≡◌, refl, inl, inr, arith, Bool, Bool-cases,
  Option-cases, some,
}
use django_websocket_gateway.Common.Int.{int_eq}
use django_websocket_gateway.Common.Chan.{Chan, recv, has_room}
use django_websocket_gateway.Pump.{Wake, send_closed, frame, signalled}
use django_websocket_gateway.Client.{Ptr, Client, DisconnectReason}
use django_websocket_gateway.Json.{Json, ClientFrame}
use django_websocket_gateway.Hub.State.{Hub}
use django_websocket_gateway.Hub.Invariant.Delivery.{
  SameClient, SameRouting, SameRouting-refl, store-SameRouting,
}
use django_websocket_gateway.System.{
  end_loop, System, forward, is_reading, read, stop, is_pumping, if_pumping, after_round,
  drain_send, drain_disconnect, post_unregistration, without_first, receive,
}
use django_websocket_gateway.System.Invariant.{SameRegistry, SameRegistry-eq, SameRegistry-hub}

-- What a receive leaves of the channel that it takes from.
closed-recv {ℓ} :
    {A : Type ℓ} (c rest : Chan A) (v : A) → recv c ≡ some (v, rest) → rest.closed ≡ c.closed
closed-recv c rest v e = ground arith

recv-SameClient :
    (a : Client) (payload : Bytes) (rest : Chan Bytes)
    → recv a.send ≡ some (payload, rest)
    → SameClient a (record a { send = rest })
recv-SameClient a payload rest e = ground (arith, closed-recv a.send rest payload)

recv-SameSignal :
    (a : Client) (reason : DisconnectReason) (rest : Chan DisconnectReason)
    → recv a.disconnect ≡ some (reason, rest)
    → SameClient a (record a { disconnect = rest })
recv-SameSignal a reason rest e = ground (arith, closed-recv a.disconnect rest reason)

spawned-SameRouting :
    {M : Type 0} (h : Hub M) (rest : List Ptr) → SameRouting h (record h { spawned = rest })
spawned-SameRouting h rest = record {
  clients = refl;
  channels = refl;
  user_clients = refl;
  manager = refl;
  cfg = refl;
  heap = λ c. ground arith;
}

module _ {M : Type 0} where
  pub forward-SameRegistry :
      (c : Ptr) (request : ClientFrame) (s : System M) → SameRegistry s (forward c request s)
  unfolding forward
  forward-SameRegistry c request s =
      SameRegistry-eq s _ (ground arith) (ground arith) (ground arith) (ground arith)

  pub read-SameRegistry :
      (json : Json) (c : Ptr) (bytes : Bytes) (s : System M) → SameRegistry s (read json c bytes s)
  unfolding read
  read-SameRegistry json c bytes s = elim (Bool-cases (is_reading (s.phase c))) [
    | inl on ↦ rw on (elim (Option-cases (json.client_frame bytes)) [
      | inl bad ↦ rw bad (SameRegistry-eq s s refl refl refl refl)
      | inr (request, good) ↦ rw good (forward-SameRegistry c request s)
    ])
    | inr off ↦ rw off (SameRegistry-eq s s refl refl refl refl)
  ]

  pub end_loop-SameRegistry : (s : System M) → SameRegistry s (end_loop s)
  unfolding end_loop
  end_loop-SameRegistry s =
      if_true_or (SameRegistry s) s.ctx_done (λ _. SameRegistry-eq s _ refl refl refl refl)
        (SameRegistry-eq s s refl refl refl refl)

  pub stop-SameRegistry : (c : Ptr) (s : System M) → SameRegistry s (stop c s)
  unfolding stop
  stop-SameRegistry c s = elim (Bool-cases (is_reading (s.phase c) && has_room s.unregister_chan)) [
    | inl on ↦ rw on (record {
      hub = SameRouting-refl s.hub;
      register_chan = refl;
      accepts = λ p a. ground arith;
      absents = λ p a. ground arith;
      fresh = refl;
    })
    | inr off ↦ rw off (SameRegistry-eq s s refl refl refl refl)
  ]

  pub after_round-SameRegistry :
      (c : Ptr) (w : Wake) (s t : System M) → SameRegistry s t → SameRegistry s (after_round c w t)
  unfolding after_round
  after_round-SameRegistry c w s t same = record {
    hub = same.hub;
    register_chan = same.register_chan;
    accepts = same.accepts;
    absents = same.absents;
    fresh = same.fresh;
  }

  pub if_pumping-SameRegistry :
      (c : Ptr) (s t : System M) → SameRegistry s t → SameRegistry s (if_pumping c t s)
  if_pumping-SameRegistry c s t same = elim (Bool-cases (is_pumping c s)) [
    | inl on ↦ rw on same
    | inr off ↦ rw off (SameRegistry-eq s s refl refl refl refl)
  ]

  pub drain_send-SameRegistry :
      (c : Ptr) (fails : Bool) (s : System M) → SameRegistry s (drain_send c fails s)
  unfolding drain_send
  drain_send-SameRegistry c fails s =
      let here = SameRegistry-eq s s refl refl refl refl in
      elim (Option-cases (recv (s.hub.heap c).send)) [
        | inl e ↦ elim (Bool-cases (s.hub.heap c).send.closed) [
          | inl over ↦
              rw (e, drain_send) (rw over (after_round-SameRegistry c send_closed s s here))
          | inr open_ ↦ rw (e, drain_send) (rw open_ here)
        ]
        | inr ((payload, rest), e) ↦
            rw (e, drain_send)
              (after_round-SameRegistry c (frame payload fails) s _ (
                SameRegistry-hub s _
                  (store-SameRouting c _ s.hub (recv-SameClient _ payload rest e))))
      ]

  pub drain_disconnect-SameRegistry :
      (c : Ptr) (s : System M) → SameRegistry s (drain_disconnect c s)
  unfolding drain_disconnect
  drain_disconnect-SameRegistry c s = elim (Option-cases (recv (s.hub.heap c).disconnect)) [
    | inl e ↦ rw (e, drain_disconnect) (SameRegistry-eq s s refl refl refl refl)
    | inr ((reason, rest), e) ↦
        rw (e, drain_disconnect)
          (after_round-SameRegistry c (signalled reason) s _
            (SameRegistry-hub s _ (store-SameRouting c _ s.hub (recv-SameSignal _ reason rest e))))
  ]

  pub post_unregistration-SameRegistry :
      (c : Ptr) (s : System M) → SameRegistry s (post_unregistration c s)
  unfolding post_unregistration
  post_unregistration-SameRegistry c s = elim (Bool-cases (has_room s.unregister_chan)) [
    | inl room ↦ rw room (elim (Option-cases (without_first c s.hub.spawned)) [
      | inl e ↦ rw e (SameRegistry-eq s s refl refl refl refl)
      | inr (rest, e) ↦ rw e (record {
        hub = spawned-SameRouting s.hub rest;
        register_chan = refl;
        accepts = λ p a. a;
        absents = λ p a. a;
        fresh = refl;
      })
    ])
    | inr none_left ↦ rw none_left (SameRegistry-eq s s refl refl refl refl)
  ]

  pub receive-SameRegistry :
      (ch payload : Bytes) (s : System M) → SameRegistry s (receive ch payload s)
  unfolding receive
  receive-SameRegistry ch payload s =
      SameRegistry-eq s _ (ground arith) (ground arith) (ground arith) (ground arith)
