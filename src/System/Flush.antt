-- ===== src/System/Flush.antt =====
-- Rounds of a pump whose writes do not fail.
use django_websocket_gateway.Common.{
  List, [], ◌∷◌, ◌++◌, map, Bytes, bytes_eq, nat_eq, true, false, ◌≡◌, ◌∙◌, sym, ap, ==_refl, refl,
  arith, some, append-nil, append_assoc, Returns, Returns-ok, Returns-mono,
}
use django_websocket_gateway.Common.Chan.{Chan, recv}
use django_websocket_gateway.Client.{Ptr}
use django_websocket_gateway.Manager.{ChannelManager}
use django_websocket_gateway.Json.{Json}
use django_websocket_gateway.Pump.{frame, wake_up, written_by}
use django_websocket_gateway.Hub.State.{store}
use django_websocket_gateway.System.{
  System, take_frame, is_pumping, after_round, drain_send, step, run,
}

pub recv-cons :
    {A : Type 0} (q : Chan A) (f : A) (fs : List A)
    → q.buf ≡ f ∷ fs
    → recv q ≡ some (f, record q { buf = fs })
recv-cons q f fs e = rw e refl

module _ {M : Type 0} (c : Ptr) where
  -- The state after a round that has written `f`.
  abbrev wrote : Bytes → List Bytes → System M → System M
  wrote f fs s = after_round c (frame f false) (record s {
    hub = store c (record (s.hub.heap c) { send = record (s.hub.heap c).send { buf = fs } }) s.hub;
  })

  drain_send-cons :
      (f : Bytes) (fs : List Bytes) (s : System M)
      → (s.hub.heap c).send.buf ≡ f ∷ fs
      → drain_send c false s ≡ wrote f fs s
  unfolding drain_send
  drain_send-cons f fs s e = rw (recv-cons (s.hub.heap c).send f fs e, drain_send) refl

  wrote_lem :
      (f : Bytes) (fs : List Bytes) (s : System M)
      → is_pumping c s ≡ true
      → ((wrote f fs s).written c ≡ s.written c ++ f ∷ [])
        × (((wrote f fs s).hub.heap c).send.buf ≡ fs)
        × (is_pumping c (wrote f fs s) ≡ true)
  unfolding after_round wake_up written_by store
  wrote_lem f fs s on = rw (==_refl c) (refl, refl, ground arith)

module _ {M : Type 0} (ops : ChannelManager M) (json : Json) (c : Ptr) where
  flush :
      (fs : List Bytes) (s : System M)
      → (s.hub.heap c).send.buf ≡ fs
      → is_pumping c s ≡ true
      → Returns (run ops json (map (λ f. take_frame c false) fs) s) (λ t.
        (t.written c ≡ s.written c ++ fs)
        × ((t.hub.heap c).send.buf ≡ [])
        × (is_pumping c t ≡ true))
  unfolding run step
  flush [] s e on = Returns-ok s (sym (append-nil (s.written c)), e, on)
  flush (f ∷ fs) s e on =
      let (written, buf, still) = wrote_lem c f fs s on in
      rw (on, drain_send-cons c f fs s e)
        (Returns-mono (flush fs (wrote c f fs s) buf still) λ t (w, empty, waits).
          (w ∙ ap (λ xs. xs ++ fs) written ∙ append_assoc (s.written c) (f ∷ []) fs, empty, waits))

  -- From any state in which the pump of a client has begun and not returned, as many rounds of it as
  -- there are frames in the client's queue, where no write fails, write just these frames, in their
  -- order, behind what was written before; then the queue is empty and the pump goes on.
  pub run-flush :
      (s : System M)
      → is_pumping c s ≡ true
      → Returns (run ops json (map (λ f. take_frame c false) (s.hub.heap c).send.buf) s) (λ t.
        (t.written c ≡ s.written c ++ (s.hub.heap c).send.buf)
        × ((t.hub.heap c).send.buf ≡ [])
        × (is_pumping c t ≡ true))
  run-flush s on = flush (s.hub.heap c).send.buf s refl on
