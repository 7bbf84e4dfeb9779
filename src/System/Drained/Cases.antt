-- ===== src/System/Drained/Cases.antt =====
-- The five cases of `Hub.Run` that take from a Go channel, and rounds of all of them.
use django_websocket_gateway.Common.{
  List, [], ◌++◌, map, Bytes, bytes_eq, nat_eq, Option, false, ◌≡◌, refl, ok, Returns,
  Returns-value,
}
use django_websocket_gateway.Client.{Ptr}
use django_websocket_gateway.Config.{Config}
use django_websocket_gateway.Manager.{ChannelManager}
use django_websocket_gateway.Json.{Json}
use django_websocket_gateway.Hub.State.{
  Event, register, unregister, subscribe, unsubscribe, incoming,
}
use django_websocket_gateway.System.{
  System, Move, run_register, run_unregister, run_subscribe, run_unsubscribe, run_incoming,
  take_register, take_unregister, take_subscribe, take_unsubscribe, take_incoming, step, run, init,
}
use django_websocket_gateway.System.Invariant.{SystemInv}
use django_websocket_gateway.System.Safety.{run-init-Inv}
use django_websocket_gateway.System.Drained.{
  handle_all, Case, emptied, Segment, Segment-append, stage,
}

module _ {M : Type 0} where
  -- What the Go channels of the hub hold, as events of the loop.
  abbrev pub pending : System M → List Event
  pending s =
      map register s.register_chan.buf
      ++ map unregister s.unregister_chan.buf
      ++ map (λ p. subscribe p.0 p.1) s.subscribe_chan.buf
      ++ map (λ p. unsubscribe p.0 p.1) s.unsubscribe_chan.buf
      ++ map (λ p. incoming p.0 p.1) s.incoming_chan.buf

  -- A round of the loop for each of these.
  abbrev pub rounds : System M → List Move
  rounds s =
      map (λ x. run_register) s.register_chan.buf
      ++ map (λ x. run_unregister) s.unregister_chan.buf
      ++ map (λ x. run_subscribe) s.subscribe_chan.buf
      ++ map (λ x. run_unsubscribe) s.unsubscribe_chan.buf
      ++ map (λ x. run_incoming) s.incoming_chan.buf

  -- Nothing is left in a Go channel of the hub.
  abbrev pub AllTaken : System M → Type 0
  AllTaken t =
      (t.register_chan.buf ≡ [])
      × (t.unregister_chan.buf ≡ [])
      × (t.subscribe_chan.buf ≡ [])
      × (t.unsubscribe_chan.buf ≡ [])
      × (t.incoming_chan.buf ≡ [])

module _ {M : Type 0} (ops : ChannelManager M) (json : Json) where
  abbrev registering : Case ops json Ptr
  unfolding step take_register
  registering = record {
    move = run_register;
    event = register;
    get = λ s. s.register_chan;
    put = λ s q h. record s { register_chan = q; hub = h };
    takes = λ s. refl;
    get-put = λ s q h. refl;
    put-put = λ s q r h k. refl;
    put-get = λ s. refl;
    hub-put = λ s q h. refl;
    put-hub = λ s q h k. refl;
    loop-put = λ s q h. refl;
  }

  abbrev unregistering : Case ops json Ptr
  unfolding step take_unregister
  unregistering = record {
    move = run_unregister;
    event = unregister;
    get = λ s. s.unregister_chan;
    put = λ s q h. record s { unregister_chan = q; hub = h };
    takes = λ s. refl;
    get-put = λ s q h. refl;
    put-put = λ s q r h k. refl;
    put-get = λ s. refl;
    hub-put = λ s q h. refl;
    put-hub = λ s q h k. refl;
    loop-put = λ s q h. refl;
  }

  abbrev subscribing : Case ops json (Ptr × Bytes)
  unfolding step take_subscribe
  subscribing = record {
    move = run_subscribe;
    event = λ p. subscribe p.0 p.1;
    get = λ s. s.subscribe_chan;
    put = λ s q h. record s { subscribe_chan = q; hub = h };
    takes = λ s. refl;
    get-put = λ s q h. refl;
    put-put = λ s q r h k. refl;
    put-get = λ s. refl;
    hub-put = λ s q h. refl;
    put-hub = λ s q h k. refl;
    loop-put = λ s q h. refl;
  }

  abbrev unsubscribing : Case ops json (Ptr × Bytes)
  unfolding step take_unsubscribe
  unsubscribing = record {
    move = run_unsubscribe;
    event = λ p. unsubscribe p.0 p.1;
    get = λ s. s.unsubscribe_chan;
    put = λ s q h. record s { unsubscribe_chan = q; hub = h };
    takes = λ s. refl;
    get-put = λ s q h. refl;
    put-put = λ s q r h k. refl;
    put-get = λ s. refl;
    hub-put = λ s q h. refl;
    put-hub = λ s q h k. refl;
    loop-put = λ s q h. refl;
  }

  abbrev arriving : Case ops json (Bytes × Bytes)
  unfolding step take_incoming
  arriving = record {
    move = run_incoming;
    event = λ p. incoming p.0 p.1;
    get = λ s. s.incoming_chan;
    put = λ s q h. record s { incoming_chan = q; hub = h };
    takes = λ s. refl;
    get-put = λ s q h. refl;
    put-put = λ s q r h k. refl;
    put-get = λ s. refl;
    hub-put = λ s q h. refl;
    put-hub = λ s q h k. refl;
    loop-put = λ s q h. refl;
  }

  drained :
      (s : System M)
      → s.loop_ended ≡ false
      → SystemInv s
      → Returns
          (run ops json (rounds s) s)
          (λ t. (handle_all ops json (pending s) s.hub ≡ ok t.hub) × AllTaken t × SystemInv t)
  unfolding registering unregistering subscribing unsubscribing arriving
  drained s on v =
      let (h1, r1, v1) = stage ops json registering s on v in
      let s1 = emptied ops json registering s h1 in
      let (h2, r2, v2) = stage ops json unregistering s1 on v1 in
      let s2 = emptied ops json unregistering s1 h2 in
      let (h3, r3, v3) = stage ops json subscribing s2 on v2 in
      let s3 = emptied ops json subscribing s2 h3 in
      let (h4, r4, v4) = stage ops json unsubscribing s3 on v3 in
      let s4 = emptied ops json unsubscribing s3 h4 in
      let (h5, r5, v5) = stage ops json arriving s4 on v4 in
      let two = Segment-append ops json r1 r2 in
      let three = Segment-append ops json two r3 in
      let four = Segment-append ops json three r4 in
      let all : Segment ops json (rounds s) (pending s) s (emptied ops json arriving s4 h5) =
        Segment-append ops json four r5 in
      record {
        value = emptied ops json arriving s4 h5;
        returned = all.ran;
        holds = (all.did, (refl, refl, refl, refl, refl), v5);
      }

  -- After any schedule, while the loop runs, as many rounds of each case of its `select` as the Go channel of the
  -- case holds values come to an end: every value has been handled, those of one Go channel in
  -- the order in which they were sent, and the five Go channels are empty, since no handler sends to one of them.
  pub run-drained :
      (cfg : Config) (manager : Option M) (ms : List Move) {s : System M}
      → run ops json ms (init cfg manager) ≡ ok s
      → s.loop_ended ≡ false
      → Returns
          (run ops json (rounds s) s)
          (λ t. (handle_all ops json (pending s) s.hub ≡ ok t.hub) × AllTaken t × SystemInv t)
  run-drained cfg manager ms {s} e on =
      drained s on (Returns-value (run-init-Inv ops json cfg manager ms) e)
