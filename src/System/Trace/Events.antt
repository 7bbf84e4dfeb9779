-- ===== src/System/Trace/Events.antt =====
-- The rounds of `Hub.Run`, and the account of the frames and the close codes.
use django_websocket_gateway.Common.{
  if_true_or, some, Bytes, bytes_eq, nat_eq, true, false, ◌≡◌, refl, ap, inl, inr, arith, All,
  Returns, Returns-ok, Returns-bind,
}
use django_websocket_gateway.Common.Int.{int_eq}
use django_websocket_gateway.Common.Set
use django_websocket_gateway.Common.Chan.{Chan, recv}
use django_websocket_gateway.Client.{Ptr, Client}
use django_websocket_gateway.Manager.{ChannelManager}
use django_websocket_gateway.Json.{Json}
use django_websocket_gateway.Pump.{cancelled, lifetime_over, tick, wake_up, written_by}
use django_websocket_gateway.Hub.State.{
  Event, register, unregister, subscribe, unsubscribe, incoming,
}
use django_websocket_gateway.Hub.Handlers.{handle, is_control}
use django_websocket_gateway.Hub.Effect.Access.{Entitled}
use django_websocket_gateway.Hub.Queues.{Cause}
use django_websocket_gateway.Hub.Queues.Handlers.{handle-Growth}
use django_websocket_gateway.System.Trace.{
  Traced-same, Named-heap, All-append, All-mono, Explained, Traced,
}
use django_websocket_gateway.System.Takes.{take-cases}
use django_websocket_gateway.System.{
  end_loop, run_done, System, Move, accept, post_register, read_frame, stop_reading, take_frame,
  take_disconnect, pump_cancelled, pump_expired, pump_tick, post_spawned, deliver, run_register,
  run_unregister, run_subscribe, run_unsubscribe, run_incoming, put_hub, take, take_register,
  take_unregister, take_subscribe, take_unsubscribe, take_incoming, step,
}
use django_websocket_gateway.System.Invariant.{SystemInv}
use django_websocket_gateway.System.Trace.Rounds.{
  recv-All, if_pumping-Traced, round-Traced, drain_send-Traced, drain_disconnect-Traced, stays,
}
use django_websocket_gateway.System.Trace.Steps.{
  receive-Traced, accept_client-Traced, post_registration-Traced, stop-Traced, read-Traced,
  post_unregistration-Traced,
}

-- A channel that is not a control channel is one that Django allowed.
public-allowed :
    (a : Client) (ch : Bytes)
    → Entitled a ch
    → is_control ch ≡ false
    → Set.contains ch a.allowed_channels ≡ true
unfolding is_control
public-allowed a ch (inl own) public = let h = (rw own at public) in cc h
public-allowed a ch (inr (inl own)) public = let h = (rw own at public) in cc h
public-allowed a ch (inr (inr (allowed, _, _))) public = allowed

module _ {M : Type 0} (ops : ChannelManager M) (json : Json) (Sent : Bytes → Bytes → Type 0) where
  -- A message that the loop takes was sent by Redis.
  abbrev Came : Event → Type 0
  Came (register c) = Unit
  Came (unregister c) = Unit
  Came (subscribe c ch) = Unit
  Came (unsubscribe c ch) = Unit
  Came (incoming ch payload) = Sent ch payload

  cause-Explained :
      (e : Event) (s : System M) (p : Ptr) (f : Bytes)
      → SystemInv s
      → Came e
      → Cause json e s.hub p f
      → Explained json Sent (s.hub.heap p).allowed_channels f
  cause-Explained (register c) s p f i came none_such = absurd none_such
  cause-Explained (unregister c) s p f i came none_such = absurd none_such
  cause-Explained (subscribe c ch) s p f i came answer = inl answer
  cause-Explained (unsubscribe c ch) s p f i came none_such = absurd none_such
  cause-Explained (incoming ch payload) s p f i came (same, public, m) =
      let law = i.hub.listed p ch in
      inr (
        ch,
        rw same came,
        public-allowed (s.hub.heap p) ch (i.granted p ch (ground (arith, law))) public,
      )

  -- The hub after an event, in a state that differs in a channel that was taken from.
  put_hub-Traced :
      (s t : System M) (e : Event)
      → SystemInv s
      → Traced json Sent s
      → Came e
      → All (λ m. Sent m.0 m.1) t.incoming_chan.buf
      → t.written ≡ s.written
      → t.pumps ≡ s.pumps
      → t.fresh ≡ s.fresh
      → t.counter ≡ s.counter
      → Returns (put_hub t (handle ops json e s.hub)) (Traced json Sent)
  put_hub-Traced s t e i v came delivered w pu fr co =
      Returns-bind (handle-Growth ops json s.hub i.hub e) λ k g. Returns-ok _ (record {
        delivered = delivered;
        frames = λ p.
            let (news, same, all) = (g p).frames in
            rw ((g p).allowed, same)
              (All-append _ (s.hub.heap p).send.buf news (v.frames p)
                (All-mono _ _ news (λ f. cause-Explained e s p f i came) all));
        writes = λ p. rw ((g p).allowed, w) (v.writes p);
        signals = λ p.
            let (news, same, all) = (g p).signals in
            rw same (All-append _ (s.hub.heap p).disconnect.buf news (v.signals p) all);
        closes = λ c code reason h. v.closes c code reason (rw pu at h);
        unused = λ c le. rw w (v.unused c (rw fr at le));
        named = rw (fr, co) (Named-heap k.heap (λ p. ap (λ i. i.0) (g p).id) v.named);
      })

  take-Traced :
      {A : Type 0} (q : Chan A) (put : Chan A → System M) (event : A → Event) (s : System M)
      → SystemInv s
      → Traced json Sent s
      → ((x : A) (rest : Chan A)
          → recv q ≡ some (x, rest)
          → Came (event x)
            × All (λ m. Sent m.0 m.1) (put rest).incoming_chan.buf
            × ((put rest).written ≡ s.written)
            × ((put rest).pumps ≡ s.pumps)
            × ((put rest).fresh ≡ s.fresh)
            × ((put rest).counter ≡ s.counter))
      → Returns (take ops json q put event s) (Traced json Sent)
  take-Traced q put event s i v k = elim (take-cases ops json q put event s) [
    | inl e ↦ rw e (Returns-ok s v)
    | inr (x, rest, _, e, same) ↦
        let (came, delivered, w, p, f, n) = k x rest e in
        rw same (put_hub-Traced s (put rest) (event x) i v came delivered w p f n)
  ]

  -- A move of the Redis loop has a message that was sent.
  abbrev pub Fed : Move → Type 0
  Fed m = (ch payload : Bytes) → m ≡ deliver ch payload → Sent ch payload

  pub step-Traced :
      (m : Move) (s : System M)
      → SystemInv s
      → Traced json Sent s
      → Fed m
      → Returns (step ops json m s) (Traced json Sent)
  unfolding step wake_up written_by take_register take_unregister take_subscribe take_unsubscribe
      take_incoming
  step-Traced (accept now id key allowed) s i v fed =
      Returns-ok _ (accept_client-Traced json Sent now id key allowed s v)
  step-Traced (post_register c) s i v fed = Returns-ok _ (post_registration-Traced json Sent c s v)
  step-Traced (read_frame c bytes) s i v fed = Returns-ok _ (read-Traced json Sent c bytes s v)
  step-Traced (stop_reading c) s i v fed = Returns-ok _ (stop-Traced json Sent c s v)
  step-Traced (take_frame c fails) s i v fed =
      Returns-ok _ (if_pumping-Traced json Sent c s _ v (drain_send-Traced json Sent c fails s i v))
  step-Traced (take_disconnect c) s i v fed =
      Returns-ok _ (if_pumping-Traced json Sent c s _ v (drain_disconnect-Traced json Sent c s i v))
  step-Traced (pump_cancelled c) s i v fed =
      Returns-ok _
        (round-Traced json Sent c cancelled s i refl (λ code reason h. ground (arith, h)) v)
  step-Traced (pump_expired c) s i v fed =
      Returns-ok _
        (round-Traced json Sent c lifetime_over s i refl (λ code reason h. ground (arith, h)) v)
  step-Traced (pump_tick c fails) s i v fed = Returns-ok _ (
      round-Traced json Sent c (tick fails) s i refl
        (λ code reason h. absurd (stays fails code reason h)) v)
  step-Traced (post_spawned c) s i v fed = Returns-ok _ (post_unregistration-Traced json Sent c s v)
  step-Traced (deliver ch payload) s i v fed =
      Returns-ok _ (receive-Traced json Sent ch payload s (fed ch payload refl) v)
  step-Traced run_done s i v fed = Returns-ok _ (
      unfold end_loop in
      if_true_or (Traced json Sent) s.ctx_done
        (λ _. Traced-same json Sent s _ refl refl refl refl refl refl v) v)
  step-Traced run_register s i v fed =
      take-Traced s.register_chan (λ rest. record s { register_chan = rest }) register s i v
        (λ x rest e. (tt, v.delivered, refl, refl, refl, refl))
  step-Traced run_unregister s i v fed =
      take-Traced s.unregister_chan (λ rest. record s { unregister_chan = rest }) unregister s i v
        (λ x rest e. (tt, v.delivered, refl, refl, refl, refl))
  step-Traced run_subscribe s i v fed =
      take-Traced s.subscribe_chan (λ rest. record s { subscribe_chan = rest })
        (λ p. subscribe p.0 p.1) s i v (λ x rest e. (tt, v.delivered, refl, refl, refl, refl))
  step-Traced run_unsubscribe s i v fed =
      take-Traced s.unsubscribe_chan (λ rest. record s { unsubscribe_chan = rest })
        (λ p. unsubscribe p.0 p.1) s i v (λ x rest e. (tt, v.delivered, refl, refl, refl, refl))
  step-Traced run_incoming s i v fed =
      take-Traced s.incoming_chan (λ rest. record s { incoming_chan = rest })
        (λ p. incoming p.0 p.1) s i v
        (λ x rest e.
          let (first, others) = recv-All _ s.incoming_chan rest x e v.delivered in
          (first, others, refl, refl, refl, refl))
