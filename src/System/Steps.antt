-- ===== src/System/Steps.antt =====
-- What a move of a goroutine does to the invariant and to the hub.
use django_websocket_gateway.Common.{
  List, ◌∷◌, bytes_eq, nat_eq, false, ◌≡◌, ◌≢◌, refl, ap, inl, inr, arith, some, ==_refl, Returns,
  Returns-ok, Returns-bind,
}
use django_websocket_gateway.Common.Int.{int_eq}
use django_websocket_gateway.Common.Chan.{Chan, recv}
use django_websocket_gateway.Common.Set
use django_websocket_gateway.Common.Set.{IsNodup, contains-append, append-IsNodup}
use django_websocket_gateway.Pump.{Wake, cancelled, lifetime_over, tick}
use django_websocket_gateway.Client.{Ptr}
use django_websocket_gateway.Manager.{ChannelManager}
use django_websocket_gateway.Json.{Json}
use django_websocket_gateway.Hub.State.{
  Hub, Event, register, unregister, subscribe, unsubscribe, incoming,
}
use django_websocket_gateway.Hub.Handlers.{handle}
use django_websocket_gateway.Hub.Invariant.Handlers.{Admissible, handle-Effect}
use django_websocket_gateway.Hub.Effect.{Effect}
use django_websocket_gateway.Hub.Effect.Inv.{Effect-Inv, Effect-IsFresh}
use django_websocket_gateway.Hub.Effect.Access.{Effect-IsGranted}
use django_websocket_gateway.System.{
  put_hub, take, take_register, take_unregister, take_subscribe, take_unsubscribe, take_incoming,
  step, accept, post_register, read_frame, stop_reading, take_frame, take_disconnect,
  pump_cancelled, pump_expired, pump_tick, if_pumping, after_round, post_spawned, deliver,
  run_register, run_unregister, run_subscribe, run_unsubscribe, run_incoming, run_done, System,
  Move, post_registration, accept_client,
}
use django_websocket_gateway.System.Takes.{take-cases}
use django_websocket_gateway.System.Pumps.{
  end_loop-SameRegistry, read-SameRegistry, stop-SameRegistry, if_pumping-SameRegistry,
  after_round-SameRegistry, drain_send-SameRegistry, drain_disconnect-SameRegistry,
  post_unregistration-SameRegistry, receive-SameRegistry,
}
use django_websocket_gateway.System.Accepts.{post_registration-Inv, accept_client-Inv}
use django_websocket_gateway.System.Invariant.{
  SystemInv, SameRegistry, SystemInv-SameRegistry, SameRegistry-eq,
}

recv-buf {ℓ} :
    {A : Type ℓ} (c rest : Chan A) (v : A) → recv c ≡ some (v, rest) → c.buf ≡ v ∷ rest.buf
recv-buf c rest v e = ground arith

ap-IsNodup :
    {xs ys : List Ptr} {c : Ptr}
    → xs ≡ c ∷ ys
    → IsNodup xs
    → (Set.contains c ys ≡ false) × IsNodup ys
ap-IsNodup m h = rw m at h

register-ne : {c p : Ptr} → c ≢ p → register c ≢ register p
register-ne h e = h cc

module _ {M : Type 0} (ops : ChannelManager M) where
  -- What a move does to the hub: nothing to the channels, the manager and the configuration, or an
  -- event's effect.
  pub data HubStep (h k : Hub M) : Type 0 where
    still : k.manager ≡ h.manager → k.channels ≡ h.channels → k.cfg ≡ h.cfg → HubStep h k
    event : (e : Event) → Effect ops e h k → HubStep h k

  pub record Stepped (s t : System M) : Type 0 where
    pub inv : SystemInv t
    pub hub_step : HubStep s.hub t.hub

  Stepped-SameRegistry : {s t : System M} → SystemInv s → SameRegistry s t → Stepped s t
  Stepped-SameRegistry v same = record {
    inv = SystemInv-SameRegistry v same;
    hub_step = still same.hub.manager same.hub.channels same.hub.cfg;
  }

module _ {M : Type 0} (ops : ChannelManager M) (json : Json) where
  -- Any event but a registration, taken from a channel that the registry does not look at.
  put_hub-Inv :
      (s t : System M) (e : Event)
      → SystemInv s
      → SameRegistry s t
      → ((p : Ptr) → e ≢ register p)
      → Admissible e s.hub
      → Returns (put_hub t (handle ops json e s.hub)) (Stepped ops s)
  put_hub-Inv s t e v same other fit =
      Returns-bind (handle-Effect ops json s.hub v.hub e fit) λ k effect. Returns-ok _ (record {
        hub_step = event e effect;
        inv = record {
          hub = Effect-Inv ops v.hub effect;
          granted = Effect-IsGranted ops effect v.granted;
          queued = λ p m.
              Effect-IsFresh ops v.hub effect p (other p)
                (v.queued p (rw (ap (λ q. Set.contains p q.buf) same.register_chan) at m));
          nodup = rw same.register_chan v.nodup;
          waiting = λ p a.
              let (f, out) = v.waiting p (same.accepts p a) in
              (Effect-IsFresh ops v.hub effect p (other p) f, rw same.register_chan out);
          unused = λ p le.
              let (a, f, out) = v.unused p (rw same.fresh at le) in
              (
                same.absents p a,
                Effect-IsFresh ops v.hub effect p (other p) f,
                rw same.register_chan out,
              );
        };
      })

  -- The client whose registration is taken is fresh, and is not in the Go channel again.
  registered-Inv :
      (s : System M) (c : Ptr) (rest : Chan Ptr)
      → SystemInv s
      → recv s.register_chan ≡ some (c, rest)
      → Returns
          (put_hub (record s { register_chan = rest }) (handle ops json (register c) s.hub))
          (Stepped ops s)
  unfolding Set.contains
  registered-Inv s c rest v e =
      let m = recv-buf s.register_chan rest c e in
      let has = λ (p : Ptr). ap (Set.contains p) m in
      let (out, nodup) = ap-IsNodup m v.nodup in
      Returns-bind
        (handle-Effect ops json s.hub v.hub (register c)
          (v.queued c (ground (arith, has c, ==_refl c))))
        λ k effect. Returns-ok _ (record {
          hub_step = event (register c) effect;
          inv = record {
            hub = Effect-Inv ops v.hub effect;
            granted = Effect-IsGranted ops effect v.granted;
            queued = λ p r.
                Effect-IsFresh ops v.hub effect p (register-ne (ground arith))
                  (v.queued p (ground (arith, has p)));
            nodup = nodup;
            waiting = λ p a.
                let (f, away) = v.waiting p a in
                (
                  Effect-IsFresh ops v.hub effect p (register-ne (ground (arith, has p))) f,
                  ground (arith, has p),
                );
            unused = λ p le.
                let (a, f, away) = v.unused p le in
                (
                  a,
                  Effect-IsFresh ops v.hub effect p (register-ne (ground (arith, has p))) f,
                  ground (arith, has p),
                );
          };
        })

  take-Inv :
      {A : Type 0} (q : Chan A) (put : Chan A → System M) (to_event : A → Event) (s : System M)
      → SystemInv s
      → ((x : A) (rest : Chan A)
          → recv q ≡ some (x, rest)
          → Returns (put_hub (put rest) (handle ops json (to_event x) s.hub)) (Stepped ops s))
      → Returns (take ops json q put to_event s) (Stepped ops s)
  take-Inv q put to_event s v k = elim (take-cases ops json q put to_event s) [
    | inl e ↦ rw e (Returns-ok s (record { inv = v; hub_step = still refl refl refl }))
    | inr (x, rest, _, e, same) ↦ rw same (k x rest e)
  ]

  round-Stepped :
      (c : Ptr) (w : Wake) (s : System M)
      → SystemInv s
      → Stepped ops s (if_pumping c (after_round c w s) s)
  round-Stepped c w s v = Stepped-SameRegistry ops v (
      if_pumping-SameRegistry c s _
        (after_round-SameRegistry c w s s (SameRegistry-eq s s refl refl refl refl)))

  -- Every move of every goroutine comes to an end without a panic and keeps the invariant.
  pub step-Inv :
      (m : Move) (s : System M) → SystemInv s → Returns (step ops json m s) (Stepped ops s)
  unfolding step take_register take_unregister take_subscribe take_unsubscribe take_incoming
  step-Inv (accept now id key allowed) s v = Returns-ok _ (record {
    inv = accept_client-Inv now id key allowed s v;
    hub_step = unfold accept_client in still refl refl refl;
  })
  step-Inv (post_register c) s v = Returns-ok _ (record {
    inv = post_registration-Inv c s v;
    hub_step =
        still (unfold post_registration in ground arith) (unfold post_registration in ground arith)
          (unfold post_registration in ground arith);
  })
  step-Inv (read_frame c bytes) s v =
      Returns-ok _ (Stepped-SameRegistry ops v (read-SameRegistry json c bytes s))
  step-Inv (stop_reading c) s v = Returns-ok _ (Stepped-SameRegistry ops v (stop-SameRegistry c s))
  step-Inv (take_frame c fails) s v = Returns-ok _ (
      Stepped-SameRegistry ops v
        (if_pumping-SameRegistry c s _ (drain_send-SameRegistry c fails s)))
  step-Inv (take_disconnect c) s v = Returns-ok _ (
      Stepped-SameRegistry ops v
        (if_pumping-SameRegistry c s _ (drain_disconnect-SameRegistry c s)))
  step-Inv (pump_cancelled c) s v = Returns-ok _ (round-Stepped c cancelled s v)
  step-Inv (pump_expired c) s v = Returns-ok _ (round-Stepped c lifetime_over s v)
  step-Inv (pump_tick c fails) s v = Returns-ok _ (round-Stepped c (tick fails) s v)
  step-Inv (post_spawned c) s v =
      Returns-ok _ (Stepped-SameRegistry ops v (post_unregistration-SameRegistry c s))
  step-Inv (deliver ch payload) s v =
      Returns-ok _ (Stepped-SameRegistry ops v (receive-SameRegistry ch payload s))
  step-Inv run_done s v = Returns-ok _ (Stepped-SameRegistry ops v (end_loop-SameRegistry s))
  step-Inv run_register s v =
      take-Inv s.register_chan (λ rest. record s { register_chan = rest }) register s v
        (λ c rest. registered-Inv s c rest v)
  step-Inv run_unregister s v =
      take-Inv s.unregister_chan (λ rest. record s { unregister_chan = rest }) unregister s v
        (λ x rest e.
          put_hub-Inv s _ (unregister x) v (SameRegistry-eq s _ refl refl refl refl) (λ p. cc) tt)
  step-Inv run_subscribe s v =
      take-Inv s.subscribe_chan (λ rest. record s { subscribe_chan = rest })
        (λ p. subscribe p.0 p.1) s v
        (λ x rest e.
          put_hub-Inv s _ (subscribe x.0 x.1) v (SameRegistry-eq s _ refl refl refl refl) (λ p. cc)
            tt)
  step-Inv run_unsubscribe s v =
      take-Inv s.unsubscribe_chan (λ rest. record s { unsubscribe_chan = rest })
        (λ p. unsubscribe p.0 p.1) s v
        (λ x rest e.
          put_hub-Inv s _ (unsubscribe x.0 x.1) v (SameRegistry-eq s _ refl refl refl refl)
            (λ p. cc) tt)
  step-Inv run_incoming s v =
      take-Inv s.incoming_chan (λ rest. record s { incoming_chan = rest }) (λ p. incoming p.0 p.1) s
        v
        (λ x rest e.
          put_hub-Inv s _ (incoming x.0 x.1) v (SameRegistry-eq s _ refl refl refl refl) (λ p. cc)
            tt)
