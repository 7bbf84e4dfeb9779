-- ===== src/System/Invariant.antt =====
-- What holds after every schedule: the hub's invariant, and that a client is registered once.
use django_websocket_gateway.Common.{◌≤◌, bytes_eq, nat_eq, true, false, ◌≡◌, refl, ap}
use django_websocket_gateway.Common.Int.{int_eq}
use django_websocket_gateway.Common.Set
use django_websocket_gateway.Common.Set.{IsNodup, contains-append, append-IsNodup}
use django_websocket_gateway.Client.{Ptr}
use django_websocket_gateway.Hub.State.{Hub}
use django_websocket_gateway.Hub.Invariant.{Inv, IsFresh}
use django_websocket_gateway.Hub.Invariant.Delivery.{
  SameRouting, SameRouting-refl, Inv-SameRouting, IsFresh-SameRouting,
}
use django_websocket_gateway.Hub.Effect.Access.{IsGranted, SameRouting-IsGranted}
use django_websocket_gateway.System.{absent, accepted, System}

pub record SystemInv {M : Type 0} (s : System M) : Type 0 where
  pub hub : Inv s.hub
  -- Nobody is in a channel that was not granted.
  pub granted : IsGranted s.hub
  -- Who is about to be registered was never registered before.
  pub queued : (c : Ptr) → Set.contains c s.register_chan.buf ≡ true → IsFresh c s.hub
  pub nodup : IsNodup s.register_chan.buf
  pub waiting :
      (c : Ptr)
      → s.phase c ≡ accepted
      → IsFresh c s.hub × (Set.contains c s.register_chan.buf ≡ false)
  -- There is no client yet from `fresh` on.
  pub unused :
      (c : Ptr)
      → s.fresh ≤ c
      → (s.phase c ≡ absent) × IsFresh c s.hub × (Set.contains c s.register_chan.buf ≡ false)

module _ {M : Type 0} where
  -- The part of the state that the invariant is about.
  pub record SameRegistry (s t : System M) : Type 0 where
    pub hub : SameRouting s.hub t.hub
    pub register_chan : t.register_chan ≡ s.register_chan
    pub accepts : (c : Ptr) → t.phase c ≡ accepted → s.phase c ≡ accepted
    pub absents : (c : Ptr) → s.phase c ≡ absent → t.phase c ≡ absent
    pub fresh : t.fresh ≡ s.fresh

  pub SystemInv-SameRegistry : {s t : System M} → SystemInv s → SameRegistry s t → SystemInv t
  SystemInv-SameRegistry v k = record {
    hub = Inv-SameRouting v.hub k.hub;
    granted = SameRouting-IsGranted k.hub v.granted;
    queued = λ c m.
        IsFresh-SameRouting (v.queued c (rw (ap (λ q. Set.contains c q.buf) k.register_chan) at m))
          k.hub;
    nodup = rw k.register_chan v.nodup;
    waiting = λ c a.
        let (f, out) = v.waiting c (k.accepts c a) in
        (IsFresh-SameRouting f k.hub, rw k.register_chan out);
    unused = λ c le.
        let (a, f, out) = v.unused c (rw k.fresh at le) in
        (k.absents c a, IsFresh-SameRouting f k.hub, rw k.register_chan out);
  }

  -- A move that leaves hub and phases as they are, or changes a buffer of a client.
  pub SameRegistry-eq :
      (s t : System M)
      → t.hub ≡ s.hub
      → t.register_chan ≡ s.register_chan
      → t.phase ≡ s.phase
      → t.fresh ≡ s.fresh
      → SameRegistry s t
  SameRegistry-eq s t h r p f = record {
    hub = rw h (SameRouting-refl s.hub);
    register_chan = r;
    accepts = λ c a. rw (ap (λ q. q c) p) at a;
    absents = λ c a. rw p a;
    fresh = f;
  }

  pub SameRegistry-hub :
      (s : System M) (h : Hub M) → SameRouting s.hub h → SameRegistry s (record s { hub = h })
  SameRegistry-hub s h r = record {
    hub = r;
    register_chan = refl;
    accepts = λ c a. a;
    absents = λ c a. a;
    fresh = refl;
  }
