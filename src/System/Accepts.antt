-- ===== src/System/Accepts.antt =====
-- A connection that is accepted, and its client on the way to the hub.
use django_websocket_gateway.Common.{
  ℕ, List, [], ◌∷◌, Bytes, bytes_eq, nat_eq, ◌&&◌, ◌≡◌, refl, inl, inr, arith, Bool-cases, ◌==◌,
}
use django_websocket_gateway.Common.Int.{ℤ, int_eq}
use django_websocket_gateway.Common.Chan.{has_room}
use django_websocket_gateway.Common.Set
use django_websocket_gateway.Common.Set.{IsNodup, contains-append, append-IsNodup}
use django_websocket_gateway.Client.{Ptr, Client, next, new_pump_client, allow_channels}
use django_websocket_gateway.Hub.State.{store}
use django_websocket_gateway.Hub.Invariant.Unregistration.{store-outside-Inv}
use django_websocket_gateway.System.{System, is_accepted, post_registration, accept_client}
use django_websocket_gateway.System.Invariant.{SystemInv}

-- `wsHandler` makes the client with nothing subscribed and nothing closed.
pub fresh_client :
    (allowed : List Bytes) (a : Client)
    → let b = allow_channels allowed a in
      (b.subscribed ≡ a.subscribed) × (b.send ≡ a.send) × (b.disconnect ≡ a.disconnect)
unfolding allow_channels
fresh_client [] a = (refl, refl, refl)
fresh_client (ch ∷ chs) a =
    fresh_client chs (record a { allowed_channels = Set.add ch a.allowed_channels })

module _ {M : Type 0} where
  -- `hub.register <- client`
  pub post_registration-Inv :
      (c : Ptr) (s : System M) → SystemInv s → SystemInv (post_registration c s)
  unfolding post_registration Set.contains
  post_registration-Inv c s v =
      elim (Bool-cases (is_accepted (s.phase c) && has_room s.register_chan)) [
        | inl go ↦
            let (f, out) = v.waiting c (ground arith) in
            let q = λ (p : Ptr). contains-append p s.register_chan.buf (c ∷ []) in
            rw go (record {
              hub = v.hub;
              granted = v.granted;
              queued = λ p m. ground (arith, q p, v.queued p, f);
              nodup = append-IsNodup c s.register_chan.buf out v.nodup;
              waiting = λ p a. ground (arith, q p, v.waiting p);
              unused = λ p le. ground (arith, q p, v.unused p le);
            })
        | inr blocked ↦ rw blocked v
      ]

  pub accept_client-Inv :
      (now : ℕ) (id : ℤ) (key : Bytes) (allowed : List Bytes) (s : System M)
      → SystemInv s
      → SystemInv (accept_client now id key allowed s)
  unfolding accept_client store Set.contains
  accept_client-Inv now id key allowed s v =
      let new = allow_channels allowed (new_pump_client s.hub.cfg (next s.counter) now id key) in
      let blank = fresh_client allowed (new_pump_client s.hub.cfg (next s.counter) now id key) in
      let (_, f, out) = v.unused s.fresh (omega arith) in
      record {
        hub = store-outside-Inv s.fresh new s.hub v.hub f.outside (ground (arith, blank));
        queued = λ p m. ground (arith, v.queued p m);
        granted = λ p x m. elim (Bool-cases (s.fresh == p)) [
          | inl same ↦ ground (arith, blank)
          | inr other ↦ rw other (v.granted p x (rw other at m))
        ];
        nodup = v.nodup;
        waiting = λ p a. ground (arith, blank, v.waiting p);
        unused = λ p le. ground (arith, v.unused p);
      }
