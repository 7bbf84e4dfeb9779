-- ===== src/Hub/Invariant/Delivery.antt =====
-- Sending to clients, and the invariant.
use django_websocket_gateway.Common.{
  ℕ, All, List, [], ◌∷◌, Bytes, nat_eq, true, false, ◌≡◌, refl, ◌∙◌, inl, inr, arith, Bool-cases,
  ltb, length, Returns, Returns-ok, Returns-bind, Returns-mono,
}
use django_websocket_gateway.Common.Set
use django_websocket_gateway.Common.Set.{All-of_contains}
use django_websocket_gateway.Client.{Ptr, Client, DisconnectReason}
use django_websocket_gateway.Hub.State.{Hub, store, members}
use django_websocket_gateway.Hub.Delivery.{signal, deliver_frame, deliver_all, disconnect_all}
use django_websocket_gateway.Hub.Invariant.{Inv, IsFresh}

pub record SameClient (a b : Client) : Type 0 where
  pub user_id : b.user_id ≡ a.user_id
  pub session_key : b.session_key ≡ a.session_key
  pub allowed_channels : b.allowed_channels ≡ a.allowed_channels
  pub subscribed : b.subscribed ≡ a.subscribed
  pub send_closed : b.send.closed ≡ a.send.closed
  pub disconnect_closed : b.disconnect.closed ≡ a.disconnect.closed

pub record SameRouting {M : Type 0} (h k : Hub M) : Type 0 where
  pub clients : k.clients ≡ h.clients
  pub channels : k.channels ≡ h.channels
  pub user_clients : k.user_clients ≡ h.user_clients
  pub manager : k.manager ≡ h.manager
  pub cfg : k.cfg ≡ h.cfg
  pub heap : (c : Ptr) → SameClient (h.heap c) (k.heap c)

module _ {M : Type 0} where
  pub SameRouting-refl : (h : Hub M) → SameRouting h h
  SameRouting-refl h = record {
    clients = refl;
    channels = refl;
    user_clients = refl;
    manager = refl;
    cfg = refl;
    heap = λ c. ground arith;
  }

  SameRouting-trans : {h k l : Hub M} → SameRouting h k → SameRouting k l → SameRouting h l
  SameRouting-trans a b = record {
    clients = b.clients ∙ a.clients;
    channels = b.channels ∙ a.channels;
    user_clients = b.user_clients ∙ a.user_clients;
    manager = b.manager ∙ a.manager;
    cfg = b.cfg ∙ a.cfg;
    heap = λ c. ground (arith, a.heap c, b.heap c);
  }

  -- A client is replaced by one that differs in its buffers only.
  pub store-SameRouting :
      (c : Ptr) (new : Client) (h : Hub M)
      → SameClient (h.heap c) new
      → SameRouting h (store c new h)
  unfolding store
  store-SameRouting c new h s = record {
    clients = refl;
    channels = refl;
    user_clients = refl;
    manager = refl;
    cfg = refl;
    heap = λ p. ground arith;
  }

  pub Inv-SameRouting : {h k : Hub M} → Inv h → SameRouting h k → Inv k
  Inv-SameRouting {h} {k} v s = record {
    listed = λ c ch. ground (arith, v.listed c ch, s.heap c);
    owned = λ c u. ground (arith, v.owned c u, s.heap c);
    open_send = λ c r. ground (arith, v.open_send c, s.heap c);
    open_disconnect = λ c. ground (arith, v.open_disconnect c, s.heap c);
    nodup_clients = rw s.clients v.nodup_clients;
    nodup_members = λ ch. rw s.channels (v.nodup_members ch);
    nodup_users = λ u. rw s.user_clients (v.nodup_users u);
    occupied = λ ch. rw s.channels (v.occupied ch);
    within_total = rw (s.clients, s.cfg) v.within_total;
    within_user = λ u. rw (s.user_clients, s.cfg) (v.within_user u);
  }

  pub IsFresh-SameRouting : {h k : Hub M} {c : Ptr} → IsFresh c h → SameRouting h k → IsFresh c k
  IsFresh-SameRouting {c} f s = ground (arith, s.heap c)

  pub signal-SameRouting :
      (c : Ptr) (reason : DisconnectReason) (h : Hub M)
      → (h.heap c).disconnect.closed ≡ false
      → Returns (signal c reason h) (SameRouting h)
  unfolding signal
  signal-SameRouting c reason h o =
      elim (Bool-cases (ltb (length (h.heap c).disconnect.buf) (h.heap c).disconnect.cap)) [
        | inl room ↦
            rw (o, signal) (rw room (Returns-ok _ (store-SameRouting c _ h (ground arith))))
        | inr none_left ↦ rw (o, signal) (rw none_left (Returns-ok h (SameRouting-refl h)))
      ]

  pub deliver_frame-SameRouting :
      (c : Ptr) (payload : Bytes) (h : Hub M)
      → (h.heap c).send.closed ≡ false
      → (h.heap c).disconnect.closed ≡ false
      → Returns (deliver_frame c payload h) (SameRouting h)
  unfolding deliver_frame
  deliver_frame-SameRouting c payload h o d =
      elim (Bool-cases (ltb (length (h.heap c).send.buf) (h.heap c).send.cap)) [
        | inl room ↦
            rw (o, deliver_frame) (rw room (Returns-ok _ (store-SameRouting c _ h (ground arith))))
        | inr none_left ↦
            rw (o, deliver_frame)
              (rw none_left (
                Returns-bind (signal-SameRouting c _ h d) (λ k s. Returns-ok _ (record {
                  clients = s.clients;
                  channels = s.channels;
                  user_clients = s.user_clients;
                  manager = s.manager;
                  cfg = s.cfg;
                  heap = s.heap;
                }))))
      ]

  pub disconnect_all-SameRouting :
      (cs : List Ptr) (code : ℕ) (reason : Bytes) (h : Hub M)
      → Inv h
      → Returns (disconnect_all cs code reason h) (SameRouting h)
  unfolding disconnect_all
  disconnect_all-SameRouting [] code reason h v = Returns-ok h (SameRouting-refl h)
  disconnect_all-SameRouting (c ∷ cs) code reason h v =
      Returns-bind (signal-SameRouting c _ h (v.open_disconnect c)) λ k s.
        Returns-mono (disconnect_all-SameRouting cs code reason k (Inv-SameRouting v s))
          λ l t. SameRouting-trans s t

  pub deliver_all-SameRouting :
      (cs : List Ptr) (payload : Bytes) (h : Hub M)
      → Inv h
      → All (λ c. Set.contains c h.clients ≡ true) cs
      → Returns (deliver_all cs payload h) (SameRouting h)
  unfolding deliver_all
  deliver_all-SameRouting [] payload h v _ = Returns-ok h (SameRouting-refl h)
  deliver_all-SameRouting (c ∷ cs) payload h v (r, rs) =
      Returns-bind (deliver_frame-SameRouting c payload h (v.open_send c r) (v.open_disconnect c))
        λ k s.
          Returns-mono
            (deliver_all-SameRouting cs payload k (Inv-SameRouting v s) (rw s.clients rs))
            λ l t. SameRouting-trans s t

  -- Every member of a channel is registered.
  pub members-registered :
      (ch : Bytes) (h : Hub M) → Inv h → All (λ c. Set.contains c h.clients ≡ true) (members ch h)
  members-registered ch h v = All-of_contains (members ch h) λ c m. ground (arith, v.listed c ch)
