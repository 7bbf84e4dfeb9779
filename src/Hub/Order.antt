-- ===== src/Hub/Order.antt =====
-- The order in which a broadcast and a revocation range over a map, which Go leaves open.
use mathlib.Core.List.Permᴰ
use mathlib.Core.List.{Permᴰ}
use django_websocket_gateway.Common.{
  ℕ, List, ◌∷◌, Bytes, bytes_eq, nat_eq, true, ◌≡◌, refl, sym, ap, ◌∙◌, arith, ok, Returns,
  Returns-mono, Returns-both, All, Bool-cases, inl, inr,
}
use django_websocket_gateway.Common.Set
use django_websocket_gateway.Common.Set.{IsNodup}
use django_websocket_gateway.Common.Chan.{has_room}
use django_websocket_gateway.Client.{Ptr, Client}
use django_websocket_gateway.Hub.State.{Hub}
use django_websocket_gateway.Hub.Delivery.{deliver_all, disconnect_all}
use django_websocket_gateway.Hub.Invariant.{Inv}
use django_websocket_gateway.Hub.Invariant.Delivery.{
  SameRouting, deliver_all-SameRouting, disconnect_all-SameRouting,
}
use django_websocket_gateway.Hub.Fanout.{overflowing, Delivered, deliver_all-Delivered}
use django_websocket_gateway.Hub.Revocation.{Told, disconnect_all-Told}

contains-perm : {cs ds : List Ptr} (p : Ptr) → Permᴰ cs ds → Set.contains p cs ≡ Set.contains p ds
unfolding Set.contains
contains-perm p Permᴰ.nil = refl
contains-perm p (Permᴰ.cons e r) = ground (arith, e, contains-perm p r)
contains-perm p (Permᴰ.swap e f) = ground (arith, e, f)
contains-perm p (Permᴰ.trans r s) = contains-perm p r ∙ contains-perm p s

overflowing-perm :
    {cs ds : List Ptr} (f : Ptr → Client)
    → Permᴰ cs ds
    → Permᴰ (overflowing f cs) (overflowing f ds)
unfolding overflowing
overflowing-perm f Permᴰ.nil = Permᴰ.nil
overflowing-perm f (Permᴰ.cons {a} {b} e r) = elim (Bool-cases (has_room (f b).send)) [
  | inl room ↦ rw (e, room) (overflowing-perm f r)
  | inr none_left ↦ rw (e, none_left) (Permᴰ.cons refl (overflowing-perm f r))
]
overflowing-perm f (Permᴰ.swap {a' = c} {b' = d} {l} e e') =
    elim (Bool-cases (has_room (f d).send)) [
      | inl room ↦ elim (Bool-cases (has_room (f c).send)) [
        | inl room' ↦ rw (e, e', room, room') (Permᴰ.refl (overflowing f l))
        | inr none_left ↦ rw (e, e', room, none_left) (Permᴰ.refl (c ∷ overflowing f l))
      ]
      | inr none_left ↦ elim (Bool-cases (has_room (f c).send)) [
        | inl room' ↦ rw (e, e', none_left, room') (Permᴰ.refl (d ∷ overflowing f l))
        | inr none_left' ↦ rw (e, e', none_left, none_left') (Permᴰ.swap refl refl)
      ]
    ]
overflowing-perm f (Permᴰ.trans r s) = Permᴰ.trans (overflowing-perm f r) (overflowing-perm f s)

module _ {M : Type 0} where
  -- A hub that is known by its fields.
  pub same_hub :
      {h k l : Hub M}
      → SameRouting h k
      → SameRouting h l
      → ((p : Ptr) → k.heap p ≡ l.heap p)
      → k ≡ record l { spawned = k.spawned }
  same_hub {k} {l} s t e = λ i. record {
    clients = (s.clients ∙ sym t.clients) i;
    channels = (s.channels ∙ sym t.channels) i;
    user_clients = (s.user_clients ∙ sym t.user_clients) i;
    manager = (s.manager ∙ sym t.manager) i;
    cfg = (s.cfg ∙ sym t.cfg) i;
    heap = λ p. e p i;
    spawned = k.spawned;
  }

  -- On a hub that meets the invariant, a broadcast to registered clients, none of them twice, comes to
  -- the same hub whatever the order, but for the order in which the goroutines are started that
  -- unregister the slow clients.
  pub deliver_all-order :
      (cs ds : List Ptr) (payload : Bytes) (h : Hub M)
      → Inv h
      → Permᴰ cs ds
      → IsNodup cs
      → IsNodup ds
      → All (λ c. Set.contains c h.clients ≡ true) cs
      → All (λ c. Set.contains c h.clients ≡ true) ds
      → Returns (deliver_all cs payload h) (λ k.
        Returns
          (deliver_all ds payload h)
          (λ l. (k ≡ record l { spawned = k.spawned }) × Permᴰ k.spawned l.spawned))
  unfolding Delivered
  deliver_all-order cs ds payload h v perm n m r q =
      Returns-mono
        (Returns-both (deliver_all-Delivered cs payload h v n r)
          (deliver_all-SameRouting cs payload h v r))
        λ k ((e, spawned), s).
          Returns-mono
            (Returns-both (deliver_all-Delivered ds payload h v m q)
              (deliver_all-SameRouting ds payload h v q))
            λ l ((e', spawned'), t). (
              same_hub s t (λ p. ground (arith, e p, e' p, contains-perm p perm)),
              rw (spawned, spawned') (Permᴰ.append_left h.spawned (overflowing-perm h.heap perm)),
            )

  -- On a hub that meets the invariant, a revocation comes to the same hub in whatever order the
  -- clients are told.
  pub disconnect_all-order :
      (cs ds : List Ptr) (code : ℕ) (reason : Bytes) (h : Hub M)
      → Inv h
      → Permᴰ cs ds
      → IsNodup cs
      → IsNodup ds
      → disconnect_all cs code reason h ≡ disconnect_all ds code reason h
  unfolding Told
  disconnect_all-order cs ds code reason h v perm n m =
      let told_all = λ (xs : List Ptr) (k : IsNodup xs).
        Returns-both (disconnect_all-Told xs code reason h v k)
          (disconnect_all-SameRouting xs code reason h v) in
      let a = told_all cs n in
      let b = told_all ds m in
      let ((e, spawned), s) = a.holds in
      let ((e', spawned'), t) = b.holds in
      let heaps : (p : Ptr) → a.value.heap p ≡ b.value.heap p =
        λ p. ground (arith, e p, e' p, contains-perm p perm) in
      a.returned
      ∙ ap ok
          (same_hub s t heaps ∙ ap (λ q. record b.value { spawned = q }) (spawned ∙ sym spawned'))
      ∙ sym b.returned
