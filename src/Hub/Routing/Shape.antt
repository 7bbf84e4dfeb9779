-- ===== src/Hub/Routing/Shape.antt =====
-- The shape of the sets of `h.channels`.
use django_websocket_gateway.Common.{
  List, [], ◌∷◌, Bytes, bytes_eq, nat_eq, Option, none, some, ◌==◌, ◌≢◌, inl, inr, arith,
  Bool-cases, Option-cases,
}
use django_websocket_gateway.Common.Int.{int_eq}
use django_websocket_gateway.Common.Map
use django_websocket_gateway.Common.Map.{get-put, get-delete}
use django_websocket_gateway.Common.Set
use django_websocket_gateway.Common.Set.{
  contains, contains-add, contains-delete, add-ne-nil, IsNodup, add-IsNodup, delete-IsNodup,
}
use django_websocket_gateway.Client.{Ptr}
use django_websocket_gateway.Manager.{ChannelManager}
use django_websocket_gateway.Hub.State.{Hub, members, or_empty}
use django_websocket_gateway.Hub.Routing.{join, leave, remove_from_channel, leave_all}

put-IsNodup :
    (k j : Bytes) (s : List Ptr) (m : List (Bytes × List Ptr))
    → ((y : Bytes) → IsNodup (or_empty (Map.get y m)))
    → IsNodup s
    → IsNodup (or_empty (Map.get j (Map.put k s m)))
put-IsNodup k j s m n r =
    rw get-put (elim (Bool-cases (k == j)) [ inl same ↦ rw same r | inr other ↦ rw other (n j) ])

module _ {M : Type 0} (ops : ChannelManager M) where
  -- No operation leaves a channel with an empty set behind.
  pub occupied-join :
      (c : Ptr) (ch x : Bytes) (old : Option (List Ptr)) (h : Hub M)
      → Map.get x h.channels ≢ some []
      → Map.get x (join ops c ch old h).channels ≢ some []
  unfolding join
  occupied-join c ch x none h o = rw get-put (ground (arith, o, add-ne-nil c []))
  occupied-join c ch x (some s) h o = rw get-put (ground (arith, o, add-ne-nil c s))

  occupied-leave :
      (ch x : Bytes) (rest : List Ptr) (h : Hub M)
      → Map.get x h.channels ≢ some []
      → Map.get x (leave ops ch rest h).channels ≢ some []
  unfolding leave
  occupied-leave ch x [] h o = rw get-delete (ground arith)
  occupied-leave ch x (y ∷ ys) h o = rw get-put (ground arith)

  pub occupied-remove :
      (c : Ptr) (ch x : Bytes) (h : Hub M)
      → Map.get x h.channels ≢ some []
      → Map.get x (remove_from_channel ops c ch h).channels ≢ some []
  unfolding remove_from_channel
  occupied-remove c ch x h o = elim (Option-cases (Map.get ch h.channels)) [
    | inl e ↦ rw (e, remove_from_channel) o
    | inr (s, e) ↦ rw (e, remove_from_channel) (occupied-leave ch x (Set.delete c s) h o)
  ]

  pub occupied-leave_all :
      (c : Ptr) (x : Bytes) (chs : List Bytes) (h : Hub M)
      → Map.get x h.channels ≢ some []
      → Map.get x (leave_all ops c chs h).channels ≢ some []
  unfolding leave_all
  occupied-leave_all c x [] h o = o
  occupied-leave_all c x (ch ∷ chs) h o =
      occupied-leave_all c x chs (remove_from_channel ops c ch h) (occupied-remove c ch x h o)

  -- Nor does one list a client twice.
  pub join-IsNodup :
      (c : Ptr) (ch x : Bytes) (h : Hub M)
      → ((y : Bytes) → IsNodup (members y h))
      → IsNodup (members x (join ops c ch (Map.get ch h.channels) h))
  unfolding join
  join-IsNodup c ch x h n = elim (Option-cases (Map.get ch h.channels)) [
    | inl e ↦ rw (e, join) (put-IsNodup ch x _ h.channels n (add-IsNodup c [] tt))
    | inr (s, e) ↦ rw (e, join) (put-IsNodup ch x _ h.channels n (add-IsNodup c s (rw e at (n ch))))
  ]

  leave-IsNodup :
      (ch x : Bytes) (rest : List Ptr) (h : Hub M)
      → ((y : Bytes) → IsNodup (members y h))
      → IsNodup rest
      → IsNodup (members x (leave ops ch rest h))
  unfolding leave
  leave-IsNodup ch x [] h n r =
      rw get-delete
        (elim (Bool-cases (ch == x)) [ inl same ↦ rw same tt | inr other ↦ rw other (n x) ])
  leave-IsNodup ch x (y ∷ ys) h n r = put-IsNodup ch x (y ∷ ys) h.channels n r

  pub remove-IsNodup :
      (c : Ptr) (ch x : Bytes) (h : Hub M)
      → ((y : Bytes) → IsNodup (members y h))
      → IsNodup (members x (remove_from_channel ops c ch h))
  unfolding remove_from_channel
  remove-IsNodup c ch x h n = elim (Option-cases (Map.get ch h.channels)) [
    | inl e ↦ rw (e, remove_from_channel) (n x)
    | inr (s, e) ↦
        rw (e, remove_from_channel)
          (leave-IsNodup ch x (Set.delete c s) h n (delete-IsNodup c s (rw e at (n ch))))
  ]

  pub leave_all-IsNodup :
      (c : Ptr) (chs : List Bytes) (h : Hub M)
      → ((y : Bytes) → IsNodup (members y h))
      → (x : Bytes) → IsNodup (members x (leave_all ops c chs h))
  unfolding leave_all
  leave_all-IsNodup c [] h n x = n x
  leave_all-IsNodup c (ch ∷ chs) h n x =
      leave_all-IsNodup c chs (remove_from_channel ops c ch h) (λ y. remove-IsNodup c ch y h n) x
