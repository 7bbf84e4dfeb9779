-- ===== src/Hub/Routing/Laws.antt =====
-- What the routing operations do to the memberships, the subscriptions and the registrations.
use django_websocket_gateway.Common.{
  List, [], ◌∷◌, Bytes, bytes_eq, nat_eq, Option, none, some, true, false, not, ◌&&◌, ◌||◌, ◌==◌,
  ◌≡◌, sym, ap, inl, inr, arith, if◌then◌else◌, Bool-cases, Option-cases, Eq,
}
use django_websocket_gateway.Common.Int.{ℤ, int_eq}
use django_websocket_gateway.Common.Map
use django_websocket_gateway.Common.Map.{get-put, get-delete}
use django_websocket_gateway.Common.Set
use django_websocket_gateway.Common.Set.{
  contains, contains-add, contains-delete, add-ne-nil, IsNodup, add-IsNodup, delete-IsNodup,
}
use django_websocket_gateway.Client.{Ptr}
use django_websocket_gateway.Manager.{ChannelManager}
use django_websocket_gateway.Hub.State.{Hub, members, connections, or_empty}
use django_websocket_gateway.Hub.Routing.{
  join, leave, remove_from_channel, leave_all, enlist, drop_user, delist,
}

-- A map of sets, seen through the membership of one pair.
module _ {K : Type 0} ⦃e : Eq K⦄ where
  pub contains-put :
      (k j : K) (c : Ptr) (s : List Ptr) (m : List (K × List Ptr))
      → contains c (or_empty (Map.get j (Map.put k s m)))
        ≡ (if k == j then contains c s else contains c (or_empty (Map.get j m)))
  contains-put k j c s m = rw get-put (ground arith)

  pub contains-drop :
      (k j : K) (c : Ptr) (m : List (K × List Ptr))
      → contains c (or_empty (Map.get j (Map.delete k m)))
        ≡ (if k == j then false else contains c (or_empty (Map.get j m)))
  unfolding contains
  contains-drop k j c m = rw get-delete (ground arith)

  pub get-same : (k j : K) (m : List (K × List Ptr)) → (k == j) ≡ true → Map.get j m ≡ Map.get k m
  get-same k j m h = ap (λ x. Map.get x m) (sym ((e.beq_iff k j).0 h))

  -- A change of the set at `k`, seen at `j`.
  module _ (k j : K) (c d : Ptr) (m : List (K × List Ptr)) where
    pub contains-put-add :
        contains d (or_empty (Map.get j (Map.put k (Set.add c (or_empty (Map.get k m))) m)))
        ≡ ((c == d && k == j) || contains d (or_empty (Map.get j m)))
    contains-put-add = rw contains-put (
        rw contains-add (elim (Bool-cases (k == j)) [
          | inl same ↦ rw (same, get-same k j m same) (ground arith)
          | inr other ↦ rw other (ground arith)
        ]))

    pub delete_at :
        (if k == j
          then contains d (Set.delete c (or_empty (Map.get k m)))
          else contains d (or_empty (Map.get j m)))
        ≡ (not (c == d && k == j) && contains d (or_empty (Map.get j m)))
    delete_at = rw contains-delete (elim (Bool-cases (k == j)) [
      | inl same ↦ rw (same, get-same k j m same) (ground arith)
      | inr other ↦ rw other (ground arith)
    ])

    pub delete_missing :
        Map.get k m ≡ none
        → contains d (or_empty (Map.get j m))
          ≡ (not (c == d && k == j) && contains d (or_empty (Map.get j m)))
    unfolding contains
    delete_missing e = elim (Bool-cases (k == j)) [
      | inl same ↦ rw (same, get-same k j m same, e) (ground arith)
      | inr other ↦ rw other (ground arith)
    ]

contains-drop_user :
    (c : Ptr) (u v : ℤ) (rest : List Ptr) (users : List (ℤ × List Ptr))
    → contains c (or_empty (Map.get v (drop_user u rest users)))
      ≡ (if u == v then contains c rest else contains c (or_empty (Map.get v users)))
unfolding drop_user contains
contains-drop_user c u v [] users = contains-drop u v c users
contains-drop_user c u v (y ∷ ys) users = contains-put u v c (y ∷ ys) users

module _ {M : Type 0} (c d : Ptr) (u : ℤ) (h : Hub M) where
  pub contains-connections-enlist :
      contains d (connections u (enlist c h))
      ≡ ((c == d && (h.heap c).user_id == u) || contains d (connections u h))
  unfolding enlist
  contains-connections-enlist = contains-put-add (h.heap c).user_id u c d h.user_clients

  pub contains-connections-delist :
      contains d (connections u (delist c h))
      ≡ (not (c == d && (h.heap c).user_id == u) && contains d (connections u h))
  unfolding delist
  contains-connections-delist =
      let id = (h.heap c).user_id in
      let law = delete_at id u c d h.user_clients in
      elim (Option-cases (Map.get id h.user_clients)) [
        | inl e ↦ rw (e, delist) (delete_missing id u c d h.user_clients e)
        | inr (s, e) ↦ rw (e, delist) (rw contains-drop_user (rw e at law))
      ]

module _ {M : Type 0} (ops : ChannelManager M) (c d : Ptr) (ch x : Bytes) (h : Hub M) where
  pub contains-members-join :
      contains d (members x (join ops c ch (Map.get ch h.channels) h))
      ≡ ((c == d && ch == x) || contains d (members x h))
  unfolding join
  contains-members-join =
      let law = contains-put-add ch x c d h.channels in
      elim (Option-cases (Map.get ch h.channels)) [
        | inl e ↦ rw (e, join) (rw e at law)
        | inr (s, e) ↦ rw (e, join) (rw e at law)
      ]

  contains-members-leave :
      (rest : List Ptr)
      → contains d (members x (leave ops ch rest h))
        ≡ (if ch == x then contains d rest else contains d (members x h))
  unfolding leave contains
  contains-members-leave [] = contains-drop ch x d h.channels
  contains-members-leave (y ∷ ys) = contains-put ch x d (y ∷ ys) h.channels

  pub contains-members-remove :
      contains d (members x (remove_from_channel ops c ch h))
      ≡ (not (c == d && ch == x) && contains d (members x h))
  unfolding remove_from_channel
  contains-members-remove =
      let law = delete_at ch x c d h.channels in
      elim (Option-cases (Map.get ch h.channels)) [
        | inl e ↦ rw (e, remove_from_channel) (delete_missing ch x c d h.channels e)
        | inr (s, e) ↦ rw (e, remove_from_channel) (rw contains-members-leave (rw e at law))
      ]

-- What a change of the memberships alone leaves as it was.
pub record SameElsewhere {M : Type 0} (h k : Hub M) : Type 0 where
  pub clients : k.clients ≡ h.clients
  pub user_clients : k.user_clients ≡ h.user_clients
  pub cfg : k.cfg ≡ h.cfg
  pub heap : k.heap ≡ h.heap
  pub spawned : k.spawned ≡ h.spawned

module _ {M : Type 0} (ops : ChannelManager M) where
  leave-SameElsewhere :
      (ch : Bytes) (rest : List Ptr) (h : Hub M) → SameElsewhere h (leave ops ch rest h)
  unfolding leave
  leave-SameElsewhere ch [] h = ground arith
  leave-SameElsewhere ch (y ∷ ys) h = ground arith

  pub remove-SameElsewhere :
      (c : Ptr) (ch : Bytes) (h : Hub M) → SameElsewhere h (remove_from_channel ops c ch h)
  unfolding remove_from_channel
  remove-SameElsewhere c ch h = elim (Option-cases (Map.get ch h.channels)) [
    | inl e ↦ rw (e, remove_from_channel) (ground arith)
    | inr (s, e) ↦ rw (e, remove_from_channel) (leave-SameElsewhere ch (Set.delete c s) h)
  ]

  pub leave_all-SameElsewhere :
      (c : Ptr) (chs : List Bytes) (h : Hub M) → SameElsewhere h (leave_all ops c chs h)
  unfolding leave_all
  leave_all-SameElsewhere c [] h = ground arith
  leave_all-SameElsewhere c (ch ∷ chs) h = ground (
    arith,
    remove-SameElsewhere c ch h,
    leave_all-SameElsewhere c chs (remove_from_channel ops c ch h),
  )

  pub contains-members-leave_all :
      (c d : Ptr) (x : Bytes) (chs : List Bytes) (h : Hub M)
      → contains d (members x (leave_all ops c chs h))
        ≡ (not (c == d && contains x chs) && contains d (members x h))
  unfolding leave_all contains
  contains-members-leave_all c d x [] h = ground arith
  contains-members-leave_all c d x (ch ∷ chs) h = ground (
    arith,
    contains-members-leave_all c d x chs (remove_from_channel ops c ch h),
    contains-members-remove ops c d ch x h,
  )

  pub join-SameElsewhere :
      (c : Ptr) (ch : Bytes) (old : Option (List Ptr)) (h : Hub M)
      → SameElsewhere h (join ops c ch old h)
  unfolding join
  join-SameElsewhere c ch none h = ground arith
  join-SameElsewhere c ch (some s) h = ground arith
