-- ===== src/Hub/Invariant/Registration.antt =====
-- A client that comes: `handleRegister` past its guards, and the maps of the clients and the
-- users.
use django_websocket_gateway.Common.{
  ℕ, zero, suc, ◌+◌, ◌≤◌, List, [], ◌∷◌, bytes_eq, nat_eq, true, false, ◌&&◌, ◌≡◌, ◌≢◌, refl, inl,
  inr, arith, Bool-cases, Option-cases, length, if◌then◌else◌, ◌==◌, ==_refl,
}
use django_websocket_gateway.Common.Int.{ℤ, pos, negsuc, int_eq, is_positive, at_most}
use django_websocket_gateway.Common.Map
use django_websocket_gateway.Common.Map.{get-put, get-delete}
use django_websocket_gateway.Common.Set
use django_websocket_gateway.Common.Set.{
  IsNodup, contains-add, contains-delete, add-IsNodup, delete-IsNodup, length-add-le,
  length-delete-le,
}
use django_websocket_gateway.Client.{Ptr}
use django_websocket_gateway.Manager.{ChannelManager}
use django_websocket_gateway.Hub.State.{Hub, connections, or_empty, session_channel, user_channel}
use django_websocket_gateway.Hub.Routing.{enlist, admit, drop_user, delist, add_subscription}
use django_websocket_gateway.Hub.Routing.Laws.{get-same, contains-connections-enlist}
use django_websocket_gateway.Hub.Handlers.{is_full, is_user_full}
use django_websocket_gateway.Hub.Invariant.{Within, Inv, IsFresh}
use django_websocket_gateway.Hub.Invariant.Subscription.{
  add_subscription-Inv, add_subscription-IsFresh, clients-add_subscription,
}

pub Within-shrink : (limit : ℤ) (m n : ℕ) → m ≤ n → Within limit n → Within limit m
Within-shrink (pos zero) m n h w = tt
Within-shrink (pos (suc k)) m n h w = omega arith
Within-shrink (negsuc k) m n h w = tt

-- Where the guard let one more pass, the limit still holds.
Within-grow :
    (limit : ℤ) (m n : ℕ)
    → m ≤ n + 1
    → (is_positive limit && at_most limit n) ≡ false
    → Within limit m
Within-grow (pos zero) m n h g = tt
Within-grow (pos (suc k)) m n h g = ground arith
Within-grow (negsuc k) m n h g = tt

at_most-zero : (limit : ℤ) → (is_positive limit && at_most limit 0) ≡ false
at_most-zero (pos zero) = refl
at_most-zero (pos (suc k)) = ground arith
at_most-zero (negsuc k) = refl

connections-drop_user :
    (u v : ℤ) (rest : List Ptr) (users : List (ℤ × List Ptr))
    → or_empty (Map.get v (drop_user u rest users))
      ≡ (if u == v then rest else or_empty (Map.get v users))
unfolding drop_user
connections-drop_user u v [] users = rw get-delete (ground arith)
connections-drop_user u v (y ∷ ys) users = rw get-put (ground arith)

module _ {M : Type 0} (c : Ptr) (h : Hub M) where
  -- The clients of each user, after the change.
  connections-enlist :
      (u : ℤ)
      → connections u (enlist c h) ≡ (
          if (h.heap c).user_id == u
          then Set.add c (connections (h.heap c).user_id h)
          else connections u h)
  unfolding enlist
  connections-enlist u = rw get-put (ground arith)

  connections-delist :
      (u : ℤ)
      → connections u (delist c h) ≡ (
          if (h.heap c).user_id == u
          then Set.delete c (connections (h.heap c).user_id h)
          else connections u h)
  unfolding delist Set.delete
  connections-delist u = elim (Option-cases (Map.get (h.heap c).user_id h.user_clients)) [
    | inl e ↦
        rw (e, delist)
          (elim (Bool-cases ((h.heap c).user_id == u)) [
            | inl same ↦ rw (same, get-same _ u h.user_clients same, e) refl
            | inr other ↦ rw other
          ])
    | inr (s, e) ↦ rw (e, delist) (connections-drop_user (h.heap c).user_id u _ h.user_clients)
  ]

  user_limit :
      is_user_full (h.heap c).user_id h ≡ false
      → (is_positive h.cfg.max_connections_per_user
          && at_most h.cfg.max_connections_per_user (length (connections (h.heap c).user_id h)))
        ≡ false
  unfolding is_user_full
  user_limit g = elim (Option-cases (Map.get (h.heap c).user_id h.user_clients)) [
    | inl e ↦ rw e (at_most-zero h.cfg.max_connections_per_user)
    | inr (s, e) ↦ rw e (rw e at g)
  ]

  enlist-Inv :
      Inv h
      → IsFresh c h
      → is_full h ≡ false
      → is_user_full (h.heap c).user_id h ≡ false
      → Inv (enlist c h)
  unfolding enlist is_full Set.contains
  enlist-Inv v f room user_room =
      let id = (h.heap c).user_id in
      record {
        listed = λ d x. ground (arith, contains-add c d h.clients, v.listed d x, f);
        owned = λ d u.
            ground
              (arith, contains-add c d h.clients, contains-connections-enlist c d u h, v.owned d u);
        open_send = λ d m. ground (arith, contains-add c d h.clients, v.open_send d, f);
        open_disconnect = v.open_disconnect;
        nodup_clients = add-IsNodup c h.clients v.nodup_clients;
        nodup_members = v.nodup_members;
        nodup_users = λ u. rw (connections-enlist u) (elim (Bool-cases (id == u)) [
          | inl same ↦ rw same (add-IsNodup c (connections id h) (v.nodup_users id))
          | inr other ↦ rw other (v.nodup_users u)
        ]);
        occupied = v.occupied;
        within_total =
            Within-grow h.cfg.max_connections_total _ (length h.clients) (length-add-le c h.clients)
              room;
        within_user = λ u. rw (connections-enlist u) (elim (Bool-cases (id == u)) [
          | inl same ↦ rw same (
              Within-grow h.cfg.max_connections_per_user _ (length (connections id h))
                (length-add-le c (connections id h)) (user_limit user_room))
          | inr other ↦ rw other (v.within_user u)
        ]);
      }

  pub delist-SameRest :
      ((delist c h).clients ≡ Set.delete c h.clients)
      × ((delist c h).channels ≡ h.channels)
      × ((delist c h).heap ≡ h.heap)
      × ((delist c h).cfg ≡ h.cfg)
  unfolding delist
  delist-SameRest = ground arith

  pub delist-users :
      Inv h
      → (u : ℤ)
      → IsNodup (connections u (delist c h))
        × Within h.cfg.max_connections_per_user (length (connections u (delist c h)))
  delist-users v u =
      let id = (h.heap c).user_id in
      rw (connections-delist u) (elim (Bool-cases (id == u)) [
        | inl same ↦ rw same (
          delete-IsNodup c (connections id h) (v.nodup_users id),
          Within-shrink h.cfg.max_connections_per_user _ (length (connections id h))
              (length-delete-le c (connections id h)) (v.within_user id),
        )
        | inr other ↦ rw other (v.nodup_users u, v.within_user u)
      ])

  pub enlist-IsFresh : (p : Ptr) → p ≢ c → IsFresh p h → IsFresh p (enlist c h)
  unfolding enlist
  enlist-IsFresh p other f = ground (arith, contains-add c p h.clients)

module _ {M : Type 0} (ops : ChannelManager M) (c : Ptr) (h : Hub M) where
  pub admit-Inv :
      Inv h
      → IsFresh c h
      → is_full h ≡ false
      → is_user_full (h.heap c).user_id h ≡ false
      → Inv (admit ops c h)
  unfolding admit
  admit-Inv v f room user_room =
      let v' = enlist-Inv c h v f room user_room in
      let listed' : Set.contains c (enlist c h).clients ≡ true =
        unfold enlist in rw contains-add (rw ==_refl refl) in
      let k = add_subscription ops c (session_channel (h.heap c).session_key) (enlist c h) in
      let same =
        clients-add_subscription ops c (session_channel (h.heap c).session_key) (enlist c h) in
      add_subscription-Inv ops c (user_channel (h.heap c).user_id) k
        (add_subscription-Inv ops c (session_channel (h.heap c).session_key) (enlist c h) v'
          listed')
        (rw same listed')

  pub admit-IsFresh : (p : Ptr) → p ≢ c → IsFresh p h → IsFresh p (admit ops c h)
  unfolding admit
  admit-IsFresh p other f =
      add_subscription-IsFresh ops c _ _ p other
        (add_subscription-IsFresh ops c _ _ p other (enlist-IsFresh c h p other f))
