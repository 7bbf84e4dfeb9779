-- ===== src/Hub/Machine.antt =====
-- The hub as an abstract machine: who is registered, who is in which channel and who is among a user's
-- connections, before and after one event of the loop of gateway/hub.go, told without the handlers.
use django_websocket_gateway.Common.{
  ℕ, suc, Bytes, bytes_eq, nat_eq, Bool, true, false, not, ◌&&◌, ◌||◌, ◌==◌, ◌≡◌, ◌∙◌, refl, ap,
  sym, inl, inr, arith, Bool-cases, Option-cases, list_beq_iff, List, Option, none, some, length,
  Returns, Returns-ok, Returns-mono, Returns-both,
}
use django_websocket_gateway.Common.Int.{ℤ, pos, negsuc, int_eq, is_positive, at_most}
use django_websocket_gateway.Common.Map
use django_websocket_gateway.Common.Set
use django_websocket_gateway.Client.{Ptr}
use django_websocket_gateway.Manager.{ChannelManager}
use django_websocket_gateway.Json.{Json}
use django_websocket_gateway.Hub.State.{
  Hub, Event, register, unregister, subscribe, unsubscribe, incoming, members, connections,
  session_channel, user_channel, store, or_empty,
}
use django_websocket_gateway.Hub.Routing.Laws.{contains-members-remove, remove-SameElsewhere}
use django_websocket_gateway.Hub.Handlers.{
  is_control, matches_channel_regex, is_full, is_user_full, holds_at_least, handle,
  handle_client_subscribe, handle_client_unsubscribe, handle_register, handle_unregister,
  handle_incoming,
}
use django_websocket_gateway.Hub.Invariant.{Inv}
use django_websocket_gateway.Hub.Invariant.Delivery.{SameRouting}
use django_websocket_gateway.Hub.Invariant.Subscription.{without_channel}
use django_websocket_gateway.Hub.Invariant.Handlers.{Admissible, handle-Effect}
use django_websocket_gateway.Hub.Effect.Inv.{Effect-Inv}
use django_websocket_gateway.Hub.Queues.Handlers.{handle-Growth}
use django_websocket_gateway.Hub.Admission.{handle_register-admitted, handle_register-refused}
use django_websocket_gateway.Hub.Departure.{handle_unregister-departed, unregister-stranger}
use django_websocket_gateway.Hub.Subscribing.{subscribe-joined, subscribe-refused, refusal}
use django_websocket_gateway.Hub.Fanout.{handle_incoming-fanout}
use django_websocket_gateway.Hub.Revocation.{handle_incoming-revocation}

-- A limit that is positive is reached.
abbrev pub is_reached : ℤ → ℕ → Bool
is_reached max n = is_positive max && at_most max n

module _ {M : Type 0} (h : Hub M) where
  -- There is no room for `c`, in all or for its user.
  abbrev pub has_no_room : Ptr → Bool
  has_no_room c =
      is_reached h.cfg.max_connections_total (length h.clients)
      || is_reached h.cfg.max_connections_per_user (length (connections (h.heap c).user_id h))

  -- `c` may join `ch` by a subscribe frame.
  abbrev pub may_join : Ptr → Bytes → Bool
  may_join c ch =
      Set.contains c h.clients
      && matches_channel_regex ch
      && not (is_control ch)
      && Set.contains ch (h.heap c).allowed_channels

  -- After the event `p` is registered.
  abbrev pub registered_after : Event → Ptr → Bool
  registered_after (register c) p = (c == p && not (has_no_room c)) || Set.contains p h.clients
  registered_after (unregister c) p = not (c == p) && Set.contains p h.clients
  registered_after (subscribe c ch) p = Set.contains p h.clients
  registered_after (unsubscribe c ch) p = Set.contains p h.clients
  registered_after (incoming ch payload) p = Set.contains p h.clients

  -- After the event `p` is in the channel `x`.
  abbrev pub member_after : Event → Ptr → Bytes → Bool
  member_after (register c) p x =
      (c == p
        && not (has_no_room c)
        && (session_channel (h.heap c).session_key == x || user_channel (h.heap c).user_id == x))
      || Set.contains p (members x h)
  member_after (unregister c) p x = not (c == p) && Set.contains p (members x h)
  member_after (subscribe c ch) p x =
      (c == p && ch == x && may_join c ch) || Set.contains p (members x h)
  member_after (unsubscribe c ch) p x = not (c == p && ch == x) && Set.contains p (members x h)
  member_after (incoming ch payload) p x = Set.contains p (members x h)

  -- The hub `k` is as the machine says.
  abbrev pub Follows : Event → Hub M → Type 0
  Follows e k =
      ((p : Ptr) → Set.contains p k.clients ≡ registered_after e p)
      × ((p : Ptr) (x : Bytes) → Set.contains p (members x k) ≡ member_after e p x)

  pub SameRouting-members :
      {k : Hub M}
      → SameRouting h k
      → ((p : Ptr) → Set.contains p k.clients ≡ Set.contains p h.clients)
        × ((p : Ptr) (x : Bytes) → Set.contains p (members x k) ≡ Set.contains p (members x h))
  SameRouting-members s = (
    λ p. ap (Set.contains p) s.clients,
    λ p x. ap (λ m. Set.contains p (or_empty (Map.get x m))) s.channels,
  )

reached_lem :
    (max : ℤ) (o : Option (List Ptr))
    → (is_positive max && holds_at_least max o) ≡ is_reached max (length (or_empty o))
reached_lem max (some s) = refl
reached_lem (pos ℕ.zero) none = refl
reached_lem (pos (suc k)) none = ground arith
reached_lem (negsuc k) none = refl

module _ {M : Type 0} (h : Hub M) where
  no_room_lem : (c : Ptr) → (is_full h || is_user_full (h.heap c).user_id h) ≡ has_no_room h c
  unfolding is_full is_user_full
  no_room_lem c =
      ap (λ b. is_full h || b)
        (reached_lem h.cfg.max_connections_per_user (Map.get (h.heap c).user_id h.user_clients))

  -- Where `c` is not in, nothing goes when it goes.
  absent_stays :
      (c p : Ptr) (s : List Ptr) (b : Bool)
      → Set.contains c s ≡ false
      → Set.contains p s ≡ (not (c == p && b) && Set.contains p s)
  absent_stays c p s b out = elim (Bool-cases (c == p)) [
    | inl same ↦
        let here : c ≡ p = ground (arith, same) in
        let gone : Set.contains p s ≡ false = rw (← here) out in rw gone (ground arith)
    | inr other ↦ rw other refl
  ]

  stranger_stays :
      (c : Ptr) (ch : Bytes)
      → Set.contains c (members ch h) ≡ false
      → (p : Ptr) (x : Bytes)
      → Set.contains p (members x h) ≡ (not (c == p && ch == x) && Set.contains p (members x h))
  stranger_stays c ch out p x = elim (Bool-cases (ch == x)) [
    | inl same ↦
        let here : ch ≡ x = (list_beq_iff ch x).0 same in
        absent_stays c p (members x h) (ch == x)
          (ap (λ y. Set.contains c (members y h)) (sym here) ∙ out)
    | inr other ↦ rw other (ground arith)
  ]

  refusal-none :
      (c : Ptr) (ch : Bytes)
      → Set.contains c h.clients ≡ true
      → refusal ch (h.heap c) ≡ none
      → may_join h c ch ≡ true
  refusal-none c ch r e = ground arith

  refusal-some :
      (c : Ptr) (ch reason : Bytes) → refusal ch (h.heap c) ≡ some reason → may_join h c ch ≡ false
  refusal-some c ch reason e = ground arith

module _ {M : Type 0} (ops : ChannelManager M) (json : Json) (h : Hub M) (v : Inv h) where
  quiet-register :
      (c : Ptr) {k : Hub M} → has_no_room h c ≡ true → SameRouting h k → Follows h (register c) k
  quiet-register c full s =
      let (a, b) = SameRouting-members h s in
      rw full (λ p. a p ∙ ground arith, λ p x. b p x ∙ ground arith)

  register-Follows :
      (c : Ptr)
      → Admissible (register c) h
      → Returns (handle_register ops json c h) (Follows h (register c))
  register-Follows c f = elim (Bool-cases (has_no_room h c)) [
    | inl full ↦
        Returns-mono (handle_register-refused ops json c h v (no_room_lem h c ∙ full))
          λ k (_, _, s). quiet-register c full s
    | inr room ↦
        Returns-mono (handle_register-admitted ops json c h v f (no_room_lem h c ∙ room))
          λ k (a, b, _). rw room (λ p. a p ∙ ground arith, λ p x. b p x ∙ ground arith)
  ]

  unregister-Follows :
      (c : Ptr) → Returns (handle_unregister ops json c h) (Follows h (unregister c))
  unregister-Follows c = elim (Bool-cases (Set.contains c h.clients)) [
    | inl r ↦
        Returns-mono (handle_unregister-departed ops json c h v r) λ k (a, b, _, _, _, _). (a, b)
    | inr out ↦ rw (unregister-stranger ops json c h out) (
        Returns-ok h (
          λ p. absent_stays h c p h.clients true out ∙ ground arith,
          λ p x.
              let law = v.listed c x in
              absent_stays h c p (members x h) true (ground (arith, law)) ∙ ground arith,
        ))
  ]

  subscribe-Follows :
      (c : Ptr) (ch : Bytes)
      → Returns (handle_client_subscribe ops json c ch h) (Follows h (subscribe c ch))
  unfolding handle_client_subscribe
  subscribe-Follows c ch = elim (Bool-cases (Set.contains c h.clients)) [
    | inl r ↦ elim (Option-cases (refusal ch (h.heap c))) [
      | inl granted ↦
          let may = refusal-none h c ch r granted in
          Returns-mono (subscribe-joined ops json c ch h v r granted)
            λ k (b, a). (λ p. ap (Set.contains p) a, λ p x. b p x ∙ ground (arith, may))
      | inr (reason, denied) ↦
          let may = refusal-some h c ch reason denied in
          Returns-mono (subscribe-refused ops json c ch reason h v r denied) λ k (_, _, s).
            let (a, b) = SameRouting-members h s in (a, λ p x. b p x ∙ ground (arith, may))
    ]
    | inr out ↦ rw out (Returns-ok h (λ p. refl, λ p x. ground arith))
  ]

  unsubscribe-Follows :
      (c : Ptr) (ch : Bytes)
      → Returns (handle_client_unsubscribe ops json c ch h) (Follows h (unsubscribe c ch))
  unfolding handle_client_unsubscribe store
  unsubscribe-Follows c ch =
      elim (Bool-cases (Set.contains c h.clients && Set.contains ch (h.heap c).subscribed)) [
        | inl both ↦
            let r : Set.contains c h.clients ≡ true = ground (arith, both) in
            let old : Set.contains ch (h.heap c).subscribed ≡ true = ground (arith, both) in
            rw r (
              rw old (
                Returns-ok _ (
                  λ p.
                      ap (Set.contains p)
                        (remove-SameElsewhere ops c ch (without_channel ops c ch h)).clients,
                  λ p x. contains-members-remove ops c p ch x (without_channel ops c ch h),
                )))
        | inr other ↦
            let law = v.listed c ch in
            let stays = stranger_stays h c ch (ground (arith, law, other)) in
            elim (Bool-cases (Set.contains c h.clients)) [
              | inl r ↦
                  let new : Set.contains ch (h.heap c).subscribed ≡ false =
                    ground (arith, r, other) in
                  rw r (rw new (Returns-ok h (λ p. refl, stays)))
              | inr out ↦ rw out (Returns-ok h (λ p. refl, stays))
            ]
      ]

  incoming-Follows :
      (ch payload : Bytes)
      → Returns (handle_incoming ops json ch payload h) (Follows h (incoming ch payload))
  incoming-Follows ch payload = elim (Bool-cases (is_control ch)) [
    | inl control ↦
        Returns-mono (handle_incoming-revocation ops json ch payload h v control)
          λ k (_, _, s). SameRouting-members h s
    | inr public ↦
        Returns-mono (handle_incoming-fanout ops json ch payload h v public)
          λ k (_, _, s). SameRouting-members h s
  ]

  handle-Follows : (e : Event) → Admissible e h → Returns (handle ops json e h) (Follows h e)
  unfolding handle
  handle-Follows (register c) f = register-Follows c f
  handle-Follows (unregister c) _ = unregister-Follows c
  handle-Follows (subscribe c ch) _ = subscribe-Follows c ch
  handle-Follows (unsubscribe c ch) _ = unsubscribe-Follows c ch
  handle-Follows (incoming ch payload) _ = incoming-Follows ch payload

  -- On a hub that meets the invariant, every event of the loop is handled without a panic, where a client
  -- that registers is fresh, and does what the abstract machine does: after it exactly the clients that
  -- `registered_after` says are registered, exactly those that `member_after` says are in each channel, and the
  -- connections of each user are the registered clients with its id.
  pub handle-Machine :
      (e : Event)
      → Admissible e h
      → Returns (handle ops json e h) (λ k.
        ((p : Ptr) → Set.contains p k.clients ≡ registered_after h e p)
        × ((p : Ptr) (x : Bytes) → Set.contains p (members x k) ≡ member_after h e p x)
        × ((p : Ptr) (u : ℤ)
            → Set.contains p (connections u k)
              ≡ (registered_after h e p && (h.heap p).user_id == u)))
  handle-Machine e f =
      Returns-mono
        (Returns-both (handle-Follows e f)
          (Returns-both (handle-Effect ops json h v e f) (handle-Growth ops json h v e)))
        λ k ((a, b), (effect, growth)). (
          a,
          b,
          λ p u.
              let same : (k.heap p).user_id ≡ (h.heap p).user_id =
                ap (λ (i : Bytes × ℤ × Bytes). i.1) (growth p).id in
              (Effect-Inv ops v effect).owned p u ∙ ground (arith, a p, same),
        )
