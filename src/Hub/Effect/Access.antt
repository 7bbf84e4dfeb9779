-- ===== src/Hub/Effect/Access.antt =====
-- Which channels a client can be in.
use django_websocket_gateway.Common.{
  Bytes, bytes_eq, nat_eq, Bool, true, false, ◌≡◌, ◌⊎◌, inl, inr, refl, sym, ap, subst, ◌∙◌, arith,
  list_beq_iff, ok, Bool-cases, ◌==◌, ◌&&◌, ◌||◌, List, [], ◌∷◌, not, if◌then◌else◌,
}
use django_websocket_gateway.Common.Set
use django_websocket_gateway.Common.Set.{contains-add, contains-delete, contains-subst}
use django_websocket_gateway.Common.Map
use django_websocket_gateway.Client.{Ptr, Client}
use django_websocket_gateway.Manager.{ChannelManager}
use django_websocket_gateway.Hub.State.{Hub, Event, session_channel, user_channel, store}
use django_websocket_gateway.Hub.Routing.{
  admit, enlist, add_subscription, remove_from_channel, delist, leave_all,
}
use django_websocket_gateway.Hub.Routing.Laws.{
  join-SameElsewhere, remove-SameElsewhere, leave_all-SameElsewhere,
}
use django_websocket_gateway.Hub.Delivery.{close_chan}
use django_websocket_gateway.Hub.Handlers.{is_control, is_invalid_channel, matches_channel_regex}
use django_websocket_gateway.Hub.Invariant.Delivery.{SameRouting}
use django_websocket_gateway.Hub.Invariant.Subscription.{with_channel, without_channel}
use django_websocket_gateway.Hub.Invariant.Registration.{delist-SameRest}
use django_websocket_gateway.Hub.Effect.{Effect, quiet, admitted, joined, parted, departed}

-- A client's own two control channels, and the channels that Django allowed it, where these have a
-- valid name that does not begin with an underscore.
abbrev pub Entitled : Client → Bytes → Type 0
Entitled a ch =
    (ch ≡ session_channel a.session_key)
    ⊎ (ch ≡ user_channel a.user_id)
    ⊎ ((Set.contains ch a.allowed_channels ≡ true)
        × (matches_channel_regex ch ≡ true)
        × (is_control ch ≡ false))

pub record SameIdentity (a b : Client) : Type 0 where
  pub user_id : b.user_id ≡ a.user_id
  pub session_key : b.session_key ≡ a.session_key
  pub allowed_channels : b.allowed_channels ≡ a.allowed_channels

pub Entitled-SameIdentity :
    (a b : Client) (ch : Bytes) → SameIdentity a b → Entitled a ch → Entitled b ch
Entitled-SameIdentity a b ch s e = rw (s.user_id, s.session_key, s.allowed_channels) e

abbrev pub IsGranted : {M : Type 0} → Hub M → Type 0
IsGranted h =
    (p : Ptr) (ch : Bytes) → Set.contains ch (h.heap p).subscribed ≡ true → Entitled (h.heap p) ch

both_tests : (m r : Bool) → (if not m then ok true else ok r) ≡ ok false → (m ≡ true) × (r ≡ false)
both_tests true r h = (refl, cc)
both_tests false r h = cc

-- A valid name that passes both tests of `handleClientSubscribe`.
valid_name :
    (ch : Bytes)
    → is_invalid_channel ch ≡ ok false
    → (matches_channel_regex ch ≡ true) × (is_control ch ≡ false)
unfolding is_invalid_channel is_control
valid_name [] h = cc
valid_name (b ∷ bs) h = both_tests (matches_channel_regex (b ∷ bs)) (b == b'_') h

at_same :
    {M : Type 0} (c p : Ptr) (ch x : Bytes) (h : Hub M)
    → Entitled (h.heap c) ch
    → (c == p && ch == x) ≡ true
    → Entitled (h.heap p) x
at_same c p ch x h n e =
    let same_client : c ≡ p = ground arith in
    let same_name : ch ≡ x = ground (arith, list_beq_iff ch x) in
    subst (λ q. Entitled (h.heap q) x) same_client (subst (λ y. Entitled (h.heap c) y) same_name n)

module _ {M : Type 0} where
  pub SameRouting-IsGranted : {h k : Hub M} → SameRouting h k → IsGranted h → IsGranted k
  SameRouting-IsGranted {h} {k} s g p x m =
      Entitled-SameIdentity (h.heap p) (k.heap p) x (ground (arith, s.heap p))
        (g p x (ground (arith, s.heap p)))

  close_chan-IsGranted : (c : Ptr) (h : Hub M) → IsGranted h → IsGranted (close_chan c h)
  unfolding close_chan store
  close_chan-IsGranted c h g p x m =
      Entitled-SameIdentity (h.heap p) ((close_chan c h).heap p) x (ground arith)
        (g p x (ground arith))

module _ {M : Type 0} (ops : ChannelManager M) where
  -- What `addSubscription` does to each client.
  pub add_subscription-heap :
      (c p : Ptr) (ch x : Bytes) (h : Hub M)
      → (Set.contains x ((add_subscription ops c ch h).heap p).subscribed
          ≡ ((c == p && ch == x) || Set.contains x (h.heap p).subscribed))
        × SameIdentity (h.heap p) ((add_subscription ops c ch h).heap p)
  unfolding add_subscription store
  add_subscription-heap c p ch x h =
      let same = join-SameElsewhere ops c ch (Map.get ch h.channels) (with_channel ops c ch h) in
      elim (Bool-cases (Set.contains ch (h.heap c).subscribed)) [
        | inl old ↦
            rw (old, add_subscription) (ground (arith, contains-subst ch x (h.heap c).subscribed))
        | inr new ↦
            rw (new, add_subscription)
              (ground (arith, same, contains-add ch x (h.heap c).subscribed))
      ]

  add_subscription-IsGranted :
      (c : Ptr) (ch : Bytes) (h : Hub M)
      → IsGranted h
      → Entitled (h.heap c) ch
      → IsGranted (add_subscription ops c ch h)
  add_subscription-IsGranted c ch h g new p x m =
      let (law, same) = add_subscription-heap c p ch x h in
      elim (Bool-cases (c == p && ch == x)) [
        | inl here ↦ Entitled-SameIdentity _ _ x same (at_same c p ch x h new here)
        | inr other ↦ Entitled-SameIdentity _ _ x same (g p x (ground (arith, law)))
      ]

  admit-IsGranted : (c : Ptr) (h : Hub M) → IsGranted h → IsGranted (admit ops c h)
  unfolding admit enlist
  admit-IsGranted c h g =
      let first = session_channel (h.heap c).session_key in
      let (_, same) = add_subscription-heap c c first first (enlist c h) in
      add_subscription-IsGranted c (user_channel (h.heap c).user_id) _
        (add_subscription-IsGranted c first (enlist c h) g (inl refl))
        (inr (inl (ap user_channel (sym same.user_id))))

  drop_channel-IsGranted :
      (c : Ptr) (ch : Bytes) (h : Hub M)
      → IsGranted h
      → IsGranted (remove_from_channel ops c ch (without_channel ops c ch h))
  unfolding store
  drop_channel-IsGranted c ch h g p x m =
      let same = remove-SameElsewhere ops c ch (without_channel ops c ch h) in
      let old : Set.contains x (h.heap p).subscribed ≡ true =
        ground (arith, same, contains-delete ch x (h.heap c).subscribed) in
      Entitled-SameIdentity (h.heap p)
        ((remove_from_channel ops c ch (without_channel ops c ch h)).heap p) x
        (ground (arith, same)) (g p x old)

  leave_all-IsGranted :
      (c : Ptr) (chs : List Bytes) (h : Hub M)
      → IsGranted h
      → IsGranted (leave_all ops c chs (delist c h))
  leave_all-IsGranted c chs h g p x m =
      let same = (leave_all-SameElsewhere ops c chs (delist c h)).heap ∙ (delist-SameRest c h).2 in
      rw same (g p x (rw (ap (λ f. Set.contains x (f p).subscribed) same) at m))

  -- No event gives a client a channel that it is not entitled to.
  pub Effect-IsGranted : {e : Event} {h k : Hub M} → Effect ops e h k → IsGranted h → IsGranted k
  Effect-IsGranted (quiet s) g = SameRouting-IsGranted s g
  Effect-IsGranted {h} (admitted c _ _ _ _ same) g = rw same (admit-IsGranted c h g)
  Effect-IsGranted {h} (joined c ch _ _ valid allowed same) g =
      let (regex, public) = valid_name ch valid in
      rw same (add_subscription-IsGranted c ch h g (inr (inr (allowed, regex, public))))
  Effect-IsGranted {h} (parted c ch _ _ _ same) g = rw same (drop_channel-IsGranted c ch h g)
  Effect-IsGranted {h} (departed c m _ _ s same) g =
      rw same (close_chan-IsGranted c m (SameRouting-IsGranted s (leave_all-IsGranted c _ h g)))
