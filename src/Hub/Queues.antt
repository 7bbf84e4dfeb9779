-- ===== src/Hub/Queues.antt =====
-- What an event of the loop puts into the queues of the clients, behind what is in them.
pub mod Handlers
use django_websocket_gateway.Common.{
  ℕ, List, [], ◌∷◌, ◌++◌, Bytes, bytes_eq, nat_eq, text, Option, none, some, Bool, true, false, not,
  ◌&&◌, ◌||◌, ◌≡◌, ◌⊎◌, ◌∙◌, refl, sym, ap, inl, inr, arith, All, ◌==◌, Bool-cases, Option-cases,
  if◌then◌else◌, append-nil, Returns, Returns-ok, Returns-bind, Returns-mono,
}
use django_websocket_gateway.Common.Int.{ℤ}
use django_websocket_gateway.Common.Set
use django_websocket_gateway.Common.Map
use django_websocket_gateway.Common.Chan.{has_room}
use django_websocket_gateway.Client.{Ptr, Client, DisconnectReason}
use django_websocket_gateway.Manager.{ChannelManager}
use django_websocket_gateway.Json.{Json}
use django_websocket_gateway.Hub.State.{
  Hub, Event, register, unregister, subscribe, unsubscribe, incoming, store, members,
}
use django_websocket_gateway.Hub.Routing.{
  admit, enlist, add_subscription, remove_from_channel, delist, leave_all,
}
use django_websocket_gateway.Hub.Routing.Laws.{
  join-SameElsewhere, remove-SameElsewhere, leave_all-SameElsewhere,
}
use django_websocket_gateway.Hub.Delivery.{close_chan, signal}
use django_websocket_gateway.Hub.Handlers.{
  is_control, is_full, is_user_full, matches_channel_regex, handle, handle_register,
  handle_unregister, dismiss, handle_client_subscribe, handle_client_unsubscribe, handle_incoming,
  judge_subscribe,
}
use django_websocket_gateway.Hub.Invariant.{Inv, IsFresh}
use django_websocket_gateway.Hub.Invariant.Subscription.{with_channel, without_channel}
use django_websocket_gateway.Hub.Invariant.Registration.{delist-SameRest}
use django_websocket_gateway.Hub.Invariant.Unregistration.{left-open}
use django_websocket_gateway.Hub.Invariant.Handlers.{Admissible}
use django_websocket_gateway.Hub.Fanout.{told, slow, offered, signal-told, handle_incoming-fanout}
use django_websocket_gateway.Hub.Revocation.{revoked, revoked_by, handle_incoming-revocation}
use django_websocket_gateway.Hub.Admission.{handle_register-refused}
use django_websocket_gateway.Hub.Subscribing.{
  refusal, subscribe-refused, handle_client_subscribe_lem,
}

-- The reasons for which the hub disconnects a client.
abbrev pub IsReason : ℕ → Bytes → Type 0
IsReason code reason =
    ((code ≡ 4401) × (reason ≡ text "session_revoked"))
    ⊎ ((code ≡ 4408) × (reason ≡ text "slow_client"))
    ⊎ ((code ≡ 4429) × (reason ≡ text "max_connections_total"))
    ⊎ ((code ≡ 4429) × (reason ≡ text "max_connections_per_user"))

-- Such a reason, or that the client was unregistered.
abbrev pub IsSignal : DisconnectReason → Type 0
IsSignal d = (d.code ≡ 0) ⊎ IsReason d.code d.reason

-- What a connection keeps: its id, its user and its session.
abbrev pub identity : Client → Bytes × ℤ × Bytes
identity a = (a.connection_id, a.user_id, a.session_key)

-- A client that is the same but for its subscriptions and what was put into its queues.
pub record Growth (F : Bytes → Type 0) (a b : Client) : Type 0 where
  pub allowed : b.allowed_channels ≡ a.allowed_channels
  pub id : identity b ≡ identity a
  pub frames : (news : List Bytes) × (b.send.buf ≡ a.send.buf ++ news) × All F news
  pub signals :
      (news : List DisconnectReason) × (b.disconnect.buf ≡ a.disconnect.buf ++ news)
      × All IsSignal news

-- A client with the same queues.
pub record SameQueues (a b : Client) : Type 0 where
  pub allowed : b.allowed_channels ≡ a.allowed_channels
  pub id : identity b ≡ identity a
  pub frames : b.send.buf ≡ a.send.buf
  pub signals : b.disconnect.buf ≡ a.disconnect.buf

module _ {F : Bytes → Type 0} where
  pub Growth-SameQueues : {a b c : Client} → SameQueues a b → Growth F b c → Growth F a c
  Growth-SameQueues s g = record {
    allowed = g.allowed ∙ s.allowed;
    id = g.id ∙ s.id;
    frames = let (news, e, all) = g.frames in (news, e ∙ ap (λ xs. xs ++ news) s.frames, all);
    signals = let (news, e, all) = g.signals in (news, e ∙ ap (λ xs. xs ++ news) s.signals, all);
  }

  pub Growth-refl : (a : Client) → Growth F a a
  Growth-refl a = record {
    allowed = refl;
    id = refl;
    frames = ([], sym (append-nil a.send.buf), tt);
    signals = ([], sym (append-nil a.disconnect.buf), tt);
  }

  pub SameQueues-Growth : {a b : Client} → SameQueues a b → Growth F a b
  SameQueues-Growth {b} s = Growth-SameQueues s (Growth-refl b)

  pub told-Growth :
      (reason : DisconnectReason) (a : Client) → IsSignal reason → Growth F a (told reason a)
  told-Growth reason a known = elim (Bool-cases (has_room a.disconnect)) [
    | inl room ↦ rw room (record {
      allowed = refl;
      id = refl;
      frames = ([], sym (append-nil a.send.buf), tt);
      signals = (reason ∷ [], refl, (known, tt));
    })
    | inr none_left ↦ rw none_left (Growth-refl a)
  ]

  pub offered-Growth : (payload : Bytes) (a : Client) → F payload → Growth F a (offered payload a)
  offered-Growth payload a good = elim (Bool-cases (has_room a.send)) [
    | inl room ↦ rw room (record {
      allowed = refl;
      id = refl;
      frames = (payload ∷ [], refl, (good, tt));
      signals = ([], sym (append-nil a.disconnect.buf), tt);
    })
    | inr none_left ↦ rw none_left (told-Growth slow a (inr (inr (inl (refl, refl)))))
  ]

  -- A client that is changed under a test.
  pub Growth-if :
      (t : Bool) (new a b : Client)
      → b ≡ (if t then new else a)
      → (t ≡ true → Growth F a new)
      → Growth F a b
  Growth-if true new a b e g = rw e (g refl)
  Growth-if false new a b e g = rw e (Growth-refl a)

-- The frames that an event has for a client: an answer to a request that is refused, or a message on
-- a public channel that the client is in.
abbrev pub IsError : Json → Bytes → Type 0
IsError json f = (ch reason : Bytes) × (f ≡ json.error_frame ch reason)

abbrev pub Cause : {M : Type 0} → Json → Event → Hub M → Ptr → Bytes → Type 0
Cause json (register c) h p f = ⊥
Cause json (unregister c) h p f = ⊥
Cause json (subscribe c ch) h p f = IsError json f
Cause json (unsubscribe c ch) h p f = ⊥
Cause json (incoming ch payload) h p f =
    (f ≡ payload) × (is_control ch ≡ false) × (Set.contains p (members ch h) ≡ true)
