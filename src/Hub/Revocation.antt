-- ===== src/Hub/Revocation.antt =====
-- The control messages: revocations.
use django_websocket_gateway.Common.{
  ℕ, List, [], ◌∷◌, Bytes, bytes_eq, nat_eq, text, Option, none, some, Bool, true, false, ◌≡◌, refl,
  ◌∙◌, arith, if◌then◌else◌, ◌==◌, ==_refl, ◌>>=◌, inl, inr, Bool-cases, Option-cases, Returns-both,
  Returns, Returns-ok, Returns-bind, Returns-mono,
}
use django_websocket_gateway.Common.Set
use django_websocket_gateway.Common.Set.{IsNodup}
use django_websocket_gateway.Client.{Ptr, DisconnectReason, close_session_revoked}
use django_websocket_gateway.Manager.{ChannelManager}
use django_websocket_gateway.Json.{Json, ControlPayload}
use django_websocket_gateway.Hub.State.{Hub, members, store, unsubscribe, incoming}
use django_websocket_gateway.Hub.Delivery.{disconnect_all}
use django_websocket_gateway.Hub.Handlers.{
  is_control, handle, handle_client_unsubscribe, handle_control_message, handle_incoming,
}
use django_websocket_gateway.Hub.Invariant.{Inv}
use django_websocket_gateway.Hub.Invariant.Delivery.{
  SameRouting, SameRouting-refl, Inv-SameRouting, signal-SameRouting, disconnect_all-SameRouting,
}
use django_websocket_gateway.Hub.Invariant.Subscription.{without_channel, drop_channel-Inv}
use django_websocket_gateway.Hub.Routing.Laws.{remove-SameElsewhere, contains-members-remove}
use django_websocket_gateway.Hub.Fanout.{told, signal-told}

abbrev pub revoked : DisconnectReason
revoked = record { code = close_session_revoked; reason = text "session_revoked" }

-- What a payload asks for.
abbrev pub is_revoke : Option ControlPayload → Bool
is_revoke none = false
is_revoke (some parsed) = parsed.kind == text "revoke"

module _ {M : Type 0} where
  -- The clients that a control message is about.
  abbrev pub revoked_by : Json → Bytes → Bytes → Hub M → List Ptr
  revoked_by json ch payload h =
      if is_revoke (json.control_payload payload) then members ch h else []

  unfoldable pub Told : DisconnectReason → List Ptr → Hub M → Hub M → Type 0
  Told reason cs h k =
      ((p : Ptr) → k.heap p ≡ (if Set.contains p cs then told reason (h.heap p) else h.heap p))
      × (k.spawned ≡ h.spawned)

  pub disconnect_all-Told :
      (cs : List Ptr) (code : ℕ) (reason : Bytes) (h : Hub M)
      → Inv h
      → IsNodup cs
      → Returns
          (disconnect_all cs code reason h)
          (Told (record { code = code; reason = reason }) cs h)
  unfolding disconnect_all Told Set.contains
  disconnect_all-Told [] code reason h v _ = Returns-ok h (λ p. refl, refl)
  disconnect_all-Told (c ∷ cs) code reason h v (out, n) =
      Returns-bind
        (Returns-both (signal-told c _ h (v.open_disconnect c))
          (signal-SameRouting c _ h (v.open_disconnect c)))
        λ k ((e, spawned), s).
          Returns-mono (disconnect_all-Told cs code reason k (Inv-SameRouting v s) n)
            λ l (e', spawned'). (λ p. ground (arith, e p, e' p), spawned' ∙ spawned)

module _ {M : Type 0} (ops : ChannelManager M) (json : Json) where
  -- On a hub that meets the invariant, a message on a control channel that asks to revoke tells
  -- each client in the channel once to disconnect with code 4401, where that client's Go channel
  -- for such signals has room, and changes no other client. Any other message on a control channel
  -- changes no client. In both cases no goroutine is started, nobody's subscriptions or
  -- registration change, and nothing panics.
  pub handle_incoming-revocation :
      (ch payload : Bytes) (h : Hub M)
      → Inv h
      → is_control ch ≡ true
      → Returns (handle_incoming ops json ch payload h) (λ k.
        ((p : Ptr)
          → k.heap p ≡ (
              if Set.contains p (revoked_by json ch payload h)
              then told revoked (h.heap p)
              else h.heap p))
        × (k.spawned ≡ h.spawned)
        × SameRouting h k)
  unfolding handle_incoming handle_control_message Set.contains Told
  handle_incoming-revocation ch payload h v control =
      rw control (elim (Option-cases (json.control_payload payload)) [
        | inl bad ↦
            rw (bad, handle_control_message) (Returns-ok h (λ p. refl, refl, SameRouting-refl h))
        | inr (parsed, good) ↦ elim (Bool-cases (parsed.kind == text "revoke")) [
          | inl revoke ↦
              rw (good, handle_control_message)
                (rw revoke (
                  Returns-mono
                    (Returns-both (disconnect_all-Told (members ch h) _ _ h v (v.nodup_members ch))
                      (disconnect_all-SameRouting (members ch h) _ _ h v))
                    λ k ((e, spawned), s). (e, spawned, s)))
          | inr other ↦
              rw (good, handle_control_message)
                (rw other (Returns-ok h (λ p. refl, refl, SameRouting-refl h)))
        ]
      ])

  -- What a client leaves behind in the hub when it unsubscribes.
  record HasLeft (c : Ptr) (ch : Bytes) (h k : Hub M) : Type 0 where
    inv : Inv k
    stays : Set.contains c k.clients ≡ true
    gone : Set.contains c (members ch k) ≡ false
    signals : (k.heap c).disconnect ≡ (h.heap c).disconnect

  unsubscribe-HasLeft :
      (c : Ptr) (ch : Bytes) (h : Hub M)
      → Inv h
      → Set.contains c h.clients ≡ true
      → Set.contains ch (h.heap c).subscribed ≡ true
      → Returns (handle_client_unsubscribe ops json c ch h) (HasLeft c ch h)
  unfolding handle_client_unsubscribe store
  unsubscribe-HasLeft c ch h v r old =
      let middle = without_channel ops c ch h in
      let same = remove-SameElsewhere ops c ch middle in
      rw (r, handle_client_unsubscribe)
        (rw old (
          Returns-ok _ (record {
            inv = drop_channel-Inv ops c ch h v;
            stays = ground (arith, same);
            gone =
                ground (arith, contains-members-remove ops c c ch ch middle, ==_refl c, ==_refl ch);
            signals = ground (arith, same, ==_refl c);
          })))

  -- On a hub that meets the invariant, a registered client that is in a control channel, such as
  -- that of its own session, may unsubscribe from it. Whatever message then comes on that channel,
  -- the client stays registered, and no disconnect signal is queued for it.
  pub unsubscribe-evades :
      (c : Ptr) (ch payload : Bytes) (h : Hub M)
      → Inv h
      → is_control ch ≡ true
      → Set.contains c (members ch h) ≡ true
      → Returns
          (do k ← handle ops json (unsubscribe c ch) h; handle ops json (incoming ch payload) k)
          (λ l. (Set.contains c l.clients ≡ true) × ((l.heap c).disconnect ≡ (h.heap c).disconnect))
  unfolding handle Set.contains
  unsubscribe-evades c ch payload h v control m =
      let law = v.listed c ch in
      Returns-bind (unsubscribe-HasLeft c ch h v (ground (arith, law)) (ground (arith, law)))
        λ k left.
          Returns-mono (handle_incoming-revocation ch payload k left.inv control) λ l (e, _, same).
            (ground (arith, same.clients, left.stays), ground (arith, e c, left.gone, left.signals))
