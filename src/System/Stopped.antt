-- ===== src/System/Stopped.antt =====
-- What goes on after `Hub.Run` has returned.
use django_websocket_gateway.Common.{
  if_true_or, List, [], ◌∷◌, ◌++◌, bytes_eq, nat_eq, true, ◌≡◌, ◌∙◌, ap, sym, refl, ok, append-nil,
  append_assoc,
}
use django_websocket_gateway.Manager.{ChannelManager}
use django_websocket_gateway.Json.{Json}
use django_websocket_gateway.Hub.State.{store}
use django_websocket_gateway.System.Keeps.Steps.{KeepsAlways, run-always}
use django_websocket_gateway.System.{System, Move, after_round, accept_client, end_loop, run}

-- A queue that keeps what it has, in front.
abbrev pub Extends {ℓ} : {A : Type ℓ} → List A → List A → Type ℓ
Extends xs ys = (rest : List _) × (ys ≡ xs ++ rest)

Extends-refl {ℓ} : {A : Type ℓ} (xs : List A) → Extends xs xs
Extends-refl xs = ([], sym (append-nil xs))

Extends-push {ℓ} : {A : Type ℓ} (xs ys : List A) (x : A) → Extends xs ys → Extends xs (ys ++ x ∷ [])
Extends-push xs ys x (r, e) = (r ++ x ∷ [], ap (λ l. l ++ x ∷ []) e ∙ append_assoc xs r (x ∷ []))

module _ {M : Type 0} where
  -- The hub has the same clients, channels and users, and the same manager.
  abbrev pub SameHub : System M → System M → Type 0
  SameHub s t =
      (t.hub.clients ≡ s.hub.clients)
      × (t.hub.channels ≡ s.hub.channels)
      × (t.hub.user_clients ≡ s.hub.user_clients)
      × (t.hub.manager ≡ s.hub.manager)

  -- The Go channels of the hub have what they had, in front.
  abbrev pub Undrained : System M → System M → Type 0
  Undrained s t =
      Extends s.register_chan.buf t.register_chan.buf
      × Extends s.unregister_chan.buf t.unregister_chan.buf
      × Extends s.subscribe_chan.buf t.subscribe_chan.buf
      × Extends s.unsubscribe_chan.buf t.unsubscribe_chan.buf
      × Extends s.incoming_chan.buf t.incoming_chan.buf

  abbrev pub Frozen : System M → System M → Type 0
  Frozen s t = SameHub s t × Undrained s t × (t.loop_ended ≡ true)

module _ {M : Type 0} (ops : ChannelManager M) (json : Json) where
  keeps-Frozen : (s : System M) → KeepsAlways ops json (Frozen s)
  unfolding accept_client store after_round end_loop
  keeps-Frozen s = record {
    accepts = λ now id key allowed t g v. v;
    registers = λ c t (hub, (r, u, a, b, i), over). (hub, (Extends-push _ _ _ r, u, a, b, i), over);
    subscribes =
        λ x t (hub, (r, u, a, b, i), over). (hub, (r, u, Extends-push _ _ _ a, b, i), over);
    unsubscribes =
        λ x t (hub, (r, u, a, b, i), over). (hub, (r, u, a, Extends-push _ _ _ b, i), over);
    unregisters =
        λ c t (hub, (r, u, a, b, i), over). (hub, (r, Extends-push _ _ _ u, a, b, i), over);
    takes_frame = λ c rest t v. v;
    takes_signal = λ c rest t v. v;
    rounds = λ c w t by on v. v;
    spawned =
        λ c rest t (hub, (r, u, a, b, i), over). (hub, (r, Extends-push _ _ _ u, a, b, i), over);
    receives = λ x t (hub, (r, u, a, b, i), over). (hub, (r, u, a, b, Extends-push _ _ _ i), over);
    ends = λ t (hub, kept, over).
        if_true_or (Frozen s) t.ctx_done (λ _. (hub, kept, refl)) (hub, kept, over);
    handles = λ e t u h on j (_, _, over) took there. absurd (cc (sym over ∙ on));
  }

  -- Once `Hub.Run` has returned, it stays so: whatever the schedule from there that comes to an end, the hub's
  -- clients, channels and users and its manager stay as they were, and all that its Go channels held stays in
  -- them, at their front and in the same order.
  pub run-stopped :
      (ms : List Move) (s t : System M)
      → s.loop_ended ≡ true
      → run ops json ms s ≡ ok t
      → Frozen s t
  run-stopped ms s t over = run-always ops json (Frozen s) (keeps-Frozen s) ms s t (
    (refl, refl, refl, refl),
    (Extends-refl _, Extends-refl _, Extends-refl _, Extends-refl _, Extends-refl _),
    over,
  )
