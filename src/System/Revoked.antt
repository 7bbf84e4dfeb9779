-- ===== src/System/Revoked.antt =====
-- A revocation, from Redis to the close of the connection.
use django_websocket_gateway.Common.{
  List, [], ◌∷◌, ◌++◌, Bytes, bytes_eq, nat_eq, text, Option, true, false, ◌≡◌, ◌∙◌, ap, refl, ok,
  ==_refl, Returns, Returns-ok, Returns-bind, Returns-value,
}
use django_websocket_gateway.Common.Chan.{has_room, push}
use django_websocket_gateway.Common.Set
use django_websocket_gateway.Config.{Config}
use django_websocket_gateway.Client.{Ptr, Client}
use django_websocket_gateway.Manager.{ChannelManager}
use django_websocket_gateway.Json.{Json}
use django_websocket_gateway.Pump.{closed_with, wake_up}
use django_websocket_gateway.Hub.State.{members, incoming}
use django_websocket_gateway.Hub.Handlers.{handle, is_control}
use django_websocket_gateway.Hub.Fanout.{told}
use django_websocket_gateway.Hub.Revocation.{
  revoked, is_revoke, revoked_by, handle_incoming-revocation,
}
use django_websocket_gateway.Hub.Invariant.{Inv}
use django_websocket_gateway.System.Safety.{run-init-Inv}
use django_websocket_gateway.System.Takes.{if_true, if_false}
use django_websocket_gateway.System.Flush.{recv-cons}
use django_websocket_gateway.System.{
  System, Move, deliver, run_incoming, take_disconnect, is_pumping, after_round, drain_disconnect,
  put_hub, take, take_value, take_incoming, receive, step, run, init,
}

module _ {M : Type 0} (ops : ChannelManager M) (json : Json) where
  -- The message is the only one in the Go channel, and the loop runs.
  take_incoming-first :
      (ch payload : Bytes) (s : System M)
      → s.loop_ended ≡ false
      → s.incoming_chan.buf ≡ (ch, payload) ∷ []
      → take_incoming ops json s
        ≡ put_hub
            (record s { incoming_chan = record s.incoming_chan { buf = [] } })
            (handle ops json (incoming ch payload) s.hub)
  unfolding take_incoming take
  take_incoming-first ch payload s on e =
      if_false on (ok s) _
      ∙ ap
          (λ o.
            take_value ops json o (λ rest. record s { incoming_chan = rest })
              (λ p. incoming p.0 p.1) s)
          (recv-cons s.incoming_chan (ch, payload) [] e)

  -- The pump takes the only signal in its Go channel.
  take_disconnect-first :
      (c : Ptr) (s : System M)
      → is_pumping c s ≡ true
      → (s.hub.heap c).disconnect.buf ≡ revoked ∷ []
      → Returns
          (step ops json (take_disconnect c) s)
          (λ t. t.pumps c ≡ closed_with 4401 (text "session_revoked"))
  unfolding step drain_disconnect after_round wake_up
  take_disconnect-first c s on e =
      rw (on, recv-cons (s.hub.heap c).disconnect revoked [] e, drain_disconnect)
        (Returns-ok _ (rw (==_refl c) refl))

  told-revoked :
      (a : Client)
      → a.disconnect.buf ≡ []
      → has_room a.disconnect ≡ true
      → (told revoked a).disconnect.buf ≡ revoked ∷ []
  told-revoked a empty room =
      ap (λ b. b.disconnect.buf)
        (if_true room (record a { disconnect = push revoked a.disconnect }) a)
      ∙ ap (λ xs. xs ++ revoked ∷ []) empty

  -- What is known of a client that is to be disconnected.
  record IsReached (c : Ptr) (s : System M) : Type 0 where
    inv : Inv s.hub
    running : s.loop_ended ≡ false
    pumping : is_pumping c s ≡ true
    empty : (s.hub.heap c).disconnect.buf ≡ []
    room : has_room (s.hub.heap c).disconnect ≡ true

  take_incoming-revoked :
      (ch payload : Bytes) (c : Ptr) (s : System M)
      → IsReached c s
      → s.incoming_chan.buf ≡ (ch, payload) ∷ []
      → is_control ch ≡ true
      → is_revoke (json.control_payload payload) ≡ true
      → Set.contains c (members ch s.hub) ≡ true
      → Returns
          (take_incoming ops json s)
          (λ t. (is_pumping c t ≡ true) × ((t.hub.heap c).disconnect.buf ≡ revoked ∷ []))
  unfolding handle
  take_incoming-revoked ch payload c s r e control revoke m =
      rw (take_incoming-first ch payload s r.running e) (
        Returns-bind (handle_incoming-revocation ops json ch payload s.hub r.inv control)
          λ k (heap, _, _).
            let among : Set.contains c (revoked_by json ch payload s.hub) ≡ true = rw revoke m in
            let mine = heap c ∙ if_true among (told revoked (s.hub.heap c)) (s.hub.heap c) in
            Returns-ok _ (
              r.pumping,
              ap (λ a. a.disconnect.buf) mine ∙ told-revoked (s.hub.heap c) r.empty r.room,
            ))

  reached :
      (ch payload : Bytes) (c : Ptr) (s : System M)
      → IsReached c s
      → s.incoming_chan.buf ≡ []
      → has_room s.incoming_chan ≡ true
      → is_control ch ≡ true
      → is_revoke (json.control_payload payload) ≡ true
      → Set.contains c (members ch s.hub) ≡ true
      → Returns
          (run ops json (deliver ch payload ∷ run_incoming ∷ take_disconnect c ∷ []) s)
          (λ t. t.pumps c ≡ closed_with 4401 (text "session_revoked"))
  unfolding run step receive
  reached ch payload c s r none_yet free control revoke m =
      rw (free, receive)
        (Returns-bind
          (take_incoming-revoked ch payload c
            (record s { incoming_chan = push (ch, payload) s.incoming_chan })
            (record {
              inv = r.inv;
              running = r.running;
              pumping = r.pumping;
              empty = r.empty;
              room = r.room;
            })
            (ap (λ xs. xs ++ (ch, payload) ∷ []) none_yet) control revoke m)
          λ t (on, told_). Returns-bind (take_disconnect-first c t on told_) λ u e. Returns-ok u e)

  -- After any schedule, while the loop runs, take a client in a control channel whose pump has not returned and
  -- that was not told to disconnect. If Redis then sends a revocation on this channel and the Go channel for
  -- messages is empty, one round of the loop and one of the pump close the connection with code 4401 and the
  -- reason "session_revoked".
  pub run-revoked :
      (cfg : Config) (manager : Option M) (ms : List Move) {s : System M} (ch payload : Bytes)
      (c : Ptr)
      → run ops json ms (init cfg manager) ≡ ok s
      → s.loop_ended ≡ false
      → s.incoming_chan.buf ≡ []
      → has_room s.incoming_chan ≡ true
      → is_control ch ≡ true
      → is_revoke (json.control_payload payload) ≡ true
      → Set.contains c (members ch s.hub) ≡ true
      → is_pumping c s ≡ true
      → (s.hub.heap c).disconnect.buf ≡ []
      → has_room (s.hub.heap c).disconnect ≡ true
      → Returns
          (run ops json (deliver ch payload ∷ run_incoming ∷ take_disconnect c ∷ []) s)
          (λ t. t.pumps c ≡ closed_with 4401 (text "session_revoked"))
  run-revoked cfg manager ms {s} ch payload c e on none_yet free control revoke m pumping empty
        room =
      reached ch payload c s
        (record {
          inv = (Returns-value (run-init-Inv ops json cfg manager ms) e).hub;
          running = on;
          pumping = pumping;
          empty = empty;
          room = room;
        })
        none_yet free control revoke m
