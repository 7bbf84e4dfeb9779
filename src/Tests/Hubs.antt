-- ===== src/Tests/Hubs.antt =====
-- The theorems of `Hub`, in the lobby after the visit.
use django_websocket_gateway.Common.{
  ◌↔◌, [], ◌∷◌, ◌++◌, bytes_eq, nat_eq, text, none, some, true, false, not, ◌≡◌, ◌==◌, ◌&&◌, ◌||◌,
  if◌then◌else◌, refl, list_beq, Bytes, Returns, ok, ◌>>=◌, sym, List,
}
use django_websocket_gateway.Common.Int.{ℤ, int_eq}
use django_websocket_gateway.Common.Set
use django_websocket_gateway.Common.Decimal.{format_int}
use django_websocket_gateway.Common.Map
use django_websocket_gateway.Client.{Ptr, close_too_many_connections}
use django_websocket_gateway.Redis.{manager}
use django_websocket_gateway.Hub.State.{
  members, connections, session_channel, user_channel, unregister, unsubscribe, incoming,
}
use django_websocket_gateway.Hub.ChannelName.{Matches, channel_regex, matches_channel_regex-Matches}
use django_websocket_gateway.Hub.Handlers.{
  matches_channel_regex, is_control, is_full, is_user_full, handle, handle_register,
  handle_unregister, handle_client_subscribe, handle_incoming, matches_channel_regex,
}
use django_websocket_gateway.Hub.Invariant.Delivery.{SameRouting}
use django_websocket_gateway.Hub.Machine.{registered_after, member_after, handle-Machine}
use django_websocket_gateway.Hub.Admission.{handle_register-admitted, handle_register-refused}
use django_websocket_gateway.Hub.Departure.{handle_unregister-departed}
use django_websocket_gateway.Hub.Fanout.{told, offered, overflowing, handle_incoming-fanout}
use django_websocket_gateway.Hub.Subscribing.{refusal, subscribe-refused, subscribe-joined}
use mathlib.Core.List.{Permᴰ}
use django_websocket_gateway.Common.Set.{IsNodup}
use django_websocket_gateway.Hub.Delivery.{deliver_all, disconnect_all}
use django_websocket_gateway.Hub.Order.{deliver_all-order, disconnect_all-order}
use django_websocket_gateway.Tests.Visits.{
  crowded, crowded-Inv, visited-SystemInv, visited_waiting, lobby, lobby-Inv,
}
use django_websocket_gateway.Hub.Revocation.{
  revoked, revoked_by, handle_incoming-revocation, unsubscribe-evades,
}
use django_websocket_gateway.System.{run, init}
use django_websocket_gateway.Tests.{short_json, list_session}

abbrev own : Bytes
own = session_channel (text "k")

lobby_registered : Set.contains 0 lobby.clients ≡ true
unfolding run init manager Map.get Set.contains Set.add Map.put list_beq
lobby_registered = refl

lobby_room : (is_full lobby || is_user_full (lobby.heap 2).user_id lobby) ≡ false
unfolding run init manager Map.get Set.contains Set.add Map.put list_beq is_full is_user_full
lobby_room = refl

lobby_user_full : (is_full lobby || is_user_full (lobby.heap 1).user_id lobby) ≡ true
unfolding run init manager Map.get Set.contains Set.add Map.put list_beq is_full is_user_full
lobby_user_full = refl

lobby-own : Set.contains 0 (members own lobby) ≡ true
unfolding run init manager Map.get Set.contains Set.add Map.put list_beq
lobby-own = refl

lobby_public : is_control (text "news") ≡ false
unfolding is_control
lobby_public = refl

lobby_control : is_control own ≡ true
unfolding is_control
lobby_control = refl

lobby_granted : refusal (text "sport") (lobby.heap 0) ≡ none
unfolding run init manager Map.get Set.contains Set.add Map.put list_beq matches_channel_regex
    is_control
lobby_granted = refl

lobby_denied : refusal (text "chess") (lobby.heap 0) ≡ some (text "forbidden")
unfolding run init manager Map.get Set.contains Set.add Map.put list_beq matches_channel_regex
    is_control
lobby_denied = refl

handle-Machine_example :
    Returns (handle (manager list_session) short_json (unregister 0) lobby) (λ k.
      ((p : Ptr) → Set.contains p k.clients ≡ registered_after lobby (unregister 0) p)
      × ((p : Ptr) (x : Bytes)
          → Set.contains p (members x k) ≡ member_after lobby (unregister 0) p x)
      × ((p : Ptr) (u : ℤ)
          → Set.contains p (connections u k)
            ≡ (registered_after lobby (unregister 0) p && (lobby.heap p).user_id == u)))
handle-Machine_example =
    handle-Machine (manager list_session) short_json lobby lobby-Inv (unregister 0) tt

fanout_example :
    Returns
      (handle_incoming (manager list_session) short_json (text "news") (text "hi") lobby)
      (λ k.
        ((p : Ptr)
          → k.heap p ≡ (
              if Set.contains p (members (text "news") lobby)
              then offered (text "hi") (lobby.heap p)
              else lobby.heap p))
        × (k.spawned ≡ lobby.spawned ++ overflowing lobby.heap (members (text "news") lobby))
        × SameRouting lobby k)
fanout_example =
    handle_incoming-fanout (manager list_session) short_json (text "news") (text "hi") lobby
      lobby-Inv lobby_public

revocation_example :
    Returns (handle_incoming (manager list_session) short_json own (text "revoke") lobby) (λ k.
      ((p : Ptr)
        → k.heap p ≡ (
            if Set.contains p (revoked_by short_json own (text "revoke") lobby)
            then told revoked (lobby.heap p)
            else lobby.heap p))
      × (k.spawned ≡ lobby.spawned)
      × SameRouting lobby k)
revocation_example =
    handle_incoming-revocation (manager list_session) short_json own (text "revoke") lobby lobby-Inv
      lobby_control

evades_example :
    Returns
      (do
        k ← handle (manager list_session) short_json (unsubscribe 0 own) lobby
        handle (manager list_session) short_json (incoming own (text "revoke")) k)
      (λ l. (Set.contains 0 l.clients ≡ true) × ((l.heap 0).disconnect ≡ (lobby.heap 0).disconnect))
evades_example =
    unsubscribe-evades (manager list_session) short_json 0 own (text "revoke") lobby lobby-Inv
      lobby_control lobby-own

admitted_example : Returns (handle_register (manager list_session) short_json 2 lobby) (λ k.
    ((p : Ptr) → Set.contains p k.clients ≡ (2 == p || Set.contains p lobby.clients))
    × ((p : Ptr) (ch : Bytes)
        → Set.contains p (members ch k) ≡ (
            (2 == p
              && (session_channel (lobby.heap 2).session_key == ch
                  || user_channel (lobby.heap 2).user_id == ch))
            || Set.contains p (members ch lobby)))
    × (k.spawned ≡ lobby.spawned))
admitted_example =
    handle_register-admitted (manager list_session) short_json 2 lobby lobby-Inv
      (visited-SystemInv.waiting 2 (sym visited_waiting.1)).0 lobby_room

refused_example : Returns (handle_register (manager list_session) short_json 1 lobby) (λ k.
    ((p : Ptr)
      → k.heap p ≡ (
          if 1 == p
          then told
              (record {
                code = close_too_many_connections;
                reason =
                    if is_full lobby
                    then text "max_connections_total"
                    else text "max_connections_per_user";
              })
              (lobby.heap p)
          else lobby.heap p))
    × (k.spawned ≡ lobby.spawned)
    × SameRouting lobby k)
refused_example =
    handle_register-refused (manager list_session) short_json 1 lobby lobby-Inv lobby_user_full

departed_example : Returns (handle_unregister (manager list_session) short_json 0 lobby) (λ k.
    ((p : Ptr) → Set.contains p k.clients ≡ (not (0 == p) && Set.contains p lobby.clients))
    × ((p : Ptr) (ch : Bytes)
        → Set.contains p (members ch k) ≡ (not (0 == p) && Set.contains p (members ch lobby)))
    × ((p : Ptr) (u : ℤ)
        → Set.contains p (connections u k) ≡ (not (0 == p) && Set.contains p (connections u lobby)))
    × ((k.heap 0).send.closed ≡ true)
    × ((p : Ptr) → (0 == p) ≡ false → k.heap p ≡ lobby.heap p)
    × (handle_unregister (manager list_session) short_json 0 k ≡ ok k))
departed_example =
    handle_unregister-departed (manager list_session) short_json 0 lobby lobby-Inv lobby_registered

subscribe-refused_example :
    Returns (handle_client_subscribe (manager list_session) short_json 0 (text "chess") lobby) (λ k.
      ((p : Ptr)
        → k.heap p ≡ (
            if 0 == p
            then offered (short_json.error_frame (text "chess") (text "forbidden")) (lobby.heap p)
            else lobby.heap p))
      × (k.spawned ≡ lobby.spawned ++ overflowing lobby.heap (0 ∷ []))
      × SameRouting lobby k)
subscribe-refused_example =
    subscribe-refused (manager list_session) short_json 0 (text "chess") (text "forbidden") lobby
      lobby-Inv lobby_registered lobby_denied

subscribe-joined_example :
    Returns (handle_client_subscribe (manager list_session) short_json 0 (text "sport") lobby) (λ k.
      ((p : Ptr) (x : Bytes)
        → Set.contains p (members x k)
          ≡ ((0 == p && text "sport" == x) || Set.contains p (members x lobby)))
      × (k.clients ≡ lobby.clients))
subscribe-joined_example =
    subscribe-joined (manager list_session) short_json 0 (text "sport") lobby lobby-Inv
      lobby_registered lobby_granted

abbrev there : List Ptr
there = 0 ∷ 1 ∷ []

abbrev back : List Ptr
back = 1 ∷ 0 ∷ []

there-IsNodup : IsNodup there
unfolding Set.contains
there-IsNodup = (refl, (refl, tt))

back-IsNodup : IsNodup back
unfolding Set.contains
back-IsNodup = (refl, (refl, tt))

crowded_registered :
    (Set.contains 0 crowded.hub.clients ≡ true) × (Set.contains 1 crowded.hub.clients ≡ true)
unfolding run init manager Map.get Set.contains Set.add Map.put list_beq format_int
crowded_registered = (refl, refl)

deliver_all-order_example : Returns (deliver_all there (text "hi") crowded.hub) (λ k.
    Returns
      (deliver_all back (text "hi") crowded.hub)
      (λ l. (k ≡ record l { spawned = k.spawned }) × Permᴰ k.spawned l.spawned))
deliver_all-order_example =
    deliver_all-order there back (text "hi") crowded.hub crowded-Inv (Permᴰ.swap refl refl)
      there-IsNodup back-IsNodup (crowded_registered.0, (crowded_registered.1, tt))
      (crowded_registered.1, (crowded_registered.0, tt))

disconnect_all-order_example :
    disconnect_all there 4401 (text "session_revoked") crowded.hub
    ≡ disconnect_all back 4401 (text "session_revoked") crowded.hub
disconnect_all-order_example =
    disconnect_all-order there back 4401 (text "session_revoked") crowded.hub crowded-Inv
      (Permᴰ.swap refl refl) there-IsNodup back-IsNodup

matches_channel_regex-Matches_example :
    (matches_channel_regex (text "news:1") ≡ true) ↔ Matches channel_regex (text "news:1")
matches_channel_regex-Matches_example = matches_channel_regex-Matches (text "news:1")
