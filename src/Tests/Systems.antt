-- ===== src/Tests/Systems.antt =====
-- The theorems of `System`.
use mathlib.Core.List.{Memᴰ}
use django_websocket_gateway.Common.Chan.{has_room}
use django_websocket_gateway.Hub.Handlers.{is_control}
use django_websocket_gateway.Hub.Revocation.{is_revoke}
use django_websocket_gateway.System.Revoked.{run-revoked}
use django_websocket_gateway.System.{
  run_incoming, take_disconnect, deliver, take_frame, is_pumping, init, run,
}
use django_websocket_gateway.Common.{
  ◌≢◌, ◌++◌, map, false, arith, [], ◌∷◌, bytes_eq, nat_eq, text, some, true, ◌≡◌, length, refl,
  Returns, list_beq, ◌&&◌, ◌==◌, All, ◌⊎◌, Bytes,
}
use django_websocket_gateway.Client.{Ptr}
use django_websocket_gateway.System.Flush.{run-flush}
use django_websocket_gateway.Tests.Visits.{
  queued, closing, closed, after-closed, visit, subscriber, visited, after-visited,
}
use django_websocket_gateway.Common.Int.{pos, int_eq, ℤ}
use django_websocket_gateway.Common.Set
use django_websocket_gateway.Common.Map
use django_websocket_gateway.Common.Decimal.{format_int}
use django_websocket_gateway.Redis.{manager}
use django_websocket_gateway.Hub.State.{members, session_channel, user_channel, connections}
use django_websocket_gateway.Hub.Effect.Access.{Entitled}
use django_websocket_gateway.System.Invariant.{SystemInv}
use django_websocket_gateway.System.Safety.{run-init-Inv, members-run}
use django_websocket_gateway.Common.Set.{IsNodup}
use django_websocket_gateway.Hub.Invariant.{Within}
use django_websocket_gateway.System.Limits.{run-limits}
use django_websocket_gateway.Pump.{closed_with, write_pump}
use django_websocket_gateway.System.Rounds.{wakes, run-write_pump}
use django_websocket_gateway.Hub.Queues.{IsError}
use django_websocket_gateway.System.Trace.{IsClose}
use django_websocket_gateway.System.Trace.Result.{run-written, run-codes, run-ids}
use django_websocket_gateway.System.Identity.{run-identity}
use django_websocket_gateway.Tests.{small_config, short_json, list_session}

run-init-Inv_example :
    Returns
      (run (manager list_session) short_json visit (init small_config (some subscriber)))
      SystemInv
run-init-Inv_example =
    run-init-Inv (manager list_session) short_json small_config (some subscriber) visit

visit_members : members (text "news") visited.hub ≡ 0 ∷ []
unfolding run init manager Map.get Set.contains Set.add Map.put list_beq
visit_members = refl

visit_member : Set.contains 0 (members (text "news") visited.hub) ≡ true
unfolding run init manager Map.get Set.contains Set.add Map.put list_beq
visit_member = refl

visit_read : (visited.hub.heap 0).send.buf ≡ []
unfolding run init manager Map.get Set.contains Set.add Map.put list_beq
visit_read = refl

members-run_example :
    (Set.contains 0 visited.hub.clients ≡ true) × Entitled (visited.hub.heap 0) (text "news")
members-run_example =
    members-run (manager list_session) short_json small_config (some subscriber) visit after-visited
      0 (text "news") visit_member

run-identity_example :
    (Set.contains 0 (members (session_channel (text "k")) visited.hub) ≡ true
      → (visited.hub.heap 0).session_key ≡ text "k")
    × (Set.contains 0 (members (user_channel (pos 5)) visited.hub) ≡ true
        → (visited.hub.heap 0).user_id ≡ pos 5)
run-identity_example =
    run-identity (manager list_session) short_json small_config (some subscriber) visit
      after-visited 0 (text "k") (pos 5)

run-limits_example :
    Within (pos 2) (length visited.hub.clients)
    × IsNodup visited.hub.clients
    × ((u : ℤ)
        → Within (pos 1) (length (connections u visited.hub))
          × IsNodup (connections u visited.hub)
          × ((c : Ptr)
              → Set.contains c (connections u visited.hub)
                ≡ (Set.contains c visited.hub.clients && (visited.hub.heap c).user_id == u)))
run-limits_example =
    run-limits (manager list_session) short_json small_config (some subscriber) visit after-visited

visit_written : visited.written 0 ≡ text "hi" ∷ []
unfolding run init manager Map.get Set.contains Set.add Map.put list_beq format_int
visit_written = refl

run-written_example :
    All
      (λ f.
        IsError short_json f
        ⊎ ((ch : Bytes) × Memᴰ (deliver ch f) visit
            × (Set.contains ch (visited.hub.heap 0).allowed_channels ≡ true)))
      (visited.written 0)
run-written_example =
    run-written (manager list_session) short_json small_config (some subscriber) visit after-visited
      0

closed_revoked : closed.pumps 0 ≡ closed_with 4401 (text "session_revoked")
unfolding run init manager Map.get Set.contains Set.add Map.put list_beq format_int
closed_revoked = refl

run-codes_example : IsClose 4401 (text "session_revoked")
run-codes_example =
    run-codes (manager list_session) short_json small_config (some subscriber) closing after-closed
      0 4401 (text "session_revoked") closed_revoked

queued_pumping : is_pumping 0 queued ≡ true
unfolding run init manager Map.get Set.contains Set.add Map.put list_beq format_int
queued_pumping = refl

run-flush_example :
    Returns
      (run
        (manager list_session)
        short_json
        (map (λ f. take_frame 0 false) (queued.hub.heap 0).send.buf)
        queued)
      (λ t.
        (t.written 0 ≡ queued.written 0 ++ (queued.hub.heap 0).send.buf)
        × ((t.hub.heap 0).send.buf ≡ [])
        × (is_pumping 0 t ≡ true))
run-flush_example = run-flush (manager list_session) short_json 0 queued queued_pumping

visit_accepts : visited.fresh ≡ 3
unfolding run init manager Map.get Set.contains Set.add Map.put list_beq format_int
visit_accepts = refl

run-ids_example : (visited.hub.heap 0).connection_id ≢ (visited.hub.heap 1).connection_id
run-ids_example =
    run-ids (manager list_session) short_json small_config (some subscriber) visit after-visited
      (omega (arith, visit_accepts)) 0 1 (omega (arith, visit_accepts))
      (omega (arith, visit_accepts)) cc

run-write_pump_example :
    write_pump
      (wakes (manager list_session) short_json 0 visit (init small_config (some subscriber)))
    ≡ (visited.written 0, visited.pumps 0)
run-write_pump_example =
    run-write_pump (manager list_session) short_json small_config (some subscriber) visit
      after-visited 0

-- The loop runs, nothing waits for it, and the first client is in the channel of its session.
visit_calm :
    (visited.loop_ended ≡ false)
    × (visited.incoming_chan.buf ≡ [])
    × (has_room visited.incoming_chan ≡ true)
    × (Set.contains 0 (members (text "_session:k") visited.hub) ≡ true)
    × (is_pumping 0 visited ≡ true)
    × ((visited.hub.heap 0).disconnect.buf ≡ [])
    × (has_room (visited.hub.heap 0).disconnect ≡ true)
unfolding run init manager Map.get Set.contains Set.add Map.put list_beq format_int
visit_calm = (refl, refl, refl, refl, refl, refl, refl)

session_control : is_control (text "_session:k") ≡ true
unfolding is_control
session_control = refl

revoke_read : is_revoke (short_json.control_payload (text "revoke")) ≡ true
unfolding list_beq
revoke_read = refl

run-revoked_example :
    Returns
      (run
        (manager list_session)
        short_json
        (deliver (text "_session:k") (text "revoke") ∷ run_incoming ∷ take_disconnect 0 ∷ [])
        visited)
      (λ t. t.pumps 0 ≡ closed_with 4401 (text "session_revoked"))
run-revoked_example =
    let (on, none_yet, free, member, pumping, empty, room) = visit_calm in
    run-revoked (manager list_session) short_json small_config (some subscriber) visit
      (text "_session:k") (text "revoke") 0 after-visited on none_yet free session_control
      revoke_read member pumping empty room
