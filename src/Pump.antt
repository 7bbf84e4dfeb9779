-- ===== src/Pump.antt =====
-- gateway/client.go: the loop of `WritePump`. What `select` wakes up to, and the errors of the
-- WebSocket library, are its input.
use django_websocket_gateway.Common.{
  ℕ, List, [], ◌∷◌, ◌++◌, Bytes, bytes_eq, nat_eq, text, Bool, true, false, ◌≡◌, ◌≢◌, inl, inr,
  refl, ap, arith, ◌==◌, if◌then◌else◌, Bool-cases, Run, ok, panic,
}
use django_websocket_gateway.Common.Int.{is_positive}
use django_websocket_gateway.Config.{Config}
use django_websocket_gateway.Client.{DisconnectReason}

-- One round of `select`: `ctx.Done()`, the end of the lifetime, a disconnect signal, a frame and
-- whether its write fails, the closed queue of frames, and a tick and whether its ping fails.
pub data Wake : Type 0 where
  cancelled lifetime_over send_closed : Wake
  signalled : DisconnectReason → Wake
  frame : Bytes → Bool → Wake
  tick : Bool → Wake

-- Where the loop stands after some rounds: in `select`, returned after `conn.Close`, or returned
-- without it.
pub data Exit : Type 0 where
  waiting stopped : Exit
  closed_with : ℕ → Bytes → Exit

-- Where one round leaves the loop; `waiting` means that it goes on.
unfoldable pub wake_up : Wake → Exit
wake_up cancelled = closed_with 1001 (text "shutdown")
wake_up lifetime_over = closed_with 1000 (text "lifetime")
wake_up send_closed = closed_with 1000 (text "hub_closed")
wake_up (signalled d) = if d.code == 0 then stopped else closed_with d.code d.reason
wake_up (frame payload fails) = if fails then stopped else waiting
wake_up (tick fails) = if fails then stopped else waiting

-- What one round has written.
unfoldable pub written_by : Wake → List Bytes
written_by (frame payload fails) = if fails then [] else payload ∷ []
written_by _ = []

-- The rounds: the frames that are written, and where the loop stands.
unfoldable pub write_pump : List Wake → List Bytes × Exit
unfolding wake_up written_by
write_pump [] = ([], waiting)
write_pump (w ∷ ws) =
    let rest = write_pump ws in
    elim (wake_up w) [
      | waiting ↦ (written_by w ++ rest.0, rest.1)
      | stopped ↦ (written_by w, stopped)
      | closed_with code reason ↦ (written_by w, closed_with code reason)
    ]

-- `WritePump` from its start: `time.NewTicker` panics for an interval that is not positive.
unfoldable pub start_write_pump : Config → List Wake → Run (List Bytes × Exit)
unfolding write_pump
start_write_pump cfg ws = if is_positive cfg.ping_interval then ok (write_pump ws) else panic

-- The frames that the loop is given.
pub frames : List Wake → List Bytes
frames [] = []
frames (cancelled ∷ ws) = frames ws
frames (lifetime_over ∷ ws) = frames ws
frames (send_closed ∷ ws) = frames ws
frames (signalled d ∷ ws) = frames ws
frames (frame payload fails ∷ ws) = payload ∷ frames ws
frames (tick fails ∷ ws) = frames ws

-- The close codes that the rounds ask for.
pub IsAsked : ℕ → Bytes → List Wake → Type 0
IsAsked code reason [] = ⊥
IsAsked code reason (cancelled ∷ ws) = (code ≡ 1001) × (reason ≡ text "shutdown")
IsAsked code reason (lifetime_over ∷ ws) = (code ≡ 1000) × (reason ≡ text "lifetime")
IsAsked code reason (send_closed ∷ ws) = (code ≡ 1000) × (reason ≡ text "hub_closed")
IsAsked code reason (signalled d ∷ ws) = (code ≡ d.code) × (reason ≡ d.reason)
IsAsked code reason (frame payload fails ∷ ws) = (fails ≡ false) × IsAsked code reason ws
IsAsked code reason (tick fails ∷ ws) = (fails ≡ false) × IsAsked code reason ws

-- The frames that are written are the first of those that the loop is given, in their order.
pub write_pump-prefix :
    (ws : List Wake) → (rest : List Bytes) × (frames ws ≡ (write_pump ws).0 ++ rest)
unfolding write_pump frames
write_pump-prefix [] = ([], refl)
write_pump-prefix (cancelled ∷ ws) = (frames ws, refl)
write_pump-prefix (lifetime_over ∷ ws) = (frames ws, refl)
write_pump-prefix (send_closed ∷ ws) = (frames ws, refl)
write_pump-prefix (signalled d ∷ ws) = elim (Bool-cases (d.code == 0)) [
  | inl quiet ↦ (frames ws, ground arith)
  | inr loud ↦ (frames ws, ground arith)
]
write_pump-prefix (frame payload true ∷ ws) = (payload ∷ frames ws, refl)
write_pump-prefix (frame payload false ∷ ws) =
    let (rest, e) = write_pump-prefix ws in (rest, ap (◌∷◌ payload) e)
write_pump-prefix (tick true ∷ ws) = (frames ws, refl)
write_pump-prefix (tick false ∷ ws) = write_pump-prefix ws

-- Where the loop closes the connection, the code is not zero, and code and reason are those of the
-- first round that ends the loop; the writes and pings before it did not fail.
pub write_pump-IsAsked :
    (ws : List Wake) (code : ℕ) (reason : Bytes)
    → (write_pump ws).1 ≡ closed_with code reason
    → (code ≢ 0) × IsAsked code reason ws
unfolding write_pump IsAsked
write_pump-IsAsked [] code reason h = cc h
write_pump-IsAsked (cancelled ∷ ws) code reason h = ground arith
write_pump-IsAsked (lifetime_over ∷ ws) code reason h = ground arith
write_pump-IsAsked (send_closed ∷ ws) code reason h = ground arith
write_pump-IsAsked (signalled d ∷ ws) code reason h = elim (Bool-cases (d.code == 0)) [
  | inl quiet ↦ let h' = (rw (quiet, write_pump) at h) in cc h'
  | inr loud ↦ let h' = (rw (loud, write_pump) at h) in ground (arith, h')
]
write_pump-IsAsked (frame payload true ∷ ws) code reason h = cc h
write_pump-IsAsked (frame payload false ∷ ws) code reason h =
    let (other, asked) = write_pump-IsAsked ws code reason h in (other, (refl, asked))
write_pump-IsAsked (tick true ∷ ws) code reason h = cc h
write_pump-IsAsked (tick false ∷ ws) code reason h =
    let (other, asked) = write_pump-IsAsked ws code reason h in (other, (refl, asked))
