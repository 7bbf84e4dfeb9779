-- ===== src/Tests/Pumps.antt =====
-- The theorems of `Pump`: two frames, a ping, and a revocation before the third frame.
use django_websocket_gateway.Common.{[], ◌∷◌, List, nat_eq, text, false, ◌≡◌, ◌≢◌, refl}
use django_websocket_gateway.Pump.{
  Wake, frame, tick, signalled, closed_with, write_pump, IsAsked, write_pump-IsAsked,
}
use django_websocket_gateway.Hub.Revocation.{revoked}

abbrev rounds : List Wake
rounds =
    frame (text "a") false
    ∷ tick false
    ∷ frame (text "b") false
    ∷ signalled revoked
    ∷ frame (text "c") false
    ∷ []

rounds_closed : (write_pump rounds).1 ≡ closed_with revoked.code revoked.reason
unfolding write_pump
rounds_closed = refl

write_pump-IsAsked_example : (revoked.code ≢ 0) × IsAsked revoked.code revoked.reason rounds
write_pump-IsAsked_example = write_pump-IsAsked rounds revoked.code revoked.reason rounds_closed
