-- ===== src/System/Trace/Result.antt =====
-- After any schedule: what is on the sockets, and the close codes.
use mathlib.Core.List.{Memᴰ}
use django_websocket_gateway.Client.{Ptr}
use django_websocket_gateway.Client.Unique.{generate_connection_id-injective}
use django_websocket_gateway.Common.{
  arith, ◌+◌, ◌%◌, ◌^◌, ◌<◌, ◌≤◌, ◌≢◌, ◌∙◌, sym, ℕ, List, [], ◌∷◌, Bytes, bytes_eq, nat_eq, Option,
  true, ◌≡◌, ◌⊎◌, refl, All, ok, Returns, Returns-ok, Returns-bind, Returns-both, Returns-value,
}
use django_websocket_gateway.Common.Set
use django_websocket_gateway.Config.{Config}
use django_websocket_gateway.Manager.{ChannelManager}
use django_websocket_gateway.Json.{Json}
use django_websocket_gateway.Pump.{closed_with}
use django_websocket_gateway.Hub.Queues.{IsError}
use django_websocket_gateway.System.{System, Move, deliver, init, run}
use django_websocket_gateway.System.Invariant.{SystemInv}
use django_websocket_gateway.System.Steps.{step-Inv}
use django_websocket_gateway.System.Safety.{init-Inv}
use django_websocket_gateway.System.Trace.{IsClose, All-mono, Traced}
use django_websocket_gateway.System.Trace.Events.{Fed, step-Traced}

module _ {M : Type 0} (ops : ChannelManager M) (json : Json) where
  -- The messages of a schedule are those that it has.
  own-Fed : (ms : List Move) → All (Fed ops json (λ ch payload. Memᴰ (deliver ch payload) ms)) ms
  own-Fed [] = tt
  own-Fed (m ∷ ms) = (
    λ ch payload e. Memᴰ.head (sym e),
    All-mono _ _ ms (λ x fed ch payload e. Memᴰ.tail (fed ch payload e)) (own-Fed ms),
  )

  run-Traced :
      (Sent : Bytes → Bytes → Type 0) (ms : List Move) (s : System M)
      → SystemInv s
      → Traced json Sent s
      → All (Fed ops json Sent) ms
      → Returns (run ops json ms s) (Traced json Sent)
  unfolding run
  run-Traced Sent [] s i v fed = Returns-ok s v
  run-Traced Sent (m ∷ ms) s i v (fed, rest) =
      Returns-bind (Returns-both (step-Inv ops json m s i) (step-Traced ops json Sent m s i v fed))
        λ t (w, v'). run-Traced Sent ms t w.inv v' rest

  init-Traced :
      (Sent : Bytes → Bytes → Type 0) (cfg : Config) (manager : Option M)
      → Traced json Sent (init cfg manager)
  unfolding init
  init-Traced Sent cfg manager = record {
    delivered = tt;
    frames = λ c. tt;
    writes = λ c. tt;
    signals = λ c. tt;
    closes = λ c code reason h. cc h;
    unused = λ c le. refl;
    named = record { counts = refl; ids = λ c lt. absurd (omega (arith, lt)) };
  }

  trace :
      (cfg : Config) (manager : Option M) (ms : List Move) {s : System M}
      → run ops json ms (init cfg manager) ≡ ok s
      → Traced json (λ ch payload. Memᴰ (deliver ch payload) ms) s
  trace cfg manager ms = Returns-value (
      run-Traced _ ms (init cfg manager) (init-Inv ops json cfg manager) (init-Traced _ cfg manager)
        (own-Fed ms))

  -- Whatever the schedule, each frame that was written to a client's socket is an error frame, or the
  -- payload of a message that Redis sent on a channel that Django allowed this client.
  pub run-written :
      (cfg : Config) (manager : Option M) (ms : List Move) {s : System M}
      → run ops json ms (init cfg manager) ≡ ok s
      → (c : Ptr)
      → All
          (λ f.
            IsError json f
            ⊎ ((ch : Bytes) × Memᴰ (deliver ch f) ms
                × (Set.contains ch (s.hub.heap c).allowed_channels ≡ true)))
          (s.written c)
  run-written cfg manager ms e c = (trace cfg manager ms e).writes c

  -- Whatever the schedule, `WritePump` closes a connection with 1001 for a shutdown, 1000 for the end
  -- of its lifetime or of its queue, 4401 for a revoked session, 4408 for a slow client, 4429 for one
  -- of the two limits, and with no other code or reason.
  pub run-codes :
      (cfg : Config) (manager : Option M) (ms : List Move) {s : System M}
      → run ops json ms (init cfg manager) ≡ ok s
      → (c : Ptr) (code : ℕ) (reason : Bytes) → s.pumps c ≡ closed_with code reason
      → IsClose code reason
  run-codes cfg manager ms e = (trace cfg manager ms e).closes

  -- Whatever the schedule, two different clients have different connection ids, as long as no more
  -- than 2^64 connections were accepted.
  pub run-ids :
      (cfg : Config) (manager : Option M) (ms : List Move) {s : System M}
      → run ops json ms (init cfg manager) ≡ ok s
      → s.fresh ≤ 2 ^ 64
      → (c d : Ptr) → c < s.fresh
      → d < s.fresh
      → c ≢ d
      → (s.hub.heap c).connection_id ≢ (s.hub.heap d).connection_id
  run-ids cfg manager ms e few c d lt lt' other same =
      let v = (trace cfg manager ms e).named in
      let (now, id) = v.ids c lt in
      let (later, id') = v.ids d lt' in
      let counters : (c + 1) % 2 ^ 64 ≡ (d + 1) % 2 ^ 64 =
        generate_connection_id-injective ((c + 1) % 2 ^ 64) ((d + 1) % 2 ^ 64) now later
          (omega arith) (omega arith) (sym id ∙ same ∙ id') in
      other (omega (arith, counters, few, lt, lt'))
