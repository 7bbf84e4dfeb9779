-- ===== src/System/Subscriber.antt =====
-- What the goroutines do to the channel manager, after any schedule, and the context of `Hub.Run`.
use django_websocket_gateway.Common.{
  true, Option, ◌≡◌, ◌∙◌, List, Returns, ok, sym, subst, if_true_or,
}
use django_websocket_gateway.Manager.{ChannelManager}
use django_websocket_gateway.Json.{Json}
use django_websocket_gateway.Hub.State.{Hub}
use django_websocket_gateway.Hub.Effect.Manager.{Stable, Effect-Stable}
use django_websocket_gateway.System.{System, Move, run, accept_client, after_round, end_loop}
use django_websocket_gateway.System.Invariant.{SystemInv}
use django_websocket_gateway.System.Keeps.Steps.{KeepsAlways, run-always}
use django_websocket_gateway.System.Steps.{HubStep, still, event}
use django_websocket_gateway.System.Safety.{run-keeps}

module _ {M : Type 0} {ops : ChannelManager M} (json : Json) {P : Option M → Type 0}
    (stable : Stable ops P) where
  HubStep-Stable : (h k : Hub M) → HubStep ops h k → P h.manager → P k.manager
  HubStep-Stable h k (still m _ _) y = subst P (sym m) y
  HubStep-Stable h k (event e effect) y = Effect-Stable stable effect y

  -- Whatever the schedule, what the two calls keep of the manager is kept.
  pub run-Stable :
      (ms : List Move) (s : System M)
      → SystemInv s
      → P s.hub.manager
      → Returns (run ops json ms s) (λ t. SystemInv t × P t.hub.manager)
  run-Stable = run-keeps ops json HubStep-Stable

module _ {M : Type 0} (ops : ChannelManager M) (json : Json) where
  Cancelled : System M → Type 0
  Cancelled s = s.ctx_done ≡ true

  keeps-Cancelled : KeepsAlways ops json Cancelled
  unfolding Cancelled accept_client after_round end_loop
  keeps-Cancelled = record {
    accepts = λ now id key allowed s g v. v;
    registers = λ c s v. v;
    subscribes = λ x s v. v;
    unsubscribes = λ x s v. v;
    unregisters = λ c s v. v;
    takes_frame = λ c rest s v. v;
    takes_signal = λ c rest s v. v;
    rounds = λ c w s by on v. v;
    spawned = λ c rest s v. v;
    receives = λ x s v. v;
    ends = λ s v. if_true_or Cancelled s.ctx_done (λ _. v) v;
    handles = λ e s u h on j v (_, _, _, _, _, done) there. done ∙ v;
  }

  -- A context that is done stays so.
  pub run-ctx_done :
      (ms : List Move) (s t : System M)
      → s.ctx_done ≡ true
      → run ops json ms s ≡ ok t
      → t.ctx_done ≡ true
  unfolding Cancelled
  run-ctx_done ms s t v e = run-always ops json Cancelled keeps-Cancelled ms s t v e
