-- ===== src/System/Safety.antt =====
-- Schedules from the start of the gateway, and the invariant.
use django_websocket_gateway.Common.{
  ℕ, suc, List, [], ◌∷◌, Bytes, bytes_eq, nat_eq, true, false, ◌≡◌, refl, arith, Option, ok,
  Returns, Returns-ok, Returns-bind, Returns-mono, Returns-value,
}
use django_websocket_gateway.Common.Int.{ℤ, pos, negsuc, int_eq}
use django_websocket_gateway.Common.Map
use django_websocket_gateway.Common.Set
use django_websocket_gateway.Common.Set.{IsNodup, contains-append, append-IsNodup}
use django_websocket_gateway.Config.{Config}
use django_websocket_gateway.Client.{Ptr, Client}
use django_websocket_gateway.Manager.{ChannelManager}
use django_websocket_gateway.Json.{Json}
use django_websocket_gateway.Hub.State.{Hub, new_hub, members}
use django_websocket_gateway.Hub.Invariant.{Within, Inv}
use django_websocket_gateway.Hub.Effect.Access.{Entitled}
use django_websocket_gateway.System.{run, System, Move, init}
use django_websocket_gateway.System.Invariant.{SystemInv}
use django_websocket_gateway.System.Steps.{HubStep, step-Inv}

Within-zero : (limit : ℤ) → Within limit 0
Within-zero (pos ℕ.zero) = tt
Within-zero (pos (suc k)) = omega arith
Within-zero (negsuc k) = tt

module _ {M : Type 0} (ops : ChannelManager M) (json : Json) where
  -- What each step of the hub keeps is kept along a schedule, with the invariant.
  pub run-keeps :
      {P : Hub M → Type 0}
      → ((h k : Hub M) → HubStep ops h k → P h → P k)
      → (ms : List Move) (s : System M) → SystemInv s
      → P s.hub
      → Returns (run ops json ms s) (λ t. SystemInv t × P t.hub)
  unfolding run
  run-keeps keep [] s v y = Returns-ok s (v, y)
  run-keeps keep (m ∷ ms) s v y =
      Returns-bind (step-Inv ops json m s v)
        λ t w. run-keeps keep ms t w.inv (keep s.hub t.hub w.hub_step y)

  pub run-Inv :
      (ms : List Move) (s : System M) → SystemInv s → Returns (run ops json ms s) SystemInv
  run-Inv ms s v = Returns-mono (run-keeps {P = λ _. Unit} (λ h k _ _. tt) ms s v tt) λ t w. w.0

  new_hub-Inv :
      (cfg : Config) (manager : Option M) (heap : Ptr → Client)
      → ((c : Ptr) → (heap c).disconnect.closed ≡ false)
      → Inv (new_hub cfg manager heap)
  unfolding new_hub Set.contains Map.get
  new_hub-Inv cfg manager heap o = record {
    listed = λ c ch. refl;
    owned = λ c u. refl;
    open_send = λ c m. cc;
    open_disconnect = o;
    nodup_clients = tt;
    nodup_members = λ ch. tt;
    nodup_users = λ u. tt;
    occupied = λ ch. cc;
    within_total = Within-zero cfg.max_connections_total;
    within_user = λ u. Within-zero cfg.max_connections_per_user;
  }

  pub init-Inv : (cfg : Config) (manager : Option M) → SystemInv (init cfg manager)
  unfolding init Set.contains
  init-Inv cfg manager = record {
    hub = new_hub-Inv cfg manager _ λ c. refl;
    granted = λ p x m. cc;
    queued = λ c m. cc;
    nodup = tt;
    waiting = λ c a. cc;
    unused = λ c le. (refl, ground arith, refl);
  }

  -- Whatever the schedule from the start of the gateway, no handler panics (none sends on a closed
  -- channel, and none indexes an empty string), and the invariant holds at the end.
  pub run-init-Inv :
      (cfg : Config) (manager : Option M) (ms : List Move)
      → Returns (run ops json ms (init cfg manager)) SystemInv
  run-init-Inv cfg manager ms = run-Inv ms _ (init-Inv cfg manager)

  -- Whatever the schedule, a client is in a channel only if it is registered and the channel is one
  -- of its own two control channels, or has a valid public name and was allowed by Django.
  pub members-run :
      (cfg : Config) (manager : Option M) (ms : List Move) {s : System M}
      → run ops json ms (init cfg manager) ≡ ok s
      → (c : Ptr) (ch : Bytes) → Set.contains c (members ch s.hub) ≡ true
      → (Set.contains c s.hub.clients ≡ true) × Entitled (s.hub.heap c) ch
  members-run cfg manager ms {s} e c ch m =
      let v = Returns-value (run-init-Inv cfg manager ms) e in
      let law = v.hub.listed c ch in (ground (arith, law), v.granted c ch (ground (arith, law)))
