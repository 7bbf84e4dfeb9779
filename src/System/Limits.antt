-- ===== src/System/Limits.antt =====
-- The limits of the configuration that the gateway was started with.
use django_websocket_gateway.Common.{
  List, arith, bytes_eq, nat_eq, Option, ◌≡◌, refl, ◌∙◌, ◌&&◌, ◌==◌, length, ok, Returns-value,
  Bytes,
}
use django_websocket_gateway.Common.Int.{ℤ, int_eq}
use django_websocket_gateway.Common.Set
use django_websocket_gateway.Common.Set.{IsNodup}
use django_websocket_gateway.Common.Map
use django_websocket_gateway.Config.{Config}
use django_websocket_gateway.Client.{Ptr}
use django_websocket_gateway.Manager.{ChannelManager}
use django_websocket_gateway.Json.{Json}
use django_websocket_gateway.Hub.State.{Hub, connections, store, Event}
use django_websocket_gateway.Hub.Routing.{admit, enlist, add_subscription, delist}
use django_websocket_gateway.Hub.Routing.Laws.{
  join-SameElsewhere, remove-SameElsewhere, leave_all-SameElsewhere,
}
use django_websocket_gateway.Hub.Delivery.{close_chan}
use django_websocket_gateway.Hub.Invariant.{Within}
use django_websocket_gateway.Hub.Invariant.Registration.{delist-SameRest}
use django_websocket_gateway.Hub.Invariant.Subscription.{with_channel, without_channel}
use django_websocket_gateway.Hub.Effect.{Effect, quiet, admitted, joined, parted, departed}
use django_websocket_gateway.System.{System, Move, init, run}
use django_websocket_gateway.System.Steps.{HubStep, still, event}
use django_websocket_gateway.System.Safety.{init-Inv, run-keeps}

module _ {M : Type 0} (ops : ChannelManager M) where
  cfg-add_subscription :
      (c : Ptr) (ch : Bytes) (h : Hub M) → (add_subscription ops c ch h).cfg ≡ h.cfg
  unfolding add_subscription store
  cfg-add_subscription c ch h =
      ground (arith, join-SameElsewhere ops c ch (Map.get ch h.channels) (with_channel ops c ch h))

  cfg-admit : (c : Ptr) (h : Hub M) → (admit ops c h).cfg ≡ h.cfg
  unfolding admit enlist
  cfg-admit c h =
      cfg-add_subscription c _ (add_subscription ops c _ (enlist c h))
      ∙ cfg-add_subscription c _ (enlist c h)

  cfg-close_chan : (c : Ptr) (h : Hub M) → (close_chan c h).cfg ≡ h.cfg
  unfolding close_chan store
  cfg-close_chan c h = refl

  cfg-without : (c : Ptr) (ch : Bytes) (h : Hub M) → (without_channel ops c ch h).cfg ≡ h.cfg
  unfolding store
  cfg-without c ch h = refl

  -- No event changes the configuration.
  Effect-cfg : {e : Event} {h k : Hub M} → Effect ops e h k → k.cfg ≡ h.cfg
  Effect-cfg (quiet s) = s.cfg
  Effect-cfg {h} (admitted c _ _ _ _ same) = rw same (cfg-admit c h)
  Effect-cfg {h} (joined c ch _ _ _ _ same) = rw same (cfg-add_subscription c ch h)
  Effect-cfg {h} (parted c ch _ _ _ same) =
      let left = remove-SameElsewhere ops c ch (without_channel ops c ch h) in
      rw same (left.cfg ∙ cfg-without c ch h)
  Effect-cfg {h} (departed c m _ _ s same) =
      let left = leave_all-SameElsewhere ops c (h.heap c).subscribed (delist c h) in
      rw same (cfg-close_chan c m ∙ s.cfg ∙ left.cfg ∙ (delist-SameRest c h).3)

  HubStep-cfg : (cfg : Config) (h k : Hub M) → HubStep ops h k → h.cfg ≡ cfg → k.cfg ≡ cfg
  HubStep-cfg cfg h k (still _ _ same) e = same ∙ e
  HubStep-cfg cfg h k (event ev effect) e = Effect-cfg effect ∙ e

module _ {M : Type 0} (ops : ChannelManager M) (json : Json) where
  -- Whatever the schedule, the registered clients are within the limit in all that the gateway was
  -- started with, and those of each user within the limit for a user, where a limit of zero or less
  -- is none. No client counts twice in either, and those of a user are exactly the registered clients
  -- that have the user's id.
  pub run-limits :
      (cfg : Config) (manager : Option M) (ms : List Move) {s : System M}
      → run ops json ms (init cfg manager) ≡ ok s
      → Within cfg.max_connections_total (length s.hub.clients)
        × IsNodup s.hub.clients
        × ((u : ℤ)
            → Within cfg.max_connections_per_user (length (connections u s.hub))
              × IsNodup (connections u s.hub)
              × ((c : Ptr)
                  → Set.contains c (connections u s.hub)
                    ≡ (Set.contains c s.hub.clients && (s.hub.heap c).user_id == u)))
  unfolding init
  run-limits cfg manager ms {s} e =
      let (v, same) =
        Returns-value
          (run-keeps ops json {P = λ h. h.cfg ≡ cfg} (HubStep-cfg ops cfg) ms (init cfg manager)
            (init-Inv ops json cfg manager) refl)
          e in
      (
        rw (← same) v.hub.within_total,
        v.hub.nodup_clients,
        λ u. (rw (← same) (v.hub.within_user u), v.hub.nodup_users u, λ c. v.hub.owned c u),
      )
