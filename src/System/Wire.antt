-- ===== src/System/Wire.antt =====
-- The gateway and Redis together: what the session receives after a schedule.
use django_websocket_gateway.Common.{
  false, ltb, List, [], ◌∷◌, Bytes, bytes_eq, Option, none, some, ◌≡◌, ◌≢◌, refl, ap, ◌∙◌, subst,
  length, arith, ok, Returns, Returns-value,
}
use django_websocket_gateway.Common.Map
use django_websocket_gateway.Config.{Config}
use django_websocket_gateway.Client.{Ptr}
use django_websocket_gateway.Manager.{ChannelManager, Counts}
use django_websocket_gateway.Json.{Json}
use django_websocket_gateway.Hub.State.{Hub, members, or_empty}
use django_websocket_gateway.Hub.Effect.Sync.{SyncedWith, Synced, Effect-Synced, present}
use django_websocket_gateway.Redis.{
  PubSub, RedisSubscriber, count, or_zero, manager, new_redis_subscriber,
}
use django_websocket_gateway.Redis.Wire.{Reliable, manager_counts, new-state}
use django_websocket_gateway.System.{System, Move, init, run}
use django_websocket_gateway.System.Invariant.{SystemInv}
use django_websocket_gateway.System.Steps.{HubStep, still, event}
use django_websocket_gateway.System.Safety.{init-Inv, run-keeps}

module _ {M : Type 0} {ops : ChannelManager M} (law : Counts ops) (json : Json) where
  HubStep-Synced : {h k : Hub M} → HubStep ops h k → Synced law h → Synced law k
  HubStep-Synced (still m c _) y = rw (m, c) y
  HubStep-Synced (event e effect) y = Effect-Synced law effect y

  run-Synced :
      (ms : List Move) (s : System M)
      → SystemInv s
      → Synced law s.hub
      → Returns (run ops json ms s) (λ t. SystemInv t × Synced law t.hub)
  run-Synced = run-keeps ops json (λ h k step y. HubStep-Synced step y)

-- An entry of the hub's map holds somebody.
occupied-present :
    (o : Option (List Ptr)) → o ≢ some [] → ltb 0 (present o) ≡ ltb 0 (length (or_empty o))
occupied-present none h = refl
occupied-present (some []) h = absurd (h refl)
occupied-present (some (c ∷ cs)) h = ground arith

module _ {N D : Type 0} (net : PubSub N) (law : Reliable net) where
  -- A subscriber that has not asked for anything.
  pub record IsNew (r : RedisSubscriber N D) : Type 0 where
    pub empty : r.active_chans ≡ []
    pub open_ : r.closed ≡ false
    pub quiet : (ch : Bytes) → Reliable.on_wire law ch r.pubsub ≡ false

  pub new_redis_subscriber-IsNew :
      (url : Bytes) (r : RedisSubscriber N D) → new_redis_subscriber net url none ≡ some r → IsNew r
  new_redis_subscriber-IsNew url r e =
      let (n, connected, session, empty, open_) = new-state net law url none r e in
      record {
        empty = empty;
        open_ = open_;
        quiet = λ y. ground (arith, law.on_wire-connect url y n connected);
      }

module _ {N D : Type 0} (net : PubSub N) (law : Reliable net) (json : Json) where
  init-Synced :
      (r : RedisSubscriber N D) (cfg : Config)
      → IsNew net law r
      → Synced (manager_counts net law) (init cfg (some r)).hub
  unfolding init manager_counts count Map.get
  init-Synced r cfg new =
      let none_yet = λ (y : Bytes). ap (λ m. or_zero (Map.get y m)) new.empty in
      ((new.open_, λ y. ground (arith, none_yet y, new.quiet y)), none_yet)

  -- From a subscriber that has not asked for anything, over a session that does not fail, after any
  -- schedule Redis sends a channel exactly if some client is in it.
  pub run-IsNew :
      (cfg : Config) (r q : RedisSubscriber N D) (ms : List Move) (t : System (RedisSubscriber N D))
      (ch : Bytes)
      → IsNew net law r
      → run (manager net) json ms (init cfg (some r)) ≡ ok t
      → t.hub.manager ≡ some q
      → Reliable.on_wire law ch q.pubsub ≡ ltb 0 (length (members ch t.hub))
  unfolding manager_counts
  run-IsNew cfg r q ms t ch new done held =
      let counts = manager_counts net law in
      let (v, y) =
        Returns-value
          (run-Synced counts json ms (init cfg (some r)) (init-Inv (manager net) json cfg (some r))
            (init-Synced r cfg new))
          done in
      let (live, tallied) = subst (λ m. SyncedWith counts m t.hub.channels) held y in
      live.1 ch
      ∙ ap (ltb 0) (tallied ch)
      ∙ occupied-present (Map.get ch t.hub.channels) (v.hub.occupied ch)
