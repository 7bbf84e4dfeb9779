-- ===== src/Hub/Invariant.antt =====
-- What holds of the hub between two events.
pub mod Delivery
pub mod Registration
pub mod Unregistration
pub mod Subscription
pub mod Handlers
use django_websocket_gateway.Common.{
  ℕ, suc, ◌≤◌, List, [], ◌∷◌, Bytes, bytes_eq, nat_eq, some, true, false, ◌&&◌, ◌==◌, ◌≡◌, ◌≢◌,
  length,
}
use django_websocket_gateway.Common.Int.{ℤ, pos, negsuc, int_eq}
use django_websocket_gateway.Common.Map
use django_websocket_gateway.Common.Set
use django_websocket_gateway.Common.Set.{IsNodup}
use django_websocket_gateway.Client.{Ptr}
use django_websocket_gateway.Hub.State.{Hub, members, connections}

-- `n` is within a limit of the configuration, where a limit of zero or less is none.
abbrev pub Within : ℤ → ℕ → Type 0
Within (pos ℕ.zero) n = Unit
Within (pos (suc k)) n = n ≤ suc k
Within (negsuc k) n = Unit

pub record Inv {M : Type 0} (h : Hub M) : Type 0 where
  -- A channel's clients are the registered clients that have subscribed to it.
  pub listed :
      (c : Ptr) (ch : Bytes)
      → Set.contains c (members ch h)
        ≡ (Set.contains c h.clients && Set.contains ch (h.heap c).subscribed)
  -- A user's clients are the registered clients with that user's id.
  pub owned :
      (c : Ptr) (u : ℤ)
      → Set.contains c (connections u h) ≡ (Set.contains c h.clients && (h.heap c).user_id == u)
  -- Nobody closes what the hub may still send on.
  pub open_send : (c : Ptr) → Set.contains c h.clients ≡ true → (h.heap c).send.closed ≡ false
  pub open_disconnect : (c : Ptr) → (h.heap c).disconnect.closed ≡ false
  -- No client counts twice, and no channel is kept for nobody.
  pub nodup_clients : IsNodup h.clients
  pub nodup_members : (ch : Bytes) → IsNodup (members ch h)
  pub nodup_users : (u : ℤ) → IsNodup (connections u h)
  pub occupied : (ch : Bytes) → Map.get ch h.channels ≢ some []
  -- The two limits.
  pub within_total : Within h.cfg.max_connections_total (length h.clients)
  pub within_user : (u : ℤ) → Within h.cfg.max_connections_per_user (length (connections u h))

-- A client that was never registered: nothing is subscribed, and nothing closed.
pub record IsFresh {M : Type 0} (c : Ptr) (h : Hub M) : Type 0 where
  pub outside : Set.contains c h.clients ≡ false
  pub blank : (h.heap c).subscribed ≡ []
  pub open_send : (h.heap c).send.closed ≡ false
