-- ===== src/System/Identity.antt =====
-- Whose clients a revocation can reach: the names of the control channels tell sessions and users
-- apart.
use django_websocket_gateway.Common.{
  List, Bytes, bytes_eq, nat_eq, text, true, ◌≡◌, ◌≢◌, refl, sym, inl, inr, arith, Option, ok,
}
use mathlib.Core.List.{append_cancel_right}
use django_websocket_gateway.Common.Int.{ℤ}
use django_websocket_gateway.Common.Decimal.{format_int, format_int-injective}
use django_websocket_gateway.Common.Set
use django_websocket_gateway.Config.{Config}
use django_websocket_gateway.Client.{Ptr, Client}
use django_websocket_gateway.Manager.{ChannelManager}
use django_websocket_gateway.Json.{Json}
use django_websocket_gateway.Hub.State.{members, session_channel, user_channel}
use django_websocket_gateway.Hub.Handlers.{is_control}
use django_websocket_gateway.Hub.Effect.Access.{Entitled}
use django_websocket_gateway.System.{System, Move, init, run}
use django_websocket_gateway.System.Safety.{members-run}

session-ne-user : (key : Bytes) (id : ℤ) → session_channel key ≢ user_channel id
session-ne-user key id h = ground arith

session_channel-injective : (a b : Bytes) → session_channel a ≡ session_channel b → a ≡ b
session_channel-injective a b h = ground arith

user_channel-injective : (a b : ℤ) → user_channel a ≡ user_channel b → a ≡ b
user_channel-injective a b h =
    format_int-injective a b
      (append_cancel_right (format_int a) (format_int b) (text ":revoke") (ground arith))

session_channel-IsControl : (key : Bytes) → is_control (session_channel key) ≡ true
unfolding is_control
session_channel-IsControl key = refl

user_channel-IsControl : (id : ℤ) → is_control (user_channel id) ≡ true
unfolding is_control
user_channel-IsControl id = refl

Entitled-session :
    (a : Client) (key : Bytes) → Entitled a (session_channel key) → a.session_key ≡ key
Entitled-session a key (inl own) = sym (session_channel-injective key a.session_key own)
Entitled-session a key (inr (inl other)) = absurd (session-ne-user key a.user_id other)
Entitled-session a key (inr (inr (_, _, public))) = cc (session_channel-IsControl key)

Entitled-user : (a : Client) (id : ℤ) → Entitled a (user_channel id) → a.user_id ≡ id
Entitled-user a id (inl other) = absurd (session-ne-user a.session_key id (sym other))
Entitled-user a id (inr (inl own)) = sym (user_channel-injective id a.user_id own)
Entitled-user a id (inr (inr (_, _, public))) = cc (user_channel-IsControl id)

module _ {M : Type 0} (ops : ChannelManager M) (json : Json) where
  -- Whatever the schedule, the channel of a session has no client of another session, and the revoke
  -- channel of a user has no client of another user.
  pub run-identity :
      (cfg : Config) (manager : Option M) (ms : List Move) {s : System M}
      → run ops json ms (init cfg manager) ≡ ok s
      → (c : Ptr) (key : Bytes) (id : ℤ)
      → (Set.contains c (members (session_channel key) s.hub) ≡ true
          → (s.hub.heap c).session_key ≡ key)
        × (Set.contains c (members (user_channel id) s.hub) ≡ true → (s.hub.heap c).user_id ≡ id)
  run-identity cfg manager ms {s} e c key id = (
    λ m. Entitled-session (s.hub.heap c) key (members-run ops json cfg manager ms e c _ m).1,
    λ m. Entitled-user (s.hub.heap c) id (members-run ops json cfg manager ms e c _ m).1,
  )
