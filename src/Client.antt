-- ===== src/Client.antt =====
-- gateway/hub.go and gateway/client.go: a connected client. The WebSocket connection itself is not
-- under this repository, so the fields `conn` and `hub` have no counterpart.
pub mod Unique
use django_websocket_gateway.Common.{
  ℕ, ◌+◌, ◌-◌, ◌%◌, ◌^◌, List, [], ◌∷◌, ◌++◌, Bytes, bytes_eq, text, ltb, if◌then◌else◌,
}
use django_websocket_gateway.Common.Int.{ℤ, pos, negsuc}
use django_websocket_gateway.Common.Decimal.{format_int}
use django_websocket_gateway.Common.Set
use django_websocket_gateway.Common.Chan.{Chan, make}
use django_websocket_gateway.Config.{Config}

-- A `*Client`: two are equal when they point to the same client.
abbrev pub Ptr : Type 0
Ptr = ℕ

abbrev pub close_session_revoked : ℕ
close_session_revoked = 4401

abbrev pub close_slow_client : ℕ
close_slow_client = 4408

abbrev pub close_too_many_connections : ℕ
close_too_many_connections = 4429

pub record DisconnectReason : Type 0 where
  pub code : ℕ
  pub reason : Bytes

pub record Client : Type 0 where
  pub send : Chan Bytes
  pub disconnect : Chan DisconnectReason
  pub user_id : ℤ
  pub session_key : Bytes
  pub connection_id : Bytes
  pub allowed_channels : List Bytes
  pub subscribed : List Bytes
  pub connected_at : ℤ
  pub cfg : Config

-- The integer that 64 bits stand for.
unfoldable pub to_int64 : ℕ → ℤ
to_int64 n = if ltb n (2 ^ 63) then pos n else negsuc (2 ^ 64 - 1 - n)

-- `counter`, by the bits of its `atomic.Int64`.
abbrev pub Counter : Type 0
Counter = ℕ

-- `counter.next`: the counter after the call, whose value is the result.
unfoldable pub next : Counter → Counter
next v = (v + 1) % 2 ^ 64

-- `generateConnectionID`, of the counter after `next` and the clock in nanoseconds.
unfoldable pub generate_connection_id : Counter → ℕ → Bytes
unfolding to_int64
generate_connection_id v now =
    format_int (to_int64 v) ++ text "-" ++ format_int (pos (now % 1000000))

-- `newPumpClient`
unfoldable pub new_pump_client : Config → Counter → ℕ → ℤ → Bytes → Client
new_pump_client cfg v now user_id session_key = record {
  send = make 64;
  disconnect = make 1;
  user_id = user_id;
  session_key = session_key;
  connection_id = generate_connection_id v now;
  allowed_channels = [];
  subscribed = [];
  connected_at = pos now;
  cfg = cfg;
}

-- `for _, ch := range result.AllowedChannels { client.allowedChannels[ch] = true }` of
-- gateway/main.go.
unfoldable pub allow_channels : List Bytes → Client → Client
allow_channels [] client = client
allow_channels (ch ∷ chs) client =
    allow_channels chs (record client { allowed_channels = Set.add ch client.allowed_channels })
