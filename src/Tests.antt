-- ===== src/Tests.antt =====
-- The theorems at concrete inputs: a gateway with two limits, a JSON decoder for short frames, and a
-- Redis session that keeps the list of its channels.
mod Visits
mod Systems
mod Hubs
mod Subscribers
mod Gates
mod Pumps
mod Configs
mod Boots
mod Serves
use django_websocket_gateway.Common.{
  ℕ, suc, List, [], ◌∷◌, ◌++◌, Bytes, bytes_eq, nat_eq, arith, text, Option, none, some, Bool, true,
  false, ◌≡◌, refl, ◌==◌, if◌then◌else◌,
}
use django_websocket_gateway.Common.Int.{ℤ, pos}
use django_websocket_gateway.Common.Set
use django_websocket_gateway.Common.Set.{contains-add, contains-delete}
use django_websocket_gateway.Config.{Config, level_info}
use django_websocket_gateway.Json.{Json, ControlPayload, ClientFrame}
use django_websocket_gateway.Redis.{PubSub, RedisSubscriber}
use django_websocket_gateway.Redis.Wire.{Reliable}
use django_websocket_gateway.System.{
  Move, accept, post_register, read_frame, stop_reading, take_frame, take_disconnect, post_spawned,
  deliver, run_register, run_unregister, run_subscribe, run_unsubscribe, run_incoming,
}

abbrev pub small_config : Config
small_config = record {
  listen_addr = text ":8080";
  redis_url = text "redis://r";
  django_auth_url = text "http://d";
  internal_auth_secret = text "0123456789abcdef0123456789abcdef";
  allowed_origins = text "https://a" ∷ [];
  max_connections_per_user = pos 1;
  max_connections_total = pos 2;
  max_message_size = pos 8192;
  connection_max_lifetime = pos 1000;
  ping_interval = pos 10;
  pong_timeout = pos 20;
  log_level = level_info;
  auth_timeout = pos 5;
}

-- "+name" subscribes and "-name" unsubscribes.
abbrev short_frame : Bytes → Option ClientFrame
short_frame [] = none
short_frame (b ∷ bs) =
    if b == b'+'
    then some (record { action = text "subscribe"; channel = bs })
    else if b == b'-'
    then some (record { action = text "unsubscribe"; channel = bs })
    else none

abbrev short_control : Bytes → Option ControlPayload
short_control [] = none
short_control (b ∷ bs) = some (record { kind = b ∷ bs; reason = [] })

abbrev pub short_json : Json
short_json = record {
  control_payload = short_control;
  client_frame = short_frame;
  error_frame = λ ch reason. ch ++ reason;
}

abbrev pub list_session : PubSub (List Bytes)
list_session = record {
  connect = λ url. some [];
  subscribe = λ ch n. (Set.add ch n, none);
  unsubscribe = λ ch n. (Set.delete ch n, none);
  ping = λ n. none;
  close_pubsub = λ n. n;
  close_client = λ n. (n, none);
}

pub list_session_connect :
    (url x : Bytes) (n : List Bytes) → list_session.connect url ≡ some n → Set.contains x n ≡ false
unfolding Set.contains
list_session_connect url x n e = ground arith

abbrev pub list_session_reliable : Reliable list_session
list_session_reliable = record {
  on_wire = λ x n. Set.contains x n;
  subscribe_ok = λ ch n. refl;
  unsubscribe_ok = λ ch n. refl;
  on_wire-subscribe = λ ch x n. contains-add ch x n;
  on_wire-unsubscribe = λ ch x n. contains-delete ch x n;
  on_wire-connect = list_session_connect;
}

abbrev pub Subscriber : Type 0
Subscriber = RedisSubscriber (List Bytes) ℕ
