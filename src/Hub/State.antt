-- ===== src/Hub/State.antt =====
-- The state that the goroutine of `Hub.Run` owns, and the clients that it points to.
use django_websocket_gateway.Common.{
  List, [], ◌++◌, Bytes, bytes_eq, text, nat_eq, Option, none, some, ◌==◌, if◌then◌else◌,
}
use django_websocket_gateway.Common.Int.{ℤ, int_eq}
use django_websocket_gateway.Common.Map
use django_websocket_gateway.Common.Decimal.{format_int}
use django_websocket_gateway.Config.{Config}
use django_websocket_gateway.Client.{Ptr, Client}

-- `heap` holds the clients; `spawned` holds the goroutines `h.unregister <- c` that have not sent
-- yet. The Go channels of the struct are in the system's state, beside the hub.
pub record Hub (M : Type 0) : Type 0 where
  pub clients : List Ptr
  pub channels : List (Bytes × List Ptr)
  pub user_clients : List (ℤ × List Ptr)
  pub manager : Option M
  pub cfg : Config
  pub heap : Ptr → Client
  pub spawned : List Ptr

pub data Event : Type 0 where
  register : Ptr → Event
  unregister : Ptr → Event
  subscribe : Ptr → Bytes → Event
  unsubscribe : Ptr → Bytes → Event
  incoming : Bytes → Bytes → Event

abbrev pub or_empty : Option (List Ptr) → List Ptr
or_empty none = []
or_empty (some s) = s

module _ {M : Type 0} where
  unfoldable pub new_hub : Config → Option M → (Ptr → Client) → Hub M
  new_hub cfg manager heap = record {
    clients = [];
    channels = [];
    user_clients = [];
    manager = manager;
    cfg = cfg;
    heap = heap;
    spawned = [];
  }

  -- An assignment through the pointer `c`.
  unfoldable pub store : Ptr → Client → Hub M → Hub M
  store c new h = record h { heap = λ p. if c == p then new else h.heap p }

  -- `h.channels[ch]`; the nil map has no member.
  abbrev pub members : Bytes → Hub M → List Ptr
  members ch h = or_empty (Map.get ch h.channels)

  -- `h.userClients[u]`
  abbrev pub connections : ℤ → Hub M → List Ptr
  connections u h = or_empty (Map.get u h.user_clients)

abbrev pub session_channel : Bytes → Bytes
session_channel key = text "_session:" ++ key

abbrev pub user_channel : ℤ → Bytes
user_channel id = text "_user:" ++ format_int id ++ text ":revoke"
