-- ===== src/Manager.antt =====
-- The interface `channelManager` of gateway/hub.go, through which the hub asks for Redis channels.
use django_websocket_gateway.Common.{ℕ, suc, ◌-◌, ◌≡◌, Bytes, bytes_eq, Option, ◌==◌, if◌then◌else◌}

-- The errors of gateway/redis.go: the channel, and the message of the Redis library.
pub data ManagerError : Type 0 where
  subscriber_closed : ManagerError
  subscribe_failed unsubscribe_failed : Bytes → Bytes → ManagerError

-- A call returns the manager's new state and its error; `none` is a nil error.
pub record ChannelManager (M : Type 0) : Type 0 where
  pub subscribe : Bytes → M → M × Option ManagerError
  pub unsubscribe : Bytes → M → M × Option ManagerError

-- A manager that counts, for each channel, the subscribers it was asked for, as long as it is ready.
pub record Counts {M : Type 0} (ops : ChannelManager M) : Type 1 where
  pub IsReady : M → Type 0
  pub count : Bytes → M → ℕ
  pub subscribe-IsReady : (ch : Bytes) (m : M) → IsReady m → IsReady (ops.subscribe ch m).0
  pub unsubscribe-IsReady : (ch : Bytes) (m : M) → IsReady m → IsReady (ops.unsubscribe ch m).0
  pub count-subscribe :
      (ch x : Bytes) (m : M)
      → IsReady m
      → count x (ops.subscribe ch m).0 ≡ (if ch == x then suc (count x m) else count x m)
  pub count-unsubscribe :
      (ch x : Bytes) (m : M)
      → IsReady m
      → count x (ops.unsubscribe ch m).0 ≡ (if ch == x then count x m - 1 else count x m)
