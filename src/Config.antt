-- ===== src/Config.antt =====
-- gateway/config.go: the runtime parameters. Durations are in nanoseconds, as in Go.
pub mod Words
pub mod Number
pub mod Load
pub mod Options
pub mod Loaded
pub mod Secret
pub mod Origins
pub mod Defaults
use django_websocket_gateway.Common.{Bytes, List}
use django_websocket_gateway.Common.Int.{ℤ}

pub data LogLevel : Type 0 where
  level_debug level_info level_warn level_error : LogLevel

pub record Config : Type 0 where
  pub listen_addr : Bytes
  pub redis_url : Bytes
  pub django_auth_url : Bytes
  pub internal_auth_secret : Bytes
  pub allowed_origins : List Bytes
  pub max_connections_per_user : ℤ
  pub max_connections_total : ℤ
  pub max_message_size : ℤ
  pub connection_max_lifetime : ℤ
  pub ping_interval : ℤ
  pub pong_timeout : ℤ
  pub log_level : LogLevel
  pub auth_timeout : ℤ
