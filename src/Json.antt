-- ===== src/Json.antt =====
-- What the gateway takes from encoding/json: the encoder and the decoder at each type that the
-- source decodes into. They are a parameter of the definitions that use them.
use django_websocket_gateway.Common.{Bytes, Option}

-- `controlPayload` of gateway/hub.go, whose one field is the inner struct.
pub record ControlPayload : Type 0 where
  pub kind : Bytes
  pub reason : Bytes

-- `clientFrame` of gateway/client.go.
pub record ClientFrame : Type 0 where
  pub action : Bytes
  pub channel : Bytes

pub record Json : Type 0 where
  -- `json.Unmarshal(payload, &controlPayload)`: `none` is an error.
  pub control_payload : Bytes → Option ControlPayload
  -- `json.Unmarshal(data, &clientFrame)`
  pub client_frame : Bytes → Option ClientFrame
  -- `json.Marshal(map[string]any{"type": "error", "channel": …, "reason": …})`
  pub error_frame : Bytes → Bytes → Bytes
