-- ===== src/Hub/Handlers.antt =====
-- The handlers of `Hub.Run`, one for each of its Go channels, and the loop.
use django_websocket_gateway.Common.{
  ℕ, List, [], ◌∷◌, Bytes, bytes_eq, nat_eq, text, Option, none, some, Bool, true, false, not, ◌&&◌,
  ◌||◌, ◌==◌, leb, length, if◌then◌else◌, Run, ok, panic, ◌>>=◌,
}
use django_websocket_gateway.Common.Int.{ℤ, int_eq, is_positive, at_most}
use django_websocket_gateway.Common.Map
use django_websocket_gateway.Common.Set
use django_websocket_gateway.Client.{Ptr, close_session_revoked, close_too_many_connections}
use django_websocket_gateway.Manager.{ChannelManager}
use django_websocket_gateway.Json.{Json}
use django_websocket_gateway.Hub.State.{
  Hub, store, Event, register, unregister, subscribe, unsubscribe, incoming, members,
}
use django_websocket_gateway.Hub.Routing.{
  add_subscription, remove_from_channel, leave_all, admit, delist,
}
use django_websocket_gateway.Hub.Delivery.{
  signal, refuse, send_error, deliver_all, disconnect_all, close_chan,
}

-- `channelRegex`: `^[a-zA-Z0-9_:-]{1,128}$`
abbrev pub is_channel_byte : ℕ → Bool
is_channel_byte b =
    (leb b'a' b && leb b b'z')
    || (leb b'A' b && leb b b'Z')
    || (leb b'0' b && leb b b'9')
    || b == b'_'
    || b == b':'
    || b == b'-'

unfoldable pub all_channel_bytes : Bytes → Bool
all_channel_bytes [] = true
all_channel_bytes (b ∷ bs) = is_channel_byte b && all_channel_bytes bs

unfoldable pub matches_channel_regex : Bytes → Bool
unfolding all_channel_bytes
matches_channel_regex s = leb 1 (length s) && leb (length s) 128 && all_channel_bytes s

-- `s[0] == '_'`, which panics on the empty string.
unfoldable pub starts_with_underscore : Bytes → Run Bool
starts_with_underscore [] = panic
starts_with_underscore (b ∷ bs) = ok (b == b'_')

-- `!channelRegex.MatchString(s) || s[0] == '_'`
unfoldable pub is_invalid_channel : Bytes → Run Bool
unfolding matches_channel_regex starts_with_underscore
is_invalid_channel s = if not (matches_channel_regex s) then ok true else starts_with_underscore s

-- `len(ch) > 0 && ch[0] == '_'`
unfoldable pub is_control : Bytes → Bool
is_control [] = false
is_control (b ∷ bs) = b == b'_'

-- `existing, ok := …; ok && len(existing) >= max`
abbrev pub holds_at_least : ℤ → Option (List Ptr) → Bool
holds_at_least max none = false
holds_at_least max (some existing) = at_most max (length existing)

module _ {M : Type 0} where
  -- `max > 0 && len(h.clients) >= max`
  unfoldable pub is_full : Hub M → Bool
  is_full h =
      is_positive h.cfg.max_connections_total
      && at_most h.cfg.max_connections_total (length h.clients)

  unfoldable pub is_user_full : ℤ → Hub M → Bool
  is_user_full id h =
      is_positive h.cfg.max_connections_per_user
      && holds_at_least h.cfg.max_connections_per_user (Map.get id h.user_clients)

module _ {M : Type 0} (ops : ChannelManager M) (json : Json) where
  unfoldable pub handle_register : Ptr → Hub M → Run (Hub M)
  unfolding refuse admit is_full is_user_full
  handle_register c h =
      if is_full h
      then refuse c close_too_many_connections (text "max_connections_total") h
      else if is_user_full (h.heap c).user_id h
      then refuse c close_too_many_connections (text "max_connections_per_user") h
      else ok (admit ops c h)

  -- `handleUnregister` past its guard.
  unfoldable pub dismiss : Ptr → Hub M → Run (Hub M)
  unfolding delist leave_all signal close_chan
  dismiss c h = do
    h' ←
        signal c (record { code = 0; reason = [] })
          (leave_all ops c (h.heap c).subscribed (delist c h))
    ok (close_chan c h')

  unfoldable pub handle_unregister : Ptr → Hub M → Run (Hub M)
  unfolding dismiss
  handle_unregister c h = if not (Set.contains c h.clients) then ok h else dismiss c h

  -- `handleClientSubscribe` past its guard.
  unfoldable pub judge_subscribe : Ptr → Bytes → Bool → Hub M → Run (Hub M)
  unfolding send_error add_subscription
  judge_subscribe c ch invalid h =
      if invalid
      then send_error json c ch (text "invalid_channel") h
      else if not (Set.contains ch (h.heap c).allowed_channels)
      then send_error json c ch (text "forbidden") h
      else ok (add_subscription ops c ch h)

  unfoldable pub handle_client_subscribe : Ptr → Bytes → Hub M → Run (Hub M)
  unfolding is_invalid_channel judge_subscribe
  handle_client_subscribe c ch h =
      if not (Set.contains c h.clients)
      then ok h
      else do invalid ← is_invalid_channel ch; judge_subscribe c ch invalid h

  unfoldable pub handle_client_unsubscribe : Ptr → Bytes → Hub M → Run (Hub M)
  unfolding store remove_from_channel
  handle_client_unsubscribe c ch h =
      if not (Set.contains c h.clients)
      then ok h
      else if not (Set.contains ch (h.heap c).subscribed)
      then ok h
      else ok (
          remove_from_channel ops c ch
            (store c (record (h.heap c) { subscribed = Set.delete ch (h.heap c).subscribed }) h))

  unfoldable pub handle_control_message : Bytes → Bytes → Hub M → Run (Hub M)
  unfolding disconnect_all
  handle_control_message ch payload h = elim (json.control_payload payload) [
    | none ↦ ok h
    | some parsed ↦
        if not (parsed.kind == text "revoke")
        then ok h
        else disconnect_all (members ch h) close_session_revoked (text "session_revoked") h
  ]

  unfoldable pub handle_incoming : Bytes → Bytes → Hub M → Run (Hub M)
  unfolding is_control handle_control_message deliver_all
  handle_incoming ch payload h =
      if is_control ch
      then handle_control_message ch payload h
      else deliver_all (members ch h) payload h

  -- The body of the loop of `Run`, for the Go channel that `select` took a value from.
  unfoldable pub handle : Event → Hub M → Run (Hub M)
  unfolding handle_register handle_unregister handle_client_subscribe handle_client_unsubscribe
      handle_incoming
  handle (register c) h = handle_register c h
  handle (unregister c) h = handle_unregister c h
  handle (subscribe c ch) h = handle_client_subscribe c ch h
  handle (unsubscribe c ch) h = handle_client_unsubscribe c ch h
  handle (incoming ch payload) h = handle_incoming ch payload h
