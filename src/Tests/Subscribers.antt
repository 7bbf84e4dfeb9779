-- ===== src/Tests/Subscribers.antt =====
-- The theorems of `Redis`.
use django_websocket_gateway.Common.{[], ◌∷◌, List, bytes_eq, nat_eq, text, none, ◌≡◌, ltb}
use django_websocket_gateway.Redis.Wire.{
  Reliable, Request, subscribes, unsubscribes, serve, tally, serve-wire,
}
use django_websocket_gateway.Tests.{list_session, list_session_reliable}
use django_websocket_gateway.Tests.Visits.{subscriber, subscriber_new}

abbrev requests : List Request
requests =
    subscribes (text "news")
    ∷ subscribes (text "news")
    ∷ unsubscribes (text "news")
    ∷ subscribes (text "sport")
    ∷ unsubscribes (text "sport")
    ∷ []

serve-wire_example :
    Reliable.on_wire list_session_reliable
      (text "news")
      (serve list_session requests subscriber).pubsub
    ≡ ltb 0 (tally (text "news") 0 requests)
serve-wire_example =
    serve-wire list_session list_session_reliable (text "redis://r") none subscriber requests
      (text "news") subscriber_new
