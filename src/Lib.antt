-- ===== src/Lib.antt =====
-- The gateway of django-websocket-gateway: a Go program that lets browsers follow Redis channels
-- over WebSockets, where Django says who may follow what.
--
-- The parts. `Hub.Run` (gateway/hub.go) is one goroutine that owns the maps of clients, channels and
-- users. Each connection has the goroutines `ReadPump` and `WritePump` (gateway/client.go); they and
-- the read loop of the Redis subscriber (gateway/redis.go) reach the hub through Go channels only.
-- The hub asks the subscriber for a Redis channel when its first client joins and gives it up when
-- the last one leaves. gateway/main.go makes the clients.
--
-- The files.
-- - Common: Boolean tests, sets and maps as lists, decimal numbers, buffered Go channels
--   (Common/Chan), and `Run`, a result or a panic (Common/Outcome).
-- - Config: gateway/config.go. Config/Load is `Load`, one step after the other; Config/Words and
--   Config/Number are what it takes from strings and strconv. Config/Options, Config/Loaded,
--   Config/Secret, Config/Origins and Config/Defaults are about an option, what is loaded, what an
--   error says of the secret, the list of origins, and the defaults.
-- - Client, Json, Manager: the records of gateway/client.go, with the ids of connections
--   (Client/Unique), and the interfaces to encoding/json and to the channel manager.
-- - Hub: gateway/hub.go. Hub/State is the struct `Hub`, Hub/Routing has `addSubscription`,
--   `removeFromChannel` and the maps of a client that comes or goes, Hub/Delivery the sends to
--   clients, Hub/Handlers the five handlers and one round of the loop. Hub/Invariant has the
--   invariant, Hub/Effect has the ways in which a round may change the maps, and Hub/Machine
--   compares a round with an abstract machine; Hub/Admission, Hub/Departure, Hub/Subscribing,
--   Hub/Fanout and Hub/Revocation describe the handlers one by one, and Hub/Order is about the order
--   in which a map is iterated. Hub/Queues says what a round puts into the queues of the clients,
--   and Hub/ChannelName what the regular expression of channel names means.
-- - Redis: gateway/redis.go; Redis/Counting is about the counts, Redis/Wire about what Redis
--   sends, and Redis/Reader about the callback and the read loop.
-- - System: the goroutines together. A move is one send, one receive or one case of `select`, a
--   schedule is a list of moves, and a move that would block changes nothing. System/State is the
--   state with its moves, System/Invariant the invariant, System/Steps the moves and the invariant;
--   System/Safety, System/Limits, System/Identity, System/Wire and System/Subscriber are about
--   schedules. System/Trace follows each frame from Redis to the socket, each disconnect signal to
--   the close code, and the connection ids. System/Flush is about the rounds of a pump, and
--   System/Rounds, with System/Pumped, compares them with the loop of Pump. System/Takes,
--   System/Drained and System/Stopped are about the rounds of `Hub.Run`, before and after it has
--   returned, and System/Credentials about what a client keeps of its handshake. System/Revoked
--   follows a revocation to the close of the connection. System/Keeps splits a move into the changes
--   that it comes to.
-- - Pump: the loop of `WritePump`, with its close codes; a schedule takes one round of it at a time.
-- - Auth, Gate: gateway/auth.go, and the part of gateway/main.go and gateway/health.go that answers
--   HTTP requests. Serve is `wsHandler` as a whole, from the request to the client that it makes.
-- - Boot: `main` of gateway/main.go, from the environment to the running gateway, with its shutdown
--   (Boot/Shutdown), the limits (Boot/Limits), the subscriber (Boot/Wire, Boot/Subscriber) and the
--   ticker (Boot/Ticker). The subscriber to which `main`, the hub and `/healthz` point is the manager
--   of the hub.
-- - Tests: a small gateway, a schedule, and the theorems at concrete inputs.
--
-- The correspondence. A `*Client` is an address in the heap of the hub, so that a change through one
-- pointer is seen through all. A Go map with values `true` is a list without duplicates, other maps
-- are association lists. An order of iteration, which Go leaves open, is the order of the list. A
-- send on a closed Go channel and an index out of range are `panic`. Machine integers of 64 bits that
-- can be negative are `ℤ` where the source compares or prints them; the connection counter wraps
-- around. `format_nat` runs on fuel, one more than the number, and each round divides by ten.
--
-- Parameters. JSON decoding, the Redis client library, the HTTP client, the handshake, the
-- environment and `time.ParseDuration`, which computes with floating-point numbers, are arguments.
-- The type `int` has 64 bits. The theorems about what Redis sends suppose that no command fails and
-- that SUBSCRIBE and UNSUBSCRIBE do what Redis documents (`Reliable`).
--
-- Not modelled: logging; the clock, so that a deadline, a lifetime and a tick are moves that may come
-- at any time; the WebSocket library and the HTTP server with its `Shutdown`, which are not in the
-- repository; the cancelling of a request's context, which is a move of its pump; and the Python and
-- JavaScript around the gateway. `conn.CloseNow`, which a `ReadPump` that ends calls too, has no move
-- of its own, and Redis may deliver in a schedule even after the session is closed. `time.NewTicker` panics for an interval that is not positive: this
-- is in `start_write_pump`, and a schedule supposes that the pumps have started.
pub mod Common
pub mod Config
pub mod Client
pub mod Pump
pub mod Auth
pub mod Gate
pub mod Boot
pub mod Json
pub mod Manager
pub mod Hub
pub mod System
pub mod Redis
pub mod Serve
mod Tests
