-- ===== src/Hub.antt =====
-- gateway/hub.go: the broker between Redis and the connected clients.
pub mod State
pub mod Routing
pub mod Delivery
pub mod Handlers
pub mod Invariant
pub mod Effect
pub mod Admission
pub mod Departure
pub mod Fanout
pub mod Subscribing
pub mod Revocation
pub mod Order
pub mod Machine
pub mod Queues
pub mod ChannelName
