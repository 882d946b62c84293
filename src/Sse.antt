-- ===== src/Sse.antt =====
-- internal/sse: the server-sent event hub.
pub mod Subscriber
pub mod Wakeup
pub mod Broker
pub mod Delivery
