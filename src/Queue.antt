-- ===== src/Queue.antt =====
-- internal/modules/queue, with the guest operations of internal/modules/customer: entries of a
-- queue live in MongoDB, their order in Redis.
pub mod Domain
pub mod Ticket
pub mod Greatest
pub mod World
pub mod Repository
pub mod Lookup
pub mod Frame
pub mod Join
pub mod Calling
pub mod Guest
pub mod Closing
pub mod Timers
pub mod Lifecycle
pub mod Slug
pub mod Opening
