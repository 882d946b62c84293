-- ===== src/Examples.antt =====
-- Concrete inputs at which the theorems about the program apply.
pub mod World
pub mod Net
pub mod Queue
pub mod Opening
pub mod Subscription
pub mod Sse
pub mod Guest
pub mod Accounts
pub mod Tokens
pub mod Access
pub mod Hosts
