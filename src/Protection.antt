-- ===== src/Protection.antt =====
-- The protection of open positions: capability admission, the stream watchdog with its latch, the
-- healer that releases the latch, and the confirmation of protective orders.
pub mod Capability
pub mod Snapshot
pub mod Repository
pub mod Watchdog
pub mod Healer
pub mod Orders
