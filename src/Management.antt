-- ===== src/Management.antt =====
-- The trade-management instructions of the source channel (close, first target booked, a target
-- booked, stop to entry), as the durable executor carries them out.
pub mod Updates
pub mod Venue
pub mod Endings
pub mod Executor
