-- ===== src/Closes.antt =====
-- Closes that the venue made itself, and how they are told from other fills and recorded.
pub mod Facts
pub mod Settled
pub mod Native
pub mod Provider
