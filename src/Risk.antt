-- ===== src/Risk.antt =====
-- src/fatty_trader/risk: liquidation estimates, venue rounding and the live sizing policy.
pub mod Liquidation
pub mod Sizing
pub mod Admission
pub mod LiveInput
pub mod Candidate
pub mod LivePolicy
pub mod EntryRoute
pub mod PriceScale
