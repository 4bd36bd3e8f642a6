-- ===== src/Live.antt =====
-- The live lane of Bitget: src/fatty_trader/exchanges/bitget/live.py.
pub mod Values
pub mod Fills
pub mod Record
pub mod Store
pub mod Ownership
pub mod Effects
pub mod Results
pub mod Entry
