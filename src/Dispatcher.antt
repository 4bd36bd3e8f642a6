-- ===== src/Dispatcher.antt =====
-- The dispatcher of the Bitget lane: src/fatty_trader/execution/bitget_dispatcher.py.
pub mod Effects
pub mod Symbol
pub mod Submit
pub mod Traces
pub mod Run
