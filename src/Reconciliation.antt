-- ===== src/Reconciliation.antt =====
-- The reconciliation of Bitget orders: src/fatty_trader/exchanges/bitget/reconciliation.py.
pub mod Missing
pub mod Unknown
pub mod Reconciler
