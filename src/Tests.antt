-- ===== src/Tests.antt =====
-- The properties at concrete inputs, by part of the program.
mod Risk
mod EntryRoute
mod Sizing
mod PriceScale
mod Dispatch
mod Protection
mod Dispatcher
mod Live
mod Reconciliation
mod Management
mod Closes
