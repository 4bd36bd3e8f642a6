-- ===== src/Dispatcher/Run/Traces.antt =====
-- The log of a whole run of the dispatcher.
use fatty_multi_exchange_tra.Decimal.{Decimal}
