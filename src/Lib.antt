-- ===== src/Lib.antt =====
-- A verification library for the trading core of fatty-multi-exchange-trader.
--
-- The program receives signals, queues one dispatch for each signal and exchange, sizes a position
-- under fixed risk rails, sends its entry order, and then keeps the position protected by a stop.
-- These parts are modelled:
-- - Domain (src/fatty_trader/domain): the enumerations, the frozen models with the checks that run
--   when one is built, and in Domain/Transitions the table of the dispatch life cycle.
-- - Dispatch (src/fatty_trader/storage/memory.py): the queue with create, claim, release and
--   set_state, as functions of an association list in the dictionary's order. Dispatch/Service is
--   DurableExecutionService of src/fatty_trader/execution/service.py, over that queue: a method
--   is a function from the queue to a value or an exception, and the queue that it leaves.
-- - Risk: Risk/Sizing and Risk/Liquidation are src/fatty_trader/risk/sizing.py and
--   src/fatty_trader/risk/liquidation.py. Risk/LiveInput, Risk/Candidate and Risk/LivePolicy are
--   the inputs, the single leverage candidate, and the search and decision of
--   src/fatty_trader/risk/live_policy.py. Risk/EntryRoute is the choice between market and limit
--   orders in src/fatty_trader/execution/entry_routing.py, and Risk/PriceScale is
--   src/fatty_trader/risk/price_scale.py. Risk/Admission holds the rounded stop and targets of
--   src/fatty_trader/execution/bitget_admission.py.
-- - Protection: Protection/Capability, Protection/Repository, Protection/Snapshot and
--   Protection/Watchdog are the admission test, the in-memory repository and the watchdog of the
--   protection stream (src/fatty_trader/exchanges/bitget/protection_capability.py,
--   src/fatty_trader/storage/protection_capabilities.py,
--   src/fatty_trader/execution/bitget_protection_watchdog.py). Protection/Healer is
--   src/fatty_trader/execution/latch_healer.py, and Protection/Orders is
--   src/fatty_trader/execution/protection.py.
-- - Dispatcher (src/fatty_trader/execution/bitget_dispatcher.py): run_once of the Bitget lane, as a
--   chain of stages that write a log of their effects. Dispatcher/Run goes from the claim to the
--   preflight, Dispatcher/Submit from the entry's routing to the provider's answer.
-- - Live (src/fatty_trader/exchanges/bitget/live.py): Live/Values and Live/Fills read the venue's
--   answers, Live/Record, Live/Store and Live/Ownership are the intents and their in-memory store,
--   Live/Results and Live/Entry the entry workflow, over a log of what was sent to the venue.
-- - Reconciliation (src/fatty_trader/exchanges/bitget/reconciliation.py): Reconciliation/Missing and
--   Reconciliation/Unknown settle orders of unknown outcome, Reconciliation/Reconciler is one tick
--   of the reconciler.
-- - Management (src/fatty_trader/execution/source_management.py): Management/Updates is the
--   in-memory store of the source channel's instructions, Management/Venue the gateway with the log
--   of its calls, Management/Endings and Management/Executor are the executor's run_once, as a
--   chain of stages.
-- - Closes: Closes/Facts reads a venue's fill, Closes/Native (which finds a
--   close) and Closes/Native/Recorded (which records it) are
--   src/fatty_trader/exchanges/bitget/native_close.py, and Closes/Provider is
--   src/fatty_trader/exchanges/bitget/provider_fill_reconciliation.py, both over the intent store of
--   Live.
-- Prelude holds what all parts share, and Decimal is Python's Decimal: a coefficient and an
-- exponent, with results rounded to 28 digits, half to even. Its exponent is not bounded. Tests
-- holds the concrete inputs.
--
-- How the parts interact: the queue hands a claimed dispatch to the service, which moves it along
-- the life cycle and calls the adapter of its exchange. The watchdog decides which symbols may take
-- entries and calls for the latch that stops them; the healer releases that latch. The dispatcher
-- reads that latch and the admission of symbols, builds the canonical signal of Domain/Models, and
-- uses Risk/Sizing and Risk/EntryRoute. The live lane uses Protection/Orders, and the reconciliation
-- reads orders and fills by the functions of the live lane. The closes that the venue made itself
-- are recorded as intents in the store of the live lane and bound to their entries there; the
-- executor of the source channel's instructions closes positions and moves stops through a gateway
-- of its own.
--
-- Instants are whole microseconds. Raised exceptions are values, told apart by class. The texts of
-- exceptions, reasons and logs are left out where nothing reads them. Loops run over a list
-- or down from a number. Only the decimal digits of a number n are taken with fuel: n rounds,
-- each of which divides n by ten, are enough. Parameters stand for uuid5, for a rounded
-- logarithm of floating-point numbers, for the adapters, for the
-- client that places stops, and for what a socket, a provider, a clock and a kill switch answer
-- during one cycle.
--
-- Not modelled: the PostgreSQL repositories, the venue clients, Telegram intake, the analyzer's
-- text patterns, the console, the monitor and the fallback protection of the live lane, and the
-- execution behind the dispatcher. A record or an answer of the venue carries what the code reads of
-- it. `Decimal(str(value))`, `str(value)`, `json.loads`, `lower`, `upper`, `strip` and SHA-256
-- are parameters.
pub mod Prelude
pub mod Decimal
pub mod Domain
pub mod Dispatch
pub mod Dispatcher
pub mod Live
pub mod Closes
pub mod Management
pub mod Reconciliation
pub mod Protection
pub mod Risk
mod Tests
