-- ===== src/Dispatcher/Effects.antt =====
-- What a run of the dispatcher reads and does: its collaborators' answers, and the log of its effects.
use fatty_multi_exchange_tra.Prelude.{ℕ, suc, String, Bool, Option, none, some, List, [], ◌∷◌}
use fatty_multi_exchange_tra.Prelude.Raise.{Error, Result, ok, err}
use fatty_multi_exchange_tra.Prelude.Calls.{Call}
use fatty_multi_exchange_tra.Decimal.{Decimal}
use fatty_multi_exchange_tra.Domain.{Direction, DispatchState, queued}
use fatty_multi_exchange_tra.Domain.Models.{InstrumentSpec, VenueRiskConfig}
use fatty_multi_exchange_tra.Risk.EntryRoute.{EntryRoute, LimitEntryContext}

-- The claimed row. `direction` is `none` where the text is no direction.
pub record BitgetDispatch : Type 0 where
  pub pair_token : String
  pub direction : Option Direction
  pub entry_price : Decimal
  pub stop_loss : Decimal
  pub take_profits : List Decimal

-- `DispatchGate`; the number of canary orders is not negative.
pub record DispatchGate : Type 0 where
  pub execution_enabled : Bool
  pub canary_max_orders : ℕ
  pub canary_symbol : Option String

-- What the run reads of a `BitgetEntrySubmission`.
pub record Submission : Type 0 where
  pub quantity : Decimal
  pub planned_margin_usdt : Decimal

pub data Preflight : Type 0 where
  admission : Submission → Preflight
  instrument : InstrumentSpec → VenueRiskConfig → Preflight

-- `EntryRoutingSnapshot`
pub record EntryRoutingSnapshot : Type 0 where
  pub market_price : Decimal
  pub limit_context : Option LimitEntryContext
  pub late_threshold_pct : Decimal
  pub near_limit_threshold_pct : Option Decimal

-- The arguments of the three ways to submit an entry.
pub data Order : Type 0 where
  plain : Decimal → Order
  admitted : Submission → Order
  routed : Decimal → EntryRoute → Order

-- The provider's answers that `run_once` tells apart.
pub data Status : Type 0 where
  acknowledged filled filled_fallback filled_unprotected filled_locally_managed : Status
  partial_unprotected partial_locally_managed partial rejected expired unrecognized : Status

-- The reasons of transitions and alerts, by kind. The text that an admission or a preflight gives is
-- taken to be another than `cutover-gated`, which alone goes without an alert.
pub data Reason : Type 0 where
  invalid_dispatch_symbol kill_switch_latched protection_stream_latched cutover_gated : Reason
  canary_symbol_mismatch protection_admission_denied invalid_canonical_signal : Reason
  missing_execution_client entry_routing_unsupported canary_order_cap_reached : Reason
  provider_unknown missing_protection locally_managed fallback_active : Reason
  protection_admission_error preflight_refused entry_routing_error : Error → Reason
  provider_readback_error margin_release_error : Error → Reason

-- What `run_once` returns.
pub data Outcome : Type 0 where
  idle kill_switch_latched protection_stream_latched cutover_gated rejected expired : Outcome
  unknown acknowledged filled partial : Outcome

-- The effects on the repository and at the provider.
pub data Effect : Type 0 where
  moved : DispatchState → DispatchState → Option Reason → Effect
  alerted : Reason → Effect
  reserved_canary : Effect
  released : Submission → Effect
  submitted : Order → Effect

-- The effects of a run so far, the last one first.
abbrev pub Log : Type 0
Log = List Effect

-- The state of the dispatch that the log leaves.
abbrev pub state_of : Log → DispatchState
state_of [] = queued
state_of (moved from to reason ∷ log) = to
state_of (alerted reason ∷ log) = state_of log
state_of (reserved_canary ∷ log) = state_of log
state_of (released s ∷ log) = state_of log
state_of (submitted o ∷ log) = state_of log

-- How often the log calls the provider.
abbrev pub submissions : Log → ℕ
submissions [] = 0
submissions (moved from to reason ∷ log) = submissions log
submissions (alerted reason ∷ log) = submissions log
submissions (reserved_canary ∷ log) = submissions log
submissions (released s ∷ log) = submissions log
submissions (submitted o ∷ log) = suc (submissions log)

-- `self._execution`: may it route, may it release a reservation, and what do its calls bring?
pub record Execution : Type 0 where
  pub routes : Bool
  pub releases : Bool
  pub submit : Order → Log → Result Status
  pub release : Submission → Log → Result (Unit {0})

-- The dispatcher's collaborators. `none` stands for an argument that is missing. `refuses` tells
-- which writes of the repository raise, by what the run did before: a guarded update raises where
-- another worker has moved the dispatch.
pub record Environment : Type 0 where
  pub gate : DispatchGate
  pub claim : Result (Option BitgetDispatch)
  pub kill_switch : Option (String → Result Bool)
  pub protection_admission : Option (String → Result (Bool × String))
  pub preflight : BitgetDispatch → Result Preflight
  pub entry_routing : Option (String → Result EntryRoutingSnapshot)
  pub execution : Option Execution
  pub reserve_canary_entry : Log → Result Bool
  pub refuses : Effect → Log → Option Error
  pub now : ℕ

-- A write of the repository.
abbrev pub write : Environment → Effect → Call Log (Unit {0})
write env effect log = elim (env.refuses effect log) [
  | none ↦ (ok tt, effect ∷ log)
  | some e ↦ (err e, log)
]
