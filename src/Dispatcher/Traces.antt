-- ===== src/Dispatcher/Traces.antt =====
-- The log of a run of the dispatcher, as a trace of the dispatch's states.
use fatty_multi_exchange_tra.Prelude.{ℕ, ◌≡◌, ◌⊎◌, [], ◌∷◌}
use fatty_multi_exchange_tra.Prelude.Raise.{Result, ok, err}
use fatty_multi_exchange_tra.Domain.{DispatchState, queued, preflight, submitting}
use fatty_multi_exchange_tra.Dispatcher.Effects.{
  Outcome, Log, moved, alerted, reserved_canary, released, submitted, state_of, submissions,
}

-- Every move starts in the state that the run has reached, and the provider is called once at
-- most, in state SUBMITTING.
abbrev pub IsTrace : Log → Type 0
IsTrace [] = Unit {0}
IsTrace (moved from to reason ∷ log) = (state_of log ≡ from) × IsTrace log
IsTrace (submitted order ∷ log) = (state_of log ≡ submitting) × (submissions log ≡ 0) × IsTrace log
IsTrace (alerted reason ∷ log) = IsTrace log
IsTrace (reserved_canary ∷ log) = IsTrace log
IsTrace (released s ∷ log) = IsTrace log

-- The state and the number of calls of the provider that an outcome reports.
abbrev pub Reports : Result Outcome → DispatchState → ℕ → Type 0
Reports (err e) s n = Unit {0}
Reports (ok Outcome.idle) s n = (s ≡ queued) × (n ≡ 0)
Reports (ok Outcome.kill_switch_latched) s n = (s ≡ DispatchState.rejected) × (n ≡ 0)
Reports (ok Outcome.protection_stream_latched) s n = (s ≡ DispatchState.rejected) × (n ≡ 0)
Reports (ok Outcome.cutover_gated) s n = (s ≡ DispatchState.rejected) × (n ≡ 0)
Reports (ok Outcome.rejected) s n = s ≡ DispatchState.rejected
Reports (ok Outcome.expired) s n = ((s ≡ preflight) × (n ≡ 0)) ⊎ ((s ≡ submitting) × (n ≡ 1))
Reports (ok Outcome.unknown) s n = (s ≡ DispatchState.unknown) × (n ≡ 1)
Reports (ok Outcome.acknowledged) s n = (s ≡ DispatchState.acknowledged) × (n ≡ 1)
Reports (ok Outcome.filled) s n = (s ≡ DispatchState.filled) × (n ≡ 1)
Reports (ok Outcome.partial) s n = (s ≡ DispatchState.partially_filled) × (n ≡ 1)

abbrev pub IsReported : Result Outcome × Log → Type 0
IsReported (r, log) = IsTrace log × Reports r (state_of log) (submissions log)

-- A log of a run that has reached the state and has not called the provider.
abbrev pub IsBefore : DispatchState → Log → Type 0
IsBefore s log = IsTrace log × (state_of log ≡ s) × (submissions log ≡ 0)

-- The outcomes of a run that rejects the dispatch without a call of the provider.
abbrev pub IsRefusal : Outcome → Type 0
IsRefusal outcome = Reports (ok outcome) DispatchState.rejected 0
