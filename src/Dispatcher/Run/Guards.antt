-- ===== src/Dispatcher/Run/Guards.antt =====
-- What a run of the dispatcher has passed where it calls the provider.
use fatty_multi_exchange_tra.Prelude.{
  String, ◌≡◌, refl, subst, Bool, true, false, Option, none, some, [], ◌∷◌, arith,
}
use fatty_multi_exchange_tra.Prelude.Raise.{Result, ok, err}
use fatty_multi_exchange_tra.Prelude.Calls.{Call, ◌>>◌, continue}
use fatty_multi_exchange_tra.Decimal.{Decimal}
use fatty_multi_exchange_tra.Domain.{Direction, DispatchState, queued, preflight}
use fatty_multi_exchange_tra.Domain.Models.{CanonicalSignal, canonical_signal}
use fatty_multi_exchange_tra.Dispatcher.Symbol.{bitget_symbol}
use fatty_multi_exchange_tra.Dispatcher.Effects.{
  BitgetDispatch, Submission, Reason, Effect, Outcome, Log, Environment, write, moved, submissions,
}
use fatty_multi_exchange_tra.Dispatcher.Submit.{refuse}
use fatty_multi_exchange_tra.Dispatcher.Run.{
  sized_stage, quantity_of, preflight_stage, signal_of, signal_stage, canonical_stage,
  admission_stage, protection_stage, canary_mismatch, gate_stage, switch_active, stream_scope,
  switch_stage, symbol_stage, claimed_stage, run_once,
}

-- The run has called the provider.
abbrev pub HasPosted : Result Outcome × Log → Type 0
HasPosted (r, log) = submissions log ≡ 1

-- The protection admission, where there is one, allows the symbol.
abbrev pub Admits : Option (String → Result (Bool × String)) → String → Type 0
Admits none symbol = Unit {0}
Admits (some admission) symbol = (reason : String) × (admission symbol ≡ ok (true, reason))

-- The dispatch, under the provider's symbol.
abbrev pub renamed : BitgetDispatch → String → BitgetDispatch
renamed d symbol = record d { pair_token = symbol }

-- A dispatch that forms a canonical signal, with the quantity that its preflight brought.
abbrev pub IsSized : Environment → BitgetDispatch → Type 0
IsSized env d =
    (direction : Direction) × (signal : CanonicalSignal) × (sized : Decimal × Option Submission)
    × (d.direction ≡ some direction)
    × (canonical_signal (signal_of d direction) ≡ ok signal)
    × (quantity_of d (env.preflight d) ≡ ok sized)

module _ (env : Environment) where
  refuse_posted :
      (s : DispatchState) (reason : Reason) (o : Outcome) (log : Log)
      → submissions (refuse env s reason o log).1 ≡ submissions log
  unfolding refuse
  refuse_posted s reason o log = ground arith

  -- A call of the provider that started before the stage, or a refusal, is no call by the stage.
  not_by_refusal :
      (s : DispatchState) (reason : Reason) (o : Outcome) (log : Log)
      → submissions log ≡ 0
      → ¬ HasPosted (refuse env s reason o log)
  not_by_refusal s reason o log before posted = ground (arith, refuse_posted s reason o log)

  sized_stage_posted :
      (d : BitgetDispatch) (direction : Direction) (r : Result (Decimal × Option Submission))
      (log : Log)
      → submissions log ≡ 0
      → HasPosted (sized_stage env d direction r log)
      → (sized : Decimal × Option Submission) × (r ≡ ok sized)
  unfolding sized_stage
  sized_stage_posted d direction (err e) log before posted =
      ground
        (arith, not_by_refusal preflight (Reason.preflight_refused e) Outcome.rejected log before)
  sized_stage_posted d direction (ok sized) log before posted = (sized, refl)

  posted_after_write :
      (e : Effect) (next : Call Log Outcome) (log : Log)
      → submissions log ≡ 0
      → HasPosted ((write env e >> next) log)
      → HasPosted (next (e ∷ log))
  posted_after_write e next log before posted = ground arith

  preflight_stage_posted :
      (d : BitgetDispatch) (direction : Direction) (log : Log)
      → submissions log ≡ 0
      → HasPosted (preflight_stage env d direction log)
      → (sized : Decimal × Option Submission) × (quantity_of d (env.preflight d) ≡ ok sized)
  unfolding preflight_stage
  preflight_stage_posted d direction log before posted =
      let stage = sized_stage env d direction (quantity_of d (env.preflight d)) in
      let move = moved queued preflight none in
      sized_stage_posted d direction (quantity_of d (env.preflight d)) (move ∷ log) before
        (posted_after_write move stage log before posted)

  signal_stage_posted :
      (d : BitgetDispatch) (direction : Direction) (r : Result CanonicalSignal) (log : Log)
      → submissions log ≡ 0
      → HasPosted (signal_stage env d direction r log)
      → (signal : CanonicalSignal) × (r ≡ ok signal)
        × HasPosted (preflight_stage env d direction log)
  unfolding signal_stage
  signal_stage_posted d direction (err e) log before posted =
      absurd
        (not_by_refusal queued Reason.invalid_canonical_signal Outcome.rejected log before posted)
  signal_stage_posted d direction (ok signal) log before posted = (signal, refl, posted)

  canonical_stage_posted :
      (d : BitgetDispatch) (direction : Option Direction) (log : Log)
      → d.direction ≡ direction
      → submissions log ≡ 0
      → HasPosted (canonical_stage env d direction log)
      → IsSized env d
  unfolding canonical_stage
  canonical_stage_posted d none log at before posted =
      absurd
        (not_by_refusal queued Reason.invalid_canonical_signal Outcome.rejected log before posted)
  canonical_stage_posted d (some direction) log at before posted =
      let (signal, valid, next) =
        signal_stage_posted d direction (canonical_signal (signal_of d direction)) log before
          posted in
      let (sized, found) = preflight_stage_posted d direction log before next in
      (direction, signal, sized, at, valid, found)

  admission_stage_posted :
      (d : BitgetDispatch) (r : Result (Bool × String)) (log : Log)
      → submissions log ≡ 0
      → HasPosted (admission_stage env d r log)
      → (reason : String) × (r ≡ ok (true, reason))
        × HasPosted (canonical_stage env d d.direction log)
  unfolding admission_stage
  admission_stage_posted d (err e) log before posted = absurd (
      not_by_refusal queued (Reason.protection_admission_error e) Outcome.rejected log before
        posted)
  admission_stage_posted d (ok (false, reason)) log before posted =
      absurd (
        not_by_refusal queued Reason.protection_admission_denied Outcome.rejected log before posted)
  admission_stage_posted d (ok (true, reason)) log before posted = (reason, refl, posted)

  protection_stage_posted :
      (d : BitgetDispatch) (admission : Option (String → Result (Bool × String))) (log : Log)
      → submissions log ≡ 0
      → HasPosted (protection_stage env d admission log)
      → Admits admission d.pair_token × IsSized env d
  unfolding protection_stage
  protection_stage_posted d none log before posted =
      (tt, canonical_stage_posted d d.direction log refl before posted)
  protection_stage_posted d (some f) log before posted =
      let (reason, allowed, next) = admission_stage_posted d (f d.pair_token) log before posted in
      ((reason, allowed), canonical_stage_posted d d.direction log refl before next)

  gate_stage_posted :
      (d : BitgetDispatch) (log : Log)
      → submissions log ≡ 0
      → HasPosted (gate_stage env d log)
      → (env.gate.execution_enabled ≡ true)
        × (canary_mismatch env.gate d.pair_token ≡ false)
        × HasPosted (protection_stage env d env.protection_admission log)
  unfolding gate_stage
  gate_stage_posted d log before posted = ground (
    arith,
    not_by_refusal queued Reason.cutover_gated Outcome.cutover_gated log before,
    not_by_refusal queued Reason.canary_symbol_mismatch Outcome.rejected log before,
  )

  switch_stage_posted :
      (d : BitgetDispatch) (log : Log)
      → submissions log ≡ 0
      → HasPosted (switch_stage env d log)
      → (switch_active env.kill_switch "bitget" ≡ ok false)
        × (switch_active env.kill_switch stream_scope ≡ ok false)
        × HasPosted (gate_stage env d log)
  unfolding switch_stage
  switch_stage_posted d log before posted = ground (
    arith,
    not_by_refusal queued Reason.kill_switch_latched Outcome.kill_switch_latched log before,
    not_by_refusal queued Reason.protection_stream_latched Outcome.protection_stream_latched log
        before,
  )

  symbol_stage_posted :
      (d : BitgetDispatch) (r : Result String) (log : Log)
      → submissions log ≡ 0
      → HasPosted (symbol_stage env d r log)
      → (symbol : String) × (r ≡ ok symbol) × HasPosted (switch_stage env (renamed d symbol) log)
  unfolding symbol_stage
  symbol_stage_posted d (err e) log before posted =
      absurd
        (not_by_refusal queued Reason.invalid_dispatch_symbol Outcome.rejected log before posted)
  symbol_stage_posted d (ok symbol) log before posted = (symbol, refl, posted)

  -- The claimed dispatch has passed every gate in front of the provider.
  abbrev pub IsCleared : BitgetDispatch → String → Type 0
  IsCleared d symbol =
      (bitget_symbol d.pair_token ≡ ok symbol)
      × (switch_active env.kill_switch "bitget" ≡ ok false)
      × (switch_active env.kill_switch stream_scope ≡ ok false)
      × (env.gate.execution_enabled ≡ true)
      × (canary_mismatch env.gate symbol ≡ false)
      × Admits env.protection_admission symbol
      × IsSized env (renamed d symbol)

  claimed_stage_posted :
      (claim : Option BitgetDispatch)
      → HasPosted (claimed_stage env claim [])
      → (d : BitgetDispatch) × (symbol : String) × (claim ≡ some d) × IsCleared d symbol
  unfolding claimed_stage
  claimed_stage_posted none posted = ground arith
  claimed_stage_posted (some d) posted =
      let (symbol, named, next) =
        symbol_stage_posted d (bitget_symbol d.pair_token) [] refl posted in
      let (venue, stream, open_) = switch_stage_posted (renamed d symbol) [] refl next in
      let (enabled, canary, passed) = gate_stage_posted (renamed d symbol) [] refl open_ in
      let (allowed, sized) =
        protection_stage_posted (renamed d symbol) env.protection_admission [] refl passed in
      (d, symbol, refl, (named, venue, stream, enabled, canary, allowed, sized))

-- A run that calls the provider has claimed a dispatch whose token has a symbol at the venue; both
-- kill-switch scopes are open, the venue's gate is enabled, the canary admits the symbol, the
-- protection admission, where there is one, has allowed it, the dispatch forms a canonical signal
-- and its preflight has brought a quantity.
pub run_once_guarded :
    (env : Environment)
    → HasPosted (run_once env [])
    → (d : BitgetDispatch) × (symbol : String) × (env.claim ≡ ok (some d)) × IsCleared env d symbol
unfolding run_once
run_once_guarded env posted = go env.claim refl posted
  where
    go :
        (c : Result (Option BitgetDispatch))
        → env.claim ≡ c
        → HasPosted (continue (c, []) (claimed_stage env))
        → (d : BitgetDispatch) × (symbol : String) × (env.claim ≡ ok (some d))
          × IsCleared env d symbol
    go (err e) at posted = ground arith
    go (ok claim) at posted =
        let (d, symbol, claimed, cleared) = claimed_stage_posted env claim posted in
        (d, symbol, subst (λ c. env.claim ≡ ok c) claimed at, cleared)
