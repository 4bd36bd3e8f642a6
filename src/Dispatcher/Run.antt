-- ===== src/Dispatcher/Run.antt =====
-- `BitgetDispatcher.run_once` of src/fatty_trader/execution/bitget_dispatcher.py: the claim and the
-- gates. The audit evidence, the printed lines and the measured times decide nothing and are left out.
pub mod Traces
pub mod Guards
use text.Mathlib.Text.{◌==◌}
use fatty_multi_exchange_tra.Prelude.{
  ℕ, String, Bool, true, false, ◌&&◌, not, Option, none, some, List, [], ◌∷◌, ltb,
}
use fatty_multi_exchange_tra.Prelude.Raise.{Error, Result, ok, err, source_freshness_expired}
use fatty_multi_exchange_tra.Prelude.Calls.{Call, ◌>>=◌, ◌>>◌, pure, lift, choose, continue}
use fatty_multi_exchange_tra.Decimal.{Decimal}
use fatty_multi_exchange_tra.Domain.{Direction, DispatchState, queued, preflight}
use fatty_multi_exchange_tra.Domain.Models.{CanonicalSignal, canonical_signal, SizingPlan}
use fatty_multi_exchange_tra.Risk.Sizing.{minimum_safe_plan}
use fatty_multi_exchange_tra.Dispatcher.Symbol.{bitget_symbol}
use fatty_multi_exchange_tra.Dispatcher.Effects.{
  BitgetDispatch, DispatchGate, Submission, Preflight, Reason, Outcome, Log, Environment, write,
  moved,
}
use fatty_multi_exchange_tra.Dispatcher.Submit.{refuse, routing_stage}

is_expired : Error → Bool
is_expired source_freshness_expired = true
is_expired _ = false

sized_by : Result SizingPlan → Result (Decimal × Option Submission)
sized_by (err e) = err e
sized_by (ok plan) = ok (plan.quantity, none)

-- The quantity, and the submission that the admission brought.
pub quantity_of : BitgetDispatch → Result Preflight → Result (Decimal × Option Submission)
unfolding sized_by
quantity_of d (err e) = err e
quantity_of d (ok (Preflight.admission s)) = ok (s.quantity, some s)
quantity_of d (ok (Preflight.instrument spec risk)) =
    sized_by (minimum_safe_plan spec risk d.entry_price)

-- The source guard has written its own transition where it raised.
unfoldable pub sized_stage :
    Environment
    → BitgetDispatch
    → Direction
    → Result (Decimal × Option Submission)
    → Call Log Outcome
unfolding is_expired refuse routing_stage
sized_stage env d direction (err e) =
    choose (is_expired e) (pure Outcome.expired)
      (refuse env preflight (Reason.preflight_refused e) Outcome.rejected)
sized_stage env d direction (ok (q, s)) = routing_stage env d direction q s env.entry_routing

unfoldable pub preflight_stage : Environment → BitgetDispatch → Direction → Call Log Outcome
unfolding sized_stage quantity_of
preflight_stage env d direction = do
  write env (moved queued preflight none)
  sized_stage env d direction (quantity_of d (env.preflight d))

-- The signal that the check builds of a dispatch.
pub signal_of : BitgetDispatch → Direction → CanonicalSignal
signal_of d direction = record {
  source_message_id = 1;
  source_revision = "0000000000000000000000000000000000000000000000000000000000000000";
  pair_token = d.pair_token;
  direction = direction;
  entry_price = d.entry_price;
  stop_loss = d.stop_loss;
  take_profits = d.take_profits;
}

unfoldable pub signal_stage :
    Environment → BitgetDispatch → Direction → Result CanonicalSignal → Call Log Outcome
unfolding refuse preflight_stage
signal_stage env d direction (err e) =
    refuse env queued Reason.invalid_canonical_signal Outcome.rejected
signal_stage env d direction (ok signal) = preflight_stage env d direction

unfoldable pub canonical_stage : Environment → BitgetDispatch → Option Direction → Call Log Outcome
unfolding refuse signal_stage signal_of
canonical_stage env d none = refuse env queued Reason.invalid_canonical_signal Outcome.rejected
canonical_stage env d (some direction) =
    signal_stage env d direction (canonical_signal (signal_of d direction))

unfoldable pub admission_stage :
    Environment → BitgetDispatch → Result (Bool × String) → Call Log Outcome
unfolding refuse canonical_stage
admission_stage env d (err e) =
    refuse env queued (Reason.protection_admission_error e) Outcome.rejected
admission_stage env d (ok (false, reason)) =
    refuse env queued Reason.protection_admission_denied Outcome.rejected
admission_stage env d (ok (true, reason)) = canonical_stage env d d.direction

unfoldable pub protection_stage :
    Environment → BitgetDispatch → Option (String → Result (Bool × String)) → Call Log Outcome
unfolding admission_stage canonical_stage
protection_stage env d none = canonical_stage env d d.direction
protection_stage env d (some f) = admission_stage env d (f d.pair_token)

-- `canary_symbol is not None and pair_token != canary_symbol`
differs : Option String → String → Bool
differs none symbol = false
differs (some canary) symbol = not (symbol == canary)

unfoldable pub canary_mismatch : DispatchGate → String → Bool
unfolding differs
canary_mismatch gate symbol = ltb 0 gate.canary_max_orders && differs gate.canary_symbol symbol

unfoldable pub gate_stage : Environment → BitgetDispatch → Call Log Outcome
unfolding refuse protection_stage canary_mismatch
gate_stage env d =
    choose env.gate.execution_enabled
      (choose (canary_mismatch env.gate d.pair_token)
        (refuse env queued Reason.canary_symbol_mismatch Outcome.rejected)
        (protection_stage env d env.protection_admission))
      (refuse env queued Reason.cutover_gated Outcome.cutover_gated)

-- `kill_switch is not None and kill_switch.is_active(scope)`
unfoldable pub switch_active : Option (String → Result Bool) → String → Result Bool
switch_active none scope = ok false
switch_active (some is_active) scope = is_active scope

-- `PROTECTION_STREAM_SCOPE`
abbrev pub stream_scope : String
stream_scope = "bitget-protection-stream"

unfoldable pub switch_stage : Environment → BitgetDispatch → Call Log Outcome
unfolding switch_active refuse gate_stage
switch_stage env d = do
  venue ← lift (switch_active env.kill_switch "bitget")
  choose venue (refuse env queued Reason.kill_switch_latched Outcome.kill_switch_latched) (do
    stream ← lift (switch_active env.kill_switch stream_scope)
    choose stream
        (refuse env queued Reason.protection_stream_latched Outcome.protection_stream_latched)
        (gate_stage env d))

unfoldable pub symbol_stage : Environment → BitgetDispatch → Result String → Call Log Outcome
unfolding refuse switch_stage
symbol_stage env d (err e) = refuse env queued Reason.invalid_dispatch_symbol Outcome.rejected
symbol_stage env d (ok symbol) = switch_stage env (record d { pair_token = symbol })

unfoldable pub claimed_stage : Environment → Option BitgetDispatch → Call Log Outcome
unfolding symbol_stage bitget_symbol
claimed_stage env none = pure Outcome.idle
claimed_stage env (some d) = symbol_stage env d (bitget_symbol d.pair_token)

-- `run_once`
unfoldable pub run_once : Environment → Call Log Outcome
unfolding claimed_stage
run_once env = lift env.claim >>= claimed_stage env
