-- ===== src/Dispatcher/Submit.antt =====
-- The stages of `BitgetDispatcher.run_once` from the entry's routing to the provider's answer:
-- src/fatty_trader/execution/bitget_dispatcher.py.
pub mod Traces
use text.Mathlib.Text.{◌==◌}
use fatty_multi_exchange_tra.Prelude.{
  ℕ, String, Bool, true, false, ◌&&◌, not, Option, none, some, List, [], ◌∷◌, ltb, is_some,
}
use fatty_multi_exchange_tra.Prelude.Int.{pos}
use fatty_multi_exchange_tra.Prelude.Raise.{
  Error, Result, ok, err, timeout_error, source_freshness_expired,
}
use fatty_multi_exchange_tra.Prelude.Calls.{
  Call, ◌>>=◌, ◌>>◌, pure, lift, when, or_else, choose, continue,
}
use fatty_multi_exchange_tra.Decimal.{Decimal}
use fatty_multi_exchange_tra.Domain.{
  Direction, DispatchState, queued, preflight, sized, validated, submitting,
}
use fatty_multi_exchange_tra.Domain.Models.{CanonicalSignal, canonical_signal}
use fatty_multi_exchange_tra.Risk.Sizing.{minimum_safe_plan}
use fatty_multi_exchange_tra.Risk.EntryRoute.{EntryRoute, RouteInput, route_entry}
use fatty_multi_exchange_tra.Dispatcher.Symbol.{bitget_symbol}
use fatty_multi_exchange_tra.Dispatcher.Effects.{
  BitgetDispatch, DispatchGate, Submission, Preflight, EntryRoutingSnapshot, Order, Status, Reason,
  Outcome, Effect, Log, Execution, Environment, write, moved, alerted, reserved_canary, released,
  submitted,
}

-- `reject`, and the answer that follows it.
unfoldable pub refuse : Environment → DispatchState → Reason → Outcome → Call Log Outcome
refuse env current Reason.cutover_gated outcome = do
  write env (moved current DispatchState.rejected (some Reason.cutover_gated))
  pure outcome
refuse env current reason outcome = do
  write env (moved current DispatchState.rejected (some reason))
  write env (alerted reason)
  pure outcome

-- `release(submission)`
release_call : Execution → Submission → Call Log (Unit {0})
release_call x s log = elim (x.release s log) [
  | ok _ ↦ (ok tt, released s ∷ log)
  | err e ↦ (err e, log)
]

-- `_release_admission`
unfoldable pub release_admission :
    Environment → Option Execution → Option Submission → Call Log (Unit {0})
unfolding release_call
release_admission env (some x) (some s) =
    choose x.releases
      (or_else (release_call x s) (λ e. write env (alerted (Reason.margin_release_error e))))
      (pure tt)
release_admission env _ _ = pure tt

is_timeout : Error → Bool
is_timeout timeout_error = true
is_timeout _ = false

-- The last part: what the provider's answer makes of the dispatch.
finish : Environment → DispatchState → Option Reason → Outcome → Call Log Outcome
finish env target reason outcome = do write env (moved submitting target reason); pure outcome

unfoldable pub answered : Environment → Result Status → Call Log Outcome
unfolding finish is_timeout
answered env (err e) =
    choose (is_timeout e)
      (finish env DispatchState.unknown (some Reason.provider_unknown) Outcome.unknown)
      (do
        write env (moved submitting DispatchState.unknown (some (Reason.provider_readback_error e)))
        write env (alerted (Reason.provider_readback_error e))
        pure Outcome.unknown)
answered env (ok Status.expired) = pure Outcome.expired
answered env (ok Status.unrecognized) =
    finish env DispatchState.unknown (some Reason.provider_unknown) Outcome.unknown
answered env (ok Status.acknowledged) =
    finish env DispatchState.acknowledged none Outcome.acknowledged
answered env (ok Status.filled) = finish env DispatchState.filled none Outcome.filled
answered env (ok Status.filled_fallback) =
    finish env DispatchState.filled (some Reason.fallback_active) Outcome.filled
answered env (ok Status.filled_unprotected) =
    finish env DispatchState.filled (some Reason.missing_protection) Outcome.filled
answered env (ok Status.filled_locally_managed) =
    finish env DispatchState.filled (some Reason.locally_managed) Outcome.filled
answered env (ok Status.partial_unprotected) =
    finish env DispatchState.partially_filled (some Reason.missing_protection) Outcome.partial
answered env (ok Status.partial_locally_managed) =
    finish env DispatchState.partially_filled (some Reason.locally_managed) Outcome.partial
answered env (ok Status.partial) = finish env DispatchState.partially_filled none Outcome.partial
answered env (ok Status.rejected) = finish env DispatchState.rejected none Outcome.rejected

-- The call that may post an order: it is in the log whatever it brings.
unfoldable pub post : Environment → Execution → Order → Call Log Outcome
unfolding answered
post env x order log = answered env (x.submit order log) (submitted order ∷ log)

unfoldable pub submit : Environment → Execution → Order → Call Log Outcome
unfolding post
submit env x order = do write env (moved validated submitting none); post env x order

order_of : Decimal → Option Submission → Option EntryRoute → Order
order_of q none none = Order.plain q
order_of q (some s) none = Order.admitted s
order_of q s (some r) = Order.routed q r

-- `reserve_canary_entry`
reserve : Environment → Call Log Bool
reserve env log = elim (env.reserve_canary_entry log) [
  | ok true ↦ (ok true, reserved_canary ∷ log)
  | ok false ↦ (ok false, log)
  | err e ↦ (err e, log)
]

-- `release_admission`, and a rejection.
unfoldable pub give_back :
    Environment → Option Submission → DispatchState → Reason → Call Log Outcome
unfolding release_admission refuse
give_back env s current reason = do
  release_admission env env.execution s
  refuse env current reason Outcome.rejected

-- From the canary cap on.
unfoldable pub canary_stage :
    Environment → Execution → Decimal → Option Submission → Option EntryRoute → Call Log Outcome
unfolding submit order_of reserve give_back
canary_stage env x q s r =
    choose (ltb 0 env.gate.canary_max_orders)
      (do
        reserved ← reserve env
        choose reserved (submit env x (order_of q s r))
            (give_back env s validated Reason.canary_order_cap_reached))
      (submit env x (order_of q s r))

unfoldable pub execution_stage :
    Environment
    → Option Execution
    → Decimal
    → Option Submission
    → Option EntryRoute
    → Call Log Outcome
unfolding canary_stage give_back
execution_stage env none q s r = give_back env s validated Reason.missing_execution_client
execution_stage env (some x) q s r =
    choose (is_some r && not x.routes) (give_back env s validated Reason.entry_routing_unsupported)
      (canary_stage env x q s r)

unfoldable pub validation_stage :
    Environment → Decimal → Option Submission → Option EntryRoute → Call Log Outcome
unfolding execution_stage
validation_stage env q s r = do
  write env (moved preflight sized none)
  write env (moved sized validated none)
  execution_stage env env.execution q s r

-- The arguments of `route_entry`; the others keep their defaults.
route_input : BitgetDispatch → Direction → Decimal → ℕ → EntryRoutingSnapshot → RouteInput
route_input d direction q now snapshot = record {
  direction = direction;
  signal_entry = d.entry_price;
  market_price = snapshot.market_price;
  total_quantity = q;
  late_threshold_pct = snapshot.late_threshold_pct;
  limit_context = snapshot.limit_context;
  near_limit_threshold_pct = snapshot.near_limit_threshold_pct;
  now = now;
  source_received_at = none;
  recent_window_seconds = pos 60;
  force_market = false;
}

route_of :
    Environment
    → BitgetDispatch
    → Direction
    → Decimal
    → Result EntryRoutingSnapshot
    → Result EntryRoute
unfolding route_input
route_of env d direction q (err e) = err e
route_of env d direction q (ok snapshot) = route_entry (route_input d direction q env.now snapshot)

unfoldable pub routed_stage :
    Environment → Decimal → Option Submission → Result EntryRoute → Call Log Outcome
unfolding validation_stage give_back
routed_stage env q s (err e) = give_back env s preflight (Reason.entry_routing_error e)
routed_stage env q s (ok r) = validation_stage env q s (some r)

unfoldable pub routing_stage :
    Environment
    → BitgetDispatch
    → Direction
    → Decimal
    → Option Submission
    → Option (String → Result EntryRoutingSnapshot)
    → Call Log Outcome
unfolding routed_stage route_of validation_stage
routing_stage env d direction q s none = validation_stage env q s none
routing_stage env d direction q s (some f) =
    routed_stage env q s (route_of env d direction q (f d.pair_token))
