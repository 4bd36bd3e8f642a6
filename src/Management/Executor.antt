-- ===== src/Management/Executor.antt =====
-- `SourceManagementExecutor` of src/fatty_trader/execution/source_management.py: one run claims one
-- update and carries it out.
pub mod Names
pub mod Frame
pub mod Sound
pub mod Posts
pub mod Stored
pub mod Budget
pub mod Window
pub mod Waiting
pub mod Readback
use fatty_multi_exchange_tra.Prelude.{
  ℕ, String, Bool, true, false, ◌&&◌, Option, none, some, List, [], ◌∷◌, if◌then◌else◌, ◌==◌,
}
use text.Mathlib.Text.{◌==◌ as str_eq}
use fatty_multi_exchange_tra.Prelude.Raise.{
  Error, Result, value_error, sizing_error, liquidation_guard_error, transition_error, setup_error,
  source_freshness_expired, key_error, not_found_error, type_error, pending_error,
}
use fatty_multi_exchange_tra.Prelude.Calls.{Call, ◌>>=◌, ◌>>◌, pure, raise, lift, or_else, choose}
use fatty_multi_exchange_tra.Decimal.{Decimal, of_int, eq, ◌-ᵈ◌, ◌/ᵈ◌}
use fatty_multi_exchange_tra.Live.Values.{Fields}
use fatty_multi_exchange_tra.Management.Updates.{
  ManagementAction, tp1_booked, tp_booked, sl_to_entry, close, UpdateState, SourceManagementUpdate,
  claim, update_state, alert_outcome, park, has_provider_intent, persist_provider_intent,
  has_claimed_cancellation,
}
use fatty_multi_exchange_tra.Management.Venue.{
  Gateway, Log, World, Position, entries_cancelled, closed, stop_reconciled, stop_replaced, read,
  act, stored, one_position,
}
use fatty_multi_exchange_tra.Management.Endings.{
  Executor, Outcome, idle, mutations_disabled, ended, close_oid, sl_oid, moves_stop,
  cancels_entries, fails_update, finish, finished, closing_side, attempts_limit,
}

module _ (ex : Executor) (u : SourceManagementUpdate) where
  pub positions : Call World (List Fields)
  positions = read (ex.gateway.get_positions u.symbol)

  pub cancelled : Bool → Call World Bool
  cancelled readback_only =
      act (entries_cancelled u.symbol u.id readback_only)
        (ex.gateway.cancel_pending_entries u.symbol u.id readback_only)

  -- A close claim is retired when the venue holds no order and no entry of the update.
  retire_proved : List Fields → Bool → Call World Bool
  unfolding finish
  retire_proved [] true = finish u UpdateState.reconciled >> pure true
  retire_proved _ _ = pure false

  -- The reads of `_retire_unreconcilable_close_claim`; `none` where one raised.
  pub retire_reads : Call World (Option (List Fields × Bool))
  unfolding cancelled
  retire_reads =
      or_else
        (read (ex.gateway.get_orders u.symbol) >>= λ orders.
          cancelled true >>= λ terminal. pure (some (orders, terminal)))
        (λ e. pure none)

  retire_read : Option (List Fields × Bool) → Call World Bool
  unfolding retire_proved
  retire_read none = pure false
  retire_read (some (orders, terminal)) = retire_proved orders terminal

  -- `_retire_unreconcilable_close_claim`
  unfoldable pub retire_unreconcilable_close_claim : List Fields → Call World Bool
  unfolding retire_reads retire_read
  retire_unreconcilable_close_claim [] = retire_reads >>= retire_read
  retire_unreconcilable_close_claim (m ∷ ms) = pure false

  -- A claim that is not retired stays pending.
  pub retired_or_pending : List Fields → Call World (Option Outcome)
  unfolding retire_unreconcilable_close_claim
  retired_or_pending ms = retire_unreconcilable_close_claim ms >>= λ retired.
      choose retired (pure (some (ended UpdateState.reconciled))) (raise pending_error)

  -- A run whose stop was posted before only reads it back.
  pub reconciled_stop : Call World (Option Outcome)
  unfolding finished
  reconciled_stop =
      act (stop_reconciled (sl_oid u.id)) (ex.gateway.reconcile_stop_loss (sl_oid u.id))
      >> finished u UpdateState.reconciled (ended UpdateState.reconciled)

  -- The window of the source message has closed.
  pub stale_stage : Call World (Option Outcome)
  unfolding retired_or_pending cancelled positions
  stale_stage w =
      choose (has_provider_intent u.id (close_oid u.id) w.store) (positions >>= retired_or_pending)
        (choose (has_claimed_cancellation u.id w.store)
          (cancelled true >>= λ terminal. choose terminal (raise value_error) (raise pending_error))
          (raise value_error))
        w

  -- `_require_eligible`
  pub require_eligible : Call World (Unit {0})
  require_eligible w = choose (ex.eligible w.log) (pure tt) (raise value_error) w

  -- `_close`
  pub close_position : Position → Decimal → Call World (Unit {0})
  unfolding closing_side
  close_position p q =
      act (closed u.symbol (closing_side p.side) q (close_oid u.id))
        (ex.gateway.close_reduce_only u.symbol (closing_side p.side) q (close_oid u.id))

  -- The stop at the position's entry, for its whole size.
  pub replace_stop : Position → Call World (Unit {0})
  replace_stop p =
      act (stop_replaced u.symbol p.side p.size p.entry (sl_oid u.id))
        (ex.gateway.replace_stop_loss u.symbol p.side p.size p.entry (sl_oid u.id))

  pub claim_intent : String → Call World Bool
  claim_intent oid = stored (persist_provider_intent u.id oid)

  require_flat : List Fields → Call World (Option Outcome)
  require_flat [] = pure none
  require_flat (m ∷ ms) = raise value_error

  close_action : Position → Call World (Option Outcome)
  unfolding require_eligible claim_intent close_position positions require_flat
  close_action p =
      require_eligible
      >> (claim_intent (close_oid u.id) >>= λ fresh.
          choose fresh (close_position p p.size >> (positions >>= require_flat)) (
            stored (update_state u.id UpdateState.reconciliation_pending)
            >> pure (some (ended UpdateState.reconciliation_pending))))

  move_stop : Position → Call World (Option Outcome)
  unfolding require_eligible claim_intent replace_stop reconciled_stop
  move_stop p =
      require_eligible
      >> (claim_intent (sl_oid u.id) >>= λ fresh.
          choose fresh (replace_stop p >> pure none) reconciled_stop)

  -- The half of the position, as the gateway rounds it.
  pub tp1_quantity : Option (String → Decimal → Log → Result Decimal) → Decimal → Call World Decimal
  tp1_quantity none size = pure (size /ᵈ of_int 2)
  tp1_quantity (some normalizer) size = read (normalizer u.symbol size)

  -- The stop moves to the entry when the readback shows what the half close leaves.
  reduced : Position → Decimal → List Fields → Call World (Option Outcome)
  unfolding move_stop
  reduced p q ms = lift (one_position ms) >>= λ remaining.
      choose (eq remaining.size (p.size -ᵈ q)) (move_stop remaining) (raise pending_error)

  half_close : Position → Decimal → Call World (Option Outcome)
  unfolding require_eligible claim_intent close_position positions reduced
  half_close p q =
      require_eligible
      >> (claim_intent (close_oid u.id) >>= λ fresh.
          choose fresh (close_position p q >> (positions >>= reduced p q)) (raise pending_error))

  tp1_action : Position → Call World (Option Outcome)
  unfolding tp1_quantity half_close
  tp1_action p w =
      choose (has_provider_intent u.id (close_oid u.id) w.store) (raise pending_error)
        (tp1_quantity ex.gateway.normalize_tp1_close_quantity p.size >>= half_close p) w

  pub acted : ManagementAction → Position → Call World (Option Outcome)
  unfolding close_action tp1_action move_stop
  acted close p = close_action p
  acted tp1_booked p = tp1_action p
  acted sl_to_entry p = move_stop p
  acted tp_booked p = pure none

  -- No position is open.
  flat : Bool → Call World (Option Outcome)
  unfolding retired_or_pending finished
  flat true w =
      choose (has_provider_intent u.id (close_oid u.id) w.store) (retired_or_pending [])
        (finished u UpdateState.cancelled_flat (ended UpdateState.cancelled_flat)) w
  flat false w = finished u UpdateState.failed (ended UpdateState.failed) w

  opened : ManagementAction → List Fields → Call World (Option Outcome)
  unfolding acted finished
  opened tp_booked ms =
      finished u UpdateState.entries_cancelled (ended UpdateState.entries_cancelled)
  opened action ms = lift (one_position ms) >>= acted action

  positioned : List Fields → Call World (Option Outcome)
  unfolding flat opened
  positioned [] = flat (cancels_entries u.action)
  positioned (m ∷ ms) = opened u.action (m ∷ ms)

  position_stage : Call World (Option Outcome)
  unfolding positions positioned
  position_stage = positions >>= positioned

  -- The pending entries are cancelled in front of every other step.
  cancel_stage : Call World (Option Outcome)
  unfolding cancelled position_stage
  cancel_stage =
      choose (cancels_entries u.action)
        (cancelled false >>= λ terminal. choose terminal position_stage (raise pending_error))
        position_stage

  window_stage : Call World (Option Outcome)
  unfolding cancel_stage stale_stage
  window_stage w = choose (ex.eligible w.log) cancel_stage stale_stage w

  enabled_stage : Call World (Option Outcome)
  unfolding reconciled_stop window_stage
  enabled_stage w =
      choose (moves_stop u.action && has_provider_intent u.id (sl_oid u.id) w.store) reconciled_stop
        window_stage w

  -- The block under `try`; `none` where it ends without a `return`.
  unfoldable pub carry_out : Call World (Option Outcome)
  unfolding finished enabled_stage
  carry_out =
      choose ex.mutations_enabled enabled_stage (finished u UpdateState.failed mutations_disabled)

  -- The handlers.
  unfoldable pub handler : Error → Call World (Option Outcome)
  unfolding finished fails_update
  handler pending_error =
      stored (park u.id (attempts_limit ex)) >>= λ state. pure (some (ended state))
  handler e =
      choose (fails_update e) (finished u UpdateState.failed (ended UpdateState.failed)) (raise e)

  closing : Option Outcome → Call World Outcome
  unfolding finish
  closing (some outcome) = pure outcome
  closing none = finish u UpdateState.reconciled >> pure (ended UpdateState.reconciled)

  unfoldable pub run_claimed : Call World Outcome
  unfolding carry_out handler closing
  run_claimed = or_else carry_out handler >>= closing

run_found : Executor → Option SourceManagementUpdate → Call World Outcome
unfolding run_claimed
run_found ex none = pure idle
run_found ex (some u) = run_claimed ex u

unfoldable pub run_once : Executor → String → Call World Outcome
unfolding claim run_found
run_once ex worker_id = stored (claim worker_id) >>= run_found ex
