-- ===== src/Management/Executor/Stored/Actions.antt =====
-- The actions of a run, and the state that each leaves its update in.
use fatty_multi_exchange_tra.Prelude.{
  ◌≡◌, refl, ◌∙◌, Bool, true, false, Option, none, some, List, [], ◌∷◌,
}
use fatty_multi_exchange_tra.Prelude.Raise.{Result, ok, err, value_error, pending_error}
use fatty_multi_exchange_tra.Prelude.Dict.{Dict, find}
use fatty_multi_exchange_tra.Prelude.Calls.{◌>>◌, pure, raise, lift, choose, continue}
use fatty_multi_exchange_tra.Decimal.{Decimal, eq, ◌-ᵈ◌}
use fatty_multi_exchange_tra.Live.Values.{Fields}
use fatty_multi_exchange_tra.Management.Updates.{
  ManagementAction, tp1_booked, tp_booked, sl_to_entry, close, UpdateState, SourceManagementUpdate,
  moved, update_state, alert_outcome, has_provider_intent, has_claimed_cancellation,
}
use fatty_multi_exchange_tra.Management.Venue.{
  stop_reconciled, World, Position, act, stored, one_position,
}
use fatty_multi_exchange_tra.Management.Endings.{Executor, ended, finish, close_oid, sl_oid}
use fatty_multi_exchange_tra.Management.Executor.{
  positions, cancelled, retire_proved, retire_reads, retire_read, retire_unreconcilable_close_claim,
  retired_or_pending, reconciled_stop, stale_stage, require_eligible, close_position, replace_stop,
  claim_intent, require_flat, close_action, move_stop, tp1_quantity, reduced, half_close,
  tp1_action, acted,
}
use fatty_multi_exchange_tra.Management.Executor.Stored.{
  LeavesUpdates, Fits, EndsIn, bind-EndsIn, choose-EndsIn, raise-EndsIn, none-EndsIn,
  update_state_lem, finished-EndsIn,
}
use fatty_multi_exchange_tra.Management.Executor.Stored.Calls.{
  act-LeavesUpdates, lift-LeavesUpdates, positions-LeavesUpdates, cancelled-LeavesUpdates,
  require_eligible-LeavesUpdates, tp1_quantity-LeavesUpdates, close_position-LeavesUpdates,
  replace_stop-LeavesUpdates, claim_intent-LeavesUpdates, retire_reads-LeavesUpdates,
}

module _ (ex : Executor) (u : SourceManagementUpdate) (d : Dict SourceManagementUpdate)
    (held : find u.id d ≡ some u) where
  -- A retired claim has its update moved; one that is not has left it alone.
  abbrev Retires : Result Bool × World → Type 0
  Retires (err e, w) = w.store.updates ≡ d
  Retires (ok false, w) = w.store.updates ≡ d
  Retires (ok true, w) = w.store.updates ≡ moved u.id UpdateState.reconciled u d

  retire_proved-Retires :
      (orders : List Fields) (terminal : Bool) (w : World)
      → w.store.updates ≡ d
      → Retires (retire_proved ex u orders terminal w)
  unfolding retire_proved finish alert_outcome
  retire_proved-Retires [] true w at =
      rw (update_state_lem u d held UpdateState.reconciled w.store at) refl
  retire_proved-Retires [] false w at = at
  retire_proved-Retires (m ∷ ms) terminal w at = at

  retire_read-Retires :
      (o : Option (List Fields × Bool)) (w : World)
      → w.store.updates ≡ d
      → Retires (retire_read ex u o w)
  unfolding retire_read
  retire_read-Retires none w at = at
  retire_read-Retires (some (orders, terminal)) w at = retire_proved-Retires orders terminal w at

  retire-Retires :
      (ms : List Fields) (w : World)
      → w.store.updates ≡ d
      → Retires (retire_unreconcilable_close_claim ex u ms w)
  unfolding retire_unreconcilable_close_claim LeavesUpdates
  retire-Retires [] w at = go (retire_reads ex u w) (retire_reads-LeavesUpdates ex u w ∙ at)
    where
      go :
          (r : Result (Option (List Fields × Bool)) × World)
          → r.1.store.updates ≡ d
          → Retires (continue r (retire_read ex u))
      go (err e, v) same = same
      go (ok o, v) same = retire_read-Retires o v same
  retire-Retires (m ∷ ms) w at = at

  pub retired_or_pending-EndsIn : (ms : List Fields) → EndsIn u d (retired_or_pending ex u ms)
  unfolding retired_or_pending EndsIn
  retired_or_pending-EndsIn ms w at =
      go (retire_unreconcilable_close_claim ex u ms w) (retire-Retires ms w at)
    where
      go :
          (r : Result Bool × World)
          → Retires r
          → Fits u d (
              continue r λ retired.
                choose retired (pure (some (ended UpdateState.reconciled))) (raise pending_error))
      go (err e, v) same = same
      go (ok true, v) same = same
      go (ok false, v) same = same

  pub pending : EndsIn u d (raise pending_error)
  pending = raise-EndsIn u d pending_error

  refused : EndsIn u d (raise value_error)
  refused = raise-EndsIn u d value_error

  pub reconciled_stop-EndsIn : EndsIn u d (reconciled_stop ex u)
  unfolding reconciled_stop
  reconciled_stop-EndsIn =
      bind-EndsIn u d
        (act (stop_reconciled (sl_oid u.id)) (ex.gateway.reconcile_stop_loss (sl_oid u.id))) _
        (act-LeavesUpdates _ _)
        λ x. finished-EndsIn u d held UpdateState.reconciled (ended UpdateState.reconciled) refl

  pub stale_stage-EndsIn : EndsIn u d (stale_stage ex u)
  unfolding stale_stage EndsIn
  stale_stage-EndsIn w =
      choose-EndsIn u d (has_provider_intent u.id (close_oid u.id) w.store) _ _
        (bind-EndsIn u d (positions ex u) _ (positions-LeavesUpdates ex u)
          retired_or_pending-EndsIn)
        (choose-EndsIn u d (has_claimed_cancellation u.id w.store) _ _
          (bind-EndsIn u d (cancelled ex u true) _ (cancelled-LeavesUpdates ex u true)
            λ terminal. choose-EndsIn u d terminal _ _ refused pending)
          refused)
        w

  require_flat-EndsIn : (ms : List Fields) → EndsIn u d (require_flat ex u ms)
  unfolding require_flat
  require_flat-EndsIn [] = none-EndsIn u d
  require_flat-EndsIn (m ∷ ms) = refused

  marked : EndsIn u d (
      stored (update_state u.id UpdateState.reconciliation_pending)
      >> pure (some (ended UpdateState.reconciliation_pending)))
  unfolding EndsIn
  marked w at = rw (update_state_lem u d held UpdateState.reconciliation_pending w.store at) refl

  close_action-EndsIn : (p : Position) → EndsIn u d (close_action ex u p)
  unfolding close_action
  close_action-EndsIn p =
      bind-EndsIn u d (require_eligible ex u) _ (require_eligible-LeavesUpdates ex u) λ x.
        bind-EndsIn u d (claim_intent ex u (close_oid u.id)) _
          (claim_intent-LeavesUpdates ex u (close_oid u.id))
          λ fresh.
            choose-EndsIn u d fresh _ _
              (bind-EndsIn u d (close_position ex u p p.size) _
                (close_position-LeavesUpdates ex u p p.size)
                λ y.
                  bind-EndsIn u d (positions ex u) _ (positions-LeavesUpdates ex u)
                    require_flat-EndsIn)
              marked

  move_stop-EndsIn : (p : Position) → EndsIn u d (move_stop ex u p)
  unfolding move_stop
  move_stop-EndsIn p =
      bind-EndsIn u d (require_eligible ex u) _ (require_eligible-LeavesUpdates ex u) λ x.
        bind-EndsIn u d (claim_intent ex u (sl_oid u.id)) _
          (claim_intent-LeavesUpdates ex u (sl_oid u.id))
          λ fresh.
            choose-EndsIn u d fresh _ _
              (bind-EndsIn u d (replace_stop ex u p) _ (replace_stop-LeavesUpdates ex u p)
                λ y. none-EndsIn u d)
              reconciled_stop-EndsIn

  reduced-EndsIn :
      (p : Position) (q : Decimal) (ms : List Fields) → EndsIn u d (reduced ex u p q ms)
  unfolding reduced
  reduced-EndsIn p q ms =
      bind-EndsIn u d (lift (one_position ms)) _ (lift-LeavesUpdates (one_position ms)) λ remaining.
        choose-EndsIn u d (eq remaining.size (p.size -ᵈ q)) _ _ (move_stop-EndsIn remaining) pending

  half_close-EndsIn : (p : Position) (q : Decimal) → EndsIn u d (half_close ex u p q)
  unfolding half_close
  half_close-EndsIn p q =
      bind-EndsIn u d (require_eligible ex u) _ (require_eligible-LeavesUpdates ex u) λ x.
        bind-EndsIn u d (claim_intent ex u (close_oid u.id)) _
          (claim_intent-LeavesUpdates ex u (close_oid u.id))
          λ fresh.
            choose-EndsIn u d fresh _ _
              (bind-EndsIn u d (close_position ex u p q) _ (close_position-LeavesUpdates ex u p q)
                λ y.
                  bind-EndsIn u d (positions ex u) _ (positions-LeavesUpdates ex u)
                    (reduced-EndsIn p q))
              pending

  tp1_action-EndsIn : (p : Position) → EndsIn u d (tp1_action ex u p)
  unfolding tp1_action EndsIn
  tp1_action-EndsIn p w =
      choose-EndsIn u d (has_provider_intent u.id (close_oid u.id) w.store) _ _ pending
        (bind-EndsIn u d (tp1_quantity ex u ex.gateway.normalize_tp1_close_quantity p.size) _
          (tp1_quantity-LeavesUpdates ex u ex.gateway.normalize_tp1_close_quantity p.size)
          (half_close-EndsIn p))
        w

  pub acted-EndsIn : (action : ManagementAction) (p : Position) → EndsIn u d (acted ex u action p)
  unfolding acted
  acted-EndsIn close p = close_action-EndsIn p
  acted-EndsIn tp1_booked p = tp1_action-EndsIn p
  acted-EndsIn sl_to_entry p = move_stop-EndsIn p
  acted-EndsIn tp_booked p = none-EndsIn u d
