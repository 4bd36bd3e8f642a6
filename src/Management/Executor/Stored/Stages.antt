-- ===== src/Management/Executor/Stored/Stages.antt =====
-- The stages of a run, and the state that each leaves its update in.
use fatty_multi_exchange_tra.Prelude.{◌≡◌, refl, Bool, true, false, some, List, [], ◌∷◌, ◌&&◌}
use fatty_multi_exchange_tra.Prelude.Dict.{Dict, find}
use fatty_multi_exchange_tra.Prelude.Calls.{◌>>=◌, lift}
use fatty_multi_exchange_tra.Live.Values.{Fields}
use fatty_multi_exchange_tra.Management.Updates.{
  ManagementAction, tp1_booked, tp_booked, sl_to_entry, close, UpdateState, SourceManagementUpdate,
  has_provider_intent,
}
use fatty_multi_exchange_tra.Management.Venue.{one_position}
use fatty_multi_exchange_tra.Management.Endings.{
  Executor, Outcome, ended, close_oid, sl_oid, moves_stop, cancels_entries,
}
use fatty_multi_exchange_tra.Management.Executor.{
  positions, cancelled, acted, flat, opened, positioned, position_stage, cancel_stage, window_stage,
  enabled_stage, carry_out,
}
use fatty_multi_exchange_tra.Management.Executor.Stored.{
  EndsIn, bind-EndsIn, choose-EndsIn, finished-EndsIn,
}
use fatty_multi_exchange_tra.Management.Executor.Stored.Calls.{
  lift-LeavesUpdates, positions-LeavesUpdates, cancelled-LeavesUpdates,
}
use fatty_multi_exchange_tra.Management.Executor.Stored.Actions.{
  retired_or_pending-EndsIn, pending, reconciled_stop-EndsIn, stale_stage-EndsIn, acted-EndsIn,
}

module _ (ex : Executor) (u : SourceManagementUpdate) (d : Dict SourceManagementUpdate)
    (held : find u.id d ≡ some u) where
  flat-EndsIn : (b : Bool) → EndsIn u d (flat ex u b)
  unfolding flat EndsIn
  flat-EndsIn true w =
      choose-EndsIn u d (has_provider_intent u.id (close_oid u.id) w.store) _ _
        ((retired_or_pending-EndsIn ex u d held) [])
        (finished-EndsIn u d held UpdateState.cancelled_flat (ended UpdateState.cancelled_flat)
          refl)
        w
  flat-EndsIn false w =
      finished-EndsIn u d held UpdateState.failed (ended UpdateState.failed) refl w

  managed :
      (action : ManagementAction) (ms : List Fields)
      → EndsIn u d (lift (one_position ms) >>= acted ex u action)
  managed action ms =
      bind-EndsIn u d (lift (one_position ms)) _ (lift-LeavesUpdates (one_position ms))
        ((acted-EndsIn ex u d held) action)

  opened-EndsIn :
      (action : ManagementAction) (ms : List Fields) → EndsIn u d (opened ex u action ms)
  unfolding opened
  opened-EndsIn tp_booked ms =
      finished-EndsIn u d held UpdateState.entries_cancelled (ended UpdateState.entries_cancelled)
        refl
  opened-EndsIn tp1_booked ms = managed tp1_booked ms
  opened-EndsIn sl_to_entry ms = managed sl_to_entry ms
  opened-EndsIn close ms = managed close ms

  positioned-EndsIn : (ms : List Fields) → EndsIn u d (positioned ex u ms)
  unfolding positioned
  positioned-EndsIn [] = flat-EndsIn (cancels_entries u.action)
  positioned-EndsIn (m ∷ ms) = opened-EndsIn u.action (m ∷ ms)

  position_stage-EndsIn : EndsIn u d (position_stage ex u)
  unfolding position_stage
  position_stage-EndsIn =
      bind-EndsIn u d (positions ex u) _ (positions-LeavesUpdates ex u) positioned-EndsIn

  cancel_stage-EndsIn : EndsIn u d (cancel_stage ex u)
  unfolding cancel_stage
  cancel_stage-EndsIn =
      choose-EndsIn u d (cancels_entries u.action) _ _
        (bind-EndsIn u d (cancelled ex u false) _ (cancelled-LeavesUpdates ex u false)
          λ terminal. choose-EndsIn u d terminal _ _ position_stage-EndsIn (pending ex u d held))
        position_stage-EndsIn

  window_stage-EndsIn : EndsIn u d (window_stage ex u)
  unfolding window_stage EndsIn
  window_stage-EndsIn w =
      choose-EndsIn u d (ex.eligible w.log) _ _ cancel_stage-EndsIn (stale_stage-EndsIn ex u d held)
        w

  enabled_stage-EndsIn : EndsIn u d (enabled_stage ex u)
  unfolding enabled_stage EndsIn
  enabled_stage-EndsIn w =
      choose-EndsIn u d (moves_stop u.action && has_provider_intent u.id (sl_oid u.id) w.store) _ _
        (reconciled_stop-EndsIn ex u d held) window_stage-EndsIn w

  pub carry_out-EndsIn : EndsIn u d (carry_out ex u)
  unfolding carry_out
  carry_out-EndsIn =
      choose-EndsIn u d ex.mutations_enabled _ _ enabled_stage-EndsIn
        (finished-EndsIn u d held UpdateState.failed Outcome.mutations_disabled refl)
