-- ===== src/Management/Executor/Frame/Stages.antt =====
-- The stages of a run that post nothing.
use fatty_multi_exchange_tra.Prelude.{refl, Bool, true, false, Option, none, some, List, [], ◌∷◌}
use fatty_multi_exchange_tra.Prelude.Raise.{Error, value_error, pending_error}
use fatty_multi_exchange_tra.Prelude.Calls.{raise, or_else}
use fatty_multi_exchange_tra.Live.Values.{Fields}
use fatty_multi_exchange_tra.Management.Updates.{
  UpdateState, SourceManagementUpdate, park, has_provider_intent, has_claimed_cancellation,
}
use fatty_multi_exchange_tra.Management.Venue.{
  World, entries_cancelled, stop_reconciled, read, act, stored, posts,
}
use fatty_multi_exchange_tra.Management.Endings.{
  Executor, Outcome, ended, attempts_limit, close_oid, sl_oid, fails_update, finish,
}
use fatty_multi_exchange_tra.Management.Executor.{
  positions, cancelled, retire_proved, retire_reads, retire_read, retire_unreconcilable_close_claim,
  retired_or_pending, reconciled_stop, stale_stage, require_eligible, carry_out, handler, closing,
  run_claimed,
}
use fatty_multi_exchange_tra.Management.Executor.Frame.{
  Frame, Obeys, pure-Obeys, raise-Obeys, read-Obeys, bind-Obeys, or_else-Obeys, choose-Obeys,
  act-Obeys, park-Obeys, finish-Obeys, finished-Obeys,
}

module _ (f : Frame) (ex : Executor) (u : SourceManagementUpdate) where
  pub pending : Obeys f (raise {S = World} {V = Option Outcome} pending_error)
  pending = raise-Obeys f (Option Outcome) pending_error

  pub refused : Obeys f (raise {S = World} {V = Option Outcome} value_error)
  refused = raise-Obeys f (Option Outcome) value_error

  pub positions-Obeys : Obeys f (positions ex u)
  unfolding positions
  positions-Obeys = read-Obeys f (ex.gateway.get_positions u.symbol)

  pub cancelled-Obeys : (b : Bool) → Obeys f (cancelled ex u b)
  unfolding cancelled posts
  cancelled-Obeys b =
      act-Obeys f (entries_cancelled u.symbol u.id b)
        (ex.gateway.cancel_pending_entries u.symbol u.id b) (λ k log. refl)

  retire_proved-Obeys : (orders : List Fields) (b : Bool) → Obeys f (retire_proved ex u orders b)
  unfolding retire_proved
  retire_proved-Obeys [] true =
      bind-Obeys f (finish u UpdateState.reconciled) _ (finish-Obeys f u UpdateState.reconciled)
        λ x. pure-Obeys f true
  retire_proved-Obeys [] false = pure-Obeys f false
  retire_proved-Obeys (m ∷ ms) b = pure-Obeys f false

  retire_reads-Obeys : Obeys f (retire_reads ex u)
  unfolding retire_reads
  retire_reads-Obeys =
      or_else-Obeys f _ _
        (bind-Obeys f (read (ex.gateway.get_orders u.symbol)) _
          (read-Obeys f (ex.gateway.get_orders u.symbol))
          λ orders.
            bind-Obeys f (cancelled ex u true) _ (cancelled-Obeys true)
              λ terminal. pure-Obeys f (some (orders, terminal)))
        (λ e. pure-Obeys f none)

  retire_read-Obeys : (o : Option (List Fields × Bool)) → Obeys f (retire_read ex u o)
  unfolding retire_read
  retire_read-Obeys none = pure-Obeys f false
  retire_read-Obeys (some (orders, terminal)) = retire_proved-Obeys orders terminal

  retire-Obeys : (ms : List Fields) → Obeys f (retire_unreconcilable_close_claim ex u ms)
  unfolding retire_unreconcilable_close_claim
  retire-Obeys [] = bind-Obeys f (retire_reads ex u) _ retire_reads-Obeys retire_read-Obeys
  retire-Obeys (m ∷ ms) = pure-Obeys f false

  pub retired_or_pending-Obeys : (ms : List Fields) → Obeys f (retired_or_pending ex u ms)
  unfolding retired_or_pending
  retired_or_pending-Obeys ms =
      bind-Obeys f (retire_unreconcilable_close_claim ex u ms) _ (retire-Obeys ms) λ retired.
        choose-Obeys f retired _ _ (pure-Obeys f (some (ended UpdateState.reconciled))) pending

  pub reconciled_stop-Obeys : Obeys f (reconciled_stop ex u)
  unfolding reconciled_stop posts
  reconciled_stop-Obeys =
      bind-Obeys f
        (act (stop_reconciled (sl_oid u.id)) (ex.gateway.reconcile_stop_loss (sl_oid u.id))) _
        (act-Obeys f (stop_reconciled (sl_oid u.id)) (ex.gateway.reconcile_stop_loss (sl_oid u.id))
          (λ k log. refl))
        λ x. finished-Obeys f u UpdateState.reconciled (ended UpdateState.reconciled)

  pub stale_stage-Obeys : Obeys f (stale_stage ex u)
  unfolding stale_stage Obeys
  stale_stage-Obeys w =
      choose-Obeys f (has_provider_intent u.id (close_oid u.id) w.store) _ _
        (bind-Obeys f (positions ex u) _ positions-Obeys retired_or_pending-Obeys)
        (choose-Obeys f (has_claimed_cancellation u.id w.store) _ _
          (bind-Obeys f (cancelled ex u true) _ (cancelled-Obeys true)
            λ terminal. choose-Obeys f terminal _ _ refused pending)
          refused)
        w

  pub require_eligible-Obeys : Obeys f (require_eligible ex u)
  unfolding require_eligible Obeys
  require_eligible-Obeys w =
      choose-Obeys f (ex.eligible w.log) _ _ (pure-Obeys f tt)
        (raise-Obeys f (Unit {0}) value_error) w

  handler-Obeys : (e : Error) → Obeys f (handler ex u e)
  unfolding handler
  handler-Obeys pending_error =
      bind-Obeys f (stored (park u.id (attempts_limit ex))) _
        (park-Obeys f u.id (attempts_limit ex)) λ state. pure-Obeys f (some (ended state))
  handler-Obeys e =
      choose-Obeys f (fails_update e) _ _
        (finished-Obeys f u UpdateState.failed (ended UpdateState.failed))
        (raise-Obeys f (Option Outcome) e)

  closing-Obeys : (o : Option Outcome) → Obeys f (closing ex u o)
  unfolding closing
  closing-Obeys (some outcome) = pure-Obeys f outcome
  closing-Obeys none =
      bind-Obeys f (finish u UpdateState.reconciled) _ (finish-Obeys f u UpdateState.reconciled)
        λ x. pure-Obeys f (ended UpdateState.reconciled)

  pub run_claimed-Obeys : Obeys f (carry_out ex u) → Obeys f (run_claimed ex u)
  unfolding run_claimed
  run_claimed-Obeys carried =
      bind-Obeys f (or_else (carry_out ex u) (handler ex u)) (closing ex u)
        (or_else-Obeys f (carry_out ex u) (handler ex u) carried handler-Obeys) closing-Obeys
