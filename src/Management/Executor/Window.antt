-- ===== src/Management/Executor/Window.antt =====
-- Runs whose source window has closed, or whose mutations are disabled.
use fatty_multi_exchange_tra.Prelude.{
  String, ◌≡◌, refl, ◌∙◌, ◌⊎◌, inl, inr, false, Option, none, some, ◌&&◌,
}
use fatty_multi_exchange_tra.Management.Updates.{
  UpdateState, SourceManagementUpdate, claim, has_provider_intent,
}
use fatty_multi_exchange_tra.Management.Venue.{Log, World, stored, posts}
use fatty_multi_exchange_tra.Management.Endings.{Executor, Outcome, sl_oid, moves_stop}
use fatty_multi_exchange_tra.Management.Executor.{
  window_stage, enabled_stage, carry_out, run_found, run_once,
}
use fatty_multi_exchange_tra.Management.Executor.Frame.{
  Frame, Obeys, pure-Obeys, bind-Obeys, choose-Obeys, claim-Obeys, finished-Obeys,
}
use fatty_multi_exchange_tra.Management.Executor.Frame.Stages.{
  reconciled_stop-Obeys, stale_stage-Obeys, run_claimed-Obeys,
}

-- No close and no new stop is posted under the client id.
abbrev quiet : String → Frame
quiet k = record {
  Step = λ w v. posts k v.log ≡ posts k w.log;
  stays = λ w. refl;
  chains = λ u v w first second. second ∙ first;
  stores = λ A m same w. refl;
  acts = λ A event answer silent w. silent k w.log;
}

module _ (k : String) (ex : Executor) where
  window_stage-Obeys :
      (u : SourceManagementUpdate)
      → ((log : Log) → ex.eligible log ≡ false)
      → Obeys (quiet k) (window_stage ex u)
  unfolding window_stage Obeys
  window_stage-Obeys u shut w = rw (shut w.log) (stale_stage-Obeys (quiet k) ex u w)

  carry_out-Obeys :
      (u : SourceManagementUpdate)
      → (ex.mutations_enabled ≡ false) ⊎ ((log : Log) → ex.eligible log ≡ false)
      → Obeys (quiet k) (carry_out ex u)
  unfolding carry_out enabled_stage Obeys
  carry_out-Obeys u (inl off) =
      rw off (finished-Obeys (quiet k) u UpdateState.failed Outcome.mutations_disabled)
  carry_out-Obeys u (inr shut) =
      choose-Obeys (quiet k) ex.mutations_enabled _ _
        (λ w.
          choose-Obeys (quiet k)
            (moves_stop u.action && has_provider_intent u.id (sl_oid u.id) w.store) _ _
            (reconciled_stop-Obeys (quiet k) ex u) (window_stage-Obeys u shut) w)
        (finished-Obeys (quiet k) u UpdateState.failed Outcome.mutations_disabled)

  run_found-Obeys :
      (o : Option SourceManagementUpdate)
      → (ex.mutations_enabled ≡ false) ⊎ ((log : Log) → ex.eligible log ≡ false)
      → Obeys (quiet k) (run_found ex o)
  unfolding run_found
  run_found-Obeys none stopped = pure-Obeys (quiet k) Outcome.idle
  run_found-Obeys (some u) stopped = run_claimed-Obeys (quiet k) ex u (carry_out-Obeys u stopped)

-- A run with the venue's mutations disabled, or whose source window has closed, posts no close and
-- no new stop, whatever the venue answers.
pub stopped_run_posts_nothing :
    (ex : Executor) (worker k : String) (w : World)
    → (ex.mutations_enabled ≡ false) ⊎ ((log : Log) → ex.eligible log ≡ false)
    → posts k (run_once ex worker w).1.log ≡ posts k w.log
unfolding run_once Obeys
stopped_run_posts_nothing ex worker k w stopped =
    bind-Obeys (quiet k) (stored (claim worker)) (run_found ex) (claim-Obeys (quiet k) worker)
      (λ o. run_found-Obeys k ex o stopped) w
