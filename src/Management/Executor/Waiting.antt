-- ===== src/Management/Executor/Waiting.antt =====
-- A close whose intent is there while its position stays open.
use fatty_multi_exchange_tra.Prelude.{
  ℕ, zero, suc, String, ◌≡◌, ◌≢◌, refl, true, false, some, [], ◌∷◌,
}
use fatty_multi_exchange_tra.Prelude.Raise.{ok}
use fatty_multi_exchange_tra.Prelude.Dict.{same_text, find}
use fatty_multi_exchange_tra.Live.Values.{Fields}
use fatty_multi_exchange_tra.Management.Updates.{
  close, UpdateState, SourceManagementUpdate, claimable, claimed_update, update_state,
  persist_provider_intent, has_provider_intent,
}
use fatty_multi_exchange_tra.Management.Venue.{
  Log, World, Position, one_position, entries_cancelled, posts,
}
use fatty_multi_exchange_tra.Management.Endings.{
  Executor, ended, moves_stop, cancels_entries, close_oid,
}
use fatty_multi_exchange_tra.Management.Executor.{
  run_once, run_found, run_claimed, carry_out, enabled_stage, window_stage, cancel_stage, cancelled,
  closing, position_stage, positions, positioned, opened, acted, close_action, require_eligible,
  claim_intent,
}
use fatty_multi_exchange_tra.Management.Executor.Budget.{runs, claim_head}

-- The update, waiting with its attempts as they were.
abbrev pub waiting : SourceManagementUpdate → SourceManagementUpdate
waiting u = record u { state = UpdateState.reconciliation_pending }

abbrev waiting_world : SourceManagementUpdate → World → World
waiting_world u w = record {
  store = record w.store { updates = (u.id, waiting u) ∷ [] };
  log = entries_cancelled u.symbol u.id false ∷ w.log;
}

module _ (ex : Executor) (enabled : ex.mutations_enabled ≡ true)
    (open_ : (log : Log) → ex.eligible log ≡ true) (u : SourceManagementUpdate) (m : Fields)
    (p : Position)
    (cancelled_ : (log : Log) → ex.gateway.cancel_pending_entries u.symbol u.id false log ≡ ok true)
    (held : (log : Log) → ex.gateway.get_positions u.symbol log ≡ ok (m ∷ []))
    (valid : one_position (m ∷ []) ≡ ok p) where
  waits :
      (w : World)
      → u.action ≡ close
      → has_provider_intent u.id (close_oid u.id) w.store ≡ true
      → w.store.updates ≡ (u.id, u) ∷ []
      → carry_out ex u w ≡ (ok (some (ended UpdateState.reconciliation_pending)), waiting_world u w)
  unfolding carry_out enabled_stage window_stage cancel_stage cancelled position_stage positions
      positioned opened acted close_action require_eligible claim_intent moves_stop cancels_entries
      persist_provider_intent update_state find
  waits w action intent at =
      simp (action, enabled, open_, cancelled_, held, valid, intent, at, same_text)

module _ (ex : Executor) (enabled : ex.mutations_enabled ≡ true)
    (open_ : (log : Log) → ex.eligible log ≡ true) where
  waits_once :
      (worker : String) (u : SourceManagementUpdate) (m : Fields) (p : Position) (w : World)
      → worker ≢ ""
      → ((log : Log) → ex.gateway.cancel_pending_entries u.symbol u.id false log ≡ ok true)
      → ((log : Log) → ex.gateway.get_positions u.symbol log ≡ ok (m ∷ []))
      → one_position (m ∷ []) ≡ ok p
      → u.action ≡ close
      → claimable u.state ≡ true
      → has_provider_intent u.id (close_oid u.id) w.store ≡ true
      → w.store.updates ≡ (u.id, u) ∷ []
      → run_once ex worker w ≡ (ok (ended UpdateState.reconciliation_pending), waiting_world u w)
  unfolding run_once run_found run_claimed closing has_provider_intent
  waits_once worker u m p w named cancelled_ held valid action ready intent at =
      let begun = record w.store { updates = (u.id, claimed_update u) ∷ [] } in
      rw
        (
          claim_head worker u [] w.store named ready at,
          waits ex enabled open_ (claimed_update u) m p cancelled_ held valid
              (record { store = begun; log = w.log }) action intent refl,
        )
        refl

  -- An update to close a trade whose intent is there while its position stays open, alone in an open
  -- window's queue, is never failed: every number of runs leaves it pending with its attempts
  -- uncounted, and posts no close.
  pub close_waits :
      (n : ℕ) (worker : String) (u : SourceManagementUpdate) (m : Fields) (p : Position) (w : World)
      → worker ≢ ""
      → ((log : Log) → ex.gateway.cancel_pending_entries u.symbol u.id false log ≡ ok true)
      → ((log : Log) → ex.gateway.get_positions u.symbol log ≡ ok (m ∷ []))
      → one_position (m ∷ []) ≡ ok p
      → u.action ≡ close
      → claimable u.state ≡ true
      → has_provider_intent u.id (close_oid u.id) w.store ≡ true
      → w.store.updates ≡ (u.id, u) ∷ []
      → ((runs (suc n) ex worker w).store.updates ≡ (u.id, waiting u) ∷ [])
        × ((k : String) → posts k (runs (suc n) ex worker w).log ≡ posts k w.log)
  unfolding posts has_provider_intent claimable
  close_waits zero worker u m p w named cancelled_ held valid action ready intent at =
      rw (waits_once worker u m p w named cancelled_ held valid action ready intent at, runs)
        (refl, λ k. refl)
  close_waits (suc n) worker u m p w named cancelled_ held valid action ready intent at =
      rw (waits_once worker u m p w named cancelled_ held valid action ready intent at, runs)
        (close_waits n worker (waiting u) m p (waiting_world u w) named cancelled_ held valid action
          refl intent refl)
