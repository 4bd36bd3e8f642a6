-- ===== src/Management/Executor/Budget.antt =====
-- The retries of an update whose readback is pending.
use text.Mathlib.Text.{◌==◌}
use fatty_multi_exchange_tra.Prelude.{
  ℕ, zero, suc, ◌+◌, String, ◌≡◌, ◌≢◌, refl, ap, ◌∙◌, ◌<◌, true, false, some, ◌∷◌, arith, eq_iff,
  ltb,
}
use fatty_multi_exchange_tra.Prelude.Raise.{ok, err, pending_error}
use fatty_multi_exchange_tra.Prelude.Dict.{same_text, Dict, find, store}
use fatty_multi_exchange_tra.Management.Updates.{
  MemoryStore, claimed_update, UpdateState, SourceManagementUpdate, claimable, first_claimable,
  claim, park, parked, parked_state,
}
use fatty_multi_exchange_tra.Management.Venue.{Log, World, entries_cancelled}
use fatty_multi_exchange_tra.Management.Endings.{
  Executor, attempts_limit, moves_stop, cancels_entries,
}
use fatty_multi_exchange_tra.Management.Executor.{
  run_once, run_found, run_claimed, carry_out, enabled_stage, window_stage, cancel_stage, cancelled,
  handler, closing,
}

-- The world after that many runs.
abbrev pub runs : ℕ → Executor → String → World → World
runs zero ex worker w = w
runs (suc n) ex worker w = runs n ex worker (run_once ex worker w).1

unnamed : (worker : String) → worker ≢ "" → (worker == "") ≡ false
unnamed worker named = ground (arith, eq_iff worker "")

limit_positive : (ex : Executor) → ltb (attempts_limit ex) 1 ≡ false
limit_positive ex = ground arith

park_lem :
    (k : String) (limit : ℕ) (u : SourceManagementUpdate) (s : MemoryStore)
    → ltb limit 1 ≡ false
    → find k s.updates ≡ some u
    → park k limit s
      ≡ (ok (parked limit u).state, record s { updates = store k (parked limit u) s.updates })
unfolding park
park_lem k limit u s positive held = rw (positive, held) refl

last_park :
    (u : SourceManagementUpdate) (limit : ℕ)
    → suc u.attempts ≡ limit
    → parked limit u ≡ record u { state = UpdateState.failed; attempts = limit }
unfolding parked_state
last_park u limit spent = ground (arith, spent)

early_park :
    (u : SourceManagementUpdate) (limit : ℕ)
    → suc u.attempts < limit
    → claimable (parked limit u).state ≡ true
unfolding parked_state claimable
early_park u limit left = ground (arith, left)

pub claim_head :
    (worker : String) (u : SourceManagementUpdate) (rest : Dict SourceManagementUpdate)
    (s : MemoryStore)
    → worker ≢ ""
    → claimable u.state ≡ true
    → s.updates ≡ (u.id, u) ∷ rest
    → claim worker s
      ≡ (ok (some (claimed_update u)), record s { updates = (u.id, claimed_update u) ∷ rest })
unfolding claim first_claimable store
claim_head worker u rest s named ready at = simp (at, unnamed worker named, ready, same_text)

find-head :
    (k : String) (u : SourceManagementUpdate) (rest : Dict SourceManagementUpdate)
    → find k ((k, u) ∷ rest) ≡ some u
unfolding find
find-head k u rest = simp same_text

store-head :
    (k : String) (u v : SourceManagementUpdate) (rest : Dict SourceManagementUpdate)
    → store k v ((k, u) ∷ rest) ≡ (k, v) ∷ rest
unfolding store
store-head k u v rest = simp same_text

module _ (ex : Executor) (enabled : ex.mutations_enabled ≡ true)
    (open_ : (log : Log) → ex.eligible log ≡ true) where
  stops_pending :
      (u : SourceManagementUpdate) (w : World)
      → moves_stop u.action ≡ false
      → cancels_entries u.action ≡ true
      → ((log : Log) → ex.gateway.cancel_pending_entries u.symbol u.id false log ≡ ok false)
      → carry_out ex u w
        ≡ (err pending_error, record w { log = entries_cancelled u.symbol u.id false ∷ w.log })
  unfolding carry_out enabled_stage window_stage cancel_stage cancelled
  stops_pending u w still cancels stuck = simp (enabled, still, open_, cancels, stuck)

  parks_once :
      (worker : String) (u : SourceManagementUpdate) (rest : Dict SourceManagementUpdate)
      (w : World)
      → worker ≢ ""
      → moves_stop u.action ≡ false
      → cancels_entries u.action ≡ true
      → ((log : Log) → ex.gateway.cancel_pending_entries u.symbol u.id false log ≡ ok false)
      → claimable u.state ≡ true
      → w.store.updates ≡ (u.id, u) ∷ rest
      → (run_once ex worker w).1.store.updates ≡ (u.id, parked (attempts_limit ex) u) ∷ rest
  unfolding run_once run_found run_claimed handler closing
  parks_once worker u rest w named still cancels stuck ready at =
      let begun = record w.store { updates = (u.id, claimed_update u) ∷ rest } in
      rw
        (
          claim_head worker u rest w.store named ready at,
          stops_pending (claimed_update u) (record { store = begun; log = w.log }) still cancels
              stuck,
          park_lem u.id (attempts_limit ex) (claimed_update u) begun (limit_positive ex)
              (find-head u.id (claimed_update u) rest),
        )
        (store-head u.id (claimed_update u) (parked (attempts_limit ex) u) rest)

  -- An update to close a trade, or one that a target was booked, whose entries the venue never
  -- proves terminal, is retried while its budget lasts and failed by the run that spends it: from
  -- the front of an open window's queue, runs of one worker end the retries.
  pub budget_spent :
      (n : ℕ) (worker : String) (u : SourceManagementUpdate) (rest : Dict SourceManagementUpdate)
      (w : World)
      → worker ≢ ""
      → moves_stop u.action ≡ false
      → cancels_entries u.action ≡ true
      → ((log : Log) → ex.gateway.cancel_pending_entries u.symbol u.id false log ≡ ok false)
      → claimable u.state ≡ true
      → w.store.updates ≡ (u.id, u) ∷ rest
      → suc (u.attempts + n) ≡ attempts_limit ex
      → (runs (suc n) ex worker w).store.updates
        ≡ (u.id, record u { state = UpdateState.failed; attempts = attempts_limit ex }) ∷ rest
  budget_spent zero worker u rest w named still cancels stuck ready at spent =
      parks_once worker u rest w named still cancels stuck ready at
      ∙ ap (λ v. (u.id, v) ∷ rest) (last_park u (attempts_limit ex) (omega (arith, spent)))
  budget_spent (suc n) worker u rest w named still cancels stuck ready at spent =
      let limit = attempts_limit ex in
      budget_spent n worker (parked limit u) rest (run_once ex worker w).1 named still cancels stuck
        (early_park u limit (omega (arith, spent)))
        (parks_once worker u rest w named still cancels stuck ready at) (omega (arith, spent))
