-- ===== src/Management/Executor/Stored/Run.antt =====
-- A run of the executor and the update that it claimed.
use text.Mathlib.Text.{◌==◌}
use fatty_multi_exchange_tra.Prelude.{
  ℕ, String, ◌≡◌, ◌≢◌, refl, sym, ◌∙◌, subst, ap, ◌⊎◌, inl, inr, Bool, true, false, Option, none,
  some, [], ◌∷◌, arith, eq_iff, ltb,
}
use fatty_multi_exchange_tra.Prelude.Raise.{Error, Result, ok, err, pending_error}
use fatty_multi_exchange_tra.Prelude.Dict.{Dict, find, store, find-store, find-store_self}
use fatty_multi_exchange_tra.Prelude.Calls.{raise, recover, choose, continue}
use fatty_multi_exchange_tra.Management.Updates.{
  UpdateState, SourceManagementUpdate, removed, moved, parked, claimed_update, alert_outcome, park,
  claim, claim_found, first_claimable,
}
use fatty_multi_exchange_tra.Management.Venue.{World, with_store}
use fatty_multi_exchange_tra.Management.Endings.{
  Executor, Outcome, ended, finish, finished, attempts_limit, fails_update,
}
use fatty_multi_exchange_tra.Management.Executor.{
  carry_out, handler, closing, run_claimed, run_found, run_once,
}
use fatty_multi_exchange_tra.Management.Executor.Stored.{state_of, Fits, EndsIn, update_state_lem}
use fatty_multi_exchange_tra.Management.Executor.Stored.Stages.{carry_out-EndsIn}

module _ (u : SourceManagementUpdate) (limit : ℕ) where
  -- An exception that escapes leaves the update claimed, and is none that fails it.
  abbrev Ends : Dict SourceManagementUpdate → Result (Option Outcome) × World → Type 0
  Ends d (err e, w) = (w.store.updates ≡ d) × (fails_update e ≡ false) × (e ≢ pending_error)
  Ends d (ok none, w) = w.store.updates ≡ d
  Ends d (ok (some o), w) =
      (w.store.updates ≡ moved u.id (state_of o) u d)
      ⊎ ((w.store.updates ≡ store u.id (parked limit u) d) × (o ≡ ended (parked limit u).state))

module _ (ex : Executor) (u : SourceManagementUpdate) (d : Dict SourceManagementUpdate)
    (held : find u.id d ≡ some u) where
  abbrev IsEnd : Result (Option Outcome) × World → Type 0
  IsEnd = Ends u (attempts_limit ex) d

  limit_positive : ltb (attempts_limit ex) 1 ≡ false
  limit_positive = ground arith

  parks : (w : World) → w.store.updates ≡ d → IsEnd (handler ex u pending_error w)
  unfolding handler park
  parks w at = rw (limit_positive, at, held) (inr (refl, refl))

  fails_or_escapes :
      (e : Error) (b : Bool) (w : World)
      → fails_update e ≡ b
      → e ≢ pending_error
      → w.store.updates ≡ d
      → IsEnd (choose b (finished u UpdateState.failed (ended UpdateState.failed)) (raise e) w)
  unfolding finished finish alert_outcome
  fails_or_escapes e true w test other at =
      rw (update_state_lem u d held UpdateState.failed w.store at) (inl refl)
  fails_or_escapes e false w test other at = (at, test, other)

  handled : (e : Error) (w : World) → w.store.updates ≡ d → IsEnd (handler ex u e w)
  unfolding handler fails_update
  handled pending_error w at = parks w at
  handled e w at = fails_or_escapes e (fails_update e) w refl (λ same. cc) at

  rescued : (r : Result (Option Outcome) × World) → Fits u d r → IsEnd (recover r (handler ex u))
  rescued (err e, w) fits = handled e w fits
  rescued (ok none, w) fits = fits
  rescued (ok (some o), w) fits = inl fits

  -- What a run leaves: the updates as they were claimed, the update moved to the state that the
  -- outcome tells of, or the update parked.
  abbrev IsLeft : Result Outcome × World → Type 0
  IsLeft (err e, w) = (w.store.updates ≡ d) × (fails_update e ≡ false) × (e ≢ pending_error)
  IsLeft (ok o, w) =
      (w.store.updates ≡ moved u.id (state_of o) u d)
      ⊎ ((w.store.updates ≡ store u.id (parked (attempts_limit ex) u) d)
          × (o ≡ ended (parked (attempts_limit ex) u).state))

  closes : (r : Result (Option Outcome) × World) → IsEnd r → IsLeft (continue r (closing ex u))
  unfolding closing finish alert_outcome
  closes (err e, w) end_ = end_
  closes (ok none, w) end_ =
      rw (update_state_lem u d held UpdateState.reconciled w.store end_) (inl refl)
  closes (ok (some o), w) end_ = end_

  run_claimed-IsLeft : (w : World) → w.store.updates ≡ d → IsLeft (run_claimed ex u w)
  unfolding run_claimed EndsIn
  run_claimed-IsLeft w at =
      closes (recover (carry_out ex u w) (handler ex u))
        (rescued (carry_out ex u w) (carry_out-EndsIn ex u d held w at))

find-removed :
    (j k : String) (d : Dict SourceManagementUpdate) → j ≢ k → find j (removed k d) ≡ find j d
unfolding find removed
find-removed j k [] other = refl
find-removed j k ((i, v) ∷ d) other =
    ground (arith, eq_iff i k, eq_iff i j, eq_iff j k, find-removed j k d other)

find-store_other :
    (j k : String) (v : SourceManagementUpdate) (d : Dict SourceManagementUpdate)
    → j ≢ k
    → find j (store k v d) ≡ find j d
find-store_other j k v d other = ground (arith, find-store j k v d, eq_iff k j)

-- The state in which the run's update stands, by what the run returned.
abbrev pub state_after : Result Outcome → UpdateState
state_after (err e) = UpdateState.claimed
state_after (ok o) = state_of o

-- The update of that id stands in the state, and every other update as before.
abbrev pub Stands :
    String → UpdateState → Dict SourceManagementUpdate → Dict SourceManagementUpdate → Type 0
Stands id state before after =
    ((v : SourceManagementUpdate) × (find id after ≡ some v) × (v.state ≡ state))
    × ((j : String) → j ≢ id → find j after ≡ find j before)

-- An exception that leaves a run is none of those that fail or park an update.
abbrev pub Escapes : Result Outcome → Type 0
Escapes (err e) = (fails_update e ≡ false) × (e ≢ pending_error)
Escapes (ok o) = Unit {0}

abbrev pub IsRun : Option SourceManagementUpdate → World → Result Outcome × World → Type 0
IsRun none w (r, v) = (r ≡ ok Outcome.idle) × (v ≡ w)
IsRun (some u) w (r, v) = Stands u.id (state_after r) w.store.updates v.store.updates × Escapes r

module _ (ex : Executor) (u : SourceManagementUpdate) (w : World) where
  abbrev mine : SourceManagementUpdate
  mine = claimed_update u

  abbrev begun : Dict SourceManagementUpdate
  begun = store u.id mine w.store.updates

  written :
      (v : SourceManagementUpdate) (d : Dict SourceManagementUpdate)
      → ((j : String) → j ≢ u.id → find j d ≡ find j w.store.updates)
      → Stands u.id v.state w.store.updates (store u.id v d)
  written v d same = (
    (v, find-store_self u.id v d, refl),
    λ j other. find-store_other j u.id v d other ∙ same j other,
  )

  others : (j : String) → j ≢ u.id → find j begun ≡ find j w.store.updates
  others j other = find-store_other j u.id mine w.store.updates other

  stands :
      (r : Result Outcome × World)
      → IsLeft ex mine begun (find-store_self u.id mine w.store.updates) r
      → IsRun (some u) w r
  stands (err e, v) (same, kept, other) = (
    (
      (
        mine,
        subst (λ d. find u.id d ≡ some mine) (sym same) (find-store_self u.id mine w.store.updates),
        refl,
      ),
      λ j differs. ap (find j) same ∙ others j differs,
    ),
    (kept, other),
  )
  stands (ok o, v) (inl same) = (
    subst (Stands u.id (state_of o) w.store.updates) (sym same) (
        written (record mine { state = state_of o }) (removed u.id begun)
          (λ j differs. find-removed j u.id begun differs ∙ others j differs)),
    tt,
  )
  stands (ok o, v) (inr (same, told)) = (
    subst (Stands u.id (state_of o) w.store.updates) (sym same) (
        subst
          (λ state.
            Stands u.id state w.store.updates (store u.id (parked (attempts_limit ex) mine) begun))
          (sym (ap state_of told)) (written (parked (attempts_limit ex) mine) begun others)),
    tt,
  )

named_worker : (worker : String) → worker ≢ "" → (worker == "") ≡ false
named_worker worker named = ground (arith, eq_iff worker "")

run_found_lem :
    (ex : Executor) (o : Option SourceManagementUpdate) (w : World)
    → IsRun o w (continue (with_store w.log (claim_found o w.store)) (run_found ex))
unfolding run_found
run_found_lem ex none w = (refl, refl)
run_found_lem ex (some u) w = stands ex u w _ (
    run_claimed-IsLeft ex (mine ex u w) (begun ex u w)
      (find-store_self u.id (claimed_update u) w.store.updates) _ refl)

-- A run by a named worker claims the first update that can be claimed. It leaves that update in the
-- state that it returns, claimed if an exception escapes, and every other update as it was; the
-- exceptions that mean a failed or a pending update do not escape. Where no update can be claimed it
-- returns `idle` and changes nothing.
pub run_once_lem :
    (ex : Executor) (worker : String) (w : World)
    → worker ≢ ""
    → IsRun (first_claimable w.store.updates) w (run_once ex worker w)
unfolding run_once claim
run_once_lem ex worker w named =
    rw (named_worker worker named) (run_found_lem ex (first_claimable w.store.updates) w)
