-- ===== src/Live/Entry/Protected.antt =====
-- What an entry that returns with a fill has done for its protection.
use Prim.Native.String.{◌++◌ as append}
use fatty_multi_exchange_tra.Prelude.{
  String, ◌≡◌, ◌⊎◌, inl, inr, refl, subst, Bool-cases, Bool, true, false, Option, none, some, [],
  ◌∷◌, arith,
}
use fatty_multi_exchange_tra.Prelude.Raise.{Result, ok, err}
use fatty_multi_exchange_tra.Prelude.Calls.{◌>>◌, pure, continue}
use fatty_multi_exchange_tra.Decimal.{Decimal}
use fatty_multi_exchange_tra.Domain.Models.{positive}
use fatty_multi_exchange_tra.Protection.Orders.{
  ProtectionReport, venue_protected, protection_plan, ensure_live_protection, IsVenueAnswer,
  ensure_live_protection-IsVenueAnswer,
}
use fatty_multi_exchange_tra.Live.Values.{Fields, Runtime}
use fatty_multi_exchange_tra.Live.Record.{LiveIntentRecord}
use fatty_multi_exchange_tra.Live.Store.{get, save, update}
use fatty_multi_exchange_tra.Live.Effects.{LiveEntryRequest, Event, Log, Client, World, stored}
use fatty_multi_exchange_tra.Live.Results.{
  LiveEntryResult, needs_protection, oid_of, is_venue_protected, is_unknown, plan_of,
}
use fatty_multi_exchange_tra.Live.Entry.{
  send_alert, emergency_close, after_report, protect, install_protection, write_settled, settle,
  maybe_protect, reconcile_by_client_oid, resume, read_back, after_post, post, enter_new,
  enter_with, enter_as, enter_live_position, accepted_intent, intent_of, read_pre_entry_state,
  ensure_isolated_margin_and_leverage,
}
use fatty_multi_exchange_tra.Live.Entry.Ends.{
  Returned, EndsIn, bind-EndsIn, known-EndsIn, choose-EndsIn, raise-EndsIn, log_then,
}
use fatty_multi_exchange_tra.Live.Entry.Executed.{
  IsExecuted, read_back-IsExecuted, reconcile_by_client_oid-IsExecuted,
}

-- The log has sent a market close with the id and the quantity.
abbrev pub HasClosed : String → Decimal → Log → Type 0
HasClosed oid q [] = ⊥
HasClosed oid q (event ∷ log) = (event ≡ Event.closed oid q) ⊎ HasClosed oid q log

module _ (client : Client) (r : LiveEntryRequest) (client_oid : String) where
  -- The last call asked the venue to protect the quantity, the venue confirmed those orders, and the
  -- report is its own answer on them.
  abbrev pub IsConfirmed : Decimal → ProtectionReport → Log → Type 0
  IsConfirmed q report log =
      (before : Log) × (log ≡ Event.protected (plan_of r q) client_oid ∷ before)
      × IsVenueAnswer (client.place_protection_orders before) (client.read_protection_state log)
          (plan_of r q) client_oid report

  -- What the report of the protection, and whether an emergency close was sent, say of the log.
  abbrev pub IsInstalled : Decimal → ProtectionReport × Bool → Log → Type 0
  IsInstalled q (report, emergency) log =
      ((report.state ≡ venue_protected) × (emergency ≡ false) × IsConfirmed q report log)
      ⊎ ((emergency ≡ true) × HasClosed (append client_oid "-emergency") q log)

  -- The result carries the report of its protection.
  abbrev pub HasCover : LiveEntryResult → Log → Type 0
  HasCover result log =
      (report : ProtectionReport) × (result.protection ≡ some report)
      × IsInstalled result.filled_qty (report, result.emergency_closed) log

  -- A result with a filled quantity does.
  abbrev pub IsCovered : LiveEntryResult → Log → Type 0
  IsCovered result log = positive result.filled_qty ≡ true → HasCover result log

module _ (py : Runtime) (client : Client) (alert : Option (Log → Result (Unit {0})))
    (r : LiveEntryRequest) (client_oid : String) where
  after_report-EndsIn :
      (q : Decimal) (report : ProtectionReport) (w : World)
      → (report.state ≡ venue_protected → IsConfirmed client r client_oid q report w.log)
      → Returned
          (IsInstalled client r client_oid q)
          (after_report py client alert r client_oid q report w)
  unfolding after_report emergency_close send_alert is_venue_protected
  after_report-EndsIn q report w confirmed = ground arith

  placed :
      (q : Decimal) (w : World) (x : Result ProtectionReport)
      → ensure_live_protection
          (client.place_protection_orders w.log)
          (client.read_protection_state (Event.protected (plan_of r q) client_oid ∷ w.log))
          (plan_of r q)
          client_oid
        ≡ x
      → Returned (IsInstalled client r client_oid q) (
          continue
            (x, record w { log = Event.protected (plan_of r q) client_oid ∷ w.log })
            (after_report py client alert r client_oid q))
  placed q w (err e) at = tt
  placed q w (ok report) at = after_report-EndsIn q report _ λ protected. (
    w.log,
    refl,
    ensure_live_protection-IsVenueAnswer (client.place_protection_orders w.log)
        (client.read_protection_state (Event.protected (plan_of r q) client_oid ∷ w.log))
        (plan_of r q) client_oid report at protected,
  )

  install_protection-EndsIn :
      (q : Decimal)
      → EndsIn
          (IsInstalled client r client_oid q)
          (install_protection py client alert r client_oid q)
  unfolding install_protection protect EndsIn protection_plan
  install_protection-EndsIn q w = ground (arith, placed q w _ refl)

  -- Settling the intent calls nothing at the venue.
  settle_log :
      (emergency : Bool) (w : World) → (settle py client alert client_oid emergency w).1.log ≡ w.log
  unfolding settle write_settled
  settle_log emergency w = go (get client_oid w.store)
    where
      go :
          (o : Option LiveIntentRecord)
          → (write_settled py client alert emergency o w).1.log ≡ w.log
      go none = refl
      go (some r) = ground arith

  after_install :
      (result : LiveEntryResult) (x : Result (ProtectionReport × Bool) × World)
      → Returned (IsInstalled client r client_oid result.filled_qty) x
      → Returned (IsCovered client r client_oid) (
          continue x λ installed.
            settle py client alert client_oid installed.1
            >> pure
                (record result { protection = some installed.0; emergency_closed = installed.1 }))
  after_install result (err e, u) installed = tt
  after_install result (ok (report, emergency), u) installed =
      log_then (IsCovered client r client_oid) (settle py client alert client_oid emergency)
        (record result { protection = some report; emergency_closed = emergency }) u
        (settle_log emergency u) (λ needed. (report, refl, installed))

  maybe_protect-EndsIn :
      (result : LiveEntryResult)
      → IsExecuted result
      → EndsIn (IsCovered client r client_oid) (maybe_protect py client alert r client_oid result)
  unfolding maybe_protect EndsIn
  maybe_protect-EndsIn result executed w = elim (Bool-cases (needs_protection result)) [
    | inl needed ↦ rw needed (
        after_install result (install_protection py client alert r client_oid result.filled_qty w)
          (install_protection-EndsIn result.filled_qty w))
    | inr idle ↦ rw idle (λ filled. ground (arith, executed filled))
  ]

  resume-EndsIn : EndsIn (IsCovered client r client_oid) (resume py client alert r client_oid)
  unfolding resume
  resume-EndsIn =
      known-EndsIn IsExecuted _ (reconcile_by_client_oid py client client_oid) _
        (reconcile_by_client_oid-IsExecuted py client client_oid) maybe_protect-EndsIn

  after_post-EndsIn :
      (intent : LiveIntentRecord) (answer : Result Fields)
      → EndsIn
          (IsCovered client r client_oid)
          (after_post py client alert r client_oid intent answer)
  unfolding after_post
  after_post-EndsIn intent (err e) =
      choose-EndsIn _ (is_unknown e) _ _
        (bind-EndsIn _ (stored (update py (record intent { state = "unknown" }))) _
          λ written. resume-EndsIn)
        (raise-EndsIn _ e)
  after_post-EndsIn intent (ok submitted) =
      bind-EndsIn _ (stored (update py (accepted_intent py client alert intent submitted))) _
        λ written.
          known-EndsIn IsExecuted _ (read_back py client client_oid written) _
            (read_back-IsExecuted py client client_oid written) maybe_protect-EndsIn

  post-EndsIn :
      (intent : LiveIntentRecord)
      → EndsIn (IsCovered client r client_oid) (post py client alert r client_oid intent)
  unfolding post EndsIn
  post-EndsIn intent w =
      after_post-EndsIn intent (client.place_entry_order r client_oid w.log)
        (record w { log = Event.posted client_oid r.quantity ∷ w.log })

  enter_with-EndsIn :
      (o : Option LiveIntentRecord)
      → EndsIn (IsCovered client r client_oid) (enter_with py client alert r client_oid o)
  unfolding enter_with enter_new
  enter_with-EndsIn none =
      let intent = intent_of py client alert r client_oid in
      bind-EndsIn _ (read_pre_entry_state py client r.symbol) _ λ passed.
        bind-EndsIn _ (ensure_isolated_margin_and_leverage py client r.symbol r.leverage) _
          λ confirmed. bind-EndsIn _ (stored (save intent)) _ λ saved. post-EndsIn intent
  enter_with-EndsIn (some existing) = resume-EndsIn

-- A call of `enter_live_position` that returns, for a first entry, an entry whose answer got lost or
-- a repeated one: if the result reports a filled quantity, whatever its status, then it carries the
-- report of its protection. Either that report says that the venue has the position protected, and
-- then the last call asked for the protection of that quantity, the venue confirmed its orders with
-- a stop among them, and the report is what it answered when it was asked for them; or a market
-- close of that quantity was sent under the emergency's id.
pub no_fill_left_bare :
    (py : Runtime) (client : Client) (alert : Option (Log → Result (Unit {0}))) (drawn : String)
    (r : LiveEntryRequest) (w u : World) (result : LiveEntryResult)
    → enter_live_position py client alert drawn r w ≡ (ok result, u)
    → positive result.filled_qty ≡ true
    → (client_oid : String) × (oid_of drawn r r.client_oid ≡ ok client_oid)
      × HasCover client r client_oid result u.log
unfolding enter_live_position enter_as EndsIn
no_fill_left_bare py client alert drawn r w u result returned needed =
    go (oid_of drawn r r.client_oid) refl returned
  where
    go :
        (o : Result String)
        → oid_of drawn r r.client_oid ≡ o
        → enter_as py client alert r o w ≡ (ok result, u)
        → (client_oid : String) × (oid_of drawn r r.client_oid ≡ ok client_oid)
          × HasCover client r client_oid result u.log
    go (err e) at ended = ground arith
    go (ok client_oid) at ended =
        let covered = enter_with-EndsIn py client alert r client_oid (get client_oid w.store) w in
        (client_oid, at, subst (Returned (IsCovered client r client_oid)) ended covered needed)
