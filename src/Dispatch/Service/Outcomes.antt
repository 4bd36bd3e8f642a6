-- ===== src/Dispatch/Service/Outcomes.antt =====
-- What one run of the durable execution service does to the queue, on every branch.
use fatty_multi_exchange_tra.Prelude.{
  ℕ, ◌+◌, String, ◌≡◌, refl, ap, ◌∙◌, Bool, true, false, Option, none, some, arith, any, is_none,
}
use text.Mathlib.Text.{◌==◌ as str_eq}
use fatty_multi_exchange_tra.Prelude.Int.{pos}
use fatty_multi_exchange_tra.Prelude.Raise.{Error, Result, ok, err, value_error, lookup_error}
use fatty_multi_exchange_tra.Domain.{
  DispatchState, preflight, sized, validated, submitting, acknowledged, filled, unknown,
}
use fatty_multi_exchange_tra.Domain.Models.{SizingPlan}
use fatty_multi_exchange_tra.Domain.Transitions.{transition_dispatch}
use fatty_multi_exchange_tra.Dispatch.{
  Dispatch, Items, find, store, get, claimable, claimed, first_claimable, claim, claim_found,
  release, set_state, pending_exchanges,
}
use fatty_multi_exchange_tra.Dispatch.Keys.{IsKeyed, find-store, store-store, first_claimable-find}
use fatty_multi_exchange_tra.Dispatch.Service.{
  Adapters, PaperOrderRequest, PaperOrderResult, request_of, move, call_adapter, check_order_id,
  attempt, settle_failure, failure_state, or_else, recover, submit, execute_claimed, claim_call,
  claim_result, ◌>>=◌, execute_once,
}

find-store_self : (k : ℕ) (d : Dispatch) (items : Items) → find k (store k d items) ≡ some d
find-store_self k d items = ground (arith, find-store k k d items)

-- A permitted move rewrites the state of the item, and nothing else.
move-store :
    (k : ℕ) (d : Dispatch) (t : DispatchState) (items : Items)
    → transition_dispatch d.state t ≡ ok t
    → move k t (store k d items) ≡ (ok tt, store k (record d { state = t }) items)
unfolding move set_state get
move-store k d t items h =
    ground (arith, find-store_self k d items, store-store k (record d { state = t }) d items)

-- What the adapter's answer makes of a submission: the answer, if it carries the request's id.
abbrev checked : PaperOrderRequest → Result PaperOrderResult → Result PaperOrderResult
checked r (ok a) = check_order_id r a
checked r (err e) = err e

abbrev pub answer_of : Adapters → PaperOrderRequest → Result PaperOrderResult
answer_of adapters r = checked r (call_adapter adapters r)

-- The claimed item when the service has let go of it, in the given state.
abbrev pub settled : DispatchState → Dispatch → Dispatch
settled s old = record old {
  state = s;
  claimed_by = none;
  lease_until = none;
  attempts = old.attempts + 1;
}

-- The result of a run that submitted, by the adapter's answer.
abbrev pub outcome : Result PaperOrderResult → Dispatch → Items → Result PaperOrderResult × Items
outcome (ok a) old items = (ok a, store old.id (settled filled old) items)
outcome (err e) old items = (err e, store old.id (settled unknown old) items)

-- The handler finds the dispatch submitting: it is left unknown, and released.
settle_submitting :
    (d : Dispatch) (e : Error) (items : Items)
    → d.state ≡ submitting
    → settle_failure d.id e (store d.id d items) ≡ (
      err e,
      store d.id (record d { state = unknown; claimed_by = none; lease_until = none }) items,
    )
unfolding settle_failure failure_state
settle_submitting d e items at =
    let k = d.id in
    let u = record d { state = unknown } in
    ground (
      arith,
      find-store_self k d items,
      find-store_self k u items,
      store-store k u d items,
      store-store k (record u { claimed_by = none; lease_until = none }) u items,
    )

module _ (d : Dispatch) (items : Items) where
  abbrev at : DispatchState → Items
  at s = store d.id (record d { state = s }) items

  abbrev let_go : DispatchState → Dispatch
  let_go s = record d { state = s; claimed_by = none; lease_until = none }

  release-at : release d.id (at filled) ≡ ok (store d.id (let_go filled) items)
  unfolding release
  release-at =
      let f = record d { state = filled } in
      ground (arith, find-store_self d.id f items, store-store d.id (let_go filled) f items)

  -- Between two states of the submission path.
  step : (s t : DispatchState) → transition_dispatch s t ≡ ok t → move d.id t (at s) ≡ (ok tt, at t)
  step s t h = move-store d.id (record d { state = s }) t items h

  module _ (adapters : Adapters) (p : SizingPlan) where
    abbrev ends : Result PaperOrderResult → Result PaperOrderResult × Items
    ends (ok a) = (ok a, store d.id (let_go filled) items)
    ends (err e) = (err e, at submitting)

    abbrev left_with : Result PaperOrderResult → Result PaperOrderResult × Items
    left_with (ok a) = (ok a, store d.id (let_go filled) items)
    left_with (err e) = (err e, store d.id (let_go unknown) items)

    handled : (c : Result PaperOrderResult) → recover (ends c) (settle_failure d.id) ≡ left_with c
    handled (ok a) = refl
    handled (err e) = settle_submitting (record d { state = submitting }) e items refl

    moves_to_submitting :
        transition_dispatch d.state preflight ≡ ok preflight
        → attempt adapters d p (store d.id d items) ≡ submit adapters d p (at submitting)
    unfolding attempt transition_dispatch
    moves_to_submitting fits = rw (
      move-store d.id d preflight items fits,
      step preflight sized refl,
      step sized validated refl,
      step validated submitting refl,
    )

    submit_lem :
        (a c : Result PaperOrderResult)
        → call_adapter adapters (request_of d p) ≡ a
        → checked (request_of d p) a ≡ c
        → submit adapters d p (at submitting) ≡ ends c
    unfolding submit transition_dispatch
    submit_lem (err e) (ok x) h k = cc
    submit_lem (err e) (err f) h k = rw h (ground arith)
    submit_lem (ok x) (err f) h k = rw (h, k)
    submit_lem (ok x) (ok y) h k =
        rw (h, k, step submitting acknowledged refl, step acknowledged filled refl, release-at)

    -- A run that submits ends with the adapter's answer and a filled dispatch, or with an exception
    -- and an unknown one.
    attempt_lem :
        transition_dispatch d.state preflight ≡ ok preflight
        → or_else (attempt adapters d p) (settle_failure d.id) (store d.id d items)
          ≡ left_with (answer_of adapters (request_of d p))
    attempt_lem fits =
        rw
          (
            moves_to_submitting fits,
            submit_lem (call_adapter adapters (request_of d p)) _ refl refl,
          )
          (handled (answer_of adapters (request_of d p)))

-- What a run of the service returns and leaves, once its guards have passed, by what `claim` finds.
abbrev pub RunEnds :
    Adapters
    → String
    → ℕ
    → Option SizingPlan
    → Items
    → Option Dispatch
    → Result PaperOrderResult × Items
    → Type 0
RunEnds adapters worker now sizing items none r = r ≡ (err lookup_error, items)
RunEnds adapters worker now none items (some old) r =
    r ≡ (err value_error, store old.id (claimed worker now 60 old) items)
RunEnds adapters worker now (some p) items (some old) r =
    r ≡ outcome (answer_of adapters (request_of old p)) old items

preflight_fits :
    (now : ℕ) (d : Dispatch)
    → claimable now d ≡ true
    → transition_dispatch d.state preflight ≡ ok preflight
unfolding claimable transition_dispatch
preflight_fits now d h = ground arith

settled_claim :
    (adapters : Adapters) (worker : String) (now : ℕ) (p : SizingPlan) (items : Items)
    (old : Dispatch) (c : Result PaperOrderResult)
    → left_with (claimed worker now 60 old) items adapters p c ≡ outcome c old items
unfolding claimed
settled_claim adapters worker now p items old (ok a) = refl
settled_claim adapters worker now p items old (err e) = refl

run_of_claimed :
    (adapters : Adapters) (worker : String) (now : ℕ) (p : SizingPlan) (items : Items)
    (old : Dispatch)
    → claimable now old ≡ true
    → execute_claimed adapters
        (some (claimed worker now 60 old))
        (some p)
        (store old.id (claimed worker now 60 old) items)
      ≡ outcome (answer_of adapters (request_of old p)) old items
unfolding execute_claimed claimed
run_of_claimed adapters worker now p items old h =
    attempt_lem (claimed worker now 60 old) items adapters p (preflight_fits now old h)
    ∙ settled_claim adapters worker now p items old (answer_of adapters (request_of old p))

module _ (adapters : Adapters) (worker : String) (now : ℕ) (items : Items) (keyed : IsKeyed items)
    (named : str_eq worker "" ≡ false)
    (able : any (λ e. is_none (adapters e)) (pending_exchanges items) ≡ false) where
  claim_of_named :
      claim worker now (pos 60) items
      ≡ ok (claim_found worker now 60 items (first_claimable now items))
  unfolding claim
  claim_of_named = rw named

  claim_call_of_named :
      claim_call worker now items
      ≡ claim_result items (ok (claim_found worker now 60 items (first_claimable now items)))
  unfolding claim_call
  claim_call_of_named = ap (claim_result items) claim_of_named

  run_of_found :
      (sizing : Option SizingPlan) (o : Option Dispatch)
      → first_claimable now items ≡ o
      → RunEnds adapters worker now sizing items o (execute_once adapters worker now sizing items)
  unfolding execute_once claim_result execute_claimed
  run_of_found sizing none e = rw (able, ◌>>=◌, claim_call_of_named, e)
  run_of_found none (some old) e = rw (able, ◌>>=◌, claim_call_of_named, e)
  run_of_found (some p) (some old) e =
      rw (able, ◌>>=◌, claim_call_of_named, e)
        (run_of_claimed adapters worker now p items old
          (first_claimable-find now items old keyed e).1)

-- The guards in front: an exchange that waits without an adapter, and a worker without a name.
abbrev pub EndsGuarded :
    Bool
    → Bool
    → Adapters
    → String
    → ℕ
    → Option SizingPlan
    → Items
    → Result PaperOrderResult × Items
    → Type 0
EndsGuarded true unnamed adapters worker now sizing items r = r ≡ (err value_error, items)
EndsGuarded false true adapters worker now sizing items r = r ≡ (err value_error, items)
EndsGuarded false false adapters worker now sizing items r =
    RunEnds adapters worker now sizing items (first_claimable now items) r

module _ (adapters : Adapters) (worker : String) (now : ℕ) (sizing : Option SizingPlan)
    (items : Items) where
  unable_run :
      any (λ e. is_none (adapters e)) (pending_exchanges items) ≡ true
      → execute_once adapters worker now sizing items ≡ (err value_error, items)
  unfolding execute_once
  unable_run unable = rw unable refl

  unnamed_run :
      str_eq worker "" ≡ true
      → any (λ e. is_none (adapters e)) (pending_exchanges items) ≡ false
      → execute_once adapters worker now sizing items ≡ (err value_error, items)
  unfolding execute_once claim_call claim_result claim
  unnamed_run unnamed able = rw (able, unnamed) refl

  guarded :
      (missing unnamed : Bool)
      → IsKeyed items
      → any (λ e. is_none (adapters e)) (pending_exchanges items) ≡ missing
      → str_eq worker "" ≡ unnamed
      → EndsGuarded missing unnamed adapters worker now sizing items
          (execute_once adapters worker now sizing items)
  guarded true unnamed keyed m n = unable_run m
  guarded false true keyed m n = unnamed_run n m
  guarded false false keyed m n =
      run_of_found adapters worker now items keyed n m sizing (first_claimable now items) refl

  -- One run of the service, when every dispatch is stored once, under its own id.
  -- * With an exchange whose unclaimed waiting dispatch has no adapter, and with a worker without a
  --   name, it raises ValueError and changes nothing.
  -- * Else, with nothing claimable, it raises LookupError and changes nothing.
  -- * Without a sizing plan it raises ValueError and leaves the first claimable dispatch claimed.
  -- * Else it submits that dispatch. An answer with the request's client order id is returned and
  --   the dispatch is left FILLED; a raising or missing adapter or another id makes it raise, and
  --   the dispatch is left UNKNOWN. In both cases the claim is released, the attempt is counted, and
  --   no other item changes.
  pub execute_once_lem :
      IsKeyed items
      → EndsGuarded
          (any (λ e. is_none (adapters e)) (pending_exchanges items))
          (str_eq worker "")
          adapters
          worker
          now
          sizing
          items
          (execute_once adapters worker now sizing items)
  execute_once_lem keyed = guarded _ _ keyed refl refl
