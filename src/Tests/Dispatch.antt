-- ===== src/Tests/Dispatch.antt =====
-- The dispatch queue, its service and the order's states at concrete inputs.
use mathlib.Core.List.{Memᴰ}
use fatty_multi_exchange_tra.Prelude.{
  ℕ, ◌+◌, ◌*◌, ◌≡◌, ◌≢◌, refl, String, false, none, some, List, [], ◌∷◌, arith, any, is_none,
}
use fatty_multi_exchange_tra.Prelude.Int.{pos}
use fatty_multi_exchange_tra.Prelude.Raise.{Result, ok}
use fatty_multi_exchange_tra.Decimal.{dec, of_int}
use fatty_multi_exchange_tra.Domain.{
  Exchange, binance, bitget, long, DispatchState, queued, preflight, sized, validated, submitting,
  acknowledged, unknown, filled, protecting, active, retry_wait,
}
use fatty_multi_exchange_tra.Domain.Models.{CanonicalSignal, SizingPlan}
use fatty_multi_exchange_tra.Domain.Transitions.{transition_dispatch}
use fatty_multi_exchange_tra.Domain.Transitions.Paths.{
  run, active_needs_protection, resubmission_needs_retry_wait,
}
use fatty_multi_exchange_tra.Dispatch.{
  Dispatch, Items, find, store, claim, claimed, claimable, waiting, first_claimable, create,
  dispatch_id, pending_exchanges,
}
use fatty_multi_exchange_tra.Dispatch.Keys.{IsKeyed}
use fatty_multi_exchange_tra.Dispatch.Claims.{claims_differ}
use fatty_multi_exchange_tra.Dispatch.Creation.{IsFoundOrNew, create_idempotent}
use fatty_multi_exchange_tra.Dispatch.Service.{
  PaperOrderRequest, PaperOrderResult, Adapters, client_order_id, execute_once,
}
use fatty_multi_exchange_tra.Dispatch.Service.Outcomes.{EndsGuarded, execute_once_lem}

abbrev to_active : List DispatchState
to_active =
    preflight ∷ sized ∷ validated ∷ submitting ∷ acknowledged ∷ filled ∷ protecting ∷ active ∷ []

to_active-run : run queued to_active ≡ ok active
unfolding run transition_dispatch
to_active-run = refl

active_needs_protection_example : Memᴰ protecting to_active
active_needs_protection_example = active_needs_protection queued to_active refl to_active-run

abbrev retried : List DispatchState
retried = retry_wait ∷ preflight ∷ sized ∷ validated ∷ submitting ∷ []

retried-run : run submitting (unknown ∷ retried) ≡ ok submitting
unfolding run transition_dispatch
retried-run = refl

resubmission_needs_retry_wait_example : Memᴰ retry_wait retried
resubmission_needs_retry_wait_example = resubmission_needs_retry_wait unknown retried retried-run

abbrev signal : CanonicalSignal
signal = record {
  source_message_id = 7;
  source_revision = "rev";
  pair_token = "BTCUSDT";
  direction = long;
  entry_price = of_int 60000;
  stop_loss = of_int 58800;
  take_profits = of_int 61000 ∷ [];
}

abbrev dispatch : ℕ → DispatchState → Dispatch
dispatch k state = record {
  id = k;
  signal = signal;
  exchange = bitget;
  state = state;
  claimed_by = none;
  lease_until = none;
  attempts = 0;
  terminal_reason = none;
}

-- A filled dispatch and two waiting ones.
abbrev items : Items
items = (1, dispatch 1 filled) ∷ (2, dispatch 2 queued) ∷ (3, dispatch 3 retry_wait) ∷ []

items-IsKeyed : IsKeyed items
unfolding find
items-IsKeyed = (refl, refl, (refl, refl, (refl, refl, tt)))

abbrev second : Dispatch
second = record (dispatch 2 queued) {
  claimed_by = some "a";
  lease_until = some 60000000;
  attempts = 1;
}

abbrev third : Dispatch
third = record (dispatch 3 retry_wait) {
  claimed_by = some "b";
  lease_until = some 90000000;
  attempts = 1;
}

abbrev once : Items
once = (1, dispatch 1 filled) ∷ (2, second) ∷ (3, dispatch 3 retry_wait) ∷ []

abbrev twice : Items
twice = (1, dispatch 1 filled) ∷ (2, second) ∷ (3, third) ∷ []

first_claim : claim "a" 0 (pos 60) items ≡ ok (some second, once)
unfolding claim first_claimable claimable claimed store
first_claim = refl

second_claim : claim "b" 30000000 (pos 60) once ≡ ok (some third, twice)
unfolding claim first_claimable claimable claimed store
second_claim = refl

claims_differ_example : 3 ≢ second.id
claims_differ_example =
    claims_differ "a" "b" 0 30000000 (pos 60) (pos 60) items once twice second third items-IsKeyed
      (omega arith) first_claim second_claim

once-IsKeyed : IsKeyed once
unfolding find
once-IsKeyed = (refl, refl, (refl, refl, (refl, refl, tt)))

second_found : find 2 once ≡ some second
unfolding find
second_found = refl

-- A hash of the three texts that tells the exchanges apart.
abbrev hash : String → ℕ → Exchange → ℕ
hash revision message binance = 2 * message
hash revision message bitget = 2 * message + 1

create_idempotent_example :
    (let (d, after) = create hash signal bitget items in
      IsFoundOrNew hash signal bitget (find (dispatch_id hash signal bitget) items) d items after
      × (find (dispatch_id hash signal bitget) after ≡ some d)
      × IsKeyed after
      × (create hash signal bitget after ≡ (d, after)))
create_idempotent_example = create_idempotent hash signal bitget items items-IsKeyed

abbrev sizing : SizingPlan
sizing = record {
  effective_leverage = 5;
  effective_margin_usdt = of_int 20;
  notional_usdt = of_int 100;
  quantity = dec 2 3;
  required_min_notional_usdt = dec 51 1;
}

-- An adapter for each exchange that fills the whole order.
abbrev fill : PaperOrderRequest → Result PaperOrderResult
fill r = ok (record {
  client_order_id = client_order_id r;
  venue_order_id = "v1";
  filled_quantity = r.sizing.quantity;
  average_price = r.signal.entry_price;
})

abbrev adapters : Adapters
adapters e = some fill

adapters_serve : any (λ e. is_none (adapters e)) (pending_exchanges items) ≡ false
unfolding pending_exchanges waiting
adapters_serve = refl

execute_once_lem_example :
    EndsGuarded false false adapters "a" 0
      (some sizing)
      items
      (execute_once adapters "a" 0 (some sizing) items)
unfolding pending_exchanges waiting
execute_once_lem_example = execute_once_lem adapters "a" 0 (some sizing) items items-IsKeyed
