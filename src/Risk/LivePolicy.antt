-- ===== src/Risk/LivePolicy.antt =====
-- The search and the decision of src/fatty_trader/risk/live_policy.py.
-- `_notional_floor_diagnosis` and its helpers only word a reason and are left out.
pub mod Selection
pub mod Decisions
use fatty_multi_exchange_tra.Prelude.{
  ℕ, zero, suc, ◌+◌, ◌-◌, Bool, true, false, ◌&&◌, ◌||◌, Option, none, some, List, [], ◌∷◌, ltb,
  leb, any, if◌then◌else◌, not, is_some, ◌==◌,
}
use fatty_multi_exchange_tra.Prelude.Raise.{
  Result, ok, err, value_error, liquidation_guard_error, raise_if, ◌>>=◌, ◌>>◌,
}
use fatty_multi_exchange_tra.Decimal.{Decimal, dec, of_int, lt, le, min, max, ◌*ᵈ◌, ◌/ᵈ◌}
use fatty_multi_exchange_tra.Domain.{Direction}
use fatty_multi_exchange_tra.Domain.Models.{zero_dec, positive, BitgetLiveRiskConfig}
use fatty_multi_exchange_tra.Risk.Liquidation.{
  estimate_liquidation_price, GuardInput, check_sl_before_liquidation,
}
use fatty_multi_exchange_tra.Risk.Sizing.{
  SymbolMetadata, round_price_to_tick, round_qty_to_step, derive_sl_tp,
}
use fatty_multi_exchange_tra.Risk.LiveInput.{
  min_live_leverage, max_live_leverage, Leg, market_leg, limit_leg, Tag, min_notional, margin_cap,
  sl_guard, split_min_qty, split_min_notional, split_max_qty, LiveSizingInput, Plan, Reason,
  LiveSizingDecision, skip, accept, position_cap, no_live_leverage, no_stop,
  stop_not_before_liquidation, cap_below_one_lot, no_all_in_fallback, unmeetable_all_in,
  split_no_fallback, split_unmeetable_all_in, low_leverage, high_leverage, required_notional,
  Search,
}
use fatty_multi_exchange_tra.Risk.Candidate.{
  margin_cap_of, Attempt, planned, refused, plan_at_leverage,
}

abbrev pub add_tag : Tag → Option Plan × List Tag → Option Plan × List Tag
add_tag t (p, ts) = (p, t ∷ ts)

-- The loop of `_select_plan` over the `n` leverages from `low + n - 1` down to `low`.
unfoldable pub select_from : Search → ℕ → ℕ → Result (Option Plan × List Tag)
select_from s low zero = ok (none, [])
select_from s low (suc n) = plan_at_leverage s (low + n) >>= elim [
  | planned p ↦ ok (some p, [])
  | refused t ↦ select_from s low n >>= λ r. ok (add_tag t r)
]

-- `_select_plan`
unfoldable pub select_plan : Search → ℕ → ℕ → Result (Option Plan × List Tag)
unfolding select_from
select_plan s low high = select_from s low (high + 1 - low)

is_guard : Tag → Bool
is_guard sl_guard = true
is_guard _ = false

is_cap : Tag → Bool
is_cap margin_cap = true
is_cap _ = false

is_min_notional : Tag → Bool
is_min_notional min_notional = true
is_min_notional _ = false

is_split : Tag → Bool
is_split (split_min_qty l) = true
is_split (split_min_notional l) = true
is_split (split_max_qty l) = true
is_split _ = false

-- `next((tag for tag in tags if tag.startswith("split-")), None)`
first_split : List Tag → Option Tag
unfolding is_split
first_split [] = none
first_split (t ∷ ts) = if is_split t then some t else first_split ts

split_or : (Tag → Reason) → Reason → Option Tag → Reason
split_or f r none = r
split_or f r (some t) = f t

-- `min(x, cap)` where a cap is configured
abbrev pub cap_margin : Option Decimal → Decimal → Decimal
cap_margin none margin = margin
cap_margin (some cap) margin = min margin cap

-- The stop: the signal's, or one derived from the ATR.
stop_of : LiveSizingInput → Result (Option Decimal)
stop_of d = elim d.stop_loss [
  | some s ↦ ok (some s)
  | none ↦ elim d.atr [
    | none ↦ ok none
    | some a ↦ derive_sl_tp d.entry d.direction a >>= λ levels. ok (some levels.0)
  ]
]

-- The arguments of a search with the given margin.
unfoldable pub search_of : LiveSizingInput → Option Decimal → Decimal → Decimal → Decimal → Search
search_of d cap rounded_entry stop margin = record {
  meta = d.meta;
  risk = d.risk;
  margin = margin;
  rounded_entry = rounded_entry;
  required = required_notional d.meta rounded_entry;
  cap = cap;
  direction = d.direction;
  stop = stop;
  taker_fee_rate = d.taker_fee_rate;
  split_market_price = d.split_market_price;
  split_limit_price = d.split_limit_price;
}

-- The decision after the all-in search.
all_in_decision : Decimal → Decimal → Option Plan × List Tag → LiveSizingDecision
unfolding is_guard first_split split_or
all_in_decision rounded stop (some p, tags) = accept p rounded stop true
all_in_decision rounded stop (none, tags) =
    if any is_guard tags
    then skip stop_not_before_liquidation true
    else skip (split_or split_unmeetable_all_in unmeetable_all_in (first_split tags)) true

-- The decision after the search with the allocated margin.
first_decision :
    LiveSizingInput
    → Option Decimal
    → Decimal
    → Decimal
    → Option Plan × List Tag
    → Result LiveSizingDecision
unfolding is_guard is_cap is_min_notional first_split split_or all_in_decision
first_decision d cap rounded stop (some p, tags) = ok (accept p rounded stop false)
first_decision d cap rounded stop (none, tags) =
    if any is_guard tags
    then ok (skip stop_not_before_liquidation false)
    else if any is_cap tags && not (any is_min_notional tags)
    then ok (skip cap_below_one_lot false)
    else if not (d.active_positions == 0)
    then ok (skip (split_or split_no_fallback no_all_in_fallback (first_split tags)) false)
    else select_plan (search_of d cap rounded stop (cap_margin cap d.available_usdt))
        (low_leverage d) (high_leverage d)
      >>= λ r. ok (all_in_decision rounded stop r)

is_empty : {A : Type 0} → List A → Bool
is_empty [] = true
is_empty (x ∷ xs) = false

with_stop : LiveSizingInput → Option Decimal → Decimal → Option Decimal → Result LiveSizingDecision
unfolding first_decision
with_stop d cap rounded none = ok (skip no_stop false)
with_stop d cap rounded (some stop) =
    select_plan
      (search_of d cap rounded stop (cap_margin cap (d.risk.allocation_pct *ᵈ d.available_usdt)))
      (low_leverage d) (high_leverage d)
    >>= first_decision d cap rounded stop

-- `plan_live_position`; without maintenance tiers the estimate that it calls raises.
unfoldable pub plan_live_position : LiveSizingInput → Result LiveSizingDecision
unfolding with_stop stop_of is_empty
plan_live_position d = do
  cap ← margin_cap_of d.risk
  if leb d.risk.max_normal_positions d.active_positions
      then ok (skip position_cap false)
      else if is_empty d.meta.mm_tiers
      then err liquidation_guard_error
      else if ltb (high_leverage d) (low_leverage d)
      then ok (skip no_live_leverage false)
      else (do
        rounded ← round_price_to_tick d.entry d.meta.price_tick
        stop ← stop_of d
        with_stop d cap rounded stop)
