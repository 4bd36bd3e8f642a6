-- ===== src/Risk/Candidate.antt =====
-- `_plan_at_leverage` of src/fatty_trader/risk/live_policy.py: one leverage candidate.
pub mod Accepted
use fatty_multi_exchange_tra.Prelude.{
  ℕ, zero, suc, ◌+◌, ◌-◌, Bool, true, false, ◌&&◌, ◌||◌, Option, none, some, List, [], ◌∷◌, ltb,
  leb, any, if◌then◌else◌, not, is_some, ◌==◌,
}
use fatty_multi_exchange_tra.Prelude.Raise.{
  Result, ok, err, value_error, liquidation_guard_error, raise_if, ◌>>=◌, ◌>>◌,
}
use fatty_multi_exchange_tra.Decimal.{Decimal, dec, of_int, lt, le, min, max, ◌*ᵈ◌, ◌/ᵈ◌}
use fatty_multi_exchange_tra.Domain.{Direction}
use fatty_multi_exchange_tra.Domain.Models.{zero_dec, positive, BitgetLiveRiskConfig}
use fatty_multi_exchange_tra.Risk.Liquidation.{
  Position, estimate_liquidation_price, GuardInput, check_sl_before_liquidation,
}
use fatty_multi_exchange_tra.Risk.Sizing.{
  SymbolMetadata, round_price_to_tick, round_qty_to_step, derive_sl_tp,
}
use fatty_multi_exchange_tra.Risk.LiveInput.{
  min_live_leverage, max_live_leverage, Leg, market_leg, limit_leg, Tag, min_notional, margin_cap,
  sl_guard, split_min_qty, split_min_notional, split_max_qty, LiveSizingInput, Plan, Reason,
  LiveSizingDecision, skip, accept, position_cap, no_live_leverage, no_stop,
  stop_not_before_liquidation, cap_below_one_lot, no_all_in_fallback, unmeetable_all_in,
  split_no_fallback, split_unmeetable_all_in, low_leverage, high_leverage, required_notional,
  Search,
}

above : Decimal → Option Decimal → Bool
above q none = false
above q (some maximum) = lt maximum q

-- One turn of the loop in `_split_quantity_failure`.
leg_failure : SymbolMetadata → Leg → Decimal → Decimal → Option Decimal → Option Tag
unfolding above
leg_failure meta leg child price maximum =
    if lt child meta.min_order_qty
    then some (split_min_qty leg)
    else if lt (child *ᵈ price *ᵈ meta.contract_value) meta.min_notional
    then some (split_min_notional leg)
    else if above child maximum
    then some (split_max_qty leg)
    else none

first_of_two : Option Tag → Option Tag → Option Tag
first_of_two none b = b
first_of_two (some a) b = some a

unfoldable pub split_quantity_failure : SymbolMetadata → Decimal → Decimal → Decimal → Option Tag
unfolding leg_failure first_of_two
split_quantity_failure meta qty market_price limit_price =
    first_of_two
      (leg_failure meta market_leg (qty /ᵈ of_int 4) market_price meta.max_market_order_qty)
      (leg_failure meta limit_leg (qty *ᵈ dec 75 2) limit_price meta.max_order_qty)

-- The split check where both prices are given.
unfoldable pub split_failure : Search → Decimal → Option Tag
split_failure s qty = elim s.split_market_price [
  | none ↦ none
  | some m ↦ elim s.split_limit_price [
    | none ↦ none
    | some l ↦ split_quantity_failure s.meta qty m l
  ]
]

-- The per-unit notional.
abbrev pub per_qty : Search → Decimal
per_qty s = s.rounded_entry *ᵈ s.meta.contract_value

-- `_margin_cap`
unfoldable pub margin_cap_of : BitgetLiveRiskConfig → Result (Option Decimal)
margin_cap_of risk = elim risk.max_margin_per_trade_usdt [
  | none ↦ ok none
  | some cap ↦ if positive cap then ok (some cap) else err value_error
]

capped_max : Option Decimal → Decimal → ℕ → Decimal → Decimal
capped_max none qty leverage unit = qty
capped_max (some cap) qty leverage unit = cap *ᵈ of_int leverage /ᵈ unit

over_cap : Option Decimal → Decimal → Bool
over_cap none margin = false
over_cap (some cap) margin = lt cap margin

-- The last tests of `_enforce_margin_cap`, on the rounded quantity.
within_limits : Search → ℕ → Decimal → Option (Decimal × Decimal)
unfolding over_cap
within_limits s leverage capped =
    let actual = capped *ᵈ per_qty s /ᵈ of_int leverage in
    if lt capped s.meta.min_order_qty || over_cap s.cap actual then none else some (actual, capped)

-- `_enforce_margin_cap`: the realized margin and the quantity.
unfoldable pub enforce_margin_cap :
    Search → ℕ → Decimal → Decimal → Result (Option (Decimal × Decimal))
unfolding capped_max within_limits
enforce_margin_cap s leverage qty step =
    if not (positive qty) || not (positive (per_qty s)) then ok none else (do
      capped ← round_qty_to_step (min qty (capped_max s.cap qty leverage (per_qty s))) step
      ok (within_limits s leverage capped))

market_ceiling : Search → Decimal → Result Decimal
market_ceiling s qty = elim s.meta.max_market_order_qty [
  | none ↦ ok qty
  | some maximum ↦ round_qty_to_step maximum s.meta.size_step >>= λ ceiling.
      ok (min qty (if is_some s.split_market_price then ceiling *ᵈ of_int 4 else ceiling))
]

limit_ceiling : Search → Decimal → Result Decimal
limit_ceiling s qty =
    if is_some s.split_limit_price
    then elim s.meta.max_order_qty [
      | none ↦ ok qty
      | some maximum ↦ round_qty_to_step maximum (s.meta.size_step *ᵈ of_int 3) >>= λ ceiling.
          ok (min qty (ceiling /ᵈ of_int 3 *ᵈ of_int 4))
    ]
    else ok qty

pub data Attempt : Type 0 where
  planned : Plan → Attempt
  refused : Tag → Attempt

-- The arguments of the stop guard for a candidate with the given liquidation price.
unfoldable pub guard_input : Search → Decimal → GuardInput
guard_input s liq = record {
  direction = s.direction;
  entry = s.rounded_entry;
  stop_loss = s.stop;
  liquidation_price = liq;
  buffer = s.risk.liquidation_buffer;
  minimum_gap_pct = s.risk.minimum_liquidation_gap_pct;
  minimum_ticks = s.risk.minimum_liquidation_ticks;
  price_tick = some s.meta.price_tick;
  latency_slippage_allowance = s.risk.latency_slippage_allowance;
}

-- The accepted candidate, and its arguments for the estimate of the liquidation price.
abbrev pub plan_of : Search → ℕ → Decimal → Decimal → Decimal → Plan
plan_of s leverage margin qty liq = record {
  leverage = leverage;
  quantity = qty;
  margin = margin;
  notional = qty *ᵈ per_qty s;
  liquidation_price = liq;
}

abbrev pub position_of : Search → ℕ → Decimal → Decimal → Position
position_of s leverage margin qty = record {
  direction = s.direction;
  entry = s.rounded_entry;
  quantity = qty;
  leverage = leverage;
  margin_usdt = margin;
  mm_tiers = s.meta.mm_tiers;
  taker_fee_rate = s.taker_fee_rate;
  contract_multiplier = s.meta.contract_value;
}

-- The answer of the stop guard.
guarded : Plan → Bool → Attempt
guarded p true = planned p
guarded p false = refused sl_guard

-- The last tests of `_plan_at_leverage`, on the capped quantity.
unfoldable pub priced : Search → ℕ → Decimal → Decimal → Result Attempt
unfolding guarded
priced s leverage margin qty =
    if lt (qty *ᵈ per_qty s) s.required then ok (refused min_notional) else (do
      liq ← estimate_liquidation_price (position_of s leverage margin qty)
      safe ← check_sl_before_liquidation (guard_input s liq)
      ok (guarded (plan_of s leverage margin qty liq) safe))

tag_or_cap : Option Tag → Tag
tag_or_cap none = margin_cap
tag_or_cap (some t) = t

after_split : Search → ℕ → Decimal → Decimal → Option Tag → Result Attempt
after_split s leverage margin qty (some t) = ok (refused t)
after_split s leverage margin qty none = priced s leverage margin qty

after_cap : Search → ℕ → Decimal → Option (Decimal × Decimal) → Result Attempt
unfolding tag_or_cap after_split
after_cap s leverage qty none = ok (refused (tag_or_cap (split_failure s qty)))
after_cap s leverage qty (some (margin, capped)) =
    after_split s leverage margin capped (split_failure s capped)

-- `_plan_at_leverage`
unfoldable pub plan_at_leverage : Search → ℕ → Result Attempt
unfolding market_ceiling limit_ceiling after_cap
plan_at_leverage s leverage = if not (positive (per_qty s)) then ok (refused min_notional) else (do
  let step = s.meta.size_step *ᵈ of_int (if is_some s.split_market_price then 4 else 1)
  raw ← round_qty_to_step (s.margin *ᵈ of_int leverage /ᵈ per_qty s) step
  below_market ← market_ceiling s raw
  qty ← limit_ceiling s below_market
  capped ← enforce_margin_cap s leverage qty step
  after_cap s leverage qty capped)
