-- ===== src/Tests/Risk.antt =====
-- Live sizing at concrete inputs: a BTC position with 1000 USDT available.
use fatty_multi_exchange_tra.Prelude.{
  suc, ◌<◌, ◌≡◌, refl, true, false, Option, none, some, [], ◌∷◌, arith,
}
use fatty_multi_exchange_tra.Prelude.Raise.{ok}
use fatty_multi_exchange_tra.Decimal.{
  Decimal, dec, of_int, lt, le, min, max, ◌+ᵈ◌, ◌-ᵈ◌, ◌*ᵈ◌, ◌/ᵈ◌, round_down, round_half_up,
}
use fatty_multi_exchange_tra.Domain.{long}
use fatty_multi_exchange_tra.Domain.Models.{BitgetLiveRiskConfig}
use fatty_multi_exchange_tra.Risk.Liquidation.{
  estimate_liquidation_price, check_sl_before_liquidation,
}
use fatty_multi_exchange_tra.Risk.Sizing.{SymbolMetadata, round_price_to_tick, round_qty_to_step}
use fatty_multi_exchange_tra.Risk.LiveInput.{
  LiveSizingInput, Search, Plan, accept, low_leverage, high_leverage, required_notional,
}
use fatty_multi_exchange_tra.Risk.Candidate.{
  planned, plan_at_leverage, split_failure, enforce_margin_cap, margin_cap_of, guard_input, priced,
}
use fatty_multi_exchange_tra.Risk.LivePolicy.{
  plan_live_position, select_plan, select_from, search_of,
}
use fatty_multi_exchange_tra.Risk.LivePolicy.Decisions.{accept_lem, InRange, budget}
use fatty_multi_exchange_tra.Risk.LivePolicy.Selection.{AllRefused, IsChoice, select_plan_lem}
use fatty_multi_exchange_tra.Risk.Candidate.Accepted.{IsAccepted, plan_at_leverage-IsAccepted}

abbrev btc : SymbolMetadata
btc = record {
  symbol = "BTCUSDT";
  price_precision = 1;
  price_tick = dec 1 1;
  size_step = dec 1 4;
  min_order_qty = dec 1 4;
  max_order_qty = none;
  max_market_order_qty = none;
  contract_value = of_int 1;
  max_leverage = 125;
  min_notional = of_int 5;
  mm_tiers = (record { upper_bound_notional = none; mmr = dec 4 3 }) ∷ [];
}

abbrev config : BitgetLiveRiskConfig
config = record {
  min_leverage = 5;
  max_leverage = 20;
  allocation_pct = dec 10 2;
  max_normal_positions = 3;
  liquidation_buffer = dec 5 1;
  minimum_liquidation_gap_pct = dec 2 3;
  minimum_liquidation_ticks = 2;
  latency_slippage_allowance = dec 1 3;
  max_margin_per_trade_usdt = some (of_int 50);
}

abbrev signal : LiveSizingInput
signal = record {
  meta = btc;
  risk = config;
  available_usdt = of_int 1000;
  desired_leverage = 10;
  entry = of_int 60000;
  direction = long;
  active_positions = 1;
  stop_loss = some (of_int 58800);
  atr = none;
  taker_fee_rate = dec 6 4;
  split_market_price = none;
  split_limit_price = none;
}

-- The plan: 0.0083 BTC at leverage 10, with a margin of 49.8 USDT under the cap of 50.
abbrev plan : Plan
plan = record {
  leverage = 10;
  quantity = dec 83 4;
  margin = dec 4980000000000000000000000000 26;
  notional = dec 49800000 5;
  liquidation_price = dec 5427600000000000000000000000 23;
}

decision : plan_live_position signal ≡ ok (accept plan (dec 600000 1) (of_int 58800) false)
unfolding plan_live_position search_of select_plan select_from plan_at_leverage split_failure
    enforce_margin_cap margin_cap_of guard_input priced low_leverage high_leverage required_notional
    estimate_liquidation_price check_sl_before_liquidation round_price_to_tick round_qty_to_step lt
    le min max ◌+ᵈ◌ ◌-ᵈ◌ ◌*ᵈ◌ ◌/ᵈ◌ round_down round_half_up
decision = refl

accept_lem_example :
    (signal.active_positions < config.max_normal_positions)
    × (false ≡ true → signal.active_positions ≡ 0)
    × InRange signal 10
    × ((cap : Option Decimal) × (margin_cap_of config ≡ ok cap)
        × (let s = search_of signal cap (dec 600000 1) (of_int 58800) (budget signal cap false) in
            IsAccepted s 10 plan × AllRefused s 11 (suc (high_leverage signal))))
accept_lem_example = accept_lem signal plan (dec 600000 1) (of_int 58800) false decision

-- The search behind that decision: 100 USDT, cut to the cap.
abbrev search : Search
search = search_of signal (some (of_int 50)) (dec 600000 1) (of_int 58800) (of_int 50)

attempt : plan_at_leverage search 10 ≡ ok (planned plan)
unfolding search_of plan_at_leverage split_failure enforce_margin_cap guard_input priced
    required_notional estimate_liquidation_price check_sl_before_liquidation round_qty_to_step lt le
    min max ◌+ᵈ◌ ◌-ᵈ◌ ◌*ᵈ◌ ◌/ᵈ◌ round_down
attempt = refl

plan_at_leverage-IsAccepted_example : IsAccepted search 10 plan
plan_at_leverage-IsAccepted_example = plan_at_leverage-IsAccepted search 10 plan attempt

choice : select_plan search 5 10 ≡ ok (some plan, [])
unfolding select_plan select_from search_of plan_at_leverage split_failure enforce_margin_cap
    guard_input priced required_notional estimate_liquidation_price check_sl_before_liquidation
    round_qty_to_step lt le min max ◌+ᵈ◌ ◌-ᵈ◌ ◌*ᵈ◌ ◌/ᵈ◌ round_down
choice = refl

select_plan_lem_example : IsChoice search 5 11 (some plan)
select_plan_lem_example = select_plan_lem search 5 10 (some plan, []) (omega arith) choice

-- The same signal with three positions open.
abbrev crowded : LiveSizingInput
crowded = record signal { active_positions = 3 }

cap_is_set : margin_cap_of config ≡ ok (some (of_int 50))
unfolding margin_cap_of lt
cap_is_set = refl
