-- ===== src/Tests/Sizing.antt =====
-- The minimum safe plan of a small BTC order.
use fatty_multi_exchange_tra.Prelude.{◌≡◌, refl, [], ◌∷◌}
use fatty_multi_exchange_tra.Prelude.Raise.{ok}
use fatty_multi_exchange_tra.Decimal.{
  dec, of_int, lt, eq, ◌-ᵈ◌, round_half_up, max, ◌*ᵈ◌, ◌/ᵈ◌, round_ceiling, to_int,
}
use fatty_multi_exchange_tra.Domain.{binance, isolated, long}
use fatty_multi_exchange_tra.Domain.Models.{InstrumentSpec, VenueRiskConfig, SizingPlan}
use fatty_multi_exchange_tra.Risk.Sizing.{minimum_safe_plan, round_price_to_tick}
use fatty_multi_exchange_tra.Risk.Admission.{PriceInput, normalized_protection_prices}
use fatty_multi_exchange_tra.Risk.Admission.Cleared.{
  IsNormalized, normalized_protection_prices-IsNormalized,
}
use fatty_multi_exchange_tra.Risk.Sizing.Rails.{IsInside, minimum_safe_plan-IsInside}

abbrev spec : InstrumentSpec
spec = record {
  exchange = binance;
  symbol = "BTCUSDT";
  qty_step = dec 1 3;
  min_qty = dec 1 3;
  min_notional = of_int 100;
  max_leverage = 125;
  contract_multiplier = of_int 1;
}

abbrev config : VenueRiskConfig
config = record {
  exchange = binance;
  base_margin_usdt = of_int 20;
  default_leverage = 5;
  max_leverage = 20;
  max_auto_margin_usdt = of_int 50;
  free_margin_usdt = of_int 100;
  free_margin_headroom_pct = dec 8 1;
  max_position_notional_usdt = of_int 500;
  margin_mode = isolated;
}

-- The leverage is raised to 6, which carries 120 USDT.
abbrev plan : SizingPlan
plan = record {
  effective_leverage = 6;
  effective_margin_usdt = of_int 20;
  notional_usdt = dec 120000 3;
  quantity = dec 2 3;
  required_min_notional_usdt = dec 10200 2;
}

sized : minimum_safe_plan spec config (of_int 60000) ≡ ok plan
unfolding minimum_safe_plan lt max ◌*ᵈ◌ ◌/ᵈ◌ round_ceiling to_int
sized = refl

minimum_safe_plan-IsInside_example : IsInside spec config plan
minimum_safe_plan-IsInside_example =
    minimum_safe_plan-IsInside spec config (of_int 60000) plan sized

abbrev prices : PriceInput
prices = record {
  direction = long;
  entry = of_int 100;
  canonical_entry = of_int 101;
  stop_loss = of_int 90;
  take_profits = of_int 110 ∷ of_int 120 ∷ [];
  price_tick = of_int 1;
}

normalized : normalized_protection_prices prices ≡ ok (of_int 90, of_int 110 ∷ of_int 120 ∷ [])
unfolding normalized_protection_prices round_price_to_tick lt eq ◌*ᵈ◌ ◌/ᵈ◌ ◌-ᵈ◌ round_half_up
normalized = refl

normalized_protection_prices-IsNormalized_example :
    IsNormalized prices (of_int 90, of_int 110 ∷ of_int 120 ∷ [])
normalized_protection_prices-IsNormalized_example =
    normalized_protection_prices-IsNormalized prices (of_int 90, of_int 110 ∷ of_int 120 ∷ [])
      normalized
