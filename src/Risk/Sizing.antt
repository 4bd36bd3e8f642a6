-- ===== src/Risk/Sizing.antt =====
-- src/fatty_trader/risk/sizing.py: the minimum safe plan, symbol metadata, and rounding to the
-- venue's steps.
pub mod Rails
use text.Mathlib.Text.{◌==◌ as str_eq}
use Prim.Native.Nat.{min as min_ℕ, max as max_ℕ}
use fatty_multi_exchange_tra.Prelude.{
  ℕ, String, ◌||◌, Option, List, [], ◌∷◌, if◌then◌else◌, not, length,
}
use fatty_multi_exchange_tra.Prelude.Int.{pos_part}
use fatty_multi_exchange_tra.Prelude.Raise.{
  Result, ok, err, sizing_error, key_error, raise_if, ◌>>◌,
}
use fatty_multi_exchange_tra.Decimal.{
  Decimal, dec, of_int, lt, max, ◌+ᵈ◌, ◌-ᵈ◌, ◌*ᵈ◌, ◌/ᵈ◌, round_down, round_half_up, round_ceiling,
  to_int,
}
use fatty_multi_exchange_tra.Domain.{Direction, long, short}
use fatty_multi_exchange_tra.Domain.Models.{positive, InstrumentSpec, VenueRiskConfig, SizingPlan}
use fatty_multi_exchange_tra.Risk.Liquidation.{MmTier}

-- `_ceil_to_step`
ceil_to_step : Decimal → Decimal → Decimal
ceil_to_step value step = round_ceiling (value /ᵈ step) *ᵈ step

-- The leverage that `minimum_safe_plan` uses: the configured one, raised to what the minimum
-- notional needs, and never above the cap. A negative `int(required_leverage)` never wins `max`.
effective_leverage : InstrumentSpec → VenueRiskConfig → Decimal → ℕ
effective_leverage spec config required_min =
    let cap = min_ℕ spec.max_leverage config.max_leverage in
    let leverage = min_ℕ (max_ℕ config.default_leverage 1) cap in
    let needed = pos_part (to_int (round_ceiling (required_min /ᵈ config.base_margin_usdt))) in
    min_ℕ (max_ℕ leverage needed) cap

required_minimum : InstrumentSpec → Decimal → Decimal
required_minimum spec price =
    max spec.min_notional (spec.min_qty *ᵈ price *ᵈ spec.contract_multiplier) *ᵈ dec 102 2

-- `margin`, raised where the base margin cannot carry the minimum notional.
effective_margin : VenueRiskConfig → ℕ → Decimal → Decimal
effective_margin config leverage required_min =
    if lt (config.base_margin_usdt *ᵈ of_int leverage) required_min
    then required_min /ᵈ of_int leverage
    else config.base_margin_usdt

unfoldable pub minimum_safe_plan : InstrumentSpec → VenueRiskConfig → Decimal → Result SizingPlan
unfolding ceil_to_step effective_leverage required_minimum effective_margin
minimum_safe_plan spec config price = do
  raise_if (not (positive price)) sizing_error
  let required_min = required_minimum spec price
  let leverage = effective_leverage spec config required_min
  let margin = effective_margin config leverage required_min
  raise_if (lt config.max_auto_margin_usdt margin) sizing_error
  raise_if (lt (config.free_margin_usdt *ᵈ config.free_margin_headroom_pct) margin) sizing_error
  let notional = margin *ᵈ of_int leverage
  raise_if (lt config.max_position_notional_usdt notional) sizing_error
  let per_qty = price *ᵈ spec.contract_multiplier
  let target_qty = ceil_to_step (notional /ᵈ per_qty) spec.qty_step
  let min_qty = ceil_to_step (required_min /ᵈ per_qty) spec.qty_step
  let quantity = max target_qty min_qty
  let final_notional = quantity *ᵈ price *ᵈ spec.contract_multiplier
  raise_if (lt config.max_position_notional_usdt final_notional) sizing_error
  ok (record {
    effective_leverage = leverage;
    effective_margin_usdt = margin;
    notional_usdt = final_notional;
    quantity = quantity;
    required_min_notional_usdt = required_min;
  })

pub record SymbolMetadata : Type 0 where
  pub symbol : String
  pub price_precision : ℕ
  pub price_tick : Decimal
  pub size_step : Decimal
  pub min_order_qty : Decimal
  pub max_order_qty : Option Decimal
  pub max_market_order_qty : Option Decimal
  pub contract_value : Decimal
  pub max_leverage : ℕ
  pub min_notional : Decimal
  pub mm_tiers : List MmTier

-- `SymbolMetadataCache`: its dict, in insertion order.
abbrev pub Cache : Type 0
Cache = List SymbolMetadata

-- `register` replaces the entry of its symbol.
pub register : SymbolMetadata → Cache → Cache
register m [] = m ∷ []
register m (n ∷ ns) = if str_eq n.symbol m.symbol then m ∷ ns else n ∷ register m ns

pub cached : String → Cache → Result SymbolMetadata
cached s [] = err key_error
cached s (n ∷ ns) = if str_eq n.symbol s then ok n else cached s ns

pub cache_size : Cache → ℕ
cache_size ns = length ns

unfoldable pub round_price_to_tick : Decimal → Decimal → Result Decimal
round_price_to_tick price tick = do
  raise_if (not (positive price) || not (positive tick)) sizing_error
  let rounded = round_half_up (price /ᵈ tick) *ᵈ tick
  raise_if (not (positive rounded)) sizing_error
  ok rounded

unfoldable pub round_qty_to_step : Decimal → Decimal → Result Decimal
round_qty_to_step quantity step = do
  raise_if (not (positive quantity) || not (positive step)) sizing_error
  ok (round_down (quantity /ᵈ step) *ᵈ step)

levels : Direction → Decimal → Decimal → Decimal × Decimal
levels long entry atr = (entry -ᵈ dec 15 1 *ᵈ atr, entry +ᵈ of_int 2 *ᵈ atr)
levels short entry atr = (entry +ᵈ dec 15 1 *ᵈ atr, entry -ᵈ of_int 2 *ᵈ atr)

-- The stop-loss and take-profit of a signal that has none.
unfoldable pub derive_sl_tp : Decimal → Direction → Decimal → Result (Decimal × Decimal)
unfolding levels
derive_sl_tp entry direction atr = do
  raise_if (not (positive entry)) sizing_error
  raise_if (not (positive atr)) sizing_error
  ok (levels direction entry atr)
