-- ===== src/Risk/Liquidation.antt =====
-- src/fatty_trader/risk/liquidation.py: the liquidation price of an isolated position, and the test
-- that a stop is hit before it.
use fatty_multi_exchange_tra.Prelude.{
  ℕ, Bool, true, false, ◌&&◌, ◌||◌, Option, none, some, List, [], ◌∷◌, if◌then◌else◌, not, ◌==◌,
}
use fatty_multi_exchange_tra.Prelude.Raise.{
  Result, ok, err, liquidation_guard_error, raise_if, ◌>>=◌, ◌>>◌,
}
use fatty_multi_exchange_tra.Decimal.{Decimal, of_int, lt, le, max, ◌+ᵈ◌, ◌-ᵈ◌, ◌*ᵈ◌, ◌/ᵈ◌}
use fatty_multi_exchange_tra.Domain.{Direction, long, short}
use fatty_multi_exchange_tra.Domain.Models.{zero_dec, positive}

-- `upper_bound_notional` is `none` for the last, catch-all tier.
pub record MmTier : Type 0 where
  pub upper_bound_notional : Option Decimal
  pub mmr : Decimal

in_tier : Decimal → Option Decimal → Bool
in_tier notional none = true
in_tier notional (some bound) = le notional bound

-- The loop of `select_mmr`, from the second tier on; `last` is the tier before.
select_from : Decimal → MmTier → List MmTier → Decimal
select_from notional last [] = last.mmr
select_from notional last (t ∷ ts) =
    if in_tier notional t.upper_bound_notional then t.mmr else select_from notional t ts

unfoldable pub select_mmr : Decimal → List MmTier → Result Decimal
unfolding select_from in_tier
select_mmr notional [] = err liquidation_guard_error
select_mmr notional (t ∷ ts) =
    ok (if in_tier notional t.upper_bound_notional then t.mmr else select_from notional t ts)

-- The arguments of `estimate_liquidation_price`.
pub record Position : Type 0 where
  pub direction : Direction
  pub entry : Decimal
  pub quantity : Decimal
  pub leverage : ℕ
  pub margin_usdt : Decimal
  pub mm_tiers : List MmTier
  pub taker_fee_rate : Decimal
  pub contract_multiplier : Decimal

-- The formula, by side.
liquidation_formula : Direction → Decimal → Decimal → Decimal → Decimal → Decimal
liquidation_formula long entry ratio mmr fee = entry *ᵈ (of_int 1 -ᵈ ratio +ᵈ mmr +ᵈ fee)
liquidation_formula short entry ratio mmr fee = entry *ᵈ (of_int 1 +ᵈ ratio -ᵈ mmr -ᵈ fee)

unfoldable pub estimate_liquidation_price : Position → Result Decimal
unfolding liquidation_formula select_mmr
estimate_liquidation_price p = do
  raise_if
      (not (positive p.entry)
        || not (positive p.quantity)
        || p.leverage == 0
        || not (positive p.margin_usdt))
      liquidation_guard_error
  raise_if (not (positive p.contract_multiplier)) liquidation_guard_error
  raise_if (lt p.taker_fee_rate zero_dec) liquidation_guard_error
  let notional = p.entry *ᵈ p.quantity *ᵈ p.contract_multiplier
  raise_if (not (positive notional)) liquidation_guard_error
  mmr ← select_mmr notional p.mm_tiers
  let liq = liquidation_formula p.direction p.entry (p.margin_usdt /ᵈ notional) mmr p.taker_fee_rate
  raise_if (not (positive liq)) liquidation_guard_error
  ok liq

-- The arguments of `check_sl_before_liquidation`.
pub record GuardInput : Type 0 where
  pub direction : Direction
  pub entry : Decimal
  pub stop_loss : Decimal
  pub liquidation_price : Decimal
  pub buffer : Decimal
  pub minimum_gap_pct : Decimal
  pub minimum_ticks : ℕ
  pub price_tick : Option Decimal
  pub latency_slippage_allowance : Decimal

tick_missing : Option Decimal → Bool
tick_missing none = true
tick_missing (some t) = not (positive t)

tick_negative : Option Decimal → Bool
tick_negative none = false
tick_negative (some t) = lt t zero_dec

tick_or_zero : Option Decimal → Decimal
tick_or_zero none = zero_dec
tick_or_zero (some t) = t

pub strictly_between : Decimal → Decimal → Decimal → Bool
strictly_between low x high = lt low x && lt x high

pub required_gap : GuardInput → Decimal → Decimal
unfolding tick_or_zero
required_gap g span =
    max
      (max (max (span *ᵈ g.buffer) (g.entry *ᵈ g.minimum_gap_pct))
        (tick_or_zero g.price_tick *ᵈ of_int g.minimum_ticks))
      g.latency_slippage_allowance

-- The last part of the check, by side: the stop stands between entry and liquidation price, and the
-- gap between stop and liquidation price is wide enough.
pub clears : Direction → GuardInput → Bool
unfolding strictly_between required_gap
clears long g =
    strictly_between g.liquidation_price g.stop_loss g.entry
    && le (required_gap g (g.entry -ᵈ g.liquidation_price)) (g.stop_loss -ᵈ g.liquidation_price)
clears short g =
    strictly_between g.entry g.stop_loss g.liquidation_price
    && le (required_gap g (g.liquidation_price -ᵈ g.entry)) (g.liquidation_price -ᵈ g.stop_loss)

bad_floors : GuardInput → Bool
unfolding tick_missing tick_negative
bad_floors g =
    lt g.buffer zero_dec
    || lt g.minimum_gap_pct zero_dec
    || lt g.latency_slippage_allowance zero_dec
    || not (g.minimum_ticks == 0) && tick_missing g.price_tick
    || tick_negative g.price_tick

unfoldable pub check_sl_before_liquidation : GuardInput → Result Bool
unfolding bad_floors clears
check_sl_before_liquidation g =
    if not (positive g.entry) || not (positive g.stop_loss) || not (positive g.liquidation_price)
    then ok false
    else if bad_floors g
    then err liquidation_guard_error
    else ok (clears g.direction g)
