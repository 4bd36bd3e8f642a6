-- ===== src/Risk/LiveInput.antt =====
-- src/fatty_trader/risk/live_policy.py: the inputs, tags and outcomes of live sizing. The texts of
-- the skip reasons are modelled by their kinds.
use Prim.Native.Nat.{min as min_ℕ, max as max_ℕ}
use fatty_multi_exchange_tra.Prelude.{ℕ, suc, ◌≤◌, ◌<◌, arith, Bool, ◌&&◌, Option, not, is_some}
use fatty_multi_exchange_tra.Prelude.Raise.{Result, ok, value_error, raise_if, ◌>>◌}
use fatty_multi_exchange_tra.Decimal.{Decimal, max, ◌*ᵈ◌}
use fatty_multi_exchange_tra.Domain.{Direction}
use fatty_multi_exchange_tra.Domain.Models.{BitgetLiveRiskConfig}
use fatty_multi_exchange_tra.Risk.Sizing.{SymbolMetadata}

abbrev pub min_live_leverage : ℕ
min_live_leverage = 5

abbrev pub max_live_leverage : ℕ
max_live_leverage = 20

pub data Leg : Type 0 where
  market_leg limit_leg : Leg

-- The failure tags of one leverage candidate; the `split-...` texts carry their leg.
pub data Tag : Type 0 where
  min_notional margin_cap sl_guard : Tag
  split_min_qty split_min_notional split_max_qty : Leg → Tag

pub record LiveSizingInput : Type 0 where
  pub meta : SymbolMetadata
  pub risk : BitgetLiveRiskConfig
  pub available_usdt : Decimal
  pub desired_leverage : ℕ
  pub entry : Decimal
  pub direction : Direction
  pub active_positions : ℕ
  pub stop_loss : Option Decimal
  pub atr : Option Decimal
  pub taker_fee_rate : Decimal
  pub split_market_price : Option Decimal
  pub split_limit_price : Option Decimal

-- `validate_split_prices`
unfoldable pub live_sizing_input : LiveSizingInput → Result LiveSizingInput
live_sizing_input d = do
  raise_if (is_some d.split_market_price && not (is_some d.split_limit_price)) value_error
  raise_if (is_some d.split_limit_price && not (is_some d.split_market_price)) value_error
  ok d

-- An accepted candidate: leverage, quantity, margin, notional, liquidation price.
pub record Plan : Type 0 where
  pub leverage : ℕ
  pub quantity : Decimal
  pub margin : Decimal
  pub notional : Decimal
  pub liquidation_price : Decimal

pub data Reason : Type 0 where
  position_cap no_live_leverage no_stop stop_not_before_liquidation cap_below_one_lot : Reason
  no_all_in_fallback unmeetable_all_in : Reason
  split_no_fallback split_unmeetable_all_in : Tag → Reason

-- A skip with its reason and `fallback_used`, or a plan with the rounded entry, the stop and
-- `fallback_used`.
pub data LiveSizingDecision : Type 0 where
  skip : Reason → Bool → LiveSizingDecision
  accept : Plan → Decimal → Decimal → Bool → LiveSizingDecision

-- `_leverage_bounds`, with the desired leverage already applied to the upper one.
unfoldable pub low_leverage : LiveSizingInput → ℕ
low_leverage d = max_ℕ min_live_leverage d.risk.min_leverage

unfoldable pub high_leverage : LiveSizingInput → ℕ
high_leverage d =
    min_ℕ (min_ℕ max_live_leverage (min_ℕ d.risk.max_leverage d.meta.max_leverage))
      d.desired_leverage

pub leverage_range :
    (d : LiveSizingInput) (l : ℕ)
    → low_leverage d ≤ l
    → l < suc (high_leverage d)
    → (min_live_leverage ≤ l)
      × (l ≤ max_live_leverage)
      × (d.risk.min_leverage ≤ l)
      × (l ≤ d.risk.max_leverage)
      × (l ≤ d.meta.max_leverage)
      × (l ≤ d.desired_leverage)
unfolding low_leverage high_leverage
leverage_range d l from to = omega arith

unfoldable pub required_notional : SymbolMetadata → Decimal → Decimal
required_notional meta rounded_entry =
    max meta.min_notional (meta.min_order_qty *ᵈ rounded_entry *ᵈ meta.contract_value)

-- The arguments that one search passes to every candidate.
pub record Search : Type 0 where
  pub meta : SymbolMetadata
  pub risk : BitgetLiveRiskConfig
  pub margin : Decimal
  pub rounded_entry : Decimal
  pub required : Decimal
  pub cap : Option Decimal
  pub direction : Direction
  pub stop : Decimal
  pub taker_fee_rate : Decimal
  pub split_market_price : Option Decimal
  pub split_limit_price : Option Decimal
