-- ===== src/Risk/Sizing/Rails.antt =====
-- The rails of `minimum_safe_plan` in src/fatty_trader/risk/sizing.py.
use fatty_multi_exchange_tra.Prelude.{◌≤◌, ◌≡◌, subst, true, not, arith}
use fatty_multi_exchange_tra.Prelude.Raise.{ok_injective, ok, sizing_error, raise_if-eq-ok}
use fatty_multi_exchange_tra.Decimal.{Decimal, lt, le, ◌*ᵈ◌}
use fatty_multi_exchange_tra.Decimal.Order.{le_of_not_lt}
use fatty_multi_exchange_tra.Domain.Models.{InstrumentSpec, VenueRiskConfig, SizingPlan, positive}
use fatty_multi_exchange_tra.Risk.Sizing.{minimum_safe_plan, effective_leverage, required_minimum}

-- The plan is inside every rail of the venue's configuration.
pub record IsInside (spec : InstrumentSpec) (config : VenueRiskConfig) (p : SizingPlan)
    : Type 0 where
  pub venue_leverage : p.effective_leverage ≤ spec.max_leverage
  pub own_leverage : p.effective_leverage ≤ config.max_leverage
  pub auto_margin : le p.effective_margin_usdt config.max_auto_margin_usdt ≡ true
  pub headroom :
      le p.effective_margin_usdt (config.free_margin_usdt *ᵈ config.free_margin_headroom_pct) ≡ true
  pub notional : le p.notional_usdt config.max_position_notional_usdt ≡ true

leverage_capped :
    (spec : InstrumentSpec) (config : VenueRiskConfig) (required : Decimal)
    → (effective_leverage spec config required ≤ spec.max_leverage)
      × (effective_leverage spec config required ≤ config.max_leverage)
unfolding effective_leverage
leverage_capped spec config required = omega arith

-- A plan that `minimum_safe_plan` returns has a leverage at most the instrument's and the configured
-- one, a margin at most the automatic cap and the safe part of the free margin, and a notional of
-- the rounded quantity at most the position cap.
pub minimum_safe_plan-IsInside :
    (spec : InstrumentSpec) (config : VenueRiskConfig) (price : Decimal) (p : SizingPlan)
    → minimum_safe_plan spec config price ≡ ok p
    → IsInside spec config p
unfolding minimum_safe_plan
minimum_safe_plan-IsInside spec config price p h =
    let (priced, h1) = raise_if-eq-ok (not (positive price)) sizing_error _ h in
    let (auto, h2) = raise_if-eq-ok (lt config.max_auto_margin_usdt _) sizing_error _ h1 in
    let (safe, h3) = raise_if-eq-ok (lt (config.free_margin_usdt *ᵈ _) _) sizing_error _ h2 in
    let (target, h4) = raise_if-eq-ok (lt config.max_position_notional_usdt _) sizing_error _ h3 in
    let (final, h5) = raise_if-eq-ok (lt config.max_position_notional_usdt _) sizing_error _ h4 in
    let capped = leverage_capped spec config (required_minimum spec price) in
    subst (IsInside spec config) (ok_injective h5) (record {
      venue_leverage = capped.0;
      own_leverage = capped.1;
      auto_margin = le_of_not_lt _ _ auto;
      headroom = le_of_not_lt _ _ safe;
      notional = le_of_not_lt _ _ final;
    })
