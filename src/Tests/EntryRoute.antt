-- ===== src/Tests/EntryRoute.antt =====
-- Entry routes at concrete inputs: a limit order that the market has just left.
use fatty_multi_exchange_tra.Prelude.{◌≡◌, refl, true, false, none, some}
use fatty_multi_exchange_tra.Prelude.Int.{pos}
use fatty_multi_exchange_tra.Prelude.Raise.{ok}
use fatty_multi_exchange_tra.Decimal.{dec, of_int, lt, le, eq, ◌+ᵈ◌, ◌-ᵈ◌, ◌*ᵈ◌}
use fatty_multi_exchange_tra.Domain.{long}
use fatty_multi_exchange_tra.Risk.EntryRoute.{
  LimitEntryContext, EntryRoute, RouteInput, near_limit_split_market_limit, route_entry,
}
use fatty_multi_exchange_tra.Risk.EntryRoute.Legs.{HasModeLegs, route_entry-HasModeLegs}

abbrev context : LimitEntryContext
context = record {
  provider_acknowledged = true;
  was_working = true;
  observed_at = 90000000;
  near_entry_mark = some (of_int 100);
  prior_mark = some (of_int 100);
  departure_window_seconds = pos 60;
}

abbrev input : RouteInput
input = record {
  direction = long;
  signal_entry = of_int 100;
  market_price = dec 1005 1;
  total_quantity = of_int 8;
  late_threshold_pct = dec 1 2;
  limit_context = some context;
  near_limit_threshold_pct = none;
  now = 100000000;
  source_received_at = none;
  recent_window_seconds = pos 60;
  force_market = false;
}

abbrev route : EntryRoute
route = record {
  mode = near_limit_split_market_limit;
  market_quantity = dec 200 2;
  limit_quantity = dec 600 2;
  limit_price = some (of_int 100);
}

routed : route_entry input ≡ ok route
unfolding route_entry lt le eq ◌+ᵈ◌ ◌-ᵈ◌ ◌*ᵈ◌
routed = refl

route_entry-HasModeLegs_example : HasModeLegs input route
route_entry-HasModeLegs_example = route_entry-HasModeLegs input route routed
