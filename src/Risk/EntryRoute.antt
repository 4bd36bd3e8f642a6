-- ===== src/Risk/EntryRoute.antt =====
-- src/fatty_trader/execution/entry_routing.py: a limit order, a market order, or a split of both?
-- Instants are whole microseconds; windows are whole seconds and may be negative. The recognition of
-- market signals by a text pattern is left out.
pub mod Legs
use fatty_multi_exchange_tra.Prelude.{
  ℕ, ◌*◌, ◌-◌, Bool, true, false, ◌&&◌, ◌||◌, not, Option, none, some, leb, is_some, if◌then◌else◌,
}
use fatty_multi_exchange_tra.Prelude.Int.{ℤ, pos, negsuc}
use fatty_multi_exchange_tra.Prelude.Raise.{Result, ok, err, value_error, raise_if, ◌>>=◌, ◌>>◌}
use fatty_multi_exchange_tra.Decimal.{Decimal, dec, of_int, lt, le, eq, ◌+ᵈ◌, ◌-ᵈ◌, ◌*ᵈ◌}
use fatty_multi_exchange_tra.Domain.{Direction, long, short}
use fatty_multi_exchange_tra.Domain.Models.{zero_dec, positive}

pub data EntryMode : Type 0 where
  limit_only full_market split_market_limit near_limit_split_market_limit : EntryMode

pub record LimitEntryContext : Type 0 where
  pub provider_acknowledged : Bool
  pub was_working : Bool
  pub observed_at : ℕ
  pub near_entry_mark : Option Decimal
  pub prior_mark : Option Decimal
  pub departure_window_seconds : ℤ

pub record EntryRoute : Type 0 where
  pub mode : EntryMode
  pub market_quantity : Decimal
  pub limit_quantity : Decimal
  pub limit_price : Option Decimal

-- The arguments of `route_entry`. A source time carries whether it has a time zone.
pub record RouteInput : Type 0 where
  pub direction : Direction
  pub signal_entry : Decimal
  pub market_price : Decimal
  pub total_quantity : Decimal
  pub late_threshold_pct : Decimal
  pub limit_context : Option LimitEntryContext
  pub near_limit_threshold_pct : Option Decimal
  pub now : ℕ
  pub source_received_at : Option (Bool × ℕ)
  pub recent_window_seconds : ℤ
  pub force_market : Bool

covers : ℤ → ℕ → Bool
covers (pos n) age = leb age (n * 1000000)
covers (negsuc n) age = false

-- `0 <= age <= window`
within : ℤ → ℕ → ℕ → Bool
unfolding covers
within window at now = leb at now && covers window (now - at)

not_positive : ℤ → Bool
not_positive (pos n) = leb n 0
not_positive (negsuc n) = true

-- `is_recent`
pub is_recent : LimitEntryContext → ℕ → Bool
unfolding within
is_recent c now = within c.departure_window_seconds c.observed_at now

-- `_split`
pub split : Decimal → EntryMode → Decimal → EntryRoute
split total mode price = record {
  mode = mode;
  market_quantity = total *ᵈ dec 25 2;
  limit_quantity = total -ᵈ total *ᵈ dec 25 2;
  limit_price = some price;
}

all_market : Decimal → EntryRoute
all_market total = record {
  mode = full_market;
  market_quantity = total;
  limit_quantity = zero_dec;
  limit_price = none;
}

all_limit : Decimal → Decimal → EntryRoute
all_limit total price = record {
  mode = limit_only;
  market_quantity = zero_dec;
  limit_quantity = total;
  limit_price = some price;
}

-- `near_limit_threshold_pct or late_threshold_pct`: zero counts as missing.
or_late : Option Decimal → Decimal → Decimal
or_late none late = late
or_late (some near) late = if eq near zero_dec then late else near

fraction : Decimal → Bool
fraction a = positive a && lt a (of_int 1)

raised_by : Decimal → Decimal → Decimal
raised_by price part = price *ᵈ (of_int 1 +ᵈ part)

lowered_by : Decimal → Decimal → Decimal
lowered_by price part = price *ᵈ (of_int 1 -ᵈ part)

-- Has the market passed the entry?
passed : Direction → Decimal → Decimal → Bool
passed long market entry = lt entry market
passed short market entry = lt market entry

-- The test of `just_departed`, by side.
pub just_departed : Direction → Decimal → Decimal → Decimal → Decimal → Decimal → Bool
unfolding raised_by lowered_by
just_departed long entry market near_part near prior =
    let near_entry = raised_by entry near_part in
    le (lowered_by entry near_part) near
    && le near near_entry
    && le prior near_entry
    && lt entry market
    && le market near_entry
just_departed short entry market near_part near prior =
    let near_entry = lowered_by entry near_part in
    le near_entry near
    && le near entry
    && le near_entry prior
    && lt market entry
    && le near_entry market

-- The two marks, where both are given.
departed : RouteInput → Decimal → Option Decimal → Option Decimal → Bool
unfolding just_departed
departed d part (some near) (some prior) =
    just_departed d.direction d.signal_entry d.market_price part near prior
departed d part _ _ = false

-- The branch of a recent source time.
pub by_source_time : RouteInput → Bool × ℕ → Result EntryRoute
unfolding not_positive passed within split all_market
by_source_time d (aware, at) = do
  raise_if (not aware || not_positive d.recent_window_seconds) value_error
  if passed d.direction d.market_price d.signal_entry && within d.recent_window_seconds at d.now
      then ok (split d.total_quantity split_market_limit d.signal_entry)
      else ok (all_market d.total_quantity)

-- The branch of a limit order that stands at the venue.
pub by_limit_context : RouteInput → Decimal → LimitEntryContext → Result EntryRoute
unfolding not_positive is_recent departed split all_limit
by_limit_context d part c = do
  raise_if (not_positive c.departure_window_seconds) value_error
  if (c.provider_acknowledged && c.was_working && is_recent c d.now)
        && departed d part c.near_entry_mark c.prior_mark
      then ok (split d.total_quantity near_limit_split_market_limit d.signal_entry)
      else ok (all_limit d.total_quantity d.signal_entry)

adverse : Direction → Decimal → Decimal → Decimal → Bool
unfolding raised_by lowered_by
adverse long market entry late = le (raised_by entry late) market
adverse short market entry late = le market (lowered_by entry late)

-- The branch that looks at the price only.
pub by_price : RouteInput → EntryRoute
unfolding adverse split all_market
by_price d =
    if adverse d.direction d.market_price d.signal_entry d.late_threshold_pct
    then split d.total_quantity split_market_limit d.signal_entry
    else all_market d.total_quantity

by_evidence :
    RouteInput → Decimal → Option (Bool × ℕ) → Option LimitEntryContext → Result EntryRoute
unfolding by_source_time by_limit_context by_price
by_evidence d part (some at) c = by_source_time d at
by_evidence d part none (some c) = by_limit_context d part c
by_evidence d part none none = ok (by_price d)

-- `route_entry`
unfoldable pub route_entry : RouteInput → Result EntryRoute
unfolding by_evidence or_late fraction all_market
route_entry d =
    if d.force_market
    then raise_if (not (positive d.market_price) || not (positive d.total_quantity)) value_error
      >> ok (all_market d.total_quantity)
    else (do
      raise_if
          (not (positive d.signal_entry)
            || not (positive d.market_price)
            || not (positive d.total_quantity))
          value_error
      raise_if (not (fraction d.late_threshold_pct)) value_error
      let part = or_late d.near_limit_threshold_pct d.late_threshold_pct
      raise_if (not (fraction part)) value_error
      by_evidence d part d.source_received_at d.limit_context)
