-- ===== src/Risk/EntryRoute/Legs.antt =====
-- What the routes of src/fatty_trader/execution/entry_routing.py promise about their legs.
use fatty_multi_exchange_tra.Prelude.{
  ℕ, ◌≡◌, refl, Bool, true, false, ◌⊎◌, inl, inr, Option, none, some, arith, Bool-cases,
}
use fatty_multi_exchange_tra.Prelude.Raise.{ok}
use fatty_multi_exchange_tra.Decimal.{Decimal, dec, ◌*ᵈ◌, ◌-ᵈ◌}
use fatty_multi_exchange_tra.Domain.Models.{zero_dec}
use fatty_multi_exchange_tra.Risk.EntryRoute.{
  EntryMode, limit_only, full_market, split_market_limit, near_limit_split_market_limit, EntryRoute,
  RouteInput, LimitEntryContext, is_recent, route_entry, by_limit_context, by_evidence,
  by_source_time, by_price, split, all_market, all_limit, or_late,
}

-- The legs that belong to each mode: all of the quantity on one leg, or a quarter at the market and
-- the rest at the signal's entry.
pub HasLegs : RouteInput → EntryRoute → EntryMode → Type 0
HasLegs d r full_market =
    (r.market_quantity ≡ d.total_quantity) × (r.limit_quantity ≡ zero_dec) × (r.limit_price ≡ none)
HasLegs d r limit_only =
    (r.market_quantity ≡ zero_dec)
    × (r.limit_quantity ≡ d.total_quantity)
    × (r.limit_price ≡ some d.signal_entry)
HasLegs d r _ =
    (r.market_quantity ≡ d.total_quantity *ᵈ dec 25 2)
    × (r.limit_quantity ≡ d.total_quantity -ᵈ r.market_quantity)
    × (r.limit_price ≡ some d.signal_entry)

-- A route whose legs are those of its mode.
pub HasModeLegs : RouteInput → EntryRoute → Type 0
HasModeLegs d r = HasLegs d r r.mode

split-HasModeLegs :
    (d : RouteInput) → HasModeLegs d (split d.total_quantity split_market_limit d.signal_entry)
unfolding split HasLegs HasModeLegs
split-HasModeLegs d = (refl, refl, refl)

near_split-HasModeLegs :
    (d : RouteInput)
    → HasModeLegs d (split d.total_quantity near_limit_split_market_limit d.signal_entry)
unfolding split HasLegs HasModeLegs
near_split-HasModeLegs d = (refl, refl, refl)

all_market-HasModeLegs : (d : RouteInput) → HasModeLegs d (all_market d.total_quantity)
unfolding all_market HasLegs HasModeLegs
all_market-HasModeLegs d = (refl, refl, refl)

all_limit-HasModeLegs : (d : RouteInput) → HasModeLegs d (all_limit d.total_quantity d.signal_entry)
unfolding all_limit HasLegs HasModeLegs
all_limit-HasModeLegs d = (refl, refl, refl)

by_evidence-HasModeLegs :
    (d : RouteInput) (part : Decimal) (at : Option (Bool × ℕ)) (c : Option LimitEntryContext)
    (r : EntryRoute)
    → by_evidence d part at c ≡ ok r
    → HasModeLegs d r
unfolding by_evidence by_source_time by_limit_context by_price
by_evidence-HasModeLegs d part (some at) c r h =
    ground (arith, split-HasModeLegs d, all_market-HasModeLegs d)
by_evidence-HasModeLegs d part none (some c) r h =
    ground (arith, near_split-HasModeLegs d, all_limit-HasModeLegs d)
by_evidence-HasModeLegs d part none none r h =
    ground (arith, split-HasModeLegs d, all_market-HasModeLegs d)

-- A route that is not forced is the one of the evidence.
route_of_evidence :
    (d : RouteInput) (r : EntryRoute)
    → d.force_market ≡ false
    → route_entry d ≡ ok r
    → (part : Decimal) × (by_evidence d part d.source_received_at d.limit_context ≡ ok r)
unfolding route_entry
route_of_evidence d r free h =
    (or_late d.near_limit_threshold_pct d.late_threshold_pct, ground arith)

forced_route :
    (d : RouteInput) (r : EntryRoute)
    → d.force_market ≡ true
    → route_entry d ≡ ok r
    → HasModeLegs d r
unfolding route_entry
forced_route d r forced h = ground (arith, all_market-HasModeLegs d)

-- A route has the legs of its mode: the whole quantity at the market without a limit price, the
-- whole quantity as a limit order at the signal's entry, or a quarter at the market and what is left
-- of the quantity as a limit order at the signal's entry.
pub route_entry-HasModeLegs :
    (d : RouteInput) (r : EntryRoute) → route_entry d ≡ ok r → HasModeLegs d r
route_entry-HasModeLegs d r h = elim (Bool-cases d.force_market) [
  | inl forced ↦ forced_route d r forced h
  | inr free ↦
      let (part, e) = route_of_evidence d r free h in
      by_evidence-HasModeLegs d part d.source_received_at d.limit_context r e
]

-- What a limit order that stands at the venue may become: it stays whole, or it is split once its
-- working state is acknowledged and its departure is recent.
pub IsKept : RouteInput → LimitEntryContext → EntryRoute → Type 0
IsKept d c r =
    ((r.mode ≡ limit_only) × HasLegs d r limit_only)
    ⊎ ((r.mode ≡ near_limit_split_market_limit)
        × HasLegs d r near_limit_split_market_limit
        × (c.provider_acknowledged ≡ true)
        × (c.was_working ≡ true)
        × (is_recent c d.now ≡ true))
