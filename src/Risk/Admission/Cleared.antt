-- ===== src/Risk/Admission/Cleared.antt =====
-- The distances that the normalized prices keep.
use fatty_multi_exchange_tra.Prelude.{
  ◌≡◌, subst, true, false, not, List, [], ◌∷◌, any-All, All, arith,
}
use fatty_multi_exchange_tra.Prelude.Int.{pos, negsuc}
use fatty_multi_exchange_tra.Prelude.Raise.{ok, >>=-eq-ok, raise_if-eq-ok, ok_injective}
use fatty_multi_exchange_tra.Decimal.{Decimal, of_int, lt, eq, round_half_up, ◌-ᵈ◌, ◌*ᵈ◌, ◌/ᵈ◌}
use fatty_multi_exchange_tra.Domain.{Direction, long, short}
use fatty_multi_exchange_tra.Domain.Models.{positive}
use fatty_multi_exchange_tra.Risk.Sizing.{round_price_to_tick}
use fatty_multi_exchange_tra.Risk.Admission.{
  PriceInput, round_all, too_close, clears, separated, invalid, normalized_protection_prices,
}

-- The price is a positive multiple of the tick: the nearest one, halves upwards.
abbrev pub IsRounded : Decimal → Decimal → Decimal → Type 0
IsRounded tick p q = (q ≡ round_half_up (p /ᵈ tick) *ᵈ tick) × (positive q ≡ true)

abbrev pub AreRounded : Decimal → List Decimal → List Decimal → Type 0
AreRounded tick [] [] = Unit {0}
AreRounded tick [] (q ∷ qs) = ⊥
AreRounded tick (p ∷ ps) [] = ⊥
AreRounded tick (p ∷ ps) (q ∷ qs) = IsRounded tick p q × AreRounded tick ps qs

-- The first price is a tick or more beyond the second one: above it for a long, below it for a
-- short.
abbrev pub IsBeyond : Direction → Decimal → Decimal → Decimal → Type 0
IsBeyond long tick a b = lt ((a -ᵈ b) *ᵈ of_int 1) tick ≡ false
IsBeyond short tick a b = lt ((a -ᵈ b) *ᵈ record { coef = negsuc 0; exp = pos 0 }) tick ≡ false

-- The entry is a tick or more beyond the stop, and every target a tick or more beyond the entry.
abbrev pub IsClear : Direction → Decimal → Decimal → List Decimal → Decimal → Type 0
IsClear direction tick stop targets entry =
    IsBeyond direction tick entry stop
    × All (λ target. IsBeyond direction tick target entry) targets

-- No two of the prices are equal.
abbrev pub AreDistinct : List Decimal → Type 0
AreDistinct [] = Unit {0}
AreDistinct (p ∷ ps) = All (λ q. eq p q ≡ false) ps × AreDistinct ps

round_price_to_tick-IsRounded :
    (p tick q : Decimal) → round_price_to_tick p tick ≡ ok q → IsRounded tick p q
unfolding round_price_to_tick
round_price_to_tick-IsRounded p tick q h = ground arith

round_all-AreRounded :
    (ps : List Decimal) (tick : Decimal) (qs : List Decimal)
    → round_all ps tick ≡ ok qs
    → AreRounded tick ps qs
unfolding round_all
round_all-AreRounded [] tick qs h = subst (AreRounded tick []) (ok_injective h) tt
round_all-AreRounded (p ∷ ps) tick qs h =
    let (first, f, h1) = >>=-eq-ok (round_price_to_tick p tick) _ h in
    let (rest, r, h2) = >>=-eq-ok (round_all ps tick) _ h1 in
    subst (AreRounded tick (p ∷ ps)) (ok_injective h2)
      (round_price_to_tick-IsRounded p tick first f, round_all-AreRounded ps tick rest r)

clears-IsClear :
    (direction : Direction) (tick stop entry : Decimal) (targets : List Decimal)
    → clears direction tick stop targets entry ≡ ok tt
    → IsClear direction tick stop targets entry
unfolding clears too_close
clears-IsClear long tick stop entry targets h =
    let (behind, h1) = raise_if-eq-ok (too_close long tick entry stop) _ _ h in
    (behind, any-All (λ target. too_close long tick target entry) targets (ground arith))
clears-IsClear short tick stop entry targets h =
    let (behind, h1) = raise_if-eq-ok (too_close short tick entry stop) _ _ h in
    (behind, any-All (λ target. too_close short tick target entry) targets (ground arith))

separated-AreDistinct : (ps : List Decimal) → separated ps ≡ true → AreDistinct ps
unfolding separated
separated-AreDistinct [] h = tt
separated-AreDistinct (p ∷ ps) h =
    (any-All (eq p) ps (ground arith), separated-AreDistinct ps (ground arith))

-- Rounded prices that keep their distance from both rounded entries.
abbrev pub IsNormalized : PriceInput → Decimal × List Decimal → Type 0
IsNormalized p (stop, targets) =
    (entry : Decimal) × (canonical : Decimal) × IsRounded p.price_tick p.entry entry
    × IsRounded p.price_tick p.canonical_entry canonical
    × IsRounded p.price_tick p.stop_loss stop
    × AreRounded p.price_tick p.take_profits targets
    × IsClear p.direction p.price_tick stop targets entry
    × IsClear p.direction p.price_tick stop targets canonical
    × AreDistinct targets

-- Where normalized protection prices are returned, they are the given ones rounded to the nearest
-- positive multiple of the tick, one for one; the stop is at least one tick behind, and every target
-- at least one tick ahead of, both the entry and the canonical entry rounded in the same way, by the
-- side of the trade; and no two targets are equal.
pub normalized_protection_prices-IsNormalized :
    (p : PriceInput) (prices : Decimal × List Decimal)
    → normalized_protection_prices p ≡ ok prices
    → IsNormalized p prices
unfolding normalized_protection_prices
normalized_protection_prices-IsNormalized p prices returned =
    let tick = p.price_tick in
    let (_, h0) = raise_if-eq-ok (invalid p) _ _ returned in
    let (entry, e, h1) = >>=-eq-ok (round_price_to_tick p.entry tick) _ h0 in
    let (canonical, c, h2) = >>=-eq-ok (round_price_to_tick p.canonical_entry tick) _ h1 in
    let (stop, s, h3) = >>=-eq-ok (round_price_to_tick p.stop_loss tick) _ h2 in
    let (targets, t, h4) = >>=-eq-ok (round_all p.take_profits tick) _ h3 in
    let (_, first, h5) = >>=-eq-ok (clears p.direction tick stop targets entry) _ h4 in
    let (_, second, h6) = >>=-eq-ok (clears p.direction tick stop targets canonical) _ h5 in
    let (apart, h7) = raise_if-eq-ok (not (separated targets)) _ _ h6 in
    subst (IsNormalized p) (ok_injective h7) (
      entry,
      canonical,
      round_price_to_tick-IsRounded p.entry tick entry e,
      round_price_to_tick-IsRounded p.canonical_entry tick canonical c,
      round_price_to_tick-IsRounded p.stop_loss tick stop s,
      round_all-AreRounded p.take_profits tick targets t,
      clears-IsClear p.direction tick stop entry targets first,
      clears-IsClear p.direction tick stop canonical targets second,
      separated-AreDistinct targets (ground arith),
    )
