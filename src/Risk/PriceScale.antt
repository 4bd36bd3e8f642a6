-- ===== src/Risk/PriceScale.antt =====
-- src/fatty_trader/risk/price_scale.py: prices that a channel quotes in another power of ten. The
-- rounded logarithm is floating-point code of the standard library: here a parameter.
pub mod Alignment
use fatty_multi_exchange_tra.Prelude.{
  ℕ, suc, ◌^◌, Bool, true, false, ◌&&◌, ◌||◌, not, List, [], ◌∷◌, map, any, leb, Option, none, some,
  if◌then◌else◌,
}
use fatty_multi_exchange_tra.Prelude.Int.{ℤ, pos, negsuc}
use fatty_multi_exchange_tra.Decimal.{Decimal, dec, of_int, lt, le, ◌-ᵈ◌, ◌/ᵈ◌}
use fatty_multi_exchange_tra.Domain.{Direction, long, short}
use fatty_multi_exchange_tra.Domain.Models.{positive}

-- The prices of a signal, and the scale that was applied to them.
pub record Scaled : Type 0 where
  pub entry_price : Decimal
  pub stop_loss : Decimal
  pub take_profits : List Decimal
  pub scale : Decimal

pub record Prices : Type 0 where
  pub entry_price : Decimal
  pub stop_loss : Decimal
  pub take_profits : List Decimal

-- The answer where nothing is scaled.
pub unscaled : Prices → Scaled
unscaled p = record {
  entry_price = p.entry_price;
  stop_loss = p.stop_loss;
  take_profits = p.take_profits;
  scale = of_int 1;
}

-- `Decimal(10) ** k`
pub power_of_ten : ℤ → Decimal
power_of_ten (pos n) = of_int (10 ^ n)
power_of_ten (negsuc n) = dec 1 (suc n)

-- `k == 0 or abs(k) > 8`
pub out_of_range : ℤ → Bool
out_of_range (pos n) = not (leb 1 n && leb n 8)
out_of_range (negsuc n) = not (leb (suc n) 8)

-- `abs(a - b)`
distance : Decimal → Decimal → Decimal
distance a b = if lt a b then b -ᵈ a else a -ᵈ b

-- The geometry of the prices, by side: `dir_upper` other than LONG is a short.
pub geometry_holds : Direction → Scaled → Bool
geometry_holds long s =
    lt s.stop_loss s.entry_price && not (any (λ t. le t s.entry_price) s.take_profits)
geometry_holds short s =
    lt s.entry_price s.stop_loss && not (any (λ t. le s.entry_price t) s.take_profits)

pub scaled_by : Prices → Decimal → Scaled
scaled_by p scale = record {
  entry_price = p.entry_price /ᵈ scale;
  stop_loss = p.stop_loss /ᵈ scale;
  take_profits = map (λ t. t /ᵈ scale) p.take_profits;
  scale = scale;
}

pub too_far : Scaled → Decimal → Decimal → Bool
unfolding distance
too_far s market most = lt most (distance s.entry_price market /ᵈ market)

-- From the logarithm on.
pub align_at : Prices → Decimal → Direction → Decimal → ℤ → Scaled
unfolding unscaled power_of_ten out_of_range geometry_holds scaled_by too_far
align_at p market direction most k =
    let s = scaled_by p (power_of_ten k) in
    if out_of_range k
    then unscaled p
    else if too_far s market most
    then unscaled p
    else if geometry_holds direction s
    then s
    else unscaled p

-- `none` where the quotient is not positive as a float.
pub align_with : Prices → Decimal → Direction → Decimal → Option ℤ → Scaled
unfolding unscaled align_at
align_with p market direction most none = unscaled p
align_with p market direction most (some k) = align_at p market direction most k

-- `round(math.log10(ratio))` of the float of a quotient, where the float is positive.
module _ (rounded_log10 : Decimal → Option ℤ) where
  -- `align_price_scale`
  pub align_price_scale : Prices → Decimal → Direction → Decimal → Scaled
  unfolding align_with unscaled
  align_price_scale p market direction most =
      if not (positive p.entry_price) || not (positive market)
      then unscaled p
      else align_with p market direction most (rounded_log10 (p.entry_price /ᵈ market))
