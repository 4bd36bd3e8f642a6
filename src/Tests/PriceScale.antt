-- ===== src/Tests/PriceScale.antt =====
-- Prices quoted in units of a hundred, at a market price of 0.00000518.
use fatty_multi_exchange_tra.Prelude.{Option, some, [], ◌∷◌}
use fatty_multi_exchange_tra.Prelude.Int.{ℤ, pos}
use fatty_multi_exchange_tra.Decimal.{Decimal, dec}
use fatty_multi_exchange_tra.Domain.{long}
use fatty_multi_exchange_tra.Risk.PriceScale.{Prices, align_price_scale}
use fatty_multi_exchange_tra.Risk.PriceScale.Alignment.{IsAligned, align_price_scale-IsAligned}

abbrev pepe : Prices
pepe = record { entry_price = dec 502 6; stop_loss = dec 4902 7; take_profits = dec 52 5 ∷ [] }

abbrev two : Decimal → Option ℤ
two ratio = some (pos 2)

align_price_scale-IsAligned_example :
    IsAligned pepe
      (dec 518 8)
      long
      (dec 35 2)
      (some (pos 2))
      (align_price_scale two pepe (dec 518 8) long (dec 35 2))
align_price_scale-IsAligned_example =
    align_price_scale-IsAligned two pepe (dec 518 8) long (dec 35 2)
