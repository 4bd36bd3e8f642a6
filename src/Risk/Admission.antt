-- ===== src/Risk/Admission.antt =====
-- `normalized_protection_prices` of src/fatty_trader/execution/bitget_admission.py: the stop and the
-- targets of an entry, at prices of the venue's tick.
pub mod Cleared
use fatty_multi_exchange_tra.Prelude.{Bool, true, false, not, ◌&&◌, ◌||◌, List, [], ◌∷◌, any, all}
use fatty_multi_exchange_tra.Prelude.Int.{pos, negsuc}
use fatty_multi_exchange_tra.Prelude.Raise.{Result, ok, err, value_error, raise_if, ◌>>=◌, ◌>>◌}
use fatty_multi_exchange_tra.Decimal.{Decimal, of_int, lt, eq, ◌-ᵈ◌, ◌*ᵈ◌}
use fatty_multi_exchange_tra.Domain.{Direction, long, short}
use fatty_multi_exchange_tra.Domain.Models.{positive}
use fatty_multi_exchange_tra.Risk.Sizing.{round_price_to_tick}

unfoldable pub round_all : List Decimal → Decimal → Result (List Decimal)
round_all [] tick = ok []
round_all (p ∷ ps) tick = do
  first ← round_price_to_tick p tick
  rest ← round_all ps tick
  ok (first ∷ rest)

unfoldable pub sign : Direction → Decimal
sign long = of_int 1
sign short = record { coef = negsuc 0; exp = pos 0 }

-- `(a - b) * sign < price_tick`
unfoldable pub too_close : Direction → Decimal → Decimal → Decimal → Bool
unfolding sign
too_close direction tick a b = lt ((a -ᵈ b) *ᵈ sign direction) tick

-- The checks of one rounded entry.
unfoldable pub clears : Direction → Decimal → Decimal → List Decimal → Decimal → Result (Unit {0})
unfolding too_close
clears direction tick stop targets entry = do
  raise_if (too_close direction tick entry stop) value_error
  raise_if (any (λ target. too_close direction tick target entry) targets) value_error

unfoldable pub separated : List Decimal → Bool
separated [] = true
separated (p ∷ ps) = not (any (eq p) ps) && separated ps

-- `not take_profits`
no_targets : List Decimal → Bool
no_targets [] = true
no_targets _ = false

-- The arguments of the call.
pub record PriceInput : Type 0 where
  pub direction : Direction
  pub entry : Decimal
  pub canonical_entry : Decimal
  pub stop_loss : Decimal
  pub take_profits : List Decimal
  pub price_tick : Decimal

invalid : PriceInput → Bool
unfolding no_targets
invalid p =
    no_targets p.take_profits
    || not
        (all positive (p.entry ∷ p.canonical_entry ∷ p.stop_loss ∷ p.price_tick ∷ p.take_profits))

unfoldable pub normalized_protection_prices : PriceInput → Result (Decimal × List Decimal)
unfolding invalid round_all clears separated
normalized_protection_prices p = do
  raise_if (invalid p) value_error
  entry ← round_price_to_tick p.entry p.price_tick
  canonical ← round_price_to_tick p.canonical_entry p.price_tick
  stop ← round_price_to_tick p.stop_loss p.price_tick
  targets ← round_all p.take_profits p.price_tick
  clears p.direction p.price_tick stop targets entry
  clears p.direction p.price_tick stop targets canonical
  raise_if (not (separated targets)) value_error
  ok (stop, targets)
