-- ===== src/Domain/Models.antt =====
-- src/fatty_trader/domain/models.py: the values that signals, venues and risk settings carry, with
-- the checks that run when one is built. A failed check is pydantic's ValidationError, a ValueError.
use Prim.Native.Char.{code}
use fatty_multi_exchange_tra.Prelude.{
  ℕ, suc, String, Bool, true, ◌&&◌, ◌||◌, Option, none, some, List, [], ◌∷◌, false, ltb, leb, any,
  length, ◌==◌, not,
}
use fatty_multi_exchange_tra.Prelude.Raise.{Result, ok, value_error, raise_if, ◌>>◌}
use fatty_multi_exchange_tra.Decimal.{Decimal, of_int, lt, le, eq}
use text.Mathlib.Text.{◌==◌ as str_eq}
use fatty_multi_exchange_tra.Domain.{Exchange, Direction, long, short, MarginMode}

abbrev pub max_venue_leverage_ceiling : ℕ
max_venue_leverage_ceiling = 150

abbrev pub zero_dec : Decimal
zero_dec = of_int 0

-- `Field(gt=0)`
abbrev pub positive : Decimal → Bool
positive a = lt zero_dec a

-- `Field(ge=0)`
abbrev pub nonnegative : Decimal → Bool
nonnegative a = le zero_dec a

-- `len` of a text, in characters
text_length : String → ℕ
text_length String.[] = 0
text_length (String.◌∷◌ c s) = suc (text_length s)

is_token_char : ℕ → Bool
is_token_char c = leb b'A' c && leb c b'Z' || leb b'0' c && leb c b'9'

all_token_chars : String → Bool
unfolding is_token_char
all_token_chars String.[] = true
all_token_chars (String.◌∷◌ c s) = is_token_char (code c) && all_token_chars s

-- `^[A-Z0-9]{1,20}$`
is_pair_token : String → Bool
unfolding text_length all_token_chars
is_pair_token s = leb 1 (text_length s) && leb (text_length s) 20 && all_token_chars s

pub record CanonicalSignal : Type 0 where
  pub source_message_id : ℕ
  pub source_revision : String
  pub pair_token : String
  pub direction : Direction
  pub entry_price : Decimal
  pub stop_loss : Decimal
  pub take_profits : List Decimal

field_checks : CanonicalSignal → Bool
unfolding is_pair_token
field_checks s =
    ltb 0 s.source_message_id
    && text_length s.source_revision == 64
    && is_pair_token s.pair_token
    && positive s.entry_price
    && positive s.stop_loss
    && leb (length s.take_profits) 5

wrong_side : Direction → CanonicalSignal → Bool
wrong_side long s = le s.entry_price s.stop_loss || any (λ t. le t s.entry_price) s.take_profits
wrong_side short s = le s.stop_loss s.entry_price || any (λ t. le s.entry_price t) s.take_profits

-- `CanonicalSignal(...)`: the fields' checks, then `validate_geometry`. Its three rounds of tests
-- raise the same exception, so their order does not show.
unfoldable pub canonical_signal : CanonicalSignal → Result CanonicalSignal
unfolding field_checks wrong_side
canonical_signal s = do
  raise_if (not (field_checks s)) value_error
  raise_if (any (λ t. le t zero_dec) s.take_profits) value_error
  raise_if (wrong_side s.direction s) value_error
  ok s

pub record InstrumentSpec : Type 0 where
  pub exchange : Exchange
  pub symbol : String
  pub qty_step : Decimal
  pub min_qty : Decimal
  pub min_notional : Decimal
  pub max_leverage : ℕ
  pub contract_multiplier : Decimal

pub record VenueRiskConfig : Type 0 where
  pub exchange : Exchange
  pub base_margin_usdt : Decimal
  pub default_leverage : ℕ
  pub max_leverage : ℕ
  pub max_auto_margin_usdt : Decimal
  pub free_margin_usdt : Decimal
  pub free_margin_headroom_pct : Decimal
  pub max_position_notional_usdt : Decimal
  pub margin_mode : MarginMode

pub record SizingPlan : Type 0 where
  pub effective_leverage : ℕ
  pub effective_margin_usdt : Decimal
  pub notional_usdt : Decimal
  pub quantity : Decimal
  pub required_min_notional_usdt : Decimal

-- The three literal fields (product type, margin coin, margin mode) have one value each.
pub record BitgetLiveRiskConfig : Type 0 where
  pub min_leverage : ℕ
  pub max_leverage : ℕ
  pub allocation_pct : Decimal
  pub max_normal_positions : ℕ
  pub liquidation_buffer : Decimal
  pub minimum_liquidation_gap_pct : Decimal
  pub minimum_liquidation_ticks : ℕ
  pub latency_slippage_allowance : Decimal
  pub max_margin_per_trade_usdt : Option Decimal

optional_positive : Option Decimal → Bool
optional_positive none = true
optional_positive (some a) = positive a

-- A fraction in (0, 1].
fraction : Decimal → Bool
fraction a = positive a && le a (of_int 1)

risk_fields : BitgetLiveRiskConfig → Bool
unfolding optional_positive fraction
risk_fields c =
    leb 5 c.min_leverage
    && leb c.min_leverage 20
    && c.max_leverage == 20
    && fraction c.allocation_pct
    && ltb 0 c.max_normal_positions
    && fraction c.liquidation_buffer
    && nonnegative c.minimum_liquidation_gap_pct
    && le c.minimum_liquidation_gap_pct (of_int 1)
    && nonnegative c.latency_slippage_allowance
    && optional_positive c.max_margin_per_trade_usdt

-- `BitgetLiveRiskConfig(...)`: the fields' checks, then `validate_leverage_range`.
unfoldable pub live_risk_config : BitgetLiveRiskConfig → Result BitgetLiveRiskConfig
unfolding risk_fields
live_risk_config c = do
  raise_if (not (risk_fields c)) value_error
  raise_if (ltb c.max_leverage c.min_leverage) value_error
  raise_if (not (c.max_leverage == 20)) value_error
  raise_if (ltb c.min_leverage 5) value_error
  ok c

same_prices : List Decimal → List Decimal → Bool
same_prices [] [] = true
same_prices (a ∷ as') (b ∷ bs) = eq a b && same_prices as' bs
same_prices _ _ = false

same_direction : Direction → Direction → Bool
same_direction long long = true
same_direction short short = true
same_direction _ _ = false

-- `a == b` on signals: field by field, prices by their value.
pub same_signal : CanonicalSignal → CanonicalSignal → Bool
unfolding same_prices same_direction
same_signal a b =
    a.source_message_id == b.source_message_id
    && str_eq a.source_revision b.source_revision
    && str_eq a.pair_token b.pair_token
    && same_direction a.direction b.direction
    && eq a.entry_price b.entry_price
    && eq a.stop_loss b.stop_loss
    && same_prices a.take_profits b.take_profits
