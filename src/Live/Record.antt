-- ===== src/Live/Record.antt =====
-- `LiveIntentRecord` of src/fatty_trader/exchanges/bitget/live.py, with the checks that run when one
-- is built. Identifiers are texts; prices are finite, as `Decimal` holds no other.
use text.Mathlib.Text.{◌==◌}
use fatty_multi_exchange_tra.Prelude.{
  String, Bool, true, false, not, ◌&&◌, ◌||◌, Option, none, some, List, [], is_some, all,
  if◌then◌else◌,
}
use fatty_multi_exchange_tra.Prelude.Int.{ℤ, pos, ltb_ℤ}
use fatty_multi_exchange_tra.Prelude.Raise.{Result, ok, value_error, raise_if, ◌>>◌}
use fatty_multi_exchange_tra.Decimal.{Decimal}
use fatty_multi_exchange_tra.Domain.Models.{zero_dec, positive}
use fatty_multi_exchange_tra.Live.Values.{Fields}

pub record LiveIntentRecord : Type 0 where
  pub exchange : String
  pub client_oid : String
  pub symbol : String
  pub side : String
  pub role : String
  pub state : String
  pub requested_qty : Decimal
  pub filled_qty : Decimal
  pub avg_price : Option Decimal
  pub fee : Decimal
  pub provider_order_id : Option String
  pub provider_fill_ids : List String
  pub provider_fills : List Fields
  pub planned_leverage : Option ℤ
  pub planned_margin_usdt : Option Decimal
  pub planned_notional_usdt : Option Decimal
  pub margin_mode : Option String
  pub balance_snapshot_id : Option String
  pub margin_reservation_id : Option String
  pub planned_stop_loss : Option Decimal
  pub planned_take_profits : Option (List Decimal)
  pub dispatch_id : Option String
  pub entry_leg : Option String
  pub order_type : String
  pub limit_price : Option Decimal
  pub cancel_requested_by : Option String
  pub provider_terminal : Bool
  pub cancel_post_claimed : Bool
  pub active_stop_loss_price : Option Decimal
  pub stop_mutation_root_oid : Option String
  pub stop_mutation_take_profit_id : Option String
  pub protection_root_oid : Option String
  pub active_take_profit_price : Option Decimal

-- A record with its defaults.
abbrev pub new_record : String → String → String → String → Decimal → LiveIntentRecord
new_record exchange client_oid symbol side quantity = record {
  exchange = exchange;
  client_oid = client_oid;
  symbol = symbol;
  side = side;
  role = "ENTRY";
  state = "requested";
  requested_qty = quantity;
  filled_qty = zero_dec;
  avg_price = none;
  fee = zero_dec;
  provider_order_id = none;
  provider_fill_ids = [];
  provider_fills = [];
  planned_leverage = none;
  planned_margin_usdt = none;
  planned_notional_usdt = none;
  margin_mode = none;
  balance_snapshot_id = none;
  margin_reservation_id = none;
  planned_stop_loss = none;
  planned_take_profits = none;
  dispatch_id = none;
  entry_leg = none;
  order_type = "market";
  limit_price = none;
  cancel_requested_by = none;
  provider_terminal = false;
  cancel_post_claimed = false;
  active_stop_loss_price = none;
  stop_mutation_root_oid = none;
  stop_mutation_take_profit_id = none;
  protection_root_oid = none;
  active_take_profit_price = none;
}

module _ (upper : String → String) where
  some_evidence : LiveIntentRecord → Bool
  some_evidence r =
      is_some r.planned_leverage
      || is_some r.planned_margin_usdt
      || is_some r.margin_mode
      || is_some r.balance_snapshot_id
      || is_some r.margin_reservation_id

  all_evidence : LiveIntentRecord → Bool
  all_evidence r =
      is_some r.planned_leverage
      && is_some r.planned_margin_usdt
      && is_some r.margin_mode
      && is_some r.balance_snapshot_id
      && is_some r.margin_reservation_id

  bad_leverage : Option ℤ → Bool
  bad_leverage none = false
  bad_leverage (some n) = ltb_ℤ n (pos 1)

  bad_margin : Option Decimal → Bool
  bad_margin none = false
  bad_margin (some d) = not (positive d)

  bad_mode : Option String → Bool
  bad_mode none = false
  bad_mode (some mode) = not (upper mode == "ISOLATED")

  bad_plan : Option Decimal → Option (List Decimal) → Bool
  bad_plan none _ = false
  bad_plan (some stop) none = true
  bad_plan (some stop) (some []) = true
  bad_plan (some stop) (some targets) = not (positive stop && all positive targets)

  half_plan : Option Decimal → Option (List Decimal) → Bool
  half_plan none none = false
  half_plan (some stop) (some targets) = false
  half_plan _ _ = true

  bad_limit : Option Decimal → Bool
  bad_limit none = true
  bad_limit (some d) = not (positive d)

  -- `LiveIntentRecord.__post_init__`
  entry_checks : LiveIntentRecord → Result LiveIntentRecord
  unfolding some_evidence all_evidence bad_leverage bad_margin bad_mode bad_plan half_plan bad_limit
  entry_checks r = do
    raise_if (some_evidence r && not (all_evidence r)) value_error
    raise_if (bad_leverage r.planned_leverage) value_error
    raise_if (bad_margin r.planned_margin_usdt) value_error
    raise_if (bad_mode r.margin_mode) value_error
    raise_if (half_plan r.planned_stop_loss r.planned_take_profits) value_error
    raise_if (bad_plan r.planned_stop_loss r.planned_take_profits) value_error
    raise_if (not (r.order_type == "market" || r.order_type == "limit")) value_error
    raise_if (r.order_type == "limit" && bad_limit r.limit_price) value_error
    ok r

  unfoldable pub checked_record : LiveIntentRecord → Result LiveIntentRecord
  unfolding entry_checks
  checked_record r = if r.role == "ENTRY" then entry_checks r else ok r
