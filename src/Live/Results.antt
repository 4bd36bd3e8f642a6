-- ===== src/Live/Results.antt =====
-- What the live lane makes of a request and of the venue's answers: client ids, records after a
-- read-back and results, of src/fatty_trader/exchanges/bitget/live.py.
use Prim.Native.Char.{code}
use Prim.Native.String.{◌++◌ as append}
use text.Mathlib.Text.{◌==◌}
use fatty_multi_exchange_tra.Prelude.{
  ℕ, zero, suc, String, Bool, true, false, not, ◌&&◌, ◌||◌, Option, none, some, List, [], ◌∷◌,
  if◌then◌else◌, leb,
}
use fatty_multi_exchange_tra.Prelude.Int.{ℤ, pos, negsuc, ltb_ℤ}
use fatty_multi_exchange_tra.Prelude.Texts.{show}
use fatty_multi_exchange_tra.Prelude.Raise.{
  Error, Result, ok, err, value_error, timeout_error, unknown_result_error,
}
use fatty_multi_exchange_tra.Decimal.{Decimal, lt}
use fatty_multi_exchange_tra.Domain.{long, short, Direction, Exchange}
use fatty_multi_exchange_tra.Domain.Models.{positive}
use fatty_multi_exchange_tra.Protection.Orders.{
  ProtectionPlan, ProtectionReport, ProtectionState, venue_protected,
}
use fatty_multi_exchange_tra.Live.Values.{Value, null, Fields, Runtime, get_first, to_decimal}
use fatty_multi_exchange_tra.Live.Fills.{
  LiveOrderStatus, Summary, summarize_fills, detail_filled, classify_live_order,
}
use fatty_multi_exchange_tra.Live.Record.{LiveIntentRecord}
use fatty_multi_exchange_tra.Live.Effects.{LiveEntryRequest}

-- `LiveEntryRequest.__post_init__`
unfoldable pub request_checks : LiveEntryRequest → Bool
request_checks r =
    (r.side == "BUY" || r.side == "SELL") && positive r.quantity && not (ltb_ℤ r.leverage (pos 1))

pub record LiveEntryResult : Type 0 where
  pub client_oid : String
  pub status : LiveOrderStatus
  pub filled_qty : Decimal
  pub avg_price : Option Decimal
  pub fee : Decimal
  pub provider_order_id : Option String
  pub provider_fill_ids : List String
  pub protection : Option ProtectionReport
  pub emergency_closed : Bool

unfoldable pub is_hex : ℕ → Bool
is_hex c = leb b'0' c && leb c b'9' || leb b'a' c && leb c b'f'

-- The text has as many hexadecimal digits; `$` lets a newline follow them.
unfoldable pub hex_digits : ℕ → String → Bool
unfolding is_hex
hex_digits zero s = s == "" || s == "\n"
hex_digits (suc n) String.[] = false
hex_digits (suc n) (String.◌∷◌ c s) = is_hex (code c) && hex_digits n s

-- `build_live_client_oid`, of the token that was given or drawn.
unfoldable pub build_live_client_oid : String → String → String → Result String
unfolding hex_digits
build_live_client_oid exchange symbol token =
    if hex_digits 16 token
    then ok (append "live-" (append exchange (append "-" (append symbol (append "-" token)))))
    else err value_error

-- `str(n)` of an integer
unfoldable pub show_ℤ : ℤ → String
show_ℤ (pos n) = show n
show_ℤ (negsuc n) = append "-" (show (suc n))

-- `uuid.uuid4().hex[:16]`, where no token is given.
unfoldable pub token_of : String → Option String → String
token_of drawn none = drawn
token_of drawn (some token) = token

-- `request.client_oid or build_live_client_oid(...)`
unfoldable pub oid_of : String → LiveEntryRequest → Option String → Result String
unfolding build_live_client_oid token_of
oid_of drawn r none = build_live_client_oid r.exchange r.symbol (token_of drawn r.oid_token)
oid_of drawn r (some oid) =
    if oid == ""
    then build_live_client_oid r.exchange r.symbol (token_of drawn r.oid_token)
    else ok oid

-- The text of a value that may be missing.
unfoldable pub id_text : Runtime → Value → Option String
id_text py null = none
id_text py v = some (py.str v)

-- `provider_order_id` of a read-back, which may omit it.
unfoldable pub or_kept : Option String → Option String → Option String
or_kept none old = old
or_kept (some id) old = some id

unfoldable pub state_of : LiveOrderStatus → String
state_of LiveOrderStatus.filled = "filled"
state_of LiveOrderStatus.partial = "acknowledged"
state_of LiveOrderStatus.accepted = "acknowledged"
state_of LiveOrderStatus.rejected = "rejected"
state_of LiveOrderStatus.unknown = "unknown"

unfoldable pub exceeds : Option Decimal → Decimal → Option Decimal
exceeds none q = none
exceeds (some d) q = if lt q d then some d else none

unfoldable pub average_of : Runtime → Fields → Option Decimal
average_of py detail = to_decimal py (get_first ("priceAvg" ∷ "avgPrice" ∷ []) detail null)

-- The quantity and the average price: the detail's, if it reports more than the fills do.
unfoldable pub filled_by : Runtime → Fields → Summary → Option Decimal → Decimal × Option Decimal
unfolding average_of
filled_by py detail sums none = (sums.quantity, sums.average)
filled_by py detail sums (some d) = (d, average_of py detail)

-- The record that `_persist_readback` writes.
unfoldable pub read_record : Runtime → LiveIntentRecord → Fields → List Fields → LiveIntentRecord
unfolding id_text or_kept state_of exceeds filled_by detail_filled classify_live_order
    summarize_fills
read_record py r detail fills =
    let sums = summarize_fills py fills in
    let filled = filled_by py detail sums (exceeds (detail_filled py detail) sums.quantity) in
    record r {
      provider_order_id =
          or_kept (id_text py (get_first ("orderId" ∷ "providerOrderId" ∷ []) detail null))
            r.provider_order_id;
      provider_fill_ids = sums.ids;
      provider_fills = fills;
      filled_qty = filled.0;
      avg_price = filled.1;
      fee = sums.fee;
      state = state_of (classify_live_order py detail fills);
    }

-- The result, before any protection.
unfoldable pub result_of : String → LiveOrderStatus → LiveIntentRecord → LiveEntryResult
result_of client_oid status r = record {
  client_oid = client_oid;
  status = status;
  filled_qty = r.filled_qty;
  avg_price = r.avg_price;
  fee = r.fee;
  provider_order_id = r.provider_order_id;
  provider_fill_ids = r.provider_fill_ids;
  protection = none;
  emergency_closed = false;
}

unfoldable pub close_side : String → String
close_side side = if side == "BUY" then "SELL" else "BUY"

unfoldable pub direction_of : String → Direction
direction_of side = if side == "BUY" then long else short

unfoldable pub plan_of : LiveEntryRequest → Decimal → ProtectionPlan
unfolding direction_of
plan_of r q = record {
  exchange = Exchange.bitget;
  symbol = r.symbol;
  direction = direction_of r.side;
  quantity = q;
  stop_loss = r.stop_loss;
  take_profits = r.take_profits;
}

unfoldable pub is_venue_protected : ProtectionState → Bool
is_venue_protected venue_protected = true
is_venue_protected _ = false

-- A fill that wants protection.
unfoldable pub needs_protection : LiveEntryResult → Bool
needs_protection r = positive r.filled_qty && is_executed r.status
  where
    is_executed : LiveOrderStatus → Bool
    is_executed LiveOrderStatus.filled = true
    is_executed LiveOrderStatus.partial = true
    is_executed _ = false

-- The two results of a call that nobody knows the outcome of.
unfoldable pub is_unknown : Error → Bool
is_unknown timeout_error = true
is_unknown unknown_result_error = true
is_unknown _ = false
