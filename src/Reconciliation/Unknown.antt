-- ===== src/Reconciliation/Unknown.antt =====
-- The refresh of an intent whose outcome is unknown: `reconcile_unknown_intent` of
-- src/fatty_trader/exchanges/bitget/reconciliation.py.
pub mod Evidence
use text.Mathlib.Text.{◌==◌}
use fatty_multi_exchange_tra.Prelude.{
  String, Bool, true, false, not, ◌&&◌, ◌||◌, Option, none, some, List, [], ◌∷◌, if◌then◌else◌,
}
use fatty_multi_exchange_tra.Prelude.Texts.{contains}
use fatty_multi_exchange_tra.Prelude.Raise.{Error, Result, ok, err, value_error, api_error, ◌>>=◌}
use fatty_multi_exchange_tra.Decimal.{Decimal, le}
use fatty_multi_exchange_tra.Domain.Models.{zero_dec}
use fatty_multi_exchange_tra.Live.Values.{
  Value, null, sequence, mapping, Items, empty, Fields, end, field, Runtime, get_first,
}
use fatty_multi_exchange_tra.Live.Fills.{
  Summary, LiveOrderStatus, summarize_fills, classify_live_order,
}
use fatty_multi_exchange_tra.Live.Record.{LiveIntentRecord}
use fatty_multi_exchange_tra.Live.Results.{id_text, or_kept}
use fatty_multi_exchange_tra.Reconciliation.Missing.{
  AmbiguousOrderResult, Reads, all_mappings, matching, classify_missing_detail,
}

-- What the read of the order's detail brings: a value, an error of the venue's interface with its
-- code and text, or another exception.
pub data DetailRead : Type 0 where
  answered : Value → DetailRead
  refused : String → String → DetailRead
  failed : Error → DetailRead

state_of : LiveOrderStatus → String
state_of LiveOrderStatus.accepted = "acknowledged"
state_of LiveOrderStatus.partial = "partially_filled"
state_of LiveOrderStatus.filled = "filled"
state_of LiveOrderStatus.rejected = "rejected"
state_of LiveOrderStatus.unknown = "unknown"

-- The status names of an outcome without a detail; it is never ACCEPTED.
outcome_record : LiveIntentRecord → AmbiguousOrderResult → LiveIntentRecord
unfolding state_of or_kept
outcome_record intent o = record intent {
  filled_qty = o.filled_qty;
  avg_price = o.avg_price;
  fee = o.fee;
  provider_fill_ids = o.provider_fill_ids;
  provider_fills = o.provider_fills;
  provider_order_id = or_old o.provider_order_id intent.provider_order_id;
  state = state_of o.status;
}
  where
    -- `new or old`
    or_old : Option String → Option String → Option String
    or_old none old = old
    or_old (some id) old = if id == "" then old else some id

-- A venue without any detail of the order.
unfoldable pub without_detail :
    Runtime → LiveIntentRecord → Reads → Option String → Bool → Result LiveIntentRecord
unfolding classify_missing_detail outcome_record or_kept
without_detail py intent reads id missing = do
  o ← classify_missing_detail py intent reads (or_kept id intent.provider_order_id) missing
  ok (outcome_record intent o)

-- The rows of the fills: a mapping without a list has none.
fill_rows : Value → Value
unfolding get_first
fill_rows (mapping m) = get_first ("fillList" ∷ []) m (sequence empty)
fill_rows v = v

valid_rows : Value → Result Items
unfolding all_mappings
valid_rows (sequence rows) = if all_mappings rows then ok rows else err value_error
valid_rows _ = err value_error

-- FILLED without a fill is no evidence.
unfoldable pub downgraded : LiveOrderStatus → Decimal → LiveOrderStatus
downgraded LiveOrderStatus.filled q =
    if le q zero_dec then LiveOrderStatus.unknown else LiveOrderStatus.filled
downgraded s q = s

unfoldable pub detail_status : Runtime → Fields → List Fields → LiveOrderStatus
unfolding downgraded classify_live_order summarize_fills
detail_status py detail fills =
    downgraded (classify_live_order py detail fills) (summarize_fills py fills).quantity

detail_record : Runtime → LiveIntentRecord → Option String → Fields → List Fields → LiveIntentRecord
unfolding detail_status state_of summarize_fills
detail_record py intent id detail fills =
    let sums = summarize_fills py fills in
    record intent {
      provider_order_id = id;
      filled_qty = sums.quantity;
      avg_price = sums.average;
      fee = sums.fee;
      provider_fill_ids = sums.ids;
      provider_fills = fills;
      state = state_of (detail_status py detail fills);
    }

unfoldable pub with_detail :
    Runtime → LiveIntentRecord → Reads → Option String → Fields → Result LiveIntentRecord
unfolding fill_rows valid_rows matching detail_record
with_detail py intent reads id detail = do
  answer ← reads.read_fills
  rows ← valid_rows (fill_rows answer)
  fills ← matching py intent.client_oid id rows
  ok (detail_record py intent id detail fills)

order_id_of : Runtime → Fields → Option String
unfolding id_text get_first
order_id_of py detail = id_text py (get_first ("orderId" ∷ "providerOrderId" ∷ []) detail null)

unfoldable pub by_detail :
    Runtime → LiveIntentRecord → Reads → Fields → Bool → Result LiveIntentRecord
unfolding without_detail with_detail order_id_of or_kept
by_detail py intent reads end missing = without_detail py intent reads none missing
by_detail py intent reads (field k v rest) missing =
    with_detail py intent reads (or_kept (order_id_of py (field k v rest)) intent.provider_order_id)
      (field k v rest)

-- The venue says that it has no such order.
unfoldable pub says_not_found : Runtime → String → String → Bool
unfolding contains
says_not_found py code text = code == "40109" || contains "cannot be found" (py.lower text)

unfoldable pub reconcile_unknown_intent :
    Runtime → LiveIntentRecord → DetailRead → Reads → Result LiveIntentRecord
unfolding by_detail says_not_found
reconcile_unknown_intent py intent (answered (mapping m)) reads = by_detail py intent reads m false
reconcile_unknown_intent py intent (answered _) reads = err value_error
reconcile_unknown_intent py intent (refused code message) reads =
    if says_not_found py code message then by_detail py intent reads end true else err api_error
reconcile_unknown_intent py intent (failed e) reads = err e
