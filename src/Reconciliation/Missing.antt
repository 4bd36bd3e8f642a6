-- ===== src/Reconciliation/Missing.antt =====
-- The classification of an order whose detail the venue does not have: `classify_missing_detail` of
-- src/fatty_trader/exchanges/bitget/reconciliation.py. The three reads are given by their answers.
pub mod Evidence
use text.Mathlib.Text.{◌==◌}
use fatty_multi_exchange_tra.Prelude.{
  String, Bool, true, false, not, ◌&&◌, ◌||◌, Option, none, some, List, [], ◌∷◌, if◌then◌else◌,
}
use fatty_multi_exchange_tra.Prelude.Raise.{Error, Result, ok, err, attribute_error, ◌>>=◌}
use fatty_multi_exchange_tra.Decimal.{Decimal, le, eq}
use fatty_multi_exchange_tra.Domain.Models.{zero_dec, positive}
use fatty_multi_exchange_tra.Live.Values.{
  Value, null, string, sequence, mapping, Items, empty, item, Fields, Runtime, get, get_first,
  to_decimal, truthy,
}
use fatty_multi_exchange_tra.Live.Fills.{Summary, LiveOrderStatus, normalize_fill, summarize_fills}
use fatty_multi_exchange_tra.Live.Record.{LiveIntentRecord}

pub record AmbiguousOrderResult : Type 0 where
  pub status : LiveOrderStatus
  pub filled_qty : Decimal
  pub avg_price : Option Decimal
  pub fee : Decimal
  pub provider_order_id : Option String
  pub provider_fill_ids : List String
  pub provider_fills : List Fields

-- `all(isinstance(row, dict) for row in rows)`
unfoldable pub all_mappings : Items → Bool
all_mappings empty = true
all_mappings (item (mapping m) rest) = all_mappings rest
all_mappings (item _ rest) = false

-- `not value.get(k)`
lacks : String → Fields → Bool
unfolding get_first truthy
lacks k m = not (truthy (get_first (k ∷ []) m null))

-- The rows of a page, if they are mappings.
page : Fields → Value → Items × Bool
unfolding lacks all_mappings
page m (sequence rows) = if all_mappings rows then (rows, lacks "endId" m) else (empty, false)
page m _ = (empty, false)

-- `_complete_fills`
unfoldable pub complete_fills : Value → Items × Bool
unfolding page all_mappings get_first
complete_fills (sequence rows) = (rows, all_mappings rows)
complete_fills (mapping m) = page m (get_first ("fillList" ∷ []) m null)
complete_fills _ = (empty, false)

-- `value == s`
is_text : String → Value → Bool
is_text s (string t) = t == s
is_text s _ = false

-- The rows of an answer, which may stand under one of two keys.
unfoldable pub unwrapped : String → String → Value → Value
unfolding get_first
unwrapped k j (mapping m) = get_first (k ∷ j ∷ []) m null
unwrapped k j v = v

-- The row's symbol, where the key may be missing, is the symbol.
row_matches : String → Fields → Bool
unfolding is_text get_first
row_matches symbol row = is_text symbol (get_first ("symbol" ∷ []) row (string symbol))

-- `abs(Decimal(str(raw))) > 0`; nothing where that raises. An infinite size counts as no number,
-- which is no flat position either.
nonzero : Runtime → Value → Option Bool
nonzero py v = elim (to_decimal py v) [ none ↦ none | some d ↦ some (not (eq d zero_dec)) ]

-- The first of the keys that is there; a missing size and a None are no evidence.
size_of : Fields → Value
unfolding get_first
size_of row = get_first ("total" ∷ "size" ∷ "quantity" ∷ []) row null

-- A row of the symbol that has a size ends the loop.
after_row : Option Bool → Option Bool → Option Bool
after_row none rest = none
after_row (some true) rest = some false
after_row (some false) rest = rest

flat_rows : Runtime → String → Items → Option Bool
unfolding row_matches nonzero size_of after_row
flat_rows py symbol empty = some true
flat_rows py symbol (item (mapping row) rows) =
    let rest = flat_rows py symbol rows in
    if row_matches symbol row then after_row (nonzero py (size_of row)) rest else rest
flat_rows py symbol (item _ rows) = none

flat_value : Runtime → String → Value → Option Bool
unfolding flat_rows
flat_value py symbol (sequence rows) = flat_rows py symbol rows
flat_value py symbol _ = none

-- `_flat_position`
unfoldable pub flat_position : Runtime → Value → String → Option Bool
unfolding flat_value unwrapped
flat_position py v symbol = flat_value py symbol (unwrapped "data" "positionList" v)

any_row : String → Items → Bool
unfolding row_matches
any_row symbol empty = false
any_row symbol (item (mapping row) rows) = row_matches symbol row || any_row symbol rows
any_row symbol (item _ rows) = any_row symbol rows

no_pending_value : String → Value → Option Bool
unfolding any_row all_mappings
no_pending_value symbol (sequence rows) =
    if all_mappings rows then some (not (any_row symbol rows)) else none
no_pending_value symbol _ = none

-- `_no_pending_orders`
unfoldable pub no_pending_orders : Value → String → Option Bool
unfolding no_pending_value unwrapped
no_pending_orders v symbol = no_pending_value symbol (unwrapped "entrustedList" "data" v)

-- What the three reads of the venue bring: nothing where one of them raised.
pub record Readbacks : Type 0 where
  pub fills : Items
  pub complete : Bool
  pub position : Value
  pub pending : Value

no_readbacks : Readbacks
no_readbacks = record { fills = empty; complete = false; position = null; pending = null }

readbacks_of : Items × Bool → Value → Value → Readbacks
readbacks_of (fills, complete) position pending = record {
  fills = fills;
  complete = complete;
  position = position;
  pending = pending;
}

-- `read_fills`, `read_position` and `read_pending_orders`, by their answers for the symbol.
pub record Reads : Type 0 where
  pub read_fills : Result Value
  pub read_position : Result Value
  pub read_pending_orders : Result Value

all_reads : Reads → Result Readbacks
unfolding readbacks_of complete_fills
all_reads reads = do
  fills ← reads.read_fills
  position ← reads.read_position
  pending ← reads.read_pending_orders
  ok (readbacks_of (complete_fills fills) position pending)

or_none : Result Readbacks → Readbacks
unfolding no_readbacks
or_none (ok r) = r
or_none (err e) = no_readbacks

unfoldable pub readbacks : Reads → Readbacks
unfolding all_reads or_none
readbacks reads = or_none (all_reads reads)

-- `x is not None and str(value) == x`
same_id : Runtime → Option String → Value → Bool
same_id py none v = false
same_id py (some id) v = py.str v == id

-- The fill is one of the intent's.
unfoldable pub belongs : Runtime → String → Option String → Fields → Bool
unfolding is_text same_id get_first
belongs py client_oid id fill =
    is_text client_oid (get_first ("clientOid" ∷ "client_oid" ∷ []) fill null)
    || same_id py id (get_first ("orderId" ∷ "order_id" ∷ []) fill null)

-- The intent's fills; a row that is no mapping has no `get`.
unfoldable pub matching : Runtime → String → Option String → Items → Result (List Fields)
unfolding belongs normalize_fill
matching py client_oid id empty = ok []
matching py client_oid id (item (mapping fill) rows) = do
  rest ← matching py client_oid id rows
  ok (if belongs py client_oid id fill then normalize_fill py fill ∷ rest else rest)
matching py client_oid id (item _ rows) = err attribute_error

is_true : Option Bool → Bool
is_true none = false
is_true (some b) = b

-- The status, by the completeness of the fills, whether the position is flat, whether no order is
-- pending, whether the intent is an entry's, whether the venue says that it knows no such order,
-- and the filled and requested quantities.
unfoldable pub missing_status :
    Bool → Bool → Bool → Bool → Bool → Decimal → Decimal → LiveOrderStatus
missing_status complete flat no_pending entry missing filled requested =
    let evidence = complete && (entry || flat && no_pending) in
    if evidence && le requested filled
    then LiveOrderStatus.filled
    else if evidence && positive filled
    then LiveOrderStatus.partial
    else if (complete && flat && no_pending || flat && no_pending && eq filled zero_dec) && missing
    then LiveOrderStatus.rejected
    else LiveOrderStatus.unknown

ambiguous_result : LiveOrderStatus → Option String → Summary → List Fields → AmbiguousOrderResult
ambiguous_result status id sums fills = record {
  status = status;
  filled_qty = sums.quantity;
  avg_price = sums.average;
  fee = sums.fee;
  provider_order_id = id;
  provider_fill_ids = sums.ids;
  provider_fills = fills;
}

classify_readbacks :
    Runtime
    → LiveIntentRecord
    → Option String
    → Bool
    → Readbacks
    → List Fields
    → AmbiguousOrderResult
unfolding missing_status flat_position no_pending_orders is_true ambiguous_result summarize_fills
classify_readbacks py intent id missing r fills =
    let sums = summarize_fills py fills in
    ambiguous_result
      (missing_status r.complete (is_true (flat_position py r.position intent.symbol))
        (is_true (no_pending_orders r.pending intent.symbol)) (intent.role == "ENTRY") missing
        sums.quantity intent.requested_qty)
      id sums fills

unfoldable pub classify_missing_detail :
    Runtime → LiveIntentRecord → Reads → Option String → Bool → Result AmbiguousOrderResult
unfolding classify_readbacks matching readbacks
classify_missing_detail py intent reads id missing = do
  fills ← matching py intent.client_oid id (readbacks reads).fills
  ok (classify_readbacks py intent id missing (readbacks reads) fills)
