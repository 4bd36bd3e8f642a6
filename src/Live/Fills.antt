-- ===== src/Live/Fills.antt =====
-- Fills and order details as the venue reports them: `normalize_fill`, `summarize_fills` and
-- `classify_live_order` of src/fatty_trader/exchanges/bitget/live.py.
use text.Mathlib.Text.{◌==◌}
use fatty_multi_exchange_tra.Prelude.{
  String, Bool, true, false, ◌&&◌, ◌||◌, Option, none, some, List, [], ◌∷◌, ◌++◌, any,
  if◌then◌else◌,
}
use fatty_multi_exchange_tra.Decimal.{Decimal, le, max, ◌+ᵈ◌, ◌*ᵈ◌, ◌/ᵈ◌}
use fatty_multi_exchange_tra.Domain.Models.{zero_dec, positive}
use fatty_multi_exchange_tra.Live.Values.{
  Value, null, number, string, sequence, mapping, Items, empty, item, Fields, Runtime, get,
  get_first, set, to_decimal, truthy, or_zero, abs,
}

-- The entries of a list that are mappings.
mappings : Items → List Fields
mappings empty = []
mappings (item (mapping m) rest) = m ∷ mappings rest
mappings (item _ rest) = mappings rest

-- `feeDetail`, where its text is JSON: parsed, or nothing.
parsed_detail : Runtime → Option Value → Option Value
parsed_detail py (some (string s)) = py.loads s
parsed_detail py v = v

details_of : Option Value → List Fields
unfolding mappings
details_of (some (mapping m)) = m ∷ []
details_of (some (sequence xs)) = mappings xs
details_of _ = []

fee_of : Runtime → List String → Fields → Decimal
fee_of py keys m = abs (or_zero (to_decimal py (get_first keys m (string "0"))))

sum_fees : Runtime → Decimal → List Fields → Decimal
unfolding fee_of
sum_fees py total [] = total
sum_fees py total (m ∷ ms) =
    sum_fees py (total +ᵈ fee_of py ("totalFee" ∷ "fee" ∷ "feeAmount" ∷ []) m) ms

coin_of : Fields → Value
coin_of m = get_first ("feeCoin" ∷ "feeCcy" ∷ "feeCurrency" ∷ []) m null

-- The first coin that is truthy.
fee_coin : List Fields → Option Value
unfolding coin_of
fee_coin [] = none
fee_coin (m ∷ ms) = if truthy (coin_of m) then some (coin_of m) else fee_coin ms

with_coin : Runtime → Option Value → Fields → Fields
with_coin py none fill = fill
with_coin py (some coin) fill = set "feeCcy" (string (py.str coin)) fill

normalize_by : Runtime → Fields → List Fields → Fields
unfolding fee_of sum_fees fee_coin with_coin
normalize_by py fill [] =
    set "fee" (number (fee_of py ("fee" ∷ "fillFee" ∷ "feeAmount" ∷ []) fill)) fill
normalize_by py fill details =
    with_coin py (fee_coin details) (set "fee" (number (sum_fees py zero_dec details)) fill)

unfoldable pub normalize_fill : Runtime → Fields → Fields
unfolding normalize_by parsed_detail details_of get
normalize_fill py fill = normalize_by py fill (details_of (parsed_detail py (get "feeDetail" fill)))

-- The fill's id, unless the key is missing or its value is None.
present : Value → Option Value
present null = none
present v = some v

unfoldable pub fill_id : Fields → Option Value
unfolding present
fill_id fill = present (get_first ("fillId" ∷ "tradeId" ∷ "id" ∷ []) fill null)

-- The running sums of the loop of `summarize_fills`.
pub record Totals : Type 0 where
  pub quantity : Decimal
  pub notional : Decimal
  pub fee : Decimal
  pub ids : List String

-- `if raw_id is not None and str(raw_id) not in ids: ids.append(str(raw_id))`
unfoldable pub add_id : Runtime → Option Value → List String → List String
add_id py none ids = ids
add_id py (some v) ids =
    if any (λ known. known == py.str v) ids then ids else ids ++ (py.str v ∷ [])

-- The quantity and the price of a fill that counts.
counted : Option Decimal → Option Decimal → Option (Decimal × Decimal)
counted (some q) (some p) = if positive q && positive p then some (q, p) else none
counted _ _ = none

add_counted : Runtime → Fields → Option (Decimal × Decimal) → Totals → Totals
unfolding add_id fill_id
add_counted py fill none t = t
add_counted py fill (some (q, p)) t = record {
  quantity = t.quantity +ᵈ q;
  notional = t.notional +ᵈ (q *ᵈ p);
  fee = t.fee +ᵈ abs (or_zero (to_decimal py (get_first ("fee" ∷ []) fill (number zero_dec))));
  ids = add_id py (fill_id fill) t.ids;
}

quantity_keys : List String
quantity_keys = "quantity" ∷ "size" ∷ "fillQty" ∷ "baseVolume" ∷ []

price_keys : List String
price_keys = "price" ∷ "fillPrice" ∷ "priceAvg" ∷ []

add_fill : Runtime → Fields → Totals → Totals
unfolding add_counted counted quantity_keys price_keys
add_fill py fill t =
    add_counted py fill
      (counted (to_decimal py (get_first quantity_keys fill (number zero_dec)))
        (to_decimal py (get_first price_keys fill (number zero_dec))))
      t

unfoldable pub add_fills : Runtime → List Fields → Totals → Totals
unfolding add_fill normalize_fill
add_fills py [] t = t
add_fills py (raw ∷ fills) t = add_fills py fills (add_fill py (normalize_fill py raw) t)

pub record Summary : Type 0 where
  pub quantity : Decimal
  pub average : Option Decimal
  pub fee : Decimal
  pub ids : List String

abbrev pub no_totals : Totals
no_totals = record { quantity = zero_dec; notional = zero_dec; fee = zero_dec; ids = [] }

summary_of : Totals → Summary
summary_of t = record {
  quantity = t.quantity;
  average = if positive t.quantity then some (t.notional /ᵈ t.quantity) else none;
  fee = t.fee;
  ids = t.ids;
}

unfoldable pub summarize_fills : Runtime → List Fields → Summary
unfolding add_fills summary_of
summarize_fills py fills = summary_of (add_fills py fills no_totals)

pub data LiveOrderStatus : Type 0 where
  accepted partial filled rejected unknown : LiveOrderStatus

among : String → List String → Bool
among s names = any (λ name. name == s) names

is_filled_status : String → Bool
unfolding among
is_filled_status s = among s ("filled" ∷ "full-fill" ∷ "full_fill" ∷ [])

is_partial_status : String → Bool
unfolding among
is_partial_status s =
    among s ("partial" ∷ "partially_filled" ∷ "partial-fill" ∷ "partial_fill" ∷ [])

is_accepted_status : String → Bool
unfolding among
is_accepted_status s =
    among s ("new" ∷ "open" ∷ "accepted" ∷ "live" ∷ "pending" ∷ "submitting" ∷ [])

is_rejected_status : String → Bool
unfolding among
is_rejected_status s = among s ("rejected" ∷ "cancelled" ∷ "canceled" ∷ "failed" ∷ "expired" ∷ [])

raw_status : Runtime → Fields → String
raw_status py detail =
    py.lower (py.strip (py.str (get_first ("state" ∷ "status" ∷ []) detail (string ""))))

unfoldable pub detail_filled : Runtime → Fields → Option Decimal
detail_filled py detail =
    to_decimal py
      (get_first ("filledQty" ∷ "filledSize" ∷ "baseVolume" ∷ []) detail (number zero_dec))

-- `requested is not None and requested > 0 and filled_qty >= requested`
covers : Option Decimal → Decimal → Bool
covers none q = false
covers (some r) q = positive r && le r q

-- `detail_filled is not None and detail_filled > 0`
some_positive : Option Decimal → Bool
some_positive none = false
some_positive (some d) = positive d

is_empty : List Fields → Bool
is_empty [] = true
is_empty _ = false

-- The part of `classify_live_order` that decides, from the status text, the requested quantity, the
-- detail's filled quantity, the larger filled quantity and whether there are no fills.
unfoldable pub classify :
    String → Option Decimal → Option Decimal → Decimal → Bool → LiveOrderStatus
unfolding is_filled_status is_partial_status is_accepted_status is_rejected_status covers
    some_positive
classify s requested detailed q bare =
    if is_filled_status s
    then (if positive q || some_positive detailed then filled else unknown)
    else if is_partial_status s
    then (if covers requested q then filled else if positive q then partial else accepted)
    else if covers requested q
    then filled
    else if positive q
    then partial
    else if is_rejected_status s
    then rejected
    else if s == "" && bare
    then unknown
    else if is_accepted_status s || s == ""
    then accepted
    else unknown

unfoldable pub classify_live_order : Runtime → Fields → List Fields → LiveOrderStatus
unfolding classify raw_status detail_filled summarize_fills is_empty
classify_live_order py detail fills =
    let detailed = detail_filled py detail in
    classify (raw_status py detail)
      (to_decimal py (get_first ("requestedQty" ∷ "size" ∷ []) detail (number zero_dec))) detailed
      (max (summarize_fills py fills).quantity (or_zero detailed)) (is_empty fills)
