-- ===== src/Closes/Facts.antt =====
-- The facts of a venue's fill: `normalize_plan_close_fill` of
-- src/fatty_trader/exchanges/bitget/native_close.py and `normalize_provider_exit` of
-- src/fatty_trader/exchanges/bitget/provider_fill_reconciliation.py, with the helpers that both
-- files write in the same words. `upper` is Python's `str.upper`.
use text.Mathlib.Text.{◌==◌}
use fatty_multi_exchange_tra.Prelude.{
  String, Bool, true, false, ◌&&◌, ◌||◌, Option, none, some, List, [], ◌∷◌, is_some, if◌then◌else◌,
}
use fatty_multi_exchange_tra.Prelude.Texts.{starts_with, contains}
use fatty_multi_exchange_tra.Prelude.Raise.{
  Error, Result, ok, err, native_close_error, provider_fill_error, raise_if, ◌>>=◌, ◌>>◌,
}
use fatty_multi_exchange_tra.Decimal.{Decimal, le}
use fatty_multi_exchange_tra.Domain.Models.{zero_dec}
use fatty_multi_exchange_tra.Live.Values.{Value, null, Fields, Runtime, get, to_decimal, abs}
use fatty_multi_exchange_tra.Live.Fills.{normalize_fill}

-- The facts that a close binding needs.
pub record PlanCloseFill : Type 0 where
  pub symbol : String
  pub side : String
  pub provider_fill_id : String
  pub provider_order_id : String
  pub quantity : Decimal
  pub price : Decimal
  pub fee : Decimal
  pub realized_pnl : Decimal
  pub payload : Fields

pub record ProviderExitObservation : Type 0 where
  pub exchange : String
  pub symbol : String
  pub side : String
  pub source : String
  pub provider_order_id : Option String
  pub provider_fill_id : String
  pub quantity : Decimal
  pub price : Decimal
  pub fee : Decimal
  pub realized_pnl : Decimal
  pub payload : Fields

-- `raise e` where there is no value
needed : {A : Type 0} → Error → Option A → Result A
needed e none = err e
needed e (some a) = ok a

or_blank : Option String → String
or_blank none = ""
or_blank (some s) = s

fill_id_keys : List String
fill_id_keys = "fillId" ∷ "tradeId" ∷ "id" ∷ []

order_id_keys : List String
order_id_keys = "orderId" ∷ "ordId" ∷ "providerOrderId" ∷ []

symbol_keys : List String
symbol_keys = "symbol" ∷ "instId" ∷ []

quantity_keys : List String
quantity_keys = "quantity" ∷ "fillSz" ∷ "fillQty" ∷ "size" ∷ "baseVolume" ∷ []

price_keys : List String
price_keys = "price" ∷ "fillPx" ∷ "fillPrice" ∷ "priceAvg" ∷ []

fee_keys : List String
fee_keys = "fee" ∷ "fillFee" ∷ "feeAmount" ∷ []

pnl_keys : List String
pnl_keys = "realizedPnl" ∷ "profit" ∷ "totalProfits" ∷ "realizedProfit" ∷ []

-- The value of the first key that is there.
first_present : List String → Fields → Option Value
unfolding get
first_present [] m = none
first_present (k ∷ ks) m = elim (get k m) [ none ↦ first_present ks m | some v ↦ some v ]

module _ (py : Runtime) where
  -- A text that is not blank.
  stripped : Option Value → Option String
  stripped none = none
  stripped (some null) = none
  stripped (some v) = let s = py.strip (py.str v) in if s == "" then none else some s

  -- `_text`, of a payload that is a mapping
  unfoldable pub text_of : List String → Fields → Option String
  unfolding stripped get
  text_of [] m = none
  text_of (k ∷ ks) m = elim (stripped (get k m)) [ none ↦ text_of ks m | some s ↦ some s ]

  is_blank : Value → Bool
  is_blank null = true
  is_blank v = py.strip (py.str v) == ""

  usable : Error → Bool → Option Decimal → Result Decimal
  usable e positive none = err e
  usable e positive (some d) = if positive && le d zero_dec then err e else ok d

  decimal_from : Error → Bool → Option Value → Result Decimal
  unfolding is_blank usable to_decimal
  decimal_from e positive none = err e
  decimal_from e positive (some v) =
      if is_blank v then err e else usable e positive (to_decimal py v)

  -- `_decimal`
  decimal_of : Error → List String → Bool → Fields → Result Decimal
  unfolding decimal_from first_present
  decimal_of e keys positive m = decimal_from e positive (first_present keys m)

  -- The realised result, 0 where the venue reports none.
  pnl_from : Error → Fields → Option Value → Result Decimal
  unfolding decimal_from
  pnl_from e m none = ok zero_dec
  pnl_from e m (some v) = decimal_from e false (some v)

  pnl_of : Error → Fields → Result Decimal
  unfolding pnl_from first_present pnl_keys
  pnl_of e m = pnl_from e m (first_present pnl_keys m)

  trade_side : Error → String → Result String
  unfolding contains
  trade_side e side =
      if contains "sell" side then ok "SELL" else if contains "buy" side then ok "BUY" else err e

  module _ (upper : String → String) where
    -- `_side`
    side_of : Error → Fields → Result String
    unfolding text_of or_blank trade_side
    side_of e m =
        let raw = upper (or_blank (text_of ("side" ∷ "orderSide" ∷ []) m)) in
        if raw == "BUY" || raw == "SELL"
        then ok raw
        else trade_side e (py.lower (or_blank (text_of ("tradeSide" ∷ []) m)))

    -- `symbol.strip().upper()`
    unfoldable pub symbol_name : String → String
    symbol_name s = upper (py.strip s)

    close_facts : Fields → Result PlanCloseFill
    unfolding needed text_of fill_id_keys order_id_keys symbol_keys quantity_keys price_keys
        fee_keys decimal_of pnl_of side_of symbol_name abs
    close_facts m = do
      fill_id ← needed native_close_error (text_of fill_id_keys m)
      order_id ← needed native_close_error (text_of order_id_keys m)
      symbol ← needed native_close_error (text_of symbol_keys m)
      fee ← decimal_of native_close_error fee_keys false m
      pnl ← pnl_of native_close_error m
      side ← side_of native_close_error m
      quantity ← decimal_of native_close_error quantity_keys true m
      price ← decimal_of native_close_error price_keys true m
      ok (record {
        symbol = symbol_name symbol;
        side = side;
        provider_fill_id = fill_id;
        provider_order_id = order_id;
        quantity = abs quantity;
        price = price;
        fee = fee;
        realized_pnl = pnl;
        payload = m;
      })

    unfoldable pub normalize_plan_close_fill : Fields → Result PlanCloseFill
    unfolding close_facts normalize_fill
    normalize_plan_close_fill payload = close_facts (normalize_fill py payload)

    -- The venue's own liquidation, or another exit.
    exit_source : Fields → String
    unfolding text_of or_blank starts_with
    exit_source m =
        if upper (or_blank (text_of ("enterPointSource" ∷ "orderSource" ∷ []) m)) == "SYS"
          || starts_with "burst_" (py.lower (or_blank (text_of ("tradeSide" ∷ []) m)))
        then "SYSTEM_LIQUIDATION"
        else "PROVIDER_EXIT"

    exit_facts : String → Fields → Result ProviderExitObservation
    unfolding needed text_of fill_id_keys order_id_keys symbol_keys quantity_keys price_keys
        fee_keys decimal_of pnl_of side_of symbol_name exit_source abs
    exit_facts exchange m = do
      raise_if (is_some (text_of ("clientOid" ∷ "client_oid" ∷ "clientOrderId" ∷ []) m))
          provider_fill_error
      symbol ← needed provider_fill_error (text_of symbol_keys m)
      fill_id ← needed provider_fill_error (text_of fill_id_keys m)
      quantity ← decimal_of provider_fill_error quantity_keys true m
      price ← decimal_of provider_fill_error price_keys true m
      fee ← decimal_of provider_fill_error fee_keys false m
      pnl ← pnl_of provider_fill_error m
      side ← side_of provider_fill_error m
      ok (record {
        exchange = py.lower (py.strip exchange);
        symbol = symbol_name symbol;
        side = side;
        source = exit_source m;
        provider_order_id = text_of order_id_keys m;
        provider_fill_id = fill_id;
        quantity = abs quantity;
        price = price;
        fee = abs fee;
        realized_pnl = pnl;
        payload = m;
      })

    unfoldable pub normalize_provider_exit : String → Fields → Result ProviderExitObservation
    unfolding exit_facts normalize_fill
    normalize_provider_exit exchange payload = exit_facts exchange (normalize_fill py payload)
