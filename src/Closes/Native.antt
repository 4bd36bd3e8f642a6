-- ===== src/Closes/Native.antt =====
-- src/fatty_trader/exchanges/bitget/native_close.py: a close by one of an entry's own protection
-- plans is found among the venue's fills.
pub mod Candidates
pub mod Owned
pub mod Recorded
use text.Mathlib.Text.{◌==◌}
use Prim.Native.Nat.{Ordering}
use fatty_multi_exchange_tra.Prelude.{
  String, Bool, true, false, not, ◌&&◌, ◌||◌, Option, none, some, List, [], ◌∷◌, ◌++◌, any,
  if◌then◌else◌,
}
use fatty_multi_exchange_tra.Prelude.Raise.{Error, Result, ok, err, value_error, native_close_error}
use fatty_multi_exchange_tra.Prelude.Calls.{Call, ◌>>=◌, ◌>>◌, pure, raise, or_else, choose}
use fatty_multi_exchange_tra.Decimal.{Decimal, le, ◌+ᵈ◌}
use fatty_multi_exchange_tra.Domain.Models.{zero_dec}
use fatty_multi_exchange_tra.Live.Values.{
  Value, null, boolean, number, string, sequence, mapping, Items, empty, item, Fields, Runtime, get,
}
use fatty_multi_exchange_tra.Live.Record.{LiveIntentRecord, new_record}
use fatty_multi_exchange_tra.Live.Store.{LiveStore, claim, update, get as get_record}
use fatty_multi_exchange_tra.Live.Ownership.{bind_native_close}
use fatty_multi_exchange_tra.Closes.Facts.{
  PlanCloseFill, text_of, symbol_name, normalize_plan_close_fill,
}

pub record NativePlanClose : Type 0 where
  pub exchange : String
  pub symbol : String
  pub side : String
  pub root_oid : String
  pub plan_oid : String
  pub close_oid : String
  pub executed_order_id : String
  pub provider_fill_id : String
  pub quantity : Decimal
  pub price : Decimal
  pub fee : Decimal
  pub realized_pnl : Decimal
  pub payload : Fields

-- The answers of the venue, the same for the same order during a call, and the owner of a plan.
pub record Answers : Type 0 where
  pub read_fills : String → Result Value
  pub read_order_detail : String → String → Result Value
  pub plan_owner : String → Option LiveIntentRecord

-- `f"{oid}-native-close"`
abbrev pub native_close_oid : String → String
native_close_oid oid = Prim.Native.String.◌++◌ oid "-native-close"

-- `value == k`, of a text that may be None
pub is_text : Option String → String → Bool
is_text none k = false
is_text (some j) k = j == k

pub is_plan : LiveIntentRecord → Bool
is_plan r = r.role == "SL" || r.role == "TP"

-- `m.get(k, default)`
get_or : String → Fields → Value → Value
unfolding get
get_or k m default = elim (get k m) [ none ↦ default | some v ↦ v ]

detail_rows : Value → Value
unfolding get_or
detail_rows (mapping m) = get_or "data" m (get_or "orderList" m (mapping m))
detail_rows v = v

first_row : Value → Option Fields
first_row (mapping m) = some m
first_row (sequence (item (mapping m) rest)) = some m
first_row _ = none

-- `fillList`, or `entrustedList`
fill_rows : Value → Value
unfolding get_or
fill_rows (mapping m) = get_or "fillList" m (get_or "entrustedList" m null)
fill_rows v = v

-- `if result`, of a call whose exceptions are caught
unfoldable pub answered : {A : Type 0} → Result A → Option A
answered (err e) = none
answered (ok a) = some a

module _ (py : Runtime) (upper : String → String) where
  row_client_oid : Option Fields → Option String
  unfolding text_of
  row_client_oid none = none
  row_client_oid (some m) = text_of py ("clientOid" ∷ "client_oid" ∷ "clientOrderId" ∷ []) m

  -- `_order_client_oid`, of a read that may have raised
  unfoldable pub order_client_oid : Option Value → Option String
  unfolding row_client_oid first_row detail_rows
  order_client_oid none = none
  order_client_oid (some detail) = row_client_oid (first_row (detail_rows detail))

  -- The side that closes the entry.
  unfoldable pub close_side : LiveIntentRecord → String
  close_side intent = if intent.side == "BUY" then "SELL" else "BUY"

  is_candidate : LiveIntentRecord → PlanCloseFill → Bool
  unfolding close_side symbol_name
  is_candidate intent fill =
      fill.symbol == symbol_name py upper intent.symbol
      && fill.side == close_side intent
      && not (any (λ id. id == fill.provider_fill_id) intent.provider_fill_ids)

  add_candidate : LiveIntentRecord → Result PlanCloseFill → List PlanCloseFill → List PlanCloseFill
  unfolding is_candidate
  add_candidate intent (err e) fills = fills
  add_candidate intent (ok fill) fills = if is_candidate intent fill then fill ∷ fills else fills

  unfoldable pub candidates : LiveIntentRecord → Items → List PlanCloseFill
  unfolding add_candidate normalize_plan_close_fill
  candidates intent empty = []
  candidates intent (item (mapping m) rest) =
      add_candidate intent (normalize_plan_close_fill py upper m) (candidates intent rest)
  candidates intent (item _ rest) = candidates intent rest

  -- `str(fill["payload"].get("cTime", ""))`
  time_key : PlanCloseFill → String
  unfolding get_or
  time_key fill = py.str (get_or "cTime" fill.payload (string ""))

  earlier : PlanCloseFill → PlanCloseFill → Bool
  unfolding time_key
  earlier a b = elim (Prim.Native.String.compare (time_key a) (time_key b)) [
    | Ordering.lt ↦ true
    | _ ↦ false
  ]

  insert_fill : PlanCloseFill → List PlanCloseFill → List PlanCloseFill
  unfolding earlier
  insert_fill a [] = a ∷ []
  insert_fill a (b ∷ fills) =
      let rest = insert_fill a fills in if earlier a b then b ∷ rest else a ∷ b ∷ fills

  -- `candidates.sort(key=..., reverse=True)`: the latest first, equal times in their order.
  unfoldable pub latest_first : List PlanCloseFill → List PlanCloseFill
  unfolding insert_fill
  latest_first [] = []
  latest_first (a ∷ fills) = insert_fill a (latest_first fills)

  -- The plan is one of the entry's own, and the executed order names it.
  owns : LiveIntentRecord → String → LiveIntentRecord → Bool
  unfolding is_plan is_text symbol_name
  owns intent client_oid plan =
      is_plan plan
      && is_text plan.protection_root_oid intent.client_oid
      && is_text plan.provider_order_id client_oid
      && symbol_name py upper plan.symbol == symbol_name py upper intent.symbol

  pub native_of : LiveIntentRecord → PlanCloseFill → LiveIntentRecord → NativePlanClose
  unfolding symbol_name
  native_of root fill plan = record {
    exchange = root.exchange;
    symbol = symbol_name py upper root.symbol;
    side = fill.side;
    root_oid = root.client_oid;
    plan_oid = plan.client_oid;
    close_oid = native_close_oid root.client_oid;
    executed_order_id = fill.provider_order_id;
    provider_fill_id = fill.provider_fill_id;
    quantity = fill.quantity;
    price = fill.price;
    fee = fill.fee;
    realized_pnl = fill.realized_pnl;
    payload = fill.payload;
  }

  module _ (answers : Answers) where
    close_by :
        LiveIntentRecord → PlanCloseFill → String → Option LiveIntentRecord → Option NativePlanClose
    unfolding owns native_of
    close_by intent fill client_oid none = none
    close_by intent fill client_oid (some plan) =
        if owns intent client_oid plan then some (native_of intent fill plan) else none

    close_named : LiveIntentRecord → PlanCloseFill → Option String → Option NativePlanClose
    unfolding close_by
    close_named intent fill none = none
    close_named intent fill (some client_oid) =
        close_by intent fill client_oid (answers.plan_owner client_oid)

    -- One round of the loop over the candidates.
    close_of : LiveIntentRecord → PlanCloseFill → Option NativePlanClose
    unfolding close_named order_client_oid answered
    close_of intent fill = close_named intent fill (
        order_client_oid
          (answered (answers.read_order_detail intent.symbol fill.provider_order_id)))

    first_close : LiveIntentRecord → List PlanCloseFill → Option NativePlanClose
    unfolding close_of
    first_close intent [] = none
    first_close intent (fill ∷ fills) = elim (close_of intent fill) [
      | none ↦ first_close intent fills
      | some c ↦ some c
    ]

    close_among : LiveIntentRecord → Option Value → Option NativePlanClose
    unfolding first_close candidates latest_first
    close_among intent (some (sequence rows)) =
        first_close intent (latest_first (candidates intent rows))
    close_among intent _ = none

    read_rows : Result Value → Option Value
    unfolding fill_rows
    read_rows (err e) = none
    read_rows (ok answer) = some (fill_rows answer)

    unfoldable pub resolve_native_plan_close : LiveIntentRecord → Option NativePlanClose
    unfolding close_among read_rows
    resolve_native_plan_close intent =
        if not (intent.role == "ENTRY") || le intent.filled_qty zero_dec
        then none
        else close_among intent (read_rows (answers.read_fills intent.symbol))
