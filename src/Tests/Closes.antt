-- ===== src/Tests/Closes.antt =====
-- The properties of the venue's own closes at concrete inputs.
use fatty_multi_exchange_tra.Prelude.{String, ◌≡◌, refl, true, false, none, some, [], ◌∷◌}
use fatty_multi_exchange_tra.Prelude.Raise.{ok}
use fatty_multi_exchange_tra.Prelude.Dict.{find, store}
use fatty_multi_exchange_tra.Prelude.Texts.{contains, starts_with}
use fatty_multi_exchange_tra.Decimal.{of_int, lt, le, eq, fix}
use fatty_multi_exchange_tra.Domain.Models.{zero_dec}
use fatty_multi_exchange_tra.Live.Values.{
  Runtime, Fields, number, string, sequence, mapping, item, empty, end, field, get, get_first, set,
  to_decimal, truthy, or_zero, abs,
}
use fatty_multi_exchange_tra.Live.Fills.{normalize_fill, fill_id}
use fatty_multi_exchange_tra.Live.Record.{LiveIntentRecord, new_record}
use fatty_multi_exchange_tra.Live.Store.{
  LiveStore, empty_store, get as get_record, claim, update, conflict, ids_conflict, kept,
  record_fills, put, put_at, seen, record_provider_event,
}
use fatty_multi_exchange_tra.Live.Ownership.{bind_native_close}
use fatty_multi_exchange_tra.Closes.Facts.{
  ProviderExitObservation, normalize_plan_close_fill, normalize_provider_exit, text_of, symbol_name,
}
use fatty_multi_exchange_tra.Closes.Native.{
  NativePlanClose, Answers, answered, candidates, latest_first, order_client_oid, close_side,
  resolve_native_plan_close,
}
use fatty_multi_exchange_tra.Closes.Native.Recorded.{reconcile_native_plan_close}
use fatty_multi_exchange_tra.Closes.Native.Owned.{IsOwn, resolved_close-IsOwn}
use fatty_multi_exchange_tra.Closes.Native.Recorded.Repeat.{reconcile_native_once}
use fatty_multi_exchange_tra.Closes.Provider.{
  ProviderExitReconciliation, exit_client_oid, reconcile_provider_exit,
}
use fatty_multi_exchange_tra.Closes.Provider.Repeat.{reconcile_exit_once}

abbrev py : Runtime
py = record {
  parse = λ s. none;
  str = λ v. elim v [ string s ↦ s | _ ↦ "value" ];
  loads = λ s. none;
  lower = λ s. s;
  strip = λ s. s;
}

abbrev same : String → String
same s = s

abbrev entry : LiveIntentRecord
entry = record (new_record "bitget" "live-1" "BTCUSDT" "BUY" (of_int 2)) {
  state = "filled";
  filled_qty = of_int 2;
  provider_fill_ids = "f1" ∷ [];
}

abbrev stop : LiveIntentRecord
stop = record (new_record "bitget" "live-1-sl" "BTCUSDT" "SELL" (of_int 2)) {
  role = "SL";
  provider_order_id = some "plan-9";
  protection_root_oid = some "live-1";
}

-- The fill of the order that the stop executed; its fee is normalized already.
abbrev fill : Fields
fill = field "tradeId" (string "f2") (
    field "orderId" (string "o2") (
      field "symbol" (string "BTCUSDT") (
        field "side" (string "SELL") (
          field "price" (number (of_int 90))
            (field "size" (number (of_int 2)) (field "fee" (number (of_int 0)) end))))))

abbrev answers : Answers
answers = record {
  read_fills = λ symbol. ok (sequence (item (mapping fill) empty));
  read_order_detail = λ symbol id. ok (mapping (field "clientOid" (string "plan-9") end));
  plan_owner = λ id. some stop;
}

abbrev native : NativePlanClose
native = record {
  exchange = "bitget";
  symbol = "BTCUSDT";
  side = "SELL";
  root_oid = "live-1";
  plan_oid = "live-1-sl";
  close_oid = "live-1-native-close";
  executed_order_id = "o2";
  provider_fill_id = "f2";
  quantity = of_int 2;
  price = of_int 90;
  fee = of_int 0;
  realized_pnl = zero_dec;
  payload = fill;
}

resolved : resolve_native_plan_close py same answers entry ≡ some native
unfolding resolve_native_plan_close candidates latest_first order_client_oid answered close_side
    symbol_name text_of normalize_plan_close_fill normalize_fill get get_first set to_decimal truthy
    or_zero abs fix le lt eq contains
resolved = refl

resolved_close-IsOwn_example :
    (entry.role ≡ "ENTRY")
    × (le entry.filled_qty zero_dec ≡ false)
    × IsOwn py same entry answers native
resolved_close-IsOwn_example = resolved_close-IsOwn py same entry answers native resolved

abbrev owned_store : LiveStore
owned_store = record empty_store { records = ("live-1", entry) ∷ ("live-1-sl", stop) ∷ [] }

abbrev bound_store : LiveStore
bound_store = (reconcile_native_plan_close py same native owned_store).1

bound_first : reconcile_native_plan_close py same native owned_store ≡ (ok true, bound_store)
unfolding reconcile_native_plan_close claim update conflict ids_conflict kept record_fills fill_id
    put put_at seen get_record find store bind_native_close get get_first
bound_first = refl

absent :
    (r : LiveIntentRecord)
    → get_record native.close_oid owned_store ≡ some r
    → r.client_oid ≡ native.close_oid
unfolding get_record find
absent r there = cc

reconcile_native_once_example :
    reconcile_native_plan_close py same native bound_store ≡ (ok false, bound_store)
reconcile_native_once_example =
    reconcile_native_once py same native owned_store bound_store true absent bound_first

abbrev digest : String → String
digest s = "digest"

abbrev exit : ProviderExitObservation
exit = record {
  exchange = "bitget";
  symbol = "BTCUSDT";
  side = "SELL";
  source = "PROVIDER_EXIT";
  provider_order_id = some "o2";
  provider_fill_id = "f2";
  quantity = of_int 2;
  price = of_int 90;
  fee = of_int 0;
  realized_pnl = zero_dec;
  payload = fill;
}

exit_read : normalize_provider_exit py same "bitget" fill ≡ ok exit
unfolding normalize_provider_exit text_of symbol_name normalize_fill get get_first set to_decimal
    truthy or_zero abs fix le lt eq contains starts_with
exit_read = refl

abbrev told : ProviderExitReconciliation
told = record {
  source = "PROVIDER_EXIT";
  client_oid = "provider-bitget-digest";
  provider_order_id = some "o2";
  provider_fill_id = "f2";
  stored = record (new_record "bitget" "provider-bitget-digest" "BTCUSDT" "SELL" (of_int 2)) {
    role = "CLOSE";
    state = "filled";
    filled_qty = of_int 2;
    avg_price = some (of_int 90);
    provider_order_id = some "o2";
    provider_fill_ids = "f2" ∷ [];
    provider_fills = fill ∷ [];
  };
  created = true;
}

abbrev exit_store : LiveStore
exit_store = (reconcile_provider_exit py same digest "bitget" fill empty_store).1

exit_first :
    reconcile_provider_exit py same digest "bitget" fill empty_store ≡ (ok told, exit_store)
unfolding reconcile_provider_exit normalize_provider_exit text_of symbol_name normalize_fill get
    get_first set to_decimal truthy or_zero abs fix le lt eq contains starts_with exit_client_oid
    claim update conflict ids_conflict kept record_fills fill_id put put_at seen get_record find
    store record_provider_event
exit_first = refl

unknown_exit :
    (r : LiveIntentRecord)
    → get_record (exit_client_oid py same digest exit) empty_store ≡ some r
    → r.client_oid ≡ exit_client_oid py same digest exit
unfolding get_record find
unknown_exit r there = cc

reconcile_exit_once_example :
    reconcile_provider_exit py same digest "bitget" fill exit_store
    ≡ (ok (record told { created = false }), exit_store)
reconcile_exit_once_example =
    reconcile_exit_once py same digest "bitget" fill exit empty_store exit_store told exit_read
      unknown_exit exit_first
