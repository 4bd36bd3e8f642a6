-- ===== src/Live/Entry/Executed.antt =====
-- The status of a result with a filled quantity.
use fatty_multi_exchange_tra.Prelude.{
  String, ◌≡◌, refl, ap, subst, true, Option, none, some, List, arith, map,
}
use fatty_multi_exchange_tra.Prelude.Raise.{Result, ok, err}
use fatty_multi_exchange_tra.Prelude.Calls.{pure, continue}
use fatty_multi_exchange_tra.Decimal.{Decimal, max}
use fatty_multi_exchange_tra.Decimal.Order.{not_lt_of_lt}
use fatty_multi_exchange_tra.Domain.Models.{positive, zero_dec}
use fatty_multi_exchange_tra.Live.Values.{Fields, Runtime, or_zero}
use fatty_multi_exchange_tra.Live.Fills.{
  Summary, summarize_fills, detail_filled, classify, classify_live_order, normalize_fill,
}
use fatty_multi_exchange_tra.Live.Record.{LiveIntentRecord}
use fatty_multi_exchange_tra.Live.Store.{LiveStore, get, update}
use fatty_multi_exchange_tra.Live.Store.Writes.{update_filled}
use fatty_multi_exchange_tra.Live.Effects.{Client, read, with_store}
use fatty_multi_exchange_tra.Live.Results.{
  LiveEntryResult, needs_protection, filled_by, exceeds, read_record, result_of,
}
use fatty_multi_exchange_tra.Live.Entry.{
  persist_readback, read_found, reconcile_by_client_oid, read_back,
}
use fatty_multi_exchange_tra.Live.Entry.Ends.{Returned, EndsIn, bind-EndsIn}

-- A filled quantity stands beside a status that is protected.
abbrev pub IsExecuted : LiveEntryResult → Type 0
IsExecuted result = positive result.filled_qty ≡ true → needs_protection result ≡ true

-- The larger quantity is positive where the one of the record is.
filled_positive :
    (py : Runtime) (detail : Fields) (sums : Summary) (detailed : Option Decimal)
    → positive (filled_by py detail sums (exceeds detailed sums.quantity)).0 ≡ true
    → positive (max sums.quantity (or_zero detailed)) ≡ true
unfolding filled_by exceeds or_zero max
filled_positive py detail sums none filled = ground (arith, not_lt_of_lt zero_dec sums.quantity)
filled_positive py detail sums (some d) filled = ground arith

-- A positive quantity is classified as filled or partial, whatever the status text says.
classify_live_order-IsExecuted :
    (py : Runtime) (detail : Fields) (fills : List Fields) (result : LiveEntryResult)
    → positive (max (summarize_fills py fills).quantity (or_zero (detail_filled py detail))) ≡ true
    → result.status ≡ classify_live_order py detail fills
    → IsExecuted result
unfolding classify_live_order classify needs_protection
classify_live_order-IsExecuted py detail fills result some_filled at filled = ground arith

module _ (py : Runtime) (client : Client) (client_oid : String) where
  written-IsExecuted :
      (r written : LiveIntentRecord) (detail : Fields) (fills : List Fields)
      → written.filled_qty ≡ (read_record py r detail fills).filled_qty
      → IsExecuted (result_of client_oid (classify_live_order py detail fills) written)
  unfolding read_record classify_live_order result_of
  written-IsExecuted r written detail fills same filled =
      classify_live_order-IsExecuted py detail fills _
        (filled_positive py detail (summarize_fills py fills) (detail_filled py detail)
          (subst (λ q. positive q ≡ true) same filled))
        refl filled

  persist_readback-IsExecuted :
      (r : LiveIntentRecord) (detail : Fields) (raw : List Fields)
      → EndsIn
          (λ result log. IsExecuted result)
          (persist_readback py client client_oid r detail raw)
  unfolding EndsIn persist_readback
  persist_readback-IsExecuted r detail raw w =
      let fills = map (normalize_fill py) raw in
      go (update py (read_record py r detail fills) w.store) refl
    where
      go :
          (x : Result LiveIntentRecord × LiveStore)
          → update py (read_record py r detail (map (normalize_fill py) raw)) w.store ≡ x
          → Returned
              (λ result log. IsExecuted result)
              (continue (with_store w.log x) λ written. pure (
                result_of client_oid
                  (classify_live_order py detail (map (normalize_fill py) raw))
                  written))
      go (err e, t) at = tt
      go (ok written, t) at = written-IsExecuted r written detail (map (normalize_fill py) raw) (
          update_filled py (read_record py r detail (map (normalize_fill py) raw)) written w.store
            (ap (λ x. x.0) at))

  pub read_back-IsExecuted :
      (r : LiveIntentRecord)
      → EndsIn (λ result log. IsExecuted result) (read_back py client client_oid r)
  unfolding read_back
  read_back-IsExecuted r =
      bind-EndsIn _ (read (client.get_order_detail r.symbol client_oid)) _ λ detail.
        bind-EndsIn _ (read (client.get_fills r.symbol client_oid)) _
          λ raw. persist_readback-IsExecuted r detail raw

  pub reconcile_by_client_oid-IsExecuted :
      EndsIn (λ result log. IsExecuted result) (reconcile_by_client_oid py client client_oid)
  unfolding reconcile_by_client_oid read_found EndsIn
  reconcile_by_client_oid-IsExecuted w = go (get client_oid w.store)
    where
      go :
          (o : Option LiveIntentRecord)
          → Returned (λ result log. IsExecuted result) (read_found py client client_oid o w)
      go none = tt
      go (some r) = read_back-IsExecuted r w
