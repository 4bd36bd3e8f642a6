-- ===== src/Tests/Reconciliation.antt =====
-- The properties of the reconciliation at concrete inputs.
use fatty_multi_exchange_tra.Prelude.{◌≡◌, refl, any, not, true, false, none, some, [], ◌∷◌}
use fatty_multi_exchange_tra.Prelude.Raise.{ok, err, kill_switch_trigger}
use fatty_multi_exchange_tra.Decimal.{of_int, lt, le, eq}
use fatty_multi_exchange_tra.Domain.Models.{zero_dec}
use fatty_multi_exchange_tra.Live.Values.{Runtime, string, sequence, empty}
use fatty_multi_exchange_tra.Live.Fills.{LiveOrderStatus, summarize_fills}
use fatty_multi_exchange_tra.Live.Record.{LiveIntentRecord, new_record}
use fatty_multi_exchange_tra.Reconciliation.Missing.{
  AmbiguousOrderResult, Reads, classify_missing_detail,
}
use fatty_multi_exchange_tra.Reconciliation.Missing.Evidence.{
  IsSupported, classify_missing_detail-IsSupported,
}
use fatty_multi_exchange_tra.Reconciliation.Unknown.{refused, reconcile_unknown_intent}
use fatty_multi_exchange_tra.Reconciliation.Unknown.Evidence.{IsWrittenOff, rejected_needs_evidence}
use fatty_multi_exchange_tra.Reconciliation.Reconciler.{
  ReconcilerConfig, OrderRow, Answers, Reconciler, starting, healthy, killed, set_status, tick,
  is_stale, is_protected,
}
use fatty_multi_exchange_tra.Reconciliation.Reconciler.Consistency.{IsConsistent, tick-IsConsistent}
use fatty_multi_exchange_tra.Reconciliation.Reconciler.Killing.{bare_position_kills}

abbrev py : Runtime
py = record {
  parse = λ s. none;
  str = λ v. elim v [ string s ↦ s | _ ↦ "None" ];
  loads = λ s. none;
  lower = λ s. s;
  strip = λ s. s;
}

abbrev intent : LiveIntentRecord
intent = record (new_record "bitget" "live-1" "BTCUSDT" "BUY" (of_int 2)) { state = "unknown" }

-- Nothing at the venue.
abbrev nothing : Reads
nothing = record {
  read_fills = ok (sequence empty);
  read_position = ok (sequence empty);
  read_pending_orders = ok (sequence empty);
}

abbrev outcome : AmbiguousOrderResult
outcome = record {
  status = LiveOrderStatus.rejected;
  filled_qty = zero_dec;
  avg_price = none;
  fee = zero_dec;
  provider_order_id = none;
  provider_fill_ids = [];
  provider_fills = [];
}

classified : classify_missing_detail py intent nothing none true ≡ ok outcome
unfolding classify_missing_detail lt le eq summarize_fills
classified = refl

classify_missing_detail-IsSupported_example : IsSupported py intent nothing true outcome
classify_missing_detail-IsSupported_example =
    classify_missing_detail-IsSupported py intent nothing none true outcome classified

abbrev written_off : LiveIntentRecord
written_off = record intent { state = "rejected" }

refreshed : reconcile_unknown_intent py intent (refused "40109" "gone") nothing ≡ ok written_off
unfolding reconcile_unknown_intent classify_missing_detail lt le eq summarize_fills
refreshed = refl

rejected_needs_evidence_example :
    IsWrittenOff py intent (refused "40109" "gone") nothing written_off
rejected_needs_evidence_example =
    rejected_needs_evidence py intent written_off (refused "40109" "gone") nothing refreshed refl

abbrev config : ReconcilerConfig
config = record {
  stale_threshold = 300000000;
  kill_on_missing_protection = true;
  expected_margin_mode = "isolated";
  symbol = "BTCUSDT";
}

abbrev reconciler : Reconciler
reconciler = record {
  status = starting;
  last_mismatches = [];
  last_mismatch_count = 0;
  last_tick = 1000000;
  known_order_ids = "1" ∷ "2" ∷ [];
  reported = [];
}

abbrev stop : OrderRow
stop = record { order_id = some "1"; symbol = some "BTCUSDT"; role = some "SL" }

abbrev target : OrderRow
target = record { order_id = some "2"; symbol = some "BTCUSDT"; role = some "TP" }

abbrev protected : Answers
protected = record {
  margin_mode = ok "isolated";
  positions = ok (some "BTCUSDT" ∷ []);
  orders = ok (stop ∷ target ∷ []);
  fills = ok (record { order_id = none; order_id_camel = some "2" } ∷ []);
}

abbrev ticked : Reconciler
ticked = record (set_status healthy reconciler) { last_tick = 2000000 }

tick_returns : tick (λ s. s) config 2000000 protected reconciler ≡ (ok tt, ticked)
unfolding tick set_status
tick_returns = refl

ticked_healthy : ticked.status ≡ healthy
unfolding set_status
ticked_healthy = refl

tick-IsConsistent_example : IsConsistent (λ s. s) config reconciler.known_order_ids protected
tick-IsConsistent_example =
    tick-IsConsistent (λ s. s) config 2000000 protected reconciler ticked tick_returns
      ticked_healthy

-- The target order is gone.
abbrev bare : Answers
bare = record protected { orders = ok (stop ∷ []) }

fresh : is_stale (λ s. s) config reconciler.last_tick 2000000 ≡ false
unfolding is_stale
fresh = refl

unprotected : any (λ p. not (is_protected (stop ∷ []) p)) (some "BTCUSDT" ∷ []) ≡ true
unfolding is_protected
unprotected = refl

bare_position_kills_example :
    tick (λ s. s) config 2000000 bare reconciler
    ≡ (err kill_switch_trigger, set_status killed reconciler)
bare_position_kills_example =
    bare_position_kills (λ s. s) config 2000000 bare reconciler "isolated" (some "BTCUSDT" ∷ [])
      (stop ∷ []) (record { order_id = none; order_id_camel = some "2" } ∷ []) refl fresh refl refl
      refl refl unprotected
