-- ===== src/Live/Entry.antt =====
-- The entry workflow of the live lane: src/fatty_trader/exchanges/bitget/live.py. Neither what the
-- reads before an entry bring nor the text of an alert is used again, and both are left out.
pub mod Calm
pub mod Ends
pub mod Executed
pub mod Posts
pub mod Protected
use Prim.Native.String.{◌++◌ as append}
use text.Mathlib.Text.{◌==◌}
use fatty_multi_exchange_tra.Prelude.{
  String, Bool, true, false, not, Option, none, some, List, [], ◌∷◌, map,
}
use fatty_multi_exchange_tra.Prelude.Int.{ℤ}
use fatty_multi_exchange_tra.Prelude.Raise.{Result, ok, err, setup_error, lookup_error}
use fatty_multi_exchange_tra.Prelude.Calls.{Call, ◌>>=◌, ◌>>◌, pure, raise, lift, choose}
use fatty_multi_exchange_tra.Decimal.{Decimal}
use fatty_multi_exchange_tra.Protection.Orders.{
  ProtectionPlan, ProtectionReport, protection_plan, ensure_live_protection,
}
use fatty_multi_exchange_tra.Live.Values.{null, Fields, Runtime, get_first}
use fatty_multi_exchange_tra.Live.Fills.{normalize_fill, classify_live_order}
use fatty_multi_exchange_tra.Live.Record.{LiveIntentRecord, new_record}
use fatty_multi_exchange_tra.Live.Store.{get, save, update}
use fatty_multi_exchange_tra.Live.Effects.{
  LiveEntryRequest, Event, Log, Client, World, read, act, stored,
}
use fatty_multi_exchange_tra.Live.Results.{
  show_ℤ, oid_of, id_text, read_record, result_of, close_side, plan_of, is_venue_protected,
  needs_protection, is_unknown, LiveEntryResult,
}

module _ (py : Runtime) (client : Client) where
  -- `read_pre_entry_state`
  unfoldable pub read_pre_entry_state : String → Call World (Unit {0})
  read_pre_entry_state symbol = do
    read (client.get_symbol_metadata symbol)
    balance ← read client.get_available_balance
    positions ← read (client.get_positions symbol)
    price ← read (client.get_current_price symbol)
    position_mode ← read client.get_position_mode
    margin_mode ← read (client.get_margin_mode symbol)
    leverage ← read (client.get_leverage symbol)
    pure tt

  -- `ensure_isolated_margin_and_leverage`
  unfoldable pub ensure_isolated_margin_and_leverage : String → ℤ → Call World (String × String)
  unfolding show_ℤ
  ensure_isolated_margin_and_leverage symbol leverage = do
    act (Event.set_margin_mode symbol "isolated") (client.set_margin_mode symbol "isolated")
    mode ← read (client.get_margin_mode symbol)
    choose (not (py.lower mode == "isolated")) (raise setup_error) (do
      act (Event.set_leverage symbol (show_ℤ leverage))
          (client.set_leverage symbol (show_ℤ leverage))
      confirmed ← read (client.get_leverage symbol)
      choose (not (confirmed == show_ℤ leverage)) (raise setup_error) (pure (mode, confirmed)))

  -- `_persist_readback`, and the result that its callers build of the record.
  unfoldable pub persist_readback :
      String → LiveIntentRecord → Fields → List Fields → Call World LiveEntryResult
  unfolding read_record result_of update normalize_fill
  persist_readback client_oid r detail raw = do
    written ← stored (update py (read_record py r detail (map (normalize_fill py) raw)))
    pure
        (result_of client_oid (classify_live_order py detail (map (normalize_fill py) raw)) written)

  -- The two reads of an order, and what they bring.
  unfoldable pub read_back : String → LiveIntentRecord → Call World LiveEntryResult
  unfolding persist_readback
  read_back client_oid r = do
    detail ← read (client.get_order_detail r.symbol client_oid)
    fills ← read (client.get_fills r.symbol client_oid)
    persist_readback client_oid r detail fills

  read_found : String → Option LiveIntentRecord → Call World LiveEntryResult
  unfolding read_back
  read_found client_oid none = raise lookup_error
  read_found client_oid (some r) = read_back client_oid r

  -- `reconcile_by_client_oid`
  unfoldable pub reconcile_by_client_oid : String → Call World LiveEntryResult
  unfolding read_found get
  reconcile_by_client_oid client_oid w = read_found client_oid (get client_oid w.store) w

  send_alert : Option (Log → Result (Unit {0})) → String → Call World (Unit {0})
  send_alert none client_oid = pure tt
  send_alert (some call) client_oid = act (Event.alerted client_oid) call

  module _ (alert : Option (Log → Result (Unit {0}))) where
    -- `place_market_close`, under the id of the emergency.
    emergency_close : LiveEntryRequest → String → Decimal → Call World (Unit {0})
    unfolding close_side send_alert
    emergency_close r client_oid q = do
      answer ← act (Event.closed (append client_oid "-emergency") q) (
          client.place_market_close r.symbol (close_side r.side) q (append client_oid "-emergency"))
      send_alert alert client_oid

    after_report :
        LiveEntryRequest
        → String
        → Decimal
        → ProtectionReport
        → Call World (ProtectionReport × Bool)
    unfolding is_venue_protected emergency_close
    after_report r client_oid q report =
        choose (is_venue_protected report.state) (pure (report, false))
          (do emergency_close r client_oid q; pure (report, true))

    -- The stop and the targets at the venue.
    protect : ProtectionPlan → String → Call World ProtectionReport
    protect plan client_oid = act (Event.protected plan client_oid) (λ log.
        ensure_live_protection (client.place_protection_orders log)
          (client.read_protection_state (Event.protected plan client_oid ∷ log)) plan client_oid)

    -- `_install_protection`
    unfoldable pub install_protection :
        LiveEntryRequest → String → Decimal → Call World (ProtectionReport × Bool)
    unfolding plan_of protect after_report
    install_protection r client_oid q = do
      plan ← lift (protection_plan (plan_of r q))
      report ← protect plan client_oid
      after_report r client_oid q report

    settled : Bool → LiveIntentRecord → LiveIntentRecord
    settled true r = record r { state = "reconciled" }
    settled false r = r

    write_settled : Bool → Option LiveIntentRecord → Call World (Unit {0})
    unfolding settled update
    write_settled emergency none = pure tt
    write_settled emergency (some r) = do
      written ← stored (update py (settled emergency r))
      pure tt

    settle : String → Bool → Call World (Unit {0})
    unfolding write_settled get
    settle client_oid emergency w = write_settled emergency (get client_oid w.store) w

    -- `_maybe_protect`
    unfoldable pub maybe_protect :
        LiveEntryRequest → String → LiveEntryResult → Call World LiveEntryResult
    unfolding needs_protection install_protection settle
    maybe_protect r client_oid result = choose (not (needs_protection result)) (pure result) (do
      installed ← install_protection r client_oid result.filled_qty
      settle client_oid installed.1
      pure (record result { protection = some installed.0; emergency_closed = installed.1 }))

    -- An intent that is in the store: reads only, and the protection.
    unfoldable pub resume : LiveEntryRequest → String → Call World LiveEntryResult
    unfolding reconcile_by_client_oid maybe_protect
    resume r client_oid = do
      result ← reconcile_by_client_oid client_oid
      maybe_protect r client_oid result

    -- The intent, with the id that the venue gave the order.
    abbrev accepted_intent : LiveIntentRecord → Fields → LiveIntentRecord
    accepted_intent intent submitted = record intent {
      provider_order_id = id_text py (get_first ("orderId" ∷ []) submitted null);
    }

    -- What follows the answer to the entry order.
    unfoldable pub after_post :
        LiveEntryRequest → String → LiveIntentRecord → Result Fields → Call World LiveEntryResult
    unfolding is_unknown update resume read_back maybe_protect
    after_post r client_oid intent (err e) =
        choose (is_unknown e)
          (do
            written ← stored (update py (record intent { state = "unknown" }))
            resume r client_oid)
          (raise e)
    after_post r client_oid intent (ok submitted) = do
      written ← stored (update py (accepted_intent intent submitted))
      result ← read_back client_oid written
      maybe_protect r client_oid result

    -- The entry order: it may have reached the venue whatever it answers.
    unfoldable pub post : LiveEntryRequest → String → LiveIntentRecord → Call World LiveEntryResult
    unfolding after_post
    post r client_oid intent w =
        after_post r client_oid intent (client.place_entry_order r client_oid w.log)
          (record w { log = Event.posted client_oid r.quantity ∷ w.log })

    abbrev pub intent_of : LiveEntryRequest → String → LiveIntentRecord
    intent_of r client_oid = new_record r.exchange client_oid r.symbol r.side r.quantity

    unfoldable pub enter_new : LiveEntryRequest → String → Call World LiveEntryResult
    unfolding read_pre_entry_state ensure_isolated_margin_and_leverage save post
    enter_new r client_oid = do
      read_pre_entry_state r.symbol
      confirmed ← ensure_isolated_margin_and_leverage r.symbol r.leverage
      stored (save (intent_of r client_oid))
      post r client_oid (intent_of r client_oid)

    unfoldable pub enter_with :
        LiveEntryRequest → String → Option LiveIntentRecord → Call World LiveEntryResult
    unfolding resume enter_new
    enter_with r client_oid none = enter_new r client_oid
    enter_with r client_oid (some existing) = resume r client_oid

    unfoldable pub enter_as : LiveEntryRequest → Result String → Call World LiveEntryResult
    unfolding enter_with get
    enter_as r (err e) w = (err e, w)
    enter_as r (ok client_oid) w = enter_with r client_oid (get client_oid w.store) w

    -- `enter_live_position`; `drawn` is the random token.
    unfoldable pub enter_live_position : String → LiveEntryRequest → Call World LiveEntryResult
    unfolding enter_as oid_of
    enter_live_position drawn r = enter_as r (oid_of drawn r r.client_oid)

    -- `submit_live_entry` of src/fatty_trader/execution/service.py
    unfoldable pub submit_live_entry : String → LiveEntryRequest → Call World LiveEntryResult
    unfolding enter_live_position
    submit_live_entry = enter_live_position
