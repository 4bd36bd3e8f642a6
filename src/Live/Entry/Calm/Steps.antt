-- ===== src/Live/Entry/Calm/Steps.antt =====
-- The parts of the entry workflow that post no entry order and lose no intent.
use text.Mathlib.Text.{◌==◌}
use fatty_multi_exchange_tra.Prelude.{String, refl, Bool, true, false, not, Option, none, some, map}
use fatty_multi_exchange_tra.Prelude.Int.{ℤ}
use fatty_multi_exchange_tra.Prelude.Raise.{Result, ok, err, setup_error, lookup_error}
use fatty_multi_exchange_tra.Prelude.Calls.{lift}
use fatty_multi_exchange_tra.Decimal.{Decimal}
use fatty_multi_exchange_tra.Protection.Orders.{ProtectionPlan, ProtectionReport, protection_plan}
use fatty_multi_exchange_tra.Live.Values.{Fields, Runtime}
use fatty_multi_exchange_tra.Live.Fills.{normalize_fill}
use fatty_multi_exchange_tra.Live.Record.{LiveIntentRecord}
use fatty_multi_exchange_tra.Live.Store.{get}
use fatty_multi_exchange_tra.Live.Effects.{LiveEntryRequest, Event, Log, Client, read, act, posts}
use fatty_multi_exchange_tra.Live.Results.{
  LiveEntryResult, show_ℤ, needs_protection, is_unknown, read_record, plan_of,
}
use fatty_multi_exchange_tra.Live.Entry.{
  read_pre_entry_state, ensure_isolated_margin_and_leverage, persist_readback, read_back,
  read_found, reconcile_by_client_oid, send_alert, emergency_close, after_report, protect,
  install_protection, settled, write_settled, settle, maybe_protect, resume, after_post,
  accepted_intent,
}
use fatty_multi_exchange_tra.Live.Entry.Calm.{
  IsCalm, pure-IsCalm, bind-IsCalm, read-IsCalm, raise-IsCalm, lift-IsCalm, choose-IsCalm,
  act-IsCalm, written-IsCalm,
}

module _ (k : String) where
  module _ (py : Runtime) (client : Client) where
    pub read_pre_entry_state-IsCalm :
        (symbol : String) → IsCalm k (read_pre_entry_state py client symbol)
    unfolding read_pre_entry_state
    read_pre_entry_state-IsCalm symbol =
        bind-IsCalm k (read (client.get_symbol_metadata symbol)) _ (read-IsCalm k _) λ passed.
          bind-IsCalm k (read client.get_available_balance) _ (read-IsCalm k _) λ balance.
            bind-IsCalm k (read (client.get_positions symbol)) _ (read-IsCalm k _) λ positions.
              bind-IsCalm k (read (client.get_current_price symbol)) _ (read-IsCalm k _) λ price.
                bind-IsCalm k (read client.get_position_mode) _ (read-IsCalm k _) λ mode.
                  bind-IsCalm k (read (client.get_margin_mode symbol)) _ (read-IsCalm k _)
                    λ margin_mode.
                      bind-IsCalm k (read (client.get_leverage symbol)) _ (read-IsCalm k _)
                        λ leverage. pure-IsCalm k tt

    pub ensure_isolated_margin_and_leverage-IsCalm :
        (symbol : String) (leverage : ℤ)
        → IsCalm k (ensure_isolated_margin_and_leverage py client symbol leverage)
    unfolding ensure_isolated_margin_and_leverage posts
    ensure_isolated_margin_and_leverage-IsCalm symbol leverage =
        let isolate =
          act (Event.set_margin_mode symbol "isolated")
            (client.set_margin_mode symbol "isolated") in
        let text = show_ℤ leverage in
        let lever = act (Event.set_leverage symbol text) (client.set_leverage symbol text) in
        bind-IsCalm k isolate _ (act-IsCalm k _ _ λ log. refl) λ set.
          bind-IsCalm k (read (client.get_margin_mode symbol)) _ (read-IsCalm k _) λ mode.
            choose-IsCalm k (not (py.lower mode == "isolated")) _ _ (raise-IsCalm k _ setup_error) (
              bind-IsCalm k lever _ (act-IsCalm k _ _ λ log. refl) λ passed.
                bind-IsCalm k (read (client.get_leverage symbol)) _ (read-IsCalm k _) λ confirmed.
                  choose-IsCalm k (not (confirmed == text)) _ _ (raise-IsCalm k _ setup_error)
                    (pure-IsCalm k (mode, confirmed)))

    read_back-IsCalm :
        (client_oid : String) (r : LiveIntentRecord) → IsCalm k (read_back py client client_oid r)
    unfolding read_back persist_readback
    read_back-IsCalm client_oid r =
        bind-IsCalm k (read (client.get_order_detail r.symbol client_oid)) _ (read-IsCalm k _)
          λ detail.
            bind-IsCalm k (read (client.get_fills r.symbol client_oid)) _ (read-IsCalm k _) λ fills.
              written-IsCalm k py (read_record py r detail (map (normalize_fill py) fills)) _
                λ written. pure-IsCalm k _

    read_found-IsCalm :
        (client_oid : String) (o : Option LiveIntentRecord)
        → IsCalm k (read_found py client client_oid o)
    unfolding read_found
    read_found-IsCalm client_oid none = raise-IsCalm k _ lookup_error
    read_found-IsCalm client_oid (some r) = read_back-IsCalm client_oid r

    reconcile_by_client_oid-IsCalm :
        (client_oid : String) → IsCalm k (reconcile_by_client_oid py client client_oid)
    unfolding reconcile_by_client_oid IsCalm
    reconcile_by_client_oid-IsCalm client_oid w =
        read_found-IsCalm client_oid (get client_oid w.store) w

    send_alert-IsCalm :
        (alert : Option (Log → Result (Unit {0}))) (client_oid : String)
        → IsCalm k (send_alert py client alert client_oid)
    unfolding send_alert posts
    send_alert-IsCalm none client_oid = pure-IsCalm k tt
    send_alert-IsCalm (some call) client_oid =
        act-IsCalm k (Event.alerted client_oid) call λ log. refl

    write_settled-IsCalm :
        (alert : Option (Log → Result (Unit {0}))) (emergency : Bool) (o : Option LiveIntentRecord)
        → IsCalm k (write_settled py client alert emergency o)
    unfolding write_settled
    write_settled-IsCalm alert emergency none = pure-IsCalm k tt
    write_settled-IsCalm alert emergency (some r) =
        written-IsCalm k py (settled py client alert emergency r) _ λ written. pure-IsCalm k tt

    module _ (alert : Option (Log → Result (Unit {0}))) where
      emergency_close-IsCalm :
          (r : LiveEntryRequest) (client_oid : String) (q : Decimal)
          → IsCalm k (emergency_close py client alert r client_oid q)
      unfolding emergency_close posts
      emergency_close-IsCalm r client_oid q =
          bind-IsCalm k (act (Event.closed _ q) _) _ (act-IsCalm k _ _ λ log. refl)
            λ answer. send_alert-IsCalm alert client_oid

      after_report-IsCalm :
          (r : LiveEntryRequest) (client_oid : String) (q : Decimal) (report : ProtectionReport)
          → IsCalm k (after_report py client alert r client_oid q report)
      unfolding after_report
      after_report-IsCalm r client_oid q report =
          choose-IsCalm k _ _ _ (pure-IsCalm k (report, false)) (
            bind-IsCalm k (emergency_close py client alert r client_oid q) _
              (emergency_close-IsCalm r client_oid q) λ sent. pure-IsCalm k (report, true))

      protect-IsCalm :
          (plan : ProtectionPlan) (client_oid : String)
          → IsCalm k (protect py client alert plan client_oid)
      unfolding protect posts IsCalm
      protect-IsCalm plan client_oid w = (refl, λ h. h)

      install_protection-IsCalm :
          (r : LiveEntryRequest) (client_oid : String) (q : Decimal)
          → IsCalm k (install_protection py client alert r client_oid q)
      unfolding install_protection
      install_protection-IsCalm r client_oid q =
          bind-IsCalm k (lift (protection_plan (plan_of r q))) _ (lift-IsCalm k _) λ plan.
            bind-IsCalm k (protect py client alert plan client_oid) _
              (protect-IsCalm plan client_oid) λ report. after_report-IsCalm r client_oid q report

      settle-IsCalm :
          (client_oid : String) (emergency : Bool)
          → IsCalm k (settle py client alert client_oid emergency)
      unfolding settle IsCalm
      settle-IsCalm client_oid emergency w =
          write_settled-IsCalm alert emergency (get client_oid w.store) w

      pub maybe_protect-IsCalm :
          (r : LiveEntryRequest) (client_oid : String) (result : LiveEntryResult)
          → IsCalm k (maybe_protect py client alert r client_oid result)
      unfolding maybe_protect
      maybe_protect-IsCalm r client_oid result =
          choose-IsCalm k (not (needs_protection result)) _ _ (pure-IsCalm k result) (
            bind-IsCalm k (install_protection py client alert r client_oid result.filled_qty) _
              (install_protection-IsCalm r client_oid result.filled_qty)
              λ installed.
                bind-IsCalm k (settle py client alert client_oid installed.1) _
                  (settle-IsCalm client_oid installed.1) λ passed. pure-IsCalm k _)

      pub resume-IsCalm :
          (r : LiveEntryRequest) (client_oid : String)
          → IsCalm k (resume py client alert r client_oid)
      unfolding resume
      resume-IsCalm r client_oid =
          bind-IsCalm k (reconcile_by_client_oid py client client_oid) _
            (reconcile_by_client_oid-IsCalm client_oid)
            λ result. maybe_protect-IsCalm r client_oid result

      -- What follows the entry order.
      pub after_post-IsCalm :
          (r : LiveEntryRequest) (client_oid : String) (intent : LiveIntentRecord)
          (answer : Result Fields)
          → IsCalm k (after_post py client alert r client_oid intent answer)
      unfolding after_post
      after_post-IsCalm r client_oid intent (err e) =
          choose-IsCalm k (is_unknown e) _ _
            (written-IsCalm k py (record intent { state = "unknown" }) _
              λ written. resume-IsCalm r client_oid)
            (raise-IsCalm k _ e)
      after_post-IsCalm r client_oid intent (ok submitted) =
          written-IsCalm k py (accepted_intent py client alert intent submitted) _ λ written.
            bind-IsCalm k (read_back py client client_oid written) _
              (read_back-IsCalm client_oid written)
              λ result. maybe_protect-IsCalm r client_oid result
