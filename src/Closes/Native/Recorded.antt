-- ===== src/Closes/Native/Recorded.antt =====
-- src/fatty_trader/exchanges/bitget/native_close.py: a native close is recorded as a close intent
-- and bound to its entry.
pub mod Repeat
use text.Mathlib.Text.{◌==◌}
use fatty_multi_exchange_tra.Prelude.{
  String, Bool, true, false, ◌&&◌, Option, none, some, [], ◌∷◌, ◌++◌, any,
}
use fatty_multi_exchange_tra.Prelude.Raise.{Error, Result, ok, err, value_error, native_close_error}
use fatty_multi_exchange_tra.Prelude.Calls.{Call, ◌>>=◌, ◌>>◌, pure, raise, or_else, choose}
use fatty_multi_exchange_tra.Decimal.{◌+ᵈ◌}
use fatty_multi_exchange_tra.Live.Values.{Fields, Runtime}
use fatty_multi_exchange_tra.Live.Record.{LiveIntentRecord, new_record}
use fatty_multi_exchange_tra.Live.Store.{LiveStore, claim, update, get as get_record}
use fatty_multi_exchange_tra.Live.Ownership.{bind_native_close}
use fatty_multi_exchange_tra.Closes.Facts.{PlanCloseFill, symbol_name, normalize_plan_close_fill}
use fatty_multi_exchange_tra.Closes.Native.{
  NativePlanClose, Answers, is_text, is_plan, answered, order_client_oid, native_of,
}

module _ (py : Runtime) (upper : String → String) where
  close_record : NativePlanClose → LiveIntentRecord
  close_record native =
      record (new_record native.exchange native.close_oid native.symbol native.side
        native.quantity) {
          role = "CLOSE";
          state = "filled";
          filled_qty = native.quantity;
          avg_price = some native.price;
          fee = native.fee;
          provider_order_id = some native.executed_order_id;
          provider_fill_ids = native.provider_fill_id ∷ [];
          provider_fills = native.payload ∷ [];
        }

  -- `except ValueError` of the claim, which raises no other of its kind.
  claim_conflict : Error → Call LiveStore Bool
  claim_conflict value_error = raise native_close_error
  claim_conflict e = raise e

  merged : NativePlanClose → LiveIntentRecord → LiveIntentRecord
  merged native existing = record existing {
    state = "filled";
    requested_qty = existing.requested_qty +ᵈ native.quantity;
    filled_qty = existing.filled_qty +ᵈ native.quantity;
    provider_fill_ids = existing.provider_fill_ids ++ (native.provider_fill_id ∷ []);
    provider_fills = existing.provider_fills ++ (native.payload ∷ []);
  }

  written : LiveIntentRecord → Call LiveStore (Unit {0})
  unfolding update
  written r = update py r >>= λ after. pure tt

  -- The close was claimed before.
  known_close : NativePlanClose → Option LiveIntentRecord → Call LiveStore (Unit {0})
  unfolding is_text merged written
  known_close native none = raise native_close_error
  known_close native (some existing) =
      choose (is_text existing.provider_order_id native.executed_order_id)
        (choose (any (λ id. id == native.provider_fill_id) existing.provider_fill_ids) (pure tt)
          (written (merged native existing)))
        (raise native_close_error)

  bound : Result LiveStore → Call LiveStore (Unit {0})
  bound (err e) s = (err e, s)
  bound (ok after) s = (ok tt, after)

  bind_close : NativePlanClose → Call LiveStore (Unit {0})
  unfolding bound bind_native_close
  bind_close native s =
      bound
        (bind_native_close native.root_oid native.close_oid native.plan_oid native.executed_order_id
          s)
        s

  known : NativePlanClose → Call LiveStore (Unit {0})
  unfolding known_close get_record
  known native s = known_close native (get_record native.close_oid s) s

  unfoldable pub reconcile_native_plan_close : NativePlanClose → Call LiveStore Bool
  unfolding claim close_record claim_conflict written known bind_close
  reconcile_native_plan_close native =
      or_else (claim (close_record native)) claim_conflict >>= λ created.
      choose created (written (close_record native)) (known native)
      >> (bind_close native >> pure created)

  module _ (answers : Answers) where
    by_entry :
        PlanCloseFill → String → LiveIntentRecord → Option LiveIntentRecord → Call LiveStore Bool
    unfolding is_text symbol_name native_of reconcile_native_plan_close
    by_entry facts client_oid plan none = pure false
    by_entry facts client_oid plan (some root) =
        choose
          (root.role == "ENTRY"
            && is_text plan.provider_order_id client_oid
            && symbol_name py upper plan.symbol == symbol_name py upper root.symbol)
          (reconcile_native_plan_close (native_of py upper root facts plan) >>= λ created.
            pure true)
          (pure false)

    by_root : PlanCloseFill → String → LiveIntentRecord → Option String → Call LiveStore Bool
    unfolding by_entry get_record
    by_root facts client_oid plan none s = (ok false, s)
    by_root facts client_oid plan (some root_oid) s =
        by_entry facts client_oid plan (get_record root_oid s) s

    by_plan : PlanCloseFill → String → Option LiveIntentRecord → Call LiveStore Bool
    unfolding by_root is_plan
    by_plan facts client_oid none = pure false
    by_plan facts client_oid (some plan) =
        choose (is_plan plan) (by_root facts client_oid plan plan.protection_root_oid) (pure false)

    by_order : PlanCloseFill → Option String → Call LiveStore Bool
    unfolding by_plan
    by_order facts none = pure false
    by_order facts (some client_oid) = by_plan facts client_oid (answers.plan_owner client_oid)

    by_facts : Result PlanCloseFill → Call LiveStore Bool
    unfolding by_order order_client_oid answered
    by_facts (err e) = pure false
    by_facts (ok facts) = by_order facts (
        order_client_oid py upper
          (answered (answers.read_order_detail facts.symbol facts.provider_order_id)))

    unfoldable pub bind_native_plan_close_from_fill : Fields → Call LiveStore Bool
    unfolding by_facts normalize_plan_close_fill
    bind_native_plan_close_from_fill payload = by_facts (normalize_plan_close_fill py upper payload)
