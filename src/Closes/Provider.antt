-- ===== src/Closes/Provider.antt =====
-- src/fatty_trader/exchanges/bitget/provider_fill_reconciliation.py: an exit that the venue reports
-- without a client id is recorded as a close intent under an id of its own. `digest` is the first 24
-- hexadecimal digits of the SHA-256 of a text.
pub mod Repeat
use text.Mathlib.Text.{◌==◌}
use fatty_multi_exchange_tra.Prelude.{
  String, Bool, true, false, ◌&&◌, Option, none, some, List, [], ◌∷◌, any,
}
use fatty_multi_exchange_tra.Prelude.Raise.{Result, ok, err, provider_fill_error}
use fatty_multi_exchange_tra.Prelude.Calls.{Call, ◌>>=◌, ◌>>◌, pure, raise, lift, choose}
use fatty_multi_exchange_tra.Live.Values.{Fields, Runtime}
use fatty_multi_exchange_tra.Live.Record.{LiveIntentRecord, new_record}
use fatty_multi_exchange_tra.Live.Store.{LiveStore, claim, update, get, record_provider_event}
use fatty_multi_exchange_tra.Closes.Facts.{ProviderExitObservation, normalize_provider_exit}

pub record ProviderExitReconciliation : Type 0 where
  pub source : String
  pub client_oid : String
  pub provider_order_id : Option String
  pub provider_fill_id : String
  pub stored : LiveIntentRecord
  pub created : Bool

or_blank : Option String → String
or_blank none = ""
or_blank (some s) = s

same_id : Option String → Option String → Bool
same_id none none = true
same_id (some a) (some b) = a == b
same_id _ _ = false

-- `"|".join((a, b))`
joined : String → String → String
joined a b = Prim.Native.String.◌++◌ a (Prim.Native.String.◌++◌ "|" b)

module _ (py : Runtime) (upper digest : String → String) where
  unfoldable pub exit_client_oid : ProviderExitObservation → String
  unfolding or_blank joined
  exit_client_oid o = Prim.Native.String.◌++◌ "provider-" (
      Prim.Native.String.◌++◌ o.exchange (
        Prim.Native.String.◌++◌ "-" (
          digest (
            joined o.exchange
              (joined o.symbol (joined (or_blank o.provider_order_id) o.provider_fill_id))))))

  exit_record : ProviderExitObservation → LiveIntentRecord
  unfolding exit_client_oid
  exit_record o = record (new_record o.exchange (exit_client_oid o) o.symbol o.side o.quantity) {
    role = "CLOSE";
    state = "filled";
    filled_qty = o.quantity;
    avg_price = some o.price;
    fee = o.fee;
    provider_order_id = o.provider_order_id;
    provider_fill_ids = o.provider_fill_id ∷ [];
    provider_fills = o.payload ∷ [];
  }

  replaced : ProviderExitObservation → LiveIntentRecord → LiveIntentRecord
  replaced o existing = record existing {
    state = "filled";
    filled_qty = o.quantity;
    avg_price = some o.price;
    fee = o.fee;
    provider_fill_ids = o.provider_fill_id ∷ [];
    provider_fills = o.payload ∷ [];
  }

  -- The exit was claimed before.
  known_exit : ProviderExitObservation → Option LiveIntentRecord → Call LiveStore LiveIntentRecord
  unfolding same_id replaced update
  known_exit o none = raise provider_fill_error
  known_exit o (some existing) =
      choose (same_id existing.provider_order_id o.provider_order_id)
        (choose (any (λ id. id == o.provider_fill_id) existing.provider_fill_ids) (pure existing)
          (update py (replaced o existing)))
        (raise provider_fill_error)

  known : ProviderExitObservation → Call LiveStore LiveIntentRecord
  unfolding known_exit get exit_client_oid
  known o s = known_exit o (get (exit_client_oid o) s) s

  noted :
      ProviderExitObservation → LiveIntentRecord → Bool → Call LiveStore ProviderExitReconciliation
  unfolding record_provider_event exit_client_oid
  noted o stored created s = (
    ok (record {
      source = o.source;
      client_oid = exit_client_oid o;
      provider_order_id = o.provider_order_id;
      provider_fill_id = o.provider_fill_id;
      stored = stored;
      created = created;
    }),
    record_provider_event o.exchange o.provider_fill_id o.source s,
  )

  observed : ProviderExitObservation → Call LiveStore ProviderExitReconciliation
  unfolding claim exit_record update known noted
  observed o = claim (exit_record o) >>= λ created.
      choose created (update py (exit_record o)) (known o) >>= λ stored. noted o stored created

  unfoldable pub reconcile_provider_exit :
      String → Fields → Call LiveStore ProviderExitReconciliation
  unfolding observed normalize_provider_exit
  reconcile_provider_exit exchange payload =
      lift (normalize_provider_exit py upper exchange payload) >>= observed
