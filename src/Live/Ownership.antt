-- ===== src/Live/Ownership.antt =====
-- What the in-memory intent store answers of the positions that it owns: the selections of records,
-- the closes bound to an entry, the active stop and the quantity that is left. The source is
-- src/fatty_trader/exchanges/bitget/live.py.
pub mod Bindings
use text.Mathlib.Text.{◌==◌}
use fatty_multi_exchange_tra.Prelude.{
  String, Bool, true, false, not, ◌&&◌, ◌||◌, Option, none, some, List, [], ◌∷◌, map, is_some, any,
  all, if◌then◌else◌,
}
use fatty_multi_exchange_tra.Prelude.Raise.{
  Result, ok, err, value_error, key_error, raise_if, ◌>>=◌, ◌>>◌,
}
use fatty_multi_exchange_tra.Prelude.Texts.{prefix}
use fatty_multi_exchange_tra.Prelude.Dict.{Dict, store}
use fatty_multi_exchange_tra.Decimal.{Decimal, lt, le, eq, ◌+ᵈ◌, ◌-ᵈ◌}
use fatty_multi_exchange_tra.Domain.Models.{zero_dec}
use fatty_multi_exchange_tra.Live.Values.{Fields, Runtime}
use fatty_multi_exchange_tra.Live.Fills.{Summary, normalize_fill, summarize_fills}
use fatty_multi_exchange_tra.Live.Record.{LiveIntentRecord}
use fatty_multi_exchange_tra.Live.Store.{LiveStore, get}

-- The records that pass a test, in the order of their insertion.
unfoldable pub select : (LiveIntentRecord → Bool) → Dict LiveIntentRecord → List LiveIntentRecord
select p [] = []
select p ((k, r) ∷ rest) = let more = select p rest in if p r then r ∷ more else more

-- `value == k`, where the value may be None
same : String → Option String → Bool
same k none = false
same k (some j) = j == k

same_option : Option String → Option String → Bool
unfolding same
same_option none none = true
same_option none (some k) = false
same_option (some j) k = same j k

is_closed : String → LiveIntentRecord → Bool
is_closed symbol r =
    r.symbol == symbol
    && (r.role == "CLOSE" || r.role == "EMERGENCY_CLOSE")
    && (r.state == "filled" || r.state == "reconciled")

unfoldable pub symbol_close_intents : String → LiveStore → List LiveIntentRecord
unfolding select is_closed
symbol_close_intents symbol s = select (is_closed symbol) s.records

-- `symbol is None or record.symbol == symbol`
symbol_matches : Option String → String → Bool
symbol_matches none symbol = true
symbol_matches (some wanted) symbol = symbol == wanted

is_pending : Option String → Option String → LiveIntentRecord → Bool
unfolding same same_option symbol_matches
is_pending symbol management r =
    r.exchange == "bitget"
    && r.role == "ENTRY"
    && same "limit" r.entry_leg
    && (not r.provider_terminal
        || same_option r.cancel_requested_by management && is_some management)
    && symbol_matches symbol r.symbol

unfoldable pub pending_entries : Option String → Option String → LiveStore → List LiveIntentRecord
unfolding select is_pending
pending_entries symbol management s = select (is_pending symbol management) s.records

is_protection : LiveIntentRecord → Bool
is_protection r = r.role == "SL" || r.role == "TP"

unfoldable pub protection_intents : String → LiveStore → List LiveIntentRecord
unfolding select same is_protection
protection_intents root s =
    select (λ r. same root r.protection_root_oid && is_protection r) s.records

first_of : List LiveIntentRecord → Option LiveIntentRecord
first_of [] = none
first_of (r ∷ rs) = some r

unfoldable pub protection_intent_by_provider_order_id :
    String → String → LiveStore → Option LiveIntentRecord
unfolding first_of select same is_protection
protection_intent_by_provider_order_id exchange id s = first_of (
    select (λ r. r.exchange == exchange && same id r.provider_order_id && is_protection r)
      s.records)

-- `self._records[k]`
unfoldable pub owned : LiveStore → String → Result LiveIntentRecord
unfolding get
owned s k = elim (get k s) [ none ↦ err key_error | some r ↦ ok r ]

-- `not value`, of a text that may be None
missing : Option String → Bool
missing none = true
missing (some k) = k == ""

-- The mismatches that `bind_native_close` refuses.
misowned : String → String → LiveIntentRecord → LiveIntentRecord → LiveIntentRecord → Bool
unfolding same missing
misowned root_oid executed root plan close =
    not (same root_oid plan.protection_root_oid)
    || missing plan.provider_order_id
    || not (close.role == "CLOSE")
    || not (same executed close.provider_order_id)
    || not (close.symbol == root.symbol)
    || close.side == root.side

unfoldable pub bind_native_close : String → String → String → String → LiveStore → Result LiveStore
unfolding owned misowned store
bind_native_close root_oid close_oid plan_oid executed s = do
  root ← owned s root_oid
  plan ← owned s plan_oid
  close ← owned s close_oid
  raise_if (misowned root_oid executed root plan close) value_error
  ok (record s { close_bindings = store close_oid root_oid s.close_bindings })

-- `management.planned_stop_loss != stop`
other_stop : Option Decimal → Decimal → Bool
other_stop none stop = true
other_stop (some planned) stop = not (eq planned stop)

with_stop : Decimal → LiveIntentRecord → LiveIntentRecord
with_stop stop r = record r { active_stop_loss_price = some stop }

-- The stop of one record, which stays at its key.
put_stop : String → Decimal → Option LiveIntentRecord → LiveStore → LiveStore
unfolding with_stop store
put_stop k stop none s = s
put_stop k stop (some r) s = record s { records = store k (with_stop stop r) s.records }

-- `root_oid + "-limit"`
abbrev pub limit_oid : String → String
limit_oid root_oid = Prim.Native.String.◌++◌ root_oid "-limit"

unfoldable pub update_active_stop :
    String → String → Decimal → String → LiveStore → Result LiveStore
unfolding owned same other_stop put_stop get
update_active_stop symbol root_oid stop management_id s = do
  root ← owned s root_oid
  management ← owned s management_id
  raise_if
      (not (root.symbol == symbol)
        || not (management.role == "SL")
        || not (same root_oid management.stop_mutation_root_oid)
        || other_stop management.planned_stop_loss stop)
      value_error
  let moved = put_stop root_oid stop (some root) s in
      ok (put_stop (limit_oid root_oid) stop (get (limit_oid root_oid) moved) moved)

-- The fills that are stored under one client id.
fills_of : String → List (String × Fields) → List Fields
fills_of k [] = []
fills_of k ((oid, fill) ∷ rest) =
    let more = fills_of k rest in if oid == k then fill ∷ more else more

contains : String → List String → Bool
contains k ks = any (λ j. j == k) ks

-- `set(a) == set(b)`
same_set : List String → List String → Bool
unfolding contains
same_set a b = all (λ k. contains k b) a && all (λ k. contains k a) b

-- `fid.startswith("status-derived:")`
is_derived : String → Bool
unfolding prefix
is_derived fid = prefix 15 fid == "status-derived:"

module _ (py : Runtime) where
  -- What makes a bound close no exact evidence.
  unproved : LiveIntentRecord → LiveIntentRecord → Summary → Bool
  unfolding missing same_set is_derived
  unproved root close fills =
      not (close.symbol == root.symbol)
      || close.side == root.side
      || missing close.provider_order_id
      || not (eq fills.quantity close.filled_qty)
      || not (same_set fills.ids close.provider_fill_ids)
      || any is_derived fills.ids

  ledger_of : LiveStore → String → Summary
  unfolding fills_of normalize_fill summarize_fills
  ledger_of s k = summarize_fills py (map (normalize_fill py) (fills_of k s.fills))

  -- One close of the loop.
  without_close : LiveStore → LiveIntentRecord → String → Decimal → Result Decimal
  unfolding unproved ledger_of owned
  without_close s root close_oid total = do
    close ← owned s close_oid
    if le close.filled_qty zero_dec then ok total else (do
      raise_if (unproved root close (ledger_of s close_oid)) value_error
      ok (total -ᵈ (ledger_of s close_oid).quantity))

  without_closes : LiveStore → String → LiveIntentRecord → Dict String → Decimal → Result Decimal
  unfolding without_close
  without_closes s root_oid root [] total = ok total
  without_closes s root_oid root ((close_oid, owner) ∷ rest) total =
      (if owner == root_oid then without_close s root close_oid total else ok total)
      >>= without_closes s root_oid root rest

  filled_of : Option LiveIntentRecord → Decimal
  filled_of none = zero_dec
  filled_of (some r) = r.filled_qty

  unfoldable pub remaining_owned_quantity : LiveStore → String → Result Decimal
  unfolding owned without_closes filled_of get
  remaining_owned_quantity s root_oid = do
    root ← owned s root_oid
    total ←
        without_closes s root_oid root s.close_bindings
          (root.filled_qty +ᵈ filled_of (get (limit_oid root_oid) s))
    raise_if (lt total zero_dec) value_error
    ok total
