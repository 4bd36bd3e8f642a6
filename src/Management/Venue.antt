-- ===== src/Management/Venue.antt =====
-- The venue as the executor calls it, and the log of the calls: `SourceManagementGateway` of
-- src/fatty_trader/execution/source_management.py.
pub mod Positions
use text.Mathlib.Text.{◌==◌}
use fatty_multi_exchange_tra.Prelude.{
  ℕ, zero, suc, String, Bool, ◌||◌, Option, some, List, [], ◌∷◌, if◌then◌else◌,
}
use fatty_multi_exchange_tra.Prelude.Raise.{Result, ok, err, value_error, ◌>>=◌}
use fatty_multi_exchange_tra.Prelude.Calls.{Call}
use fatty_multi_exchange_tra.Decimal.{Decimal, le}
use fatty_multi_exchange_tra.Domain.Models.{zero_dec}
use fatty_multi_exchange_tra.Live.Values.{Value, number, string, Fields, get}
use fatty_multi_exchange_tra.Management.Updates.{MemoryStore}

-- The calls that may change something at the venue, and the readback of a stop's intent.
pub data Event : Type 0 where
  entries_cancelled : String → String → Bool → Event
  closed : String → String → Decimal → String → Event
  stop_reconciled : String → Event
  stop_replaced : String → String → Decimal → Decimal → String → Event

-- The calls so far, the last one first.
abbrev pub Log : Type 0
Log = List Event

-- The venue's answers, by what it was asked to do before. A call that raises may have taken effect
-- all the same. `normalize_tp1_close_quantity` is `none` where the gateway has no such method.
pub record Gateway : Type 0 where
  pub get_positions : String → Log → Result (List Fields)
  pub get_orders : String → Log → Result (List Fields)
  pub cancel_pending_entries : String → String → Bool → Log → Result Bool
  pub close_reduce_only : String → String → Decimal → String → Log → Result (Unit {0})
  pub normalize_tp1_close_quantity : Option (String → Decimal → Log → Result Decimal)
  pub reconcile_stop_loss : String → Log → Result (Unit {0})
  pub replace_stop_loss : String → String → Decimal → Decimal → String → Log → Result (Unit {0})

-- What a run reads and changes.
pub record World : Type 0 where
  pub store : MemoryStore
  pub log : Log

-- A read: it is not logged.
abbrev pub read : {A : Type 0} → (Log → Result A) → Call World A
read answer w = (answer w.log, w)

-- A call that may take effect, whatever it answers.
abbrev pub act : {A : Type 0} → Event → (Log → Result A) → Call World A
act event answer w = (answer w.log, record w { log = event ∷ w.log })

-- The outcome of a call of the store, with what it left there.
abbrev pub with_store : {A : Type 0} → Log → Result A × MemoryStore → Result A × World
with_store log (r, s) = (r, record { store = s; log = log })

-- A call of the store.
abbrev pub stored : {A : Type 0} → Call MemoryStore A → Call World A
stored m w = with_store w.log (m w.store)

-- How many closes and stops with the client id the log has posted.
unfoldable pub posts : String → Log → ℕ
posts k [] = zero
posts k (closed symbol side q oid ∷ log) =
    let more = posts k log in if oid == k then suc more else more
posts k (stop_replaced symbol side q stop oid ∷ log) =
    let more = posts k log in if oid == k then suc more else more
posts k (entries_cancelled symbol id readback ∷ log) = posts k log
posts k (stop_reconciled oid ∷ log) = posts k log

pub record Position : Type 0 where
  pub size : Decimal
  pub side : String
  pub entry : Decimal

-- A decimal above 0. A `number` of a position stands for a `Decimal`.
positive_field : Option Value → Result Decimal
positive_field (some (number d)) = if le d zero_dec then err value_error else ok d
positive_field _ = err value_error

side_field : Option Value → Result String
side_field (some (string s)) = if s == "LONG" || s == "SHORT" then ok s else err value_error
side_field _ = err value_error

position_of : Fields → Result Position
unfolding get positive_field side_field
position_of m = do
  size ← positive_field (get "size" m)
  side ← side_field (get "side" m)
  entry ← positive_field (get "entry" m)
  ok (record { size = size; side = side; entry = entry })

-- `_one_position`, of positions that were read
unfoldable pub one_position : List Fields → Result Position
unfolding position_of
one_position (m ∷ []) = position_of m
one_position _ = err value_error
