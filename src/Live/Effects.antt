-- ===== src/Live/Effects.antt =====
-- The venue as the live lane calls it, and the log of the calls: `BitgetLiveClientProtocol` of
-- src/fatty_trader/exchanges/bitget/live.py.
use fatty_multi_exchange_tra.Prelude.{ℕ, zero, suc, String, Option, List, [], ◌∷◌, if◌then◌else◌}
use text.Mathlib.Text.{◌==◌}
use fatty_multi_exchange_tra.Prelude.Int.{ℤ}
use fatty_multi_exchange_tra.Prelude.Raise.{Result}
use fatty_multi_exchange_tra.Prelude.Calls.{Call}
use fatty_multi_exchange_tra.Decimal.{Decimal}
use fatty_multi_exchange_tra.Protection.Orders.{
  ProtectionPlan, ProtectionConfirmation, ProtectionReport, Side,
}
use fatty_multi_exchange_tra.Live.Values.{Fields, Items}
use fatty_multi_exchange_tra.Live.Store.{LiveStore}

-- The checks of its values are in `request_checks`.
pub record LiveEntryRequest : Type 0 where
  pub exchange : String
  pub symbol : String
  pub side : String
  pub quantity : Decimal
  pub leverage : ℤ
  pub stop_loss : Decimal
  pub take_profits : List Decimal
  pub client_oid : Option String
  pub oid_token : Option String

-- The calls that change something at the venue, and the alert.
pub data Event : Type 0 where
  set_margin_mode : String → String → Event
  set_leverage : String → String → Event
  posted : String → Decimal → Event
  protected : ProtectionPlan → String → Event
  closed : String → Decimal → Event
  alerted : String → Event

-- The calls so far, the last one first.
abbrev pub Log : Type 0
Log = List Event

-- The venue's answers, by what it was asked to do before. An entry or a close that raises may have
-- reached the venue all the same.
pub record Client : Type 0 where
  pub get_available_balance : Log → Result Decimal
  pub get_positions : String → Log → Result Items
  pub get_symbol_metadata : String → Log → Result (Unit {0})
  pub get_current_price : String → Log → Result Decimal
  pub get_position_mode : Log → Result String
  pub get_margin_mode : String → Log → Result String
  pub get_leverage : String → Log → Result String
  pub set_margin_mode : String → String → Log → Result (Unit {0})
  pub set_leverage : String → String → Log → Result (Unit {0})
  pub place_entry_order : LiveEntryRequest → String → Log → Result Fields
  pub get_order_detail : String → String → Log → Result Fields
  pub get_fills : String → String → Log → Result (List Fields)
  pub place_protection_orders : Log → ProtectionPlan → Side → String → Result ProtectionConfirmation
  pub read_protection_state : Log → String → Option String → List String → Result ProtectionReport
  pub place_market_close : String → String → Decimal → String → Log → Result Fields

-- What a call of the live lane reads and changes.
pub record World : Type 0 where
  pub store : LiveStore
  pub log : Log

-- A read: it is not logged.
abbrev pub read : {A : Type 0} → (Log → Result A) → Call World A
read answer w = (answer w.log, w)

-- A call that may take effect, whatever it answers.
abbrev pub act : {A : Type 0} → Event → (Log → Result A) → Call World A
act event answer w = (answer w.log, record w { log = event ∷ w.log })

-- The outcome of a call of the store, with what it left there.
abbrev pub with_store : {A : Type 0} → Log → Result A × LiveStore → Result A × World
with_store log (r, s) = (r, record { store = s; log = log })

-- A call of the store.
abbrev pub stored : {A : Type 0} → Call LiveStore A → Call World A
stored m w = with_store w.log (m w.store)

-- How many entry orders with the client id the log has posted.
unfoldable pub posts : String → Log → ℕ
posts k [] = zero
posts k (posted oid q ∷ log) = if oid == k then suc (posts k log) else posts k log
posts k (set_margin_mode symbol mode ∷ log) = posts k log
posts k (set_leverage symbol leverage ∷ log) = posts k log
posts k (protected plan oid ∷ log) = posts k log
posts k (closed oid q ∷ log) = posts k log
posts k (alerted oid ∷ log) = posts k log
