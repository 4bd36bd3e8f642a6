-- ===== src/Management/Endings.antt =====
-- What a run of the source-management executor is set to, what it returns and how it ends:
-- src/fatty_trader/execution/source_management.py.
use fatty_multi_exchange_tra.Prelude.{
  ℕ, String, Bool, true, false, Option, some, if◌then◌else◌, ◌==◌,
}
use text.Mathlib.Text.{◌==◌ as str_eq}
use fatty_multi_exchange_tra.Prelude.Raise.{
  Error, value_error, sizing_error, liquidation_guard_error, transition_error, setup_error,
  source_freshness_expired, key_error, not_found_error, type_error, native_close_error,
  provider_fill_error,
}
use fatty_multi_exchange_tra.Prelude.Calls.{Call, ◌>>◌, pure}
use fatty_multi_exchange_tra.Management.Updates.{
  ManagementAction, tp1_booked, sl_to_entry, UpdateState, SourceManagementUpdate, update_state,
  alert_outcome,
}
use fatty_multi_exchange_tra.Management.Venue.{Gateway, Log, World, stored}

-- `eligible` is what `management_is_eligible` answers, by the venue's calls so far. `retry_seconds`
-- is left out: the store in memory does not read it.
pub record Executor : Type 0 where
  pub gateway : Gateway
  pub eligible : Log → Bool
  pub mutations_enabled : Bool
  pub max_attempts : ℕ

-- `max(1, max_attempts)`
abbrev pub attempts_limit : Executor → ℕ
attempts_limit ex = if ex.max_attempts == 0 then 1 else ex.max_attempts

-- What `run_once` returns.
pub data Outcome : Type 0 where
  idle mutations_disabled : Outcome
  ended : UpdateState → Outcome

abbrev pub close_oid : String → String
close_oid id = Prim.Native.String.◌++◌ "source-management-" (Prim.Native.String.◌++◌ id "-close")

abbrev pub sl_oid : String → String
sl_oid id = Prim.Native.String.◌++◌ "source-management-" (Prim.Native.String.◌++◌ id "-sl")

-- `action in {TP1_BOOKED, SL_TO_ENTRY}`
unfoldable pub moves_stop : ManagementAction → Bool
moves_stop tp1_booked = true
moves_stop sl_to_entry = true
moves_stop _ = false

-- `action in {CLOSE, TP1_BOOKED, TP_BOOKED}`
unfoldable pub cancels_entries : ManagementAction → Bool
cancels_entries sl_to_entry = false
cancels_entries _ = true

-- The exceptions that are a ValueError, a KeyError or a TypeError.
unfoldable pub fails_update : Error → Bool
fails_update value_error = true
fails_update sizing_error = true
fails_update liquidation_guard_error = true
fails_update transition_error = true
fails_update setup_error = true
fails_update source_freshness_expired = true
fails_update key_error = true
fails_update not_found_error = true
fails_update type_error = true
fails_update native_close_error = true
fails_update provider_fill_error = true
fails_update _ = false

-- `_finish`
unfoldable pub finish : SourceManagementUpdate → UpdateState → Call World (Unit {0})
finish u state = stored (update_state u.id state) >> stored (alert_outcome u state)

-- `self._finish(update, state); return outcome`
unfoldable pub finished :
    SourceManagementUpdate → UpdateState → Outcome → Call World (Option Outcome)
unfolding finish
finished u state outcome = finish u state >> pure (some outcome)

-- The side that closes a position.
unfoldable pub closing_side : String → String
closing_side side = if str_eq side "LONG" then "SELL" else "BUY"
