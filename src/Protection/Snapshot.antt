-- ===== src/Protection/Snapshot.antt =====
-- What the watchdog reads of the socket and of the provider, and the reasons that it gives:
-- src/fatty_trader/execution/bitget_protection_watchdog.py.
use text.Mathlib.Text.{◌==◌}
use fatty_multi_exchange_tra.Prelude.{
  String, Bool, false, ◌&&◌, Option, none, some, List, all, if◌then◌else◌,
}
use fatty_multi_exchange_tra.Decimal.{Decimal, of_int, le}

-- The states of `WebSocketConnectionState` and `V2ConnectionState`.
pub data SocketState : Type 0 where
  disconnected connecting connected lagging reconnecting broken : SocketState

pub data Reason : Type 0 where
  socket_not_connected stream_stale position_read_failed position_invalid latched : Reason

-- A row of a position answer; `none` where the field is missing, of another type, or no finite
-- number.
pub record PositionRow : Type 0 where
  pub symbol : Option String
  pub total : Option Decimal

-- What a call of `read_position` brings: it raises, or it answers with no list, or with rows.
pub data PositionAnswer : Type 0 where
  raised no_list : PositionAnswer
  rows : List PositionRow → PositionAnswer

valid_total : Option Decimal → Bool
valid_total none = false
valid_total (some q) = le (of_int 0) q

names : Option String → String → Bool
names none s = false
names (some t) s = t == s

-- `_valid_position_snapshot`
unfoldable pub valid_position_snapshot : PositionAnswer → String → Bool
unfolding names valid_total
valid_position_snapshot (rows rs) s = all (λ r. names r.symbol s && valid_total r.total) rs
valid_position_snapshot _ s = false

-- The reason that a symbol's position read adds, if any.
unfoldable pub read_reason : PositionAnswer → String → Option Reason
read_reason raised s = some position_read_failed
read_reason answer s = if valid_position_snapshot answer s then none else some position_invalid
