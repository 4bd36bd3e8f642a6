-- ===== src/Domain.antt =====
-- src/fatty_trader/domain/enums.py: the enumerations that the whole program shares.
pub mod Transitions
pub mod Models
use fatty_multi_exchange_tra.Prelude.{ℕ, Bool, ◌==◌}

pub data Exchange : Type 0 where
  binance bitget : Exchange

pub data Direction : Type 0 where
  long short : Direction

pub data MarginMode : Type 0 where
  isolated crossed : MarginMode

pub data DispatchState : Type 0 where
  queued preflight sized validated submitting acknowledged : DispatchState
  pending_fill partially_filled filled protecting active closing : DispatchState
  closed expired rejected retry_wait unknown manual_review failed : DispatchState

-- The position of a state in the enumeration.
abbrev ordinal : DispatchState → ℕ
ordinal queued = 0
ordinal preflight = 1
ordinal sized = 2
ordinal validated = 3
ordinal submitting = 4
ordinal acknowledged = 5
ordinal pending_fill = 6
ordinal partially_filled = 7
ordinal filled = 8
ordinal protecting = 9
ordinal active = 10
ordinal closing = 11
ordinal closed = 12
ordinal expired = 13
ordinal rejected = 14
ordinal retry_wait = 15
ordinal unknown = 16
ordinal manual_review = 17
ordinal failed = 18

-- `a is b` on members of the enumeration
unfoldable pub same_state : DispatchState → DispatchState → Bool
same_state a b = ordinal a == ordinal b
