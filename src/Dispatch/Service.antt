-- ===== src/Dispatch/Service.antt =====
-- src/fatty_trader/execution/service.py: `DurableExecutionService`, over the in-memory queue.
-- A method is a function of the queue; what it wrote before it raised stays written.
pub mod Outcomes
use Prim.Native.String.{◌++◌}
use text.Mathlib.Text.{◌==◌}
use fatty_multi_exchange_tra.Prelude.{
  ℕ, String, Bool, true, false, ◌||◌, Option, none, some, List, [], ◌∷◌, is_none, any,
  if◌then◌else◌, not,
}
use fatty_multi_exchange_tra.Prelude.Int.{ℤ, pos}
use fatty_multi_exchange_tra.Prelude.Raise.{
  Error, Result, ok, err, value_error, lookup_error, key_error,
}
use fatty_multi_exchange_tra.Prelude.Texts.{show, prefix}
use fatty_multi_exchange_tra.Decimal.{Decimal}
use fatty_multi_exchange_tra.Domain.{
  Exchange, binance, bitget, DispatchState, preflight, sized, validated, submitting, acknowledged,
  filled, unknown, rejected, same_state,
}
use fatty_multi_exchange_tra.Domain.Models.{CanonicalSignal, SizingPlan}
use fatty_multi_exchange_tra.Domain.Transitions.{transition_dispatch}
use fatty_multi_exchange_tra.Dispatch.{
  Dispatch, Items, get, claim, release, set_state, pending_exchanges,
}

-- What a method call leaves: a value or an exception, and the queue.
abbrev pub Call : Type 0 → Type 0
Call A = Items → Result A × Items

abbrev pub continue : {A B : Type 0} → Result A × Items → (A → Call B) → Result B × Items
continue (ok a, q) f = f a q
continue (err e, q) f = (err e, q)

infixl 5 ◌>>=◌ ◌>>◌
abbrev pub ◌>>=◌ : {A B : Type 0} → Call A → (A → Call B) → Call B
◌>>=◌ m f q = continue (m q) f

abbrev pub ◌>>◌ : {A B : Type 0} → Call A → Call B → Call B
m >> k = m >>= λ _. k

abbrev pub pure : {A : Type 0} → A → Call A
pure a q = (ok a, q)

abbrev pub raise : {A : Type 0} → Error → Call A
raise e q = (err e, q)

-- A read of the queue that may raise, and a write that may raise and then writes nothing.
abbrev pub reads : {A : Type 0} → (Items → Result A) → Call A
reads f q = (f q, q)

abbrev pub written : Items → Result Items → Result (Unit {0}) × Items
written q (ok q') = (ok tt, q')
written q (err e) = (err e, q)

abbrev pub writes : (Items → Result Items) → Call Unit
writes f q = written q (f q)

pub record PaperOrderRequest : Type 0 where
  pub signal : CanonicalSignal
  pub exchange : Exchange
  pub sizing : SizingPlan

pub record PaperOrderResult : Type 0 where
  pub client_order_id : String
  pub venue_order_id : String
  pub filled_quantity : Decimal
  pub average_price : Decimal

exchange_name : Exchange → String
exchange_name binance = "binance"
exchange_name bitget = "bitget"

-- `PaperOrderRequest.client_order_id`
unfoldable pub client_order_id : PaperOrderRequest → String
unfolding exchange_name show prefix
client_order_id r =
    "paper-"
    ++ exchange_name r.exchange
    ++ "-"
    ++ show r.signal.source_message_id
    ++ "-"
    ++ prefix 16 r.signal.source_revision

-- `self._adapters`: the executor of each exchange that has one, and what it answers or raises.
abbrev pub Adapters : Type 0
Adapters = Exchange → Option (PaperOrderRequest → Result PaperOrderResult)

-- `_move`
unfoldable pub move : ℕ → DispatchState → Call Unit
move id target = do
  current ← reads (get id)
  next ← reads (λ q. transition_dispatch current.state target)
  writes (set_state id next)

-- `self._adapters[claimed.exchange](request)`
unfoldable pub call_adapter : Adapters → PaperOrderRequest → Result PaperOrderResult
call_adapter adapters r = elim (adapters r.exchange) [ none ↦ err key_error | some f ↦ f r ]

-- `if result.client_order_id != request.client_order_id: raise ValueError`
unfoldable pub check_order_id : PaperOrderRequest → PaperOrderResult → Result PaperOrderResult
check_order_id r answer =
    if answer.client_order_id == client_order_id r then ok answer else err value_error

abbrev pub request_of : Dispatch → SizingPlan → PaperOrderRequest
request_of d p = record { signal = d.signal; exchange = d.exchange; sizing = p }

-- The `try` block of `execute_once`, from the adapter's call on.
unfoldable pub submit : Adapters → Dispatch → SizingPlan → Call PaperOrderResult
submit adapters d p = do
  answer ← reads (λ q. call_adapter adapters (request_of d p))
  result ← reads (λ q. check_order_id (request_of d p) answer)
  move d.id acknowledged
  move d.id filled
  writes (release d.id)
  pure result

-- The `try` block of `execute_once`.
unfoldable pub attempt : Adapters → Dispatch → SizingPlan → Call PaperOrderResult
attempt adapters d p = do
  move d.id preflight
  move d.id sized
  move d.id validated
  move d.id submitting
  submit adapters d p

-- The state that the `except` block sets, if it sets one.
unfoldable pub failure_state : DispatchState → Option DispatchState
unfolding same_state
failure_state s =
    if same_state s submitting
    then some unknown
    else if same_state s unknown || same_state s filled
    then none
    else some rejected

set_if_some : ℕ → Option DispatchState → Call Unit
unfolding set_state
set_if_some id none = pure tt
set_if_some id (some s) = writes (set_state id s)

-- The `except` block of `execute_once`; it raises what it caught.
unfoldable pub settle_failure : ℕ → Error → Call PaperOrderResult
unfolding set_if_some get release
settle_failure id e = do
  current ← reads (get id)
  set_if_some id (failure_state current.state)
  writes (release id)
  raise e

abbrev pub recover : {A : Type 0} → Result A × Items → (Error → Call A) → Result A × Items
recover (ok a, q) handler = (ok a, q)
recover (err e, q) handler = handler e q

-- `try: ... except Exception: ...`
abbrev pub or_else : {A : Type 0} → Call A → (Error → Call A) → Call A
or_else m handler q = recover (m q) handler

unfoldable pub execute_claimed :
    Adapters → Option Dispatch → Option SizingPlan → Call PaperOrderResult
execute_claimed adapters none sizing = raise lookup_error
execute_claimed adapters (some d) none = raise value_error
execute_claimed adapters (some d) (some p) = or_else (attempt adapters d p) (settle_failure d.id)

-- `claim` as a call that also writes the queue.
claim_result : Items → Result (Option Dispatch × Items) → Result (Option Dispatch) × Items
claim_result q (ok (d, q')) = (ok d, q')
claim_result q (err e) = (err e, q)

claim_call : String → ℕ → Call (Option Dispatch)
unfolding claim_result
claim_call worker now q = claim_result q (claim worker now (pos 60) q)

unfoldable pub execute_once : Adapters → String → ℕ → Option SizingPlan → Call PaperOrderResult
unfolding claim_call
execute_once adapters worker now sizing q =
    if any (λ e. is_none (adapters e)) (pending_exchanges q)
    then (err value_error, q)
    else (claim_call worker now >>= λ claimed. execute_claimed adapters claimed sizing) q
