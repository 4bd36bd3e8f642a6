-- ===== src/Dispatch.antt =====
-- src/fatty_trader/storage/memory.py: the dispatch queue with its claims and leases.
-- Instants are whole microseconds, the resolution of Python's `datetime`.
pub mod Keys
pub mod Claims
pub mod Creation
pub mod Service
use fatty_multi_exchange_tra.Prelude.{
  ℕ, suc, ◌+◌, ◌*◌, String, Bool, true, false, ◌&&◌, ◌||◌, Option, none, some, List, [], ◌∷◌, ◌++◌,
  leb, length, is_none, if◌then◌else◌, ◌==◌, zero,
}
use text.Mathlib.Text.{◌==◌ as str_eq}
use fatty_multi_exchange_tra.Prelude.Int.{ℤ, pos, negsuc}
use fatty_multi_exchange_tra.Prelude.Raise.{Result, ok, err, value_error, key_error}
use fatty_multi_exchange_tra.Domain.{Exchange, DispatchState, queued, retry_wait, same_state}
use fatty_multi_exchange_tra.Domain.Models.{CanonicalSignal, same_signal}

pub record Dispatch : Type 0 where
  pub id : ℕ
  pub signal : CanonicalSignal
  pub exchange : Exchange
  pub state : DispatchState
  pub claimed_by : Option String
  pub lease_until : Option ℕ
  pub attempts : ℕ
  pub terminal_reason : Option String

-- `self._items`, a dict in insertion order.
abbrev pub Items : Type 0
Items = List (ℕ × Dispatch)

-- `InMemoryDispatchRepository()`
abbrev pub empty : Items
empty = []

-- `self._items.get(dispatch_id)`
unfoldable pub find : ℕ → Items → Option Dispatch
find k [] = none
find k ((j, d) ∷ items) = if j == k then some d else find k items

-- `self._items[dispatch_id] = item`
unfoldable pub store : ℕ → Dispatch → Items → Items
store k d [] = (k, d) ∷ []
store k d ((j, e) ∷ items) = if j == k then (k, d) ∷ items else (j, e) ∷ store k d items

pub count : Items → ℕ
count items = length items

pub by_signal : CanonicalSignal → Items → List Dispatch
by_signal s [] = []
by_signal s ((k, d) ∷ items) =
    let rest = by_signal s items in if same_signal d.signal s then d ∷ rest else rest

-- `item.state in {QUEUED, RETRY_WAIT}`
unfoldable pub waiting : Dispatch → Bool
unfolding same_state
waiting d = same_state d.state queued || same_state d.state retry_wait

-- A set, as the list of its members in dictionary order; only membership is read.
unfoldable pub pending_exchanges : Items → List Exchange
unfolding waiting
pending_exchanges [] = []
pending_exchanges ((k, d) ∷ items) =
    let rest = pending_exchanges items in
    if waiting d && is_none d.claimed_by then d.exchange ∷ rest else rest

-- `uuid5` over the text of revision, message and exchange is a hash of the standard library: here
-- a function of those three.
module _ (uuid5 : String → ℕ → Exchange → ℕ) where
  pub dispatch_id : CanonicalSignal → Exchange → ℕ
  dispatch_id s e = uuid5 s.source_revision s.source_message_id e

  pub new_dispatch : CanonicalSignal → Exchange → Dispatch
  unfolding dispatch_id
  new_dispatch s e = record {
    id = dispatch_id s e;
    signal = s;
    exchange = e;
    state = queued;
    claimed_by = none;
    lease_until = none;
    attempts = 0;
    terminal_reason = none;
  }

  or_new : Option Dispatch → CanonicalSignal → Exchange → Items → Dispatch × Items
  unfolding new_dispatch
  or_new (some d) s e items = (d, items)
  or_new none s e items = (new_dispatch s e, store (dispatch_id s e) (new_dispatch s e) items)

  pub create : CanonicalSignal → Exchange → Items → Dispatch × Items
  unfolding or_new
  create s e items = or_new (find (dispatch_id s e) items) s e items

-- `self._items[dispatch_id]`
unfoldable pub get : ℕ → Items → Result Dispatch
get k items = elim (find k items) [ none ↦ err key_error | some d ↦ ok d ]

-- `item.lease_until is not None and item.lease_until <= current_time`
abbrev pub lease_expired : Option ℕ → ℕ → Bool
lease_expired none now = false
lease_expired (some t) now = leb t now

-- The test of the loop in `claim`.
unfoldable pub claimable : ℕ → Dispatch → Bool
unfolding waiting
claimable now d = waiting d && (is_none d.claimed_by || lease_expired d.lease_until now)

abbrev pub microseconds : ℕ
microseconds = 1000000

unfoldable pub claimed : String → ℕ → ℕ → Dispatch → Dispatch
claimed worker now seconds d = record d {
  claimed_by = some worker;
  lease_until = some (now + seconds * microseconds);
  attempts = d.attempts + 1;
}

-- The loop of `claim`: the first claimable item of the dictionary.
unfoldable pub first_claimable : ℕ → Items → Option Dispatch
first_claimable now [] = none
first_claimable now ((k, d) ∷ items) = if claimable now d then some d else first_claimable now items

abbrev pub claim_found : String → ℕ → ℕ → Items → Option Dispatch → Option Dispatch × Items
claim_found worker now seconds items none = (none, items)
claim_found worker now seconds items (some d) =
    (some (claimed worker now seconds d), store d.id (claimed worker now seconds d) items)

-- `claim(worker_id, now=now, lease_seconds=lease_seconds)`
unfoldable pub claim : String → ℕ → ℤ → Items → Result (Option Dispatch × Items)
claim worker now (pos (suc n)) items =
    if str_eq worker ""
    then err value_error
    else ok (claim_found worker now (suc n) items (first_claimable now items))
claim worker now (pos zero) items = err value_error
claim worker now (negsuc n) items = err value_error

-- An item rewritten in place; a missing id raises `KeyError`.
abbrev pub rewrite : (Dispatch → Dispatch) → ℕ → Items → Result Items
rewrite f k items = elim (find k items) [ none ↦ err key_error | some d ↦ ok (store k (f d) items) ]

unfoldable pub release : ℕ → Items → Result Items
release = rewrite (λ d. record d { claimed_by = none; lease_until = none })

unfoldable pub set_state : ℕ → DispatchState → Items → Result Items
set_state k state = rewrite (λ d. record d { state = state }) k
