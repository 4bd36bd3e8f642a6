-- ===== src/Management/Executor/Stored.antt =====
-- What a run leaves in the update store, and what it returns.
pub mod Actions
pub mod Calls
pub mod Stages
pub mod Run
use fatty_multi_exchange_tra.Prelude.{
  ℕ, String, ◌≡◌, ◌≢◌, refl, sym, ◌∙◌, ◌⊎◌, inl, inr, Bool, true, false, Option, none, some, List,
  [], ◌∷◌, arith, ◌&&◌, eq_iff, ltb, suc,
}
use fatty_multi_exchange_tra.Prelude.Raise.{Error, Result, ok, err, value_error, pending_error}
use fatty_multi_exchange_tra.Prelude.Dict.{Dict, find, store, find-store, find-store_self}
use fatty_multi_exchange_tra.Prelude.Calls.{
  Call, ◌>>=◌, ◌>>◌, pure, raise, lift, or_else, recover, choose, continue,
}
use fatty_multi_exchange_tra.Decimal.{Decimal, of_int, eq, ◌-ᵈ◌, ◌/ᵈ◌}
use fatty_multi_exchange_tra.Live.Values.{Fields}
use fatty_multi_exchange_tra.Management.Updates.{
  ManagementAction, tp1_booked, tp_booked, sl_to_entry, close, UpdateState, SourceManagementUpdate,
  MemoryStore, removed, moved, parked, claimed_update, update_state, write_state, alert_outcome,
  park, park_found, has_provider_intent, persist_provider_intent, has_claimed_cancellation,
}
use fatty_multi_exchange_tra.Management.Venue.{
  Event, Log, World, Position, read, act, stored, one_position,
}
use fatty_multi_exchange_tra.Management.Endings.{
  Executor, Outcome, ended, finish, finished, close_oid, sl_oid, moves_stop, cancels_entries,
}

-- The state that an outcome tells of.
abbrev pub state_of : Outcome → UpdateState
state_of Outcome.idle = UpdateState.claimed
state_of Outcome.mutations_disabled = UpdateState.failed
state_of (ended state) = state

-- A call that leaves the updates alone, whatever it answers.
unfoldable pub LeavesUpdates : {A : Type 0} → Call World A → Type 0
LeavesUpdates m = (w : World) → (m w).1.store.updates ≡ w.store.updates

pub bind-LeavesUpdates :
    {A B : Type 0} (m : Call World A) (next : A → Call World B)
    → LeavesUpdates m
    → ((a : A) → LeavesUpdates (next a))
    → LeavesUpdates (m >>= next)
unfolding LeavesUpdates
bind-LeavesUpdates m next first second w = go (m w) (first w)
  where
    go :
        (r : Result _ × World)
        → r.1.store.updates ≡ w.store.updates
        → (continue r next).1.store.updates ≡ w.store.updates
    go (err e, v) same = same
    go (ok a, v) same = second a v ∙ same

module _ (u : SourceManagementUpdate) (d : Dict SourceManagementUpdate) where
  -- A block that returned has moved the update to the state it tells of; one that raised, or ends
  -- without a `return`, has left the updates alone.
  abbrev pub Fits : Result (Option Outcome) × World → Type 0
  Fits (err e, w) = w.store.updates ≡ d
  Fits (ok none, w) = w.store.updates ≡ d
  Fits (ok (some o), w) = w.store.updates ≡ moved u.id (state_of o) u d

  unfoldable pub EndsIn : Call World (Option Outcome) → Type 0
  EndsIn m = (w : World) → w.store.updates ≡ d → Fits (m w)

  pub bind-EndsIn :
      {A : Type 0} (m : Call World A) (next : A → Call World (Option Outcome))
      → LeavesUpdates m
      → ((a : A) → EndsIn (next a))
      → EndsIn (m >>= next)
  unfolding EndsIn LeavesUpdates
  bind-EndsIn {A} m next first second w at = go (m w) (first w ∙ at)
    where
      go : (r : Result A × World) → r.1.store.updates ≡ d → Fits (continue r next)
      go (err e, v) same = same
      go (ok a, v) same = second a v same

  pub choose-EndsIn :
      (b : Bool) (m n : Call World (Option Outcome)) → EndsIn m → EndsIn n → EndsIn (choose b m n)
  unfolding EndsIn
  choose-EndsIn true m n mc nc = mc
  choose-EndsIn false m n mc nc = nc

  pub raise-EndsIn : (e : Error) → EndsIn (raise e)
  unfolding EndsIn
  raise-EndsIn e w at = at

  pub none-EndsIn : EndsIn (pure none)
  unfolding EndsIn
  none-EndsIn w at = at

  module _ (held : find u.id d ≡ some u) where
    pub update_state_lem :
        (state : UpdateState) (s : MemoryStore)
        → s.updates ≡ d
        → update_state u.id state s ≡ (ok tt, record s { updates = moved u.id state u d })
    unfolding update_state
    update_state_lem state s at = rw (at, held) refl

    pub finished-EndsIn :
        (state : UpdateState) (o : Outcome) → state_of o ≡ state → EndsIn (finished u state o)
    unfolding EndsIn finished finish alert_outcome
    finished-EndsIn state o told w at = rw (update_state_lem state w.store at, told) refl
