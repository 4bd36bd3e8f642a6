-- ===== src/Management/Updates.antt =====
-- The updates and their in-memory store: `SourceManagementUpdate` and
-- `InMemorySourceManagementStore` of src/fatty_trader/execution/source_management.py. An update's id
-- is the 32 hexadecimal digits of the UUID.
use text.Mathlib.Text.{◌==◌}
use fatty_multi_exchange_tra.Prelude.{
  ℕ, suc, String, Bool, true, false, ◌&&◌, ◌||◌, Option, none, some, List, [], ◌∷◌, any, leb, ltb,
  if◌then◌else◌,
}
use fatty_multi_exchange_tra.Prelude.Raise.{ok, err, value_error, key_error}
use fatty_multi_exchange_tra.Prelude.Calls.{Call, pure, raise, choose}
use fatty_multi_exchange_tra.Prelude.Dict.{Dict, find, store}

pub data ManagementAction : Type 0 where
  tp1_booked tp_booked sl_to_entry close : ManagementAction

pub data UpdateState : Type 0 where
  queued claimed reconciliation_pending failed reconciled cancelled_flat : UpdateState
  entries_cancelled : UpdateState

pub record SourceManagementUpdate : Type 0 where
  pub id : String
  pub source_message_id : String
  pub revision : String
  pub symbol : String
  pub action : ManagementAction
  pub state : UpdateState
  pub attempts : ℕ

-- The provider intents are pairs of an update's id and a client id. `eligible` is with the
-- executor, since other workers set it between the executor's calls.
pub record MemoryStore : Type 0 where
  pub updates : Dict SourceManagementUpdate
  pub provider_intents : List (String × String)
  pub claimed_cancellations : List String
  pub outcomes : List (String × UpdateState)

unfoldable pub claimable : UpdateState → Bool
claimable queued = true
claimable claimed = true
claimable reconciliation_pending = true
claimable _ = false

unfoldable pub first_claimable : Dict SourceManagementUpdate → Option SourceManagementUpdate
unfolding claimable
first_claimable [] = none
first_claimable ((k, u) ∷ rest) =
    let more = first_claimable rest in if claimable u.state then some u else more

abbrev pub claimed_update : SourceManagementUpdate → SourceManagementUpdate
claimed_update u = record u { state = claimed }

abbrev pub claim_found :
    Option SourceManagementUpdate → Call MemoryStore (Option SourceManagementUpdate)
claim_found none s = (ok none, s)
claim_found (some u) s =
    (ok (some (claimed_update u)), record s { updates = store u.id (claimed_update u) s.updates })

unfoldable pub claim : String → Call MemoryStore (Option SourceManagementUpdate)
unfolding first_claimable store
claim worker_id s =
    choose (worker_id == "") (raise value_error) (claim_found (first_claimable s.updates)) s

-- `d.pop(k)`, of a key that is there
unfoldable pub removed : String → Dict SourceManagementUpdate → Dict SourceManagementUpdate
removed k [] = []
removed k ((j, u) ∷ rest) = let more = removed k rest in if j == k then rest else (j, u) ∷ more

-- The update that was taken out stands last.
abbrev pub moved :
    String
    → UpdateState
    → SourceManagementUpdate
    → Dict SourceManagementUpdate
    → Dict SourceManagementUpdate
moved k state u updates = store k (record u { state = state }) (removed k updates)

abbrev pub write_state :
    String → UpdateState → Option SourceManagementUpdate → Call MemoryStore (Unit {0})
write_state k state none s = (err key_error, s)
write_state k state (some u) s = (ok tt, record s { updates = moved k state u s.updates })

unfoldable pub update_state : String → UpdateState → Call MemoryStore (Unit {0})
unfolding find store removed
update_state k state s = write_state k state (find k s.updates) s

-- The list stands last first.
unfoldable pub alert_outcome : SourceManagementUpdate → UpdateState → Call MemoryStore (Unit {0})
alert_outcome u state s = (ok tt, record s { outcomes = (u.symbol, state) ∷ s.outcomes })

-- The state of an update that is parked for the given time in all.
unfoldable pub parked_state : ℕ → ℕ → UpdateState
parked_state attempts max_attempts =
    if leb max_attempts attempts then failed else reconciliation_pending

abbrev pub parked : ℕ → SourceManagementUpdate → SourceManagementUpdate
parked max_attempts u = record u {
  state = parked_state (suc u.attempts) max_attempts;
  attempts = suc u.attempts;
}

abbrev pub park_found : String → ℕ → Option SourceManagementUpdate → Call MemoryStore UpdateState
park_found k max_attempts none s = (err key_error, s)
park_found k max_attempts (some u) s = (
  ok (parked max_attempts u).state,
  record s { updates = store k (parked max_attempts u) s.updates },
)

unfoldable pub park : String → ℕ → Call MemoryStore UpdateState
unfolding find store
park k max_attempts s =
    choose (ltb max_attempts 1) (raise value_error) (park_found k max_attempts (find k s.updates)) s

unfoldable pub holds : String → String → List (String × String) → Bool
holds k oid [] = false
holds k oid ((j, o) ∷ intents) = (j == k && o == oid) || holds k oid intents

unfoldable pub has_provider_intent : String → String → MemoryStore → Bool
unfolding holds
has_provider_intent k oid s = holds k oid s.provider_intents

-- Whether the intent is new.
unfoldable pub persist_provider_intent : String → String → Call MemoryStore Bool
unfolding has_provider_intent
persist_provider_intent k oid s =
    choose (has_provider_intent k oid s) (pure false)
      (λ t. (ok true, record t { provider_intents = (k, oid) ∷ t.provider_intents })) s

unfoldable pub has_claimed_cancellation : String → MemoryStore → Bool
has_claimed_cancellation k s = any (λ j. j == k) s.claimed_cancellations
