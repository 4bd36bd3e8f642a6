-- ===== src/Domain/Transitions.antt =====
-- src/fatty_trader/domain/state_machines.py: the table of the dispatch life cycle.
pub mod Paths
use fatty_multi_exchange_tra.Prelude.{Bool, List, [], ◌∷◌, any, if◌then◌else◌}
use fatty_multi_exchange_tra.Prelude.Raise.{Result, ok, err, transition_error}
use fatty_multi_exchange_tra.Domain.{
  DispatchState, queued, preflight, sized, validated, submitting, acknowledged, pending_fill,
  partially_filled, filled, protecting, active, closing, closed, expired, rejected, retry_wait,
  unknown, manual_review, failed, same_state,
}

-- `_ALLOWED.get(current, set())`
allowed : DispatchState → List DispatchState
allowed queued = preflight ∷ expired ∷ rejected ∷ []
allowed preflight = sized ∷ rejected ∷ retry_wait ∷ []
allowed sized = validated ∷ rejected ∷ []
allowed validated = submitting ∷ rejected ∷ []
allowed submitting = acknowledged ∷ unknown ∷ failed ∷ []
allowed acknowledged = pending_fill ∷ partially_filled ∷ filled ∷ []
allowed pending_fill = partially_filled ∷ filled ∷ closing ∷ []
allowed partially_filled = protecting ∷ closing ∷ []
allowed filled = protecting ∷ closing ∷ []
allowed protecting = active ∷ manual_review ∷ failed ∷ []
allowed active = closing ∷ manual_review ∷ []
allowed closing = closed ∷ unknown ∷ failed ∷ []
allowed retry_wait = preflight ∷ failed ∷ []
allowed expired = queued ∷ []
allowed unknown = acknowledged ∷ retry_wait ∷ manual_review ∷ []
allowed _ = []

-- `target in _ALLOWED.get(current, set())`
unfoldable pub is_allowed : DispatchState → DispatchState → Bool
unfolding allowed same_state
is_allowed current target = any (same_state target) (allowed current)

unfoldable pub transition_dispatch : DispatchState → DispatchState → Result DispatchState
unfolding is_allowed
transition_dispatch current target =
    if is_allowed current target then ok target else err transition_error
