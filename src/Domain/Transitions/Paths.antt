-- ===== src/Domain/Transitions/Paths.antt =====
-- What every path through the dispatch life cycle has in common.
use mathlib.Core.List.{Memᴰ}
use fatty_multi_exchange_tra.Prelude.{
  ◌≡◌, refl, sym, ◌⊎◌, inl, inr, Bool, true, false, List, [], ◌∷◌, arith,
}
use fatty_multi_exchange_tra.Prelude.Raise.{Result, ok, err, transition_error, ◌>>=◌, >>=-eq-ok}
use fatty_multi_exchange_tra.Domain.{
  DispatchState, queued, preflight, sized, validated, submitting, acknowledged, pending_fill,
  partially_filled, filled, protecting, active, closing, closed, expired, rejected, retry_wait,
  unknown, manual_review, failed,
}
use fatty_multi_exchange_tra.Domain.Transitions.{transition_dispatch}

-- The requested targets, one transition after another; the first refused one ends the run.
unfoldable pub run : DispatchState → List DispatchState → Result DispatchState
run s [] = ok s
run s (t ∷ ts) = transition_dispatch s t >>= λ u. run u ts

-- A set of states that a transition leaves only to `gate`.
abbrev Guards : DispatchState → (DispatchState → Bool) → Type 0
Guards gate inside =
    (s t u : DispatchState)
    → inside s ≡ true
    → transition_dispatch s t ≡ ok u
    → (t ≡ gate) ⊎ (inside u ≡ true)

-- A run that leaves the set has passed its gate.
run_through_gate :
    (gate : DispatchState) (inside : DispatchState → Bool) (s : DispatchState)
    (ts : List DispatchState) {end : DispatchState}
    → Guards gate inside
    → inside s ≡ true
    → inside end ≡ false
    → run s ts ≡ ok end
    → Memᴰ gate ts
unfolding run
run_through_gate gate inside s [] guards i o h = cc
run_through_gate gate inside s (t ∷ ts) guards i o h =
    let (u, step, rest) = >>=-eq-ok (transition_dispatch s t) (λ v. run v ts) h in
    elim (guards s t u i step) [
      | inl p ↦ Memᴰ.head (sym p)
      | inr q ↦ Memᴰ.tail (run_through_gate gate inside u ts guards q o rest)
    ]

abbrev before_active : DispatchState → Bool
before_active active = false
before_active protecting = false
before_active _ = true

before_active-Guards : Guards protecting before_active
unfolding transition_dispatch
before_active-Guards queued t u i h = ground arith
before_active-Guards _ t u i h = ground arith

-- A dispatch that is not yet protected or active becomes active only along a path that asks for
-- PROTECTING.
pub active_needs_protection :
    (s : DispatchState) (ts : List DispatchState)
    → before_active s ≡ true
    → run s ts ≡ ok active
    → Memᴰ protecting ts
active_needs_protection s ts i h =
    run_through_gate protecting before_active s ts before_active-Guards i refl h

-- The states of a dispatch whose entry order may exist at the venue.
abbrev sent : DispatchState → Bool
sent queued = false
sent preflight = false
sent sized = false
sent validated = false
sent submitting = false
sent expired = false
sent rejected = false
sent retry_wait = false
sent _ = true

sent-Guards : Guards retry_wait sent
unfolding transition_dispatch
sent-Guards queued t u i h = ground arith
sent-Guards _ t u i h = ground arith

after_submitting : (t u : DispatchState) → transition_dispatch submitting t ≡ ok u → sent u ≡ true
unfolding transition_dispatch
after_submitting t u h = ground arith

-- A dispatch that has been submitting is submitting again only along a path that asks for
-- RETRY_WAIT after that first submission.
pub resubmission_needs_retry_wait :
    (t : DispatchState) (ts : List DispatchState)
    → run submitting (t ∷ ts) ≡ ok submitting
    → Memᴰ retry_wait ts
unfolding run
resubmission_needs_retry_wait t ts h =
    let (u, step, rest) = >>=-eq-ok (transition_dispatch submitting t) (λ v. run v ts) h in
    run_through_gate retry_wait sent u ts sent-Guards (after_submitting t u step) refl rest

abbrev pub is_terminal : DispatchState → Bool
is_terminal closed = true
is_terminal rejected = true
is_terminal manual_review = true
is_terminal failed = true
is_terminal _ = false

step_of_terminal :
    (s t : DispatchState) → is_terminal s ≡ true → transition_dispatch s t ≡ err transition_error
unfolding transition_dispatch
step_of_terminal queued t h = ground arith
step_of_terminal _ t h = ground arith

step_exists :
    (s : DispatchState)
    → is_terminal s ≡ false
    → (t : DispatchState) × (transition_dispatch s t ≡ ok t)
unfolding transition_dispatch
step_exists queued h = (preflight, refl)
step_exists preflight h = (sized, refl)
step_exists sized h = (validated, refl)
step_exists validated h = (submitting, refl)
step_exists submitting h = (unknown, refl)
step_exists acknowledged h = (filled, refl)
step_exists pending_fill h = (filled, refl)
step_exists partially_filled h = (protecting, refl)
step_exists filled h = (protecting, refl)
step_exists protecting h = (active, refl)
step_exists active h = (closing, refl)
step_exists closing h = (closed, refl)
step_exists retry_wait h = (preflight, refl)
step_exists expired h = (queued, refl)
step_exists unknown h = (acknowledged, refl)
step_exists closed h = cc
step_exists rejected h = cc
step_exists manual_review h = cc
step_exists failed h = cc
