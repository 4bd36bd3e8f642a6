-- ===== src/Management/Executor/Readback/Stages.antt =====
-- What the stages of a run read back and claim before they send it.
use fatty_multi_exchange_tra.Prelude.{
  String, ◌≡◌, refl, subst, sym, inl, inr, Bool, true, false, Option, none, some, List, [], ◌∷◌,
  arith, ◌&&◌,
}
use fatty_multi_exchange_tra.Prelude.Raise.{Result, ok, err}
use fatty_multi_exchange_tra.Prelude.Calls.{Call, ◌>>=◌, ◌>>◌, lift, continue}
use fatty_multi_exchange_tra.Decimal.{Decimal, of_int, eq, ◌-ᵈ◌, ◌/ᵈ◌}
use fatty_multi_exchange_tra.Live.Values.{Fields}
use fatty_multi_exchange_tra.Management.Updates.{
  ManagementAction, tp1_booked, tp_booked, sl_to_entry, close, UpdateState, SourceManagementUpdate,
  claim, update_state, has_provider_intent,
}
use fatty_multi_exchange_tra.Management.Venue.{
  Log, World, Position, closed, stop_replaced, stored, one_position, posts,
}
use fatty_multi_exchange_tra.Management.Venue.Positions.{Closes, one_position-Closes}
use fatty_multi_exchange_tra.Management.Endings.{
  Executor, Outcome, ended, sl_oid, close_oid, moves_stop, cancels_entries, closing_side,
}
use fatty_multi_exchange_tra.Management.Executor.{
  positions, cancelled, require_eligible, close_position, replace_stop, claim_intent, require_flat,
  close_action, move_stop, tp1_quantity, reduced, half_close, tp1_action, acted, flat, opened,
  positioned, position_stage, cancel_stage, window_stage, enabled_stage, carry_out, run_found,
  run_once,
}
use fatty_multi_exchange_tra.Management.Executor.Frame.{
  Obeys, pure-Obeys, bind-Obeys, choose-Obeys, claim-Obeys, update_state-Obeys, finished-Obeys,
}
use fatty_multi_exchange_tra.Management.Executor.Frame.Stages.{
  pending, refused, positions-Obeys, cancelled-Obeys, retired_or_pending-Obeys,
  reconciled_stop-Obeys, stale_stage-Obeys, require_eligible-Obeys, run_claimed-Obeys,
}
use fatty_multi_exchange_tra.Management.Executor.Sound.{IsSound}
use fatty_multi_exchange_tra.Management.Executor.Readback.{
  Reads, IsTp1Part, IsReadBack, steps, From, Obeys-From, choose-From, silent-From, post-From,
  lift-From,
}

module _ (ex : Executor) (u : SourceManagementUpdate) where
  abbrev IsRead : Position → Log → Type 0
  IsRead p log = Reads ex u.symbol log p

  abbrev Answers : List Fields → Log → Type 0
  Answers ms log = ex.gateway.get_positions u.symbol log ≡ ok ms

  positions_then :
      (next : List Fields → Call World (Option Outcome))
      → ((ms : List Fields) → From ex (Answers ms) (next ms))
      → Obeys (steps ex) (positions ex u >>= next)
  unfolding positions Obeys From
  positions_then next rest w = go (ex.gateway.get_positions u.symbol w.log) refl
    where
      go :
          (r : Result (List Fields))
          → ex.gateway.get_positions u.symbol w.log ≡ r
          → (steps ex).Step w (continue (r, w) next).1
      go (err e) at = (steps ex).stays w
      go (ok ms) at = rest ms w at

  closes : (log : Log) (p : Position) → IsRead p log → Closes p.side (closing_side p.side)
  closes log p (ms, answer, valid) = one_position-Closes ms p valid

  eligible_log : (w : World) → (require_eligible ex u w).1.log ≡ w.log
  unfolding require_eligible
  eligible_log w = ground arith

  -- The window is tested once more in front of a call.
  checked :
      (C : Log → Type 0) (next : Call World (Option Outcome))
      → From ex C next
      → From ex C (require_eligible ex u >> next)
  checked C next rest =
      silent-From ex C (require_eligible ex u) (λ x. next) eligible_log
        (require_eligible-Obeys (steps ex) ex u) (λ x. rest)

  require_flat-Obeys : (ms : List Fields) → Obeys (steps ex) (require_flat ex u ms)
  unfolding require_flat
  require_flat-Obeys [] = pure-Obeys (steps ex) none
  require_flat-Obeys (m ∷ ms) = refused (steps ex) ex u

  close_action-From : (p : Position) → From ex (IsRead p) (close_action ex u p)
  unfolding close_action claim_intent close_position posts
  close_action-From p = checked (IsRead p) _ (
      post-From ex (IsRead p) u.id (close_oid u.id)
        (closed u.symbol (closing_side p.side) p.size (close_oid u.id))
        (ex.gateway.close_reduce_only u.symbol (closing_side p.side) p.size (close_oid u.id)) _ _
        (inl refl) (λ k log. refl)
        (λ log is_read h. ((p, is_read, closes log p is_read, inl refl), h))
        (bind-Obeys (steps ex) (positions ex u) _ (positions-Obeys (steps ex) ex u)
          require_flat-Obeys)
        (bind-Obeys (steps ex) (stored (update_state u.id UpdateState.reconciliation_pending)) _
          (update_state-Obeys (steps ex) u.id UpdateState.reconciliation_pending)
          λ y. pure-Obeys (steps ex) (some (ended UpdateState.reconciliation_pending))))

  move_stop-From : (p : Position) → From ex (IsRead p) (move_stop ex u p)
  unfolding move_stop claim_intent replace_stop posts
  move_stop-From p = checked (IsRead p) _ (
      post-From ex (IsRead p) u.id (sl_oid u.id)
        (stop_replaced u.symbol p.side p.size p.entry (sl_oid u.id))
        (ex.gateway.replace_stop_loss u.symbol p.side p.size p.entry (sl_oid u.id)) _ _ (inr refl)
        (λ k log. refl) (λ log is_read h. ((p, is_read, refl, refl, refl), h))
        (pure-Obeys (steps ex) none) (reconciled_stop-Obeys (steps ex) ex u))

  reduced-From :
      (p : Position) (q : Decimal) (ms : List Fields) → From ex (Answers ms) (reduced ex u p q ms)
  unfolding reduced From
  reduced-From p q ms = lift-From ex (Answers ms) ms _ λ remaining valid.
      choose-From ex (Answers ms) (eq remaining.size (p.size -ᵈ q)) _ _
        (λ w answer. move_stop-From remaining w (ms, answer, valid))
        (Obeys-From ex (Answers ms) _ (pending (steps ex) ex u))

  -- The position is read, and the quantity is the part of a first target.
  abbrev IsHalf : Position → Decimal → Log → Type 0
  IsHalf p q log =
      IsRead p log × IsTp1Part ex ex.gateway.normalize_tp1_close_quantity u.symbol log p.size q

  half_close-From : (p : Position) (q : Decimal) → From ex (IsHalf p q) (half_close ex u p q)
  unfolding half_close claim_intent close_position posts
  half_close-From p q = checked (IsHalf p q) _ (
      post-From ex (IsHalf p q) u.id (close_oid u.id)
        (closed u.symbol (closing_side p.side) q (close_oid u.id))
        (ex.gateway.close_reduce_only u.symbol (closing_side p.side) q (close_oid u.id)) _ _
        (inl refl) (λ k log. refl) (λ log half h. ((p, half.0, closes log p half.0, inr half.1), h))
        (positions_then (reduced ex u p q) (reduced-From p q)) (pending (steps ex) ex u))

  tp1_then :
      (p : Position) (o : Option (String → Decimal → Log → Result Decimal))
      → ex.gateway.normalize_tp1_close_quantity ≡ o
      → From ex (IsRead p) (tp1_quantity ex u o p.size >>= half_close ex u p)
  unfolding tp1_quantity From
  tp1_then p none missing w is_read = half_close-From p (p.size /ᵈ of_int 2) w (
    is_read,
    subst (λ o. IsTp1Part ex o u.symbol w.log p.size (p.size /ᵈ of_int 2)) (sym missing) refl,
  )
  tp1_then p (some normalizer) there w is_read = go (normalizer u.symbol p.size w.log) refl
    where
      go :
          (r : Result Decimal)
          → normalizer u.symbol p.size w.log ≡ r
          → (steps ex).Step w (continue (r, w) (half_close ex u p)).1
      go (err e) at = (steps ex).stays w
      go (ok q) at =
          half_close-From p q w
            (is_read, subst (λ o. IsTp1Part ex o u.symbol w.log p.size q) (sym there) at)

  tp1_action-From : (p : Position) → From ex (IsRead p) (tp1_action ex u p)
  unfolding tp1_action From
  tp1_action-From p w =
      choose-From ex (IsRead p) (has_provider_intent u.id (close_oid u.id) w.store) _ _
        (Obeys-From ex (IsRead p) _ (pending (steps ex) ex u))
        (tp1_then p ex.gateway.normalize_tp1_close_quantity refl) w

  acted-From : (action : ManagementAction) (p : Position) → From ex (IsRead p) (acted ex u action p)
  unfolding acted
  acted-From close p = close_action-From p
  acted-From tp1_booked p = tp1_action-From p
  acted-From sl_to_entry p = move_stop-From p
  acted-From tp_booked p = Obeys-From ex (IsRead p) _ (pure-Obeys (steps ex) none)

  managed-From :
      (action : ManagementAction) (ms : List Fields)
      → From ex (Answers ms) (lift (one_position ms) >>= acted ex u action)
  unfolding From
  managed-From action ms =
      lift-From ex (Answers ms) ms (acted ex u action)
        λ p valid. λ w answer. acted-From action p w (ms, answer, valid)

  opened-From :
      (action : ManagementAction) (ms : List Fields) → From ex (Answers ms) (opened ex u action ms)
  unfolding opened
  opened-From tp_booked ms = Obeys-From ex (Answers ms) _ (
      finished-Obeys (steps ex) u UpdateState.entries_cancelled
        (ended UpdateState.entries_cancelled))
  opened-From tp1_booked ms = managed-From tp1_booked ms
  opened-From sl_to_entry ms = managed-From sl_to_entry ms
  opened-From close ms = managed-From close ms

  flat-Obeys : (b : Bool) → Obeys (steps ex) (flat ex u b)
  unfolding flat Obeys
  flat-Obeys true w =
      choose-Obeys (steps ex) (has_provider_intent u.id (close_oid u.id) w.store) _ _
        (retired_or_pending-Obeys (steps ex) ex u [])
        (finished-Obeys (steps ex) u UpdateState.cancelled_flat (ended UpdateState.cancelled_flat))
        w
  flat-Obeys false w = finished-Obeys (steps ex) u UpdateState.failed (ended UpdateState.failed) w

  positioned-From : (ms : List Fields) → From ex (Answers ms) (positioned ex u ms)
  unfolding positioned
  positioned-From [] = Obeys-From ex (Answers []) _ (flat-Obeys (cancels_entries u.action))
  positioned-From (m ∷ ms) = opened-From u.action (m ∷ ms)

  position_stage-Obeys : Obeys (steps ex) (position_stage ex u)
  unfolding position_stage
  position_stage-Obeys = positions_then (positioned ex u) positioned-From

  cancel_stage-Obeys : Obeys (steps ex) (cancel_stage ex u)
  unfolding cancel_stage
  cancel_stage-Obeys =
      choose-Obeys (steps ex) (cancels_entries u.action) _ _
        (bind-Obeys (steps ex) (cancelled ex u false) _ (cancelled-Obeys (steps ex) ex u false)
          λ terminal.
            choose-Obeys (steps ex) terminal _ _ position_stage-Obeys (pending (steps ex) ex u))
        position_stage-Obeys

  window_stage-Obeys : Obeys (steps ex) (window_stage ex u)
  unfolding window_stage Obeys
  window_stage-Obeys w =
      choose-Obeys (steps ex) (ex.eligible w.log) _ _ cancel_stage-Obeys
        (stale_stage-Obeys (steps ex) ex u) w

  carry_out-Obeys : Obeys (steps ex) (carry_out ex u)
  unfolding carry_out enabled_stage Obeys
  carry_out-Obeys =
      choose-Obeys (steps ex) ex.mutations_enabled _ _
        (λ w.
          choose-Obeys (steps ex)
            (moves_stop u.action && has_provider_intent u.id (sl_oid u.id) w.store) _ _
            (reconciled_stop-Obeys (steps ex) ex u) window_stage-Obeys w)
        (finished-Obeys (steps ex) u UpdateState.failed Outcome.mutations_disabled)

run_found-Obeys :
    (ex : Executor) (o : Option SourceManagementUpdate) → Obeys (steps ex) (run_found ex o)
unfolding run_found
run_found-Obeys ex none = pure-Obeys (steps ex) Outcome.idle
run_found-Obeys ex (some u) = run_claimed-Obeys (steps ex) ex u (carry_out-Obeys ex u)

pub run_once_step :
    (ex : Executor) (worker : String) (w : World)
    → (IsSound w → IsSound (run_once ex worker w).1)
      × (IsReadBack ex w.log → IsReadBack ex (run_once ex worker w).1.log)
unfolding run_once Obeys
run_once_step ex worker =
    bind-Obeys (steps ex) (stored (claim worker)) (run_found ex) (claim-Obeys (steps ex) worker)
      (run_found-Obeys ex)

-- What a run adds to the log is read back: every close is on the side that reduces a position that
-- the venue reports with nothing sent in between, for its whole size or for the part that a first target
-- books, and every new stop stands at such a position's entry, on its side and for its whole size.
pub run_once-IsReadBack :
    (ex : Executor) (worker : String) (w : World)
    → IsReadBack ex w.log
    → IsReadBack ex (run_once ex worker w).1.log
run_once-IsReadBack ex worker w h = (run_once_step ex worker w).1 h
