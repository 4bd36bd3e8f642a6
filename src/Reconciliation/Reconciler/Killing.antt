-- ===== src/Reconciliation/Reconciler/Killing.antt =====
-- What makes a tick of the reconciler stop the lane.
use Prim.Native.String.{◌++◌ as append}
use text.Mathlib.TextLemmas.{cons-append, append_assoc}
use fatty_multi_exchange_tra.Prelude.{
  ℕ, String, ◌≡◌, refl, Bool, true, false, not, ◌&&◌, ◌||◌, Option, List, [], ◌∷◌, ◌++◌, arith, any,
}
use fatty_multi_exchange_tra.Prelude.Texts.{contains, starts_with}
use fatty_multi_exchange_tra.Prelude.Raise.{Result, ok, err, kill_switch_trigger, raise_if, ◌>>=◌}
use fatty_multi_exchange_tra.Reconciliation.Reconciler.{
  ReconcilerConfig, OrderRow, FillRow, Answers, Reconciler, killed, set_status, is_protected,
  stray_orders, bare_positions, check_protection_or_kill, wrong_mode, mode_mismatches, reconcile,
  is_stale, is_kill, settle, tick, shown,
}

any_append {ℓ} :
    {A : Type ℓ} (p : A → Bool) (xs ys : List A) → any p (xs ++ ys) ≡ (any p xs || any p ys)
any_append p [] ys = refl
any_append p (x ∷ xs) ys = ground (arith, any_append p xs ys)

starts_with-append : (part s : String) → starts_with part (append part s) ≡ true
unfolding starts_with
starts_with-append String.[] s = refl
starts_with-append (String.◌∷◌ c part) s =
    rw (cons-append c part s) (ground (arith, starts_with-append part s))

starts_with-contains : (part s : String) → starts_with part s ≡ true → contains part s ≡ true
unfolding contains
starts_with-contains part String.[] h = h
starts_with-contains part (String.◌∷◌ c s) h = ground arith

speaks_of_protection :
    (s : String) → contains "protection" (append "protection missing for position " s) ≡ true
speaks_of_protection s =
    starts_with-contains "protection" (append "protection missing for position " s) (
      rw (append_assoc "protection" " missing for position " s)
        (starts_with-append "protection" (append " missing for position " s)))

bare_positions_speak :
    (orders : List OrderRow) (positions : List (Option String))
    → any (λ p. not (is_protected orders p)) positions ≡ true
    → any (contains "protection") (bare_positions orders positions) ≡ true
unfolding bare_positions
bare_positions_speak orders [] h = cc
bare_positions_speak orders (p ∷ positions) h =
    ground (arith, bare_positions_speak orders positions, speaks_of_protection (shown p))

settle_kill :
    (lower : String → String) (config : ReconcilerConfig) (now : ℕ) (s : Reconciler)
    → settle lower config now (err kill_switch_trigger) s
      ≡ (err kill_switch_trigger, set_status killed s)
unfolding settle is_kill
settle_kill lower config now s = refl

-- The second guard raises what the first one may have raised already.
either_guard_kills {ℓ} :
    {A : Type ℓ} (wrong first second : Bool) (next : Unit {0} → Result A)
    → (raise_if (wrong && true) kill_switch_trigger >>= λ passed.
        raise_if (first || (second || true)) kill_switch_trigger >>= next)
      ≡ err kill_switch_trigger
either_guard_kills true first second next = refl
either_guard_kills false true second next = refl
either_guard_kills false false true next = refl
either_guard_kills false false false next = refl

reconcile_bare :
    (lower : String → String) (config : ReconcilerConfig) (known : List String) (a : Answers)
    (mode : String) (positions : List (Option String)) (orders : List OrderRow)
    (fills : List FillRow)
    → config.kill_on_missing_protection ≡ true
    → a.margin_mode ≡ ok mode
    → a.positions ≡ ok positions
    → a.orders ≡ ok orders
    → a.fills ≡ ok fills
    → any (λ p. not (is_protected orders p)) positions ≡ true
    → reconcile lower config known a ≡ err kill_switch_trigger
unfolding reconcile check_protection_or_kill
reconcile_bare lower config known a mode positions orders fills kills m p o f bare =
    let modes = mode_mismatches lower config mode in
    let strays = stray_orders known orders in
    let bares = bare_positions orders positions in
    rw
      (
        m,
        p,
        o,
        f,
        kills,
        any_append (contains "protection") modes (strays ++ bares),
        any_append (contains "protection") strays bares,
        bare_positions_speak orders positions bare,
      )
      (either_guard_kills (wrong_mode lower config mode) (any (contains "protection") modes)
        (any (contains "protection") strays) _)

-- A position without a stop or without a target stops the lane: where missing protection is to
-- kill, the last tick is not too old and the venue answers,
-- the tick raises the kill switch and leaves the status KILLED.
pub bare_position_kills :
    (lower : String → String) (config : ReconcilerConfig) (now : ℕ) (a : Answers) (s : Reconciler)
    (mode : String) (positions : List (Option String)) (orders : List OrderRow)
    (fills : List FillRow)
    → config.kill_on_missing_protection ≡ true
    → is_stale lower config s.last_tick now ≡ false
    → a.margin_mode ≡ ok mode
    → a.positions ≡ ok positions
    → a.orders ≡ ok orders
    → a.fills ≡ ok fills
    → any (λ p. not (is_protected orders p)) positions ≡ true
    → tick lower config now a s ≡ (err kill_switch_trigger, set_status killed s)
unfolding tick
bare_position_kills lower config now a s mode positions orders fills kills fresh m p o f bare =
    rw
      (
        fresh,
        reconcile_bare lower config s.known_order_ids a mode positions orders fills kills m p o f
            bare,
      )
      (settle_kill lower config now s)
