-- ===== src/Protection/Orders.antt =====
-- src/fatty_trader/execution/protection.py: placing a position's stop at the venue and reading it
-- back. The client's two calls are parameters. A report's text of its reason is left out.
use text.Mathlib.Text.{◌==◌}
use fatty_multi_exchange_tra.Prelude.{
  ◌≡◌, Bool, true, false, not, ◌||◌, ◌&&◌, Option, List, String, is_some, if◌then◌else◌, arith,
  Bool-cases, inl, inr, ap, subst, ◌∙◌,
}
use fatty_multi_exchange_tra.Prelude.Raise.{
  Result, ok, err, value_error, raise_if, ◌>>=◌, ◌>>◌, >>=-eq-ok, ok_injective,
}
use fatty_multi_exchange_tra.Decimal.{Decimal, lt, eq}
use fatty_multi_exchange_tra.Domain.{Direction, long, short, Exchange}
use fatty_multi_exchange_tra.Domain.Models.{zero_dec, positive}

pub data ProtectionState : Type 0 where
  pending venue_protected bot_fallback degraded failed : ProtectionState

is_protected : ProtectionState → Bool
is_protected venue_protected = true
is_protected _ = false

pub record ProtectionPlan : Type 0 where
  pub exchange : Exchange
  pub symbol : String
  pub direction : Direction
  pub quantity : Decimal
  pub stop_loss : Decimal
  pub take_profits : List Decimal

-- `ProtectionPlan.__post_init__`
unfoldable pub protection_plan : ProtectionPlan → Result ProtectionPlan
protection_plan p = do
  raise_if (not (positive p.quantity) || not (positive p.stop_loss)) value_error
  raise_if (p.symbol == "") value_error
  ok p

pub record ProtectionReport : Type 0 where
  pub state : ProtectionState
  pub observed_quantity : Decimal

negative : ProtectionReport → Bool
negative r = lt r.observed_quantity zero_dec

-- A report of the venue, refused when its quantity is negative.
checked : ProtectionReport → Result ProtectionReport
unfolding negative
checked r = if negative r then err value_error else ok r

-- `reconcile_protection`, over the adapter's read.
pub reconcile_protection :
    (ProtectionPlan → Result ProtectionReport) → ProtectionPlan → Result ProtectionReport
unfolding checked
reconcile_protection adapter plan = adapter plan >>= checked

-- `protection_is_confirmed`
pub protection_is_confirmed : ProtectionReport → Decimal → Result Bool
unfolding negative is_protected
protection_is_confirmed r expected = do
  raise_if (not (positive expected)) value_error
  raise_if (negative r) value_error
  ok (is_protected r.state && eq r.observed_quantity expected)

pub record ProtectionConfirmation : Type 0 where
  pub sl_order_id : Option String
  pub tp_order_ids : List String
  pub confirmed : Bool

pub data Side : Type 0 where
  sell buy : Side

close_side : Direction → Side
close_side long = sell
close_side short = buy

-- What `ensure_live_protection` answers for the venue's report.
read_back : ProtectionReport → ProtectionReport
unfolding is_protected
read_back r =
    if is_protected r.state
    then r
    else record { state = failed; observed_quantity = r.observed_quantity }

unconfirmed : ProtectionConfirmation → Bool
unconfirmed c = not c.confirmed || not (is_some c.sl_order_id)

-- The client: `place_protection_orders` and `read_protection_state`.
module _ (place_protection_orders : ProtectionPlan → Side → String → Result ProtectionConfirmation)
    (read_protection_state : String → Option String → List String → Result ProtectionReport) where
  -- `reconcile_live_protection`
  pub reconcile_live_protection :
      ProtectionPlan → Option String → List String → Result ProtectionReport
  unfolding checked
  reconcile_live_protection plan sl tps = read_protection_state plan.symbol sl tps >>= checked

  -- `ensure_live_protection`
  unfoldable pub ensure_live_protection : ProtectionPlan → String → Result ProtectionReport
  unfolding close_side unconfirmed read_back checked
  ensure_live_protection plan client_oid = do
    c ← place_protection_orders plan (close_side plan.direction) client_oid
    if unconfirmed c then ok (record { state = failed; observed_quantity = zero_dec }) else (do
      r ← read_protection_state plan.symbol c.sl_order_id c.tp_order_ids
      whole ← checked r
      ok (read_back whole))

  -- The venue confirmed the orders, and its report on them is the answer.
  pub IsVenueAnswer : ProtectionPlan → String → ProtectionReport → Type 0
  IsVenueAnswer plan client_oid r =
      (c : ProtectionConfirmation) × (place_protection_orders plan (close_side plan.direction)
          client_oid
        ≡ ok c)
      × (c.confirmed ≡ true)
      × (is_some c.sl_order_id ≡ true)
      × (read_protection_state plan.symbol c.sl_order_id c.tp_order_ids ≡ ok r)
      × (negative r ≡ false)

  checked_lem :
      (r whole : ProtectionReport) → checked r ≡ ok whole → (negative r ≡ false) × (r ≡ whole)
  unfolding checked
  checked_lem r whole h = ground arith

  read_back_lem : (w r : ProtectionReport) → read_back w ≡ r → r.state ≡ venue_protected → w ≡ r
  unfolding read_back is_protected
  read_back_lem w r h protected = ground arith

  confirmed_lem :
      (c : ProtectionConfirmation)
      → unconfirmed c ≡ false
      → (c.confirmed ≡ true) × (is_some c.sl_order_id ≡ true)
  unfolding unconfirmed
  confirmed_lem c h = ground arith

  -- A protected position is the venue's own answer on orders that it confirmed.
  pub ensure_live_protection-IsVenueAnswer :
      (plan : ProtectionPlan) (client_oid : String) (r : ProtectionReport)
      → ensure_live_protection plan client_oid ≡ ok r
      → r.state ≡ venue_protected
      → IsVenueAnswer plan client_oid r
  unfolding ensure_live_protection IsVenueAnswer
  ensure_live_protection-IsVenueAnswer plan client_oid r returned protected =
      let (c, placed, h1) =
        >>=-eq-ok (place_protection_orders plan (close_side plan.direction) client_oid) _
          returned in
      elim (Bool-cases (unconfirmed c)) [
        | inl bad ↦ ground arith
        | inr good ↦
            let h2 = rw good at h1 in
            let (report, answered, h3) =
              >>=-eq-ok (read_protection_state plan.symbol c.sl_order_id c.tp_order_ids) _ h2 in
            let (whole, is_checked, h4) = >>=-eq-ok (checked report) _ h3 in
            let (positive_quantity, same) = checked_lem report whole is_checked in
            let answer = read_back_lem whole r (ok_injective h4) protected in
            let (confirmed, stopped) = confirmed_lem c good in
            (
              c,
              placed,
              confirmed,
              stopped,
              answered ∙ ap ok (same ∙ answer),
              subst (λ x. negative x ≡ false) (same ∙ answer) positive_quantity,
            )
      ]
