-- ===== src/Reconciliation/Missing/Evidence.antt =====
-- What stands behind the status of an order that the venue has no detail of.
use text.Mathlib.Text.{◌==◌}
use fatty_multi_exchange_tra.Prelude.{String, ◌≡◌, subst, Bool, true, false, Option, some, arith}
use fatty_multi_exchange_tra.Prelude.Raise.{ok, >>=-eq-ok, ok_injective}
use fatty_multi_exchange_tra.Decimal.{Decimal, le, eq}
use fatty_multi_exchange_tra.Decimal.Order.{not_lt_of_eq}
use fatty_multi_exchange_tra.Domain.Models.{zero_dec, positive}
use fatty_multi_exchange_tra.Live.Values.{Runtime}
use fatty_multi_exchange_tra.Live.Fills.{LiveOrderStatus, summarize_fills}
use fatty_multi_exchange_tra.Live.Record.{LiveIntentRecord}
use fatty_multi_exchange_tra.Reconciliation.Missing.{
  AmbiguousOrderResult, Reads, readbacks, flat_position, no_pending_orders, matching,
  missing_status, is_true, classify_readbacks, classify_missing_detail,
}

-- The evidence for each status. ACCEPTED is no outcome.
abbrev pub IsEvident :
    Bool → Option Bool → Option Bool → Bool → Decimal → Decimal → LiveOrderStatus → Type 0
IsEvident complete flat no_pending missing filled requested LiveOrderStatus.accepted = ⊥
IsEvident complete flat no_pending missing filled requested LiveOrderStatus.partial =
    (complete ≡ true) × (positive filled ≡ true)
IsEvident complete flat no_pending missing filled requested LiveOrderStatus.filled =
    (complete ≡ true) × (le requested filled ≡ true)
IsEvident complete flat no_pending missing filled requested LiveOrderStatus.rejected =
    (missing ≡ true) × (flat ≡ some true) × (no_pending ≡ some true) × (positive filled ≡ false)
IsEvident complete flat no_pending missing filled requested LiveOrderStatus.unknown = Unit {0}

zero_not_positive : (d : Decimal) → eq d zero_dec ≡ true → positive d ≡ false
zero_not_positive d h = not_lt_of_eq d zero_dec h

missing_status-IsEvident :
    (complete : Bool) (flat no_pending : Option Bool) (entry missing : Bool)
    (filled requested : Decimal)
    → IsEvident complete flat no_pending missing filled requested
        (missing_status complete (is_true flat) (is_true no_pending) entry missing filled requested)
unfolding missing_status is_true
missing_status-IsEvident complete flat no_pending entry missing filled requested =
    ground (arith, zero_not_positive filled)

-- The evidence for the outcome, in the venue's three reads.
abbrev pub IsSupported : Runtime → LiveIntentRecord → Reads → Bool → AmbiguousOrderResult → Type 0
IsSupported py intent reads missing o =
    let r = readbacks reads in
    IsEvident r.complete (flat_position py r.position intent.symbol)
      (no_pending_orders r.pending intent.symbol) missing o.filled_qty intent.requested_qty o.status

-- The status of an order without a detail stands on evidence: FILLED and PARTIAL on a complete list
-- of fills with the quantity, and REJECTED only where the venue says that it has no such order, the
-- position is flat, no order is pending, all by readable answers, and none of the order's fills
-- counts. Every other case is UNKNOWN.
pub classify_missing_detail-IsSupported :
    (py : Runtime) (intent : LiveIntentRecord) (reads : Reads) (id : Option String) (missing : Bool)
    (o : AmbiguousOrderResult)
    → classify_missing_detail py intent reads id missing ≡ ok o
    → IsSupported py intent reads missing o
unfolding classify_missing_detail classify_readbacks
classify_missing_detail-IsSupported py intent reads id missing o returned =
    let r = readbacks reads in
    let (fills, found, same) = >>=-eq-ok (matching py intent.client_oid id r.fills) _ returned in
    subst (IsSupported py intent reads missing) (ok_injective same) (
      missing_status-IsEvident r.complete (flat_position py r.position intent.symbol)
        (no_pending_orders r.pending intent.symbol) (intent.role == "ENTRY") missing
        (summarize_fills py fills).quantity intent.requested_qty)
