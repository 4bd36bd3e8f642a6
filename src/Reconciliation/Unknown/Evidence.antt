-- ===== src/Reconciliation/Unknown/Evidence.antt =====
-- When the refresh of an unknown intent writes it off.
use text.Mathlib.TextEquality.{eq_iff}
use fatty_multi_exchange_tra.Prelude.{
  String, ◌≡◌, inl, inr, refl, subst, ap, ◌∙◌, Bool, true, false, Bool-cases, Option, none, some,
  arith,
}
use fatty_multi_exchange_tra.Prelude.Raise.{ok, >>=-eq-ok, ok_injective}
use fatty_multi_exchange_tra.Decimal.{Decimal}
use fatty_multi_exchange_tra.Domain.Models.{positive}
use fatty_multi_exchange_tra.Live.Values.{
  null, boolean, number, string, sequence, mapping, Fields, end, field, Runtime,
}
use fatty_multi_exchange_tra.Live.Fills.{LiveOrderStatus, summarize_fills, classify_live_order}
use fatty_multi_exchange_tra.Live.Record.{LiveIntentRecord}
use fatty_multi_exchange_tra.Live.Results.{or_kept}
use fatty_multi_exchange_tra.Reconciliation.Missing.{
  AmbiguousOrderResult, Reads, readbacks, flat_position, no_pending_orders, classify_missing_detail,
  matching,
}
use fatty_multi_exchange_tra.Reconciliation.Missing.Evidence.{
  IsEvident, IsSupported, classify_missing_detail-IsSupported,
}
use fatty_multi_exchange_tra.Reconciliation.Unknown.{
  DetailRead, answered, refused, failed, state_of, outcome_record, without_detail, downgraded,
  detail_status, detail_record, with_detail, order_id_of, by_detail, says_not_found,
  reconcile_unknown_intent, valid_rows, fill_rows,
}

-- The venue has said that it has no such order, the position of its symbol is flat, and no order of
-- the symbol is pending.
abbrev pub IsGone : Runtime → LiveIntentRecord → Reads → Type 0
IsGone py intent reads =
    (flat_position py (readbacks reads).position intent.symbol ≡ some true)
    × (no_pending_orders (readbacks reads).pending intent.symbol ≡ some true)

rejected_state : (s : LiveOrderStatus) → state_of s ≡ "rejected" → s ≡ LiveOrderStatus.rejected
unfolding state_of
rejected_state LiveOrderStatus.accepted h = ground (arith, eq_iff "acknowledged" "rejected")
rejected_state LiveOrderStatus.partial h = ground (arith, eq_iff "partially_filled" "rejected")
rejected_state LiveOrderStatus.filled h = ground (arith, eq_iff "filled" "rejected")
rejected_state LiveOrderStatus.rejected h = refl
rejected_state LiveOrderStatus.unknown h = ground (arith, eq_iff "unknown" "rejected")

without_detail_rejected :
    (py : Runtime) (intent r : LiveIntentRecord) (reads : Reads) (id : Option String)
    (missing : Bool)
    → without_detail py intent reads id missing ≡ ok r
    → r.state ≡ "rejected"
    → (missing ≡ true) × IsGone py intent reads × (positive r.filled_qty ≡ false)
unfolding without_detail outcome_record
without_detail_rejected py intent r reads id missing returned rejected =
    let (o, found, same) =
      >>=-eq-ok
        (classify_missing_detail py intent reads (or_kept id intent.provider_order_id) missing) _
        returned in
    let at = rejected_state o.status (ap (λ x. x.state) (ok_injective same) ∙ rejected) in
    evidence_of o at
      (classify_missing_detail-IsSupported py intent reads (or_kept id intent.provider_order_id)
        missing o found)
      (ap (λ x. x.filled_qty) (ok_injective same))
  where
    evidence_of :
        (o : AmbiguousOrderResult)
        → o.status ≡ LiveOrderStatus.rejected
        → IsSupported py intent reads missing o
        → o.filled_qty ≡ r.filled_qty
        → (missing ≡ true) × IsGone py intent reads × (positive r.filled_qty ≡ false)
    evidence_of o at supported same =
        let (gone, flat, idle, empty_) =
          subst
            (IsEvident (readbacks reads).complete
              (flat_position py (readbacks reads).position intent.symbol)
              (no_pending_orders (readbacks reads).pending intent.symbol) missing o.filled_qty
              intent.requested_qty)
            at supported in
        (gone, (flat, idle), subst (λ q. positive q ≡ false) same empty_)

downgraded_rejected :
    (s : LiveOrderStatus) (q : Decimal)
    → downgraded s q ≡ LiveOrderStatus.rejected
    → s ≡ LiveOrderStatus.rejected
unfolding downgraded
downgraded_rejected s q h = ground arith

with_detail_rejected :
    (py : Runtime) (intent r : LiveIntentRecord) (reads : Reads) (id : Option String) (m : Fields)
    → with_detail py intent reads id m ≡ ok r
    → r.state ≡ "rejected"
    → classify_live_order py m r.provider_fills ≡ LiveOrderStatus.rejected
unfolding with_detail detail_record detail_status
with_detail_rejected py intent r reads id m returned rejected =
    let (answer, read_, h1) = >>=-eq-ok reads.read_fills _ returned in
    let (rows, valid, h2) = >>=-eq-ok (valid_rows (fill_rows answer)) _ h1 in
    let (fills, found, h3) = >>=-eq-ok (matching py intent.client_oid id rows) _ h2 in
    let same = ok_injective h3 in
    let status = detail_status py m fills in
    let is_rejected = rejected_state status (ap (λ x. x.state) same ∙ rejected) in
    subst (λ x. classify_live_order py m x ≡ LiveOrderStatus.rejected)
      (ap (λ x. x.provider_fills) same)
      (downgraded_rejected (classify_live_order py m fills) (summarize_fills py fills).quantity
        is_rejected)

-- Why the refreshed intent is rejected: the venue has no such order and holds nothing for its
-- symbol, or the order's detail, with its fills, says so.
abbrev pub IsWrittenOff :
    Runtime → LiveIntentRecord → DetailRead → Reads → LiveIntentRecord → Type 0
IsWrittenOff py intent (refused code message) reads r =
    (says_not_found py code message ≡ true)
    × IsGone py intent reads
    × (positive r.filled_qty ≡ false)
IsWrittenOff py intent (answered (mapping m)) reads r =
    classify_live_order py m r.provider_fills ≡ LiveOrderStatus.rejected
IsWrittenOff py intent _ reads r = ⊥

by_detail_rejected :
    (py : Runtime) (intent r : LiveIntentRecord) (reads : Reads) (m : Fields)
    → by_detail py intent reads m false ≡ ok r
    → r.state ≡ "rejected"
    → classify_live_order py m r.provider_fills ≡ LiveOrderStatus.rejected
unfolding by_detail
by_detail_rejected py intent r reads end returned rejected =
    let (missing, gone, empty_) =
      without_detail_rejected py intent r reads none false returned rejected in
    ground arith
by_detail_rejected py intent r reads (field k v rest) returned rejected =
    with_detail_rejected py intent r reads
      (or_kept (order_id_of py (field k v rest)) intent.provider_order_id) (field k v rest) returned
      rejected

written_off :
    (py : Runtime) (intent r : LiveIntentRecord) (reads : Reads)
    → by_detail py intent reads end true ≡ ok r
    → r.state ≡ "rejected"
    → IsGone py intent reads × (positive r.filled_qty ≡ false)
unfolding by_detail
written_off py intent r reads returned rejected =
    let (missing, gone, nothing) =
      without_detail_rejected py intent r reads none true returned rejected in
    (gone, nothing)

-- A refresh writes an unknown intent off as rejected in two cases only: the venue says that it has
-- no such order, and its reads show a flat position, no pending order and no fill of the order that
-- counts; or the venue's detail of the order, with the order's fills, classifies as rejected.
pub rejected_needs_evidence :
    (py : Runtime) (intent r : LiveIntentRecord) (d : DetailRead) (reads : Reads)
    → reconcile_unknown_intent py intent d reads ≡ ok r
    → r.state ≡ "rejected"
    → IsWrittenOff py intent d reads r
unfolding reconcile_unknown_intent
rejected_needs_evidence py intent r (answered (mapping m)) reads returned rejected =
    by_detail_rejected py intent r reads m returned rejected
rejected_needs_evidence py intent r (answered null) reads returned rejected = ground arith
rejected_needs_evidence py intent r (answered (boolean b)) reads returned rejected = ground arith
rejected_needs_evidence py intent r (answered (number n)) reads returned rejected = ground arith
rejected_needs_evidence py intent r (answered (string t)) reads returned rejected = ground arith
rejected_needs_evidence py intent r (answered (sequence rows)) reads returned rejected =
    ground arith
rejected_needs_evidence py intent r (refused code message) reads returned rejected =
    elim (Bool-cases (says_not_found py code message)) [
      | inl gone ↦
          let (idle, nothing) = written_off py intent r reads (rw gone at returned) rejected in
          (gone, idle, nothing)
      | inr other ↦ ground arith
    ]
rejected_needs_evidence py intent r (failed e) reads returned rejected = ground arith
