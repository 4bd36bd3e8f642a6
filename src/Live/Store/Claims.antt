-- ===== src/Live/Store/Claims.antt =====
-- The claims of the intent store: who may post an entry, cancel it or post its cancellation.
use text.Mathlib.Text.{◌==◌}
use text.Mathlib.TextEquality.{eq_iff}
use fatty_multi_exchange_tra.Prelude.{
  String, ◌≡◌, refl, Option-cases, inl, inr, Bool, true, false, Option, none, some, [], ◌∷◌, arith,
  is_some, List, if◌then◌else◌,
}
use fatty_multi_exchange_tra.Prelude.Dict.{find, store, find-store}
use fatty_multi_exchange_tra.Prelude.Raise.{Result, ok, err}
use fatty_multi_exchange_tra.Live.Values.{Runtime}
use fatty_multi_exchange_tra.Live.Record.{LiveIntentRecord}
use fatty_multi_exchange_tra.Live.Store.{
  LiveStore, get, put, put_at, claim, claim_split, the_record, claim_entry_post, claim_cancel,
  requested_by, update, update_over, kept,
}
use fatty_multi_exchange_tra.Live.Store.Writes.{record_fills_records}

-- A claim that was won stores the record.
claim_stores :
    (r : LiveIntentRecord) (s t : LiveStore)
    → claim r s ≡ (ok true, t)
    → is_some (get r.client_oid t) ≡ true
unfolding claim put get
claim_stores r s t won =
    ground
      (arith, find-store r.client_oid r.client_oid r s.records, eq_iff r.client_oid r.client_oid)

-- A claim of an id that is stored is lost.
claim_lost :
    (r : LiveIntentRecord) (s : LiveStore)
    → is_some (get r.client_oid s) ≡ true
    → ¬ ((claim r s).0 ≡ ok true)
unfolding claim
claim_lost r s there won = ground arith

abbrev pub is_cancelled : Option LiveIntentRecord → Bool
is_cancelled none = false
is_cancelled (some r) = is_some r.cancel_requested_by

-- The stored record's cancellation was requested.
abbrev pub IsCancelled : String → LiveStore → Type 0
IsCancelled k s = is_cancelled (get k s) ≡ true

claim_cancel_cancels :
    (k management : String) (s t : LiveStore)
    → claim_cancel k management s ≡ (ok true, t)
    → IsCancelled k t
unfolding claim_cancel the_record put_at get requested_by
claim_cancel_cancels k management s t won = elim (Option-cases (find k s.records)) [
  | inl missing ↦ ground arith
  | inr (r, at) ↦ ground (arith, find-store k k (requested_by management r) s.records, eq_iff k k)
]

IsCancelled-update :
    (py : Runtime) (k : String) (r : LiveIntentRecord) (s : LiveStore)
    → IsCancelled k s
    → IsCancelled k (update py r s).1
unfolding update update_over kept get
IsCancelled-update py k r s cancelled = go (find r.client_oid s.records) refl
  where
    go :
        (o : Option LiveIntentRecord)
        → find r.client_oid s.records ≡ o
        → IsCancelled k (update_over py r o s).1
    go none at = cancelled
    go (some existing) at =
        let after = record s { records = store r.client_oid (kept existing r) s.records } in
        ground (
          arith,
          record_fills_records py r r.provider_fills after,
          find-store k r.client_oid (kept existing r) s.records,
          eq_iff r.client_oid k,
        )

post_refused :
    (k : String) (s : LiveStore) → IsCancelled k s → ¬ ((claim_entry_post k s).0 ≡ ok true)
unfolding claim_entry_post the_record
post_refused k s cancelled won = ground arith

-- Read-backs that are written to the store, one after the other.
unfoldable pub run_updates : Runtime → List LiveIntentRecord → LiveStore → LiveStore
unfolding update
run_updates py [] s = s
run_updates py (r ∷ rs) s = run_updates py rs (update py r s).1

updates_stay :
    (py : Runtime) (k : String) (rs : List LiveIntentRecord) (s : LiveStore)
    → IsCancelled k s
    → IsCancelled k (run_updates py rs s)
unfolding run_updates
updates_stay py k [] s cancelled = cancelled
updates_stay py k (r ∷ rs) s cancelled =
    updates_stay py k rs (update py r s).1 (IsCancelled-update py k r s cancelled)

-- After a cancellation that was won for an entry, no claim to post the entry's order is won,
-- whatever records are written to the store in between.
pub cancel_blocks_post :
    (py : Runtime) (k management : String) (rs : List LiveIntentRecord) (s t : LiveStore)
    → claim_cancel k management s ≡ (ok true, t)
    → ¬ ((claim_entry_post k (run_updates py rs t)).0 ≡ ok true)
cancel_blocks_post py k management rs s t won =
    post_refused k (run_updates py rs t)
      (updates_stay py k rs t (claim_cancel_cancels k management s t won))

-- A won claim found neither leg, and both can be read back, with every other record as it was; a
-- lost one found the market leg, and one that raised found only the limit leg, and changed nothing.
abbrev pub IsBothOrNeither :
    LiveIntentRecord → LiveIntentRecord → LiveStore → Result Bool × LiveStore → Type 0
IsBothOrNeither market limit s (ok true, t) =
    (is_some (get market.client_oid s) ≡ false)
    × (is_some (get limit.client_oid s) ≡ false)
    × (get market.client_oid t ≡ some market)
    × (get limit.client_oid t ≡ some limit)
    × ((j : String)
        → get j t ≡ (
            if limit.client_oid == j
            then some limit
            else if market.client_oid == j
            then some market
            else get j s))
    × (claim_split market limit t ≡ (ok false, t))
IsBothOrNeither market limit s (ok false, t) = (is_some (get market.client_oid s) ≡ true) × (t ≡ s)
IsBothOrNeither market limit s (err e, t) =
    (is_some (get market.client_oid s) ≡ false)
    × (is_some (get limit.client_oid s) ≡ true)
    × (t ≡ s)

module _ (market limit : LiveIntentRecord) (s : LiveStore)
    (different : (limit.client_oid == market.client_oid) ≡ false) where
  -- The store after both legs were put.
  abbrev both : LiveStore
  both = record s {
    records = store limit.client_oid limit (store market.client_oid market s.records);
  }

  find_both :
      (j : String)
      → get j both ≡ (
          if limit.client_oid == j
          then some limit
          else if market.client_oid == j
          then some market
          else get j s)
  unfolding get
  find_both j = ground (
    arith,
    find-store j limit.client_oid limit (store market.client_oid market s.records),
    find-store j market.client_oid market s.records,
  )

  both_market : get market.client_oid both ≡ some market
  both_market =
      ground (arith, find_both market.client_oid, eq_iff market.client_oid market.client_oid)

  both_limit : get limit.client_oid both ≡ some limit
  both_limit = ground (arith, find_both limit.client_oid, eq_iff limit.client_oid limit.client_oid)

  again : claim_split market limit both ≡ (ok false, both)
  unfolding claim_split
  again = rw both_market refl

  by_guards :
      (m l : Bool)
      → is_some (get market.client_oid s) ≡ m
      → is_some (get limit.client_oid s) ≡ l
      → IsBothOrNeither market limit s (claim_split market limit s)
  unfolding claim_split put put_at
  by_guards true l at_market at_limit = rw at_market (at_market, refl)
  by_guards false true at_market at_limit = rw (at_market, at_limit) (at_market, at_limit, refl)
  by_guards false false at_market at_limit =
      rw (at_market, at_limit) (at_market, at_limit, both_market, both_limit, find_both, again)

  -- A split entry of two legs with different ids is claimed whole or not at all. The claim is won if
  -- and only if no leg was stored: then both legs read back as they were given, all other records
  -- are as they were, and the same claim is lost when it is repeated. It is lost if the market leg
  -- was stored, and raises if only the limit leg was; then the store is unchanged.
  pub claim_split_whole : IsBothOrNeither market limit s (claim_split market limit s)
  claim_split_whole = by_guards _ _ refl refl
