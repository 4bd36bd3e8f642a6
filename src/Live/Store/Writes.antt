-- ===== src/Live/Store/Writes.antt =====
-- What the store holds after it was written.
use text.Mathlib.Text.{◌==◌}
use text.Mathlib.TextEquality.{eq_iff}
use fatty_multi_exchange_tra.Prelude.{
  String, ◌≡◌, refl, true, false, Bool, Option, none, some, [], ◌∷◌, arith, is_some, List,
  if◌then◌else◌,
}
use fatty_multi_exchange_tra.Prelude.Dict.{find, store, find-store, find-store_self}
use fatty_multi_exchange_tra.Prelude.Raise.{ok}
use fatty_multi_exchange_tra.Prelude.Calls.{◌>>◌, pure, choose}
use fatty_multi_exchange_tra.Live.Values.{Fields, Runtime, Value}
use fatty_multi_exchange_tra.Live.Fills.{fill_id}
use fatty_multi_exchange_tra.Live.Record.{LiveIntentRecord}
use fatty_multi_exchange_tra.Live.Store.{
  LiveStore, get, put, claim, conflict, save, save_over, update, update_over, kept, record_fills,
  record_fill, add_fill,
}

pub get-put :
    (j : String) (r : LiveIntentRecord) (s : LiveStore)
    → get j (put r s).1 ≡ (if r.client_oid == j then some r else get j s)
unfolding get put
get-put j r s = find-store j r.client_oid r s.records

-- Fills do not change the records.
record_fill_records :
    (py : Runtime) (r : LiveIntentRecord) (fill : Fields) (id : Option Value) (s : LiveStore)
    → (record_fill py r fill id s).records ≡ s.records
unfolding record_fill add_fill
record_fill_records py r fill id s = ground arith

pub record_fills_records :
    (py : Runtime) (r : LiveIntentRecord) (fills : List Fields) (s : LiveStore)
    → (record_fills py r fills s).records ≡ s.records
unfolding record_fills
record_fills_records py r [] s = refl
record_fills_records py r (fill ∷ fills) s = rw (
  record_fills_records py r fills (record_fill py r fill (fill_id fill) s),
  record_fill_records py r fill (fill_id fill) s,
)

-- An update that returned has kept the filled quantity.
pub update_filled :
    (py : Runtime) (r written : LiveIntentRecord) (s : LiveStore)
    → (update py r s).0 ≡ ok written
    → written.filled_qty ≡ r.filled_qty
unfolding update update_over kept
update_filled py r written s done = ground arith

-- An update that returned has written the record, with what the store kept of a cancellation.
pub get-update :
    (py : Runtime) (j : String) (r written : LiveIntentRecord) (s : LiveStore)
    → (update py r s).0 ≡ ok written
    → get j (update py r s).1 ≡ (if r.client_oid == j then some written else get j s)
unfolding update update_over get
get-update py j r written s done = go (find r.client_oid s.records) done
  where
    go :
        (o : Option LiveIntentRecord)
        → (update_over py r o s).0 ≡ ok written
        → find j (update_over py r o s).1.records
          ≡ (if r.client_oid == j then some written else find j s.records)
    go none returned = cc
    go (some existing) returned = ground (
      arith,
      record_fills_records py r r.provider_fills
          (record s { records = store r.client_oid (kept existing r) s.records }),
      find-store j r.client_oid (kept existing r) s.records,
    )

-- An update loses no record, whether it returns or raises.
pub update_keeps :
    (py : Runtime) (j : String) (r : LiveIntentRecord) (s : LiveStore)
    → is_some (get j s) ≡ true
    → is_some (get j (update py r s).1) ≡ true
unfolding update update_over get
update_keeps py j r s there = go (find r.client_oid s.records)
  where
    go : (o : Option LiveIntentRecord) → is_some (find j (update_over py r o s).1.records) ≡ true
    go none = there
    go (some existing) = ground (
      arith,
      record_fills_records py r r.provider_fills
          (record s { records = store r.client_oid (kept existing r) s.records }),
      find-store j r.client_oid (kept existing r) s.records,
    )

pub save_keeps :
    (j : String) (r : LiveIntentRecord) (s : LiveStore)
    → is_some (get j s) ≡ true
    → is_some (get j (save r s).1) ≡ true
unfolding save save_over get put
save_keeps j r s there = ground (arith, find-store j r.client_oid r s.records)

-- A save that returned leaves a record under its id.
pub save_stores :
    (r : LiveIntentRecord) (s : LiveStore)
    → (save r s).0 ≡ ok tt
    → is_some (get r.client_oid (save r s).1) ≡ true
unfolding save save_over get put
save_stores r s done =
    ground
      (arith, find-store r.client_oid r.client_oid r s.records, eq_iff r.client_oid r.client_oid)

-- What an update answers keeps the identities of the record that it was given.
pub update_fields :
    (py : Runtime) (r w : LiveIntentRecord) (s : LiveStore)
    → (update py r s).0 ≡ ok w
    → (w.exchange ≡ r.exchange)
      × (w.provider_order_id ≡ r.provider_order_id)
      × (w.provider_fill_ids ≡ r.provider_fill_ids)
unfolding update update_over kept
update_fields py r w s done = go (get r.client_oid s) done
  where
    go :
        (o : Option LiveIntentRecord)
        → (update_over py r o s).0 ≡ ok w
        → (w.exchange ≡ r.exchange)
          × (w.provider_order_id ≡ r.provider_order_id)
          × (w.provider_fill_ids ≡ r.provider_fill_ids)
    go none returned = cc
    go (some existing) returned = ground arith

-- A claim that returned found no record of that id and stored this one, or found one that does not
-- conflict with it and changed nothing.
abbrev pub Claims : LiveIntentRecord → LiveStore → Bool → LiveStore → Type 0
Claims r s true t = get r.client_oid t ≡ some r
Claims r s false t =
    (existing : LiveIntentRecord) × (get r.client_oid s ≡ some existing)
    × (conflict existing r ≡ false)
    × (t ≡ s)

pub claim_returned :
    (r : LiveIntentRecord) (s t : LiveStore) (b : Bool) → claim r s ≡ (ok b, t) → Claims r s b t
unfolding claim put save save_over get
claim_returned r s t b done = go (find r.client_oid s.records) refl b done
  where
    go :
        (o : Option LiveIntentRecord)
        → find r.client_oid s.records ≡ o
        → (c : Bool)
        → choose (is_some o) (do save r; pure false) (do put r; pure true) s ≡ (ok c, t)
        → Claims r s c t
    go none at true returned = ground (arith, find-store_self r.client_oid r s.records)
    go none at false returned = ground arith
    go (some existing) at true returned = ground arith
    go (some existing) at false returned = (existing, at, ground arith, ground arith)

pub claim_again :
    (r existing : LiveIntentRecord) (s : LiveStore)
    → get r.client_oid s ≡ some existing
    → conflict existing r ≡ false
    → claim r s ≡ (ok false, s)
unfolding claim save save_over get
claim_again r existing s at free = ground arith
