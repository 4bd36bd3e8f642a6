-- ===== src/Live/Store/Fills.antt =====
-- The store's ledger of fills.
use text.Mathlib.TextEquality.{eq_iff}
use fatty_multi_exchange_tra.Prelude.{
  String, ◌≡◌, refl, subst, true, Option, none, some, [], ◌∷◌, ◌++◌, arith, List,
}
use fatty_multi_exchange_tra.Live.Values.{Fields, Runtime, Value}
use fatty_multi_exchange_tra.Live.Fills.{fill_id}
use fatty_multi_exchange_tra.Live.Record.{LiveIntentRecord}
use fatty_multi_exchange_tra.Live.Store.{
  LiveStore, get, event_seen, record_provider_event, record_fills, record_fill, add_fill, seen,
}

-- The store has recorded the fill with the id, if it has one.
abbrev pub IsRecordedId : Runtime → String → Option Value → LiveStore → Type 0
IsRecordedId py exchange none s = Unit {0}
IsRecordedId py exchange (some id) s = seen exchange (py.str id) s.fill_keys ≡ true

abbrev pub AreRecorded : Runtime → String → List Fields → LiveStore → Type 0
AreRecorded py exchange [] s = Unit {0}
AreRecorded py exchange (fill ∷ fills) s =
    IsRecordedId py exchange (fill_id fill) s × AreRecorded py exchange fills s

module _ (py : Runtime) where
  record_fill_keeps :
      (exchange id : String) (r : LiveIntentRecord) (fill : Fields) (o : Option Value)
      (s : LiveStore)
      → seen exchange id s.fill_keys ≡ true
      → seen exchange id (record_fill py r fill o s).fill_keys ≡ true
  unfolding record_fill add_fill seen
  record_fill_keeps exchange id r fill o s h = ground arith

  record_fills_keeps :
      (exchange id : String) (r : LiveIntentRecord) (fills : List Fields) (s : LiveStore)
      → seen exchange id s.fill_keys ≡ true
      → seen exchange id (record_fills py r fills s).fill_keys ≡ true
  unfolding record_fills
  record_fills_keeps exchange id r [] s h = h
  record_fills_keeps exchange id r (fill ∷ fills) s h =
      record_fills_keeps exchange id r fills (record_fill py r fill (fill_id fill) s)
        (record_fill_keeps exchange id r fill (fill_id fill) s h)

  record_fill_records :
      (r : LiveIntentRecord) (fill : Fields) (o : Option Value) (s : LiveStore)
      → IsRecordedId py r.exchange o (record_fill py r fill o s)
  unfolding record_fill add_fill seen
  record_fill_records r fill none s = tt
  record_fill_records r fill (some id) s =
      ground (arith, eq_iff r.exchange r.exchange, eq_iff (py.str id) (py.str id))

  recorded_keeps :
      (exchange : String) (o : Option Value) (r : LiveIntentRecord) (fills : List Fields)
      (s : LiveStore)
      → IsRecordedId py exchange o s
      → IsRecordedId py exchange o (record_fills py r fills s)
  recorded_keeps exchange none r fills s h = tt
  recorded_keeps exchange (some id) r fills s h =
      record_fills_keeps exchange (py.str id) r fills s h

  record_fills_recorded :
      (r : LiveIntentRecord) (fills : List Fields) (s : LiveStore)
      → AreRecorded py r.exchange fills (record_fills py r fills s)
  unfolding record_fills
  record_fills_recorded r [] s = tt
  record_fills_recorded r (fill ∷ fills) s =
      let after = record_fill py r fill (fill_id fill) s in
      (
        recorded_keeps r.exchange (fill_id fill) r fills after
            (record_fill_records r fill (fill_id fill) s),
        record_fills_recorded r fills after,
      )

  record_fill_again :
      (r : LiveIntentRecord) (fill : Fields) (o : Option Value) (s : LiveStore)
      → IsRecordedId py r.exchange o s
      → record_fill py r fill o s ≡ s
  unfolding record_fill add_fill
  record_fill_again r fill none s h = refl
  record_fill_again r fill (some id) s h = ground arith

  recorded_again :
      (r : LiveIntentRecord) (fills : List Fields) (s : LiveStore)
      → AreRecorded py r.exchange fills s
      → record_fills py r fills s ≡ s
  unfolding record_fills
  recorded_again r [] s h = refl
  recorded_again r (fill ∷ fills) s (first, rest) =
      rw (record_fill_again r fill (fill_id fill) s first) (recorded_again r fills s rest)

  -- A second read-back that brings the same fills of an exchange, for the same record or for
  -- another one, adds nothing to the ledger.
  pub record_fills_idempotent :
      (r again : LiveIntentRecord) (fills : List Fields) (s : LiveStore)
      → r.exchange ≡ again.exchange
      → record_fills py again fills (record_fills py r fills s) ≡ record_fills py r fills s
  record_fills_idempotent r again fills s same =
      recorded_again again fills (record_fills py r fills s) (
        subst (λ e. AreRecorded py e fills (record_fills py r fills s)) same
          (record_fills_recorded r fills s))

event_listed :
    (exchange id source : String) (events : List (String × String × String))
    → event_seen exchange id (events ++ ((exchange, id, source) ∷ [])) ≡ true
unfolding event_seen
event_listed exchange id source [] = ground (arith, eq_iff exchange exchange, eq_iff id id)
event_listed exchange id source ((e, i, c) ∷ events) =
    ground (arith, event_listed exchange id source events)

-- A provider's event that is noted again changes nothing.
pub record_provider_event_idempotent :
    (exchange id source : String) (s : LiveStore)
    → record_provider_event exchange id source (record_provider_event exchange id source s)
      ≡ record_provider_event exchange id source s
unfolding record_provider_event
record_provider_event_idempotent exchange id source s =
    ground (arith, event_listed exchange id source s.provider_events)

-- A provider's event leaves the records alone.
pub record_provider_event_records :
    (exchange id source k : String) (s : LiveStore)
    → get k (record_provider_event exchange id source s) ≡ get k s
unfolding record_provider_event get
record_provider_event_records exchange id source k s = ground arith
