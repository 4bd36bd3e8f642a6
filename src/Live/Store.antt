-- ===== src/Live/Store.antt =====
-- `InMemoryLiveIntentStore` of src/fatty_trader/exchanges/bitget/live.py. Records are values, so the
-- copies that the source makes of them are left out.
pub mod Writes
pub mod Fills
pub mod Claims
pub mod Refinement
use text.Mathlib.Text.{◌==◌}
use fatty_multi_exchange_tra.Prelude.{
  String, Bool, true, false, not, ◌&&◌, ◌||◌, Option, none, some, List, [], ◌∷◌, ◌++◌, is_none,
  is_some, any, if◌then◌else◌,
}
use fatty_multi_exchange_tra.Prelude.Raise.{
  Error, Result, ok, err, value_error, lookup_error, key_error,
}
use fatty_multi_exchange_tra.Prelude.Calls.{Call, ◌>>=◌, ◌>>◌, pure, raise, continue, choose}
use fatty_multi_exchange_tra.Prelude.Dict.{Dict, find, store}
use fatty_multi_exchange_tra.Live.Values.{Fields, Runtime, Value}
use fatty_multi_exchange_tra.Live.Fills.{fill_id}
use fatty_multi_exchange_tra.Live.Record.{LiveIntentRecord}

-- The key set of the fills is a list; a provider event stands for its own key.
pub record LiveStore : Type 0 where
  pub records : Dict LiveIntentRecord
  pub fills : List (String × Fields)
  pub fill_keys : List (String × String)
  pub provider_events : List (String × String × String)
  pub close_bindings : Dict String

abbrev pub empty_store : LiveStore
empty_store = record {
  records = [];
  fills = [];
  fill_keys = [];
  provider_events = [];
  close_bindings = [];
}

-- Two order ids of the provider that are there and differ.
unfoldable pub ids_conflict : Option String → Option String → Bool
ids_conflict (some a) (some b) = not (a == b)
ids_conflict _ _ = false

unfoldable pub conflict : LiveIntentRecord → LiveIntentRecord → Bool
unfolding ids_conflict
conflict existing r =
    not (existing.exchange == r.exchange)
    || ids_conflict existing.provider_order_id r.provider_order_id

-- `self._records[k] = r`, also where the record at the key changes in place.
unfoldable pub put_at : String → LiveIntentRecord → Call LiveStore (Unit {0})
unfolding store
put_at k r s = (ok tt, record s { records = store k r s.records })

unfoldable pub put : LiveIntentRecord → Call LiveStore (Unit {0})
unfolding put_at
put r = put_at r.client_oid r

unfoldable pub get : String → LiveStore → Option LiveIntentRecord
unfolding find
get k s = find k s.records

-- `self._records[k]`
unfoldable pub the_record : String → Call LiveStore LiveIntentRecord
unfolding get
the_record k s = elim (get k s) [ none ↦ (err key_error, s) | some r ↦ (ok r, s) ]

pub save_over : LiveIntentRecord → Option LiveIntentRecord → Call LiveStore (Unit {0})
unfolding conflict put
save_over r none = put r
save_over r (some existing) = choose (conflict existing r) (raise value_error) (pure tt)

unfoldable pub save : LiveIntentRecord → Call LiveStore (Unit {0})
unfolding save_over get
save r s = save_over r (get r.client_oid s) s

unfoldable pub claim : LiveIntentRecord → Call LiveStore Bool
unfolding get save put
claim r s = choose (is_some (get r.client_oid s)) (do save r; pure false) (do put r; pure true) s

unfoldable pub claim_split : LiveIntentRecord → LiveIntentRecord → Call LiveStore Bool
unfolding get put
claim_split market limit s =
    choose (is_some (get market.client_oid s)) (pure false)
      (choose (is_some (get limit.client_oid s)) (raise value_error)
        (do put market; put limit; pure true))
      s

unfoldable pub claim_entry_post : String → Call LiveStore Bool
unfolding the_record put_at
claim_entry_post k = do
  r ← the_record k
  choose (not (r.state == "staged") || is_some r.cancel_requested_by) (pure false)
      (do put_at k (record r { state = "requested" }); pure true)

-- `record.entry_leg == "limit"`
pub is_limit : Option String → Bool
is_limit none = false
is_limit (some leg) = leg == "limit"

-- A staged entry is cancelled where it stands.
pub requested_by : String → LiveIntentRecord → LiveIntentRecord
requested_by management r =
    if r.state == "staged"
    then record r {
      cancel_requested_by = some management;
      state = "cancelled";
      provider_terminal = true;
    }
    else record r { cancel_requested_by = some management }

unfoldable pub claim_cancel : String → String → Call LiveStore Bool
unfolding the_record put_at is_limit requested_by
claim_cancel k management = do
  r ← the_record k
  choose (not (r.role == "ENTRY") || not (is_limit r.entry_leg)) (raise value_error) (
      choose (is_some r.cancel_requested_by || r.provider_terminal) (pure false)
        (do put_at k (requested_by management r); pure true))

unfoldable pub claim_cancel_post : String → Call LiveStore Bool
unfolding the_record put_at
claim_cancel_post k = do
  r ← the_record k
  choose (is_none r.cancel_requested_by || r.cancel_post_claimed || r.provider_terminal)
      (pure false) (do put_at k (record r { cancel_post_claimed = true }); pure true)

put_all : List LiveIntentRecord → Call LiveStore (Unit {0})
unfolding put
put_all [] = pure tt
put_all (r ∷ rs) = do put r; put_all rs

unfoldable pub claim_protection : List LiveIntentRecord → Call LiveStore Bool
unfolding get put_all
claim_protection rs s =
    choose (any (λ r. is_some (get r.client_oid s)) rs) (pure false) (do put_all rs; pure true) s

-- `key in self._fill_keys`
unfoldable pub seen : String → String → List (String × String) → Bool
seen exchange id [] = false
seen exchange id ((e, i) ∷ keys) = e == exchange && i == id || seen exchange id keys

pub add_fill : String → String → String → Fields → LiveStore → LiveStore
unfolding seen
add_fill exchange oid id fill s = if seen exchange id s.fill_keys then s else record s {
  fill_keys = (exchange, id) ∷ s.fill_keys;
  fills = s.fills ++ ((oid, fill) ∷ []);
}

pub record_fill : Runtime → LiveIntentRecord → Fields → Option Value → LiveStore → LiveStore
unfolding add_fill
record_fill py r fill none s = s
record_fill py r fill (some id) s = add_fill r.exchange r.client_oid (py.str id) fill s

-- The loop of `record_fills`.
unfoldable pub record_fills : Runtime → LiveIntentRecord → List Fields → LiveStore → LiveStore
unfolding record_fill fill_id
record_fills py r [] s = s
record_fills py r (fill ∷ fills) s =
    record_fills py r fills (record_fill py r fill (fill_id fill) s)

-- The record as it is written: what the store knows of a cancellation stays.
unfoldable pub kept : LiveIntentRecord → LiveIntentRecord → LiveIntentRecord
kept existing r = record r {
  cancel_requested_by = existing.cancel_requested_by;
  provider_terminal = r.provider_terminal || existing.provider_terminal;
  cancel_post_claimed = existing.cancel_post_claimed;
}

pub update_over :
    Runtime → LiveIntentRecord → Option LiveIntentRecord → Call LiveStore LiveIntentRecord
unfolding conflict put kept record_fills
update_over py r none = raise lookup_error
update_over py r (some existing) = choose (conflict existing r) (raise value_error) (λ s. (
  ok (kept existing r),
  record_fills py r r.provider_fills
      (record s { records = store r.client_oid (kept existing r) s.records }),
))

-- `update` leaves the caller's record with the fields that it kept; the answer is that record.
unfoldable pub update : Runtime → LiveIntentRecord → Call LiveStore LiveIntentRecord
unfolding update_over get
update py r s = update_over py r (get r.client_oid s) s

-- An event of the exchange with the fill's id is listed already.
event_seen : String → String → List (String × String × String) → Bool
event_seen exchange id [] = false
event_seen exchange id ((e, i, source) ∷ events) =
    e == exchange && i == id || event_seen exchange id events

-- `record_provider_event`, of an observation's exchange, fill id and source.
unfoldable pub record_provider_event : String → String → String → LiveStore → LiveStore
unfolding event_seen
record_provider_event exchange id source s =
    if event_seen exchange id s.provider_events
    then s
    else record s { provider_events = s.provider_events ++ ((exchange, id, source) ∷ []) }
