-- ===== src/Live/Store/Refinement.antt =====
-- The intent store as a function from client ids to records: what a client observes by `get` over
-- any sequence of calls.
use text.Mathlib.Text.{◌==◌}
use text.Mathlib.TextEquality.{eq_iff}
use fatty_multi_exchange_tra.Prelude.{
  String, ◌≡◌, refl, ap, ◌∙◌, true, not, any, Bool, Bool-cases, inl, inr, ◌&&◌, ◌||◌, Option, none,
  some, List, [], ◌∷◌, arith, is_some, is_none, if◌then◌else◌,
}
use fatty_multi_exchange_tra.Prelude.Dict.{find, store, find-store}
use fatty_multi_exchange_tra.Prelude.Raise.{Result, ok, err}
use fatty_multi_exchange_tra.Prelude.Calls.{Call, ◌>>◌, pure, continue}
use fatty_multi_exchange_tra.Live.Values.{Runtime}
use fatty_multi_exchange_tra.Live.Record.{LiveIntentRecord}
use fatty_multi_exchange_tra.Live.Store.{
  LiveStore, get, put, put_at, save, save_over, claim, the_record, claim_entry_post, is_limit,
  claim_cancel, claim_cancel_post, requested_by, update, update_over, kept, conflict, claim_split,
  claim_protection, put_all,
}
use fatty_multi_exchange_tra.Live.Store.Writes.{record_fills_records}

pub data Op : Type 0 where
  saved claimed updated : LiveIntentRecord → Op
  claimed_post claimed_cancel_post : String → Op
  claimed_cancel : String → String → Op
  claimed_split : LiveIntentRecord → LiveIntentRecord → Op
  claimed_protection : List LiveIntentRecord → Op

unfoldable pub run_op : Runtime → Op → LiveStore → LiveStore
unfolding save claim update claim_entry_post claim_cancel claim_cancel_post claim_split
    claim_protection
run_op py (saved r) s = (save r s).1
run_op py (claimed r) s = (claim r s).1
run_op py (updated r) s = (update py r s).1
run_op py (claimed_post k) s = (claim_entry_post k s).1
run_op py (claimed_cancel_post k) s = (claim_cancel_post k s).1
run_op py (claimed_cancel k management) s = (claim_cancel k management s).1
run_op py (claimed_split market limit) s = (claim_split market limit s).1
run_op py (claimed_protection rs) s = (claim_protection rs s).1

abbrev pub Spec : Type 0
Spec = String → Option LiveIntentRecord

-- The function, with another value at one id.
abbrev pub at : String → Option LiveIntentRecord → Spec → Spec
at k o f j = if k == j then o else f j

-- What each call makes of the record at its id: the first record of an id stays, a write that
-- conflicts changes nothing, a staged entry without a cancellation becomes requested, a limit entry
-- is cancelled once, and the order of a cancellation is claimed once.
abbrev pub inserted : LiveIntentRecord → Option LiveIntentRecord → Option LiveIntentRecord
inserted r none = some r
inserted r (some old) = some old

abbrev pub rewritten : LiveIntentRecord → Option LiveIntentRecord → Option LiveIntentRecord
rewritten r none = none
rewritten r (some old) = some (
    if conflict old r then old else record r {
      cancel_requested_by = old.cancel_requested_by;
      provider_terminal = r.provider_terminal || old.provider_terminal;
      cancel_post_claimed = old.cancel_post_claimed;
    })

abbrev pub requested : Option LiveIntentRecord → Option LiveIntentRecord
requested none = none
requested (some r) = some (
    if r.state == "staged" && is_none r.cancel_requested_by
    then record r { state = "requested" }
    else r)

abbrev pub cancelled : String → Option LiveIntentRecord → Option LiveIntentRecord
cancelled management none = none
cancelled management (some r) = some (
    if r.role == "ENTRY"
      && is_limit r.entry_leg
      && is_none r.cancel_requested_by
      && not r.provider_terminal
    then requested_by management r
    else r)

abbrev pub cancel_posted : Option LiveIntentRecord → Option LiveIntentRecord
cancel_posted none = none
cancel_posted (some r) = some (
    if is_some r.cancel_requested_by && not r.cancel_post_claimed && not r.provider_terminal
    then record r { cancel_post_claimed = true }
    else r)

-- The function with all the records, each under its own id.
abbrev pub placed : List LiveIntentRecord → Spec → Spec
placed [] f = f
placed (r ∷ rs) f = placed rs (at r.client_oid (some r) f)

-- Claims of several records are won whole, or change nothing.
abbrev pub placed_new : List LiveIntentRecord → Spec → Spec
placed_new rs f = if any (λ r. is_some (f r.client_oid)) rs then f else placed rs f

abbrev pub run_spec : Op → Spec → Spec
run_spec (saved r) f = at r.client_oid (inserted r (f r.client_oid)) f
run_spec (claimed r) f = at r.client_oid (inserted r (f r.client_oid)) f
run_spec (updated r) f = at r.client_oid (rewritten r (f r.client_oid)) f
run_spec (claimed_post k) f = at k (requested (f k)) f
run_spec (claimed_cancel_post k) f = at k (cancel_posted (f k)) f
run_spec (claimed_cancel k management) f = at k (cancelled management (f k)) f
run_spec (claimed_split market limit) f = placed_new (market ∷ limit ∷ []) f
run_spec (claimed_protection rs) f = placed_new rs f

module _ (s : LiveStore) (j : String) where
  save_refines :
      (r : LiveIntentRecord)
      → get j (save r s).1 ≡ at r.client_oid (inserted r (get r.client_oid s)) (λ k. get k s) j
  unfolding save save_over get put put_at
  save_refines r = ground (arith, find-store j r.client_oid r s.records, eq_iff r.client_oid j)

  claim_refines :
      (r : LiveIntentRecord)
      → get j (claim r s).1 ≡ at r.client_oid (inserted r (get r.client_oid s)) (λ k. get k s) j
  unfolding claim save save_over get put put_at
  claim_refines r = ground (arith, find-store j r.client_oid r s.records, eq_iff r.client_oid j)

  claim_entry_post_refines :
      (k : String) → get j (claim_entry_post k s).1 ≡ at k (requested (get k s)) (λ i. get i s) j
  unfolding claim_entry_post the_record get put_at
  claim_entry_post_refines k = go (find k s.records) refl
    where
      go :
          (o : Option LiveIntentRecord)
          → find k s.records ≡ o
          → get j (claim_entry_post k s).1 ≡ at k (requested (get k s)) (λ i. get i s) j
      go none missing = ground (arith, eq_iff k j)
      go (some r) there =
          ground (arith, find-store j k (record r { state = "requested" }) s.records, eq_iff k j)

  claim_cancel_post_refines :
      (k : String)
      → get j (claim_cancel_post k s).1 ≡ at k (cancel_posted (get k s)) (λ i. get i s) j
  unfolding claim_cancel_post the_record get put_at
  claim_cancel_post_refines k = go (find k s.records) refl
    where
      go :
          (o : Option LiveIntentRecord)
          → find k s.records ≡ o
          → get j (claim_cancel_post k s).1 ≡ at k (cancel_posted (get k s)) (λ i. get i s) j
      go none missing = ground (arith, eq_iff k j)
      go (some r) there =
          ground
            (arith, find-store j k (record r { cancel_post_claimed = true }) s.records, eq_iff k j)

  claim_cancel_refines :
      (k management : String)
      → get j (claim_cancel k management s).1
        ≡ at k (cancelled management (get k s)) (λ i. get i s) j
  unfolding claim_cancel the_record get put_at
  claim_cancel_refines k management = go (find k s.records) refl
    where
      go :
          (o : Option LiveIntentRecord)
          → find k s.records ≡ o
          → get j (claim_cancel k management s).1
            ≡ at k (cancelled management (get k s)) (λ i. get i s) j
      go none missing = ground (arith, eq_iff k j)
      go (some r) there =
          ground (arith, find-store j k (requested_by management r) s.records, eq_iff k j)

  update_refines :
      (py : Runtime) (r : LiveIntentRecord)
      → get j (update py r s).1
        ≡ at r.client_oid (rewritten r (get r.client_oid s)) (λ k. get k s) j
  unfolding update update_over get kept
  update_refines py r = go (find r.client_oid s.records) refl
    where
      go :
          (o : Option LiveIntentRecord)
          → find r.client_oid s.records ≡ o
          → find j (update_over py r o s).1.records
            ≡ at r.client_oid (rewritten r o) (λ k. find k s.records) j
      go none missing = ground (arith, eq_iff r.client_oid j)
      go (some old) there = ground (
        arith,
        record_fills_records py r r.provider_fills
            (record s { records = store r.client_oid (kept old r) s.records }),
        find-store j r.client_oid (kept old r) s.records,
        eq_iff r.client_oid j,
      )

put_refines :
    (r : LiveIntentRecord) (s : LiveStore) (j : String)
    → get j (put r s).1 ≡ at r.client_oid (some r) (λ k. get k s) j
unfolding put put_at get
put_refines r s j = find-store j r.client_oid r s.records

put_all_refines :
    (rs : List LiveIntentRecord) (s : LiveStore) (j : String)
    → get j (put_all rs s).1 ≡ placed rs (λ k. get k s) j
unfolding put_all
put_all_refines [] s j = refl
put_all_refines (r ∷ rs) s j =
    put_all_refines rs (put r s).1 j ∙ ap (λ f. placed rs f j) (λ i k. put_refines r s k i)

-- A value that follows changes nothing.
pure_leaves :
    (m : Call LiveStore (Unit {0})) (b : Bool) (s : LiveStore) → ((m >> pure b) s).1 ≡ (m s).1
pure_leaves m b s = go (m s)
  where
    go : (r : Result (Unit {0}) × LiveStore) → (continue r (λ passed. pure b)).1 ≡ r.1
    go (err e, t) = refl
    go (ok u, t) = refl

claim_protection_refines :
    (rs : List LiveIntentRecord) (s : LiveStore) (j : String)
    → get j (claim_protection rs s).1 ≡ placed_new rs (λ k. get k s) j
unfolding claim_protection
claim_protection_refines rs s j = elim (Bool-cases (any (λ r. is_some (get r.client_oid s)) rs)) [
  | inl there ↦ rw there refl
  | inr free ↦ rw free (ap (get j) (pure_leaves (put_all rs) true s) ∙ put_all_refines rs s j)
]

claim_split_refines :
    (market limit : LiveIntentRecord) (s : LiveStore) (j : String)
    → get j (claim_split market limit s).1 ≡ placed_new (market ∷ limit ∷ []) (λ k. get k s) j
unfolding claim_split put put_at get
claim_split_refines market limit s j = ground (
  arith,
  find-store j limit.client_oid limit (store market.client_oid market s.records),
  find-store j market.client_oid market s.records,
)

run_op_refines :
    (py : Runtime) (op : Op) (s : LiveStore) (j : String)
    → get j (run_op py op s) ≡ run_spec op (λ k. get k s) j
unfolding run_op
run_op_refines py (saved r) s j = save_refines s j r
run_op_refines py (claimed r) s j = claim_refines s j r
run_op_refines py (updated r) s j = update_refines s j py r
run_op_refines py (claimed_post k) s j = claim_entry_post_refines s j k
run_op_refines py (claimed_cancel_post k) s j = claim_cancel_post_refines s j k
run_op_refines py (claimed_cancel k management) s j = claim_cancel_refines s j k management
run_op_refines py (claimed_split market limit) s j = claim_split_refines market limit s j
run_op_refines py (claimed_protection rs) s j = claim_protection_refines rs s j

unfoldable pub run_ops : Runtime → List Op → LiveStore → LiveStore
run_ops py [] s = s
run_ops py (op ∷ ops) s = run_ops py ops (run_op py op s)

unfoldable pub replay : List Op → Spec → Spec
replay [] f = f
replay (op ∷ ops) f = replay ops (run_spec op f)

-- Whatever sequence of saves, updates and claims is made, a store reads as the replay of the calls on
-- a function from client ids to records: a call changes the records of its own ids at most, and as
-- the call's description says, whether the call returns or raises. The claims are those of an
-- intent, of the two legs of a split, of a list of protections, of the post of an entry, of its
-- cancellation and of the cancellation's post.
pub run_ops_refines :
    (py : Runtime) (ops : List Op) (s : LiveStore) (j : String)
    → get j (run_ops py ops s) ≡ replay ops (λ k. get k s) j
unfolding run_ops replay
run_ops_refines py [] s j = refl
run_ops_refines py (op ∷ ops) s j =
    run_ops_refines py ops (run_op py op s) j
    ∙ ap (λ f. replay ops f j) (λ i k. run_op_refines py op s k i)
