-- ===== src/Dispatch/Claims.antt =====
-- What `claim` returns, and what it leaves alone.
use fatty_multi_exchange_tra.Prelude.{
  ℕ, zero, suc, ◌+◌, ◌*◌, ◌<◌, String, ◌≡◌, ◌≢◌, refl, sym, subst, ap, ◌∙◌, Option, none, some,
  true, false, arith,
}
use fatty_multi_exchange_tra.Prelude.Int.{ℤ, pos, negsuc, pos_part}
use fatty_multi_exchange_tra.Prelude.Raise.{ok}
use fatty_multi_exchange_tra.Dispatch.{
  Dispatch, Items, find, store, claimable, claimed, first_claimable, claim, microseconds,
  claim_found,
}
use fatty_multi_exchange_tra.Dispatch.Keys.{
  IsKeyed, find-store, store-IsKeyed, first_claimable-find, first_claimable-none,
}

-- What a claim at `now` for `seconds` made of the queue `items`, by what it returned.
abbrev Claimed : String → ℕ → ℤ → Items → Option Dispatch × Items → Type 0
Claimed worker now seconds items (some d, after) =
    (old : Dispatch) × (find old.id items ≡ some old)
    × (claimable now old ≡ true)
    × (d ≡ claimed worker now (pos_part seconds) old)
    × (after ≡ store old.id d items)
Claimed worker now seconds items (none, after) =
    (after ≡ items) × ((k : ℕ) (d : Dispatch) → find k items ≡ some d → claimable now d ≡ false)

claim_found-Claimed :
    (worker : String) (now n : ℕ) (items : Items) (o : Option Dispatch)
    → IsKeyed items
    → first_claimable now items ≡ o
    → Claimed worker now (pos n) items (claim_found worker now n items o)
claim_found-Claimed worker now n items none h e =
    (refl, λ k d. first_claimable-none now k items d e)
claim_found-Claimed worker now n items (some d) h e =
    let (stored, test) = first_claimable-find now items d h e in (d, stored, test, refl, refl)

-- A claim that does not raise returns a stored, claimable item with the worker's name, a lease of
-- the given length and one more attempt, and stores it; or it returns nothing, changes nothing, and
-- no stored item was claimable.
pub claim_lem :
    (worker : String) (now : ℕ) (seconds : ℤ) (items : Items) {r : Option Dispatch × Items}
    → IsKeyed items
    → claim worker now seconds items ≡ ok r
    → Claimed worker now seconds items r
unfolding claim
claim_lem worker now (pos zero) items h e = cc
claim_lem worker now (negsuc n) items h e = cc
claim_lem worker now (pos (suc n)) items {r} h e =
    let found = first_claimable now items in
    let same : claim_found worker now (suc n) items found ≡ r = ground arith in
    subst (Claimed worker now (pos (suc n)) items) same
      (claim_found-Claimed worker now (suc n) items found h refl)

-- A live lease: some worker holds the item, and its time has not come.
abbrev pub IsLeased : ℕ → Dispatch → Type 0
IsLeased now d =
    (w : String) × (t : ℕ) × (d.claimed_by ≡ some w) × (d.lease_until ≡ some t) × (now < t)

IsLeased-claimable : (now : ℕ) (d : Dispatch) → IsLeased now d → claimable now d ≡ false
unfolding claimable
IsLeased-claimable now d (w, t, held, until, early) = ground arith

id-claimed :
    (worker : String) (now n : ℕ) (d old : Dispatch) → d ≡ claimed worker now n old → d.id ≡ old.id
unfolding claimed
id-claimed worker now n d old copy = ap (λ (x : Dispatch). x.id) copy

-- Where every dispatch is stored once, under its own id: while a lease is live, no claim returns its
-- dispatch. A claim that returns one returns another id, and leaves the leased item as it was.
pub claim_respects_lease :
    (worker : String) (now : ℕ) (seconds : ℤ) (items after : Items) (k : ℕ) (held d : Dispatch)
    → IsKeyed items
    → find k items ≡ some held
    → IsLeased now held
    → claim worker now seconds items ≡ ok (some d, after)
    → (d.id ≢ k) × (find k after ≡ some held)
claim_respects_lease worker now seconds items after k held d keyed at leased e =
    let (old, stored, test, copy, written) = claim_lem worker now seconds items keyed e in
    let same : d.id ≡ old.id = id-claimed worker now (pos_part seconds) d old copy in
    let free : old.id ≢ k = λ p. cc (IsLeased-claimable now held leased) in
    (λ p. free (sym same ∙ p), ground (arith, find-store k old.id d items))

-- Where every dispatch is stored once, under its own id, this holds after a claim too.
pub claim-IsKeyed :
    (worker : String) (now : ℕ) (seconds : ℤ) (items after : Items) (o : Option Dispatch)
    → IsKeyed items
    → claim worker now seconds items ≡ ok (o, after)
    → IsKeyed after
claim-IsKeyed worker now seconds items after none h e =
    let (same, rest) = claim_lem worker now seconds items h e in subst IsKeyed (sym same) h
claim-IsKeyed worker now seconds items after (some d) h e =
    let (old, stored, test, copy, written) = claim_lem worker now seconds items h e in
    subst IsKeyed (sym written)
      (store-IsKeyed old.id d items (id-claimed worker now (pos_part seconds) d old copy) h)

-- Where every dispatch is stored once, under its own id, the item that a claim returns is stored, and
-- leased to the worker until `now` plus the lease.
pub claim-IsLeased :
    (worker : String) (now : ℕ) (seconds : ℤ) (items after : Items) (d : Dispatch)
    → IsKeyed items
    → claim worker now seconds items ≡ ok (some d, after)
    → (find d.id after ≡ some d)
      × (d.claimed_by ≡ some worker)
      × (d.lease_until ≡ some (now + pos_part seconds * microseconds))
unfolding claimed
claim-IsLeased worker now seconds items after d h e =
    let (old, stored, test, copy, written) = claim_lem worker now seconds items h e in
    (
      ground (
        arith,
        find-store d.id old.id d items,
        id-claimed worker now (pos_part seconds) d old copy,
      ),
      ap (λ (x : Dispatch). x.claimed_by) copy,
      ap (λ (x : Dispatch). x.lease_until) copy,
    )

-- Where every dispatch is stored once, under its own id: two claims, one after the other, that both
-- return a dispatch return different ids if the second is made before the first one's lease ends.
pub claims_differ :
    (w v : String) (now later : ℕ) (s t : ℤ) (items between after : Items) (d e : Dispatch)
    → IsKeyed items
    → later < now + pos_part s * microseconds
    → claim w now s items ≡ ok (some d, between)
    → claim v later t between ≡ ok (some e, after)
    → e.id ≢ d.id
claims_differ w v now later s t items between after d e keyed early first second =
    let (stored, held, until) = claim-IsLeased w now s items between d keyed first in
    (claim_respects_lease v later t between after d.id d e
      (claim-IsKeyed w now s items between (some d) keyed first) stored
      (w, now + pos_part s * microseconds, held, until, early) second).0
