-- ===== src/Dispatch/Creation.antt =====
-- `create` of src/fatty_trader/storage/memory.py, as often as it is called.
use fatty_multi_exchange_tra.Prelude.{
  ℕ, String, ◌≡◌, refl, ◌==◌, if◌then◌else◌, Option, none, some, arith,
}
use fatty_multi_exchange_tra.Domain.{Exchange}
use fatty_multi_exchange_tra.Domain.Models.{CanonicalSignal}
use fatty_multi_exchange_tra.Dispatch.{
  Dispatch, Items, find, create, new_dispatch, dispatch_id, or_new,
}
use fatty_multi_exchange_tra.Dispatch.Keys.{IsKeyed, find-store, store-IsKeyed}

module _ (uuid5 : String → ℕ → Exchange → ℕ) (s : CanonicalSignal) (e : Exchange) where
  find-or_new :
      (items : Items) (o : Option Dispatch)
      → find (dispatch_id uuid5 s e) items ≡ o
      → find (dispatch_id uuid5 s e) (or_new uuid5 o s e items).1
        ≡ some (or_new uuid5 o s e items).0
  unfolding or_new
  find-or_new items none h = ground (
    arith,
    find-store (dispatch_id uuid5 s e) (dispatch_id uuid5 s e) (new_dispatch uuid5 s e) items,
  )
  find-or_new items (some d) h = h

  or_new-IsKeyed :
      (items : Items) (o : Option Dispatch) → IsKeyed items → IsKeyed (or_new uuid5 o s e items).1
  unfolding or_new new_dispatch
  or_new-IsKeyed items none h = store-IsKeyed _ (new_dispatch uuid5 s e) items refl h
  or_new-IsKeyed items (some d) h = h

  -- What `create` returns and leaves, by what stands under the id of the signal and the exchange.
  abbrev pub IsFoundOrNew : Option Dispatch → Dispatch → Items → Items → Type 0
  IsFoundOrNew none d items after =
      (d ≡ new_dispatch uuid5 s e)
      × ((j : ℕ) → find j after ≡ (if dispatch_id uuid5 s e == j then some d else find j items))
  IsFoundOrNew (some old) d items after = (d ≡ old) × (after ≡ items)

  or_new-IsFoundOrNew :
      (items : Items) (o : Option Dispatch)
      → IsFoundOrNew o (or_new uuid5 o s e items).0 items (or_new uuid5 o s e items).1
  unfolding or_new
  or_new-IsFoundOrNew items none = (
    refl,
    λ j. ground (arith, find-store j (dispatch_id uuid5 s e) (new_dispatch uuid5 s e) items),
  )
  or_new-IsFoundOrNew items (some d) = (refl, refl)

  -- Where every dispatch is stored once, under its own id: `create` returns the dispatch that stands
  -- under the id of the signal and the exchange, in whatever state it is, and changes nothing; or,
  -- if none does, it stores a new one there, returns it and leaves all others alone. It keeps the
  -- invariant, and when it is called again it returns the same dispatch and changes nothing.
  pub create_idempotent :
      (items : Items)
      → IsKeyed items
      → let (d, after) = create uuid5 s e items in
        IsFoundOrNew (find (dispatch_id uuid5 s e) items) d items after
        × (find (dispatch_id uuid5 s e) after ≡ some d)
        × IsKeyed after
        × (create uuid5 s e after ≡ (d, after))
  unfolding create
  create_idempotent items h =
      let o = find (dispatch_id uuid5 s e) items in
      let at = find-or_new items o refl in
      (or_new-IsFoundOrNew items o, at, or_new-IsKeyed items o h, rw at refl)
