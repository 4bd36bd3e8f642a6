-- ===== src/Dispatch/Keys.antt =====
-- The dictionary of the dispatch queue: look-ups after writes, and the keys' invariant.
use fatty_multi_exchange_tra.Prelude.{
  ℕ, ◌≡◌, refl, none, some, [], ◌∷◌, arith, ◌==◌, if◌then◌else◌, true, false,
}
use fatty_multi_exchange_tra.Dispatch.{Dispatch, Items, find, store, claimable, first_claimable}

-- Every item is stored under its own id, and no key is listed twice.
abbrev pub IsKeyed : Items → Type 0
IsKeyed [] = Unit
IsKeyed ((k, d) ∷ items) = (d.id ≡ k) × (find k items ≡ none) × IsKeyed items

pub find-store :
    (j k : ℕ) (d : Dispatch) (items : Items)
    → find j (store k d items) ≡ (if k == j then some d else find j items)
unfolding find store
find-store j k d [] = refl
find-store j k d ((i, e) ∷ items) = ground (arith, find-store j k d items)

pub store-IsKeyed :
    (k : ℕ) (d : Dispatch) (items : Items) → d.id ≡ k → IsKeyed items → IsKeyed (store k d items)
unfolding store find
store-IsKeyed k d [] e h = (e, refl, tt)
store-IsKeyed k d ((i, f) ∷ items) e h =
    ground (arith, store-IsKeyed k d items e h.2, find-store i k d items)

pub find-id :
    (k : ℕ) (items : Items) (d : Dispatch) → IsKeyed items → find k items ≡ some d → d.id ≡ k
unfolding find
find-id k [] d h e = cc
find-id k ((i, f) ∷ items) d h e = ground (arith, find-id k items d h.2)

-- The item that the loop of `claim` picks is stored, and passes the loop's test.
pub first_claimable-find :
    (now : ℕ) (items : Items) (d : Dispatch)
    → IsKeyed items
    → first_claimable now items ≡ some d
    → (find d.id items ≡ some d) × (claimable now d ≡ true)
unfolding first_claimable find
first_claimable-find now [] d h e = cc
first_claimable-find now ((i, f) ∷ items) d h e =
    ground (arith, first_claimable-find now items d h.2)

-- If the loop finds nothing, no stored item passes its test.
pub first_claimable-none :
    (now k : ℕ) (items : Items) (d : Dispatch)
    → first_claimable now items ≡ none
    → find k items ≡ some d
    → claimable now d ≡ false
unfolding first_claimable find
first_claimable-none now k [] d h e = cc
first_claimable-none now k ((i, f) ∷ items) d h e =
    ground (arith, first_claimable-none now k items d)

-- The second of two writes to one key is the one that counts.
pub store-store :
    (k : ℕ) (d e : Dispatch) (items : Items) → store k d (store k e items) ≡ store k d items
unfolding store
store-store k d e [] = ground arith
store-store k d e ((i, f) ∷ items) = ground (arith, store-store k d e items)
