-- ===== src/Prelude/Dict.antt =====
-- Python dicts with text keys, in insertion order, and their laws.
use Prim.Native.String.{String}
use mathlib.Core.Path.{◌≡◌, refl}
use mathlib.Core.Bool.{true}
use mathlib.Core.Option.{Option, none, some}
use mathlib.Core.List.{List, [], ◌∷◌}
use native.Mathlib.Omega.{arith}
use text.Mathlib.Text.{◌==◌}
use text.Mathlib.TextEquality.{eq_iff}
use fatty_multi_exchange_tra.Prelude.Tests.{if◌then◌else◌}

abbrev pub Dict : Type 0 → Type 0
Dict V = List (String × V)

pub same_text : (s : String) → (s == s) ≡ true
same_text s = ground (arith, eq_iff s s)

module _ {V : Type 0} where
  -- `d.get(k)`
  unfoldable pub find : String → Dict V → Option V
  find k [] = none
  find k ((j, v) ∷ d) = if j == k then some v else find k d

  -- `d[k] = v`: a key keeps its place.
  unfoldable pub store : String → V → Dict V → Dict V
  store k v [] = (k, v) ∷ []
  store k v ((j, w) ∷ d) = let rest = store k v d in if j == k then (k, v) ∷ d else (j, w) ∷ rest

  pub find-store :
      (j k : String) (v : V) (d : Dict V)
      → find j (store k v d) ≡ (if k == j then some v else find j d)
  unfolding find store
  find-store j k v [] = refl
  find-store j k v ((i, w) ∷ d) =
      ground (arith, find-store j k v d, eq_iff i k, eq_iff i j, eq_iff k j)

  pub find-store_self : (k : String) (v : V) (d : Dict V) → find k (store k v d) ≡ some v
  find-store_self k v d = ground (arith, find-store k k v d, eq_iff k k)

  pub store-store : (k : String) (v w : V) (d : Dict V) → store k v (store k w d) ≡ store k v d
  unfolding store
  store-store k v w [] = ground (arith, eq_iff k k)
  store-store k v w ((i, u) ∷ d) = ground (arith, store-store k v w d, eq_iff i k, eq_iff k k)
