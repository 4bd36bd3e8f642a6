-- ===== src/Management/Executor/Sound.antt =====
-- Worlds in which every provider call has its own durable intent, and the calls that keep them so.
use text.Mathlib.Text.{◌==◌}
use fatty_multi_exchange_tra.Prelude.{
  ℕ, zero, suc, ◌≤◌, String, ◌≡◌, refl, sym, subst, false, List, [], ◌∷◌, arith, eq_iff,
  if◌then◌else◌,
}
use fatty_multi_exchange_tra.Management.Updates.{holds}
use fatty_multi_exchange_tra.Management.Venue.{Event, Log, World, posts}
use fatty_multi_exchange_tra.Management.Executor.Names.{IsOid, owner_unique}

-- How many intents there are under the client id.
unfoldable pub claims : String → List (String × String) → ℕ
claims k [] = zero
claims k ((j, oid) ∷ intents) = let more = claims k intents in if oid == k then suc more else more

-- Every intent is under one of its update's client ids.
abbrev pub IsOwned : List (String × String) → Type 0
IsOwned [] = Unit {0}
IsOwned ((j, oid) ∷ intents) = IsOid j oid × IsOwned intents

-- No client id is posted more often than it is claimed, and none is claimed twice.
abbrev pub IsSound : World → Type 0
IsSound w =
    IsOwned w.store.provider_intents
    × ((k : String) → posts k w.log ≤ claims k w.store.provider_intents)
    × ((k : String) → claims k w.store.provider_intents ≤ 1)

pub intents_sound :
    (i j : List (String × String)) (log : Log)
    → j ≡ i
    → IsOwned i × ((k : String) → posts k log ≤ claims k i) × ((k : String) → claims k i ≤ 1)
    → IsOwned j × ((k : String) → posts k log ≤ claims k j) × ((k : String) → claims k j ≤ 1)
intents_sound i j log same h =
    subst
      (λ a. IsOwned a × ((k : String) → posts k log ≤ claims k a) × ((k : String) → claims k a ≤ 1))
      (sym same) h

pub log-IsSound :
    (w : World) (event : Event)
    → ((k : String) (log : Log) → posts k (event ∷ log) ≡ posts k log)
    → IsSound w
    → IsSound (record w { log = event ∷ w.log })
log-IsSound w event silent (owned, covered, single) =
    (owned, (λ k. omega (arith, covered k, silent k w.log)), single)

-- An id of the update that the update has not claimed was not claimed at all.
unclaimed :
    (id k : String) (intents : List (String × String))
    → IsOid id k
    → IsOwned intents
    → holds id k intents ≡ false
    → claims k intents ≡ 0
unfolding holds claims
unclaimed id k [] mine owned fresh = refl
unclaimed id k ((j, oid) ∷ intents) mine (his, owned) fresh = ground (
  arith,
  eq_iff j id,
  eq_iff oid k,
  unclaimed id k intents mine owned,
  λ (e : oid ≡ k). owner_unique j id k (subst (IsOid j) e his) mine,
)

-- The world after a new intent and its close or stop.
abbrev pub posted_world : String → String → Event → World → World
posted_world id oid event w = record {
  store = record w.store { provider_intents = (id, oid) ∷ w.store.provider_intents };
  log = event ∷ w.log;
}

-- A close or a stop that goes out behind a new intent of its own keeps the world sound.
pub posted-IsSound :
    (id oid : String) (event : Event) (w : World)
    → IsOid id oid
    → ((k : String) (log : Log)
        → posts k (event ∷ log) ≡ (let more = posts k log in if oid == k then suc more else more))
    → holds id oid w.store.provider_intents ≡ false
    → IsSound w
    → IsSound (posted_world id oid event w)
unfolding claims
posted-IsSound id oid event w mine counts fresh (owned, covered, once_) = (
  (mine, owned),
  λ k. ground (arith, counts k w.log, covered k),
  λ k.
      ground
        (arith, once_ k, eq_iff oid k, unclaimed id oid w.store.provider_intents mine owned fresh),
)
