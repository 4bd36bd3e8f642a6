-- ===== src/Protection/Watchdog/Admission.antt =====
-- Which symbols a cycle of the watchdog lets take new entries, and what it leaves in the repository.
use text.Mathlib.Text.{◌==◌}
use mathlib.Core.Path.{ap₂}
use fatty_multi_exchange_tra.Prelude.{
  String, ◌≡◌, refl, Bool, true, false, Option, none, some, List, [], ◌∷◌, arith, eq_iff, All,
  if◌then◌else◌, is_none, ◌&&◌, Bool-cases, subst, inl, inr, ◌↔◌, map, ◌⊎◌, ap, sym, ◌∙◌,
}
use fatty_multi_exchange_tra.Protection.Capability.{
  BitgetProtectionCapability, Instant, NativeProtectionState, is_verified,
}
use fatty_multi_exchange_tra.Protection.Snapshot.{connected, Reason, read_reason}
use fatty_multi_exchange_tra.Protection.Repository.{Capabilities, get, put, ensured, update_stream}
use fatty_multi_exchange_tra.Protection.Watchdog.{
  Settings, Surroundings, Watchdog, WatchdogStatus, allows, recorded, check_symbols, run_once,
  track,
}

get-put :
    (j k : String) (c : BitgetProtectionCapability) (cs : Capabilities)
    → get j (put k c cs) ≡ (if k == j then some c else get j cs)
unfolding get put
get-put j k c [] = refl
get-put j k c ((i, d) ∷ cs) = ground (arith, eq_iff k j, eq_iff i k, eq_iff i j, get-put j k c cs)

-- What no stream update touches: the native verdict, the fallback permission and the instant of the
-- last stream event.
abbrev pub Core : Type 0
Core = NativeProtectionState × Bool × Option Instant

abbrev pub core : BitgetProtectionCapability → Core
core c = (c.native_state, c.fallback_allowed, c.last_stream_at)

module _ (e : String) where
  ensured-put :
      (k s : String) (c : BitgetProtectionCapability) (cs : Capabilities)
      → core c ≡ core (ensured e s cs)
      → core (ensured e k (put s c cs)) ≡ core (ensured e k cs)
  unfolding ensured
  ensured-put k s c cs h = elim (Bool-cases (s == k)) [
    | inl same ↦
        rw (get-put k s c cs, same)
          (subst (λ t. core c ≡ core (ensured e t cs)) ((eq_iff s k).0 same) h)
    | inr other ↦ rw (get-put k s c cs, other)
  ]

module _ (config : Settings) (w : Surroundings) where
  abbrev known : String → Capabilities → BitgetProtectionCapability
  known s cs = ensured config.environment s cs

  core-recorded :
      (k s : String) (read_ok : Bool) (cs : Capabilities)
      → core (known k (recorded config w s read_ok (known s cs) cs)) ≡ core (known k cs)
  unfolding recorded update_stream
  core-recorded k s read_ok cs =
      let c = known s cs in
      let once = ensured-put config.environment k s c cs refl in
      elim (Bool-cases (is_verified c.native_state && read_ok)) [
        | inl kept ↦ rw kept once
        | inr updated ↦ rw updated (
            ensured-put config.environment k s _ (put s c cs)
              (sym (ensured-put config.environment s s c cs refl))
            ∙ once)
      ]

  -- What it takes to be allowed new entries: a connected socket, a readable and valid position, and
  -- native protection that is verified or a permitted fallback with a fresh stream.
  abbrev MayEnter : String → BitgetProtectionCapability → Type 0
  MayEnter s c =
      (w.socket ≡ some connected)
      × (read_reason (w.position s) s ≡ none)
      × ((c.native_state ≡ NativeProtectionState.verified)
          ⊎ ((c.fallback_allowed ≡ true) × (w.fresh s ≡ true)))

  allows_iff :
      (s : String) (c : BitgetProtectionCapability)
      → (allows w.socket (w.fresh s) (is_none (read_reason (w.position s) s)) c ≡ true)
        ↔ MayEnter s c
  unfolding allows
  allows_iff s c = ground arith

  -- The capabilities seen from two states of the repository differ in no core.
  abbrev SameCores : Capabilities → Capabilities → Type 0
  SameCores cs ds = (k : String) → core (known k cs) ≡ core (known k ds)

  allows-core :
      (s : String) (b : Bool) (c d : BitgetProtectionCapability)
      → core c ≡ core d
      → allows w.socket (w.fresh s) b c ≡ allows w.socket (w.fresh s) b d
  unfolding allows
  allows-core s b c d h = cc (ap (λ (x : Core). x.0) h, ap (λ (x : Core). x.1) h)

  abbrev pub verdict : Capabilities → String → String × Bool
  verdict cs s =
      (s, allows w.socket (w.fresh s) (is_none (read_reason (w.position s) s)) (known s cs))

  map-verdict :
      (ss : List String) (cs ds : Capabilities)
      → SameCores cs ds
      → map (verdict cs) ss ≡ map (verdict ds) ss
  map-verdict [] cs ds h = refl
  map-verdict (s ∷ ss) cs ds h =
      ap₂ (λ (b : Bool) (r : List (String × Bool)). (s, b) ∷ r)
        (allows-core s _ (known s cs) (known s ds) (h s)) (map-verdict ss cs ds h)

  check_symbols_lem :
      (ss : List String) (cs : Capabilities)
      → ((check_symbols config w ss cs).0 ≡ map (verdict cs) ss)
        × SameCores (check_symbols config w ss cs).2 cs
  unfolding check_symbols
  check_symbols_lem [] cs = (refl, λ k. refl)
  check_symbols_lem (s ∷ ss) cs =
      let ok = is_none (read_reason (w.position s) s) in
      let cs' = recorded config w s ok (known s cs) cs in
      let same : SameCores cs' cs = λ k. core-recorded k s ok cs in
      let (verdicts, cores) = check_symbols_lem ss cs' in
      (
        ap (λ (r : List (String × Bool)). verdict cs s ∷ r) (verdicts ∙ map-verdict ss cs' cs same),
        λ k. cores k ∙ same k,
      )

  -- The cycle's answer for one symbol is yes exactly if the symbol may enter.
  abbrev pub IsExact : Capabilities → String × Bool → Type 0
  IsExact cs (s, allowed) = (allowed ≡ true) ↔ MayEnter s (known s cs)

  verdicts_hold : (ss : List String) (cs : Capabilities) → All (IsExact cs) (map (verdict cs) ss)
  verdicts_hold [] cs = tt
  verdicts_hold (s ∷ ss) cs = (allows_iff s (known s cs), verdicts_hold ss cs)

-- A cycle of the watchdog answers for each watched symbol in turn. A symbol is allowed new entries
-- exactly if the socket is connected, its position was read and is valid, and the repository's
-- capability before the cycle is natively verified, or permits the fallback while its stream is
-- fresh.
pub run_once_admission :
    (config : Settings) (w : Surroundings) (d : Watchdog)
    → let allowed = (run_once config w d).0.allow_new_entries in
      (map (λ (e : String × Bool). e.0) allowed ≡ d.symbols)
      × All (IsExact config w d.capabilities) allowed
unfolding run_once
run_once_admission config w d =
    let exact = (check_symbols_lem config w d.symbols d.capabilities).0 in
    (
      ap (map (λ (e : String × Bool). e.0)) exact ∙ named d.symbols,
      subst (All (IsExact config w d.capabilities)) (sym exact)
          (verdicts_hold config w d.symbols d.capabilities),
    )
  where
    named :
        (ss : List String)
        → map (λ (e : String × Bool). e.0) (map (verdict config w d.capabilities) ss) ≡ ss
    named [] = refl
    named (s ∷ ss) = ap (λ (r : List String). s ∷ r) (named ss)

capabilities-track :
    (config : Settings) (w : Surroundings) (status : WatchdogStatus) (rs : List Reason) (b : Bool)
    (d : Watchdog)
    → (track config w status rs b d).0.capabilities ≡ d.capabilities
unfolding track
capabilities-track config w WatchdogStatus.healthy rs b d = refl
capabilities-track config w WatchdogStatus.stale rs true d = refl
capabilities-track config w WatchdogStatus.stale rs false d = refl
capabilities-track config w WatchdogStatus.failed rs true d = refl
capabilities-track config w WatchdogStatus.failed rs false d = refl
