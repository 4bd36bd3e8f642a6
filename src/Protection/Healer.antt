-- ===== src/Protection/Healer.antt =====
-- src/fatty_trader/execution/latch_healer.py: `LatchHealer`. The monotonic clock and the cooldown
-- are in whole microseconds; Python's are floats of seconds.
pub mod Steps
pub mod Rate
use Prim.Native.String.{String, len, find}
use fatty_multi_exchange_tra.Prelude.{
  ℕ, suc, ◌+◌, ◌*◌, Bool, true, false, ◌||◌, Option, none, some, List, [], ◌∷◌, ◌++◌, ltb, leb,
  length, if◌then◌else◌,
}
use fatty_multi_exchange_tra.Protection.Watchdog.{WatchdogStatus, healthy, stale, failed}

pub record HealerPolicy : Type 0 where
  pub enabled : Bool
  pub socket_cycles : ℕ
  pub provider_cycles : ℕ
  pub cooldown : ℕ
  pub max_per_hour : ℕ

-- What the collaborators do during one call: the answer of `latch_state` (`none` where it raises),
-- the clock's reading, and whether the release and the alert return.
pub record Surroundings : Type 0 where
  pub latch : Option (Bool × Option String)
  pub now : ℕ
  pub release_returns : Bool
  pub alert_returns : Bool

-- `last_release` is `none` for the initial minus infinity.
pub record Healer : Type 0 where
  pub healthy_cycles : ℕ
  pub last_release : Option ℕ
  pub recent : List ℕ

abbrev pub fresh : Healer
fresh = record { healthy_cycles = 0; last_release = none; recent = [] }

pub data Action : Type 0 where
  disabled disarmed idle cooling breaker error : Action
  armed : ℕ → ℕ → Action
  healed : ℕ → Action

abbrev pub hour : ℕ
hour = 3600 * 1000000

-- `item in text`; a text that starts with the item holds it.
holds : String → String → Bool
holds text item = leb (find text item) (len text)

pub required_cycles : HealerPolicy → Option String → ℕ
unfolding holds
required_cycles p none = p.socket_cycles
required_cycles p (some reason) =
    if holds reason "provider-position-read-failed" || holds reason "provider-position-invalid"
    then p.provider_cycles
    else p.socket_cycles

-- The loop of `_breaker_open`: releases more than an hour old leave the queue.
unfoldable pub drop_old : ℕ → List ℕ → List ℕ
drop_old now [] = []
drop_old now (t ∷ ts) = let rest = drop_old now ts in if ltb (t + hour) now then rest else t ∷ ts

-- `now - self._last_release < self._policy.cooldown_seconds`
pub in_cooldown : HealerPolicy → Option ℕ → ℕ → Bool
in_cooldown p none now = false
in_cooldown p (some t) now = ltb now (t + p.cooldown)

abbrev pub is_healthy : WatchdogStatus → Bool
is_healthy healthy = true
is_healthy stale = false
is_healthy failed = false

-- From the circuit breaker on.
try_release : HealerPolicy → Surroundings → Healer → Action × Healer
try_release p w h =
    let recent = drop_old w.now h.recent in
    let kept = record h { recent = recent } in
    if leb p.max_per_hour (length recent)
    then (if w.alert_returns then breaker else error, kept)
    else if w.release_returns
    then (
      healed h.healthy_cycles,
      record { healthy_cycles = 0; last_release = some w.now; recent = recent ++ w.now ∷ [] },
    )
    else (error, kept)

with_latch : HealerPolicy → Surroundings → Option (Bool × Option String) → Healer → Action × Healer
unfolding required_cycles in_cooldown try_release
with_latch p w none h = (error, h)
with_latch p w (some (false, reason)) h = (idle, h)
with_latch p w (some (true, reason)) h =
    if ltb h.healthy_cycles (required_cycles p reason)
    then (armed h.healthy_cycles (required_cycles p reason), h)
    else if in_cooldown p h.last_release w.now
    then (cooling, h)
    else try_release p w h

-- `observe(report)`, by the status of the report.
unfoldable pub observe : HealerPolicy → Surroundings → WatchdogStatus → Healer → Action × Healer
unfolding with_latch
observe p w status h =
    if p.enabled
    then (if is_healthy status
        then with_latch p w w.latch (record h { healthy_cycles = suc h.healthy_cycles })
        else (disarmed, record h { healthy_cycles = 0 }))
    else (disabled, h)
