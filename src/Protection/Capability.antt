-- ===== src/Protection/Capability.antt =====
-- src/fatty_trader/exchanges/bitget/protection_capability.py: may a symbol take a new position?
-- Instants are whole microseconds. `strip` and `upper` of a text are parameters.
pub mod Admitted
use text.Mathlib.Text.{◌==◌}
use fatty_multi_exchange_tra.Prelude.Int.{ℤ, pos, negsuc}
use fatty_multi_exchange_tra.Prelude.{
  ℕ, ◌+◌, String, Bool, true, false, ◌&&◌, Option, none, some, leb, if◌then◌else◌, not,
}

pub data NativeProtectionState : Type 0 where
  unknown verified unsupported failed : NativeProtectionState

pub data StreamState : Type 0 where
  disabled connecting healthy stale failed : StreamState

-- A `datetime`: with a time zone, or without one.
pub data Instant : Type 0 where
  aware naive : ℕ → Instant

pub record BitgetProtectionCapability : Type 0 where
  pub exchange : String
  pub environment : String
  pub symbol : String
  pub native_state : NativeProtectionState
  pub fallback_allowed : Bool
  pub last_error : Option String
  pub stream_state : StreamState
  pub last_stream_at : Option Instant

-- The record that `BitgetProtectionCapability(exchange=..., environment=..., symbol=...)` builds.
abbrev pub unobserved : String → String → String → BitgetProtectionCapability
unobserved exchange environment symbol = record {
  exchange = exchange;
  environment = environment;
  symbol = symbol;
  native_state = NativeProtectionState.unknown;
  fallback_allowed = false;
  last_error = none;
  stream_state = StreamState.disabled;
  last_stream_at = none;
}

-- `_fresh`: an event from the future is not fresh, nor is one where a time zone is missing, and with
-- a negative window none is.
unfoldable pub fresh : Option Instant → Instant → ℤ → Bool
fresh (some (aware t)) (aware now) (pos n) = leb t now && leb now (t + n)
fresh _ _ _ = false

pub data Verdict : Type 0 where
  environment_mismatch capability_unknown fallback_not_allowed : Verdict
  stream_not_healthy stream_never_ready stream_stale : Verdict
  native_protected fresh_fallback_stream : Verdict

-- The first component of the returned pair.
abbrev pub admits : Verdict → Bool
admits native_protected = true
admits fresh_fallback_stream = true
admits _ = false

abbrev pub is_verified : NativeProtectionState → Bool
is_verified NativeProtectionState.verified = true
is_verified _ = false

abbrev pub is_unknown : NativeProtectionState → Bool
is_unknown NativeProtectionState.unknown = true
is_unknown _ = false

abbrev pub is_healthy : StreamState → Bool
is_healthy StreamState.healthy = true
is_healthy _ = false

abbrev pub no_event : Option Instant → Verdict
no_event none = stream_never_ready
no_event (some t) = stream_stale

-- `value.strip().upper()`
module _ (strip upper : String → String) where
  abbrev pub environment_fits : Option String → String → Bool
  environment_fits none e = true
  environment_fits (some r) e = upper (strip e) == upper (strip r)

  -- `can_admit_symbol`
  unfoldable pub can_admit_symbol :
      BitgetProtectionCapability → Instant → ℤ → Option String → Verdict
  unfolding fresh
  can_admit_symbol c now stale_after required =
      if not (environment_fits required c.environment)
      then environment_mismatch
      else if is_verified c.native_state
      then native_protected
      else if is_unknown c.native_state && not c.fallback_allowed
      then capability_unknown
      else if not c.fallback_allowed
      then fallback_not_allowed
      else if not (is_healthy c.stream_state)
      then stream_not_healthy
      else if not (fresh c.last_stream_at now stale_after)
      then no_event c.last_stream_at
      else fresh_fallback_stream
