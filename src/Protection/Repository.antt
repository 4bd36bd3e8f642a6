-- ===== src/Protection/Repository.antt =====
-- The capability repository: `InMemoryProtectionCapabilityRepository` of
-- src/fatty_trader/storage/protection_capabilities.py, within one exchange and environment, with
-- `_ensure_capability` of the watchdog. Symbols are trimmed and in upper case.
use text.Mathlib.Text.{◌==◌}
use fatty_multi_exchange_tra.Prelude.{String, Option, none, some, List, [], ◌∷◌, if◌then◌else◌}
use fatty_multi_exchange_tra.Protection.Capability.{
  BitgetProtectionCapability, Instant, StreamState, unobserved,
}

abbrev pub Capabilities : Type 0
Capabilities = List (String × BitgetProtectionCapability)

-- The repository's `get`, within the watchdog's exchange and environment.
unfoldable pub get : String → Capabilities → Option BitgetProtectionCapability
get s [] = none
get s ((k, c) ∷ cs) = if k == s then some c else get s cs

-- The repository's `upsert` of one symbol.
unfoldable pub put : String → BitgetProtectionCapability → Capabilities → Capabilities
put s c [] = (s, c) ∷ []
put s c ((k, d) ∷ cs) = if k == s then (s, c) ∷ cs else (k, d) ∷ put s c cs

or_unobserved : String → String → Option BitgetProtectionCapability → BitgetProtectionCapability
or_unobserved e s none = unobserved "bitget" e s
or_unobserved e s (some c) = c

-- `_ensure_capability`: what it returns, and what it leaves in the repository.
unfoldable pub ensured : String → String → Capabilities → BitgetProtectionCapability
unfolding or_unobserved
ensured e s cs = or_unobserved e s (get s cs)

-- `update_stream`: the stream's state and error, and the instant of its last event.
unfoldable pub update_stream :
    String
    → StreamState
    → Option Instant
    → Option String
    → BitgetProtectionCapability
    → Capabilities
    → Capabilities
update_stream s state at error c cs =
    put s (record c { stream_state = state; last_stream_at = at; last_error = error }) cs
