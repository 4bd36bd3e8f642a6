-- ===== src/Protection/Watchdog.antt =====
-- src/fatty_trader/execution/bitget_protection_watchdog.py, over the in-memory repository of
-- src/fatty_trader/storage/protection_capabilities.py. Instants are whole microseconds.
pub mod Admission
pub mod Latching
use text.Mathlib.Text.{◌==◌ as str_eq}
use fatty_multi_exchange_tra.Prelude.{
  ℕ, suc, ◌+◌, String, Bool, true, false, ◌&&◌, ◌||◌, Option, none, some, List, [], ◌∷◌, leb, any,
  if◌then◌else◌, not, is_none, ◌==◌,
}
use fatty_multi_exchange_tra.Protection.Capability.{
  BitgetProtectionCapability, StreamState, is_verified,
}
use fatty_multi_exchange_tra.Protection.Snapshot.{
  SocketState, connected, disconnected, broken, Reason, socket_not_connected, stream_stale,
  position_read_failed, position_invalid, latched, PositionAnswer, read_reason,
}
use fatty_multi_exchange_tra.Protection.Repository.{Capabilities, ensured, put, update_stream}

pub data WatchdogStatus : Type 0 where
  healthy stale failed : WatchdogStatus

-- What the watchdog meets during one cycle. A socket with no state is `none`; the answer of the kill
-- switch is `none` where there is no switch, and a switch that cannot be read is not active.
pub record Surroundings : Type 0 where
  pub socket : Option SocketState
  pub fresh : String → Bool
  pub position : String → PositionAnswer
  pub now : ℕ
  pub switch_active : Option Bool

pub record Settings : Type 0 where
  pub environment : String
  pub stale_cycles_before_latch : ℕ
  pub min_outage : ℕ

pub record Watchdog : Type 0 where
  pub symbols : List String
  pub bad_cycles : ℕ
  pub bad_since : Option ℕ
  pub capabilities : Capabilities

-- `_socket_is_dead`: a socket that cannot report its state counts as dead.
unfoldable pub socket_is_dead : Option SocketState → Bool
socket_is_dead none = true
socket_is_dead (some broken) = true
socket_is_dead (some disconnected) = true
socket_is_dead (some _) = false

unfoldable pub socket_ready : Option SocketState → Bool
socket_ready (some connected) = true
socket_ready _ = false

abbrev pub Cycle : Type 0
Cycle = List (String × Bool) × List Reason × Capabilities

abbrev add_reason : Option Reason → List Reason → List Reason
add_reason none rs = rs
add_reason (some r) rs = r ∷ rs

stream_state_of : Bool → Bool → Bool → StreamState
stream_state_of dead fresh read_ok =
    if dead
    then StreamState.failed
    else if fresh && read_ok
    then StreamState.healthy
    else if not fresh
    then StreamState.stale
    else StreamState.failed

stream_error_of : Bool → Bool → Bool → Option String
stream_error_of dead fresh read_ok =
    if dead
    then some "socket-not-connected"
    else if fresh && read_ok
    then none
    else if not fresh
    then some "protection-stream-stale"
    else some "provider-position-read-failed"

-- May the symbol take new entries?
unfoldable pub allows : Option SocketState → Bool → Bool → BitgetProtectionCapability → Bool
unfolding socket_ready
allows socket fresh read_ok c =
    read_ok && socket_ready socket && (is_verified c.native_state || c.fallback_allowed && fresh)

-- The repository after the turn of one symbol.
unfoldable pub recorded :
    Settings
    → Surroundings
    → String
    → Bool
    → BitgetProtectionCapability
    → Capabilities
    → Capabilities
unfolding stream_state_of stream_error_of
recorded config w s read_ok c cs =
    let stored = put s c cs in
    let dead = socket_is_dead w.socket in
    if is_verified c.native_state && read_ok
    then stored
    else update_stream s (stream_state_of dead (w.fresh s) read_ok) c.last_stream_at
        (stream_error_of dead (w.fresh s) read_ok) c stored

-- The second loop of `run_once`, over the watched symbols.
unfoldable pub check_symbols : Settings → Surroundings → List String → Capabilities → Cycle
check_symbols config w [] cs = ([], [], cs)
check_symbols config w (s ∷ ss) cs =
    let reason = read_reason (w.position s) s in
    let c = ensured config.environment s cs in
    let (allowed, reasons, cs') =
      check_symbols config w ss (recorded config w s (is_none reason) c cs) in
    ((s, allows w.socket (w.fresh s) (is_none reason) c) ∷ allowed, add_reason reason reasons, cs')

-- `tuple(dict.fromkeys(...))`: the first of equal entries stays.
module _ {A : Type 0} (same : A → A → Bool) where
  without : A → List A → List A
  without a [] = []
  without a (b ∷ bs) = let rest = without a bs in if same a b then rest else b ∷ rest

  unfoldable pub distinct : List A → List A
  unfolding without
  distinct [] = []
  distinct (a ∷ as') = a ∷ without a (distinct as')

abbrev is_empty : List Reason → Bool
is_empty [] = true
is_empty (_ ∷ _) = false

unfoldable pub status_of : Bool → Bool → Bool → WatchdogStatus
status_of ready provider_failure any_stale =
    if not ready || provider_failure then failed else if any_stale then stale else healthy

is_reason : Reason → Reason → Bool
is_reason socket_not_connected socket_not_connected = true
is_reason stream_stale stream_stale = true
is_reason position_read_failed position_read_failed = true
is_reason position_invalid position_invalid = true
is_reason latched latched = true
is_reason _ _ = false

-- The reason that the latch records: the first of the three candidates that was met.
unfoldable pub latch_reason : List Reason → Reason
unfolding is_reason
latch_reason rs =
    if any (is_reason position_read_failed) rs
    then position_read_failed
    else if any (is_reason position_invalid) rs
    then position_invalid
    else if any (is_reason socket_not_connected) rs
    then socket_not_connected
    else latched

abbrev since : Option ℕ → ℕ → ℕ
since none now = now
since (some t) now = t

-- `_track_consecutive_failures`: the two fields, and the reason of the latch call that it makes. A
-- latch that raises or is missing is only printed, so the call leaves no other trace here.
unfoldable pub track :
    Settings
    → Surroundings
    → WatchdogStatus
    → List Reason
    → Bool
    → Watchdog
    → Watchdog × Option Reason
track config w healthy reasons latchable d = (record d { bad_cycles = 0; bad_since = none }, none)
track config w _ reasons false d = (d, none)
track config w _ reasons true d =
    let start = since d.bad_since w.now in
    let worse = record d { bad_cycles = suc d.bad_cycles; bad_since = some start } in
    let enough =
      leb config.stale_cycles_before_latch (suc d.bad_cycles)
      && (config.min_outage == 0 || leb (start + config.min_outage) w.now) in
    (
      worse,
      elim w.switch_active [
        | none ↦ none
        | some active ↦ if enough && not active then some (latch_reason reasons) else none
      ],
    )

pub record Report : Type 0 where
  pub status : WatchdogStatus
  pub allow_new_entries : List (String × Bool)
  pub reasons : List Reason
  pub latch_call : Option Reason

-- `run_once`. `refresh_symbols` and the constructor keep the watched symbols distinct.
unfoldable pub run_once : Settings → Surroundings → Watchdog → Report × Watchdog
unfolding is_reason
run_once config w d =
    let dead = socket_is_dead w.socket in
    let ready = socket_ready w.socket in
    let any_stale = any (λ s. not (w.fresh s)) d.symbols in
    let (allowed, provider, cs) = check_symbols config w d.symbols d.capabilities in
    let provider_failure = not (is_empty provider) in
    let reasons =
      add_reason (if dead || not ready then some socket_not_connected else none)
        (add_reason (if any_stale then some stream_stale else none) provider) in
    let status = status_of ready provider_failure any_stale in
    let (d', call) =
      track config w status reasons (dead || provider_failure) (record d { capabilities = cs }) in
    (
      record {
        status = status;
        allow_new_entries = allowed;
        reasons = distinct is_reason reasons;
        latch_call = call;
      },
      d',
    )

module _ (strip upper : String → String) where
  -- `symbol.strip().upper() for symbol in symbols if symbol.strip()`
  cleaned : List String → List String
  cleaned [] = []
  cleaned (s ∷ ss) =
      let rest = cleaned ss in if str_eq (strip s) "" then rest else upper (strip s) ∷ rest

  unfoldable pub refresh_symbols : List String → Watchdog → Watchdog
  unfolding cleaned
  refresh_symbols ss d = record d { symbols = distinct str_eq (cleaned ss) }
