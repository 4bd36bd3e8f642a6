-- ===== src/Tests/Protection.antt =====
-- The protection of open positions at concrete inputs.
use text.Mathlib.Text.{◌==◌}
use fatty_multi_exchange_tra.Prelude.{
  ◌↔◌, ℕ, suc, ◌≤◌, ◌≡◌, ◌≢◌, refl, String, Bool, true, false, Option, none, some, List, [], ◌∷◌,
  inr, if◌then◌else◌, map, All, arith,
}
use fatty_multi_exchange_tra.Prelude.Raise.{Result, ok}
use fatty_multi_exchange_tra.Decimal.{dec, of_int, le, lt}
use fatty_multi_exchange_tra.Domain.{bitget, long}
use fatty_multi_exchange_tra.Prelude.Int.{pos}
use fatty_multi_exchange_tra.Protection.Capability.Admitted.{
  IsRequired, IsProtected, admits-can_admit_symbol,
}
use fatty_multi_exchange_tra.Protection.Capability.{
  BitgetProtectionCapability, unobserved, StreamState, admits, can_admit_symbol, aware,
}
use fatty_multi_exchange_tra.Protection.Snapshot.{
  broken, socket_not_connected, rows, read_reason, valid_position_snapshot,
}
use fatty_multi_exchange_tra.Protection.Repository.{ensured, put, get, update_stream}
use fatty_multi_exchange_tra.Protection.Watchdog.{
  Surroundings, Settings, Watchdog, run_once, socket_is_dead, socket_ready, track, status_of,
  latch_reason, check_symbols, recorded, allows, healthy, failed,
}
use fatty_multi_exchange_tra.Protection.Watchdog.Admission.{IsExact, run_once_admission}
use fatty_multi_exchange_tra.Protection.Watchdog.Latching.{
  run, severe, severe_since_healthy, latch_needs_persistence, dead_socket_latches,
}
use fatty_multi_exchange_tra.Protection.Healer.{HealerPolicy, observe, fresh, healed, is_healthy}
use fatty_multi_exchange_tra.Protection.Healer as Healer
use fatty_multi_exchange_tra.Protection.Healer.Steps as Steps
use fatty_multi_exchange_tra.Protection.Healer.Steps.{healed_needs_streak}
use fatty_multi_exchange_tra.Protection.Healer.Rate.{releases, in_last_hour, releases_rate}
use fatty_multi_exchange_tra.Protection.Orders.{
  ProtectionPlan, ProtectionReport, ProtectionConfirmation, venue_protected, Side,
  ensure_live_protection,
}

abbrev config : Settings
config = record { environment = "demo"; stale_cycles_before_latch = 3; min_outage = 0 }

-- A cycle with a broken socket; the other reads succeed.
abbrev outage : ℕ → Surroundings
outage now = record {
  socket = some broken;
  fresh = λ s. true;
  position = λ s. rows (record { symbol = some s; total = some (of_int 0) } ∷ []);
  now = now;
  switch_active = some false;
}

abbrev watchdog : Watchdog
watchdog = record {
  symbols = "BTCUSDT" ∷ "ETHUSDT" ∷ [];
  bad_cycles = 0;
  bad_since = none;
  capabilities = [];
}

abbrev cycles : List Surroundings
cycles = outage 0 ∷ outage 1000000 ∷ []

-- An outage counts once it has lasted two seconds.
abbrev floored : Settings
floored = record config { min_outage = 2000000 }

dead_socket_latches_example :
    ((run_once floored (outage 2000000) (run floored cycles watchdog)).0.latch_call ≢ none)
    × ((run_once floored (outage 2000000) (run floored cycles watchdog)).0.status ≡ failed)
unfolding socket_is_dead
dead_socket_latches_example =
    dead_socket_latches floored cycles (outage 2000000) watchdog (refl, (refl, tt)) refl refl
      (inr (omega arith)) (omega arith)

third_cycle :
    (run_once config (outage 2000000) (run config cycles watchdog)).0.latch_call
    ≡ some socket_not_connected
unfolding run_once run track status_of socket_ready socket_is_dead latch_reason check_symbols
    read_reason valid_position_snapshot le recorded ensured put update_stream get allows
third_cycle = refl

latch_needs_persistence_example :
    (severe config (outage 2000000) (run config cycles watchdog) ≡ true)
    × (some false ≡ some false)
    × (3 ≤ suc (severe_since_healthy config 0 cycles watchdog))
latch_needs_persistence_example =
    latch_needs_persistence config cycles (outage 2000000) watchdog socket_not_connected refl
      third_cycle

run_once_admission_example :
    (let allowed = (run_once config (outage 0) watchdog).0.allow_new_entries in
      (map (λ (e : String × Bool). e.0) allowed ≡ "BTCUSDT" ∷ "ETHUSDT" ∷ [])
      × All (IsExact config (outage 0) []) allowed)
run_once_admission_example = run_once_admission config (outage 0) watchdog

abbrev policy : HealerPolicy
policy = record {
  enabled = true;
  socket_cycles = 3;
  provider_cycles = 10;
  cooldown = 60000000;
  max_per_hour = 2;
}

-- The latch is active; releases and alerts return.
abbrev latched_at : ℕ → Healer.Surroundings
latched_at now = record {
  latch = some (true, some "socket-not-connected");
  now = now;
  release_returns = true;
  alert_returns = true;
}

abbrev two_healthy : List Steps.Call
two_healthy = (latched_at 5000000, healthy) ∷ (latched_at 10000000, healthy) ∷ []

-- The healer after two healthy reports.
abbrev twice_healthy : Healer.Healer
twice_healthy = Steps.run policy two_healthy fresh

third_report : (observe policy (latched_at 15000000) healthy twice_healthy).0 ≡ healed 3
unfolding observe Steps.run Healer.drop_old
third_report = refl

healed_needs_streak_example :
    (is_healthy healthy ≡ true)
    × (3 ≤ suc (Steps.streak 0 two_healthy))
    × Steps.Permits policy
        (latched_at 15000000)
        (record twice_healthy { healthy_cycles = suc twice_healthy.healthy_cycles })
        3
        (some (true, some "socket-not-connected"))
healed_needs_streak_example =
    healed_needs_streak policy two_healthy (latched_at 15000000) healthy 3 third_report

abbrev three_healthy : List Steps.Call
three_healthy = (latched_at 0, healthy) ∷ two_healthy

releases_rate_example : in_last_hour 10000000 (releases policy three_healthy fresh) ≤ 2
releases_rate_example =
    releases_rate policy three_healthy 0 10000000
      (omega arith, (omega arith, (omega arith, omega arith)))

abbrev plan : ProtectionPlan
plan = record {
  exchange = bitget;
  symbol = "BTCUSDT";
  direction = long;
  quantity = dec 83 4;
  stop_loss = of_int 58800;
  take_profits = [];
}

-- A client that confirms the stop, and reports it for the whole quantity.
abbrev place : ProtectionPlan → Side → String → Result ProtectionConfirmation
place p side oid = ok (record { sl_order_id = some oid; tp_order_ids = []; confirmed = true })

abbrev report : ProtectionReport
report = record { state = venue_protected; observed_quantity = dec 83 4 }

abbrev read : String → Option String → List String → Result ProtectionReport
read symbol sl tps = ok report

protected_at_venue : ensure_live_protection place read plan "sl-1" ≡ ok report
unfolding ensure_live_protection lt
protected_at_venue = refl

-- A permitted fallback whose stream had an event two seconds ago.
abbrev fallback : BitgetProtectionCapability
fallback = record (unobserved "bitget" "LIVE" "BTCUSDT") {
  fallback_allowed = true;
  stream_state = StreamState.healthy;
  last_stream_at = some (aware 8000000);
}

-- Texts without outer spaces, of which one is not in upper case.
abbrev strip : String → String
strip s = s

abbrev upper : String → String
upper s = if s == "live" then "LIVE" else s

admits-can_admit_symbol_example :
    (admits (can_admit_symbol strip upper fallback (aware 10000000) (pos 5000000) (some "live"))
      ≡ true)
    ↔ (IsRequired strip upper (some "live") "LIVE"
        × IsProtected fallback (aware 10000000) (pos 5000000))
admits-can_admit_symbol_example =
    admits-can_admit_symbol strip upper fallback (aware 10000000) (pos 5000000) (some "live")
