-- ===== src/Protection/Watchdog/Latching.antt =====
-- When the watchdog latches.
use fatty_multi_exchange_tra.Prelude.{
  ℕ, suc, ◌+◌, ◌≤◌, ◌≡◌, ◌≢◌, refl, subst, sym, ap, ◌∙◌, inl, inr, Bool, true, false, none, some,
  List, [], ◌∷◌, arith, ◌⊎◌, All, length, ◌||◌, not,
}
use fatty_multi_exchange_tra.Protection.Snapshot.{Reason}
use fatty_multi_exchange_tra.Protection.Watchdog.{
  Settings, Surroundings, Watchdog, WatchdogStatus, healthy, failed, track, run_once, check_symbols,
  status_of, socket_is_dead, socket_ready, since, is_empty,
}

-- A cycle that may count towards the latch: the socket is dead, or a position could not be read.
abbrev pub severe : Settings → Surroundings → Watchdog → Bool
severe config w d =
    socket_is_dead w.socket || not (is_empty (check_symbols config w d.symbols d.capabilities).1)

-- The count of severe cycles after a cycle of the given status.
abbrev pub counted : WatchdogStatus → Bool → ℕ → ℕ
counted healthy bad n = 0
counted _ true n = suc n
counted _ false n = n

module _ (config : Settings) (w : Surroundings) (d : Watchdog) where
  -- A latch call is made only in a severe cycle, to a switch that is there and not active, when at
  -- least the configured number of severe cycles have been counted, and a configured outage has
  -- passed since the first of them.
  pub latch_call_needs :
      (r : Reason)
      → (run_once config w d).0.latch_call ≡ some r
      → (severe config w d ≡ true)
        × (w.switch_active ≡ some false)
        × (config.stale_cycles_before_latch ≤ suc d.bad_cycles)
        × ((config.min_outage ≡ 0) ⊎ (since d.bad_since w.now + config.min_outage ≤ w.now))
  unfolding run_once track
  latch_call_needs r h = ground arith

  bad_cycles-run_once :
      (run_once config w d).1.bad_cycles
      ≡ counted (run_once config w d).0.status (severe config w d) d.bad_cycles
  unfolding run_once track
  bad_cycles-run_once = ground arith

  dead_latches :
      socket_is_dead w.socket ≡ true
      → w.switch_active ≡ some false
      → (config.min_outage ≡ 0) ⊎ (since d.bad_since w.now + config.min_outage ≤ w.now)
      → config.stale_cycles_before_latch ≤ suc d.bad_cycles
      → ((run_once config w d).0.latch_call ≢ none) × ((run_once config w d).0.status ≡ failed)
  unfolding run_once track status_of socket_is_dead socket_ready
  dead_latches dead inactive (inl zero_outage) enough = ground arith
  dead_latches dead inactive (inr outage) enough = ground arith

  dead_counts :
      socket_is_dead w.socket ≡ true → (run_once config w d).1.bad_cycles ≡ suc d.bad_cycles
  unfolding run_once track status_of socket_is_dead socket_ready
  dead_counts dead = ground arith

  dead_since :
      socket_is_dead w.socket ≡ true
      → (run_once config w d).1.bad_since ≡ some (since d.bad_since w.now)
  unfolding run_once track status_of socket_is_dead socket_ready
  dead_since dead = ground arith

module _ (config : Settings) where
  -- The cycles of the watchdog, one for each of the surroundings.
  unfoldable pub run : List Surroundings → Watchdog → Watchdog
  run [] d = d
  run (w ∷ ws) d = run ws (run_once config w d).1

  -- The severe cycles since the last healthy one, `n` of them before the list.
  pub severe_since_healthy : ℕ → List Surroundings → Watchdog → ℕ
  severe_since_healthy n [] d = n
  severe_since_healthy n (w ∷ ws) d =
      severe_since_healthy (counted (run_once config w d).0.status (severe config w d) n) ws
        (run_once config w d).1

  bad_cycles-run :
      (ws : List Surroundings) (d : Watchdog)
      → (run ws d).bad_cycles ≡ severe_since_healthy d.bad_cycles ws d
  unfolding run severe_since_healthy
  bad_cycles-run [] d = refl
  bad_cycles-run (w ∷ ws) d =
      rw (← bad_cycles-run_once config w d) (bad_cycles-run ws (run_once config w d).1)

  abbrev AllDead : List Surroundings → Type 0
  AllDead = All (λ w. socket_is_dead w.socket ≡ true)

  bad_cycles-dead :
      (ws : List Surroundings) (d : Watchdog)
      → AllDead ws
      → (run ws d).bad_cycles ≡ d.bad_cycles + length ws
  unfolding run
  bad_cycles-dead [] d h = omega arith
  bad_cycles-dead (w ∷ ws) d h =
      omega (arith, bad_cycles-dead ws (run_once config w d).1 h.1, dead_counts config w d h.0)

  since_dead :
      (ws : List Surroundings) (d : Watchdog) (t : ℕ)
      → AllDead ws
      → d.bad_since ≡ some t
      → (run ws d).bad_since ≡ some t
  unfolding run
  since_dead [] d t h started = started
  since_dead (w ∷ ws) d t h started =
      since_dead ws (run_once config w d).1 t h.1
        (dead_since config w d h.0 ∙ ap (λ o. some (since o w.now)) started)

  -- The instant that the outage counts from, over dead cycles that a last one follows.
  abbrev pub outage_start : List Surroundings → Surroundings → Watchdog → ℕ
  outage_start [] w d = since d.bad_since w.now
  outage_start (v ∷ vs) w d = since d.bad_since v.now

  since-run :
      (ws : List Surroundings) (w : Surroundings) (d : Watchdog)
      → AllDead ws
      → since (run ws d).bad_since w.now ≡ outage_start ws w d
  unfolding run
  since-run [] w d h = refl
  since-run (v ∷ vs) w d h =
      ap (λ o. since o w.now)
        (since_dead vs (run_once config v d).1 (since d.bad_since v.now) h.1
          (dead_since config v d h.0))

-- After any cycles of a new watchdog, a cycle that calls for the latch is itself severe, finds a
-- kill switch that is not active, and is at least the configured number's severe cycle since the
-- last healthy one.
pub latch_needs_persistence :
    (config : Settings) (ws : List Surroundings) (w : Surroundings) (d : Watchdog) (r : Reason)
    → d.bad_cycles ≡ 0
    → (run_once config w (run config ws d)).0.latch_call ≡ some r
    → (severe config w (run config ws d) ≡ true)
      × (w.switch_active ≡ some false)
      × (config.stale_cycles_before_latch ≤ suc (severe_since_healthy config 0 ws d))
latch_needs_persistence config ws w d r new h =
    let (bad, inactive, enough, outage) = latch_call_needs config w (run config ws d) r h in
    let counts : (run config ws d).bad_cycles ≡ severe_since_healthy config 0 ws d =
      subst (λ n. (run config ws d).bad_cycles ≡ severe_since_healthy config n ws d) new
        (bad_cycles-run config ws d) in
    (bad, inactive, omega arith)

-- A socket that is dead for the configured number of cycles in a row is latched: the last of them
-- ends as failed and calls for the latch, if the switch is there and not active, and if no outage
-- floor is configured or that much time has passed since the first of the cycles, or since the
-- outage that the watchdog was counting already.
pub dead_socket_latches :
    (config : Settings) (ws : List Surroundings) (w : Surroundings) (d : Watchdog)
    → All (λ v. socket_is_dead v.socket ≡ true) ws
    → socket_is_dead w.socket ≡ true
    → w.switch_active ≡ some false
    → (config.min_outage ≡ 0) ⊎ (outage_start config ws w d + config.min_outage ≤ w.now)
    → config.stale_cycles_before_latch ≤ suc (length ws)
    → ((run_once config w (run config ws d)).0.latch_call ≢ none)
      × ((run_once config w (run config ws d)).0.status ≡ failed)
dead_socket_latches config ws w d dead last inactive floor enough =
    dead_latches config w (run config ws d) last inactive
      (subst (λ n. (config.min_outage ≡ 0) ⊎ (n + config.min_outage ≤ w.now))
        (sym (since-run config ws w d dead)) floor)
      (omega (arith, bad_cycles-dead config ws d dead))
