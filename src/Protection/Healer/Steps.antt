-- ===== src/Protection/Healer/Steps.antt =====
-- When the healer releases the latch.
use fatty_multi_exchange_tra.Prelude.{
  ℕ, suc, ◌≤◌, ◌<◌, ◌≡◌, refl, String, Bool, true, false, Option, none, some, List, [], ◌∷◌, arith,
  length, if◌then◌else◌, inl, inr, Bool-cases,
}
use native.Mathlib.Nat.{le_trans}
use fatty_multi_exchange_tra.Protection.Watchdog.{WatchdogStatus}
use fatty_multi_exchange_tra.Protection.Healer.{
  HealerPolicy, Surroundings, Healer, fresh, healed, is_healthy, required_cycles, with_latch,
  drop_old, in_cooldown, observe,
}

-- What holds of the surroundings and of the healer `g`, this report counted, when `g` releases the
-- latch after `n` healthy reports.
abbrev pub Permits :
    HealerPolicy → Surroundings → Healer → ℕ → Option (Bool × Option String) → Type 0
Permits p w g n l =
    (reason : Option String) × (l ≡ some (true, reason))
    × (required_cycles p reason ≤ n)
    × (n ≡ g.healthy_cycles)
    × (in_cooldown p g.last_release w.now ≡ false)
    × (length (drop_old w.now g.recent) < p.max_per_hour)

module _ (p : HealerPolicy) (w : Surroundings) where
  healed_of_latch :
      (l : Option (Bool × Option String)) (g : Healer) (n : ℕ)
      → (with_latch p w l g).0 ≡ healed n
      → Permits p w g n l
  unfolding with_latch
  healed_of_latch none g n k = cc
  healed_of_latch (some (false, reason)) g n k = cc
  healed_of_latch (some (true, reason)) g n k =
      (reason, refl, ground arith, ground arith, ground arith, ground arith)

  abbrev counting : Healer → Healer
  counting h = record h { healthy_cycles = suc h.healthy_cycles }

  healed_needs :
      (s : WatchdogStatus) (h : Healer) (n : ℕ)
      → (observe p w s h).0 ≡ healed n
      → (p.enabled ≡ true) × (is_healthy s ≡ true) × Permits p w (counting h) n w.latch
  unfolding observe
  healed_needs s h n e = elim (Bool-cases p.enabled) [
    | inr off ↦ cc
    | inl on ↦ elim (Bool-cases (is_healthy s)) [
      | inr bad ↦ ground arith
      | inl good ↦ (on, good, healed_of_latch w.latch (counting h) n (ground arith))
    ]
  ]

  healthy_cycles-with_latch :
      (l : Option (Bool × Option String)) (g : Healer)
      → (with_latch p w l g).1.healthy_cycles ≤ g.healthy_cycles
  unfolding with_latch
  healthy_cycles-with_latch none g = omega arith
  healthy_cycles-with_latch (some (false, reason)) g = omega arith
  healthy_cycles-with_latch (some (true, reason)) g = ground arith

  healthy_cycles-observe :
      (s : WatchdogStatus) (h : Healer)
      → p.enabled ≡ true
      → (observe p w s h).1.healthy_cycles ≤ (if is_healthy s then suc h.healthy_cycles else 0)
  unfolding observe
  healthy_cycles-observe s h on = ground (arith, healthy_cycles-with_latch w.latch (counting h))

-- One call of the healer: its surroundings and the status of the report.
abbrev pub Call : Type 0
Call = Surroundings × WatchdogStatus

module _ (p : HealerPolicy) where
  unfoldable pub run : List Call → Healer → Healer
  run [] h = h
  run ((w, s) ∷ calls) h = run calls (observe p w s h).1

-- The healthy reports at the end of the list, with `n` before it.
abbrev pub streak : ℕ → List Call → ℕ
streak n [] = n
streak n ((w, s) ∷ calls) = streak (if is_healthy s then suc n else 0) calls

streak_mono : (m n : ℕ) (calls : List Call) → m ≤ n → streak m calls ≤ streak n calls
streak_mono m n [] h = h
streak_mono m n ((w, s) ∷ calls) h = streak_mono _ _ calls (ground arith)

healthy_cycles-run :
    (p : HealerPolicy) (calls : List Call) (h : Healer)
    → p.enabled ≡ true
    → (run p calls h).healthy_cycles ≤ streak h.healthy_cycles calls
unfolding run
healthy_cycles-run p [] h on = omega arith
healthy_cycles-run p ((w, s) ∷ calls) h on =
    le_trans (healthy_cycles-run p calls (observe p w s h).1 on)
      (streak_mono _ _ calls (healthy_cycles-observe p w s h on))

-- After any calls of a new healer, a call that releases the latch after `n` healthy reports follows
-- `n` of them in a row, its own included; the latch was active, its reason asks for at most `n`, the
-- cooldown since the last release is over, and fewer than the hourly limit of releases are recent.
pub healed_needs_streak :
    (p : HealerPolicy) (calls : List Call) (w : Surroundings) (s : WatchdogStatus) (n : ℕ)
    → (observe p w s (run p calls fresh)).0 ≡ healed n
    → (is_healthy s ≡ true)
      × (n ≤ suc (streak 0 calls))
      × Permits p w (counting p w (run p calls fresh)) n w.latch
healed_needs_streak p calls w s n e =
    let (on, good, permits) = healed_needs p w s (run p calls fresh) n e in
    let (reason, latched, enough, count, cooled, room) = permits in
    (good, omega (arith, healthy_cycles-run p calls fresh on), permits)
