-- ===== src/Protection/Healer/Rate.antt =====
-- The circuit breaker: how many releases an hour can hold.
use fatty_multi_exchange_tra.Prelude.{
  ℕ, suc, ◌+◌, ◌≤◌, ◌<◌, ◌≡◌, refl, String, Bool, true, false, Option, none, some, List, [], ◌∷◌,
  ◌++◌, arith, length, if◌then◌else◌, ltb, leb, inl, inr, ◌⊎◌, Bool-cases,
}
use mathlib.Core.List.{append_assoc, append-nil}
use fatty_multi_exchange_tra.Protection.Watchdog.{WatchdogStatus}
use fatty_multi_exchange_tra.Protection.Healer.{
  HealerPolicy, Surroundings, Healer, fresh, Action, healed, hour, with_latch, try_release,
  drop_old, required_cycles, in_cooldown, observe, is_healthy,
}
use fatty_multi_exchange_tra.Protection.Healer.Steps.{Call}

-- The releases of the list that are at most an hour old at `now`.
abbrev pub in_last_hour : ℕ → List ℕ → ℕ
in_last_hour now [] = 0
in_last_hour now (t ∷ ts) = (if ltb (t + hour) now then 0 else 1) + in_last_hour now ts

in_last_hour-append :
    (now : ℕ) (ts us : List ℕ)
    → in_last_hour now (ts ++ us) ≡ in_last_hour now ts + in_last_hour now us
in_last_hour-append now [] us = omega arith
in_last_hour-append now (t ∷ ts) us = omega (arith, in_last_hour-append now ts us)

in_last_hour-le : (now : ℕ) (ts : List ℕ) → in_last_hour now ts ≤ length ts
in_last_hour-le now [] = omega arith
in_last_hour-le now (t ∷ ts) = ground (arith, in_last_hour-le now ts)

-- At a later instant no more releases are recent.
in_last_hour_anti :
    (now later : ℕ) (ts : List ℕ) → now ≤ later → in_last_hour later ts ≤ in_last_hour now ts
in_last_hour_anti now later [] h = omega arith
in_last_hour_anti now later (t ∷ ts) h = ground (arith, in_last_hour_anti now later ts h)

-- What leaves the queue at `now` is not recent then or later.
in_last_hour-drop_old :
    (now later : ℕ) (ts : List ℕ)
    → now ≤ later
    → in_last_hour later ts ≤ in_last_hour later (drop_old now ts)
unfolding drop_old
in_last_hour-drop_old now later [] h = omega arith
in_last_hour-drop_old now later (t ∷ ts) h = ground (arith, in_last_hour-drop_old now later ts h)

-- The releases of a run: the clock's readings in the calls that healed.
abbrev released : Action → ℕ → List ℕ
released (healed n) now = now ∷ []
released _ now = []

module _ (p : HealerPolicy) where
  pub releases : List Call → Healer → List ℕ
  releases [] h = []
  releases ((w, s) ∷ calls) h =
      let (a, h') = observe p w s h in released a w.now ++ releases calls h'

-- The monotonic clock's readings never fall, and end at `last`.
abbrev pub IsMonotone : ℕ → List Call → ℕ → Type 0
IsMonotone start [] last = start ≤ last
IsMonotone start ((w, s) ∷ calls) last = (start ≤ w.now) × IsMonotone w.now calls last

-- The queue holds every release `past` that may be recent at `now` or later, within the limit.
record Tracks (p : HealerPolicy) (past : List ℕ) (now : ℕ) (h : Healer) : Type 0 where
  covers : (t : ℕ) → now ≤ t → in_last_hour t past ≤ in_last_hour t h.recent
  limited : in_last_hour now past ≤ p.max_per_hour

module _ (p : HealerPolicy) (w : Surroundings) (past : List ℕ) (start : ℕ) where
  -- A call that releases nothing, whatever it dropped from the queue.
  keeps :
      (h g : Healer)
      → start ≤ w.now
      → Tracks p past start h
      → (g.recent ≡ h.recent) ⊎ (g.recent ≡ drop_old w.now h.recent)
      → Tracks p (past ++ []) w.now g
  keeps h g forward k queue = rw append-nil (record {
    covers = λ t later. elim queue [
      | inl same ↦ rw same (k.covers t (omega arith))
      | inr dropped ↦
          rw dropped
            (omega (arith, k.covers t (omega arith), in_last_hour-drop_old w.now t h.recent later))
    ];
    limited = omega (arith, in_last_hour_anti start w.now past forward, k.limited);
  })

  -- A call that releases, when the breaker is closed.
  heals :
      (h g : Healer)
      → start ≤ w.now
      → Tracks p past start h
      → length (drop_old w.now h.recent) < p.max_per_hour
      → g.recent ≡ drop_old w.now h.recent ++ w.now ∷ []
      → Tracks p (past ++ w.now ∷ []) w.now g
  heals h g forward k room queue = record {
    covers = λ t later. rw queue (
        omega (
          arith,
          in_last_hour-append t past (w.now ∷ []),
          in_last_hour-append t (drop_old w.now h.recent) (w.now ∷ []),
          k.covers t (omega arith),
          in_last_hour-drop_old w.now t h.recent later,
        ));
    limited = ground (
      arith,
      in_last_hour-append w.now past (w.now ∷ []),
      k.covers w.now forward,
      in_last_hour-drop_old w.now w.now h.recent (omega arith),
      in_last_hour-le w.now (drop_old w.now h.recent),
    );
  }

  try_release-Tracks :
      (h : Healer)
      → start ≤ w.now
      → Tracks p past start h
      → let (a, h') = try_release p w h in Tracks p (past ++ released a w.now) w.now h'
  unfolding try_release
  try_release-Tracks h forward k =
      elim (Bool-cases (leb p.max_per_hour (length (drop_old w.now h.recent)))) [
        | inl full ↦ rw full (elim (Bool-cases w.alert_returns) [
          | inl heard ↦ rw heard (keeps h _ forward k (inr refl))
          | inr unheard ↦ rw unheard (keeps h _ forward k (inr refl))
        ])
        | inr room ↦ rw room (elim (Bool-cases w.release_returns) [
          | inl done ↦ rw done (heals h _ forward k (ground arith) refl)
          | inr undone ↦ rw undone (keeps h _ forward k (inr refl))
        ])
      ]

  with_latch-Tracks :
      (l : Option (Bool × Option String)) (h : Healer)
      → start ≤ w.now
      → Tracks p past start h
      → let (a, h') = with_latch p w l h in Tracks p (past ++ released a w.now) w.now h'
  unfolding with_latch
  with_latch-Tracks none h forward k = keeps h h forward k (inl refl)
  with_latch-Tracks (some (false, reason)) h forward k = keeps h h forward k (inl refl)
  with_latch-Tracks (some (true, reason)) h forward k =
      elim (Bool-cases (ltb h.healthy_cycles (required_cycles p reason))) [
        | inl few ↦ rw few (keeps h h forward k (inl refl))
        | inr enough ↦ rw enough (elim (Bool-cases (in_cooldown p h.last_release w.now)) [
          | inl early ↦ rw early (keeps h h forward k (inl refl))
          | inr late ↦ rw late (try_release-Tracks h forward k)
        ])
      ]

  observe-Tracks :
      (s : WatchdogStatus) (h : Healer)
      → start ≤ w.now
      → Tracks p past start h
      → let (a, h') = observe p w s h in Tracks p (past ++ released a w.now) w.now h'
  unfolding observe
  observe-Tracks s h forward k = elim (Bool-cases p.enabled) [
    | inr off ↦ simp off (keeps h h forward k (inl refl))
    | inl on ↦ simp on (elim (Bool-cases (is_healthy s)) [
      | inl good ↦ rw good (
          with_latch-Tracks w.latch (record h { healthy_cycles = suc h.healthy_cycles }) forward
            (record { covers = k.covers; limited = k.limited }))
      | inr bad ↦ rw bad (keeps h _ forward k (inl refl))
    ])
  ]

releases-Tracks :
    (p : HealerPolicy) (calls : List Call) (past : List ℕ) (start last : ℕ) (h : Healer)
    → IsMonotone start calls last
    → Tracks p past start h
    → in_last_hour last (past ++ releases p calls h) ≤ p.max_per_hour
unfolding releases
releases-Tracks p [] past start last h m k =
    rw append-nil (omega (arith, in_last_hour_anti start last past m, k.limited))
releases-Tracks p ((w, s) ∷ calls) past start last h m k =
    let (a, h') = observe p w s h in
    rw (← append_assoc) (
      releases-Tracks p calls (past ++ released a w.now) w.now last h' m.1
        (observe-Tracks p w past start s h m.0 k))

-- However the healer is called, as long as its clock does not run backwards: at any time, at most
-- `max_per_hour` of a new healer's releases so far are an hour old or less.
pub releases_rate :
    (p : HealerPolicy) (calls : List Call) (start last : ℕ)
    → IsMonotone start calls last
    → in_last_hour last (releases p calls fresh) ≤ p.max_per_hour
releases_rate p calls start last m =
    releases-Tracks p calls [] start last fresh m
      (record { covers = λ t later. omega arith; limited = omega arith })
