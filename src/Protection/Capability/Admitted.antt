-- ===== src/Protection/Capability/Admitted.antt =====
-- Which capabilities `can_admit_symbol` admits.
use text.Mathlib.TextEquality.{eq_iff}
use fatty_multi_exchange_tra.Prelude.{
  ◌+◌, ◌≤◌, String, ◌≡◌, refl, none, some, true, false, ◌⊎◌, inl, inr, ◌↔◌, Option, arith,
}
use fatty_multi_exchange_tra.Prelude.Int.{ℤ, pos, negsuc}
use fatty_multi_exchange_tra.Protection.Capability.{
  BitgetProtectionCapability, Instant, aware, naive, NativeProtectionState, StreamState, admits,
  is_verified, is_healthy, fresh, environment_fits, can_admit_symbol, no_event,
}

-- The last event and the present have a time zone, the window is not negative, and the event is
-- within it and not in the future.
abbrev pub IsFresh : Option Instant → Instant → ℤ → Type 0
IsFresh (some (aware t)) (aware now) (pos n) = (t ≤ now) × (now ≤ t + n)
IsFresh _ _ _ = ⊥

-- The symbol is protected natively, or by a stream that is permitted, healthy and fresh.
abbrev pub IsProtected : BitgetProtectionCapability → Instant → ℤ → Type 0
IsProtected c now stale_after =
    (c.native_state ≡ NativeProtectionState.verified)
    ⊎ ((c.fallback_allowed ≡ true)
        × (c.stream_state ≡ StreamState.healthy)
        × IsFresh c.last_stream_at now stale_after)

-- The environment is the required one, if one is required, up to outer spaces and case.
abbrev pub IsRequired : (String → String) → (String → String) → Option String → String → Type 0
IsRequired strip upper none e = Unit {0}
IsRequired strip upper (some r) e = upper (strip e) ≡ upper (strip r)

no_event-admits : (t : Option Instant) → admits (no_event t) ≡ false
no_event-admits none = refl
no_event-admits (some t) = refl

fresh_iff :
    (o : Option Instant) (now : Instant) (window : ℤ)
    → (fresh o now window ≡ true) ↔ IsFresh o now window
unfolding fresh
fresh_iff none now window = ground arith
fresh_iff (some (aware t)) (aware now) (pos n) = ground arith
fresh_iff (some (aware t)) (aware now) (negsuc n) = ground arith
fresh_iff (some (aware t)) (naive now) window = ground arith
fresh_iff (some (naive t)) now window = ground arith

verified_iff :
    (s : NativeProtectionState) → (is_verified s ≡ true) ↔ (s ≡ NativeProtectionState.verified)
verified_iff s = ground arith

healthy_iff : (s : StreamState) → (is_healthy s ≡ true) ↔ (s ≡ StreamState.healthy)
healthy_iff s = ground arith

module _ (strip upper : String → String) where
  environment_iff :
      (required : Option String) (e : String)
      → (environment_fits strip upper required e ≡ true) ↔ IsRequired strip upper required e
  environment_iff none e = ((λ h. tt), (λ h. refl))
  environment_iff (some r) e = eq_iff (upper (strip e)) (upper (strip r))

  tests_iff :
      (c : BitgetProtectionCapability) (now : Instant) (stale_after : ℤ) (required : Option String)
      → (admits (can_admit_symbol strip upper c now stale_after required) ≡ true) ↔ (
          (environment_fits strip upper required c.environment ≡ true)
          × ((is_verified c.native_state ≡ true)
              ⊎ ((c.fallback_allowed ≡ true)
                  × (is_healthy c.stream_state ≡ true)
                  × (fresh c.last_stream_at now stale_after ≡ true))))
  unfolding can_admit_symbol
  tests_iff c now stale_after required = ground (arith, no_event-admits c.last_stream_at)

  -- A symbol is admitted exactly if its capability is of the required environment, where one is
  -- required and up to outer spaces and case, and the symbol is protected natively, or by a fallback
  -- that is permitted and whose stream is healthy and had an event within the window, none in the
  -- future, with time zones on both instants and a window that is not negative.
  pub admits-can_admit_symbol :
      (c : BitgetProtectionCapability) (now : Instant) (stale_after : ℤ) (required : Option String)
      → (admits (can_admit_symbol strip upper c now stale_after required) ≡ true)
        ↔ (IsRequired strip upper required c.environment × IsProtected c now stale_after)
  admits-can_admit_symbol c now stale_after required =
      let (there, back) = tests_iff c now stale_after required in
      let (req, fits) = environment_iff required c.environment in
      let (is_fresh, fresh_again) = fresh_iff c.last_stream_at now stale_after in
      let (native, verified_again) = verified_iff c.native_state in
      let (well, healthy_again) = healthy_iff c.stream_state in
      (
        (λ h.
            let (e, protection) = there h in
            (
              req e,
              elim protection [
                | inl v ↦ inl (native v)
                | inr (allowed, healthy, timely) ↦ inr (allowed, well healthy, is_fresh timely)
              ],
            )),
        (λ (e, protection). back (
          fits e,
          elim protection [
            | inl v ↦ inl (verified_again v)
            | inr (allowed, healthy, timely) ↦
                inr (allowed, healthy_again healthy, fresh_again timely)
          ],
        )),
      )
