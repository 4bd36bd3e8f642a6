-- ===== src/Risk/PriceScale/Alignment.antt =====
-- What a scaled signal satisfies.
use fatty_multi_exchange_tra.Prelude.{
  ◌≡◌, refl, ap, subst, ◌∙◌, ◌≤◌, ◌^◌, suc, ◌⊎◌, Option, none, some, inl, inr, ◌||◌, not, true,
  false, Bool-cases, map, if◌then◌else◌, All, any-All, All-any, arith,
}
use fatty_multi_exchange_tra.Prelude.Int.{ℤ, pos, negsuc}
use fatty_multi_exchange_tra.Decimal.{Decimal, dec, of_int, lt, le, ◌-ᵈ◌, ◌/ᵈ◌}
use fatty_multi_exchange_tra.Domain.{Direction, long, short}
use fatty_multi_exchange_tra.Domain.Models.{positive}
use fatty_multi_exchange_tra.Risk.PriceScale.{
  Scaled, Prices, unscaled, power_of_ten, out_of_range, geometry_holds, scaled_by, too_far,
  distance, align_at, align_with, align_price_scale,
}

-- The scale is 10 to the power k, and k is from -8 to 8 and not 0.
abbrev pub IsPower : ℤ → Decimal → Type 0
IsPower (pos n) scale = (1 ≤ n) × (n ≤ 8) × (scale ≡ of_int (10 ^ n))
IsPower (negsuc n) scale = (suc n ≤ 8) × (scale ≡ dec 1 (suc n))

-- The stop is behind the entry, and no target is.
abbrev pub IsSound : Direction → Scaled → Type 0
IsSound long s =
    (lt s.stop_loss s.entry_price ≡ true) × All (λ t. le t s.entry_price ≡ false) s.take_profits
IsSound short s =
    (lt s.entry_price s.stop_loss ≡ true) × All (λ t. le s.entry_price t ≡ false) s.take_profits

module _ (p : Prices) (market : Decimal) (direction : Direction) (most : Decimal) where
  -- The entry is off the market price by no more than the given part of it, on either side.
  abbrev pub IsNear : Decimal → Type 0
  IsNear entry =
      ((lt entry market ≡ true) × (lt most ((market -ᵈ entry) /ᵈ market) ≡ false))
      ⊎ ((lt entry market ≡ false) × (lt most ((entry -ᵈ market) /ᵈ market) ≡ false))

  -- All prices are divided by the power of ten, near the market and on their sides.
  abbrev pub IsFitting : ℤ → Scaled → Type 0
  IsFitting k s =
      IsPower k s.scale
      × (s.entry_price ≡ p.entry_price /ᵈ s.scale)
      × (s.stop_loss ≡ p.stop_loss /ᵈ s.scale)
      × (s.take_profits ≡ map (λ t. t /ᵈ s.scale) p.take_profits)
      × IsNear s.entry_price
      × IsSound direction s

  -- The prices fit at the power that the logarithm answers for them.
  abbrev pub HasFit : Option ℤ → Scaled → Type 0
  HasFit answer s =
      (k : ℤ) × (answer ≡ some k)
      × (positive p.entry_price ≡ true)
      × (positive market ≡ true)
      × IsFitting k s

  -- The signal as it was, with the scale 1 and because no prices fit; or the prices that fit.
  abbrev pub IsAligned : Option ℤ → Scaled → Type 0
  IsAligned answer s =
      ((s.entry_price ≡ p.entry_price)
        × (s.stop_loss ≡ p.stop_loss)
        × (s.take_profits ≡ p.take_profits)
        × (s.scale ≡ of_int 1)
        × (¬ ((t : Scaled) × HasFit answer t)))
      ⊎ HasFit answer s

  power_in_range : (k : ℤ) (scale : Decimal) → IsPower k scale → out_of_range k ≡ false
  unfolding out_of_range
  power_in_range (pos n) scale is_power = ground arith
  power_in_range (negsuc n) scale is_power = ground arith

  power : (k : ℤ) (scale : Decimal) → IsPower k scale → scale ≡ power_of_ten k
  unfolding power_of_ten
  power (pos n) scale (low, high, same) = same
  power (negsuc n) scale (high, same) = same

  power_of_ten-IsPower : (k : ℤ) → out_of_range k ≡ false → IsPower k (power_of_ten k)
  unfolding out_of_range power_of_ten
  power_of_ten-IsPower (pos n) inside = (ground arith, ground arith, refl)
  power_of_ten-IsPower (negsuc n) inside = (ground arith, refl)

  near : (s : Scaled) → too_far s market most ≡ false → IsNear s.entry_price
  unfolding too_far distance
  near s h = ground arith

  not_far : (s : Scaled) → IsNear s.entry_price → too_far s market most ≡ false
  unfolding too_far distance
  not_far s h = ground arith

  sound : (d : Direction) (s : Scaled) → geometry_holds d s ≡ true → IsSound d s
  unfolding geometry_holds
  sound long s h = (ground arith, any-All (λ t. le t s.entry_price) s.take_profits (ground arith))
  sound short s h = (ground arith, any-All (λ t. le s.entry_price t) s.take_profits (ground arith))

  holds : (d : Direction) (s : Scaled) → IsSound d s → geometry_holds d s ≡ true
  unfolding geometry_holds
  holds long s (behind, ahead) =
      rw (behind, All-any (λ t. le t s.entry_price) s.take_profits ahead) refl
  holds short s (behind, ahead) =
      rw (behind, All-any (λ t. le s.entry_price t) s.take_profits ahead) refl

  -- Prices that fit are the ones that are computed for the power.
  fitting_scaled : (k : ℤ) (t : Scaled) → IsFitting k t → t ≡ scaled_by p (power_of_ten k)
  unfolding scaled_by
  fitting_scaled k t (is_power, entry, stop, targets, is_near, is_sound) =
      let same = power k t.scale is_power in
      λ i. record {
        entry_price = (entry ∙ ap (λ c. p.entry_price /ᵈ c) same) i;
        stop_loss = (stop ∙ ap (λ c. p.stop_loss /ᵈ c) same) i;
        take_profits = (targets ∙ ap (λ c. map (λ x. x /ᵈ c) p.take_profits) same) i;
        scale = same i;
      }

  -- Prices that fit are returned.
  fitting_tests :
      (k : ℤ) (t : Scaled)
      → IsFitting k t
      → (out_of_range k ≡ false)
        × (too_far (scaled_by p (power_of_ten k)) market most ≡ false)
        × (geometry_holds direction (scaled_by p (power_of_ten k)) ≡ true)
  fitting_tests k t fits =
      let same = fitting_scaled k t fits in
      let (is_power, entry, stop, targets, is_near, is_sound) = fits in
      (
        power_in_range k t.scale is_power,
        subst (λ s. too_far s market most ≡ false) same (not_far t is_near),
        subst (λ s. geometry_holds direction s ≡ true) same (holds direction t is_sound),
      )

  scaled_fits :
      (k : ℤ)
      → out_of_range k ≡ false
      → too_far (scaled_by p (power_of_ten k)) market most ≡ false
      → geometry_holds direction (scaled_by p (power_of_ten k)) ≡ true
      → IsFitting k (scaled_by p (power_of_ten k))
  unfolding scaled_by
  scaled_fits k inside close good =
      let s = scaled_by p (power_of_ten k) in
      (power_of_ten-IsPower k inside, refl, refl, refl, near s close, sound direction s good)

  refused :
      (answer : Option ℤ) → (¬ ((t : Scaled) × HasFit answer t)) → IsAligned answer (unscaled p)
  unfolding unscaled
  refused answer none_fits = inl (refl, refl, refl, refl, none_fits)

  some_injective : (k l : ℤ) → some k ≡ some l → l ≡ k
  some_injective k l h = cc

  only_fit :
      (k : ℤ) (t : Scaled)
      → HasFit (some k) t
      → (out_of_range k ≡ false)
        × (too_far (scaled_by p (power_of_ten k)) market most ≡ false)
        × (geometry_holds direction (scaled_by p (power_of_ten k)) ≡ true)
  only_fit k t (l, at, entry_positive, price_positive, fits) =
      fitting_tests k t (subst (λ n. IsFitting n t) (some_injective k l at) fits)

  align_at_lem :
      (k : ℤ)
      → positive p.entry_price ≡ true
      → positive market ≡ true
      → IsAligned (some k) (align_at p market direction most k)
  unfolding align_at
  align_at_lem k entry price =
      let s = scaled_by p (power_of_ten k) in
      elim (Bool-cases (out_of_range k)) [
        | inl outside ↦
            rw outside
              (refused (some k) λ (t, fit). let (a, b, c) = only_fit k t fit in ground arith)
        | inr inside ↦ elim (Bool-cases (too_far s market most)) [
          | inl far ↦
              rw (inside, far)
                (refused (some k) λ (t, fit). let (a, b, c) = only_fit k t fit in ground arith)
          | inr close ↦ elim (Bool-cases (geometry_holds direction s)) [
            | inl good ↦
                rw (inside, close, good)
                  (inr (k, refl, entry, price, scaled_fits k inside close good))
            | inr bad ↦
                rw (inside, close, bad)
                  (refused (some k) λ (t, fit). let (a, b, c) = only_fit k t fit in ground arith)
          ]
        ]
      ]

  align_with_lem :
      (o : Option ℤ)
      → positive p.entry_price ≡ true
      → positive market ≡ true
      → IsAligned o (align_with p market direction most o)
  unfolding align_with
  align_with_lem none entry price =
      refused none λ (t, (k, at, entry_positive, price_positive, fits)). cc
  align_with_lem (some k) entry price = align_at_lem k entry price

  aligned :
      (o : Option ℤ)
      → IsAligned o (
          if not (positive p.entry_price) || not (positive market)
          then unscaled p
          else align_with p market direction most o)
  aligned o = elim (Bool-cases (not (positive p.entry_price) || not (positive market))) [
    | inl bad ↦ rw bad (refused o λ (t, (k, at, entry, price, fits)). ground arith)
    | inr good ↦ rw good (align_with_lem o (ground arith) (ground arith))
  ]

module _ (rounded_log10 : Decimal → Option ℤ) where
  -- Whatever the logarithm answers: `align_price_scale` divides all prices by 10 to the answer's
  -- power, if the entry and the market price are positive, the power is from -8 to 8 and not 0, the
  -- divided entry is within the tolerance of the market price, and the divided stop and targets
  -- stand on their sides of it; else, and only then, it returns the prices as they were with the
  -- scale 1.
  pub align_price_scale-IsAligned :
      (p : Prices) (market : Decimal) (direction : Direction) (most : Decimal)
      → IsAligned p market direction most
          (rounded_log10 (p.entry_price /ᵈ market))
          (align_price_scale rounded_log10 p market direction most)
  unfolding align_price_scale
  align_price_scale-IsAligned p market direction most =
      aligned p market direction most (rounded_log10 (p.entry_price /ᵈ market))
