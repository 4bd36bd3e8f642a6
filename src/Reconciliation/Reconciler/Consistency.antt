-- ===== src/Reconciliation/Reconciler/Consistency.antt =====
-- What a tick of the reconciler vouches for.
use text.Mathlib.Text.{◌==◌ as str_eq}
use text.Mathlib.TextEquality.{eq_iff}
use fatty_multi_exchange_tra.Prelude.{
  ℕ, String, ◌≡◌, inl, inr, refl, true, false, ◌&&◌, Bool-cases, Option, none, some, any, ◌⊎◌, List,
  [], ◌∷◌, ◌++◌, arith, All,
}
use fatty_multi_exchange_tra.Prelude.Raise.{Result, ok, >>=-eq-ok, raise_if-eq-ok, ok_injective}
use fatty_multi_exchange_tra.Reconciliation.Reconciler.{
  ReconcilerConfig, OrderRow, FillRow, Answers, Reconciler, healthy, set_status, is_stray,
  is_protected, stray_orders, bare_positions, fill_order, order_ids, stray_fills,
  check_protection_or_kill, wrong_mode, mode_mismatches, reconcile, is_stale, status_of, settle,
  tick, ticked, ordinal,
}

-- The id stands in the list.
abbrev pub IsAmong : String → List String → Type 0
IsAmong id [] = ⊥
IsAmong id (k ∷ known) = (k ≡ id) ⊎ IsAmong id known

-- The id is missing, empty or a known one.
abbrev pub IsKnown : List String → Option String → Type 0
IsKnown known none = Unit {0}
IsKnown known (some id) = (id ≡ "") ⊎ IsAmong id known

any-IsAmong :
    (id : String) (known : List String) → any (λ k. str_eq k id) known ≡ true → IsAmong id known
any-IsAmong id [] h = cc
any-IsAmong id (k ∷ known) h = ground (arith, eq_iff k id, any-IsAmong id known)

unstray : (known : List String) (o : Option String) → is_stray known o ≡ false → IsKnown known o
unfolding is_stray
unstray known none h = tt
unstray known (some id) h = ground (arith, eq_iff id "", any-IsAmong id known)

-- Every row is known.
stray_orders_none :
    (known : List String) (orders : List OrderRow)
    → stray_orders known orders ≡ []
    → All (λ o. IsKnown known o.order_id) orders
unfolding stray_orders
stray_orders_none known [] h = tt
stray_orders_none known (o ∷ orders) h =
    ground (arith, unstray known o.order_id, stray_orders_none known orders)

bare_positions_none :
    (orders : List OrderRow) (positions : List (Option String))
    → bare_positions orders positions ≡ []
    → All (λ p. is_protected orders p ≡ true) positions
unfolding bare_positions
bare_positions_none orders [] h = tt
bare_positions_none orders (p ∷ positions) h = ground (arith, bare_positions_none orders positions)

stray_fills_none :
    (known : List String) (fills : List FillRow)
    → stray_fills known fills ≡ []
    → All (λ f. IsKnown known (fill_order f)) fills
unfolding stray_fills
stray_fills_none known [] h = tt
stray_fills_none known (f ∷ fills) h =
    ground (arith, unstray known (fill_order f), stray_fills_none known fills)

append_none {ℓ} : {A : Type ℓ} (xs ys : List A) → xs ++ ys ≡ [] → (xs ≡ []) × (ys ≡ [])
append_none [] ys h = (refl, h)
append_none (x ∷ xs) ys h = cc

module _ (lower : String → String) (config : ReconcilerConfig) where
  -- The venue answered everything; its margin mode is the expected one, the ids of its orders and
  -- fills are known, and every position has a stop and a target.
  abbrev pub IsConsistent : List String → Answers → Type 0
  IsConsistent known a =
      (mode : String) × (positions : List (Option String)) × (orders : List OrderRow)
      × (fills : List FillRow) × (a.margin_mode ≡ ok mode)
      × (a.positions ≡ ok positions)
      × (a.orders ≡ ok orders)
      × (a.fills ≡ ok fills)
      × (str_eq (lower mode) config.expected_margin_mode ≡ true)
      × All (λ o. IsKnown known o.order_id) orders
      × All (λ p. is_protected orders p ≡ true) positions
      × All (λ f. IsKnown (order_ids orders ++ known) (fill_order f)) fills

  mode_mismatches_none :
      (mode : String)
      → mode_mismatches lower config mode ≡ []
      → str_eq (lower mode) config.expected_margin_mode ≡ true
  unfolding mode_mismatches wrong_mode
  mode_mismatches_none mode h = ground arith

  reconcile_clean :
      (known : List String) (a : Answers)
      → reconcile lower config known a ≡ ok []
      → IsConsistent known a
  unfolding reconcile
  reconcile_clean known a returned =
      let (mode, m, h1) = >>=-eq-ok a.margin_mode _ returned in
      let (_, h2) =
        raise_if-eq-ok (wrong_mode lower config mode && config.kill_on_missing_protection) _ _ h1 in
      let (positions, p, h3) = >>=-eq-ok a.positions _ h2 in
      let (orders, o, h4) = >>=-eq-ok a.orders _ h3 in
      let (fills, f, h5) = >>=-eq-ok a.fills _ h4 in
      let found =
        mode_mismatches lower config mode
        ++ (stray_orders known orders ++ bare_positions orders positions) in
      let (_, _, h6) = >>=-eq-ok (check_protection_or_kill config found) _ h5 in
      let (clean, clean_fills) =
        append_none found (stray_fills (order_ids orders ++ known) fills) (ok_injective h6) in
      let (mode_clean, rest) = append_none (mode_mismatches lower config mode) _ clean in
      let (orders_clean, positions_clean) = append_none (stray_orders known orders) _ rest in
      (
        mode,
        positions,
        orders,
        fills,
        m,
        p,
        o,
        f,
        mode_mismatches_none mode mode_clean,
        stray_orders_none known orders orders_clean,
        bare_positions_none orders positions positions_clean,
        stray_fills_none (order_ids orders ++ known) fills clean_fills,
      )

  settle_healthy :
      (now : ℕ) (r : Result (List String)) (s t : Reconciler)
      → settle lower config now r s ≡ (ok tt, t)
      → t.status ≡ healthy
      → r ≡ ok []
  unfolding settle ticked set_status status_of ordinal
  settle_healthy now r s t returned clean = ground arith

  -- A tick that returns with status OK vouches for the venue's state: the reads all answered, the
  -- margin mode is the expected one, every order with an id is a known one, every fill with the id
  -- of an order is one of an order that is known or stands among the venue's open orders, and every
  -- position has both a stop and a target order.
  pub tick-IsConsistent :
      (now : ℕ) (a : Answers) (s t : Reconciler)
      → tick lower config now a s ≡ (ok tt, t)
      → t.status ≡ healthy
      → IsConsistent s.known_order_ids a
  unfolding tick
  tick-IsConsistent now a s t returned clean =
      elim (Bool-cases (is_stale lower config s.last_tick now)) [
        | inl stale ↦ ground arith
        | inr fresh ↦ reconcile_clean s.known_order_ids a (
            settle_healthy now (reconcile lower config s.known_order_ids a) s t
              (rw fresh at returned) clean)
      ]
