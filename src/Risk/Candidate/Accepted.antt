-- ===== src/Risk/Candidate/Accepted.antt =====
-- What an accepted leverage candidate satisfies.
use fatty_multi_exchange_tra.Prelude.{
  ℕ, ◌≡◌, refl, ◌∙◌, ap, Bool, true, false, Option, none, some, inl, inr, arith, Bool-cases, not,
  ◌||◌, subst, Option-cases,
}
use fatty_multi_exchange_tra.Prelude.Raise.{ok_injective, ok, >>=-eq-ok}
use fatty_multi_exchange_tra.Domain.Models.{positive}
use fatty_multi_exchange_tra.Risk.Sizing.{round_qty_to_step}
use fatty_multi_exchange_tra.Decimal.{Decimal, lt, le, of_int, ◌*ᵈ◌, ◌/ᵈ◌}
use fatty_multi_exchange_tra.Decimal.Order.{le_of_not_lt}
use fatty_multi_exchange_tra.Risk.Liquidation.{
  estimate_liquidation_price, check_sl_before_liquidation,
}
use fatty_multi_exchange_tra.Risk.LiveInput.{Plan, Search}
use fatty_multi_exchange_tra.Risk.Candidate.{
  per_qty, plan_of, position_of, guarded, split_failure, enforce_margin_cap, guard_input, priced,
  after_cap, market_ceiling, limit_ceiling, after_split, within_limits, planned, plan_at_leverage,
  over_cap,
}

-- The plan is priced: its notional and margin follow from the quantity, the notional reaches what is
-- required, and the stop clears the estimated liquidation price.
pub record IsPriced (s : Search) (p : Plan) : Type 0 where
  pub notional_exact : p.notional ≡ p.quantity *ᵈ per_qty s
  pub notional_enough : le s.required p.notional ≡ true
  pub liquidation :
      estimate_liquidation_price (position_of s p.leverage p.margin p.quantity)
      ≡ ok p.liquidation_price
  pub stop_clears : check_sl_before_liquidation (guard_input s p.liquidation_price) ≡ ok true

-- The plan is legal at the venue and within the margin cap.
pub record IsLegal (s : Search) (p : Plan) : Type 0 where
  pub lot : le s.meta.min_order_qty p.quantity ≡ true
  pub margin_exact : p.margin ≡ p.quantity *ᵈ per_qty s /ᵈ of_int p.leverage
  pub within_cap : (c : Decimal) → s.cap ≡ some c → le p.margin c ≡ true
  pub legs_legal : split_failure s p.quantity ≡ none

pub IsAccepted : Search → ℕ → Plan → Type 0
IsAccepted s leverage p = (p.leverage ≡ leverage) × IsPriced s p × IsLegal s p

planned-injective : {p q : Plan} → ok (planned p) ≡ ok (planned q) → p ≡ q
planned-injective h = cc

priced_lem :
    (s : Search) (leverage : ℕ) (margin qty : Decimal) (p : Plan)
    → priced s leverage margin qty ≡ ok (planned p)
    → (p.leverage ≡ leverage) × (p.margin ≡ margin) × (p.quantity ≡ qty) × IsPriced s p
unfolding priced
priced_lem s leverage margin qty p h = elim (Bool-cases (lt (qty *ᵈ per_qty s) s.required)) [
  | inl short ↦ ground arith
  | inr enough ↦
      let position = position_of s leverage margin qty in
      let (liq, estimated, rest) =
        >>=-eq-ok (estimate_liquidation_price position) _ (rw enough at h) in
      let (safe, checked, end) =
        >>=-eq-ok (check_sl_before_liquidation (guard_input s liq)) _ rest in
      accepted liq safe estimated checked end enough
]
  where
    accepted :
        (liq : Decimal) (safe : Bool)
        → estimate_liquidation_price (position_of s leverage margin qty) ≡ ok liq
        → check_sl_before_liquidation (guard_input s liq) ≡ ok safe
        → ok (guarded (plan_of s leverage margin qty liq) safe) ≡ ok (planned p)
        → lt (qty *ᵈ per_qty s) s.required ≡ false
        → (p.leverage ≡ leverage) × (p.margin ≡ margin) × (p.quantity ≡ qty) × IsPriced s p
    accepted liq false estimated checked end enough = cc
    accepted liq true estimated checked end enough =
        subst
          (λ (x : Plan).
            (x.leverage ≡ leverage) × (x.margin ≡ margin) × (x.quantity ≡ qty) × IsPriced s x)
          (planned-injective end)
          (
            refl,
            refl,
            refl,
            record {
              notional_exact = refl;
              notional_enough = le_of_not_lt _ _ enough;
              liquidation = estimated;
              stop_clears = checked;
            },
          )

-- What the cap leaves: at least one lot, the margin that the notional needs, within the cap.
WithinLimits : Search → ℕ → Decimal × Decimal → Type 0
WithinLimits s leverage (margin, qty) =
    (le s.meta.min_order_qty qty ≡ true)
    × (margin ≡ qty *ᵈ per_qty s /ᵈ of_int leverage)
    × ((c : Decimal) → s.cap ≡ some c → le margin c ≡ true)

over_cap_lem :
    (cap : Option Decimal) (margin c : Decimal)
    → over_cap cap margin ≡ false
    → cap ≡ some c
    → le margin c ≡ true
unfolding over_cap
over_cap_lem none margin c h e = cc
over_cap_lem (some x) margin c h e = ground (arith, le_of_not_lt c margin)

-- The two tests of the cap are false, and the answer is the pair they are made on.
within_limits_lem :
    (s : Search) (leverage : ℕ) (capped : Decimal) (answer : Decimal × Decimal)
    → within_limits s leverage capped ≡ some answer
    → (lt capped s.meta.min_order_qty ≡ false)
      × (over_cap s.cap (capped *ᵈ per_qty s /ᵈ of_int leverage) ≡ false)
      × ((capped *ᵈ per_qty s /ᵈ of_int leverage, capped) ≡ answer)
unfolding within_limits
within_limits_lem s leverage capped answer h = ground arith

within_limits-WithinLimits :
    (s : Search) (leverage : ℕ) (capped : Decimal) (answer : Decimal × Decimal)
    → within_limits s leverage capped ≡ some answer
    → WithinLimits s leverage answer
unfolding WithinLimits
within_limits-WithinLimits s leverage capped answer h =
    let (enough, within, same) = within_limits_lem s leverage capped answer h in
    subst (WithinLimits s leverage) same
      (le_of_not_lt _ _ enough, refl, λ c. over_cap_lem s.cap _ c within)

enforce_margin_cap-WithinLimits :
    (s : Search) (leverage : ℕ) (given step : Decimal) (answer : Decimal × Decimal)
    → enforce_margin_cap s leverage given step ≡ ok (some answer)
    → WithinLimits s leverage answer
unfolding enforce_margin_cap
enforce_margin_cap-WithinLimits s leverage given step answer h =
    elim (Bool-cases (not (positive given) || not (positive (per_qty s)))) [
      | inl bad ↦ ground arith
      | inr good ↦
          let (capped, rounded, found) = >>=-eq-ok (round_qty_to_step _ step) _ (rw good at h) in
          within_limits-WithinLimits s leverage capped answer (ok_injective found)
    ]

after_split_lem :
    (s : Search) (leverage : ℕ) (margin qty : Decimal) (p : Plan)
    → after_split s leverage margin qty (split_failure s qty) ≡ ok (planned p)
    → (split_failure s qty ≡ none) × (priced s leverage margin qty ≡ ok (planned p))
unfolding after_split
after_split_lem s leverage margin qty p h = elim (Option-cases (split_failure s qty)) [
  | inl whole ↦ (whole, rw whole at h)
  | inr (t, failed) ↦ ground arith
]

after_cap_lem :
    (s : Search) (leverage : ℕ) (qty : Decimal) (capped : Option (Decimal × Decimal)) (p : Plan)
    → after_cap s leverage qty capped ≡ ok (planned p)
    → (answer : Decimal × Decimal) × (capped ≡ some answer)
      × (split_failure s answer.1 ≡ none)
      × (priced s leverage answer.0 answer.1 ≡ ok (planned p))
unfolding after_cap
after_cap_lem s leverage qty none p h = cc
after_cap_lem s leverage qty (some answer) p h =
    let (whole, ready) = after_split_lem s leverage answer.0 answer.1 p h in
    (answer, refl, whole, ready)

legal_lem :
    (s : Search) (leverage : ℕ) (answer : Decimal × Decimal) (p : Plan)
    → WithinLimits s leverage answer
    → split_failure s answer.1 ≡ none
    → priced s leverage answer.0 answer.1 ≡ ok (planned p)
    → IsAccepted s leverage p
unfolding IsAccepted WithinLimits
legal_lem s leverage (margin, qty) p (lot, exact, within) whole ready =
    let (same_leverage, same_margin, same_qty, is_priced) =
      priced_lem s leverage margin qty p ready in
    (
      same_leverage,
      is_priced,
      record {
        lot = cc;
        margin_exact = cc;
        within_cap = λ c e. (let at_c = within c e in cc);
        legs_legal = cc;
      },
    )

-- A candidate that `_plan_at_leverage` accepts has the leverage asked for, a notional that is its
-- quantity's and reaches the required one, a stop that the guard accepts before the estimated
-- liquidation price, at least one lot, a margin that is its notional over the leverage and within
-- the cap where there is one, and legs that pass the split check.
pub plan_at_leverage-IsAccepted :
    (s : Search) (leverage : ℕ) (p : Plan)
    → plan_at_leverage s leverage ≡ ok (planned p)
    → IsAccepted s leverage p
unfolding plan_at_leverage
plan_at_leverage-IsAccepted s leverage p h = elim (Bool-cases (not (positive (per_qty s)))) [
  | inl bad ↦ ground arith
  | inr good ↦
      let (raw, _, h1) = >>=-eq-ok (round_qty_to_step _ _) _ (rw good at h) in
      let (below, _, h2) = >>=-eq-ok (market_ceiling s raw) _ h1 in
      let (qty, _, h3) = >>=-eq-ok (limit_ceiling s below) _ h2 in
      let (capped, limited, h4) = >>=-eq-ok (enforce_margin_cap s leverage qty _) _ h3 in
      let (answer, found, whole, ready) = after_cap_lem s leverage qty capped p h4 in
      legal_lem s leverage answer p
        (enforce_margin_cap-WithinLimits s leverage qty _ answer (limited ∙ ap ok found)) whole
        ready
]

pub same_leverage : (s : Search) (l : ℕ) (p : Plan) → IsAccepted s l p → p.leverage ≡ l
unfolding IsAccepted
same_leverage s l p a = a.0
