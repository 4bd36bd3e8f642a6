-- ===== src/Risk/LivePolicy/Decisions.antt =====
-- What the decisions of `plan_live_position` in src/fatty_trader/risk/live_policy.py promise.
use fatty_multi_exchange_tra.Prelude.{
  ℕ, suc, ◌≤◌, ◌<◌, ◌≡◌, sym, ◌∙◌, ap, subst, Bool, true, false, Option, none, some, List, arith,
  inl, inr, Bool-cases, ◌&&◌, not, any, leb, ltb, ◌==◌,
}
use fatty_multi_exchange_tra.Prelude.Raise.{ok, >>=-eq-ok}
use fatty_multi_exchange_tra.Decimal.{Decimal, ◌*ᵈ◌}
use fatty_multi_exchange_tra.Risk.Sizing.{round_price_to_tick}
use fatty_multi_exchange_tra.Risk.LiveInput.{
  Plan, Search, Tag, LiveSizingInput, accept, low_leverage, high_leverage, leverage_range,
  min_live_leverage, max_live_leverage, leverage_range,
}
use fatty_multi_exchange_tra.Risk.Candidate.{margin_cap_of}
use fatty_multi_exchange_tra.Risk.Candidate.Accepted.{
  IsAccepted, same_leverage, plan_at_leverage-IsAccepted,
}
use fatty_multi_exchange_tra.Risk.LivePolicy.{
  select_plan, search_of, cap_margin, first_decision, all_in_decision, with_stop, stop_of,
  plan_live_position, is_empty, is_guard, is_cap, is_min_notional,
}
use fatty_multi_exchange_tra.Risk.LivePolicy.Selection.{AllRefused, highest, select_plan_lem}

-- The budget of the search that an accepted decision comes from.
pub budget : LiveSizingInput → Option Decimal → Bool → Decimal
budget d cap true = cap_margin cap d.available_usdt
budget d cap false = cap_margin cap (d.risk.allocation_pct *ᵈ d.available_usdt)

-- The plan is the choice of the search with the budget that the flag `fallback_used` names, and
-- the whole balance is only used while no position is open.
pub IsChosen : LiveSizingInput → Option Decimal → Decimal → Decimal → Plan → Bool → Type 0
IsChosen d cap rounded stop p fallback =
    (tags : List Tag) × (select_plan (search_of d cap rounded stop (budget d cap fallback))
        (low_leverage d) (high_leverage d)
      ≡ ok (some p, tags))
    × (fallback ≡ true → d.active_positions ≡ 0)

all_in_decision_lem :
    (rounded stop : Decimal) (r : Option Plan × List Tag) (p : Plan) (x y : Decimal) (b : Bool)
    → all_in_decision rounded stop r ≡ accept p x y b
    → (r.0 ≡ some p) × (x ≡ rounded) × (y ≡ stop) × (b ≡ true)
unfolding all_in_decision
all_in_decision_lem rounded stop (some q, tags) p x y b h = ground arith
all_in_decision_lem rounded stop (none, tags) p x y b h = ground arith

-- With no candidate for the allocated margin, an accepted decision is that of the all-in search.
fallback_lem :
    (d : LiveSizingInput) (cap : Option Decimal) (rounded stop : Decimal) (tags : List Tag)
    (p : Plan) (x y : Decimal) (b : Bool)
    → first_decision d cap rounded stop (none, tags) ≡ ok (accept p x y b)
    → (r : Option Plan × List Tag) × (d.active_positions ≡ 0)
      × (select_plan
            (search_of d cap rounded stop (cap_margin cap d.available_usdt))
            (low_leverage d)
            (high_leverage d)
          ≡ ok r)
      × (all_in_decision rounded stop r ≡ accept p x y b)
unfolding first_decision
fallback_lem d cap rounded stop tags p x y b h = elim (Bool-cases (any is_guard tags)) [
  | inl guard ↦ ground arith
  | inr no_guard ↦ elim (Bool-cases (any is_cap tags && not (any is_min_notional tags))) [
    | inl capped ↦ ground arith
    | inr free ↦ elim (Bool-cases (d.active_positions == 0)) [
      | inr busy ↦ ground arith
      | inl idle ↦
          let (r, found, same) = >>=-eq-ok (select_plan _ _ _) _ (rw (no_guard, free, idle) at h) in
          (r, ground arith, found, cc)
    ]
  ]
]

first_choice :
    (d : LiveSizingInput) (cap : Option Decimal) (rounded stop : Decimal) (q p : Plan)
    (tags : List Tag) (x y : Decimal) (b : Bool)
    → first_decision d cap rounded stop (some q, tags) ≡ ok (accept p x y b)
    → (q ≡ p) × (x ≡ rounded) × (y ≡ stop) × (b ≡ false)
unfolding first_decision
first_choice d cap rounded stop q p tags x y b h = ground arith

choice_lem :
    (s : Search) (low high : ℕ) (r : Option Plan × List Tag) (p : Plan)
    → select_plan s low high ≡ ok r
    → r.0 ≡ some p
    → select_plan s low high ≡ ok (some p, r.1)
choice_lem s low high (o, tags) p h e = cc

-- An accepted decision carries the rounded entry and the stop, and the choice of a search.
first_decision_lem :
    (d : LiveSizingInput) (cap : Option Decimal) (rounded stop : Decimal)
    (r : Option Plan × List Tag) (p : Plan) (x y : Decimal) (b : Bool)
    → select_plan
        (search_of d cap rounded stop (budget d cap false))
        (low_leverage d)
        (high_leverage d)
      ≡ ok r
    → first_decision d cap rounded stop r ≡ ok (accept p x y b)
    → (x ≡ rounded) × (y ≡ stop) × IsChosen d cap rounded stop p b
unfolding IsChosen budget
first_decision_lem d cap rounded stop (some q, tags) p x y b h e =
    let (same, at_entry, at_stop, first) = first_choice d cap rounded stop q p tags x y b e in
    (at_entry, at_stop, (tags, rw first cc, λ on. cc))
first_decision_lem d cap rounded stop (none, tags) p x y b h e =
    let (r, idle, found, same) = fallback_lem d cap rounded stop tags p x y b e in
    let (chosen, at_entry, at_stop, all_in) = all_in_decision_lem rounded stop r p x y b same in
    (at_entry, at_stop, (r.1, rw all_in (choice_lem _ _ _ r p found chosen), λ _. idle))

-- The stop and the entry of a decision, with the search that it comes from.
pub IsJustified : LiveSizingInput → Plan → Decimal → Decimal → Bool → Type 0
IsJustified d p rounded stop fallback =
    (cap : Option Decimal) × (margin_cap_of d.risk ≡ ok cap)
    × (round_price_to_tick d.entry d.meta.price_tick ≡ ok rounded)
    × (stop_of d ≡ ok (some stop))
    × IsChosen d cap rounded stop p fallback

with_stop_lem :
    (d : LiveSizingInput) (cap : Option Decimal) (rounded : Decimal) (o : Option Decimal) (p : Plan)
    (x y : Decimal) (b : Bool)
    → with_stop d cap rounded o ≡ ok (accept p x y b)
    → (x ≡ rounded) × (o ≡ some y) × IsChosen d cap rounded y p b
unfolding with_stop budget
with_stop_lem d cap rounded none p x y b h = cc
with_stop_lem d cap rounded (some stop) p x y b h =
    let (r, found, e) = >>=-eq-ok (select_plan _ _ _) _ h in
    let (at_entry, at_stop, chosen) = first_decision_lem d cap rounded stop r p x y b found e in
    (
      at_entry,
      ap some (sym at_stop),
      subst (λ z. IsChosen d cap rounded z p b) (sym at_stop) chosen,
    )

accept-IsJustified :
    (d : LiveSizingInput) (p : Plan) (x y : Decimal) (b : Bool)
    → plan_live_position d ≡ ok (accept p x y b)
    → (d.active_positions < d.risk.max_normal_positions)
      × (low_leverage d ≤ high_leverage d)
      × IsJustified d p x y b
unfolding plan_live_position IsJustified
accept-IsJustified d p x y b h =
    let (cap, capped, h1) = >>=-eq-ok (margin_cap_of d.risk) _ h in
    elim (Bool-cases (leb d.risk.max_normal_positions d.active_positions)) [
      | inl full ↦ ground arith
      | inr room ↦ elim (Bool-cases (is_empty d.meta.mm_tiers)) [
        | inl bare ↦ ground arith
        | inr tiered ↦ elim (Bool-cases (ltb (high_leverage d) (low_leverage d))) [
          | inl crossed ↦ ground arith
          | inr ranged ↦
              let (rounded, at, h2) =
                >>=-eq-ok (round_price_to_tick _ _) _ (rw (room, tiered, ranged) at h1) in
              let (o, stopped, h3) = >>=-eq-ok (stop_of d) _ h2 in
              let (e, same, chosen) = with_stop_lem d cap rounded o p x y b h3 in
              (
                ground arith,
                ground arith,
                (
                  cap,
                  capped,
                  at ∙ ap ok (sym e),
                  stopped ∙ ap ok same,
                  subst (λ z. IsChosen d cap z y p b) (sym e) chosen,
                ),
              )
        ]
      ]
    ]

-- The leverages that a decision may take.
abbrev pub InRange : LiveSizingInput → ℕ → Type 0
InRange d l =
    (min_live_leverage ≤ l)
    × (l ≤ max_live_leverage)
    × (d.risk.min_leverage ≤ l)
    × (l ≤ d.risk.max_leverage)
    × (l ≤ d.meta.max_leverage)
    × (l ≤ d.desired_leverage)

-- An accepted decision is taken with fewer active positions than the configured maximum, and, where
-- it used the whole balance, with none. Its leverage is from 5 to 20, within the configured
-- leverages and at most the instrument's and the desired one. Its plan is legal, priced and guarded
-- for the search with the decision's entry, stop and budget, and every higher leverage that the
-- bounds allow is refused by that search.
pub accept_lem :
    (d : LiveSizingInput) (p : Plan) (rounded stop : Decimal) (fallback : Bool)
    → plan_live_position d ≡ ok (accept p rounded stop fallback)
    → (d.active_positions < d.risk.max_normal_positions)
      × (fallback ≡ true → d.active_positions ≡ 0)
      × InRange d p.leverage
      × ((cap : Option Decimal) × (margin_cap_of d.risk ≡ ok cap)
          × (let s = search_of d cap rounded stop (budget d cap fallback) in
              IsAccepted s p.leverage p × AllRefused s (suc p.leverage) (suc (high_leverage d))))
unfolding IsJustified IsChosen
accept_lem d p rounded stop fallback h =
    let (room, in_range, justified) = accept-IsJustified d p rounded stop fallback h in
    let (cap, capped, _, _, chosen) = justified in
    let (tags, found, idle) = chosen in
    let s = search_of d cap rounded stop (budget d cap fallback) in
    let (l, from, to, attempt, above) =
      highest s (low_leverage d) (suc (high_leverage d)) p
        (select_plan_lem s (low_leverage d) (high_leverage d) (some p, tags) in_range found) in
    let accepted = plan_at_leverage-IsAccepted s l p attempt in
    let e = sym (same_leverage s l p accepted) in
    (
      room,
      idle,
      subst (InRange d) e (leverage_range d l from to),
      (
        cap,
        capped,
        (
          subst (λ x. IsAccepted s x p) e accepted,
          subst (λ x. AllRefused s (suc x) (suc (high_leverage d))) e above,
        ),
      ),
    )
