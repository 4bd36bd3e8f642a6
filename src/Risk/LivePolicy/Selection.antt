-- ===== src/Risk/LivePolicy/Selection.antt =====
-- What `_select_plan` of src/fatty_trader/risk/live_policy.py chooses.
use fatty_multi_exchange_tra.Prelude.{
  ℕ, zero, suc, ◌+◌, ◌-◌, ◌≤◌, ◌<◌, ◌≡◌, ◌∙◌, ap, subst, Option, none, some, List, arith, inl, inr,
  ◌⊎◌,
}
use fatty_multi_exchange_tra.Prelude.Raise.{ok_injective, ok, ◌>>=◌, >>=-eq-ok}
use fatty_multi_exchange_tra.Risk.LiveInput.{Plan, Search, Tag}
use fatty_multi_exchange_tra.Risk.Candidate.{Attempt, planned, refused, plan_at_leverage}
use fatty_multi_exchange_tra.Risk.LivePolicy.{select_from, select_plan, add_tag}

-- Every leverage from `low` to below `high` is refused, each with a tag.
pub AllRefused : Search → ℕ → ℕ → Type 0
AllRefused s low high =
    (l : ℕ) → low ≤ l → l < high → (t : Tag) × (plan_at_leverage s l ≡ ok (refused t))

-- The plan is that of the highest leverage from `low` to below `high` which is not refused.
pub IsHighest : Search → ℕ → ℕ → Plan → Type 0
IsHighest s low high p =
    (l : ℕ) × (low ≤ l)
    × (l < high)
    × (plan_at_leverage s l ≡ ok (planned p))
    × AllRefused s (suc l) high

-- The choice from `low` to below `high`: the highest leverage that works, or none if all are refused.
pub IsChoice : Search → ℕ → ℕ → Option Plan → Type 0
IsChoice s low high none = AllRefused s low high
IsChoice s low high (some p) = IsHighest s low high p

AllRefused-suc :
    (s : Search) (low high : ℕ) (t : Tag)
    → plan_at_leverage s high ≡ ok (refused t)
    → AllRefused s low high
    → AllRefused s low (suc high)
unfolding AllRefused
AllRefused-suc s low high t h below l from to = elim (at_or_below l high to) [
  | inl e ↦ (t, ap (plan_at_leverage s) e ∙ h)
  | inr less ↦ below l from less
]
  where
    at_or_below : (l high : ℕ) → l < suc high → (l ≡ high) ⊎ (l < high)
    at_or_below l high h = omega arith

IsChoice-suc :
    (s : Search) (low high : ℕ) (t : Tag) (o : Option Plan)
    → plan_at_leverage s high ≡ ok (refused t)
    → IsChoice s low high o
    → IsChoice s low (suc high) o
unfolding IsChoice IsHighest
IsChoice-suc s low high t none h c = AllRefused-suc s low high t h c
IsChoice-suc s low high t (some p) h (l, from, to, found, above) =
    (l, from, omega arith, found, AllRefused-suc s (suc l) high t h above)

impossible : (s : Search) (low l : ℕ) → low ≤ l → l < low → ⊥
impossible s low l from to = omega arith

none_tried : (s : Search) (low : ℕ) → AllRefused s low low
unfolding AllRefused
none_tried s low l from to = absurd (impossible s low l from to)

-- The best attempt is the choice when it is the highest leverage.
IsChoice-planned :
    (s : Search) (low n : ℕ) (p : Plan)
    → plan_at_leverage s (low + n) ≡ ok (planned p)
    → IsChoice s low (suc (low + n)) (some p)
unfolding IsChoice IsHighest
IsChoice-planned s low n p found =
    (low + n, omega arith, omega arith, found, none_tried s (suc (low + n)))

IsChoice-add_tag :
    (s : Search) (low high : ℕ) (t : Tag) (rest answer : Option Plan × List Tag)
    → plan_at_leverage s high ≡ ok (refused t)
    → IsChoice s low high rest.0
    → add_tag t rest ≡ answer
    → IsChoice s low (suc high) answer.0
IsChoice-add_tag s low high t (o, ts) answer found chosen same =
    subst (λ (x : Option Plan × List Tag). IsChoice s low (suc high) x.0) same
      (IsChoice-suc s low high t o found chosen)

select_from_lem :
    (s : Search) (low n : ℕ) (answer : Option Plan × List Tag)
    → select_from s low n ≡ ok answer
    → IsChoice s low (low + n) answer.0
unfolding select_from IsChoice
select_from_lem s low zero answer h =
    subst (λ (x : Option Plan × List Tag). IsChoice s low (low + 0) x.0) (ok_injective h)
      (subst (AllRefused s low) (omega arith) (none_tried s low))
select_from_lem s low (suc n) answer h =
    let (a, found, _) = >>=-eq-ok (plan_at_leverage s (low + n)) _ h in
    subst (λ (high : ℕ). IsChoice s low high answer.0) (omega arith)
      (by_attempt a found h (select_from_lem s low n))
  where
    by_attempt :
        (a : Attempt)
        → plan_at_leverage s (low + n) ≡ ok a
        → select_from s low (suc n) ≡ ok answer
        → ((lower : Option Plan × List Tag)
            → select_from s low n ≡ ok lower
            → IsChoice s low (low + n) lower.0)
        → IsChoice s low (suc (low + n)) answer.0
    by_attempt (planned p) found h induction =
        subst (λ (x : Option Plan × List Tag). IsChoice s low (suc (low + n)) x.0)
          (ok_injective (rw (◌>>=◌, found) at h)) (IsChoice-planned s low n p found)
    by_attempt (refused t) found h induction =
        let (lower, below, same) = >>=-eq-ok (select_from s low n) _ (rw (◌>>=◌, found) at h) in
        IsChoice-add_tag s low (low + n) t lower answer found (induction lower below)
          (ok_injective same)

-- Where `_select_plan` answers for a range of leverages that is not empty, it has chosen the highest
-- one that works: the plan is that of a leverage of the range and every higher one of the range is
-- refused, and where there is no plan every leverage of the range is refused.
pub select_plan_lem :
    (s : Search) (low high : ℕ) (answer : Option Plan × List Tag)
    → low ≤ high
    → select_plan s low high ≡ ok answer
    → IsChoice s low (suc high) answer.0
unfolding select_plan
select_plan_lem s low high answer in_range h =
    subst (λ (top : ℕ). IsChoice s low top answer.0) (omega arith)
      (select_from_lem s low (high + 1 - low) answer h)

pub highest :
    (s : Search) (low high : ℕ) (p : Plan)
    → IsChoice s low high (some p)
    → (l : ℕ) × (low ≤ l)
      × (l < high)
      × (plan_at_leverage s l ≡ ok (planned p))
      × AllRefused s (suc l) high
unfolding IsChoice IsHighest
highest s low high p c = c
