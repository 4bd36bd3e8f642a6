-- ===== src/Decimal/Order.antt =====
-- The order of decimals, as its Boolean tests see it.
use fatty_multi_exchange_tra.Prelude.{◌≡◌, refl, true, false, arith}
use fatty_multi_exchange_tra.Decimal.{
  Decimal, dec, of_int, lt, le, eq, min, max, ◌+ᵈ◌, ◌-ᵈ◌, ◌*ᵈ◌, ◌/ᵈ◌, round_down, round_half_up,
  round_ceiling,
}

pub le_of_not_lt : (a b : Decimal) → lt a b ≡ false → le b a ≡ true
unfolding lt le
le_of_not_lt a b h = ground arith

pub le_of_lt : (a b : Decimal) → lt a b ≡ true → le a b ≡ true
unfolding lt le
le_of_lt a b h = ground arith

pub not_lt_of_eq : (a b : Decimal) → eq a b ≡ true → lt b a ≡ false
unfolding eq le lt
not_lt_of_eq a b h = ground arith

pub not_lt_of_lt : (a b : Decimal) → lt a b ≡ true → lt b a ≡ false
unfolding lt
not_lt_of_lt a b h = ground arith

pub le_refl : (a : Decimal) → le a a ≡ true
unfolding le
le_refl a = ground arith

pub min-le_left : (a b : Decimal) → le (min a b) a ≡ true
unfolding min
min-le_left a b = ground (arith, le_of_lt b a, le_refl a)

pub min-le_right : (a b : Decimal) → le (min a b) b ≡ true
unfolding min
min-le_right a b = ground (arith, le_of_not_lt b a, le_refl b)

third : of_int 1 /ᵈ of_int 3 ≡ dec 3333333333333333333333333333 28
unfolding ◌/ᵈ◌
third = refl

two_thirds : of_int 2 /ᵈ of_int 3 ≡ dec 6666666666666666666666666667 28
unfolding ◌/ᵈ◌
two_thirds = refl

rounding :
    (eq (round_half_up (dec 25 1)) (of_int 3) ≡ true)
    × (eq (round_down (dec 29 1)) (of_int 2) ≡ true)
    × (eq (round_ceiling (dec 21 1)) (of_int 3) ≡ true)
    × (lt (dec 15 1 -ᵈ of_int 2) (of_int 0) ≡ true)
    × (eq (dec 10 2 *ᵈ of_int 5) (dec 5 1) ≡ true)
unfolding eq lt round_half_up round_down round_ceiling ◌-ᵈ◌ ◌*ᵈ◌
rounding = (refl, refl, refl, refl, refl)

sum_of_parts : eq (dec 25 2 +ᵈ dec 75 2) (max (of_int 1) (dec 99 2)) ≡ true
unfolding eq ◌+ᵈ◌ max lt
sum_of_parts = refl
