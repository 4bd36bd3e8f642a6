-- ===== src/Decimal.antt =====
-- Python's `decimal.Decimal` under the default context: finite values, 28 significant digits,
-- halves rounded to even. A value is `coef * 10 ^ exp`. Exponents are unbounded, so the context's
-- Overflow and Underflow signals have no counterpart, and a result may carry another exponent than
-- Python's for the same number: no modelled code reads an exponent.
pub mod Order
use fatty_multi_exchange_tra.Prelude.{
  ℕ, zero, suc, ◌+◌, ◌-◌, ◌*◌, ◌/◌, ◌%◌, ◌^◌, Bool, ◌&&◌, ltb, leb, ◌==◌, if◌then◌else◌,
}
use fatty_multi_exchange_tra.Prelude.Int.{
  ℤ, pos, negsuc, pos_part, neg_part, ltb_ℤ, leb_ℤ, sub_ℕ, abs, ◌+ℤ◌, ◌-ℤ◌, ◌*ℤ◌,
}

pub record Decimal : Type 0 where
  pub coef : ℤ
  pub exp : ℤ

-- `Decimal("0.25")` is `dec 25 2`.
abbrev pub dec : ℕ → ℕ → Decimal
dec c k = record { coef = pos c; exp = sub_ℕ 0 k }

-- `Decimal(n)` of an integer
abbrev pub of_int : ℕ → Decimal
of_int n = record { coef = pos n; exp = pos 0 }

-- The coefficient of `a` over the smaller of the two exponents.
abbrev aligned : Decimal → Decimal → ℤ
aligned a b = a.coef *ℤ pos (10 ^ pos_part (a.exp -ℤ b.exp))

abbrev lower_exp : ℤ → ℤ → ℤ
lower_exp a b = if leb_ℤ a b then a else b

-- `a < b`, `a <= b` and `a == b` compare the exact values.
unfoldable pub lt : Decimal → Decimal → Bool
unfolding ◌*ℤ◌ ◌-ℤ◌
lt a b = ltb_ℤ (aligned a b) (aligned b a)

unfoldable pub le : Decimal → Decimal → Bool
unfolding ◌*ℤ◌ ◌-ℤ◌
le a b = leb_ℤ (aligned a b) (aligned b a)

unfoldable pub eq : Decimal → Decimal → Bool
unfolding le
eq a b = le a b && le b a

-- Python's `min(a, b)` and `max(a, b)` keep the first of equal values.
unfoldable pub min : Decimal → Decimal → Decimal
min a b = if lt b a then b else a

unfoldable pub max : Decimal → Decimal → Decimal
max a b = if lt a b then b else a

-- The number of decimal digits, 1 for 0; `n` rounds are enough, since each divides `n` by 10.
digits : ℕ → ℕ → ℕ
digits zero n = 1
digits (suc fuel) n = let more = suc (digits fuel (n / 10)) in if ltb n 10 then 1 else more

-- `n` without its last `k` digits, the half rounded to even.
half_even : ℕ → ℕ → ℕ
half_even n k =
    let q = n / 10 ^ k in
    let r = n % 10 ^ k in
    if ltb (10 ^ k) (2 * r) then suc q else if 2 * r == 10 ^ k then q + q % 2 else q

abbrev precision : ℕ
precision = 28

abbrev signed : ℤ → ℕ → ℤ
signed (pos _) n = pos n
signed (negsuc _) n = sub_ℕ 0 n

-- Rounds to the context's precision.
unfoldable pub fix : Decimal → Decimal
unfolding digits half_even ◌+ℤ◌
fix a =
    let n = abs a.coef in
    let d = digits n n in
    if leb d precision then a else record {
      coef = signed a.coef (half_even n (d - precision));
      exp = a.exp +ℤ pos (d - precision);
    }

infixl 65 ◌+ᵈ◌ ◌-ᵈ◌
infixl 70 ◌*ᵈ◌ ◌/ᵈ◌
unfoldable pub ◌+ᵈ◌ : Decimal → Decimal → Decimal
unfolding fix ◌*ℤ◌ ◌-ℤ◌
a +ᵈ b = fix (record { coef = aligned a b +ℤ aligned b a; exp = lower_exp a.exp b.exp })

unfoldable pub ◌-ᵈ◌ : Decimal → Decimal → Decimal
unfolding fix ◌*ℤ◌ ◌-ℤ◌
a -ᵈ b = fix (record { coef = aligned a b -ℤ aligned b a; exp = lower_exp a.exp b.exp })

unfoldable pub ◌*ᵈ◌ : Decimal → Decimal → Decimal
unfolding fix ◌*ℤ◌
a *ᵈ b = fix (record { coef = a.coef *ℤ b.coef; exp = a.exp +ℤ b.exp })

-- A last digit of 0 or 5 is raised by one if a remainder was dropped, so that the rounding to the
-- precision sees on which side of a half the quotient lies.
sticky : ℕ → ℕ → ℕ
sticky n d = let q = n / d in if n % d == 0 then q else if q % 5 == 0 then suc q else q

-- Long division to two digits more than the precision. Every division of the modelled code is by a
-- value that a guard or a validated field makes positive; Python raises at 0.
unfoldable pub ◌/ᵈ◌ : Decimal → Decimal → Decimal
unfolding fix ◌*ℤ◌ ◌-ℤ◌ sticky
a /ᵈ b =
    let n = abs a.coef in
    let d = abs b.coef in
    let shift = pos (digits d d + precision + 1) -ℤ pos (digits n n) in
    let q = sticky (n * 10 ^ pos_part shift) (d * 10 ^ neg_part shift) in
    fix (record { coef = signed (a.coef *ℤ b.coef) q; exp = a.exp -ℤ b.exp -ℤ shift })

-- `to_integral_value(rounding=ROUND_DOWN)`: towards zero.
unfoldable pub round_down : Decimal → Decimal
round_down a =
    if leb_ℤ (pos 0) a.exp
    then a
    else record { coef = signed a.coef (abs a.coef / 10 ^ neg_part a.exp); exp = pos 0 }

-- `to_integral_value(rounding=ROUND_HALF_UP)`: to the nearest, halves away from zero.
unfoldable pub round_half_up : Decimal → Decimal
round_half_up a =
    let unit = 10 ^ neg_part a.exp in
    if leb_ℤ (pos 0) a.exp
    then a
    else record { coef = signed a.coef ((2 * abs a.coef + unit) / (2 * unit)); exp = pos 0 }

-- `to_integral_value(rounding=ROUND_CEILING)`: upwards.
unfoldable pub round_ceiling : Decimal → Decimal
round_ceiling a =
    let unit = 10 ^ neg_part a.exp in
    if leb_ℤ (pos 0) a.exp then a else record {
      coef =
          if ltb_ℤ a.coef (pos 0)
          then signed a.coef (abs a.coef / unit)
          else pos ((abs a.coef + unit - 1) / unit);
      exp = pos 0;
    }

-- `int(value)` of a value that is a whole number or more: towards zero.
unfoldable pub to_int : Decimal → ℤ
to_int a = signed a.coef (abs a.coef * 10 ^ pos_part a.exp / 10 ^ neg_part a.exp)
