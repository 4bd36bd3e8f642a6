-- ===== src/Management/Venue/Positions.antt =====
-- The sides of a position that was read.
use text.Mathlib.Text.{◌==◌}
use fatty_multi_exchange_tra.Prelude.{
  String, ◌≡◌, ◌⊎◌, inl, inr, Bool, true, false, ◌||◌, Option, none, some, List, [], ◌∷◌, arith,
  eq_iff, subst, refl, if◌then◌else◌,
}
use fatty_multi_exchange_tra.Prelude.Raise.{ok, err, value_error, ok_injective, >>=-eq-ok}
use fatty_multi_exchange_tra.Live.Values.{
  Value, null, boolean, number, string, sequence, mapping, Fields, get,
}
use fatty_multi_exchange_tra.Management.Endings.{closing_side}
use fatty_multi_exchange_tra.Management.Venue.{
  Position, positive_field, side_field, position_of, one_position,
}

side_of_text :
    (s side : String)
    → (if s == "LONG" || s == "SHORT" then ok s else err value_error) ≡ ok side
    → (side ≡ "LONG") ⊎ (side ≡ "SHORT")
side_of_text s side = go (s == "LONG") refl (s == "SHORT") refl
  where
    go :
        (b : Bool)
        → s == "LONG" ≡ b
        → (c : Bool) → s == "SHORT" ≡ c
        → (if b || c then ok s else err value_error) ≡ ok side
        → (side ≡ "LONG") ⊎ (side ≡ "SHORT")
    go true long c short read = inl (ground (arith, eq_iff s "LONG"))
    go false long true short read = inr (ground (arith, eq_iff s "SHORT"))
    go false long false short read = cc

side_lem :
    (v : Option Value) (side : String) → side_field v ≡ ok side → (side ≡ "LONG") ⊎ (side ≡ "SHORT")
unfolding side_field
side_lem (some (string s)) side read = side_of_text s side read
side_lem none side read = cc
side_lem (some null) side read = cc
side_lem (some (boolean b)) side read = cc
side_lem (some (number d)) side read = cc
side_lem (some (sequence xs)) side read = cc
side_lem (some (mapping m)) side read = cc

position_side :
    (m : Fields) (p : Position) → position_of m ≡ ok p → (p.side ≡ "LONG") ⊎ (p.side ≡ "SHORT")
unfolding position_of
position_side m p read =
    let (size, a, first) = >>=-eq-ok (positive_field (get "size" m)) _ read in
    let (side, b, second) = >>=-eq-ok (side_field (get "side" m)) _ first in
    let (entry, c, third) = >>=-eq-ok (positive_field (get "entry" m)) _ second in
    subst (λ q. (q.side ≡ "LONG") ⊎ (q.side ≡ "SHORT")) (ok_injective third)
      (side_lem (get "side" m) side b)

-- The side of an order that reduces a position of the given side.
abbrev pub Closes : String → String → Type 0
Closes side order_side =
    ((side ≡ "LONG") × (order_side ≡ "SELL")) ⊎ ((side ≡ "SHORT") × (order_side ≡ "BUY"))

closing_side_lem :
    (side : String) → (side ≡ "LONG") ⊎ (side ≡ "SHORT") → Closes side (closing_side side)
unfolding closing_side
closing_side_lem side (inl long) = inl (long, ground (arith, eq_iff side "LONG"))
closing_side_lem side (inr short) = inr (short, rw short (ground (arith, eq_iff "SHORT" "LONG")))

pub one_position-Closes :
    (ms : List Fields) (p : Position) → one_position ms ≡ ok p → Closes p.side (closing_side p.side)
unfolding one_position
one_position-Closes (m ∷ []) p read = closing_side_lem p.side (position_side m p read)
one_position-Closes [] p read = cc
one_position-Closes (m ∷ n ∷ ms) p read = cc
