-- ===== src/Live/Values.antt =====
-- The values of the venue's answers, `dict[str, Any]`, and the look-ups that the live lane makes in
-- them: src/fatty_trader/exchanges/bitget/live.py.
use text.Mathlib.Text.{◌==◌}
use fatty_multi_exchange_tra.Prelude.{
  String, Bool, true, false, not, Option, none, some, List, [], ◌∷◌, if◌then◌else◌,
}
use fatty_multi_exchange_tra.Prelude.Int
use fatty_multi_exchange_tra.Prelude.Int.{pos}
use fatty_multi_exchange_tra.Decimal.{Decimal, eq, fix}
use fatty_multi_exchange_tra.Domain.Models.{zero_dec}

mutual
  -- A number carries the value of its text.
  pub data Value : Type 0 where
    null : Value
    boolean : Bool → Value
    number : Decimal → Value
    string : String → Value
    sequence : Items → Value
    mapping : Fields → Value

  pub data Items : Type 0 where
    empty : Items
    item : Value → Items → Items

  pub data Fields : Type 0 where
    end : Fields
    field : String → Value → Fields → Fields

-- What Python's library brings: `Decimal(s)`, where it is a finite number, `str(value)` and
-- `json.loads(s)`, where it raises nothing.
pub record Runtime : Type 0 where
  pub parse : String → Option Decimal
  pub str : Value → String
  pub loads : String → Option Value
  pub lower : String → String
  pub strip : String → String

unfoldable pub get : String → Fields → Option Value
get k end = none
get k (field j v rest) = if j == k then some v else get k rest

or_else : Option Value → Value → Value
or_else none d = d
or_else (some v) d = v

-- `m.get(k, m.get(j, ... default))`
unfoldable pub get_first : List String → Fields → Value → Value
unfolding get or_else
get_first [] m default = default
get_first (k ∷ ks) m default = or_else (get k m) (get_first ks m default)

-- `m[k] = v`
unfoldable pub set : String → Value → Fields → Fields
set k v end = field k v end
set k v (field j w rest) =
    let more = set k v rest in if j == k then field k v rest else field j w more

-- `_to_decimal`: the other values have no text that is a number.
unfoldable pub to_decimal : Runtime → Value → Option Decimal
to_decimal py (number d) = some d
to_decimal py (string s) = py.parse s
to_decimal py _ = none

-- `if value`
unfoldable pub truthy : Value → Bool
truthy null = false
truthy (boolean b) = b
truthy (number d) = not (eq d zero_dec)
truthy (string s) = not (s == "")
truthy (sequence empty) = false
truthy (sequence _) = true
truthy (mapping end) = false
truthy (mapping _) = true

-- `d or Decimal("0")`
unfoldable pub or_zero : Option Decimal → Decimal
or_zero none = zero_dec
or_zero (some d) = d

-- `abs(d)`, rounded to the context's precision.
unfoldable pub abs : Decimal → Decimal
unfolding fix
abs d = fix (record d { coef = pos (Int.abs d.coef) })
