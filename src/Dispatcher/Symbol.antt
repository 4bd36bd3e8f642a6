-- ===== src/Dispatcher/Symbol.antt =====
-- `_bitget_symbol` of src/fatty_trader/execution/bitget_dispatcher.py, of a token that
-- `upper().strip()` has treated already.
use Prim.Native.String.{String, ◌++◌}
use text.Mathlib.Text.{◌==◌}
use fatty_multi_exchange_tra.Prelude.{Bool, ◌||◌, Option, none, some, List, [], ◌∷◌, if◌then◌else◌}
use fatty_multi_exchange_tra.Prelude.Raise.{Result, ok, err, value_error}

-- `_BITGET_SYMBOL_ALIASES`
abbrev aliases : List (String × String)
aliases =
    ("BONK", "1000BONKUSDT")
    ∷ ("BONKUSDT", "1000BONKUSDT")
    ∷ ("SATS", "1000SATSUSDT")
    ∷ ("SATSUSDT", "1000SATSUSDT")
    ∷ ("RATS", "1000RATSUSDT")
    ∷ ("RATSUSDT", "1000RATSUSDT")
    ∷ ("CAT", "1000CATUSDT")
    ∷ ("CATUSDT", "1000CATUSDT")
    ∷ ("XEC", "1000XECUSDT")
    ∷ ("XECUSDT", "1000XECUSDT")
    ∷ ("MOG", "1000000MOGUSDT")
    ∷ ("MOGUSDT", "1000000MOGUSDT")
    ∷ ("1000PEPE", "PEPEUSDT")
    ∷ ("1000PEPEUSDT", "PEPEUSDT")
    ∷ ("100PEPE", "PEPEUSDT")
    ∷ ("100PEPEUSDT", "PEPEUSDT")
    ∷ ("1000SHIB", "SHIBUSDT")
    ∷ ("1000SHIBUSDT", "SHIBUSDT")
    ∷ ("1000FLOKI", "FLOKIUSDT")
    ∷ ("1000FLOKIUSDT", "FLOKIUSDT")
    ∷ ("1000LUNC", "LUNCUSDT")
    ∷ ("1000LUNCUSDT", "LUNCUSDT")
    ∷ ("1000BABYDOGE", "BABYDOGEUSDT")
    ∷ ("1000BABYDOGEUSDT", "BABYDOGEUSDT")
    ∷ []

lookup : String → List (String × String) → Option String
lookup k [] = none
lookup k ((j, v) ∷ rest) = if j == k then some v else lookup k rest

-- `text.endswith(suffix)`
unfoldable pub ends_with : String → String → Bool
ends_with suffix String.[] = suffix == ""
ends_with suffix (String.◌∷◌ c s) = suffix == String.◌∷◌ c s || ends_with suffix s

with_quote : String → String
unfolding ends_with
with_quote s = if ends_with "USDT" s then s else s ++ "USDT"

or_alias : String → Option String → String
unfolding with_quote
or_alias s none = with_quote s
or_alias s (some symbol) = symbol

unfoldable pub bitget_symbol : String → Result String
unfolding lookup or_alias
bitget_symbol s = if s == "" then err value_error else ok (or_alias s (lookup s aliases))
