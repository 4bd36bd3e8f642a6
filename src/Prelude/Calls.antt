-- ===== src/Prelude/Calls.antt =====
-- Methods that read and write a state and may raise: what a method wrote before it raised stays
-- written.
use mathlib.Core.Path.{◌≡◌, refl}
use mathlib.Core.Bool.{Bool, true, false}
use fatty_multi_exchange_tra.Prelude.Raise.{Error, Result, ok, err}

-- What a method leaves: a value or an exception, and the state.
abbrev pub Call : Type 0 → Type 0 → Type 0
Call S V = S → Result V × S

abbrev pub continue : {S V W : Type 0} → Result V × S → (V → Call S W) → Result W × S
continue (err e, s) next = (err e, s)
continue (ok v, s) next = next v s

infixl 5 ◌>>=◌ ◌>>◌
abbrev pub ◌>>=◌ : {S V W : Type 0} → Call S V → (V → Call S W) → Call S W
◌>>=◌ m next s = continue (m s) next

abbrev pub ◌>>◌ : {S W : Type 0} → Call S (Unit {0}) → Call S W → Call S W
m >> next = m >>= λ passed. next

abbrev pub pure : {S V : Type 0} → V → Call S V
pure v s = (ok v, s)

abbrev pub raise : {S V : Type 0} → Error → Call S V
raise e s = (err e, s)

-- A value that was computed outside, or the exception that it raised.
abbrev pub lift : {S V : Type 0} → Result V → Call S V
lift r s = (r, s)

-- `if c: m`
abbrev pub when : {S : Type 0} → Bool → Call S (Unit {0}) → Call S (Unit {0})
when true m = m
when false m = pure tt

-- The result of a block, handed to its handler if it raised.
abbrev pub recover : {S V : Type 0} → Result V × S → (Error → Call S V) → Result V × S
recover (err e, s) handler = handler e s
recover (ok v, s) handler = (ok v, s)

-- `try: m; except Exception as e: handler e`
abbrev pub or_else : {S V : Type 0} → Call S V → (Error → Call S V) → Call S V
or_else m handler s = recover (m s) handler

-- `if c: m else: n`
abbrev pub choose : {S V : Type 0} → Bool → Call S V → Call S V → Call S V
choose true m n s = m s
choose false m n s = n s

-- A block that returned has returned from its first call.
pub >>=-returned :
    {S V W : Type 0} (m : Call S V) (next : V → Call S W) (s : S) {w : W} {t : S}
    → (m >>= next) s ≡ (ok w, t)
    → (v : V) × (u : S) × (m s ≡ (ok v, u)) × (next v u ≡ (ok w, t))
>>=-returned {S} {V} {W} m next s {w} {t} done = go (m s) refl done
  where
    go :
        (r : Result V × S)
        → m s ≡ r
        → continue r next ≡ (ok w, t)
        → (v : V) × (u : S) × (m s ≡ (ok v, u)) × (next v u ≡ (ok w, t))
    go (err e, u) at returned = cc
    go (ok v, u) at returned = (v, u, at, returned)
