-- ===== src/Live/Entry/Ends.antt =====
-- Calls of the live lane by what they return, and how they compose.
use fatty_multi_exchange_tra.Prelude.{◌≡◌, sym, subst, Bool, true, false}
use fatty_multi_exchange_tra.Prelude.Raise.{Error, Result, ok, err}
use fatty_multi_exchange_tra.Prelude.Calls.{Call, ◌>>=◌, ◌>>◌, pure, raise, choose, continue}
use fatty_multi_exchange_tra.Live.Effects.{Log, World}

abbrev pub Returned : {A : Type 0} → (A → Log → Type 0) → Result A × World → Type 0
Returned P (err e, w) = Unit {0}
Returned P (ok a, w) = P a w.log

-- A call that returns ends so.
unfoldable pub EndsIn : {A : Type 0} → (A → Log → Type 0) → Call World A → Type 0
EndsIn P m = (w : World) → Returned P (m w)

pub bind-EndsIn :
    {A B : Type 0} (P : B → Log → Type 0) (m : Call World A) (next : A → Call World B)
    → ((a : A) → EndsIn P (next a))
    → EndsIn P (m >>= next)
unfolding EndsIn
bind-EndsIn P m next after w = go (m w)
  where
    go : (r : Result _ × World) → Returned P (continue r next)
    go (err e, u) = tt
    go (ok a, u) = after a u

pub choose-EndsIn :
    {A : Type 0} (P : A → Log → Type 0) (b : Bool) (m n : Call World A)
    → EndsIn P m
    → EndsIn P n
    → EndsIn P (choose b m n)
unfolding EndsIn
choose-EndsIn P true m n first second = first
choose-EndsIn P false m n first second = second

-- What the first call returns is known of the value that the second one takes.
pub known-EndsIn :
    {A B : Type 0} (Q : A → Type 0) (P : B → Log → Type 0) (m : Call World A)
    (next : A → Call World B)
    → EndsIn (λ a log. Q a) m
    → ((a : A) → Q a → EndsIn P (next a))
    → EndsIn P (m >>= next)
unfolding EndsIn
known-EndsIn Q P m next first after w = go (m w) (first w)
  where
    go : (x : Result _ × World) → Returned (λ a log. Q a) x → Returned P (continue x next)
    go (err e, u) known = tt
    go (ok a, u) known = after a known u

pub raise-EndsIn : {A : Type 0} (P : A → Log → Type 0) (e : Error) → EndsIn P (raise {S = World} e)
unfolding EndsIn
raise-EndsIn P e w = tt

-- A call that leaves the log alone, and then a value.
pub log_then :
    {A : Type 0} (P : A → Log → Type 0) (m : Call World (Unit {0})) (a : A) (w : World)
    → (m w).1.log ≡ w.log
    → P a w.log
    → Returned P ((m >> pure a) w)
log_then P m a w same holds = go (m w) same
  where
    go :
        (x : Result (Unit {0}) × World) → x.1.log ≡ w.log → Returned P (continue x λ passed. pure a)
    go (err e, u) kept = tt
    go (ok _, u) kept = subst (P a) (sym kept) holds
