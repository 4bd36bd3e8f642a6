-- ===== src/Management/Executor/Names.antt =====
-- The client ids of an update's provider calls.
use Prim.Native.Char.{code}
use Prim.Native.String.{◌++◌}
use text.Mathlib.TextLemmas.{cons-append, append_cancel_left, append_cancel_right}
use fatty_multi_exchange_tra.Prelude.{ℕ, String, ◌≡◌, refl, ap, sym, ◌∙◌, ◌⊎◌, inl, inr, arith}
use fatty_multi_exchange_tra.Management.Endings.{close_oid, sl_oid}

-- One of the two client ids of the update.
abbrev pub IsOid : String → String → Type 0
IsOid id k = (k ≡ close_oid id) ⊎ (k ≡ sl_oid id)

-- The code of the last character.
last_code : ℕ → String → ℕ
last_code c String.[] = c
last_code c (String.◌∷◌ d s) = last_code (code d) s

last_code-sl : (id : String) (c : ℕ) → last_code c (id ++ "-sl") ≡ 108
unfolding last_code
last_code-sl String.[] c = refl
last_code-sl (String.◌∷◌ d s) c = rw (cons-append d s "-sl") (last_code-sl s (code d))

last_code-close : (id : String) (c : ℕ) → last_code c (id ++ "-close") ≡ 101
unfolding last_code
last_code-close String.[] c = refl
last_code-close (String.◌∷◌ d s) c = rw (cons-append d s "-close") (last_code-close s (code d))

close_is_not_sl : (i j : String) → i ++ "-close" ≡ j ++ "-sl" → ⊥
close_is_not_sl i j same =
    omega (arith, last_code-close i 0, last_code-sl j 0, ap (last_code 0) same)

-- A client id belongs to one update at most.
pub owner_unique : (i j k : String) → IsOid i k → IsOid j k → i ≡ j
owner_unique i j k (inl p) (inl q) =
    append_cancel_right i j "-close"
      (append_cancel_left "source-management-" (i ++ "-close") (j ++ "-close") (sym p ∙ q))
owner_unique i j k (inr p) (inr q) =
    append_cancel_right i j "-sl"
      (append_cancel_left "source-management-" (i ++ "-sl") (j ++ "-sl") (sym p ∙ q))
owner_unique i j k (inl p) (inr q) = absurd (
    close_is_not_sl i j
      (append_cancel_left "source-management-" (i ++ "-close") (j ++ "-sl") (sym p ∙ q)))
owner_unique i j k (inr p) (inl q) = absurd (
    close_is_not_sl j i
      (append_cancel_left "source-management-" (j ++ "-close") (i ++ "-sl") (sym q ∙ p)))
