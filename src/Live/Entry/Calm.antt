-- ===== src/Live/Entry/Calm.antt =====
-- Calls that post no entry order and lose no intent, and how they compose.
pub mod Steps
use text.Mathlib.Text.{◌==◌}
use fatty_multi_exchange_tra.Prelude.{
  String, ◌≡◌, refl, Bool, true, false, not, Option, none, some, ◌∷◌, arith, is_some, map,
}
use fatty_multi_exchange_tra.Prelude.Int.{ℤ}
use fatty_multi_exchange_tra.Prelude.Raise.{Error, Result, ok, err, setup_error, lookup_error}
use fatty_multi_exchange_tra.Prelude.Calls.{Call, ◌>>=◌, pure, raise, lift, choose, continue}
use fatty_multi_exchange_tra.Decimal.{Decimal}
use fatty_multi_exchange_tra.Protection.Orders.{ProtectionPlan, ProtectionReport, protection_plan}
use fatty_multi_exchange_tra.Live.Values.{Fields, Runtime}
use fatty_multi_exchange_tra.Live.Fills.{normalize_fill}
use fatty_multi_exchange_tra.Live.Record.{LiveIntentRecord}
use fatty_multi_exchange_tra.Live.Store.{get, save, update}
use fatty_multi_exchange_tra.Live.Store.Writes.{update_keeps, save_keeps}
use fatty_multi_exchange_tra.Live.Effects.{
  LiveEntryRequest, Event, Log, Client, World, read, act, stored, posts,
}
use fatty_multi_exchange_tra.Live.Results.{
  LiveEntryResult, show_ℤ, needs_protection, is_unknown, read_record, plan_of,
}
use fatty_multi_exchange_tra.Live.Entry.{
  read_pre_entry_state, ensure_isolated_margin_and_leverage, persist_readback, read_back,
  read_found, reconcile_by_client_oid, send_alert, emergency_close, after_report, protect,
  install_protection, settled, write_settled, settle, maybe_protect, resume, after_post,
  accepted_intent,
}

-- No entry order with the client id was posted between the two worlds, and an intent that was
-- stored under it still is.
abbrev pub Keeps : String → World → World → Type 0
Keeps k w u =
    (posts k u.log ≡ posts k w.log)
    × (is_some (get k w.store) ≡ true → is_some (get k u.store) ≡ true)

-- A call that keeps both from every world, whatever it answers.
unfoldable pub IsCalm : {A : Type 0} → String → Call World A → Type 0
IsCalm k m = (w : World) → Keeps k w (m w).1

module _ (k : String) where
  Keeps-trans : (u v w : World) → Keeps k u v → Keeps k v w → Keeps k u w
  Keeps-trans u v w first second = ground arith

  pub pure-IsCalm : {A : Type 0} (a : A) → IsCalm k (pure {S = World} a)
  unfolding IsCalm
  pure-IsCalm a w = (refl, λ h. h)

  pub bind-IsCalm :
      {A B : Type 0} (m : Call World A) (next : A → Call World B)
      → IsCalm k m
      → ((a : A) → IsCalm k (next a))
      → IsCalm k (m >>= next)
  unfolding IsCalm
  bind-IsCalm m next first second w = go (m w) (first w)
    where
      go : (r : Result _ × World) → Keeps k w r.1 → Keeps k w (continue r next).1
      go (err e, u) first_kept = first_kept
      go (ok a, u) first_kept = Keeps-trans w u (next a u).1 first_kept (second a u)

  pub read-IsCalm : {A : Type 0} (answer : Log → Result A) → IsCalm k (read answer)
  unfolding IsCalm
  read-IsCalm answer w = (refl, λ h. h)

  pub raise-IsCalm : (A : Type 0) (e : Error) → IsCalm k (raise {S = World} {V = A} e)
  unfolding IsCalm
  raise-IsCalm A e w = (refl, λ h. h)

  pub lift-IsCalm : {A : Type 0} (r : Result A) → IsCalm k (lift {S = World} r)
  unfolding IsCalm
  lift-IsCalm r w = (refl, λ h. h)

  pub choose-IsCalm :
      {A : Type 0} (b : Bool) (m n : Call World A)
      → IsCalm k m
      → IsCalm k n
      → IsCalm k (choose b m n)
  unfolding IsCalm
  choose-IsCalm true m n mc nc = mc
  choose-IsCalm false m n mc nc = nc

  -- An event that is no entry order with the id.
  pub act-IsCalm :
      {A : Type 0} (event : Event) (answer : Log → Result A)
      → ((log : Log) → posts k (event ∷ log) ≡ posts k log)
      → IsCalm k (act event answer)
  unfolding IsCalm
  act-IsCalm event answer same w = (same w.log, λ h. h)

  pub update-IsCalm : (py : Runtime) (r : LiveIntentRecord) → IsCalm k (stored (update py r))
  unfolding IsCalm
  update-IsCalm py r w = (refl, update_keeps py k r w.store)

  pub save-IsCalm : (r : LiveIntentRecord) → IsCalm k (stored (save r))
  unfolding IsCalm
  save-IsCalm r w = (refl, save_keeps k r w.store)

  pub written-IsCalm :
      {A : Type 0} (py : Runtime) (r : LiveIntentRecord) (next : LiveIntentRecord → Call World A)
      → ((written : LiveIntentRecord) → IsCalm k (next written))
      → IsCalm k (stored (update py r) >>= next)
  written-IsCalm py r next after =
      bind-IsCalm (stored (update py r)) next (update-IsCalm py r) after
