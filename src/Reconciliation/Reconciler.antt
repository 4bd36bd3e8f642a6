-- ===== src/Reconciliation/Reconciler.antt =====
-- `Reconciler` of src/fatty_trader/exchanges/bitget/reconciliation.py: one tick, by the time and the
-- venue's answers. Instants are whole microseconds. The rows carry the keys that are read, with
-- `none` for a key that is missing or None; a row's other keys are left out.
pub mod Consistency
pub mod Killing
use Prim.Native.String.{◌++◌ as append}
use text.Mathlib.Text.{◌==◌ as str_eq}
use fatty_multi_exchange_tra.Prelude.{
  ℕ, String, Bool, true, false, not, ◌&&◌, ◌||◌, Option, none, some, List, [], ◌∷◌, ◌++◌, ◌-◌, ltb,
  ◌==◌, if◌then◌else◌, any, length,
}
use fatty_multi_exchange_tra.Prelude.Texts.{contains}
use fatty_multi_exchange_tra.Prelude.Raise.{
  Error, Result, ok, err, kill_switch_trigger, raise_if, ◌>>=◌, ◌>>◌,
}

pub data ReconcilerStatus : Type 0 where
  starting healthy degraded killed : ReconcilerStatus

pub record ReconcilerConfig : Type 0 where
  pub stale_threshold : ℕ
  pub kill_on_missing_protection : Bool
  pub expected_margin_mode : String
  pub symbol : String

pub record OrderRow : Type 0 where
  pub order_id : Option String
  pub symbol : Option String
  pub role : Option String

pub record FillRow : Type 0 where
  pub order_id : Option String
  pub order_id_camel : Option String

-- What the client answers during a tick. A position is its symbol.
pub record Answers : Type 0 where
  pub margin_mode : Result String
  pub positions : Result (List (Option String))
  pub orders : Result (List OrderRow)
  pub fills : Result (List FillRow)

-- `reported` lists the statuses that the callbacks were told, the last one first.
pub record Reconciler : Type 0 where
  pub status : ReconcilerStatus
  pub last_mismatches : List String
  pub last_mismatch_count : ℕ
  pub last_tick : ℕ
  pub known_order_ids : List String
  pub reported : List ReconcilerStatus

ordinal : ReconcilerStatus → ℕ
ordinal starting = 0
ordinal healthy = 1
ordinal degraded = 2
ordinal killed = 3

-- `_set_status`
unfoldable pub set_status : ReconcilerStatus → Reconciler → Reconciler
unfolding ordinal
set_status state s =
    if ordinal state == ordinal s.status
    then s
    else record s { status = state; reported = state ∷ s.reported }

-- `register_known_order`
unfoldable pub register_known_order : String → Reconciler → Reconciler
register_known_order id s = record s { known_order_ids = id ∷ s.known_order_ids }

-- `if oid and oid not in known`
unfoldable pub is_stray : List String → Option String → Bool
is_stray known none = false
is_stray known (some id) = not (str_eq id "") && not (any (λ k. str_eq k id) known)

-- The text of a value that may be None.
shown : Option String → String
shown none = "None"
shown (some s) = s

same_symbol : Option String → Option String → Bool
same_symbol none none = true
same_symbol (some a) (some b) = str_eq a b
same_symbol _ _ = false

has_role : String → Option String → Option String → Option String → Bool
unfolding same_symbol
has_role role symbol other none = false
has_role role symbol other (some r) = same_symbol other symbol && str_eq r role

-- `{"SL", "TP"}.issubset(roles)`
unfoldable pub is_protected : List OrderRow → Option String → Bool
unfolding has_role
is_protected orders symbol =
    any (λ o. has_role "SL" symbol o.symbol o.role) orders
    && any (λ o. has_role "TP" symbol o.symbol o.role) orders

unfoldable pub stray_orders : List String → List OrderRow → List String
unfolding is_stray shown
stray_orders known [] = []
stray_orders known (o ∷ orders) =
    let rest = stray_orders known orders in
    if is_stray known o.order_id then append "unknown order " (shown o.order_id) ∷ rest else rest

unfoldable pub bare_positions : List OrderRow → List (Option String) → List String
unfolding is_protected shown
bare_positions orders [] = []
bare_positions orders (p ∷ positions) =
    let rest = bare_positions orders positions in
    if is_protected orders p
    then rest
    else append "protection missing for position " (shown p) ∷ rest

-- `fill.get("order_id") or fill.get("orderId")`
unfoldable pub fill_order : FillRow → Option String
fill_order f = first f.order_id f.order_id_camel
  where
    first : Option String → Option String → Option String
    first none other = other
    first (some id) other = if str_eq id "" then other else some id

unfoldable pub order_ids : List OrderRow → List String
order_ids [] = []
order_ids (o ∷ orders) = add o.order_id (order_ids orders)
  where
    add : Option String → List String → List String
    add none ids = ids
    add (some id) ids = id ∷ ids

unfoldable pub stray_fills : List String → List FillRow → List String
unfolding is_stray shown fill_order
stray_fills known [] = []
stray_fills known (f ∷ fills) =
    let rest = stray_fills known fills in
    if is_stray known (fill_order f)
    then append "unknown order " (append (shown (fill_order f)) " in fills") ∷ rest
    else rest

-- `_check_protection_or_kill`: a mismatch that speaks of protection ends the tick.
unfoldable pub check_protection_or_kill : ReconcilerConfig → List String → Result (Unit {0})
unfolding contains
check_protection_or_kill config mismatches =
    raise_if (config.kill_on_missing_protection && any (contains "protection") mismatches)
      kill_switch_trigger

module _ (lower : String → String) (config : ReconcilerConfig) where
  wrong_mode : String → Bool
  wrong_mode mode = not (str_eq (lower mode) config.expected_margin_mode)

  mode_mismatches : String → List String
  unfolding wrong_mode
  mode_mismatches mode = if wrong_mode mode then append "wrong margin mode: " mode ∷ [] else []

  -- `_reconcile`
  unfoldable pub reconcile : List String → Answers → Result (List String)
  unfolding wrong_mode mode_mismatches stray_orders bare_positions check_protection_or_kill
      stray_fills order_ids
  reconcile known a = do
    mode ← a.margin_mode
    raise_if (wrong_mode mode && config.kill_on_missing_protection) kill_switch_trigger
    positions ← a.positions
    orders ← a.orders
    fills ← a.fills
    let found =
          mode_mismatches mode ++ (stray_orders known orders ++ bare_positions orders positions) in
        check_protection_or_kill config found
        >> ok (found ++ stray_fills (order_ids orders ++ known) fills)

  -- `self._last_tick_seconds and now - self._last_tick_seconds > stale_threshold_seconds`
  unfoldable pub is_stale : ℕ → ℕ → Bool
  is_stale last now = not (last == 0) && ltb config.stale_threshold (now - last)

  is_kill : Error → Bool
  is_kill kill_switch_trigger = true
  is_kill _ = false

  -- `_set_status` and the fields that a tick which returns leaves.
  ticked : ℕ → List String → ReconcilerStatus → Reconciler → Reconciler
  unfolding set_status
  ticked now mismatches state s = record (set_status state s) {
    last_mismatches = mismatches;
    last_mismatch_count = length mismatches;
    last_tick = now;
  }

  status_of : List String → ReconcilerStatus
  status_of [] = healthy
  status_of _ = degraded

  settle : ℕ → Result (List String) → Reconciler → Result (Unit {0}) × Reconciler
  unfolding ticked status_of is_kill
  settle now (ok mismatches) s = (ok tt, ticked now mismatches (status_of mismatches) s)
  settle now (err e) s =
      if is_kill e
      then (err e, set_status killed s)
      else (ok tt, ticked now ("reconciliation failed" ∷ []) degraded s)

  -- `tick`
  unfoldable pub tick : ℕ → Answers → Reconciler → Result (Unit {0}) × Reconciler
  unfolding settle is_stale reconcile
  tick now a s =
      if is_stale s.last_tick now
      then (err kill_switch_trigger, set_status killed s)
      else settle now (reconcile s.known_order_ids a) s
