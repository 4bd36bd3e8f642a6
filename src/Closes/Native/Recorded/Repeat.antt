-- ===== src/Closes/Native/Recorded/Repeat.antt =====
-- A native close that is recorded a second time.
use text.Mathlib.Text.{◌==◌}
use fatty_multi_exchange_tra.Prelude.{
  String, ◌≡◌, refl, sym, subst, ap, ◌∙◌, Bool, true, false, Option, none, some, arith, any, eq_iff,
}
use fatty_multi_exchange_tra.Prelude.Raise.{Error, Result, ok, err, value_error, native_close_error}
use fatty_multi_exchange_tra.Prelude.Dict.{same_text}
use fatty_multi_exchange_tra.Prelude.Calls.{
  ◌>>=◌, ◌>>◌, pure, raise, or_else, >>=-returned, recover, choose, continue,
}
use fatty_multi_exchange_tra.Live.Values.{Runtime}
use fatty_multi_exchange_tra.Live.Record.{LiveIntentRecord}
use fatty_multi_exchange_tra.Live.Store.{LiveStore, get, claim, update, conflict, ids_conflict}
use fatty_multi_exchange_tra.Live.Store.Writes.{claim_returned, claim_again}
use fatty_multi_exchange_tra.Live.Ownership.{bind_native_close}
use fatty_multi_exchange_tra.Live.Ownership.Bindings.{with_binding, bind_returned, bind_again}
use fatty_multi_exchange_tra.Closes.Settled.{any_append, ShowsFill, update_settles}
use fatty_multi_exchange_tra.Closes.Native.{NativePlanClose, is_text}
use fatty_multi_exchange_tra.Closes.Native.Recorded.{
  close_record, claim_conflict, merged, written, known_close, known, bound, bind_close,
  reconcile_native_plan_close,
}

module _ (py : Runtime) (upper : String → String) (native : NativePlanClose) where
  -- The record shows the executed order and the fill.
  abbrev Shows : LiveIntentRecord → Type 0
  Shows = ShowsFill native.exchange (some native.executed_order_id) native.provider_fill_id

  abbrev Settled : LiveStore → Type 0
  Settled s = (r : LiveIntentRecord) × (get native.close_oid s ≡ some r) × Shows r

  written_settles :
      (r : LiveIntentRecord) (s t : LiveStore)
      → written py upper r s ≡ (ok tt, t)
      → r.client_oid ≡ native.close_oid
      → Shows r
      → Settled t
  unfolding written
  written_settles r s t done named shows = go (update py r s) refl done
    where
      go :
          (a : Result LiveIntentRecord × LiveStore)
          → update py r s ≡ a
          → continue a (λ after. pure {S = LiveStore} tt) ≡ (ok tt, t)
          → Settled t
      go (err e, u) at returned = cc
      go (ok w, u) at returned = subst Settled (ap (λ b. b.1) at ∙ ap (λ b. b.1) returned) (
          let (there, shown) =
            update_settles native.exchange (some native.executed_order_id) native.provider_fill_id
              py native.close_oid r w s (ap (λ b. b.0) at) named shows in
          (w, there, shown))

  new-Shows : Shows (close_record py upper native)
  unfolding close_record
  new-Shows = (refl, refl, ground (arith, eq_iff native.provider_fill_id native.provider_fill_id))

  unconflicted :
      (r : LiveIntentRecord) → Shows r → conflict r (close_record py upper native) ≡ false
  unfolding conflict ids_conflict close_record
  unconflicted r (exchange, order, fill) =
      rw (exchange, order)
        (ground (
          arith,
          eq_iff native.exchange native.exchange,
          eq_iff native.executed_order_id native.executed_order_id,
        ))

  -- Where the close is settled, a claim and the second look change nothing.
  settled_claim :
      (s : LiveStore)
      → Settled s
      → or_else (claim (close_record py upper native)) (claim_conflict py upper) s ≡ (ok false, s)
  settled_claim s (r, at, shows) =
      rw
        (claim_again (close_record py upper native) r s (unfold close_record in at)
          (unconflicted r shows))
        refl

  settled_known : (s : LiveStore) → Settled s → known py upper native s ≡ (ok tt, s)
  unfolding known known_close is_text
  settled_known s (r, at, (exchange, order, fill)) =
      rw (at, order, fill, same_text native.executed_order_id) refl

  same_exchange :
      (existing : LiveIntentRecord)
      → conflict existing (close_record py upper native) ≡ false
      → existing.exchange ≡ native.exchange
  unfolding conflict close_record
  same_exchange existing free = ground (arith, eq_iff existing.exchange native.exchange)

  same_order : (o : Option String) (id : String) → is_text o id ≡ true → o ≡ some id
  unfolding is_text
  same_order none id same = cc
  same_order (some j) id same = ground (arith, eq_iff j id)

  merged-Shows :
      (existing : LiveIntentRecord)
      → existing.exchange ≡ native.exchange
      → existing.provider_order_id ≡ some native.executed_order_id
      → Shows (merged py upper native existing)
  unfolding merged
  merged-Shows existing exchange order =
      (exchange, order, any_append native.provider_fill_id existing.provider_fill_ids)

  known_settles :
      (existing : LiveIntentRecord) (s t : LiveStore)
      → get native.close_oid s ≡ some existing
      → existing.exchange ≡ native.exchange
      → existing.client_oid ≡ native.close_oid
      → known_close py upper native (some existing) s ≡ (ok tt, t)
      → Settled t
  unfolding known_close
  known_settles existing s t at exchange keyed done =
      go (is_text existing.provider_order_id native.executed_order_id) refl
        (any (λ id. id == native.provider_fill_id) existing.provider_fill_ids) refl done
    where
      go :
          (b : Bool)
          → is_text existing.provider_order_id native.executed_order_id ≡ b
          → (c : Bool) → any (λ id. id == native.provider_fill_id) existing.provider_fill_ids ≡ c
          → choose b
              (choose c
                (pure {S = LiveStore} tt)
                (written py upper (merged py upper native existing)))
              (raise native_close_error)
              s
            ≡ (ok tt, t)
          → Settled t
      go false order c fill returned = cc
      go true order true fill returned = subst Settled (ap (λ b. b.1) returned) (
        existing,
        at,
        (exchange, same_order existing.provider_order_id native.executed_order_id order, fill),
      )
      go true order false fill returned =
          written_settles (merged py upper native existing) s t returned keyed (
            merged-Shows existing exchange
              (same_order existing.provider_order_id native.executed_order_id order))

  conflict_raises :
      (e : Error) (u t : LiveStore) (b : Bool) → ¬ (claim_conflict py upper e u ≡ (ok b, t))
  unfolding claim_conflict
  conflict_raises value_error u t b returned = cc
  conflict_raises e u t b returned = cc

  claimed :
      (s t : LiveStore) (b : Bool)
      → or_else (claim (close_record py upper native)) (claim_conflict py upper) s ≡ (ok b, t)
      → claim (close_record py upper native) s ≡ (ok b, t)
  unfolding claim_conflict
  claimed s t b done = go (claim (close_record py upper native) s) refl done
    where
      go :
          (r : Result Bool × LiveStore)
          → claim (close_record py upper native) s ≡ r
          → recover r (claim_conflict py upper) ≡ (ok b, t)
          → claim (close_record py upper native) s ≡ (ok b, t)
      go (err e, u) at returned = absurd (conflict_raises e u t b returned)
      go (ok c, u) at returned = at ∙ returned

  recorded :
      (s s1 s2 : LiveStore) (b : Bool)
      → ((r : LiveIntentRecord) → get native.close_oid s ≡ some r → r.client_oid ≡ native.close_oid)
      → claim (close_record py upper native) s ≡ (ok b, s1)
      → choose b (written py upper (close_record py upper native)) (known py upper native) s1
        ≡ (ok tt, s2)
      → Settled s2
  unfolding known close_record
  recorded s s1 s2 true keyed won done =
      written_settles (close_record py upper native) s1 s2 done refl new-Shows
  recorded s s1 s2 false keyed lost done =
      let (existing, at, free, same) =
        claim_returned (close_record py upper native) s s1 false lost in
      let there = ap (get native.close_oid) same ∙ at in
      known_settles existing s1 s2 there (same_exchange existing free) (keyed existing at)
        (ap (λ o. known_close py upper native o s1) (sym there) ∙ done)

  bound_returned :
      (s t : LiveStore)
      → bind_close py upper native s ≡ (ok tt, t)
      → bind_native_close native.root_oid native.close_oid native.plan_oid native.executed_order_id
          s
        ≡ ok t
  unfolding bind_close bound
  bound_returned s t done =
      go
        (bind_native_close native.root_oid native.close_oid native.plan_oid native.executed_order_id
          s)
        refl done
    where
      go :
          (r : Result LiveStore)
          → bind_native_close native.root_oid native.close_oid native.plan_oid
              native.executed_order_id s
            ≡ r
          → bound py upper r s ≡ (ok tt, t)
          → bind_native_close native.root_oid native.close_oid native.plan_oid
              native.executed_order_id s
            ≡ ok t
      go (err e) at returned = cc
      go (ok u) at returned = at ∙ ap (λ a. ok a.1) returned

  Settled-bound :
      (root_oid close_oid : String) (s : LiveStore)
      → Settled s
      → Settled (with_binding root_oid close_oid s)
  unfolding get
  Settled-bound root_oid close_oid s settled = settled

  again :
      (s t : LiveStore)
      → Settled s
      → bind_native_close native.root_oid native.close_oid native.plan_oid native.executed_order_id
          s
        ≡ ok t
      → reconcile_native_plan_close py upper native t ≡ (ok false, t)
  unfolding reconcile_native_plan_close bind_close bound
  again s t settled bound_ =
      let there =
        subst Settled
          (sym (
            bind_returned native.root_oid native.close_oid native.plan_oid native.executed_order_id
              s t bound_))
          (Settled-bound native.root_oid native.close_oid s settled) in
      rw
        (
          settled_claim t there,
          settled_known t there,
          bind_again native.root_oid native.close_oid native.plan_oid native.executed_order_id s t
              bound_,
        )
        refl

  -- A close that was recorded and bound is recorded and bound again with no change of the store,
  -- and is not reported as new. The record under the close's id, if one was there before, carries
  -- that id.
  pub reconcile_native_once :
      (s t : LiveStore) (b : Bool)
      → ((r : LiveIntentRecord) → get native.close_oid s ≡ some r → r.client_oid ≡ native.close_oid)
      → reconcile_native_plan_close py upper native s ≡ (ok b, t)
      → reconcile_native_plan_close py upper native t ≡ (ok false, t)
  unfolding reconcile_native_plan_close
  reconcile_native_once s t b keyed done =
      let claims = or_else (claim (close_record py upper native)) (claim_conflict py upper) in
      let records = λ (c : Bool).
        choose c (written py upper (close_record py upper native)) (known py upper native) in
      let binds = λ (c : Bool) (x : Unit {0}). bind_close py upper native >> pure c in
      let (c, s1, first, after) = >>=-returned claims (λ c. records c >>= binds c) s done in
      let (x, s2, second, rest) = >>=-returned (records c) (binds c) s1 after in
      let (y, u, third, last) = >>=-returned (bind_close py upper native) (λ y. pure c) s2 rest in
      again s2 t (recorded s s1 s2 c keyed (claimed s s1 c first) second)
        (bound_returned s2 t (third ∙ ap (λ a. (ok tt, a.1)) last))
