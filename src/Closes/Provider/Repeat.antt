-- ===== src/Closes/Provider/Repeat.antt =====
-- An exit of the venue that is recorded a second time.
use text.Mathlib.Text.{◌==◌}
use fatty_multi_exchange_tra.Prelude.{
  String, ◌≡◌, refl, sym, subst, ap, ◌∙◌, Bool, true, false, Option, none, some, arith, any, eq_iff,
}
use fatty_multi_exchange_tra.Prelude.Raise.{ok, provider_fill_error, ok_injective}
use fatty_multi_exchange_tra.Prelude.Calls.{◌>>=◌, pure, raise, choose, continue, >>=-returned}
use fatty_multi_exchange_tra.Prelude.Dict.{same_text}
use fatty_multi_exchange_tra.Live.Values.{Fields, Runtime}
use fatty_multi_exchange_tra.Live.Record.{LiveIntentRecord}
use fatty_multi_exchange_tra.Live.Store.{
  LiveStore, get, claim, update, conflict, ids_conflict, record_provider_event,
}
use fatty_multi_exchange_tra.Live.Store.Writes.{claim_returned, claim_again}
use fatty_multi_exchange_tra.Live.Store.Fills.{
  record_provider_event_idempotent, record_provider_event_records,
}
use fatty_multi_exchange_tra.Closes.Settled.{ShowsFill, update_settles}
use fatty_multi_exchange_tra.Closes.Facts.{ProviderExitObservation, normalize_provider_exit}
use fatty_multi_exchange_tra.Closes.Provider.{
  ProviderExitReconciliation, same_id, exit_client_oid, exit_record, replaced, known_exit, known,
  noted, observed, reconcile_provider_exit,
}

same_id_equal : (a b : Option String) → same_id a b ≡ true → a ≡ b
unfolding same_id
same_id_equal none none same = refl
same_id_equal none (some b) same = cc
same_id_equal (some a) none same = cc
same_id_equal (some a) (some b) same = ground (arith, eq_iff a b)

same_id_refl : (a : Option String) → same_id a a ≡ true
unfolding same_id
same_id_refl none = refl
same_id_refl (some a) = same_text a

no_conflict : (a : Option String) → ids_conflict a a ≡ false
unfolding ids_conflict
no_conflict none = refl
no_conflict (some a) = ground (arith, eq_iff a a)

module _ (py : Runtime) (upper digest : String → String) (o : ProviderExitObservation) where
  abbrev Shows : LiveIntentRecord → Type 0
  Shows = ShowsFill o.exchange o.provider_order_id o.provider_fill_id

  abbrev Settled : LiveStore → LiveIntentRecord → Type 0
  Settled s r = (get (exit_client_oid py upper digest o) s ≡ some r) × Shows r

  unconflicted :
      (r : LiveIntentRecord) → Shows r → conflict r (exit_record py upper digest o) ≡ false
  unfolding conflict exit_record
  unconflicted r (exchange, order, fill) =
      rw (exchange, order)
        (ground (arith, eq_iff o.exchange o.exchange, no_conflict o.provider_order_id))

  same_exchange :
      (existing : LiveIntentRecord)
      → conflict existing (exit_record py upper digest o) ≡ false
      → existing.exchange ≡ o.exchange
  unfolding conflict exit_record
  same_exchange existing free = ground (arith, eq_iff existing.exchange o.exchange)

  new-Shows : Shows (exit_record py upper digest o)
  unfolding exit_record
  new-Shows = (refl, refl, ground (arith, eq_iff o.provider_fill_id o.provider_fill_id))

  replaced-Shows :
      (existing : LiveIntentRecord)
      → existing.exchange ≡ o.exchange
      → existing.provider_order_id ≡ o.provider_order_id
      → Shows (replaced py upper digest o existing)
  unfolding replaced
  replaced-Shows existing exchange order =
      (exchange, order, ground (arith, eq_iff o.provider_fill_id o.provider_fill_id))

  update_leaves :
      (r w : LiveIntentRecord) (s t : LiveStore)
      → update py r s ≡ (ok w, t)
      → r.client_oid ≡ exit_client_oid py upper digest o
      → Shows r
      → Settled t w
  update_leaves r w s t done named shows =
      subst (λ u. Settled u w) (ap (λ b. b.1) done)
        (update_settles o.exchange o.provider_order_id o.provider_fill_id py
          (exit_client_oid py upper digest o) r w s (ap (λ b. b.0) done) named shows)

  known_settles :
      (existing w : LiveIntentRecord) (s t : LiveStore)
      → get (exit_client_oid py upper digest o) s ≡ some existing
      → existing.exchange ≡ o.exchange
      → existing.client_oid ≡ exit_client_oid py upper digest o
      → known_exit py upper digest o (some existing) s ≡ (ok w, t)
      → Settled t w
  unfolding known_exit
  known_settles existing w s t at exchange keyed done =
      go (same_id existing.provider_order_id o.provider_order_id) refl
        (any (λ id. id == o.provider_fill_id) existing.provider_fill_ids) refl done
    where
      go :
          (b : Bool)
          → same_id existing.provider_order_id o.provider_order_id ≡ b
          → (c : Bool) → any (λ id. id == o.provider_fill_id) existing.provider_fill_ids ≡ c
          → choose b
              (choose c
                (pure {S = LiveStore} existing)
                (update py (replaced py upper digest o existing)))
              (raise provider_fill_error)
              s
            ≡ (ok w, t)
          → Settled t w
      go false order c fill returned = cc
      go true order true fill returned =
          subst (λ v. Settled t v) (ok_injective (ap (λ a. a.0) returned))
            (subst (λ u. Settled u existing) (ap (λ a. a.1) returned)
              (
                at,
                (
                  exchange,
                  same_id_equal existing.provider_order_id o.provider_order_id order,
                  fill,
                ),
              ))
      go true order false fill returned =
          update_leaves (replaced py upper digest o existing) w s t returned keyed (
            replaced-Shows existing exchange
              (same_id_equal existing.provider_order_id o.provider_order_id order))

  recorded :
      (w : LiveIntentRecord) (s s1 s2 : LiveStore) (b : Bool)
      → ((r : LiveIntentRecord)
          → get (exit_client_oid py upper digest o) s ≡ some r
          → r.client_oid ≡ exit_client_oid py upper digest o)
      → claim (exit_record py upper digest o) s ≡ (ok b, s1)
      → choose b (update py (exit_record py upper digest o)) (known py upper digest o) s1
        ≡ (ok w, s2)
      → Settled s2 w
  unfolding known exit_record
  recorded w s s1 s2 true keyed won done =
      update_leaves (exit_record py upper digest o) w s1 s2 done refl new-Shows
  recorded w s s1 s2 false keyed lost done =
      let (existing, at, free, same) =
        claim_returned (exit_record py upper digest o) s s1 false lost in
      let there = ap (get (exit_client_oid py upper digest o)) same ∙ at in
      known_settles existing w s1 s2 there (same_exchange existing free) (keyed existing at)
        (ap (λ a. known_exit py upper digest o a s1) (sym there) ∙ done)

  -- The exit is settled also after its event was noted.
  Settled-noted :
      (s : LiveStore) (w : LiveIntentRecord)
      → Settled s w
      → Settled (record_provider_event o.exchange o.provider_fill_id o.source s) w
  Settled-noted s w (at, shows) = (
    record_provider_event_records o.exchange o.provider_fill_id o.source
          (exit_client_oid py upper digest o) s
        ∙ at,
    shows,
  )

  settled_claim :
      (s : LiveStore) (w : LiveIntentRecord)
      → Settled s w
      → claim (exit_record py upper digest o) s ≡ (ok false, s)
  settled_claim s w (at, shows) =
      claim_again (exit_record py upper digest o) w s (unfold exit_record in at)
        (unconflicted w shows)

  settled_known :
      (s : LiveStore) (w : LiveIntentRecord) → Settled s w → known py upper digest o s ≡ (ok w, s)
  unfolding known known_exit
  settled_known s w (at, (exchange, order, fill)) =
      rw (at, order, fill, same_id_refl o.provider_order_id) refl

  -- What a call that returned tells of the stored record.
  abbrev told : LiveIntentRecord → Bool → ProviderExitReconciliation
  told w b = record {
    source = o.source;
    client_oid = exit_client_oid py upper digest o;
    provider_order_id = o.provider_order_id;
    provider_fill_id = o.provider_fill_id;
    stored = w;
    created = b;
  }

  again :
      (w : LiveIntentRecord) (s : LiveStore)
      → Settled s w
      → observed py upper digest o (record_provider_event o.exchange o.provider_fill_id o.source s)
        ≡ (ok (told w false), record_provider_event o.exchange o.provider_fill_id o.source s)
  unfolding observed noted
  again w s settled =
      let t = record_provider_event o.exchange o.provider_fill_id o.source s in
      let there = Settled-noted s w settled in
      rw
        (
          settled_claim t w there,
          settled_known t w there,
          record_provider_event_idempotent o.exchange o.provider_fill_id o.source s,
        )
        refl

  observed_once :
      (s t : LiveStore) (out : ProviderExitReconciliation)
      → ((r : LiveIntentRecord)
          → get (exit_client_oid py upper digest o) s ≡ some r
          → r.client_oid ≡ exit_client_oid py upper digest o)
      → observed py upper digest o s ≡ (ok out, t)
      → observed py upper digest o t ≡ (ok (record out { created = false }), t)
  unfolding observed noted
  observed_once s t out keyed done =
      let claims = claim (exit_record py upper digest o) in
      let records = λ (c : Bool).
        choose c (update py (exit_record py upper digest o)) (known py upper digest o) in
      let notes = λ (c : Bool) (w : LiveIntentRecord). noted py upper digest o w c in
      let (c, s1, first, after) = >>=-returned claims (λ c. records c >>= notes c) s done in
      let (w, s2, second, last) = >>=-returned (records c) (notes c) s1 after in
      let settled = recorded w s s1 s2 c keyed first second in
      subst (λ u. observed py upper digest o u ≡ (ok (record out { created = false }), u))
        (ap (λ a. a.1) last)
        (subst
          (λ v.
            observed py upper digest o
              (record_provider_event o.exchange o.provider_fill_id o.source s2)
            ≡ (
              ok (record v { created = false }),
              record_provider_event o.exchange o.provider_fill_id o.source s2,
            ))
          (ok_injective (ap (λ a. a.0) last)) (again w s2 settled))

-- An exit of the venue that was recorded is found recorded by a second call with the same fill: it
-- tells the same record, not as new, and changes nothing in the store, the fills and the events
-- included. The record under the exit's id, if one was there before, carries that id.
pub reconcile_exit_once :
    (py : Runtime) (upper digest : String → String) (exchange : String) (payload : Fields)
    (o : ProviderExitObservation) (s t : LiveStore) (out : ProviderExitReconciliation)
    → normalize_provider_exit py upper exchange payload ≡ ok o
    → ((r : LiveIntentRecord)
        → get (exit_client_oid py upper digest o) s ≡ some r
        → r.client_oid ≡ exit_client_oid py upper digest o)
    → reconcile_provider_exit py upper digest exchange payload s ≡ (ok out, t)
    → reconcile_provider_exit py upper digest exchange payload t
      ≡ (ok (record out { created = false }), t)
unfolding reconcile_provider_exit
reconcile_exit_once py upper digest exchange payload o s t out reads keyed done =
    let first : observed py upper digest o s ≡ (ok out, t) =
      subst (λ r. continue (r, s) (observed py upper digest) ≡ (ok out, t)) reads done in
    rw reads (observed_once py upper digest o s t out keyed first)
