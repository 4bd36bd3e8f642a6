-- ===== src/Live/Ownership/Bindings.antt =====
-- What the binding of a close to its entry writes.
use fatty_multi_exchange_tra.Prelude.{String, ◌≡◌, refl, subst, sym}
use fatty_multi_exchange_tra.Prelude.Dict.{store, store-store}
use fatty_multi_exchange_tra.Prelude.Raise.{
  ok, value_error, ok_injective, >>=-eq-ok, raise_if-eq-ok,
}
use fatty_multi_exchange_tra.Live.Store.{LiveStore, get}
use fatty_multi_exchange_tra.Live.Ownership.{bind_native_close, owned, misowned}

-- The store with the close bound to the root.
abbrev pub with_binding : String → String → LiveStore → LiveStore
with_binding root_oid close_oid s = record s {
  close_bindings = store close_oid root_oid s.close_bindings;
}

module _ (root_oid close_oid plan_oid executed : String) where
  pub bind_returned :
      (s t : LiveStore)
      → bind_native_close root_oid close_oid plan_oid executed s ≡ ok t
      → t ≡ with_binding root_oid close_oid s
  unfolding bind_native_close
  bind_returned s t done =
      let (root, a, first) = >>=-eq-ok (owned s root_oid) _ done in
      let (plan, b, second) = >>=-eq-ok (owned s plan_oid) _ first in
      let (close, c, third) = >>=-eq-ok (owned s close_oid) _ second in
      let (sound, fourth) =
        raise_if-eq-ok (misowned root_oid executed root plan close) value_error _ third in
      sym (ok_injective fourth)

  owned_bound :
      (s : LiveStore) (k : String) → owned (with_binding root_oid close_oid s) k ≡ owned s k
  unfolding owned get
  owned_bound s k = refl

  -- A binding that was made is made again with no change.
  pub bind_again :
      (s t : LiveStore)
      → bind_native_close root_oid close_oid plan_oid executed s ≡ ok t
      → bind_native_close root_oid close_oid plan_oid executed t ≡ ok t
  unfolding bind_native_close
  bind_again s t done =
      let (root, a, first) = >>=-eq-ok (owned s root_oid) _ done in
      let (plan, b, second) = >>=-eq-ok (owned s plan_oid) _ first in
      let (close, c, third) = >>=-eq-ok (owned s close_oid) _ second in
      let (sound, fourth) =
        raise_if-eq-ok (misowned root_oid executed root plan close) value_error _ third in
      subst (λ u. bind_native_close root_oid close_oid plan_oid executed u ≡ ok u)
        (ok_injective fourth)
        (rw
          (
            owned_bound s root_oid,
            a,
            owned_bound s plan_oid,
            b,
            owned_bound s close_oid,
            c,
            sound,
            store-store close_oid root_oid root_oid s.close_bindings,
          )
          refl)
