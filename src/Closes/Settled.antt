-- ===== src/Closes/Settled.antt =====
-- Stored records that show a venue's order and fill.
use text.Mathlib.Text.{◌==◌}
use fatty_multi_exchange_tra.Prelude.{
  String, ◌≡◌, sym, subst, ◌∙◌, true, Option, some, List, [], ◌∷◌, ◌++◌, arith, any, eq_iff,
}
use fatty_multi_exchange_tra.Prelude.Raise.{ok}
use fatty_multi_exchange_tra.Live.Values.{Runtime}
use fatty_multi_exchange_tra.Live.Record.{LiveIntentRecord}
use fatty_multi_exchange_tra.Live.Store.{LiveStore, get, update}
use fatty_multi_exchange_tra.Live.Store.Writes.{get-update, update_fields}

pub any_append : (id : String) (ids : List String) → any (λ j. j == id) (ids ++ (id ∷ [])) ≡ true
any_append id [] = ground (arith, eq_iff id id)
any_append id (j ∷ ids) = ground (arith, any_append id ids)

module _ (exchange : String) (order : Option String) (fill : String) where
  abbrev pub ShowsFill : LiveIntentRecord → Type 0
  ShowsFill r =
      (r.exchange ≡ exchange)
      × (r.provider_order_id ≡ order)
      × (any (λ id. id == fill) r.provider_fill_ids ≡ true)

  -- The record that an update of it answers is stored, and shows what the record did.
  pub update_settles :
      (py : Runtime) (k : String) (r w : LiveIntentRecord) (s : LiveStore)
      → (update py r s).0 ≡ ok w
      → r.client_oid ≡ k
      → ShowsFill r
      → (get k (update py r s).1 ≡ some w) × ShowsFill w
  update_settles py k r w s done named (at_exchange, at_order, at_fill) =
      let (same_exchange, same_order, same_fills) = update_fields py r w s done in
      (
        ground (arith, get-update py k r w s done, eq_iff r.client_oid k),
        (
          same_exchange ∙ at_exchange,
          same_order ∙ at_order,
          subst (λ ids. any (λ id. id == fill) ids ≡ true) (sym same_fills) at_fill,
        ),
      )
