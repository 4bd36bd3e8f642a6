-- ===== src/Closes/Native/Owned.antt =====
-- The entry and the plan of a close that is resolved.
use text.Mathlib.Text.{◌==◌}
use fatty_multi_exchange_tra.Prelude.{
  String, ◌≡◌, refl, subst, ◌∙◌, ◌⊎◌, inl, inr, Bool, true, false, not, ◌||◌, Option, none, some,
  List, [], ◌∷◌, arith, any, All, eq_iff, if◌then◌else◌,
}
use fatty_multi_exchange_tra.Decimal.{le}
use fatty_multi_exchange_tra.Domain.Models.{zero_dec}
use fatty_multi_exchange_tra.Live.Values.{
  Value, null, boolean, number, string, sequence, mapping, Runtime,
}
use fatty_multi_exchange_tra.Live.Record.{LiveIntentRecord}
use fatty_multi_exchange_tra.Closes.Facts.{PlanCloseFill}
use fatty_multi_exchange_tra.Closes.Native.{
  NativePlanClose, Answers, is_text, is_plan, answered, order_client_oid, close_side, candidates,
  latest_first, owns, native_of, close_by, close_named, close_of, first_close, close_among,
  read_rows, resolve_native_plan_close, native_close_oid,
}
use fatty_multi_exchange_tra.Closes.Native.Candidates.{
  IsCandidate, candidates-All, latest_first-All,
}

some_injective : {A : Type 0} {a b : A} → some a ≡ some b → a ≡ b
some_injective same = cc

module _ (py : Runtime) (upper : String → String) (intent : LiveIntentRecord) where
  module _ (answers : Answers) where
    -- A close with the parts of the proof that it is the entry's own: the executed order names a
    -- stop or a target that the entry placed, and the fill is on the closing side and is none of
    -- the entry's own.
    abbrev pub IsOwn : NativePlanClose → Type 0
    IsOwn native =
        (plan : LiveIntentRecord) × (oid : String) × (order_client_oid py upper
            (answered (answers.read_order_detail intent.symbol native.executed_order_id))
          ≡ some oid)
        × (answers.plan_owner oid ≡ some plan)
        × ((plan.role ≡ "SL") ⊎ (plan.role ≡ "TP"))
        × (plan.protection_root_oid ≡ some intent.client_oid)
        × (plan.provider_order_id ≡ some oid)
        × (native.plan_oid ≡ plan.client_oid)
        × (native.root_oid ≡ intent.client_oid)
        × (native.close_oid ≡ native_close_oid intent.client_oid)
        × (native.side ≡ close_side py upper intent)
        × (any (λ id. id == native.provider_fill_id) intent.provider_fill_ids ≡ false)

    role_of :
        (plan : LiveIntentRecord) → is_plan plan ≡ true → (plan.role ≡ "SL") ⊎ (plan.role ≡ "TP")
    unfolding is_plan
    role_of plan passed = go (plan.role == "SL") refl (plan.role == "TP") refl passed
      where
        go :
            (b : Bool)
            → plan.role == "SL" ≡ b
            → (c : Bool) → plan.role == "TP" ≡ c
            → (b || c) ≡ true
            → (plan.role ≡ "SL") ⊎ (plan.role ≡ "TP")
        go true stop c target one = inl (ground (arith, eq_iff plan.role "SL"))
        go false stop true target one = inr (ground (arith, eq_iff plan.role "TP"))
        go false stop false target one = cc

    owner_of : (o : Option String) (id : String) → is_text o id ≡ true → o ≡ some id
    unfolding is_text
    owner_of none id same = cc
    owner_of (some j) id same = ground (arith, eq_iff j id)

    unnamed :
        (fill : PlanCloseFill) (native : NativePlanClose)
        → ¬ (close_named py upper answers intent fill none ≡ some native)
    unfolding close_named
    unnamed fill native found = cc

    unowned :
        (fill : PlanCloseFill) (oid : String) (native : NativePlanClose)
        → ¬ (close_by py upper answers intent fill oid none ≡ some native)
    unfolding close_by
    unowned fill oid native found = cc

    -- What the tests of a plan's owner tell.
    owns_lem :
        (oid : String) (plan : LiveIntentRecord)
        → owns py upper intent oid plan ≡ true
        → (is_plan plan ≡ true)
          × (is_text plan.protection_root_oid intent.client_oid ≡ true)
          × (is_text plan.provider_order_id oid ≡ true)
    unfolding owns
    owns_lem oid plan passed = ground arith

    chosen :
        (fill : PlanCloseFill) (oid : String) (plan : LiveIntentRecord) (native : NativePlanClose)
        → IsCandidate py upper intent fill
        → order_client_oid py upper
            (answered (answers.read_order_detail intent.symbol fill.provider_order_id))
          ≡ some oid
        → answers.plan_owner oid ≡ some plan
        → (b : Bool) → owns py upper intent oid plan ≡ b
        → (if b then some (native_of py upper intent fill plan) else none) ≡ some native
        → IsOwn native
    unfolding native_of
    chosen fill oid plan native candidate named at false passed by = cc
    chosen fill oid plan native (side, fresh) named at true passed by =
        let (kind, root, order) = owns_lem oid plan passed in
        subst IsOwn (some_injective by) (
          plan,
          oid,
          named,
          at,
          role_of plan kind,
          owner_of plan.protection_root_oid intent.client_oid root,
          owner_of plan.provider_order_id oid order,
          refl,
          refl,
          refl,
          side,
          fresh,
        )

    close_of-IsOwn :
        (fill : PlanCloseFill) (native : NativePlanClose)
        → IsCandidate py upper intent fill
        → close_of py upper answers intent fill ≡ some native
        → IsOwn native
    unfolding close_of
    close_of-IsOwn fill native candidate found =
        go
          (order_client_oid py upper
            (answered (answers.read_order_detail intent.symbol fill.provider_order_id)))
          refl found
      where
        owned :
            (oid : String)
            → order_client_oid py upper
                (answered (answers.read_order_detail intent.symbol fill.provider_order_id))
              ≡ some oid
            → (o : Option LiveIntentRecord) → answers.plan_owner oid ≡ o
            → close_by py upper answers intent fill oid o ≡ some native
            → IsOwn native
        owned oid named none at by = absurd (unowned fill oid native by)
        owned oid named (some plan) at by =
            chosen fill oid plan native candidate named at (owns py upper intent oid plan) refl
              (unfold close_by in by)

        go :
            (o : Option String)
            → order_client_oid py upper
                (answered (answers.read_order_detail intent.symbol fill.provider_order_id))
              ≡ o
            → close_named py upper answers intent fill o ≡ some native
            → IsOwn native
        go none named by = absurd (unnamed fill native by)
        go (some oid) named by =
            owned oid named (answers.plan_owner oid) refl (unfold close_named in by)

    first_close-IsOwn :
        (fills : List PlanCloseFill) (native : NativePlanClose)
        → All (IsCandidate py upper intent) fills
        → first_close py upper answers intent fills ≡ some native
        → IsOwn native
    unfolding first_close
    first_close-IsOwn [] native candidates_ found = cc
    first_close-IsOwn (fill ∷ fills) native (candidate, rest) found =
        go (close_of py upper answers intent fill) refl found (first_close-IsOwn fills native rest)
      where
        go :
            (o : Option NativePlanClose)
            → close_of py upper answers intent fill ≡ o
            → elim o as (λ x. Option NativePlanClose) [
              | none ↦ first_close py upper answers intent fills
              | some c ↦ some c
            ]
              ≡ some native
            → (first_close py upper answers intent fills ≡ some native → IsOwn native)
            → IsOwn native
        go none at by later = later by
        go (some c) at by later = close_of-IsOwn fill native candidate (at ∙ by)

    close_among-IsOwn :
        (rows : Option Value) (native : NativePlanClose)
        → close_among py upper answers intent rows ≡ some native
        → IsOwn native
    unfolding close_among
    close_among-IsOwn (some (sequence rows)) native found =
        first_close-IsOwn (latest_first py upper (candidates py upper intent rows)) native
          (latest_first-All py upper intent (candidates py upper intent rows)
            (candidates-All py upper intent rows))
          found
    close_among-IsOwn none native found = cc
    close_among-IsOwn (some null) native found = cc
    close_among-IsOwn (some (boolean b)) native found = cc
    close_among-IsOwn (some (number d)) native found = cc
    close_among-IsOwn (some (string s)) native found = cc
    close_among-IsOwn (some (mapping m)) native found = cc

    -- A native close that is resolved for an intent belongs to a filled entry, and the venue's
    -- detail of the executed order names a stop or a target plan that stands under the entry's root
    -- with that provider id. The fill is on the entry's closing side and is none of its own fills.
    pub resolved_close-IsOwn :
        (native : NativePlanClose)
        → resolve_native_plan_close py upper answers intent ≡ some native
        → (intent.role ≡ "ENTRY") × (le intent.filled_qty zero_dec ≡ false) × IsOwn native
    unfolding resolve_native_plan_close
    resolved_close-IsOwn native found =
        go (intent.role == "ENTRY") refl (le intent.filled_qty zero_dec) refl found
      where
        among : Option NativePlanClose
        among =
            close_among py upper answers intent
              (read_rows py upper answers (answers.read_fills intent.symbol))

        go :
            (b : Bool)
            → intent.role == "ENTRY" ≡ b
            → (c : Bool) → le intent.filled_qty zero_dec ≡ c
            → (if not b || c then none else among) ≡ some native
            → (intent.role ≡ "ENTRY") × (le intent.filled_qty zero_dec ≡ false) × IsOwn native
        go false entry c filled by = cc
        go true entry true filled by = cc
        go true entry false filled by = (
          ground (arith, eq_iff intent.role "ENTRY"),
          filled,
          close_among-IsOwn (read_rows py upper answers (answers.read_fills intent.symbol)) native
              by,
        )
