-- ===== src/Closes/Native/Candidates.antt =====
-- The fills that `resolve_native_plan_close` considers, and their order.
use text.Mathlib.Text.{◌==◌}
use fatty_multi_exchange_tra.Prelude.{
  String, ◌≡◌, refl, Bool, true, false, List, [], ◌∷◌, arith, any, All, eq_iff, if◌then◌else◌,
}
use fatty_multi_exchange_tra.Prelude.Raise.{Result, ok, err}
use fatty_multi_exchange_tra.Live.Values.{
  null, boolean, number, string, sequence, mapping, Items, empty, item, Runtime,
}
use fatty_multi_exchange_tra.Live.Record.{LiveIntentRecord}
use fatty_multi_exchange_tra.Closes.Facts.{PlanCloseFill, normalize_plan_close_fill, symbol_name}
use fatty_multi_exchange_tra.Closes.Native.{
  close_side, is_candidate, add_candidate, candidates, earlier, insert_fill, latest_first,
}

module _ (py : Runtime) (upper : String → String) (intent : LiveIntentRecord) where
  -- The fill closes the entry's side of its symbol and is none of the entry's own fills.
  abbrev pub IsCandidate : PlanCloseFill → Type 0
  IsCandidate fill =
      (fill.side ≡ close_side py upper intent)
      × (any (λ id. id == fill.provider_fill_id) intent.provider_fill_ids ≡ false)

  candidate_lem :
      (fill : PlanCloseFill) → is_candidate py upper intent fill ≡ true → IsCandidate fill
  unfolding is_candidate
  candidate_lem fill passed = ground (
    arith,
    eq_iff fill.symbol (symbol_name py upper intent.symbol),
    eq_iff fill.side (close_side py upper intent),
  )

  added :
      (r : Result PlanCloseFill) (fills : List PlanCloseFill)
      → All IsCandidate fills
      → All IsCandidate (add_candidate py upper intent r fills)
  unfolding add_candidate
  added (err e) fills h = h
  added (ok fill) fills h = go (is_candidate py upper intent fill) refl
    where
      go :
          (b : Bool)
          → is_candidate py upper intent fill ≡ b
          → All IsCandidate (if b then fill ∷ fills else fills)
      go true passed = (candidate_lem fill passed, h)
      go false passed = h

  pub candidates-All : (rows : Items) → All IsCandidate (candidates py upper intent rows)
  unfolding candidates
  candidates-All empty = tt
  candidates-All (item (mapping m) rest) =
      added (normalize_plan_close_fill py upper m) (candidates py upper intent rest)
        (candidates-All rest)
  candidates-All (item null rest) = candidates-All rest
  candidates-All (item (boolean b) rest) = candidates-All rest
  candidates-All (item (number d) rest) = candidates-All rest
  candidates-All (item (string s) rest) = candidates-All rest
  candidates-All (item (sequence s) rest) = candidates-All rest

  insert_fill-All :
      (a : PlanCloseFill) (fills : List PlanCloseFill)
      → IsCandidate a
      → All IsCandidate fills
      → All IsCandidate (insert_fill py upper a fills)
  unfolding insert_fill
  insert_fill-All a [] h rest = (h, tt)
  insert_fill-All a (b ∷ fills) h (first, rest) =
      go (earlier py upper a b) (first, insert_fill-All a fills h rest)
    where
      go :
          (c : Bool)
          → All IsCandidate (b ∷ insert_fill py upper a fills)
          → All IsCandidate (if c then b ∷ insert_fill py upper a fills else a ∷ b ∷ fills)
      go true placed = placed
      go false placed = (h, (first, rest))

  pub latest_first-All :
      (fills : List PlanCloseFill)
      → All IsCandidate fills
      → All IsCandidate (latest_first py upper fills)
  unfolding latest_first
  latest_first-All [] h = tt
  latest_first-All (a ∷ fills) (first, rest) =
      insert_fill-All a (latest_first py upper fills) first (latest_first-All fills rest)
