-- ===== src/Management/Executor/Stored/Calls.antt =====
-- The calls of a run that leave the stored updates as they are.
use fatty_multi_exchange_tra.Prelude.{String, refl, Bool, Option, none, some, arith}
use fatty_multi_exchange_tra.Prelude.Raise.{Result}
use fatty_multi_exchange_tra.Prelude.Calls.{lift}
use fatty_multi_exchange_tra.Decimal.{Decimal}
use fatty_multi_exchange_tra.Management.Updates.{SourceManagementUpdate, persist_provider_intent}
use fatty_multi_exchange_tra.Management.Venue.{
  entries_cancelled, Event, Log, World, Position, read, act, stored,
}
use fatty_multi_exchange_tra.Management.Endings.{Executor}
use fatty_multi_exchange_tra.Management.Executor.{
  positions, cancelled, retire_reads, require_eligible, close_position, replace_stop, claim_intent,
  tp1_quantity,
}
use fatty_multi_exchange_tra.Management.Executor.Stored.{LeavesUpdates}

persist-LeavesUpdates : (id oid : String) → LeavesUpdates (stored (persist_provider_intent id oid))
unfolding LeavesUpdates persist_provider_intent
persist-LeavesUpdates id oid w = ground arith

pub act-LeavesUpdates :
    {A : Type 0} (event : Event) (answer : Log → Result A) → LeavesUpdates (act event answer)
unfolding LeavesUpdates
act-LeavesUpdates event answer w = refl

read-LeavesUpdates : {A : Type 0} (answer : Log → Result A) → LeavesUpdates (read answer)
unfolding LeavesUpdates
read-LeavesUpdates answer w = refl

pub lift-LeavesUpdates : {A : Type 0} (r : Result A) → LeavesUpdates (lift {S = World} r)
unfolding LeavesUpdates
lift-LeavesUpdates r w = refl

module _ (ex : Executor) (u : SourceManagementUpdate) where
  pub positions-LeavesUpdates : LeavesUpdates (positions ex u)
  unfolding positions
  positions-LeavesUpdates = read-LeavesUpdates (ex.gateway.get_positions u.symbol)

  pub cancelled-LeavesUpdates : (b : Bool) → LeavesUpdates (cancelled ex u b)
  unfolding cancelled
  cancelled-LeavesUpdates b =
      act-LeavesUpdates (entries_cancelled u.symbol u.id b)
        (ex.gateway.cancel_pending_entries u.symbol u.id b)

  pub require_eligible-LeavesUpdates : LeavesUpdates (require_eligible ex u)
  unfolding require_eligible LeavesUpdates
  require_eligible-LeavesUpdates w = ground arith

  pub tp1_quantity-LeavesUpdates :
      (o : Option (String → Decimal → Log → Result Decimal)) (size : Decimal)
      → LeavesUpdates (tp1_quantity ex u o size)
  unfolding tp1_quantity LeavesUpdates
  tp1_quantity-LeavesUpdates none size w = refl
  tp1_quantity-LeavesUpdates (some normalizer) size w = refl

  pub close_position-LeavesUpdates :
      (p : Position) (q : Decimal) → LeavesUpdates (close_position ex u p q)
  unfolding close_position
  close_position-LeavesUpdates p q = act-LeavesUpdates _ _

  pub replace_stop-LeavesUpdates : (p : Position) → LeavesUpdates (replace_stop ex u p)
  unfolding replace_stop
  replace_stop-LeavesUpdates p = act-LeavesUpdates _ _

  pub claim_intent-LeavesUpdates : (oid : String) → LeavesUpdates (claim_intent ex u oid)
  unfolding claim_intent
  claim_intent-LeavesUpdates oid = persist-LeavesUpdates u.id oid

  pub retire_reads-LeavesUpdates : LeavesUpdates (retire_reads ex u)
  unfolding retire_reads LeavesUpdates cancelled
  retire_reads-LeavesUpdates w = ground arith
