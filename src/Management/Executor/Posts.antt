-- ===== src/Management/Executor/Posts.antt =====
-- The closes and the stops that are posted over a history of the queue.
use fatty_multi_exchange_tra.Prelude.{◌≤◌, String, [], ◌∷◌, arith}
use fatty_multi_exchange_tra.Prelude.Dict.{Dict, store}
use fatty_multi_exchange_tra.Management.Updates.{SourceManagementUpdate}
use fatty_multi_exchange_tra.Management.Venue.{World, posts}
use fatty_multi_exchange_tra.Management.Endings.{Executor}
use fatty_multi_exchange_tra.Management.Executor.{run_once}
use fatty_multi_exchange_tra.Management.Executor.Sound.{claims, IsSound}
use fatty_multi_exchange_tra.Management.Executor.Readback.Stages.{run_once_step}

-- What happens to the queue: runs, each with the venue and the settings of its time, updates and
-- cancellation claims that others store.
pub data History : World → Type 0 where
  started :
      (updates : Dict SourceManagementUpdate)
      → History (record {
        store = record {
          updates = updates;
          provider_intents = [];
          claimed_cancellations = [];
          outcomes = [];
        };
        log = [];
      })
  ran : (w : World) (ex : Executor) (worker : String) → History w → History (run_once ex worker w).1
  enqueued :
      (w : World) (u : SourceManagementUpdate)
      → History w
      → History (record w { store = record w.store { updates = store u.id u w.store.updates } })
  cancellation_claimed :
      (w : World) (id : String)
      → History w
      → History (record w {
        store = record w.store { claimed_cancellations = id ∷ w.store.claimed_cancellations };
      })

pub History-IsSound : (w : World) → History w → IsSound w
unfolding posts claims
History-IsSound w (started updates) = (tt, (λ k. omega arith), (λ k. omega arith))
History-IsSound w (ran v ex worker before) =
    (run_once_step ex worker v).0 (History-IsSound v before)
History-IsSound w (enqueued v u before) = History-IsSound v before
History-IsSound w (cancellation_claimed v id before) = History-IsSound v before

-- Over any history of the queue, with any answers of the venue and any changes of the window, a
-- client id is posted in one close or stop at most, and only behind its durable intent.
pub posted_once :
    (w : World) (k : String)
    → History w
    → (posts k w.log ≤ 1) × (posts k w.log ≤ claims k w.store.provider_intents)
posted_once w k before =
    let (owned, covered, single) = History-IsSound w before in
    (omega (arith, covered k, single k), covered k)
