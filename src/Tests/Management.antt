-- ===== src/Tests/Management.antt =====
-- The properties of the source-management executor at concrete inputs.
use fatty_multi_exchange_tra.Prelude.{
  ◌≡◌, ◌≤◌, ◌≢◌, refl, inl, true, false, none, [], ◌∷◌, String, arith, eq_iff,
}
use fatty_multi_exchange_tra.Prelude.Raise.{ok}
use fatty_multi_exchange_tra.Decimal.{of_int, le}
use fatty_multi_exchange_tra.Live.Values.{number, string, Fields, end, field}
use fatty_multi_exchange_tra.Management.Updates.{
  close, UpdateState, SourceManagementUpdate, claimable, first_claimable, has_provider_intent,
}
use fatty_multi_exchange_tra.Management.Venue.{Gateway, World, one_position, posts}
use fatty_multi_exchange_tra.Management.Endings.{Executor, close_oid, moves_stop, cancels_entries}
use fatty_multi_exchange_tra.Management.Executor.{run_once}
use fatty_multi_exchange_tra.Management.Executor.Sound.{claims}
use fatty_multi_exchange_tra.Management.Executor.Posts.{started, ran, posted_once}
use fatty_multi_exchange_tra.Management.Executor.Readback.{IsReadBack}
use fatty_multi_exchange_tra.Management.Executor.Readback.Stages.{run_once-IsReadBack}
use fatty_multi_exchange_tra.Management.Executor.Stored.Run.{IsRun, run_once_lem}
use fatty_multi_exchange_tra.Management.Executor.Budget.{runs, budget_spent}
use fatty_multi_exchange_tra.Management.Executor.Waiting.{waiting, close_waits}
use fatty_multi_exchange_tra.Management.Executor.Window.{stopped_run_posts_nothing}

abbrev closing_update : SourceManagementUpdate
closing_update = record {
  id = "7f";
  source_message_id = "1a";
  revision = "first";
  symbol = "BTCUSDT";
  action = close;
  state = UpdateState.queued;
  attempts = 0;
}

abbrev long_position : Fields
long_position =
    field "size" (number (of_int 2))
      (field "side" (string "LONG") (field "entry" (number (of_int 100)) end))

-- A venue with one open position, which cancels the pending entries.
abbrev venue : Gateway
venue = record {
  get_positions = λ symbol log. ok (long_position ∷ []);
  get_orders = λ symbol log. ok [];
  cancel_pending_entries = λ symbol id readback log. ok true;
  close_reduce_only = λ symbol side quantity oid log. ok tt;
  normalize_tp1_close_quantity = none;
  reconcile_stop_loss = λ oid log. ok tt;
  replace_stop_loss = λ symbol side quantity stop oid log. ok tt;
}

abbrev executor : Executor
executor = record {
  gateway = venue;
  eligible = λ log. true;
  mutations_enabled = true;
  max_attempts = 2;
}

-- The same venue, which never proves the entries terminal.
abbrev unproving : Executor
unproving = record executor {
  gateway = record venue { cancel_pending_entries = λ symbol id readback log. ok false };
}

abbrev queue : World
queue = record {
  store = record {
    updates = ("7f", closing_update) ∷ [];
    provider_intents = [];
    claimed_cancellations = [];
    outcomes = [];
  };
  log = [];
}

-- The close was posted before.
abbrev claimed_queue : World
claimed_queue = record queue {
  store = record queue.store { provider_intents = ("7f", close_oid "7f") ∷ [] };
}

named : ◌≢◌ {A = String} "worker" ""
named = ground (arith, eq_iff "worker" "")

posted_once_example :
    (posts (close_oid "7f") (run_once executor "worker" queue).1.log ≤ 1)
    × (posts (close_oid "7f") (run_once executor "worker" queue).1.log
        ≤ claims (close_oid "7f") (run_once executor "worker" queue).1.store.provider_intents)
posted_once_example =
    posted_once (run_once executor "worker" queue).1 (close_oid "7f")
      (ran queue executor "worker" (started (("7f", closing_update) ∷ [])))

run_once_lem_example :
    IsRun (first_claimable queue.store.updates) queue (run_once executor "worker" queue)
run_once_lem_example = run_once_lem executor "worker" queue named

budget_spent_example :
    (runs 2 unproving "worker" queue).store.updates
    ≡ ("7f", record closing_update { state = UpdateState.failed; attempts = 2 }) ∷ []
unfolding moves_stop cancels_entries claimable
budget_spent_example =
    budget_spent unproving refl (λ log. refl) 1 "worker" closing_update [] queue named refl refl
      (λ log. refl) refl refl refl

close_waits_example :
    ((runs 3 executor "worker" claimed_queue).store.updates ≡ ("7f", waiting closing_update) ∷ [])
    × ((k : String)
        → posts k (runs 3 executor "worker" claimed_queue).log ≡ posts k claimed_queue.log)
unfolding claimable has_provider_intent one_position le
close_waits_example =
    close_waits executor refl (λ log. refl) 2 "worker" closing_update long_position
      (record { size = of_int 2; side = "LONG"; entry = of_int 100 }) claimed_queue named
      (λ log. refl) (λ log. refl) refl refl refl refl refl

stopped_run_posts_nothing_example :
    posts
      (close_oid "7f")
      (run_once (record executor { mutations_enabled = false }) "worker" queue).1.log
    ≡ posts (close_oid "7f") queue.log
stopped_run_posts_nothing_example =
    stopped_run_posts_nothing (record executor { mutations_enabled = false }) "worker"
      (close_oid "7f") queue (inl refl)

run_once-IsReadBack_example : IsReadBack executor (run_once executor "worker" queue).1.log
run_once-IsReadBack_example = run_once-IsReadBack executor "worker" queue tt
