-- ===== src/Tests/Dispatcher.antt =====
-- The properties of the dispatcher at concrete inputs.
use fatty_multi_exchange_tra.Prelude.{String, ◌≡◌, refl, true, false, none, some, [], ◌∷◌}
use fatty_multi_exchange_tra.Prelude.Raise.{ok}
use fatty_multi_exchange_tra.Decimal.{of_int, lt, le}
use fatty_multi_exchange_tra.Domain.Models.{canonical_signal}
use fatty_multi_exchange_tra.Domain.{long}
use fatty_multi_exchange_tra.Dispatcher.Effects.{
  BitgetDispatch, Environment, Preflight, Status, Outcome,
}
use fatty_multi_exchange_tra.Dispatcher.Run.{run_once}
use fatty_multi_exchange_tra.Dispatcher.Run.Guards.{HasPosted, IsCleared, run_once_guarded}

abbrev queued_dispatch : BitgetDispatch
queued_dispatch = record {
  pair_token = "BTC";
  direction = some long;
  entry_price = of_int 100;
  stop_loss = of_int 90;
  take_profits = of_int 110 ∷ [];
}

-- An enabled gate, an open kill switch and a provider that fills the order.
abbrev filling : Environment
filling = record {
  gate = record { execution_enabled = true; canary_max_orders = 0; canary_symbol = none };
  claim = ok (some queued_dispatch);
  kill_switch = some (λ scope. ok false);
  protection_admission = some (λ symbol. ok (true, "protected"));
  preflight = λ d.
      ok (Preflight.admission (record { quantity = of_int 1; planned_margin_usdt = of_int 10 }));
  entry_routing = none;
  execution = some (record {
    routes = false;
    releases = false;
    submit = λ order log. ok Status.filled;
    release = λ s log. ok tt;
  });
  reserve_canary_entry = λ log. ok true;
  refuses = λ effect log. none;
  now = 0;
}

filling_fills : (run_once filling []).0 ≡ ok Outcome.filled
unfolding run_once canonical_signal lt le
filling_fills = refl

filling_posts : HasPosted (run_once filling [])
unfolding run_once canonical_signal lt le
filling_posts = refl

run_once_guarded_example :
    (d : BitgetDispatch) × (symbol : String) × (filling.claim ≡ ok (some d))
    × IsCleared filling d symbol
run_once_guarded_example = run_once_guarded filling filling_posts
