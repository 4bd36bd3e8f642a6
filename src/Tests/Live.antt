-- ===== src/Tests/Live.antt =====
-- The properties of the live lane at concrete inputs.
use Prim.Native.String.{String}
use fatty_multi_exchange_tra.Prelude.{◌≡◌, refl, true, false, none, some, List, [], ◌∷◌}
use fatty_multi_exchange_tra.Prelude.Int.{pos}
use fatty_multi_exchange_tra.Prelude.Raise.{Result, ok, err, timeout_error}
use fatty_multi_exchange_tra.Prelude.Texts.{show}
use fatty_multi_exchange_tra.Prelude.Dict.{store, find}
use fatty_multi_exchange_tra.Decimal.{of_int, lt, max, ◌+ᵈ◌}
use fatty_multi_exchange_tra.Domain.Models.{zero_dec, positive}
use fatty_multi_exchange_tra.Protection.Orders.{
  ProtectionState, protection_plan, ensure_live_protection,
}
use fatty_multi_exchange_tra.Live.Values.{
  Runtime, Fields, Items, string, number, field, end, get_first, to_decimal, set, or_zero,
}
use fatty_multi_exchange_tra.Live.Record.{LiveIntentRecord, new_record}
use fatty_multi_exchange_tra.Live.Store.{
  LiveStore, empty_store, claim, claim_cancel, claim_split, claim_entry_post, record_fills, get,
}
use fatty_multi_exchange_tra.Live.Effects.{LiveEntryRequest, Client, World, posts}
use fatty_multi_exchange_tra.Live.Results.{LiveEntryResult, oid_of}
use fatty_multi_exchange_tra.Live.Fills.{LiveOrderStatus}
use fatty_multi_exchange_tra.Live.Store.Fills.{record_fills_idempotent}
use fatty_multi_exchange_tra.Live.Store.Claims.{
  run_updates, cancel_blocks_post, IsBothOrNeither, claim_split_whole,
}
use fatty_multi_exchange_tra.Live.Store.Refinement.{
  Op, claimed_split, claimed_protection, claimed_cancel, claimed_post, run_ops, replay,
  run_ops_refines,
}
use fatty_multi_exchange_tra.Live.Entry.Protected.{HasCover, no_fill_left_bare}
use fatty_multi_exchange_tra.Live.Entry.{enter_live_position}
use fatty_multi_exchange_tra.Live.Entry.Posts.{
  Attempt, IsOnce, new_world, run_attempts, never_posts_twice,
}

-- A runtime that reads one number, for the texts of the answers below.
abbrev py : Runtime
py = record {
  parse = λ s. some (of_int 2);
  str = λ v. elim v [ string s ↦ s | _ ↦ "None" ];
  loads = λ s. none;
  lower = λ s. s;
  strip = λ s. s;
}

abbrev request : LiveEntryRequest
request = record {
  exchange = "bitget";
  symbol = "BTCUSDT";
  side = "BUY";
  quantity = of_int 2;
  leverage = pos 20;
  stop_loss = of_int 90;
  take_profits = of_int 110 ∷ [];
  client_oid = some "live-1";
  oid_token = none;
}

abbrev fill : Fields
fill =
    field "fillId" (string "f1")
      (field "size" (number (of_int 2)) (field "price" (number (of_int 100)) end))

-- The venue loses the answer to the order, fills it, and refuses the stop.
abbrev venue : Client
venue = record {
  get_available_balance = λ log. ok (of_int 1000);
  get_positions = λ symbol log. ok Items.empty;
  get_symbol_metadata = λ symbol log. ok tt;
  get_current_price = λ symbol log. ok (of_int 100);
  get_position_mode = λ log. ok "hedge";
  get_margin_mode = λ symbol log. ok "isolated";
  get_leverage = λ symbol log. ok "20";
  set_margin_mode = λ symbol mode log. ok tt;
  set_leverage = λ symbol leverage log. ok tt;
  place_entry_order = λ r oid log. err timeout_error;
  get_order_detail = λ symbol oid log.
      ok (field "state" (string "filled") (field "filledQty" (number (of_int 2)) end));
  get_fills = λ symbol oid log. ok [];
  place_protection_orders =
      λ log plan side oid. ok (record { sl_order_id = none; tp_order_ids = []; confirmed = false });
  read_protection_state = λ log symbol sl tps.
      ok (record { state = ProtectionState.failed; observed_quantity = zero_dec });
  place_market_close = λ symbol side q oid log. ok end;
}

abbrev attempt : Attempt
attempt = record { client = venue; alert = none; drawn = "0123456789abcdef"; request = request }

abbrev first : Result LiveEntryResult × World
first = enter_live_position py venue none "0123456789abcdef" request new_world

first_posts : posts "live-1" first.1.log ≡ 1
unfolding posts enter_live_position get_first to_decimal set show lt max or_zero protection_plan
    ensure_live_protection ◌+ᵈ◌ store find
first_posts = refl

-- The fill was not protected, and was closed.
abbrev result : LiveEntryResult
result = record {
  client_oid = "live-1";
  status = LiveOrderStatus.filled;
  filled_qty = of_int 2;
  avg_price = none;
  fee = zero_dec;
  provider_order_id = none;
  provider_fill_ids = [];
  protection = some (record { state = ProtectionState.failed; observed_quantity = zero_dec });
  emergency_closed = true;
}

first_returns : first ≡ (ok result, first.1)
unfolding enter_live_position get_first to_decimal set show lt max or_zero protection_plan
    ensure_live_protection ◌+ᵈ◌ store find
first_returns = refl

result_filled : positive result.filled_qty ≡ true
unfolding lt
result_filled = refl

never_posts_twice_example : IsOnce "live-1" (run_attempts py (attempt ∷ attempt ∷ []) new_world)
never_posts_twice_example = never_posts_twice "live-1" py (attempt ∷ attempt ∷ [])

no_fill_left_bare_example :
    (client_oid : String) × (oid_of "0123456789abcdef" request (some "live-1") ≡ ok client_oid)
    × HasCover venue request client_oid result first.1.log
no_fill_left_bare_example =
    no_fill_left_bare py venue none "0123456789abcdef" request new_world first.1 result
      first_returns result_filled

abbrev staged : LiveIntentRecord
staged = record (new_record "bitget" "live-1" "BTCUSDT" "BUY" (of_int 2)) {
  state = "staged";
  entry_leg = some "limit";
}

abbrev staged_store : LiveStore
staged_store = record empty_store { records = ("live-1", staged) ∷ [] }

abbrev cancelled : LiveIntentRecord
cancelled = record staged {
  cancel_requested_by = some "m-1";
  state = "cancelled";
  provider_terminal = true;
}

abbrev cancelled_store : LiveStore
cancelled_store = record empty_store { records = ("live-1", cancelled) ∷ [] }

cancel_won : claim_cancel "live-1" "m-1" staged_store ≡ (ok true, cancelled_store)
unfolding claim_cancel find store
cancel_won = refl

cancel_blocks_post_example :
    ¬ ((claim_entry_post "live-1" (run_updates py (staged ∷ []) cancelled_store)).0 ≡ ok true)
cancel_blocks_post_example =
    cancel_blocks_post py "live-1" "m-1" (staged ∷ []) staged_store cancelled_store cancel_won

claim_won : claim staged empty_store ≡ (ok true, staged_store)
unfolding claim find store
claim_won = refl

record_fills_idempotent_example :
    record_fills py cancelled
      (fill ∷ fill ∷ [])
      (record_fills py staged (fill ∷ fill ∷ []) staged_store)
    ≡ record_fills py staged (fill ∷ fill ∷ []) staged_store
record_fills_idempotent_example =
    record_fills_idempotent py staged cancelled (fill ∷ fill ∷ []) staged_store refl

abbrev limit_leg : LiveIntentRecord
limit_leg = record staged { client_oid = "live-1-limit" }

abbrev calls : List Op
calls =
    claimed_split staged limit_leg
    ∷ claimed_protection (limit_leg ∷ [])
    ∷ claimed_cancel "live-1" "m-1"
    ∷ claimed_post "live-1"
    ∷ []

run_ops_refines_example :
    get "live-1" (run_ops py calls empty_store) ≡ replay calls (λ k. get k empty_store) "live-1"
run_ops_refines_example = run_ops_refines py calls empty_store "live-1"

claim_split_whole_example :
    IsBothOrNeither staged limit_leg empty_store (claim_split staged limit_leg empty_store)
claim_split_whole_example = claim_split_whole staged limit_leg empty_store refl
