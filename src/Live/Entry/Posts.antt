-- ===== src/Live/Entry/Posts.antt =====
-- The entry orders that are posted over any sequence of entries.
use text.Mathlib.TextEquality.{eq_iff}
use fatty_multi_exchange_tra.Prelude.{
  String, ◌≡◌, ◌⊎◌, inl, refl, ◌∙◌, subst, true, Option, none, some, List, [], ◌∷◌, arith, is_some,
}
use fatty_multi_exchange_tra.Prelude.Raise.{Result, ok, err}
use fatty_multi_exchange_tra.Prelude.Calls.{Call, ◌>>=◌, ◌>>◌, continue}
use fatty_multi_exchange_tra.Live.Values.{Runtime}
use fatty_multi_exchange_tra.Live.Record.{LiveIntentRecord}
use fatty_multi_exchange_tra.Live.Store.{LiveStore, empty_store, get, save}
use fatty_multi_exchange_tra.Live.Store.Writes.{save_stores}
use fatty_multi_exchange_tra.Live.Effects.{
  LiveEntryRequest, Event, Log, Client, World, stored, with_store, posts,
}
use fatty_multi_exchange_tra.Live.Results.{oid_of}
use fatty_multi_exchange_tra.Live.Entry.{
  read_pre_entry_state, ensure_isolated_margin_and_leverage, resume, after_post, post, intent_of,
  enter_new, enter_with, enter_as, enter_live_position,
}
use fatty_multi_exchange_tra.Live.Entry.Calm.{Keeps, IsCalm, save-IsCalm}
use fatty_multi_exchange_tra.Live.Entry.Calm.Steps.{
  read_pre_entry_state-IsCalm, ensure_isolated_margin_and_leverage-IsCalm, resume-IsCalm,
  after_post-IsCalm,
}

-- No entry order with the client id was posted, or one was, and its intent is stored.
abbrev pub IsOnce : String → World → Type 0
IsOnce k w = (posts k w.log ≡ 0) ⊎ ((posts k w.log ≡ 1) × (is_some (get k w.store) ≡ true))

IsOnce-Keeps : (k : String) (w u : World) → Keeps k w u → IsOnce k w → IsOnce k u
IsOnce-Keeps k w u kept once = ground arith

-- An entry under the client id may post: if it is the counted id, nothing was posted under it.
abbrev pub IsReady : String → String → World → Type 0
IsReady k client_oid w = (client_oid ≡ k → posts k w.log ≡ 0) × IsOnce k w

IsReady-Keeps :
    (k client_oid : String) (w u : World)
    → Keeps k w u
    → IsReady k client_oid w
    → IsReady k client_oid u
IsReady-Keeps k client_oid w u kept (fresh, once) =
    (λ same. kept.0 ∙ fresh same, IsOnce-Keeps k w u kept once)

module _ (k : String) (py : Runtime) (client : Client)
    (alert : Option (Log → Result (Unit {0}))) where
  -- The order for another id, or the first for this one.
  post-IsOnce :
      (r : LiveEntryRequest) (client_oid : String) (intent : LiveIntentRecord) (w : World)
      → is_some (get client_oid w.store) ≡ true
      → IsReady k client_oid w
      → IsOnce k (post py client alert r client_oid intent w).1
  unfolding post posts IsCalm
  post-IsOnce r client_oid intent w there (fresh, once) =
      let answer = client.place_entry_order r client_oid w.log in
      let sent = record w { log = Event.posted client_oid r.quantity ∷ w.log } in
      IsOnce-Keeps k sent (after_post py client alert r client_oid intent answer sent).1
        (after_post-IsCalm k py client alert r client_oid intent answer sent)
        (ground (arith, eq_iff client_oid k))

  -- A calm call in front of one that may post.
  calm_then :
      {A B : Type 0} (client_oid : String) (m : Call World A) (next : A → Call World B) (w : World)
      → IsCalm k m
      → ((a : A) (u : World) → IsReady k client_oid u → IsOnce k (next a u).1)
      → IsReady k client_oid w
      → IsOnce k ((m >>= next) w).1
  unfolding IsCalm
  calm_then client_oid m next w calm after ready =
      go (m w) (IsReady-Keeps k client_oid w (m w).1 (calm w) ready)
    where
      go : (r : Result _ × World) → IsReady k client_oid r.1 → IsOnce k (continue r next).1
      go (err e, u) still = still.1
      go (ok a, u) still = after a u still

  save_then_post :
      (r : LiveEntryRequest) (intent : LiveIntentRecord) (w : World)
      → IsReady k intent.client_oid w
      → IsOnce k ((stored (save intent) >> post py client alert r intent.client_oid intent) w).1
  unfolding IsCalm
  save_then_post r intent w ready = go (save intent w.store) (save_stores intent w.store) (
      IsReady-Keeps k intent.client_oid w (stored (save intent) w).1 (save-IsCalm k intent w) ready)
    where
      go :
          (x : Result (Unit {0}) × LiveStore)
          → (x.0 ≡ ok tt → is_some (get intent.client_oid x.1) ≡ true)
          → IsReady k intent.client_oid (record { store = x.1; log = w.log })
          → IsOnce k
              (continue
                (with_store w.log x)
                λ passed. post py client alert r intent.client_oid intent).1
      go (err e, s) there still = still.1
      go (ok _, s) there still =
          post-IsOnce r intent.client_oid intent (record { store = s; log = w.log }) (there refl)
            still

  enter_new-IsOnce :
      (r : LiveEntryRequest) (client_oid : String) (w : World)
      → IsReady k client_oid w
      → IsOnce k (enter_new py client alert r client_oid w).1
  unfolding enter_new
  enter_new-IsOnce r client_oid w ready =
      calm_then client_oid (read_pre_entry_state py client r.symbol) _ w
        (read_pre_entry_state-IsCalm k py client r.symbol)
        (λ passed u ready_u.
          calm_then client_oid (ensure_isolated_margin_and_leverage py client r.symbol r.leverage) _
            u (ensure_isolated_margin_and_leverage-IsCalm k py client r.symbol r.leverage)
            (λ confirmed v ready_v.
              save_then_post r (intent_of py client alert r client_oid) v ready_v)
            ready_u)
        ready

  enter_with-IsOnce :
      (r : LiveEntryRequest) (client_oid : String) (o : Option LiveIntentRecord) (w : World)
      → get client_oid w.store ≡ o
      → IsOnce k w
      → IsOnce k (enter_with py client alert r client_oid o w).1
  unfolding enter_with IsCalm
  enter_with-IsOnce r client_oid none w at once =
      enter_new-IsOnce r client_oid w
        (λ same. ground (arith, subst (λ j. get j w.store ≡ none) same at), once)
  enter_with-IsOnce r client_oid (some existing) w at once =
      IsOnce-Keeps k w (resume py client alert r client_oid w).1
        (resume-IsCalm k py client alert r client_oid w) once

  enter_as-IsOnce :
      (r : LiveEntryRequest) (o : Result String) (w : World)
      → IsOnce k w
      → IsOnce k (enter_as py client alert r o w).1
  unfolding enter_as
  enter_as-IsOnce r (err e) w once = once
  enter_as-IsOnce r (ok client_oid) w once =
      enter_with-IsOnce r client_oid (get client_oid w.store) w refl once

  pub enter_live_position-IsOnce :
      (drawn : String) (r : LiveEntryRequest) (w : World)
      → IsOnce k w
      → IsOnce k (enter_live_position py client alert drawn r w).1
  unfolding enter_live_position
  enter_live_position-IsOnce drawn r = enter_as-IsOnce r (oid_of drawn r r.client_oid)

-- One call of `enter_live_position`: the venue's answers, the alert, the token and the request.
pub record Attempt : Type 0 where
  pub client : Client
  pub alert : Option (Log → Result (Unit {0}))
  pub drawn : String
  pub request : LiveEntryRequest

-- The world after a sequence of calls, each of which may have raised at any point.
unfoldable pub run_attempts : Runtime → List Attempt → World → World
unfolding enter_live_position
run_attempts py [] w = w
run_attempts py (a ∷ rest) w =
    run_attempts py rest (enter_live_position py a.client a.alert a.drawn a.request w).1

abbrev pub new_world : World
new_world = record { store = empty_store; log = [] }

attempts-IsOnce :
    (k : String) (py : Runtime) (attempts : List Attempt) (w : World)
    → IsOnce k w
    → IsOnce k (run_attempts py attempts w)
unfolding run_attempts
attempts-IsOnce k py [] w once = once
attempts-IsOnce k py (a ∷ rest) w once =
    attempts-IsOnce k py rest (enter_live_position py a.client a.alert a.drawn a.request w).1
      (enter_live_position-IsOnce k py a.client a.alert a.drawn a.request w once)

-- However often entries are started, with the same client id or others, whatever the venue answers
-- or raises, and wherever a call ends early: at most one entry order is posted under a client id,
-- and one that was posted has its intent in the store.
pub never_posts_twice :
    (k : String) (py : Runtime) (attempts : List Attempt)
    → IsOnce k (run_attempts py attempts new_world)
unfolding posts
never_posts_twice k py attempts = attempts-IsOnce k py attempts new_world (inl refl)
