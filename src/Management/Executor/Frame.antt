-- ===== src/Management/Executor/Frame.antt =====
-- Relations between the world in front of a call and the world behind it that every call of the
-- update store and every readback of the venue obeys, and how calls that obey one compose.
pub mod Stages
use fatty_multi_exchange_tra.Prelude.{
  ℕ, String, ◌≡◌, refl, Bool, true, false, Option, none, some, ◌∷◌, arith,
}
use fatty_multi_exchange_tra.Prelude.Raise.{Error, Result, ok, err}
use fatty_multi_exchange_tra.Prelude.Dict.{find}
use fatty_multi_exchange_tra.Prelude.Calls.{
  Call, ◌>>=◌, pure, raise, lift, or_else, recover, choose, continue,
}
use fatty_multi_exchange_tra.Management.Updates.{
  UpdateState, SourceManagementUpdate, MemoryStore, claim, first_claimable, update_state,
  write_state, claim_found, park_found, alert_outcome, park,
}
use fatty_multi_exchange_tra.Management.Venue.{Event, Log, World, read, act, stored, posts}
use fatty_multi_exchange_tra.Management.Endings.{Outcome, finish, finished}

write_state_intents :
    (k : String) (state : UpdateState) (o : Option SourceManagementUpdate) (s : MemoryStore)
    → (write_state k state o s).1.provider_intents ≡ s.provider_intents
write_state_intents k state none s = refl
write_state_intents k state (some u) s = refl

claim_found_intents :
    (o : Option SourceManagementUpdate) (s : MemoryStore)
    → (claim_found o s).1.provider_intents ≡ s.provider_intents
claim_found_intents none s = refl
claim_found_intents (some u) s = refl

park_found_intents :
    (k : String) (n : ℕ) (o : Option SourceManagementUpdate) (s : MemoryStore)
    → (park_found k n o s).1.provider_intents ≡ s.provider_intents
park_found_intents k n none s = refl
park_found_intents k n (some u) s = refl

-- A reflexive and transitive relation of worlds that holds across a call of the store that leaves
-- the intents alone, and across a call of the venue that posts nothing.
pub record Frame : Type 1 where
  pub Step : World → World → Type 0
  pub stays : (w : World) → Step w w
  pub chains : (u v w : World) → Step u v → Step v w → Step u w
  pub stores :
      (A : Type 0) (m : Call MemoryStore A)
      → ((s : MemoryStore) → (m s).1.provider_intents ≡ s.provider_intents)
      → (w : World) → Step w (stored m w).1
  pub acts :
      (A : Type 0) (event : Event) (answer : Log → Result A)
      → ((k : String) (log : Log) → posts k (event ∷ log) ≡ posts k log)
      → (w : World) → Step w (act event answer w).1

-- The relation holds across the call, from every world and whatever the call answers.
unfoldable pub Obeys : {A : Type 0} → Frame → Call World A → Type 0
Obeys f m = (w : World) → f.Step w (m w).1

module _ (f : Frame) where
  pub pure-Obeys : {A : Type 0} (a : A) → Obeys f (pure {S = World} a)
  unfolding Obeys
  pure-Obeys a w = f.stays w

  pub raise-Obeys : (A : Type 0) (e : Error) → Obeys f (raise {S = World} {V = A} e)
  unfolding Obeys
  raise-Obeys A e w = f.stays w

  pub lift-Obeys : {A : Type 0} (r : Result A) → Obeys f (lift {S = World} r)
  unfolding Obeys
  lift-Obeys r w = f.stays w

  pub read-Obeys : {A : Type 0} (answer : Log → Result A) → Obeys f (read answer)
  unfolding Obeys
  read-Obeys answer w = f.stays w

  pub bind-Obeys :
      {A B : Type 0} (m : Call World A) (next : A → Call World B)
      → Obeys f m
      → ((a : A) → Obeys f (next a))
      → Obeys f (m >>= next)
  unfolding Obeys
  bind-Obeys {A} m next first second w = go (m w) (first w)
    where
      go : (r : Result A × World) → f.Step w r.1 → f.Step w (continue r next).1
      go (err e, v) step = step
      go (ok a, v) step = f.chains w v (next a v).1 step (second a v)

  pub or_else-Obeys :
      {A : Type 0} (m : Call World A) (handle : Error → Call World A)
      → Obeys f m
      → ((e : Error) → Obeys f (handle e))
      → Obeys f (or_else m handle)
  unfolding Obeys
  or_else-Obeys {A} m handle first second w = go (m w) (first w)
    where
      go : (r : Result A × World) → f.Step w r.1 → f.Step w (recover r handle).1
      go (err e, v) step = f.chains w v (handle e v).1 step (second e v)
      go (ok a, v) step = step

  pub choose-Obeys :
      {A : Type 0} (b : Bool) (m n : Call World A) → Obeys f m → Obeys f n → Obeys f (choose b m n)
  unfolding Obeys
  choose-Obeys true m n mc nc = mc
  choose-Obeys false m n mc nc = nc

  pub act-Obeys :
      {A : Type 0} (event : Event) (answer : Log → Result A)
      → ((k : String) (log : Log) → posts k (event ∷ log) ≡ posts k log)
      → Obeys f (act event answer)
  unfolding Obeys
  act-Obeys {A} event answer silent = f.acts A event answer silent

  stored-Obeys :
      {A : Type 0} (m : Call MemoryStore A)
      → ((s : MemoryStore) → (m s).1.provider_intents ≡ s.provider_intents)
      → Obeys f (stored m)
  unfolding Obeys
  stored-Obeys {A} m same = f.stores A m same

  pub update_state-Obeys :
      (k : String) (state : UpdateState) → Obeys f (stored (update_state k state))
  unfolding update_state
  update_state-Obeys k state =
      stored-Obeys (update_state k state) (λ s. write_state_intents k state (find k s.updates) s)

  pub claim-Obeys : (worker : String) → Obeys f (stored (claim worker))
  unfolding claim
  claim-Obeys worker =
      stored-Obeys (claim worker)
        (λ s. ground (arith, claim_found_intents (first_claimable s.updates) s))

  pub park-Obeys : (k : String) (n : ℕ) → Obeys f (stored (park k n))
  unfolding park
  park-Obeys k n =
      stored-Obeys (park k n) (λ s. ground (arith, park_found_intents k n (find k s.updates) s))

  alert_outcome-Obeys :
      (u : SourceManagementUpdate) (state : UpdateState) → Obeys f (stored (alert_outcome u state))
  unfolding alert_outcome
  alert_outcome-Obeys u state = stored-Obeys (alert_outcome u state) (λ s. refl)

  pub finish-Obeys : (u : SourceManagementUpdate) (state : UpdateState) → Obeys f (finish u state)
  unfolding finish
  finish-Obeys u state =
      bind-Obeys (stored (update_state u.id state)) _ (update_state-Obeys u.id state)
        λ x. alert_outcome-Obeys u state

  pub finished-Obeys :
      (u : SourceManagementUpdate) (state : UpdateState) (o : Outcome)
      → Obeys f (finished u state o)
  unfolding finished
  finished-Obeys u state o =
      bind-Obeys (finish u state) _ (finish-Obeys u state) λ x. pure-Obeys (some o)
