-- ===== src/Management/Executor/Readback.antt =====
-- The position that a close or a stop is taken from.
pub mod Stages
use text.Mathlib.Text.{◌==◌}
use fatty_multi_exchange_tra.Prelude.{
  suc, String, ◌≡◌, refl, subst, sym, ◌⊎◌, Bool, true, false, Option, none, some, List, [], ◌∷◌,
  arith, eq_iff, if◌then◌else◌,
}
use fatty_multi_exchange_tra.Prelude.Raise.{Result, ok, err}
use fatty_multi_exchange_tra.Prelude.Calls.{Call, ◌>>=◌, ◌>>◌, pure, lift, choose, continue}
use fatty_multi_exchange_tra.Decimal.{Decimal, of_int, ◌/ᵈ◌}
use fatty_multi_exchange_tra.Live.Values.{Fields}
use fatty_multi_exchange_tra.Management.Updates.{
  holds, has_provider_intent, persist_provider_intent,
}
use fatty_multi_exchange_tra.Management.Venue.{
  Event, Log, World, Position, entries_cancelled, closed, stop_reconciled, stop_replaced, act,
  stored, with_store, one_position, posts,
}
use fatty_multi_exchange_tra.Management.Venue.Positions.{Closes}
use fatty_multi_exchange_tra.Management.Endings.{Executor}
use fatty_multi_exchange_tra.Management.Executor.Frame.{Frame, Obeys}
use fatty_multi_exchange_tra.Management.Executor.Names.{IsOid}
use fatty_multi_exchange_tra.Management.Executor.Sound.{
  IsSound, intents_sound, log-IsSound, posted_world, posted-IsSound,
}

module _ (ex : Executor) where
  -- The venue reports the one position of the symbol when these calls were made.
  abbrev pub Reads : String → Log → Position → Type 0
  Reads symbol log p =
      (ms : List Fields) × (ex.gateway.get_positions symbol log ≡ ok ms) × (one_position ms ≡ ok p)

  -- The part of the size that a first target books, as the gateway rounds it where it does.
  abbrev pub IsTp1Part :
      Option (String → Decimal → Log → Result Decimal) → String → Log → Decimal → Decimal → Type 0
  IsTp1Part none symbol log size q = q ≡ size /ᵈ of_int 2
  IsTp1Part (some normalizer) symbol log size q = normalizer symbol size log ≡ ok q

  -- Every close is on the side that reduces a position that the venue reports with nothing sent in
  -- between, for its whole size or the part of a first target; and every new stop stands at such a
  -- position's entry, on its side and for its whole size.
  abbrev pub IsReadBack : Log → Type 0
  IsReadBack [] = Unit {0}
  IsReadBack (closed symbol side q oid ∷ log) =
      ((p : Position) × Reads symbol log p
        × Closes p.side side
        × ((q ≡ p.size) ⊎ IsTp1Part ex.gateway.normalize_tp1_close_quantity symbol log p.size q))
      × IsReadBack log
  IsReadBack (stop_replaced symbol side size stop oid ∷ log) =
      ((p : Position) × Reads symbol log p × (side ≡ p.side) × (size ≡ p.size) × (stop ≡ p.entry))
      × IsReadBack log
  IsReadBack (entries_cancelled symbol id readback ∷ log) = IsReadBack log
  IsReadBack (stop_reconciled oid ∷ log) = IsReadBack log

  pub silent-IsReadBack :
      (event : Event) (log : Log)
      → ((k : String) (l : Log) → posts k (event ∷ l) ≡ posts k l)
      → IsReadBack log
      → IsReadBack (event ∷ log)
  unfolding posts
  silent-IsReadBack (closed symbol side q oid) log silent h =
      absurd (ground (arith, silent oid log, eq_iff oid oid))
  silent-IsReadBack (stop_replaced symbol side size stop oid) log silent h =
      absurd (ground (arith, silent oid log, eq_iff oid oid))
  silent-IsReadBack (entries_cancelled symbol id readback) log silent h = h
  silent-IsReadBack (stop_reconciled oid) log silent h = h

  -- A run keeps the world sound and sends only what it has read back.
  abbrev pub steps : Frame
  steps = record {
    Step = λ w v. (IsSound w → IsSound v) × (IsReadBack w.log → IsReadBack v.log);
    stays = λ w. ((λ h. h), (λ h. h));
    chains = λ u v w first second. ((λ h. second.0 (first.0 h)), (λ h. second.1 (first.1 h)));
    stores = λ A m same w. (
      intents_sound w.store.provider_intents (m w.store).1.provider_intents w.log (same w.store),
      (λ h. h),
    );
    acts = λ A event answer silent w.
        (log-IsSound w event silent, silent-IsReadBack event w.log silent);
  }

  -- The call obeys the frame from every world whose log satisfies the condition.
  unfoldable pub From : {A : Type 0} → (Log → Type 0) → Call World A → Type 0
  From C m = (w : World) → C w.log → steps.Step w (m w).1

  pub Obeys-From : {A : Type 0} (C : Log → Type 0) (m : Call World A) → Obeys steps m → From C m
  unfolding Obeys From
  Obeys-From C m obeys w c = obeys w

  pub choose-From :
      {A : Type 0} (C : Log → Type 0) (b : Bool) (m n : Call World A)
      → From C m
      → From C n
      → From C (choose b m n)
  choose-From C true m n mc nc = mc
  choose-From C false m n mc nc = nc

  -- A call that sends nothing leaves the condition as it is.
  pub silent-From :
      {A B : Type 0} (C : Log → Type 0) (m : Call World A) (next : A → Call World B)
      → ((w : World) → (m w).1.log ≡ w.log)
      → Obeys steps m
      → ((a : A) → From C (next a))
      → From C (m >>= next)
  unfolding From Obeys
  silent-From {A} C m next same obeys rest w c = go (m w) (same w) (obeys w)
    where
      go :
          (r : Result A × World)
          → r.1.log ≡ w.log
          → steps.Step w r.1
          → steps.Step w (continue r next).1
      go (err e, v) at step = step
      go (ok a, v) at step = steps.chains w v (next a v).1 step (rest a v (subst C (sym at) c))

  -- A close or a stop behind a new intent of its own, which is read back under the condition.
  pub post-From :
      {A : Type 0} (C : Log → Type 0) (id oid : String) (event : Event)
      (answer : Log → Result (Unit {0})) (rest other : Call World A)
      → IsOid id oid
      → ((k : String) (log : Log)
          → posts k (event ∷ log) ≡ (let more = posts k log in if oid == k then suc more else more))
      → ((log : Log) → C log → IsReadBack log → IsReadBack (event ∷ log))
      → Obeys steps rest
      → Obeys steps other
      → From C (
          stored (persist_provider_intent id oid) >>= λ fresh.
          choose fresh (act event answer >> rest) other)
  unfolding From Obeys persist_provider_intent has_provider_intent
  post-From {A} C id oid event answer rest other mine counts sent rest_obeys other_obeys w c =
      go (holds id oid w.store.provider_intents) refl
    where
      after : World
      after = posted_world id oid event w

      step : holds id oid w.store.provider_intents ≡ false → steps.Step w after
      step fresh = (posted-IsSound id oid event w mine counts fresh, sent w.log c)

      answered :
          (r : Result (Unit {0}))
          → steps.Step w after
          → steps.Step w (continue (r, after) (λ x. rest)).1
      answered (err e) first = first
      answered (ok v) first = steps.chains w after (rest after).1 first (rest_obeys after)

      go :
          (b : Bool)
          → holds id oid w.store.provider_intents ≡ b
          → steps.Step w
              (continue
                (with_store w.log (
                  choose b
                    (pure false)
                    (λ t. (ok true, record t { provider_intents = (id, oid) ∷ t.provider_intents }))
                    w.store))
                (λ fresh. choose fresh (act event answer >> rest) other)).1
      go true e = other_obeys w
      go false e = answered (answer w.log) (step e)

  -- A position that is read under the calls so far.
  pub lift-From :
      {B : Type 0} (C : Log → Type 0) (ms : List Fields) (next : Position → Call World B)
      → ((p : Position) → one_position ms ≡ ok p → From C (next p))
      → From C (lift (one_position ms) >>= next)
  unfolding From
  lift-From C ms next rest w c = go (one_position ms) refl
    where
      go : (r : Result Position) → one_position ms ≡ r → steps.Step w (continue (r, w) next).1
      go (err e) at = steps.stays w
      go (ok p) at = rest p at w c
