-- ===== src/Outbox/Steps.antt =====
-- What a batch of the outbox publisher does to the rows of the outbox.
use trabalho_devops.Prelude.{
  ℕ, zero, suc, ◌+◌, ◌*◌, ◌^◌, ◌≤◌, ◌<◌, ◌≡◌, refl, ◌⊎◌, inl, inr, String, Option, none, some,
  arith, leb, Bool-cases,
}
use Prim.Native.Nat.{min, max}
use native.Mathlib.Numerals.{unary_clauses}
use trabalho_devops.Exec.{Result, ok, err}
use trabalho_devops.Store.{Session}
use trabalho_devops.Table.{find, save}
use trabalho_devops.Messaging.{
  Settings, OutboxEvent, pending, published, failed, exhausted, Db, event_key,
}
use trabalho_devops.Outbox.{
  max_retry_delay, retry_delay, as_published, as_failed, as_exhausted, settle,
}

-- The waiting time before the next attempt is at most a minute, and at least the configured delay
-- if that is no more than a minute; another failed attempt never shortens it.
pub retry_delay-bounds :
    (settings : Settings) (attempts : ℕ)
    → (retry_delay settings attempts ≤ max_retry_delay)
      × (min max_retry_delay settings.outbox_publish_retry_delay ≤ retry_delay settings attempts)
      × (retry_delay settings attempts ≤ retry_delay settings (attempts + 1))
unfolding retry_delay
retry_delay-bounds settings attempts =
    bounds settings.outbox_publish_retry_delay (2 ^ attempts) (2 ^ (attempts + 1))
      (pow_pos attempts) (pow_suc attempts)
  where
    pow_pos : (n : ℕ) → 1 ≤ 2 ^ n
    pow_pos zero = omega arith
    pow_pos (suc n) = omega (arith, pow_pos n)

    pow_suc : (n : ℕ) → 2 ^ (n + 1) ≡ 2 ^ n * 2
    pow_suc n = simp unary_clauses refl

    bounds :
        (d x y : ℕ)
        → 1 ≤ x
        → y ≡ x * 2
        → (min max_retry_delay (d * max 1 x) ≤ max_retry_delay)
          × (min max_retry_delay d ≤ min max_retry_delay (d * max 1 x))
          × (min max_retry_delay (d * max 1 x) ≤ min max_retry_delay (d * max 1 y))
    bounds d x y p e = grind arith

module _ {P : Type 0} where
  -- The row waits, and its time has come.
  abbrev pub IsWaiting : ℕ → OutboxEvent P → Type 0
  IsWaiting now e = ((e.status ≡ pending) ⊎ (e.status ≡ failed)) × (e.available_at ≤ now)

module _ {P : Type 0} (settings : Settings) where
  -- The steps of a row: it is delivered; or it fails and waits; or it has failed for the last time.
  pub data Step (e : OutboxEvent P) : OutboxEvent P → Type 0 where
    delivered :
        (t : ℕ)
        → Step e (record e {
          status = published;
          published_at = some t;
          last_error = none;
          publish_attempts = e.publish_attempts + 1;
        })
    postponed :
        (t : ℕ) (exc : String)
        → e.publish_attempts + 1 < settings.outbox_publish_max_attempts
        → Step e (record e {
          status = failed;
          last_error = some exc;
          available_at = t + retry_delay settings e.publish_attempts;
          publish_attempts = e.publish_attempts + 1;
        })
    abandoned :
        (exc : String)
        → settings.outbox_publish_max_attempts ≤ e.publish_attempts + 1
        → Step e (record e {
          status = exhausted;
          last_error = some exc;
          publish_attempts = e.publish_attempts + 1;
        })

  -- A row of the outbox before and after: as it was, or one of those that may be taken, a step on.
  abbrev pub Kept :
      (OutboxEvent P → Type 0) → Option (OutboxEvent P) → Option (OutboxEvent P) → Type 0
  Kept may o o' =
      (o' ≡ o)
      ⊎ ((e : OutboxEvent P) × (e' : OutboxEvent P) × (o ≡ some e)
          × (o' ≡ some e')
          × may e
          × Step e e')

  module _ {T : Type 0} where
    abbrev run_settle :
        OutboxEvent P → Result String (Unit {0}) → Session (Db P T) → Session (Db P T)
    run_settle e outcome s = (settle settings e outcome s).1

    pub settle-Step :
        (e : OutboxEvent P) (outcome : Result String (Unit {0})) (s : Session (Db P T))
        → find event_key e.id s.working.outbox ≡ some e
        → (e' : OutboxEvent P) × Step e e'
          × (e'.id ≡ e.id)
          × ((run_settle e outcome s).working.outbox ≡ save event_key e' s.working.outbox)
          × ((run_settle e outcome s).committed ≡ (run_settle e outcome s).working)
    unfolding settle
    settle-Step e (ok u) s here = (
      as_published (s.env.times s.env.ticks) e,
      delivered (s.env.times s.env.ticks),
      refl,
      rw here refl,
      rw here refl,
    )
    settle-Step e (err exc) s here =
        elim (Bool-cases (leb settings.outbox_publish_max_attempts (e.publish_attempts + 1))) [
          | inl last ↦
              (as_exhausted exc e, abandoned exc (ground arith), refl, ground arith, ground arith)
          | inr more ↦ (
            as_failed exc (s.env.times s.env.ticks + retry_delay settings e.publish_attempts) e,
            postponed (s.env.times s.env.ticks) exc (ground arith),
            refl,
            ground arith,
            ground arith,
          )
        ]

    pub settle_committed :
        (e : OutboxEvent P) (outcome : Result String (Unit {0})) (s : Session (Db P T))
        → (run_settle e outcome s).committed ≡ (run_settle e outcome s).working
    unfolding settle
    settle_committed e (ok u) s = ground arith
    settle_committed e (err exc) s = ground arith
