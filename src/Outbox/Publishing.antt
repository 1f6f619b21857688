-- ===== src/Outbox/Publishing.antt =====
-- `_publish_batch` as a whole: which rows it changes, and how often a row is tried.
use trabalho_devops.Prelude.{
  ℕ, ◌+◌, ◌≤◌, ◌<◌, ◌≡◌, refl, sym, ◌⊎◌, inl, inr, String, true, Option, none, some, List, [], ◌∷◌,
  arith, take, select,
}
use mathlib.Core.Path.{subst}
use trabalho_devops.Exec.{Result, ok, err, Exec}
use trabalho_devops.Store.{close}
use trabalho_devops.Table.{find, order_by, IsUnique}
use trabalho_devops.Messaging.{
  Settings, OutboxEvent, OutboxStatus, pending, published, failed, exhausted, event_key,
}
use trabalho_devops.Outbox.{is_open, is_due, settle, publish_each, publish_batch, Relay, go_on}
use trabalho_devops.Outbox.Steps.{Step, delivered, postponed, abandoned, IsWaiting, Kept}
use trabalho_devops.Outbox.Pending.{IsBatch, pending-IsBatch}
use trabalho_devops.Outbox.Batch.{AllKept, publish_each-AllKept, publish_each-committed}

module _ {P : Type 0} (now : ℕ) (e : OutboxEvent P) where
  is_due-IsWaiting : is_due now e ≡ true → IsWaiting now e
  is_due-IsWaiting due = (by_status e.status refl (ground arith), ground arith)
    where
      by_status :
          (st : OutboxStatus)
          → e.status ≡ st
          → is_open st ≡ true
          → (e.status ≡ pending) ⊎ (e.status ≡ failed)
      by_status pending s o = inl s
      by_status failed s o = inr s
      by_status published s o = cc
      by_status exhausted s o = cc

  IsWaiting-is_open : IsWaiting now e → is_open e.status ≡ true
  IsWaiting-is_open (inl s, le) = rw s refl
  IsWaiting-is_open (inr s, le) = rw s refl

module _ {P : Type 0} (settings : Settings) where
  -- A row has been tried no more often than is allowed, and less often while it is open.
  abbrev pub IsBounded : Option (OutboxEvent P) → Type 0
  IsBounded none = Unit
  IsBounded (some e) =
      (e.publish_attempts ≤ settings.outbox_publish_max_attempts)
      × (is_open e.status ≡ true → e.publish_attempts < settings.outbox_publish_max_attempts)

  Step-IsBounded :
      (now : ℕ) (e e' : OutboxEvent P)
      → IsWaiting now e
      → Step settings e e'
      → IsBounded (some e)
      → IsBounded (some e')
  Step-IsBounded now e e' w step b = of_open (IsWaiting-is_open now e w) step b
    where
      of_open :
          {e' : OutboxEvent P}
          → is_open e.status ≡ true
          → Step settings e e'
          → IsBounded (some e)
          → IsBounded (some e')
      of_open o (delivered t) b = ground arith
      of_open o (postponed t exc more) b = ground arith
      of_open o (abandoned exc last) b = ground arith

module _ {P T B : Type 0} (settings : Settings)
    (publish : OutboxEvent P → Exec String B (Unit {0})) where
  publish_each_returns :
      (es : List (OutboxEvent P)) (r : Relay P T B)
      → (n : ℕ) × ((publish_each settings publish es r).0 ≡ ok n)
  unfolding publish_each
  publish_each_returns [] r = (0, refl)
  publish_each_returns (e ∷ es) r =
      after (publish e r.broker).0 (publish e r.broker).1 (publish_each_returns es)
    where
      after :
          (outcome : Result String (Unit {0})) (broker : B)
          → ((r' : Relay P T B) → (n : ℕ) × ((publish_each settings publish es r').0 ≡ ok n))
          → (n : ℕ) × ((go_on settings publish outcome
                (publish_each settings publish es)
                (record { session = (settle settings e outcome r.session).1; broker = broker })).0
              ≡ ok n)
      after (ok u) broker rest =
          let (n, h) =
            rest (record { session = (settle settings e (ok u) r.session).1; broker = broker }) in
          (n + 1, rw h refl)
      after (err exc) broker rest = (0, refl)

  module _ (r : Relay P T B) (u : IsUnique event_key r.session.committed.outbox) where
    -- The time that the query compares with.
    abbrev pub query_time : ℕ
    query_time = r.session.env.times r.session.env.ticks

    pub publish_batch-AllKept :
        ((n : ℕ) × ((publish_batch settings publish r).0 ≡ ok n))
        × AllKept settings
            (IsWaiting query_time)
            r.session.committed.outbox
            (publish_batch settings publish r).1.session.committed.outbox
    unfolding publish_batch
    publish_batch-AllKept = (
      publish_each_returns loaded started,
      λ k. due_only (
          subst
            (λ d.
              Kept settings (λ x. find event_key x.id loaded ≡ some x)
                (find event_key k r.session.committed.outbox) (find event_key k d.outbox))
            (sym (publish_each-committed settings publish loaded started refl))
            (publish_each-AllKept settings publish loaded started found.0 k)),
    )
      where
        loaded : List (OutboxEvent P)
        loaded = take settings.outbox_publish_batch_size (
            order_by (λ (e : OutboxEvent P). e.occurred_at)
              (select (is_due query_time) r.session.committed.outbox))

        started : Relay P T B
        started = record {
          session = record (close r.session) {
            env = record r.session.env { ticks = r.session.env.ticks + 1 };
          };
          broker = r.broker;
        }

        found :
            IsBatch loaded r.session.committed.outbox
            × ((k : ℕ) (e : OutboxEvent P)
                → find event_key k loaded ≡ some e
                → is_due query_time e ≡ true)
        found =
            pending-IsBatch query_time settings.outbox_publish_batch_size r.session.committed.outbox
              u

        due_only :
            {o o' : Option (OutboxEvent P)}
            → Kept settings (λ x. find event_key x.id loaded ≡ some x) o o'
            → Kept settings (IsWaiting query_time) o o'
        due_only (inl same) = inl same
        due_only (inr (e, e', before, after, taken, step)) =
            inr (e, e', before, after, is_due-IsWaiting query_time e (found.1 e.id e taken), step)

    -- If no row of the database has been tried more often than outbox_publish_max_attempts allows,
    -- and each that is PENDING or FAILED less often, then the same holds after a batch. The ids of
    -- the rows are taken to be unique.
    pub publish_batch-IsBounded :
        ((k : ℕ) → IsBounded settings (find event_key k r.session.committed.outbox))
        → (k : ℕ)
        → IsBounded settings
            (find event_key k (publish_batch settings publish r).1.session.committed.outbox)
    publish_batch-IsBounded bounded k = elim (publish_batch-AllKept.1 k) [
      | inl same ↦ subst (IsBounded settings) (sym same) (bounded k)
      | inr (e, e', before, after, due, step) ↦ subst (IsBounded settings) (sym after) (
          Step-IsBounded settings query_time e e' due step
            (subst (IsBounded settings) before (bounded k)))
    ]
