-- ===== src/Outbox/Advancing.antt =====
-- With a broker that takes every message, a batch of the publisher takes at least one row further.
use trabalho_devops.Prelude.{
  ℕ, zero, suc, ◌+◌, ◌≤◌, ◌≡◌, refl, sym, ◌∙◌, inl, String, true, some, List, [], ◌∷◌, arith, take,
  select, length,
}
use mathlib.Core.Path.{subst}
use trabalho_devops.Exec.{ok, Exec}
use trabalho_devops.Store.{close}
use trabalho_devops.Table.{find, save, order_by, IsUnique}
use trabalho_devops.Messaging.{Settings, OutboxEvent, event_key}
use trabalho_devops.Outbox.{
  is_open, is_due, settle, as_published, publish_each, publish_batch, publish_batches, Relay,
}
use trabalho_devops.Outbox.Pending.{IsBatch, rest-IsBatch, pending-IsBatch}
use trabalho_devops.Outbox.Batch.{publish_each-committed, go_on-state, rows_of}
use trabalho_devops.Outbox.Counting.{
  IsReady, IsReady-is_due, length-select, length-order_by, length-take, Progress, Advance,
  Progress-trans, then-Advance, saved-Advance,
}

module _ {P T B : Type 0} (settings : Settings) (publish : OutboxEvent P → Exec String B (Unit {0}))
    (accepts : (e : OutboxEvent P) (b : B) → (publish e b).0 ≡ ok tt) where
  abbrev pub times_of : Relay P T B → ℕ → ℕ
  times_of r = r.session.env.times

  -- The relay after the first event of a batch.
  abbrev after_one : OutboxEvent P → Relay P T B → Relay P T B
  after_one e r = record {
    session = (settle settings e (ok tt) r.session).1;
    broker = (publish e r.broker).1;
  }

  after_one-rows :
      (e : OutboxEvent P) (r : Relay P T B)
      → find event_key e.id (rows_of settings publish r) ≡ some e
      → (rows_of settings publish (after_one e r)
          ≡ save event_key
              (as_published (r.session.env.times r.session.env.ticks) e)
              (rows_of settings publish r))
        × (times_of (after_one e r) ≡ times_of r)
  unfolding settle
  after_one-rows e r here = rw here (refl, refl)

  publish_each-next :
      (e : OutboxEvent P) (es : List (OutboxEvent P)) (r : Relay P T B)
      → (publish_each settings publish (e ∷ es) r).1
        ≡ (publish_each settings publish es (after_one e r)).1
  unfolding publish_each
  publish_each-next e es r =
      rw (accepts e r.broker)
        (go_on-state settings publish tt (publish_each settings publish es) (after_one e r))

  publish_each-Advance :
      (times : ℕ → ℕ) (es : List (OutboxEvent P)) (r : Relay P T B)
      → times_of r ≡ times
      → IsBatch es (rows_of settings publish r)
      → ((k : ℕ) (e : OutboxEvent P) → find event_key k es ≡ some e → is_open e.status ≡ true)
      → IsUnique event_key (rows_of settings publish r)
      → Advance
          (length es)
          (rows_of settings publish r)
          (rows_of settings publish (publish_each settings publish es r).1)
        × (times_of (publish_each settings publish es r).1 ≡ times)
  unfolding publish_each
  publish_each-Advance times [] r same b opened u =
      (record { count = omega arith; unique = u; progress = λ k. inl refl }, same)
  publish_each-Advance times (e ∷ es) r same b opened u =
      let rows = rows_of settings publish r in
      let here = b.1 e.id e (ground arith) in
      let (saved, kept) = after_one-rows e r here in
      let e' = as_published (r.session.env.times r.session.env.ticks) e in
      let first : Advance 1 rows (rows_of settings publish (after_one e r)) =
        subst (Advance 1 rows) (sym saved) (
          saved-Advance (r.session.env.times r.session.env.ticks) e rows u here
            (opened e.id e (ground arith))) in
      let (rest, end) =
        publish_each-Advance times es (after_one e r) (kept ∙ same)
          (subst (IsBatch es) (sym saved) (rest-IsBatch e e' es rows refl b))
          (λ k x h. opened k x (ground (arith, b.0.0, h))) first.unique in
      subst
        (λ (x : Relay P T B).
          Advance (suc (length es)) rows (rows_of settings publish x) × (times_of x ≡ times))
        (sym (publish_each-next e es r))
        (
          subst
              (λ m.
                Advance m rows
                  (rows_of settings publish (publish_each settings publish es (after_one e r)).1))
              (omega arith)
              (then-Advance 1 (length es) rows (rows_of settings publish (after_one e r)) _ first
                rest),
          end,
        )

  -- A batch takes at least one row further, if any waits.
  pub publish_batch-Advance :
      (r : Relay P T B)
      → 1 ≤ settings.outbox_publish_batch_size
      → IsUnique event_key r.session.committed.outbox
      → (n : ℕ) × Advance n r.session.committed.outbox
          (publish_batch settings publish r).1.session.committed.outbox
        × (times_of (publish_batch settings publish r).1 ≡ times_of r)
        × ((k : ℕ) (e : OutboxEvent P)
            → find event_key k r.session.committed.outbox ≡ some e
            → IsReady (times_of r) e
            → 1 ≤ n)
  unfolding publish_batch
  publish_batch-Advance r size u =
      let times = times_of r in
      let rows = r.session.committed.outbox in
      let sorted =
        order_by (λ (e : OutboxEvent P). e.occurred_at)
          (select (is_due (times r.session.env.ticks)) rows) in
      let loaded = take settings.outbox_publish_batch_size sorted in
      let started : Relay P T B = record {
        session = record (close r.session) {
          env = record r.session.env { ticks = r.session.env.ticks + 1 };
        };
        broker = r.broker;
      } in
      let (batch, due) =
        pending-IsBatch (times r.session.env.ticks) settings.outbox_publish_batch_size rows u in
      let (advance, kept) =
        publish_each-Advance times loaded started refl batch (λ k e h. ground (arith, due k e h))
          u in
      (
        length loaded,
        subst (λ d. Advance (length loaded) rows d.outbox)
            (sym (publish_each-committed settings publish loaded started refl)) advance,
        kept,
        λ k e h w. length-take settings.outbox_publish_batch_size sorted size (
            omega (
              arith,
              length-order_by (λ (e : OutboxEvent P). e.occurred_at)
                  (select (is_due (times r.session.env.ticks)) rows),
              length-select (times r.session.env.ticks) k e rows h
                  (IsReady-is_due times r.session.env.ticks e w).1,
            )),
      )

  pub publish_batches-Progress :
      (n : ℕ) (r : Relay P T B)
      → 1 ≤ settings.outbox_publish_batch_size
      → IsUnique event_key r.session.committed.outbox
      → let rows = (publish_batches settings publish n r).session.committed.outbox in
        IsUnique event_key rows × Progress r.session.committed.outbox rows
  unfolding publish_batches
  publish_batches-Progress zero r size u = (u, λ k. inl refl)
  publish_batches-Progress (suc n) r size u =
      let (m, a, kept, some_taken) = publish_batch-Advance r size u in
      let r' = (publish_batch settings publish r).1 in
      let (unique, rest) = publish_batches-Progress n r' size a.unique in
      (
        unique,
        Progress-trans r.session.committed.outbox r'.session.committed.outbox _ a.progress rest,
      )
