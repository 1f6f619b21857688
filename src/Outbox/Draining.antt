-- ===== src/Outbox/Draining.antt =====
-- With a broker that takes every message, the publisher gets to the end of the outbox.
use trabalho_devops.Prelude.{
  ◌∙◌, ◌⊎◌, false, ℕ, zero, suc, ◌≤◌, ◌≡◌, refl, sym, inl, inr, String, some, arith,
}
use mathlib.Core.Path.{subst}
use trabalho_devops.Exec.{ok, Exec}
use trabalho_devops.Table.{find, IsUnique}
use trabalho_devops.Messaging.{Settings, OutboxEvent, published, event_key}
use trabalho_devops.Outbox.{is_open, publish_each, publish_batch, publish_batches, Relay}
use trabalho_devops.Outbox.Counting.{
  open_count, open_count-find, none_due, IsReady, IsReady-is_due, open_count-none, take-nil,
}
use trabalho_devops.Outbox.Advancing.{times_of, publish_batch-Advance, publish_batches-Progress}

-- A row that waits is ready.
abbrev pub IsReadyOrDone : {P : Type 0} → (ℕ → ℕ) → OutboxEvent P → Type 0
IsReadyOrDone times e = IsReady times e ⊎ (is_open e.status ≡ false)

module _ {P T B : Type 0} (settings : Settings) (publish : OutboxEvent P → Exec String B (Unit {0}))
    (accepts : (e : OutboxEvent P) (b : B) → (publish e b).0 ≡ ok tt) where
  -- If the broker takes every message, a batch has room for at least one row, and the ids of the rows
  -- are unique: a row that is PENDING or FAILED, and whose time has come whatever the clock says, is
  -- PUBLISHED after as many batches as rows are PENDING or FAILED, whether the time of the others
  -- comes or not.
  pub publish_batches-drain :
      (n : ℕ) (r : Relay P T B)
      → 1 ≤ settings.outbox_publish_batch_size
      → IsUnique event_key r.session.committed.outbox
      → open_count r.session.committed.outbox ≤ n
      → (k : ℕ) (e : OutboxEvent P) → find event_key k r.session.committed.outbox ≡ some e
      → IsReady (times_of settings publish accepts r) e
      → (e' : OutboxEvent P) × (find event_key k
            (publish_batches settings publish n r).session.committed.outbox
          ≡ some e')
        × (e'.status ≡ published)
  unfolding publish_batches
  publish_batches-drain zero r size u few k e here w =
      let o = (IsReady-is_due (times_of settings publish accepts r) 0 e w).0 in
      absurd (omega (arith, open_count-find k e r.session.committed.outbox here o, few))
  publish_batches-drain (suc n) r size u few k e here w =
      let (m, a, kept, some_taken) = publish_batch-Advance settings publish accepts r size u in
      let r' = (publish_batch settings publish r).1 in
      let taken = some_taken k e here w in
      elim (a.progress k) [
        | inl same ↦
            publish_batches-drain n r' size a.unique (omega (arith, a.count, taken, few)) k e
              (same ∙ here) (subst (λ times. IsReady times e) (sym kept) w)
        | inr (e', there, done) ↦
            elim ((publish_batches-Progress settings publish accepts n r' size a.unique).1 k) [
              | inl same ↦ (e', same ∙ there, done)
              | inr later ↦ later
            ]
      ]

  publish_batches-count :
      (n : ℕ) (r : Relay P T B)
      → 1 ≤ settings.outbox_publish_batch_size
      → IsUnique event_key r.session.committed.outbox
      → ((k : ℕ) (e : OutboxEvent P)
          → find event_key k r.session.committed.outbox ≡ some e
          → IsReadyOrDone (times_of settings publish accepts r) e)
      → open_count r.session.committed.outbox ≤ n
      → open_count (publish_batches settings publish n r).session.committed.outbox ≡ 0
  publish_batches-count n r size u ready few =
      let (unique, progress) = publish_batches-Progress settings publish accepts n r size u in
      open_count-none (publish_batches settings publish n r).session.committed.outbox unique
        (λ k e there. elim (progress k) [
          | inr (e', here, done) ↦ ground (arith, there, here, done)
          | inl same ↦ elim (ready k e (sym same ∙ there)) [
            | inr done ↦ done
            | inl w ↦
                let (e', here, done) =
                  publish_batches-drain n r size u few k e (sym same ∙ there) w in
                ground (arith, there, here, done)
          ]
        ])

  publish_batch_idle :
      (r : Relay P T B)
      → open_count r.session.committed.outbox ≡ 0
      → ((publish_batch settings publish r).0 ≡ ok 0)
        × ((publish_batch settings publish r).1.session.committed ≡ r.session.committed)
  unfolding publish_batch publish_each
  publish_batch_idle r done =
      rw
        (
          none_due (r.session.env.times r.session.env.ticks) r.session.committed.outbox done,
          take-nil settings.outbox_publish_batch_size,
        )
        (refl, refl)

  -- If the broker takes every message, a batch has room for at least one row, the ids of the rows
  -- are unique, and the time of every row that is PENDING or FAILED has come whatever the clock
  -- says: after as many batches as there are such rows, the next batch finds nothing to publish. It returns 0, after which the loop
  -- pauses, and changes nothing in the database.
  pub publish_batches_idle :
      (n : ℕ) (r : Relay P T B)
      → 1 ≤ settings.outbox_publish_batch_size
      → IsUnique event_key r.session.committed.outbox
      → ((k : ℕ) (e : OutboxEvent P)
          → find event_key k r.session.committed.outbox ≡ some e
          → IsReadyOrDone (times_of settings publish accepts r) e)
      → open_count r.session.committed.outbox ≤ n
      → let r' = publish_batches settings publish n r in
        ((publish_batch settings publish r').0 ≡ ok 0)
        × ((publish_batch settings publish r').1.session.committed ≡ r'.session.committed)
  publish_batches_idle n r size u ready few =
      publish_batch_idle (publish_batches settings publish n r)
        (publish_batches-count n r size u ready few)
