-- ===== src/Tests/Outgoing.antt =====
-- The outbox publisher on three rows, with a broker that takes one message and refuses the next.
use Prim.Native.Nat.{min}
use trabalho_devops.Prelude.{
  List, Bool-cases, ◌==◌, inl, inr, ◌≤◌, ℕ, zero, suc, ◌≡◌, refl, String, none, some, [], ◌∷◌,
  arith,
}
use trabalho_devops.Exec.{Exec, ok, err}
use trabalho_devops.Table.{find}
use trabalho_devops.Messaging.{
  Settings, OutboxEvent, OutboxStatus, pending, failed, EventEnvelope, outbox_row, Db, event_key,
}
use trabalho_devops.Outbox.{Relay, publish_batch, publish_batches, retry_delay, max_retry_delay}
use trabalho_devops.Outbox.Steps.{retry_delay-bounds}
use trabalho_devops.Outbox.History.{History, published}
use trabalho_devops.Outbox.Draining.{IsReadyOrDone, publish_batches-drain, publish_batches_idle}

abbrev settings : Settings
settings = record {
  rabbitmq_events_exchange = "domain.events";
  outbox_publish_batch_size = 2;
  outbox_publish_retry_delay = 2000;
  outbox_publish_max_attempts = 3;
}

abbrev row : ℕ → OutboxStatus → ℕ → OutboxEvent ℕ
row id status attempts = record {
  id = id;
  event_type = "ItemCreated";
  aggregate_id = 1;
  aggregate_version = 1;
  exchange_name = "domain.events";
  routing_key = "item.created";
  correlation_id = 2;
  causation_id = none;
  payload = 5;
  headers = [];
  occurred_at = id;
  available_at = id;
  published_at = none;
  status = status;
  publish_attempts = attempts;
  last_error = none;
}

abbrev take_one : OutboxEvent ℕ → Exec String ℕ (Unit {0})
take_one e zero = (ok tt, 1)
take_one e (suc n) = (err "refused", suc n)

abbrev db : Db ℕ (Unit {0})
db = record {
  outbox = row 12 failed 2 ∷ row 10 OutboxStatus.published 1 ∷ row 11 pending 0 ∷ [];
  processed = [];
  tables = tt;
}

abbrev start : Relay ℕ (Unit {0}) ℕ
start = record {
  session = record {
    committed = db;
    working = db;
    env = record { uuids = λ n. n; drawn = 0; times = λ n. 100; ticks = 0 };
  };
  broker = 0;
}

-- Row 11 is older and goes out; row 12 has failed for the third time.
one_published : (publish_batch settings take_one start).0 ≡ ok 1
unfolding publish_batch
one_published = refl

retry_delay-bounds_example :
    (retry_delay settings 4 ≤ max_retry_delay)
    × (min max_retry_delay 2000 ≤ retry_delay settings 4)
    × (retry_delay settings 4 ≤ retry_delay settings 5)
retry_delay-bounds_example = retry_delay-bounds settings 4

-- An event is enqueued in an empty outbox, and published three times.
abbrev envelope : EventEnvelope ℕ
envelope = record {
  event_id = 12;
  event_type = "ItemCreated";
  aggregate_id = 1;
  aggregate_version = 1;
  occurred_at = 12;
  correlation_id = 2;
  causation_id = none;
  payload = 5;
}

abbrev with_rows : List (OutboxEvent ℕ) → Relay ℕ (Unit {0}) ℕ
with_rows rows = record start {
  session = record {
    committed = record db { outbox = rows };
    working = record db { outbox = rows };
    env = start.session.env;
  };
  broker = 1;
}

abbrev enqueued_one : Relay ℕ (Unit {0}) ℕ
enqueued_one = with_rows (outbox_row envelope "item.created" "domain.events" none 12 ∷ [])

abbrev tried : OutboxEvent ℕ
tried = record (row 12 failed 1) { available_at = 2100; last_error = some "refused" }

-- A broker that takes every message.
abbrev take_all : OutboxEvent ℕ → Exec String ℕ (Unit {0})
take_all e n = (ok tt, suc n)

publish_batches-drain_example :
    (e' : OutboxEvent ℕ) × (find event_key 12
        (publish_batches settings take_all 2 start).session.committed.outbox
      ≡ some e')
    × (e'.status ≡ OutboxStatus.published)
publish_batches-drain_example =
    publish_batches-drain settings take_all (λ e b. refl) 2 start (omega arith)
      (refl, (refl, (refl, tt))) (omega arith) 12 (row 12 failed 2) refl
      (inr refl, λ t. omega arith)

all_ready :
    (k : ℕ) (e : OutboxEvent ℕ) → find event_key k db.outbox ≡ some e → IsReadyOrDone (λ n. 100) e
all_ready k e h = elim (Bool-cases (k == 10)) [
  | inl middle ↦ inr (ground arith)
  | inr other ↦ elim (Bool-cases (k == 12)) [
    | inl first ↦ inl (inr (ground arith), λ t. ground arith)
    | inr later ↦ inl (inl (ground arith), λ t. ground arith)
  ]
]

publish_batches_idle_example :
    let r = publish_batches settings take_all 2 start in
    ((publish_batch settings take_all r).0 ≡ ok 0)
    × ((publish_batch settings take_all r).1.session.committed ≡ r.session.committed)
publish_batches_idle_example =
    publish_batches_idle settings take_all (λ e b. refl) 2 start (omega arith)
      (refl, (refl, (refl, tt))) all_ready (omega arith)
