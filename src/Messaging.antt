-- ===== src/Messaging.antt =====
-- The messaging code that every service carries a copy of: the event envelope, the outbox table
-- and its repository, and the table of processed events
-- (app/schemas/events.py, app/models/outbox.py, app/models/processed_event.py,
-- app/messaging/outbox.py, app/messaging/idempotency.py, app/repositories/outbox_repository.py,
-- app/repositories/processed_event_repository.py, app/messaging/topology.py).
pub mod Topology
use trabalho_devops.Prelude.{ℕ, String, Bool, true, false, Option, none, some, List, [], get_or}
use trabalho_devops.Exec.{Exec, ok, ◌>>=◌, ◌>>◌}
use trabalho_devops.Store.{Session, utc_now, query, write}
use trabalho_devops.Table.{find, insert}

-- The values of the settings that the modelled code reads; durations are in milliseconds.
pub record Settings : Type 0 where
  pub rabbitmq_events_exchange : String
  pub outbox_publish_batch_size : ℕ
  pub outbox_publish_retry_delay : ℕ
  pub outbox_publish_max_attempts : ℕ

abbrev pub Headers : Type 0
Headers = List (String × String)

pub record EventEnvelope (P : Type 0) : Type 0 where
  pub event_id : ℕ
  pub event_type : String
  pub aggregate_id : ℕ
  pub aggregate_version : ℕ
  pub occurred_at : ℕ
  pub correlation_id : ℕ
  pub causation_id : Option ℕ
  pub payload : P

pub record BrokerMessage (P : Type 0) : Type 0 where
  pub envelope : EventEnvelope P
  pub routing_key : String
  pub exchange_name : String
  pub headers : Headers

pub data OutboxStatus : Type 0 where
  pending published failed exhausted : OutboxStatus

pub record OutboxEvent (P : Type 0) : Type 0 where
  pub id : ℕ
  pub event_type : String
  pub aggregate_id : ℕ
  pub aggregate_version : ℕ
  pub exchange_name : String
  pub routing_key : String
  pub correlation_id : ℕ
  pub causation_id : Option ℕ
  pub payload : P
  pub headers : Headers
  pub occurred_at : ℕ
  pub available_at : ℕ
  pub published_at : Option ℕ
  pub status : OutboxStatus
  pub publish_attempts : ℕ
  pub last_error : Option String

pub record ProcessedEvent : Type 0 where
  pub event_id : ℕ
  pub event_type : String
  pub aggregate_id : ℕ

-- A service's database: the two tables that all share, and its own.
pub record Db (P T : Type 0) : Type 0 where
  pub outbox : List (OutboxEvent P)
  pub processed : List ProcessedEvent
  pub tables : T

module _ {P : Type 0} where
  abbrev pub event_key : OutboxEvent P → ℕ
  event_key e = e.id

  -- The row that `enqueue_event` builds; `available_at` is the server's default, now.
  unfoldable pub outbox_row : EventEnvelope P → String → String → Option Headers → ℕ → OutboxEvent P
  outbox_row envelope routing_key exchange_name headers now = record {
    id = envelope.event_id;
    event_type = envelope.event_type;
    aggregate_id = envelope.aggregate_id;
    aggregate_version = envelope.aggregate_version;
    exchange_name = exchange_name;
    routing_key = routing_key;
    correlation_id = envelope.correlation_id;
    causation_id = envelope.causation_id;
    payload = envelope.payload;
    headers = get_or headers [];
    occurred_at = envelope.occurred_at;
    available_at = now;
    published_at = none;
    status = OutboxStatus.pending;
    publish_attempts = 0;
    last_error = none;
  }

module _ {E P T : Type 0} where
  unfoldable pub add_outbox_event : OutboxEvent P → Exec E (Session (Db P T)) (OutboxEvent P)
  add_outbox_event event = do
    write (λ d. record d { outbox = insert event d.outbox })
    λ s. (ok event, s)

  unfoldable pub enqueue_event :
      EventEnvelope P → String → String → Option Headers → Exec E (Session (Db P T)) (OutboxEvent P)
  unfolding add_outbox_event outbox_row
  enqueue_event envelope routing_key exchange_name headers = do
    now ← utc_now
    add_outbox_event (outbox_row envelope routing_key exchange_name headers now)

  unfoldable pub enqueue_broker_message :
      BrokerMessage P → Exec E (Session (Db P T)) (OutboxEvent P)
  unfolding enqueue_event
  enqueue_broker_message message =
      enqueue_event message.envelope message.routing_key message.exchange_name
        (some message.headers)

  unfoldable pub is_event_processed : ℕ → Exec E (Session (Db P T)) Bool
  is_event_processed event_id = do
    row ← query (λ d. find (λ (p : ProcessedEvent). p.event_id) event_id d.processed)
    λ s. (ok (elim row [ none ↦ false | some _ ↦ true ]), s)

  unfoldable pub add_processed_event : ProcessedEvent → Exec E (Session (Db P T)) ProcessedEvent
  add_processed_event row = do
    write (λ d. record d { processed = insert row d.processed })
    λ s. (ok row, s)

module _ {E P T Q : Type 0} where
  unfoldable pub has_been_processed : EventEnvelope Q → Exec E (Session (Db P T)) Bool
  unfolding is_event_processed
  has_been_processed envelope = is_event_processed envelope.event_id

  unfoldable pub register_processed_event :
      EventEnvelope Q → Exec E (Session (Db P T)) ProcessedEvent
  unfolding add_processed_event
  register_processed_event envelope = add_processed_event (record {
    event_id = envelope.event_id;
    event_type = envelope.event_type;
    aggregate_id = envelope.aggregate_id;
  })
