-- ===== src/Outbox/History.antt =====
-- The outbox from its beginning: events are enqueued by the service, and batches published, in any
-- order.
use trabalho_devops.Prelude.{ℕ, ◌≡◌, String, Option, none, []}
use trabalho_devops.Exec.{Exec}
use trabalho_devops.Table.{find, insert}
use trabalho_devops.Messaging.{Settings, OutboxEvent, EventEnvelope, Headers, outbox_row, event_key}
use trabalho_devops.Outbox.{publish_batch, Relay}

module _ {P T B : Type 0} (settings : Settings)
    (publish : OutboxEvent P → Exec String B (Unit {0})) where
  -- The relays that come about: the outbox is empty at first; the service commits a row that
  -- `enqueue_event` makes, with a new id; a batch is published.
  pub data History : Relay P T B → Type 0 where
    begun : (r : Relay P T B) → r.session.committed.outbox ≡ [] → History r
    enqueued :
        (r r' : Relay P T B)
        → History r
        → (envelope : EventEnvelope P) (routing_key exchange_name : String)
        → (headers : Option Headers) (now : ℕ)
        → find event_key envelope.event_id r.session.committed.outbox ≡ none
        → r'.session.committed.outbox
          ≡ insert
              (outbox_row envelope routing_key exchange_name headers now)
              r.session.committed.outbox
        → History r'
    published : (r : Relay P T B) → History r → History (publish_batch settings publish r).1
