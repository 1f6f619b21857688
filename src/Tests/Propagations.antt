-- ===== src/Tests/Propagations.antt =====
-- An item that is created and then taken off the board, and its two events, delivered to
-- matching-service in the wrong order, one of them twice.
use trabalho_devops.Prelude.{
  ℕ, ◌-◌, ◌==◌, sym, ◌∙◌, Bool-cases, ◌≡◌, refl, ◌⊎◌, inl, inr, Option, none, some, List, [], ◌∷◌,
  arith, ap, String,
}
use trabalho_devops.Store.{Env}
use trabalho_devops.Table.{find}
use trabalho_devops.Messaging.{Settings, OutboxEvent, event_key, pending}
use trabalho_devops.Item.Models.{
  Item, ItemStatus, Classification, item_key, ItemEventPayload, ItemDb,
}
use trabalho_devops.Item.Records.{to_item_event_payload}
use trabalho_devops.Item.Service.{create_item, update_item_status, apply_status_transition}
use trabalho_devops.Item.Transitions.{validate_transition}
use trabalho_devops.Item.Requests.{Request, create, update_status, serve, handle, new_session}
use trabalho_devops.Matching.Models as Received
use trabalho_devops.Matching.Models.{ItemProjection, projection_key}
use trabalho_devops.Matching.Requests as Receiver
use trabalho_devops.Matching.Tracking.{Shows}
use trabalho_devops.Propagation.{as_received, serialize_outbox_event, deliveries-Shows}

abbrev settings : Settings
settings = record {
  rabbitmq_events_exchange = "domain.events";
  outbox_publish_batch_size = 2;
  outbox_publish_retry_delay = 1000;
  outbox_publish_max_attempts = 3;
}

abbrev env : Env
env = record { uuids = λ n. n; drawn = 0; times = λ n. n; ticks = 0 }

abbrev requests : List Request
requests =
    create (record {
      classification = Classification.lost;
      title = [];
      description = [];
      category = [];
      color = [];
      location_description = [];
      approximate_date = 10;
      reporter_user_id = 7;
    })
    ∷ update_status 0
        (record { status = ItemStatus.cancelled; reason = "Found at home"; actor_user_id = some 7 })
    ∷ []

abbrev sender : ItemDb
sender = (serve settings requests (new_session env)).committed

abbrev an_item : ItemStatus → ℕ → ℕ → Item
an_item status version updated_at = record {
  id = 0;
  classification = Classification.lost;
  title = [];
  description = [];
  category = [];
  color = [];
  location_description = [];
  approximate_date = 10;
  reporter_user_id = 7;
  status = status;
  version = version;
  created_at = 0;
  updated_at = updated_at;
}

abbrev row : ℕ → String → String → Item → OutboxEvent ItemEventPayload
unfolding to_item_event_payload
row id event_type routing_key item = record {
  id = id;
  event_type = event_type;
  aggregate_id = 0;
  aggregate_version = item.version;
  exchange_name = "domain.events";
  routing_key = routing_key;
  correlation_id = id - 1;
  causation_id = none;
  payload = to_item_event_payload item;
  headers = [];
  occurred_at = id - 2;
  available_at = id - 1;
  published_at = none;
  status = pending;
  publish_attempts = 0;
  last_error = none;
}

abbrev first : OutboxEvent ItemEventPayload
first = row 3 "ItemCreated" "item.created" (an_item ItemStatus.available 1 0)

abbrev second : OutboxEvent ItemEventPayload
second = row 6 "ItemUpdated" "item.updated" (an_item ItemStatus.cancelled 2 3)

sent : sender.outbox ≡ first ∷ second ∷ []
unfolding serve handle create_item update_item_status apply_status_transition validate_transition
    to_item_event_payload
sent = refl

stored : find item_key 0 sender.tables.items ≡ some (an_item ItemStatus.cancelled 2 3)
unfolding serve handle create_item update_item_status apply_status_transition validate_transition
stored = refl

-- The payloads are taken as they are written.
abbrev dumps : ItemEventPayload → ItemEventPayload
dumps p = p

abbrev validate : ItemEventPayload → Option Received.ItemEventPayload
validate p = some (as_received p)

abbrev message : OutboxEvent ItemEventPayload → Receiver.Request ItemEventPayload
message e = Receiver.item_event (serialize_outbox_event dumps e)

abbrev deliveries : List (Receiver.Request ItemEventPayload)
deliveries = message second ∷ message first ∷ message second ∷ []

one_of_two :
    (x : OutboxEvent ItemEventPayload)
    → find event_key x.id sender.outbox ≡ some x
    → (first ≡ x) ⊎ (second ≡ x)
unfolding to_item_event_payload
one_of_two x h = split x (ap (find event_key x.id) (sym sent) ∙ h)
  where
    split :
        (e : OutboxEvent ItemEventPayload)
        → find event_key e.id (first ∷ second ∷ []) ≡ some e
        → (first ≡ e) ⊎ (second ≡ e)
    split e g = elim (Bool-cases (3 == e.id)) [
      | inl here ↦ inl (ground arith)
      | inr other ↦ inr (ground arith)
    ]

deliveries-Shows_example :
    (q : ItemProjection) × (find projection_key 0
        (Receiver.serve settings validate deliveries
          (Receiver.new_session env)).committed.tables.projections
      ≡ some q)
    × Shows (as_received (to_item_event_payload (an_item ItemStatus.cancelled 2 3))) q
unfolding row
deliveries-Shows_example =
    deliveries-Shows dumps validate (λ p. refl) settings settings requests env env (λ i j e. e)
      (λ i j e. e) 0 (an_item ItemStatus.cancelled 2 3) deliveries stored
      ((second, from_second, refl), ((first, from_first, refl), ((second, from_second, refl), tt)))
      (λ x h about. elim (one_of_two x h) [
        | inl e ↦ inr (inl (ap message e))
        | inr e ↦ inl (ap message e)
      ])
  where
    from_first : find event_key first.id sender.outbox ≡ some first
    from_first = ap (find event_key first.id) sent

    from_second : find event_key second.id sender.outbox ≡ some second
    from_second = ap (find event_key second.id) sent
