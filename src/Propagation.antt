-- ===== src/Propagation.antt =====
-- item-service and matching-service together: the events in the outbox of the one, as
-- item-service/app/messaging/publisher.py serialises them, delivered to the other.
use trabalho_devops.Prelude.{
  ℕ, ◌≤◌, ◌≡◌, refl, sym, ap, ◌∙◌, some, Option, List, [], ◌∷◌, All, arith,
}
use mathlib.Core.Path.{subst}
use trabalho_devops.Store.{Env}
use trabalho_devops.Table.{find}
use trabalho_devops.Messaging.{Settings, OutboxEvent, EventEnvelope, event_key}
use trabalho_devops.Item.Models as Source
use trabalho_devops.Item.Models.{Item, item_key, ItemDb}
use trabalho_devops.Item.Records.{to_item_event_payload}
use trabalho_devops.Item.Numbering.{Tells, IsNumbered}
use trabalho_devops.Item.Requests as Sender
use trabalho_devops.Item.Requests.{serve-IsNumbered}
use trabalho_devops.Matching.Models.{
  ItemClassification, lost, found, ExternalItemStatus, available, matched, in_recovery, recovered,
  cancelled, closed, ItemProjection, projection_key, ItemEventPayload,
}
use trabalho_devops.Matching.Feed.{Feed}
use trabalho_devops.Matching.Tracking.{Shows}
use trabalho_devops.Matching.Requests as Receiver
use trabalho_devops.Matching.Deliveries.{IsDelivered, IsExpected, serve-Shows}

-- The two services' enumerations have the same values.
abbrev pub as_classification : Source.Classification → ItemClassification
as_classification Source.Classification.lost = lost
as_classification Source.Classification.found = found

abbrev pub as_status : Source.ItemStatus → ExternalItemStatus
as_status Source.ItemStatus.available = available
as_status Source.ItemStatus.matched = matched
as_status Source.ItemStatus.in_recovery = in_recovery
as_status Source.ItemStatus.recovered = recovered
as_status Source.ItemStatus.cancelled = cancelled
as_status Source.ItemStatus.closed = closed

-- The payload that item-service writes, in the schema of matching-service.
unfoldable pub as_received : Source.ItemEventPayload → ItemEventPayload
as_received p = record {
  id = p.id;
  classification = as_classification p.classification;
  title = p.title;
  description = p.description;
  category = p.category;
  color = p.color;
  location_description = p.location_description;
  approximate_date = p.approximate_date;
  reporter_user_id = p.reporter_user_id;
  status = as_status p.status;
  version = p.version;
  created_at = p.created_at;
  updated_at = p.updated_at;
}

-- The message of a row, as its receiver reads it; `dumps` makes a JSON value of the payload.
unfoldable pub serialize_outbox_event : {P J : Type 0} → (P → J) → OutboxEvent P → EventEnvelope J
serialize_outbox_event dumps outbox_event = record {
  event_id = outbox_event.id;
  event_type = outbox_event.event_type;
  aggregate_id = outbox_event.aggregate_id;
  aggregate_version = outbox_event.aggregate_version;
  occurred_at = outbox_event.occurred_at;
  correlation_id = outbox_event.correlation_id;
  causation_id = outbox_event.causation_id;
  payload = dumps outbox_event.payload;
}

module _ {J : Type 0} (dumps : Source.ItemEventPayload → J)
    (model_validate : J → Option ItemEventPayload)
    (reads : (p : Source.ItemEventPayload) → model_validate (dumps p) ≡ some (as_received p)) where
  -- The message is that of a row of the outbox.
  abbrev pub IsSentFrom : ItemDb → EventEnvelope J → Type 0
  IsSentFrom d e =
      (row : OutboxEvent Source.ItemEventPayload) × (find event_key row.id d.outbox ≡ some row)
      × (serialize_outbox_event dumps row ≡ e)

  module _ (d : ItemDb) (c : IsNumbered d) (k : ℕ) (item : Item)
      (here : find item_key k d.tables.items ≡ some item) where
    latest : ItemEventPayload
    latest = as_received (to_item_event_payload item)

    -- What the row tells, if it is about the item.
    told :
        (row : OutboxEvent Source.ItemEventPayload)
        → find event_key row.id d.outbox ≡ some row
        → row.aggregate_id ≡ k
        → Tells item row
    told row stored about =
        let (x, there, t) = c.told row.id row stored in
        subst (λ (i : Item). Tells i row) (ground (arith, there, here, about)) t

    outbox_feed : Feed model_validate k latest
    unfolding latest as_received to_item_event_payload serialize_outbox_event
    outbox_feed = record {
      IsSent = IsSentFrom d;
      event_type = λ e (row, stored, same).
          let (x, there, t) = c.told row.id row stored in rw (← same) t.event_type;
      received = λ e (row, stored, same).
          let (x, there, t) = c.told row.id row stored in
          rw (← same) (as_received row.payload, reads row.payload, t.payload_id, t.payload_version);
      not_ahead = λ e (row, stored, same) about.
          subst (λ (x : EventEnvelope J). x.aggregate_version ≤ item.version) same
            (told row stored (ap (λ (x : EventEnvelope J). x.aggregate_id) same ∙ about)).not_ahead;
      current = λ e (row, stored, same) about version.
          let t = told row stored (ap (λ (x : EventEnvelope J). x.aggregate_id) same ∙ about) in
          rw (← same) (
            reads row.payload
            ∙ ap (λ p. some (as_received p))
                (t.current (ap (λ (x : EventEnvelope J). x.aggregate_version) same ∙ version)));
      unique = λ e e' (row, stored, same) (row', stored', same') id.
          let one : row ≡ row' = ground (
            arith,
            stored,
            stored',
            ap (λ (x : EventEnvelope J). x.event_id) same
                ∙ id
                ∙ sym (ap (λ (x : EventEnvelope J). x.event_id) same'),
          ) in
          let both : e ≡ e' = sym same ∙ ap (serialize_outbox_event dumps) one ∙ same' in
          (
            ap (λ (x : EventEnvelope J). x.aggregate_id) both,
            ap (λ (x : EventEnvelope J). x.aggregate_version) both,
          );
    }

    -- When all of the item's events have been delivered, its projection is up to date.
    delivered-Shows :
        (settings : Settings) (qs : List (Receiver.Request J)) (env : Env)
        → ((i j : ℕ) → env.uuids i ≡ env.uuids j → i ≡ j)
        → All (IsExpected settings model_validate k latest outbox_feed) qs
        → ((row : OutboxEvent Source.ItemEventPayload)
            → find event_key row.id d.outbox ≡ some row
            → row.aggregate_id ≡ k
            → IsDelivered (serialize_outbox_event dumps row) qs)
        → (q : ItemProjection) × (find projection_key k
              (Receiver.serve settings model_validate qs
                (Receiver.new_session env)).committed.tables.projections
            ≡ some q)
          × Shows latest q
    unfolding latest as_received to_item_event_payload outbox_feed serialize_outbox_event
    delivered-Shows settings qs env distinct expected delivered =
        let (row, stored, about, version) = c.newest k item here in
        serve-Shows settings model_validate k latest outbox_feed qs env distinct expected
          (serialize_outbox_event dumps row) (row, stored, refl) about version
          (delivered row stored about)

  -- A delivery of an event from the outbox, or a decision of a user.
  abbrev pub ComesFrom : ItemDb → Receiver.Request J → Type 0
  ComesFrom d (Receiver.Request.item_event e) = IsSentFrom d e
  ComesFrom d (Receiver.Request.accept id payload) = Unit
  ComesFrom d (Receiver.Request.reject id payload) = Unit

  module _ (receiving : Settings) (d : ItemDb) (c : IsNumbered d) (k : ℕ) (item : Item)
      (here : find item_key k d.tables.items ≡ some item) where
    All-IsExpected :
        (qs : List (Receiver.Request J))
        → All (ComesFrom d) qs
        → All
            (IsExpected receiving model_validate k
              (latest d c k item here)
              (outbox_feed d c k item here))
            qs
    unfolding outbox_feed
    All-IsExpected [] from = tt
    All-IsExpected (Receiver.Request.item_event e ∷ qs) (sent, from) =
        (sent, All-IsExpected qs from)
    All-IsExpected (Receiver.Request.accept id payload ∷ qs) (sent, from) =
        (tt, All-IsExpected qs from)
    All-IsExpected (Receiver.Request.reject id payload ∷ qs) (sent, from) =
        (tt, All-IsExpected qs from)

  -- Whatever requests item-service serves from an empty database, and in whatever order, however
  -- often and between whatever decisions the events in its outbox are then delivered to
  -- matching-service, from an empty database too: if all the events about an item are among those
  -- delivered, matching-service has a projection of the item, and it has the item's current
  -- fields, its status and its version. The identifiers that either service draws are taken to be
  -- distinct, and a payload to be read as it was written.
  pub deliveries-Shows :
      (sending receiving : Settings) (rs : List Sender.Request) (env env' : Env)
      → ((i j : ℕ) → env.uuids i ≡ env.uuids j → i ≡ j)
      → ((i j : ℕ) → env'.uuids i ≡ env'.uuids j → i ≡ j)
      → (k : ℕ) (item : Item) (qs : List (Receiver.Request J))
      → find item_key k (Sender.serve sending rs (Sender.new_session env)).committed.tables.items
        ≡ some item
      → All (ComesFrom (Sender.serve sending rs (Sender.new_session env)).committed) qs
      → ((row : OutboxEvent Source.ItemEventPayload)
          → find event_key row.id
              (Sender.serve sending rs (Sender.new_session env)).committed.outbox
            ≡ some row
          → row.aggregate_id ≡ k
          → IsDelivered (serialize_outbox_event dumps row) qs)
      → (q : ItemProjection) × (find projection_key k
            (Receiver.serve receiving model_validate qs
              (Receiver.new_session env')).committed.tables.projections
          ≡ some q)
        × Shows (as_received (to_item_event_payload item)) q
  unfolding latest
  deliveries-Shows sending receiving rs env env' distinct distinct' k item qs here from delivered =
      let c = serve-IsNumbered sending rs env distinct in
      let d = (Sender.serve sending rs (Sender.new_session env)).committed in
      delivered-Shows d c k item here receiving qs env' distinct'
        (All-IsExpected receiving d c k item here qs from) delivered
