-- ===== src/Item/Effects.antt =====
-- What one status transition does to the session.
use trabalho_devops.Prelude.{
  true, ◌||◌, str_eq, ℕ, ◌+◌, ◌≤◌, String, ◌≡◌, refl, Option, none, some, [], arith,
}
use trabalho_devops.Exec.{ok, err}
use trabalho_devops.Store.{Env, Session}
use trabalho_devops.Table.{save, insert}
use trabalho_devops.Messaging.{Settings, OutboxEvent, outbox_row}
use trabalho_devops.Messaging.Topology
use trabalho_devops.Item.Models.{
  ItemStatus, Item, item_key, ItemStatusHistory, ItemEventPayload, Error, ItemDb,
}
use trabalho_devops.Item.Transitions.{validate_transition}
use trabalho_devops.Item.Records.{to_item_event_payload}
use trabalho_devops.Item.Service.{apply_status_transition}

-- An item after a transition: a new status, the next version, a new time stamp.
pub record Moved (target : ItemStatus) (item item' : Item) : Type 0 where
  pub same_id : item'.id ≡ item.id
  pub status : item'.status ≡ target
  pub version : item'.version ≡ item.version + 1
  pub rest :
      item'
      ≡ record item { status = target; version = item.version + 1; updated_at = item'.updated_at }

-- The rows that one recorded change of `item'` adds: the last of the history is a step from
-- `from` to its status, the last of the outbox carries its state.
pub record Recorded (from : Option ItemStatus) (item' : Item) (d d' : ItemDb) : Type 0 where
  pub entry : ItemStatusHistory
  pub history : d'.tables.history ≡ insert entry d.tables.history
  pub entry_item : entry.item_id ≡ item'.id
  pub entry_from : entry.from_status ≡ from
  pub entry_to : entry.to_status ≡ item'.status

pub record Announced (env env' : Env) (item' : Item) (d d' : ItemDb) : Type 0 where
  pub event : OutboxEvent ItemEventPayload
  pub outbox : d'.outbox ≡ insert event d.outbox
  pub event_item : event.aggregate_id ≡ item'.id
  pub event_version : event.aggregate_version ≡ item'.version
  pub event_payload : event.payload ≡ to_item_event_payload item'
  pub event_type :
      (str_eq event.event_type "ItemCreated" || str_eq event.event_type "ItemUpdated") ≡ true
  pub index : ℕ
  pub event_id : event.id ≡ env.uuids index
  pub first : env.drawn ≤ index
  pub last : index + 1 ≤ env'.drawn

-- A session after one more transition of `item` to `item'`.
pub record Stepped (target : ItemStatus) (mode : String) (item item' : Item) (s s' : Session ItemDb)
    : Type 0 where
  pub committed : s'.committed ≡ s.committed
  pub uuids : s'.env.uuids ≡ s.env.uuids
  pub drawn : s.env.drawn ≤ s'.env.drawn
  pub valid : validate_transition item.status target mode ≡ ok tt
  pub items : s'.working.tables.items ≡ save item_key item' s.working.tables.items
  pub moved : Moved target item item'
  pub recorded : Recorded (some item.status) item' s.working s'.working
  pub announced : Announced s.env s'.env item' s.working s'.working

module _ (settings : Settings) (item : Item) (target : ItemStatus) (reason : String)
    (actor : Option ℕ) (mode : String) (s : Session ItemDb) where
  pub apply_status_transition_error :
      (e : Error)
      → (apply_status_transition settings item target reason actor mode s).0 ≡ err e
      → (apply_status_transition settings item target reason actor mode s).1 ≡ s
  unfolding apply_status_transition
  apply_status_transition_error e h = ground arith

  -- Identifiers are drawn in their order, whatever the outcome.
  apply_status_transition_draws :
      ((apply_status_transition settings item target reason actor mode s).1.env.uuids ≡ s.env.uuids)
      × (s.env.drawn
          ≤ (apply_status_transition settings item target reason actor mode s).1.env.drawn)
  unfolding apply_status_transition
  apply_status_transition_draws = ground arith

  module _ (r : ItemStatus × Item)
      (h : (apply_status_transition settings item target reason actor mode s).0 ≡ ok r) where
    apply_status_transition_committed :
        (apply_status_transition settings item target reason actor mode s).1.committed ≡ s.committed
    unfolding apply_status_transition
    apply_status_transition_committed = ground arith

    apply_status_transition_items :
        (apply_status_transition settings item target reason actor mode s).1.working.tables.items
        ≡ save item_key r.1 s.working.tables.items
    unfolding apply_status_transition
    apply_status_transition_items = ground arith

    apply_status_transition_valid : validate_transition item.status target mode ≡ ok tt
    unfolding apply_status_transition
    apply_status_transition_valid = ground arith

    apply_status_transition-Moved : Moved target item r.1
    unfolding apply_status_transition
    apply_status_transition-Moved = ground arith

    -- The row of the history, and the row of the outbox, that the transition adds.
    apply_status_transition-Recorded :
        Recorded
          (some item.status)
          r.1
          s.working
          (apply_status_transition settings item target reason actor mode s).1.working
    unfolding apply_status_transition
    apply_status_transition-Recorded = record {
      entry = record {
        id = s.env.uuids s.env.drawn;
        item_id = item.id;
        from_status = some item.status;
        to_status = target;
        reason = reason;
        actor_user_id = actor;
        occurred_at = s.env.times s.env.ticks;
      };
      history = ground arith;
      entry_item = ground arith;
      entry_from = refl;
      entry_to = ground arith;
    }

    apply_status_transition-Announced :
        Announced s.env
          (apply_status_transition settings item target reason actor mode s).1.env
          r.1
          s.working
          (apply_status_transition settings item target reason actor mode s).1.working
    unfolding apply_status_transition
    apply_status_transition-Announced = record {
      event =
          outbox_row
            (record {
              event_id = s.env.uuids (s.env.drawn + 1 + 1);
              event_type = "ItemUpdated";
              aggregate_id = r.1.id;
              aggregate_version = r.1.version;
              occurred_at = s.env.times (s.env.ticks + 1);
              correlation_id = s.env.uuids (s.env.drawn + 1);
              causation_id = none;
              payload = to_item_event_payload r.1;
            })
            Topology.item_updated settings.rabbitmq_events_exchange (some [])
            (s.env.times (s.env.ticks + 1 + 1));
      outbox = ground arith;
      event_item = refl;
      event_version = refl;
      event_payload = refl;
      event_type = refl;
      index = s.env.drawn + 1 + 1;
      event_id = refl;
      first = omega arith;
      last = ground arith;
    }

    pub apply_status_transition-Stepped :
        Stepped target mode item r.1 s
          (apply_status_transition settings item target reason actor mode s).1
    apply_status_transition-Stepped = record {
      committed = apply_status_transition_committed;
      uuids = apply_status_transition_draws.0;
      drawn = apply_status_transition_draws.1;
      valid = apply_status_transition_valid;
      items = apply_status_transition_items;
      moved = apply_status_transition-Moved;
      recorded = apply_status_transition-Recorded;
      announced = apply_status_transition-Announced;
    }
