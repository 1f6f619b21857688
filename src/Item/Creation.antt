-- ===== src/Item/Creation.antt =====
-- `create_item` keeps the database of item-service consistent.
use trabalho_devops.Prelude.{◌+◌, refl, none, some, [], arith}
use trabalho_devops.Store.{Session}
use trabalho_devops.Table.Laws.{find-insert}
use trabalho_devops.Messaging.{Settings, outbox_row}
use trabalho_devops.Messaging.Topology
use trabalho_devops.Item.Models.{available, Item, item_key, ItemDb, ItemCreateRequest}
use trabalho_devops.Item.Effects.{Recorded, Announced}
use trabalho_devops.Item.Invariant.{
  IsSound, IsFresh, create-IsConsistent, event_unused, outbox_fresh,
}
use trabalho_devops.Item.Numbering.{inserted-IsNumbered}
use trabalho_devops.Item.Records.{to_item_event_payload}
use trabalho_devops.Item.Service.{create_item}

-- The item that `create_item` stores, and the rows that it adds.
module _ (settings : Settings) (payload : ItemCreateRequest) (s : Session ItemDb) where
  abbrev created : Item
  created = record {
    id = s.env.uuids s.env.drawn;
    classification = payload.classification;
    title = payload.title;
    description = payload.description;
    category = payload.category;
    color = payload.color;
    location_description = payload.location_description;
    approximate_date = payload.approximate_date;
    reporter_user_id = payload.reporter_user_id;
    status = available;
    version = 1;
    created_at = s.env.times s.env.ticks;
    updated_at = s.env.times s.env.ticks;
  }

  create_item-Recorded : Recorded none created s.working (create_item settings payload s).1.working
  unfolding create_item
  create_item-Recorded = record {
    entry = record {
      id = s.env.uuids (s.env.drawn + 1);
      item_id = created.id;
      from_status = none;
      to_status = available;
      reason = "Item created";
      actor_user_id = some payload.reporter_user_id;
      occurred_at = s.env.times s.env.ticks;
    };
    history = refl;
    entry_item = refl;
    entry_from = refl;
    entry_to = refl;
  }

  create_item-Announced :
      Announced s.env
        (create_item settings payload s).1.env
        created
        s.working
        (create_item settings payload s).1.working
  unfolding create_item
  create_item-Announced = record {
    event =
        outbox_row
          (record {
            event_id = s.env.uuids (s.env.drawn + 1 + 1 + 1);
            event_type = "ItemCreated";
            aggregate_id = created.id;
            aggregate_version = 1;
            occurred_at = s.env.times (s.env.ticks + 1);
            correlation_id = s.env.uuids (s.env.drawn + 1 + 1);
            causation_id = none;
            payload = to_item_event_payload created;
          })
          Topology.item_created settings.rabbitmq_events_exchange (some [])
          (s.env.times (s.env.ticks + 1 + 1));
    outbox = refl;
    event_item = refl;
    event_version = refl;
    event_payload = refl;
    event_type = refl;
    index = s.env.drawn + 1 + 1 + 1;
    event_id = refl;
    first = omega arith;
    last = omega arith;
  }

  create_item-IsFresh :
      IsSound s
      → IsFresh (create_item settings payload s).1.env (create_item settings payload s).1.working
  unfolding create_item
  create_item-IsFresh v n h = (
    ground (
      arith,
      find-insert item_key created (s.env.uuids n) s.working.tables.items,
      (v.working_fresh n (omega arith)).0,
      v.distinct s.env.drawn n,
    ),
    outbox_fresh s.env (create_item settings payload s).1.env created s.working
        (create_item settings payload s).1.working create_item-Announced v.working_fresh v.distinct
        n h,
  )

  pub create_item-IsSound : IsSound s → IsSound (create_item settings payload s).1
  unfolding create_item
  create_item-IsSound v =
      let absent = (v.working_fresh s.env.drawn (omega arith)).0 in
      let after =
        create-IsConsistent created s.working (create_item settings payload s).1.working absent refl
          v.working create_item-Recorded create_item-Announced refl in
      let numbered =
        inserted-IsNumbered s.env (create_item settings payload s).1.env created s.working
          (create_item settings payload s).1.working create_item-Announced
          (event_unused s.env (create_item settings payload s).1.env created s.working
            (create_item settings payload s).1.working create_item-Announced v.working_fresh)
          v.working_numbered absent refl in
      record {
        distinct = v.distinct;
        committed = after;
        committed_fresh = create_item-IsFresh v;
        committed_numbered = numbered;
        working = after;
        working_fresh = create_item-IsFresh v;
        working_numbered = numbered;
      }
