-- ===== src/Item/Records.antt =====
-- The tables of item-service (app/repositories/item_repository.py,
-- app/repositories/item_status_history_repository.py), and the helpers of
-- app/services/item_service.py that read and record.
use trabalho_devops.Prelude.{
  ℕ, String, true, false, ◌||◌, Option, none, some, List, [], ◌∷◌, str_eq, if◌then◌else◌, select,
  elem, from_keys,
}
use trabalho_devops.Exec.{Exec, pure, raise, raise_unless, or_raise, ◌>>=◌, ◌>>◌}
use trabalho_devops.Store.{Session, uuid4, utc_now, query, write}
use trabalho_devops.Table
use trabalho_devops.Table.{find, save, dict_get, order_by}
use trabalho_devops.Messaging.{Settings, enqueue_broker_message}
use trabalho_devops.Messaging.Topology
use trabalho_devops.Item.Models.{
  ItemStatus, Item, item_key, ItemStatusHistory, ItemEventPayload, Error, not_found, invalid_update,
  ItemDb,
}

abbrev pub Op : Type 0 → Type 0
Op A = Exec Error (Session ItemDb) A

unfoldable pub add_item : Item → Op Item
add_item item = do
  write (λ d. record d { tables = record d.tables { items = Table.insert item d.tables.items } })
  pure item

-- An assignment to the fields of a loaded item, which the session writes back.
unfoldable pub save_item : Item → Op (Unit {0})
save_item item =
    write λ d. record d { tables = record d.tables { items = save item_key item d.tables.items } }

unfoldable pub get_item_by_id : ℕ → Op (Option Item)
get_item_by_id item_id = query λ d. find item_key item_id d.tables.items

unfoldable pub get_items_by_ids : List ℕ → Op (List Item)
get_items_by_ids item_ids = query λ d.
    order_by (λ (i : Item). i.created_at) (select (λ (i : Item). elem i.id item_ids) d.tables.items)

unfoldable pub get_item_or_raise : ℕ → Op Item
unfolding get_item_by_id
get_item_or_raise item_id = do or_raise (← get_item_by_id item_id) (not_found (item_id ∷ []))

unfoldable pub to_item_event_payload : Item → ItemEventPayload
to_item_event_payload item = record {
  id = item.id;
  classification = item.classification;
  title = item.title;
  description = item.description;
  category = item.category;
  color = item.color;
  location_description = item.location_description;
  approximate_date = item.approximate_date;
  reporter_user_id = item.reporter_user_id;
  status = item.status;
  version = item.version;
  created_at = item.created_at;
  updated_at = item.updated_at;
}

unfoldable pub add_history_entry : ItemStatusHistory → Op ItemStatusHistory
add_history_entry entry = do
  write
      (λ d. record d { tables = record d.tables { history = Table.insert entry d.tables.history } })
  pure entry

unfoldable pub record_status_history :
    Item → Option ItemStatus → ItemStatus → String → Option ℕ → ℕ → Op ItemStatusHistory
unfolding add_history_entry
record_status_history item from_status to_status reason actor_user_id occurred_at = do
  id ← uuid4
  add_history_entry (record {
    id = id;
    item_id = item.id;
    from_status = from_status;
    to_status = to_status;
    reason = reason;
    actor_user_id = actor_user_id;
    occurred_at = occurred_at;
  })

unfoldable pub record_item_event : Settings → Item → String → Op (Unit {0})
unfolding to_item_event_payload enqueue_broker_message
record_item_event settings item event_type = do
  raise_unless (str_eq event_type "ItemCreated" || str_eq event_type "ItemUpdated") invalid_update
  correlation_id ← uuid4
  event_id ← uuid4
  occurred_at ← utc_now
  enqueue_broker_message (record {
    envelope = record {
      event_id = event_id;
      event_type = event_type;
      aggregate_id = item.id;
      aggregate_version = item.version;
      occurred_at = occurred_at;
      correlation_id = correlation_id;
      causation_id = none;
      payload = to_item_event_payload item;
    };
    routing_key =
        if str_eq event_type "ItemCreated" then Topology.item_created else Topology.item_updated;
    exchange_name = settings.rabbitmq_events_exchange;
    headers = [];
  })
  pure tt

-- `{item.id: item for item in items}` and the two comprehensions over it: the ids that it lacks,
-- and the items of those that it has.
abbrev pub missing_ids : List Item → List ℕ → List ℕ
missing_ids items ids =
    select (λ id. elim (dict_get item_key id items) [ none ↦ true | some _ ↦ false ]) ids

abbrev pub prepend : Option Item → List Item → List Item
prepend none rest = rest
prepend (some item) rest = item ∷ rest

abbrev pub pick : List Item → List ℕ → List Item
pick items [] = []
pick items (id ∷ ids) = prepend (dict_get item_key id items) (pick items ids)

-- `if missing_ids: raise ItemNotFoundError(…)`
unfoldable pub raise_missing : List ℕ → Op (Unit {0})
raise_missing [] = pure tt
raise_missing (id ∷ ids) = raise (not_found (id ∷ ids))

unfoldable pub get_items_or_raise : List ℕ → Op (List Item)
unfolding get_items_by_ids raise_missing
get_items_or_raise item_ids = do
  let unique_item_ids = from_keys [] item_ids
  items ← get_items_by_ids unique_item_ids
  raise_missing (missing_ids items unique_item_ids)
  pure (pick items unique_item_ids)
