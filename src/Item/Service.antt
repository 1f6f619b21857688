-- ===== src/Item/Service.antt =====
-- The operations of app/services/item_service.py.
use trabalho_devops.Prelude.{ℕ, ◌+◌, String, Option, none, some, List, [], ◌∷◌, text_or}
use trabalho_devops.Exec.{pure, raise_if, ◌>>=◌, ◌>>◌}
use trabalho_devops.Store.{uuid4, utc_now, commit}
use trabalho_devops.Messaging.{Settings}
use trabalho_devops.Item.Models.{
  ItemStatus, available, in_recovery, recovered, status_eq, Item, ItemCreateRequest,
  ItemStatusUpdateRequest, RecoveryOpenRequest, RecoveryCancelRequest, RecoveryCompleteRequest,
  invalid_transition,
}
use trabalho_devops.Item.Transitions.{status_in, validate_transition}
use trabalho_devops.Item.Records.{
  Op, add_item, save_item, get_item_or_raise, get_items_or_raise, record_status_history,
  record_item_event,
}

module _ (settings : Settings) where
  unfoldable pub create_item : ItemCreateRequest → Op Item
  unfolding add_item record_status_history record_item_event
  create_item payload = do
    now ← utc_now
    id ← uuid4
    let item : Item = record {
      id = id;
      classification = payload.classification;
      title = payload.title;
      description = payload.description;
      category = payload.category;
      color = payload.color;
      location_description = payload.location_description;
      approximate_date = payload.approximate_date;
      reporter_user_id = payload.reporter_user_id;
      status = available;
      version = 1;
      created_at = now;
      updated_at = now;
    }
    add_item item
    record_status_history item none item.status "Item created" (some item.reporter_user_id) now
    record_item_event settings item "ItemCreated"
    commit
    pure item

  unfoldable pub apply_status_transition :
      Item → ItemStatus → String → Option ℕ → String → Op (ItemStatus × Item)
  unfolding save_item record_status_history record_item_event
  apply_status_transition item target_status reason actor_user_id transition_mode = do
    raise_if (status_eq item.status target_status) invalid_transition
    λ s. (validate_transition item.status target_status transition_mode, s)
    now ← utc_now
    let moved : Item = record item {
      status = target_status;
      version = item.version + 1;
      updated_at = now;
    }
    save_item moved
    record_status_history moved (some item.status) target_status reason actor_user_id
        moved.updated_at
    record_item_event settings moved "ItemUpdated"
    pure (item.status, moved)

  unfoldable pub update_item_status : ℕ → ItemStatusUpdateRequest → Op Item
  unfolding get_item_or_raise
  update_item_status item_id payload = do
    item ← get_item_or_raise item_id
    raise_if (status_in payload.status (in_recovery ∷ recovered ∷ [])) invalid_transition
    moved ←
        apply_status_transition item payload.status payload.reason payload.actor_user_id "public"
    commit
    pure moved.1

  -- The loop over the items of the three recovery operations.
  unfoldable pub transition_each :
      ItemStatus → String → Option ℕ → String → List Item → Op (List Item)
  transition_each target_status reason actor_user_id transition_mode [] = pure []
  transition_each target_status reason actor_user_id transition_mode (item ∷ items) = do
    moved ← apply_status_transition item target_status reason actor_user_id transition_mode
    rest ← transition_each target_status reason actor_user_id transition_mode items
    pure (moved.1 ∷ rest)

  unfoldable pub open_recovery : RecoveryOpenRequest → Op (List Item)
  open_recovery payload = do
    items ← get_items_or_raise payload.item_ids
    let reason = text_or payload.reason "Recovery case opened"
    moved ← transition_each in_recovery reason payload.actor_user_id "internal_open" items
    commit
    pure moved

  unfoldable pub cancel_recovery : RecoveryCancelRequest → Op (List Item)
  cancel_recovery payload = do
    items ← get_items_or_raise payload.item_ids
    let reason = text_or payload.reason "Recovery case cancelled"
    moved ←
        transition_each payload.target_status reason payload.actor_user_id "internal_cancel" items
    commit
    pure moved

  unfoldable pub complete_recovery : RecoveryCompleteRequest → Op (List Item)
  complete_recovery payload = do
    items ← get_items_or_raise payload.item_ids
    let reason = text_or payload.reason "Recovery case completed"
    moved ← transition_each recovered reason payload.actor_user_id "internal_complete" items
    commit
    pure moved
