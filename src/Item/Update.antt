-- ===== src/Item/Update.antt =====
-- `update_item` of app/services/item_service.py: the changes that a request asks for, their effect
-- on an item, and the operation.
use trabalho_devops.Prelude.{
  ℕ, ◌+◌, ◌==◌, Bool, true, false, ◌||◌, Option, none, some, List, [], ◌∷◌, Text, text_eq,
}
use trabalho_devops.Exec.{pure, raise_if, raise_unless, ◌>>=◌, ◌>>◌}
use trabalho_devops.Store.{utc_now, commit}
use trabalho_devops.Messaging.{Settings}
use trabalho_devops.Item.Models.{Item, ItemUpdateRequest, invalid_update}
use trabalho_devops.Item.Records.{Op, save_item, get_item_or_raise, record_item_event}

-- An entry of `payload.model_dump(exclude_none=True)`.
pub data Change : Type 0 where
  set_title set_description set_category set_color set_location_description : Text → Change
  set_approximate_date set_reporter_user_id : ℕ → Change

-- The entry of one field, left out if the field is `None`.
abbrev pub entry : {A : Type 0} → (A → Change) → Option A → List Change → List Change
entry set none rest = rest
entry set (some a) rest = set a ∷ rest

unfoldable pub changes_of : ItemUpdateRequest → List Change
changes_of p = entry set_title p.title (
    entry set_description p.description (
      entry set_category p.category (
        entry set_color p.color (
          entry set_location_description p.location_description (
            entry set_approximate_date p.approximate_date
              (entry set_reporter_user_id p.reporter_user_id []))))))

abbrev pub differs_then : Bool → Item → Item → Item × Bool
differs_then true old new = (old, false)
differs_then false old new = (new, true)

-- `if getattr(item, name) != value: setattr(item, name, value)`, and whether it was set
unfoldable pub set_field : Change → Item → Item × Bool
set_field (set_title v) item = differs_then (text_eq item.title v) item (record item { title = v })
set_field (set_description v) item =
    differs_then (text_eq item.description v) item (record item { description = v })
set_field (set_category v) item =
    differs_then (text_eq item.category v) item (record item { category = v })
set_field (set_color v) item = differs_then (text_eq item.color v) item (record item { color = v })
set_field (set_location_description v) item =
    differs_then (text_eq item.location_description v) item
      (record item { location_description = v })
set_field (set_approximate_date v) item =
    differs_then (item.approximate_date == v) item (record item { approximate_date = v })
set_field (set_reporter_user_id v) item =
    differs_then (item.reporter_user_id == v) item (record item { reporter_user_id = v })

-- The loop over the changes, with `has_effective_change`.
unfoldable pub apply_changes : List Change → Item → Item × Bool
unfolding set_field
apply_changes [] item = (item, false)
apply_changes (change ∷ changes) item =
    let (item', set) = set_field change item in
    let (item'', later) = apply_changes changes item' in (item'', set || later)

abbrev pub is_empty : List Change → Bool
is_empty [] = true
is_empty (_ ∷ _) = false

-- The writes of `update_item`, once its guards have passed and the fields are set.
unfoldable pub finish_update : Settings → Item → Op Item
unfolding save_item record_item_event
finish_update settings changed = do
  now ← utc_now
  let updated : Item = record changed { version = changed.version + 1; updated_at = now }
  save_item updated
  record_item_event settings updated "ItemUpdated"
  commit
  pure updated

unfoldable pub update_item : Settings → ℕ → ItemUpdateRequest → Op Item
unfolding get_item_or_raise changes_of apply_changes finish_update
update_item settings item_id payload = do
  item ← get_item_or_raise item_id
  raise_if (is_empty (changes_of payload)) invalid_update
  raise_unless (apply_changes (changes_of payload) item).1 invalid_update
  finish_update settings (apply_changes (changes_of payload) item).0
