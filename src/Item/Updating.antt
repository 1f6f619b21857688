-- ===== src/Item/Updating.antt =====
-- `update_item` keeps the database of item-service consistent, and what it leaves alone.
use trabalho_devops.Prelude.{ap, ℕ, ◌+◌, ◌≡◌, refl, none, some, List, [], ◌∷◌, arith}
use trabalho_devops.Exec.{raise_if, raise_unless, ◌>>◌}
use trabalho_devops.Exec.Laws.{bind-keeps, raise_if-keeps, raise_unless-keeps}
use trabalho_devops.Store.{Session}
use trabalho_devops.Table.{find}
use trabalho_devops.Table.Laws.{key-find}
use trabalho_devops.Messaging.{Settings, outbox_row}
use trabalho_devops.Messaging.Topology
use trabalho_devops.Item.Models.{Item, item_key, ItemDb, ItemUpdateRequest, invalid_update}
use trabalho_devops.Item.Effects.{Announced}
use trabalho_devops.Item.Invariant.{IsSound, update-IsConsistent, IsFresh-save, event_unused}
use trabalho_devops.Item.Numbering.{saved-IsNumbered}
use trabalho_devops.Item.Records.{Op, get_item_or_raise, to_item_event_payload}
use trabalho_devops.Item.Update.{
  Change, set_field, apply_changes, changes_of, is_empty, finish_update, update_item,
}
use trabalho_devops.Item.Edits.{get_item_or_raise_unchanged, get_item_or_raise-find}

-- The fields that no change of `update_item` touches.
pub record SameIdentity (a b : Item) : Type 0 where
  pub id : b.id ≡ a.id
  pub classification : b.classification ≡ a.classification
  pub status : b.status ≡ a.status
  pub version : b.version ≡ a.version
  pub created_at : b.created_at ≡ a.created_at

set_field-SameIdentity : (c : Change) (item : Item) → SameIdentity item (set_field c item).0
unfolding set_field
set_field-SameIdentity (Change.set_title v) item = ground arith
set_field-SameIdentity _ item = ground arith

pub apply_changes-SameIdentity :
    (cs : List Change) (item : Item) → SameIdentity item (apply_changes cs item).0
unfolding apply_changes
apply_changes-SameIdentity [] item = ground arith
apply_changes-SameIdentity (c ∷ cs) item =
    ground
      (arith, set_field-SameIdentity c item, apply_changes-SameIdentity cs (set_field c item).0)

module _ (settings : Settings) (changed : Item) (s : Session ItemDb) where
  abbrev pub updated_item : Item
  updated_item = record changed {
    version = changed.version + 1;
    updated_at = s.env.times s.env.ticks;
  }

  pub finish_update-Announced :
      Announced s.env
        (finish_update settings changed s).1.env
        updated_item
        s.working
        (finish_update settings changed s).1.working
  unfolding finish_update
  finish_update-Announced = record {
    event =
        outbox_row
          (record {
            event_id = s.env.uuids (s.env.drawn + 1);
            event_type = "ItemUpdated";
            aggregate_id = updated_item.id;
            aggregate_version = updated_item.version;
            occurred_at = s.env.times (s.env.ticks + 1);
            correlation_id = s.env.uuids s.env.drawn;
            causation_id = none;
            payload = to_item_event_payload updated_item;
          })
          Topology.item_updated settings.rabbitmq_events_exchange (some [])
          (s.env.times (s.env.ticks + 1 + 1));
    outbox = refl;
    event_item = refl;
    event_version = refl;
    event_payload = refl;
    event_type = refl;
    index = s.env.drawn + 1;
    event_id = refl;
    first = omega arith;
    last = omega arith;
  }

  finish_update-IsSound :
      (item : Item)
      → find item_key changed.id s.working.tables.items ≡ some item
      → changed.status ≡ item.status
      → changed.version ≡ item.version
      → IsSound s
      → IsSound (finish_update settings changed s).1
  unfolding finish_update
  finish_update-IsSound item here status same v =
      let version : updated_item.version ≡ item.version + 1 = ap (λ k. k + 1) same in
      let after =
        update-IsConsistent item updated_item s.working (finish_update settings changed s).1.working
          here refl v.working refl status finish_update-Announced in
      let fresh =
        IsFresh-save s.env (finish_update settings changed s).1.env updated_item s.working
          (finish_update settings changed s).1.working finish_update-Announced v.working_fresh
          v.distinct refl refl in
      let numbered =
        saved-IsNumbered s.env (finish_update settings changed s).1.env updated_item s.working
          (finish_update settings changed s).1.working finish_update-Announced
          (event_unused s.env (finish_update settings changed s).1.env updated_item s.working
            (finish_update settings changed s).1.working finish_update-Announced v.working_fresh)
          v.working_numbered item here refl version in
      record {
        distinct = v.distinct;
        committed = after;
        committed_fresh = fresh;
        committed_numbered = numbered;
        working = after;
        working_fresh = fresh;
        working_numbered = numbered;
      }

module _ (settings : Settings) (id : ℕ) (payload : ItemUpdateRequest) (s : Session ItemDb) where
  pub update_item-IsSound : IsSound s → IsSound (update_item settings id payload s).1
  unfolding update_item
  update_item-IsSound v =
      bind-keeps after_load (get_item_or_raise id) s IsSound
        (λ e raised. rw (get_item_or_raise_unchanged id s) v)
        (λ item found. rw (get_item_or_raise_unchanged id s) (
          raise_if-keeps IsSound invalid_update
            (raise_unless (apply_changes changes item).1 invalid_update >> finish item) s
            (is_empty changes) v
            (λ given.
              raise_unless-keeps IsSound invalid_update (finish item) s
                (apply_changes changes item).1 v
                (λ effective. done item (get_item_or_raise-find id s item found)))))
    where
      changes : List Change
      changes = changes_of payload

      finish : Item → Op Item
      finish item = finish_update settings (apply_changes changes item).0

      after_load : Item → Op Item
      after_load item =
          raise_if (is_empty changes) invalid_update
          >> (raise_unless (apply_changes changes item).1 invalid_update >> finish item)

      done :
          (item : Item)
          → find item_key id s.working.tables.items ≡ some item
          → IsSound (finish item s).1
      done item here =
          let same = apply_changes-SameIdentity changes item in
          finish_update-IsSound settings (apply_changes changes item).0 s item
            (rw same.id (simp (key-find item_key id s.working.tables.items item here) here))
            same.status same.version v
