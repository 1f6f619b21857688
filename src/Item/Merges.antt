-- ===== src/Item/Merges.antt =====
-- `update_item` as a whole: the requested fields over the stored ones.
use trabalho_devops.Prelude.{
  ℕ, ◌+◌, ◌≡◌, ◌≢◌, refl, sym, inl, inr, Bool, true, false, Option, none, some, [], ◌∷◌,
  Option-cases,
}
use mathlib.Core.Path.{subst}
use trabalho_devops.Exec.{Result, ok, err}
use trabalho_devops.Store.{Session, in_session, close}
use trabalho_devops.Table.{find, save, insert}
use trabalho_devops.Messaging.{Settings, OutboxEvent}
use trabalho_devops.Item.Models.{
  Item, item_key, ItemUpdateRequest, ItemDb, ItemEventPayload, Error, not_found, invalid_update,
}
use trabalho_devops.Item.Records.{to_item_event_payload}
use trabalho_devops.Item.Update.{changes_of, is_empty, finish_update, update_item}
use trabalho_devops.Item.Updating.{finish_update-Announced}
use trabalho_devops.Item.Requests.{update, FitsColumns}
use trabalho_devops.Item.Merging.{
  merged, changed, apply_changes-merged, merged-changed, merged_unchanged, is_empty_unchanged,
}

-- How an update ends, by the item that there is, from the database `d` to `d'`.
abbrev pub Merged :
    ItemUpdateRequest → ℕ → Option Item → ItemDb → ItemDb → Result Error Item → Type 0
Merged p id none d d' r = (r ≡ err (not_found (id ∷ []))) × (d' ≡ d)
Merged p id (some item) d d' (err e) = (e ≡ invalid_update) × (merged p item ≡ item) × (d' ≡ d)
Merged p id (some item) d d' (ok item') =
    (merged p item ≢ item)
    × (item' ≡ record (merged p item) { version = item.version + 1; updated_at = item'.updated_at })
    × (d'.tables.items ≡ save item_key item' d.tables.items)
    × (d'.tables.history ≡ d.tables.history)
    × ((e : OutboxEvent ItemEventPayload) × (d'.outbox ≡ insert e d.outbox)
        × (e.payload ≡ to_item_event_payload item'))

module _ (settings : Settings) (id : ℕ) (p : ItemUpdateRequest) (s : Session ItemDb) where
  abbrev Ended : Option Item → Type 0
  Ended o =
      let (r, s') = in_session (update_item settings id p) s in
      Merged p id o s.committed s'.committed r

  update_stored :
      (item : Item) (empty effective : Bool)
      → find item_key id s.committed.tables.items ≡ some item
      → is_empty (changes_of p) ≡ empty
      → changed p item ≡ effective
      → Ended (some item)
  unfolding update_item finish_update
  update_stored item true effective here e f =
      simp (here, e) (refl, merged_unchanged p item (is_empty_unchanged p item e), refl)
  update_stored item false false here e f =
      simp (here, e, apply_changes-merged p item, f) (refl, merged_unchanged p item f, refl)
  update_stored item false true here e f =
      let a = finish_update-Announced settings (merged p item) (close s) in
      simp (here, e, apply_changes-merged p item, f)
        (merged-changed p item f, refl, refl, refl, (a.event, a.outbox, a.event_payload))

  -- If the category and the colour that are asked for have at most 100 characters, as their columns:
  -- an update of an item merges the fields that are requested into it, with the next version and
  -- one event that carries the result, exactly if that changes the item. If it would not, or there
  -- is no such item, the update raises and the database is as it was.
  pub update_item-Merged :
      FitsColumns (update id p)
      → let (r, s') = in_session (update_item settings id p) s in
        Merged p id (find item_key id s.committed.tables.items) s.committed s'.committed r
  unfolding update_item
  update_item-Merged fits = elim (Option-cases (find item_key id s.committed.tables.items)) [
    | inl absent ↦ rw absent (refl, refl)
    | inr (item, here) ↦
        subst Ended (sym here)
          (update_stored item (is_empty (changes_of p)) (changed p item) here refl refl)
  ]
