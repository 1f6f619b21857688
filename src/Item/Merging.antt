-- ===== src/Item/Merging.antt =====
-- The loop of `update_item` over the requested changes: it merges the requested fields into the
-- item, and notices whether that changes it.
use trabalho_devops.Prelude.{
  ◌≡◌, ◌≢◌, refl, sym, ap, ◌∙◌, Bool, true, false, ◌||◌, List, [], ◌∷◌, arith, get_or,
}
use trabalho_devops.Item.Models.{Item, ItemUpdateRequest}
use trabalho_devops.Item.Update.{Change, changes_of, apply_changes, is_empty}
use trabalho_devops.Item.Fields.{
  differs, apply_changes-entry, differs-false, differs_self, title_field, description_field,
  category_field, color_field, location_description_field, approximate_date_field,
  reporter_user_id_field,
}

-- The requested fields, and the stored ones where none is requested.
abbrev pub merged : ItemUpdateRequest → Item → Item
merged p item = record item {
  title = get_or p.title item.title;
  description = get_or p.description item.description;
  category = get_or p.category item.category;
  color = get_or p.color item.color;
  location_description = get_or p.location_description item.location_description;
  approximate_date = get_or p.approximate_date item.approximate_date;
  reporter_user_id = get_or p.reporter_user_id item.reporter_user_id;
}

-- Some requested field differs from the stored one.
pub changed : ItemUpdateRequest → Item → Bool
changed p item =
    differs title_field.same p.title item.title
    || (differs description_field.same p.description item.description
        || (differs category_field.same p.category item.category
            || (differs color_field.same p.color item.color
                || (differs location_description_field.same p.location_description
                      item.location_description
                    || (differs approximate_date_field.same p.approximate_date item.approximate_date
                        || (differs reporter_user_id_field.same p.reporter_user_id
                              item.reporter_user_id
                            || false))))))

-- The loop merges the request into the item, and notices whether a field differs.
pub apply_changes-merged :
    (p : ItemUpdateRequest) (item : Item)
    → apply_changes (changes_of p) item ≡ (merged p item, changed p item)
unfolding changes_of changed apply_changes
apply_changes-merged p item =
    rw
      (
        apply_changes-entry title_field p.title,
        apply_changes-entry description_field p.description,
        apply_changes-entry category_field p.category,
        apply_changes-entry color_field p.color,
        apply_changes-entry location_description_field p.location_description,
        apply_changes-entry approximate_date_field p.approximate_date,
        apply_changes-entry reporter_user_id_field p.reporter_user_id,
      )
      refl

-- It notices exactly whether the merged item is another one.
pub merged_unchanged :
    (p : ItemUpdateRequest) (item : Item) → changed p item ≡ false → merged p item ≡ item
unfolding changed
merged_unchanged p item h =
    rw
      (
        differs-false title_field p.title item.title (ground arith),
        differs-false description_field p.description item.description (ground arith),
        differs-false category_field p.category item.category (ground arith),
        differs-false color_field p.color item.color (ground arith),
        differs-false location_description_field p.location_description item.location_description
            (ground arith),
        differs-false approximate_date_field p.approximate_date item.approximate_date
            (ground arith),
        differs-false reporter_user_id_field p.reporter_user_id item.reporter_user_id
            (ground arith),
      )
      refl

pub merged-changed :
    (p : ItemUpdateRequest) (item : Item) → changed p item ≡ true → merged p item ≢ item
unfolding changed
merged-changed p item h e = ground (
  arith,
  differs_self title_field p.title item.title (ap (λ (i : Item). i.title) e),
  differs_self description_field p.description item.description
      (ap (λ (i : Item). i.description) e),
  differs_self category_field p.category item.category (ap (λ (i : Item). i.category) e),
  differs_self color_field p.color item.color (ap (λ (i : Item). i.color) e),
  differs_self location_description_field p.location_description item.location_description
      (ap (λ (i : Item). i.location_description) e),
  differs_self approximate_date_field p.approximate_date item.approximate_date
      (ap (λ (i : Item). i.approximate_date) e),
  differs_self reporter_user_id_field p.reporter_user_id item.reporter_user_id
      (ap (λ (i : Item). i.reporter_user_id) e),
)

is_empty_lem : (cs : List Change) → is_empty cs ≡ true → cs ≡ []
is_empty_lem [] h = refl
is_empty_lem (c ∷ cs) h = absurd (ground arith)

-- Nothing is requested.
pub is_empty_unchanged :
    (p : ItemUpdateRequest) (item : Item) → is_empty (changes_of p) ≡ true → changed p item ≡ false
unfolding apply_changes
is_empty_unchanged p item h =
    let none_asked : changes_of p ≡ [] = is_empty_lem (changes_of p) h in
    ap (λ (x : Item × Bool). x.1)
      (sym (apply_changes-merged p item) ∙ ap (λ cs. apply_changes cs item) none_asked)
