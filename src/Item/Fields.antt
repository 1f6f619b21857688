-- ===== src/Item/Fields.antt =====
-- The fields of an item that an update may set, and one turn of the loop of `update_item`.
use trabalho_devops.Prelude.{
  ℕ, ◌==◌, ◌≡◌, refl, sym, ap, ◌∙◌, Bool, true, false, not, ◌||◌, Option, none, some, List, ◌∷◌,
  arith, Text, text_eq, text_eq_lem, text_eq_refl, get_or,
}
use trabalho_devops.Item.Models.{Item}
use trabalho_devops.Item.Update.{
  Change, set_title, set_description, set_category, set_color, set_location_description,
  set_approximate_date, set_reporter_user_id, entry, differs_then, set_field, apply_changes,
}

-- A field of an item that a request may set.
pub record Field (A : Type 0) : Type 0 where
  pub set : A → Change
  pub get : Item → A
  pub put : A → Item → Item
  pub same : A → A → Bool
  pub same_lem : (a b : A) → same a b ≡ true → a ≡ b
  pub same_refl : (a : A) → same a a ≡ true
  pub put-get : (item : Item) → put (get item) item ≡ item
  pub set_field-put :
      (v : A) (item : Item)
      → set_field (set v) item ≡ differs_then (same (get item) v) item (put v item)

-- The request asks for another value.
abbrev pub differs : {A : Type 0} → (A → A → Bool) → Option A → A → Bool
differs same none a = false
differs same (some v) a = not (same a v)

abbrev pub extended : Bool → Item × Bool → Item × Bool
extended b (item, later) = (item, b || later)

module _ {A : Type 0} (f : Field A) where
  differs_then-apply :
      (v : A) (cs : List Change) (item : Item) (b : Bool)
      → f.same (f.get item) v ≡ b
      → set_field (f.set v) item ≡ differs_then b item (f.put v item)
      → apply_changes (f.set v ∷ cs) item ≡ extended (not b) (apply_changes cs (f.put v item))
  unfolding apply_changes
  differs_then-apply v cs item true e s =
      let here : f.put v item ≡ item =
        ap (λ (a : A). f.put a item) (sym (f.same_lem (f.get item) v e)) ∙ f.put-get item in
      rw (s, here) refl
  differs_then-apply v cs item false e s = rw s refl

  -- One entry of the changes, which may be left out.
  pub apply_changes-entry :
      (o : Option A) (cs : List Change) (item : Item)
      → apply_changes (entry f.set o cs) item
        ≡ extended
            (differs f.same o (f.get item))
            (apply_changes cs (f.put (get_or o (f.get item)) item))
  apply_changes-entry none cs item = rw (f.put-get item) refl
  apply_changes-entry (some v) cs item =
      differs_then-apply v cs item (f.same (f.get item) v) refl (f.set_field-put v item)

  pub differs-false : (o : Option A) (a : A) → differs f.same o a ≡ false → get_or o a ≡ a
  differs-false none a h = refl
  differs-false (some v) a h = sym (f.same_lem a v (ground arith))

  pub differs_self : (o : Option A) (a : A) → get_or o a ≡ a → differs f.same o a ≡ false
  differs_self none a h = refl
  differs_self (some v) a h = rw h (rw (f.same_refl a))

module _ (set : Text → Change) (get : Item → Text) (put : Text → Item → Item)
    (put-get : (item : Item) → put (get item) item ≡ item)
    (set_field-put : (v : Text) (item : Item)
      → set_field (set v) item ≡ differs_then (text_eq (get item) v) item (put v item)) where
  abbrev text_field : Field Text
  text_field = record {
    set = set;
    get = get;
    put = put;
    same = text_eq;
    same_lem = text_eq_lem;
    same_refl = text_eq_refl;
    put-get = put-get;
    set_field-put = set_field-put;
  }

pub number_eq_lem : (a b : ℕ) → (a == b) ≡ true → a ≡ b
number_eq_lem a b h = ground arith

pub number_eq_refl : (a : ℕ) → (a == a) ≡ true
number_eq_refl a = ground arith

module _ (set : ℕ → Change) (get : Item → ℕ) (put : ℕ → Item → Item)
    (put-get : (item : Item) → put (get item) item ≡ item)
    (set_field-put : (v : ℕ) (item : Item)
      → set_field (set v) item ≡ differs_then (get item == v) item (put v item)) where
  abbrev number_field : Field ℕ
  number_field = record {
    set = set;
    get = get;
    put = put;
    same = λ a b. a == b;
    same_lem = number_eq_lem;
    same_refl = number_eq_refl;
    put-get = put-get;
    set_field-put = set_field-put;
  }

abbrev pub title_field : Field Text
unfolding set_field
title_field =
    text_field set_title (λ i. i.title) (λ v i. record i { title = v }) (λ i. refl) (λ v i. refl)

abbrev pub description_field : Field Text
unfolding set_field
description_field =
    text_field set_description (λ i. i.description) (λ v i. record i { description = v })
      (λ i. refl) (λ v i. refl)

abbrev pub category_field : Field Text
unfolding set_field
category_field =
    text_field set_category (λ i. i.category) (λ v i. record i { category = v }) (λ i. refl)
      (λ v i. refl)

abbrev pub color_field : Field Text
unfolding set_field
color_field =
    text_field set_color (λ i. i.color) (λ v i. record i { color = v }) (λ i. refl) (λ v i. refl)

abbrev pub location_description_field : Field Text
unfolding set_field
location_description_field =
    text_field set_location_description (λ i. i.location_description)
      (λ v i. record i { location_description = v }) (λ i. refl) (λ v i. refl)

abbrev pub approximate_date_field : Field ℕ
unfolding set_field
approximate_date_field =
    number_field set_approximate_date (λ i. i.approximate_date)
      (λ v i. record i { approximate_date = v }) (λ i. refl) (λ v i. refl)

abbrev pub reporter_user_id_field : Field ℕ
unfolding set_field
reporter_user_id_field =
    number_field set_reporter_user_id (λ i. i.reporter_user_id)
      (λ v i. record i { reporter_user_id = v }) (λ i. refl) (λ v i. refl)
