-- ===== src/Item/Loading.antt =====
-- What `get_items_or_raise` returns: the stored items that are asked for, each once.
use trabalho_devops.Prelude.{
  ℕ, ◌≡◌, refl, ◌∙◌, Option, none, some, List, [], ◌∷◌, arith, All, select, elem, from_keys,
  Option-cases, inl, inr, ◌&&◌, if◌then◌else◌,
}
use trabalho_devops.Keys.{IsDistinct, elem-from_keys, from_keys-IsDistinct}
use trabalho_devops.Exec.{ok}
use trabalho_devops.Store.{Session}
use trabalho_devops.Table.{find, dict_get, order_by, IsUnique}
use trabalho_devops.Table.Laws.{
  key-find, find-select, select-IsUnique, dict_get-find, order_by-IsUnique,
}
use trabalho_devops.Item.Models.{Item, item_key, ItemDb}
use trabalho_devops.Item.Records.{missing_ids, prepend, pick, get_items_or_raise}

-- The loaded items are the stored ones, each once.
abbrev pub IsLoaded : List Item → ItemDb → Type 0
IsLoaded items d =
    IsUnique item_key items × All (λ (i : Item). find item_key i.id d.tables.items ≡ some i) items

-- The rows of `get_items_by_ids`.
abbrev pub rows_of : List ℕ → List Item → List Item
rows_of ids items =
    order_by (λ (i : Item). i.created_at) (select (λ (i : Item). elem i.id ids) items)

pub dict_get-rows_of :
    (k : ℕ) (ids : List ℕ) (items : List Item)
    → IsUnique item_key items
    → dict_get item_key k (rows_of ids items) ≡ (if elem k ids then find item_key k items else none)
dict_get-rows_of k ids items u =
    let chosen = select (λ (i : Item). elem i.id ids) items in
    let v = select-IsUnique item_key (λ (i : Item). elem i.id ids) items u in
    let (w, same) = order_by-IsUnique item_key (λ (i : Item). i.created_at) chosen v in
    dict_get-find item_key k (rows_of ids items) w
    ∙ same k
    ∙ find-select item_key (λ (i : Item). elem i.id ids) k items u
    ∙ found (find item_key k items) (key-find item_key k items)
  where
    found :
        (o : Option Item)
        → ((a : Item) → o ≡ some a → a.id ≡ k)
        → ◌≡◌ {A = Option Item}
            (elim o [ none ↦ none | some a ↦ if elem a.id ids then some a else none ])
            (if elem k ids then o else none)
    found none h = ground arith
    found (some a) h = ground (arith, h a refl)

module _ (rows : List Item)
    (keyed : (j : ℕ) (i : Item) → dict_get item_key j rows ≡ some i → i.id ≡ j) where
  -- What was picked under a key is the dict's entry.
  pub find-pick :
      (k : ℕ) (ids : List ℕ)
      → find item_key k (pick rows ids) ≡ (if elem k ids then dict_get item_key k rows else none)
  find-pick k [] = refl
  find-pick k (j ∷ ids) = elim (Option-cases (dict_get item_key j rows)) [
    | inl absent ↦ rw (absent, pick, prepend) (ground (arith, find-pick k ids))
    | inr (i, e) ↦ rw (e, pick, prepend) (ground (arith, find-pick k ids, keyed j i e))
  ]

  pick-IsUnique : (ids : List ℕ) → IsDistinct ids → IsUnique item_key (pick rows ids)
  pick-IsUnique [] h = tt
  pick-IsUnique (j ∷ ids) h = elim (Option-cases (dict_get item_key j rows)) [
    | inl absent ↦ rw (absent, pick, prepend) (pick-IsUnique ids h.1)
    | inr (i, e) ↦
        rw (e, pick, prepend)
          (ground (arith, find-pick i.id ids, keyed j i e, pick-IsUnique ids h.1))
  ]

  pick-stored :
      (d : ItemDb)
      → ((j : ℕ) (i : Item)
          → dict_get item_key j rows ≡ some i
          → find item_key j d.tables.items ≡ some i)
      → (ids : List ℕ)
      → All (λ (i : Item). find item_key i.id d.tables.items ≡ some i) (pick rows ids)
  pick-stored d stored [] = tt
  pick-stored d stored (j ∷ ids) = elim (Option-cases (dict_get item_key j rows)) [
    | inl absent ↦ rw (absent, pick, prepend) (pick-stored d stored ids)
    | inr (i, e) ↦
        rw (e, pick, prepend) (simp (keyed j i e) (stored j i e), pick-stored d stored ids)
  ]

module _ (ids : List ℕ) (d : ItemDb) (u : IsUnique item_key d.tables.items) where
  row-stored :
      (j : ℕ) (i : Item)
      → dict_get item_key j (rows_of ids d.tables.items) ≡ some i
      → find item_key j d.tables.items ≡ some i
  row-stored j i h = ground (arith, dict_get-rows_of j ids d.tables.items u)

  row-keyed :
      (j : ℕ) (i : Item) → dict_get item_key j (rows_of ids d.tables.items) ≡ some i → i.id ≡ j
  row-keyed j i h = key-find item_key j d.tables.items i (row-stored j i h)

  -- The items that the operations work on.
  pub pick-IsLoaded :
      (keys : List ℕ) → IsLoaded (pick (rows_of ids d.tables.items) (from_keys [] keys)) d
  pick-IsLoaded keys = (
    pick-IsUnique (rows_of ids d.tables.items) row-keyed (from_keys [] keys)
        (from_keys-IsDistinct [] keys),
    pick-stored (rows_of ids d.tables.items) row-keyed d row-stored (from_keys [] keys),
  )

  pub find-loaded :
      (k : ℕ) (keys : List ℕ)
      → find item_key k (pick (rows_of ids d.tables.items) (from_keys [] keys))
        ≡ (if elem k keys && elem k ids then find item_key k d.tables.items else none)
  find-loaded k keys =
      rw (find-pick (rows_of ids d.tables.items) row-keyed, dict_get-rows_of k ids d.tables.items u)
        (ground (arith, elem-from_keys k [] keys))

-- `get_items_or_raise` changes nothing.
pub get_items_or_raise_unchanged :
    (ids : List ℕ) (s : Session ItemDb) → (get_items_or_raise ids s).1 ≡ s
unfolding get_items_or_raise
get_items_or_raise_unchanged ids s = ground (arith)

-- It returns exactly when no id is missing.
pub get_items_or_raise_ok :
    (ids : List ℕ) (s : Session ItemDb) (items : List Item)
    → (get_items_or_raise ids s).0 ≡ ok items
    → items ≡ pick (rows_of (from_keys [] ids) s.working.tables.items) (from_keys [] ids)
unfolding get_items_or_raise
get_items_or_raise_ok ids s items h = ground arith

pub get_items_or_raise-missing :
    (ids : List ℕ) (s : Session ItemDb) (items : List Item)
    → (get_items_or_raise ids s).0 ≡ ok items
    → missing_ids (rows_of (from_keys [] ids) s.working.tables.items) (from_keys [] ids) ≡ []
unfolding get_items_or_raise
get_items_or_raise-missing ids s items h = ground arith

pub get_items_or_raise_returns :
    (ids : List ℕ) (s : Session ItemDb)
    → missing_ids (rows_of (from_keys [] ids) s.working.tables.items) (from_keys [] ids) ≡ []
    → (get_items_or_raise ids s).0
      ≡ ok (pick (rows_of (from_keys [] ids) s.working.tables.items) (from_keys [] ids))
unfolding get_items_or_raise
get_items_or_raise_returns ids s h = ground arith
