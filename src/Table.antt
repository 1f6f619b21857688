-- ===== src/Table.antt =====
-- A database table with a numeric primary key, as the list of its rows in insertion order.
pub mod Laws
use trabalho_devops.Prelude.{
  ℕ, Bool, true, false, Option, none, some, List, [], ◌∷◌, ◌++◌, ◌==◌, ◌≡◌, leb, if◌then◌else◌,
}

module _ {A : Type 0} (key : A → ℕ) where
  -- `session.get(Model, id)`
  abbrev pub find : ℕ → List A → Option A
  find k [] = none
  find k (x ∷ xs) = if key x == k then some x else find k xs

  -- The row with the key of `a` becomes `a`: what an assignment to a loaded object's fields does.
  abbrev pub save : A → List A → List A
  save a [] = []
  save a (x ∷ xs) = if key x == key a then a ∷ xs else x ∷ save a xs

  -- `{row.id: row for row in rows}.get(k)`: the last row with that key
  abbrev pub dict_get : ℕ → List A → Option A
  dict_get k [] = none
  dict_get k (x ∷ xs) = elim (dict_get k xs) [
    | none ↦ if key x == k then some x else none
    | some y ↦ some y
  ]

  -- No key stands twice.
  abbrev pub IsUnique : List A → Type 0
  IsUnique [] = Unit
  IsUnique (x ∷ xs) = (find (key x) xs ≡ none) × IsUnique xs

-- `session.add(row)`
abbrev pub insert {ℓ} : {A : Type ℓ} → A → List A → List A
insert a xs = xs ++ a ∷ []

module _ {A : Type 0} (rank : A → ℕ) where
  abbrev pub insert_by : A → List A → List A
  insert_by a [] = a ∷ []
  insert_by a (x ∷ xs) = if leb (rank a) (rank x) then a ∷ x ∷ xs else x ∷ insert_by a xs

  -- `order_by(rank.asc())`; rows of equal rank stay in table order
  abbrev pub order_by : List A → List A
  order_by [] = []
  order_by (x ∷ xs) = insert_by x (order_by xs)

  abbrev pub insert_by_desc : A → List A → List A
  insert_by_desc a [] = a ∷ []
  insert_by_desc a (x ∷ xs) = if leb (rank x) (rank a) then a ∷ x ∷ xs else x ∷ insert_by_desc a xs

  -- `order_by(rank.desc())`
  abbrev pub order_by_desc : List A → List A
  order_by_desc [] = []
  order_by_desc (x ∷ xs) = insert_by_desc x (order_by_desc xs)
