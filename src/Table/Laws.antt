-- ===== src/Table/Laws.antt =====
-- The laws of rows under lookup, update, insertion, selection and ordering.
use trabalho_devops.Prelude.{
  ℕ, Bool, none, some, List, [], ◌∷◌, ◌==◌, ◌≡◌, arith, refl, if◌then◌else◌, select, ◌∙◌, All,
  Bool-cases, inl, inr,
}
use mathlib.Core.Path.{subst}
use trabalho_devops.Table.{find, save, insert, dict_get, IsUnique, insert_by, order_by}

module _ {A : Type 0} (key : A → ℕ) where
  pub key-find : (k : ℕ) (xs : List A) (a : A) → find key k xs ≡ some a → key a ≡ k
  key-find k [] a h = ground arith
  key-find k (x ∷ xs) a h = ground (arith, key-find k xs a)

  -- An update is seen under its key, if the key is there, and nowhere else.
  pub find-save :
      (a : A) (k : ℕ) (xs : List A)
      → find key k (save key a xs) ≡ (
          if key a == k
          then elim (find key k xs) [ none ↦ none | some _ ↦ some a ]
          else find key k xs)
  find-save a k [] = ground arith
  find-save a k (x ∷ xs) = ground (arith, find-save a k xs)

  pub find-insert :
      (a : A) (k : ℕ) (xs : List A)
      → find key k (insert a xs)
        ≡ elim (find key k xs) [ none ↦ if key a == k then some a else none | some b ↦ some b ]
  find-insert a k [] = ground arith
  find-insert a k (x ∷ xs) = ground (arith, find-insert a k xs)

  pub save-IsUnique : (a : A) (xs : List A) → IsUnique key xs → IsUnique key (save key a xs)
  save-IsUnique a [] h = tt
  save-IsUnique a (x ∷ xs) h = ground (arith, save-IsUnique a xs h.1, find-save a (key x) xs)

  pub insert-IsUnique :
      (a : A) (xs : List A)
      → find key (key a) xs ≡ none
      → IsUnique key xs
      → IsUnique key (insert a xs)
  insert-IsUnique a [] h u = ground arith
  insert-IsUnique a (x ∷ xs) h u = ground (arith, insert-IsUnique a xs, find-insert a (key x) xs)

  pub find-select :
      (p : A → Bool) (k : ℕ) (xs : List A)
      → IsUnique key xs
      → find key k (select p xs)
        ≡ elim (find key k xs) [ none ↦ none | some a ↦ if p a then some a else none ]
  find-select p k [] u = refl
  find-select p k (x ∷ xs) u = ground (arith, find-select p k xs u.1)

  pub dict_get-find : (k : ℕ) (xs : List A) → IsUnique key xs → dict_get key k xs ≡ find key k xs
  dict_get-find k [] u = refl
  dict_get-find k (x ∷ xs) u = ground (arith, dict_get-find k xs u.1)

  module _ (rank : A → ℕ) where
    pub find-insert_by :
        (a : A) (k : ℕ) (xs : List A)
        → find key (key a) xs ≡ none
        → find key k (insert_by rank a xs) ≡ (if key a == k then some a else find key k xs)
    find-insert_by a k [] h = ground arith
    find-insert_by a k (x ∷ xs) h = ground (arith, find-insert_by a k xs)

    pub insert_by-IsUnique :
        (a : A) (xs : List A)
        → find key (key a) xs ≡ none
        → IsUnique key xs
        → IsUnique key (insert_by rank a xs)
    insert_by-IsUnique a [] h u = (refl, tt)
    insert_by-IsUnique a (x ∷ xs) h u =
        ground (arith, insert_by-IsUnique a xs, find-insert_by a (key x) xs)

    pub order_by-IsUnique :
        (xs : List A)
        → IsUnique key xs
        → IsUnique key (order_by rank xs)
          × ((k : ℕ) → find key k (order_by rank xs) ≡ find key k xs)
    order_by-IsUnique [] u = (tt, λ k. refl)
    order_by-IsUnique (x ∷ xs) u =
        let (v, same) = order_by-IsUnique xs u.1 in
        (
          insert_by-IsUnique x (order_by rank xs) (same (key x) ∙ u.0) v,
          λ k. ground (arith, find-insert_by x k (order_by rank xs), same k, same (key x)),
        )

  -- The last row of a key in a table that only grows.
  pub dict_get-insert :
      (a : A) (k : ℕ) (xs : List A)
      → dict_get key k (insert a xs) ≡ (if key a == k then some a else dict_get key k xs)
  dict_get-insert a k [] = ground arith
  dict_get-insert a k (x ∷ xs) = ground (arith, dict_get-insert a k xs)

  pub select-IsUnique : (p : A → Bool) (xs : List A) → IsUnique key xs → IsUnique key (select p xs)
  select-IsUnique p [] u = tt
  select-IsUnique p (x ∷ xs) u =
      ground (arith, select-IsUnique p xs u.1, find-select p (key x) xs u.1)

  -- A property of all rows, and of the rows that are found.
  pub All-find :
      (P : A → Type 0) (xs : List A) (k : ℕ) (a : A) → All P xs → find key k xs ≡ some a → P a
  All-find P [] k a h e = absurd (ground arith)
  All-find P (x ∷ xs) k a h e = elim (Bool-cases (key x == k)) [
    | inl same ↦ subst P (ground arith) h.0
    | inr other ↦ All-find P xs k a h.1 (ground arith)
  ]

  pub find-All :
      (P : A → Type 0) (xs : List A)
      → IsUnique key xs
      → ((k : ℕ) (a : A) → find key k xs ≡ some a → P a)
      → All P xs
  find-All P [] u h = tt
  find-All P (x ∷ xs) u h =
      (h (key x) x (ground arith), find-All P xs u.1 (λ k a e. h k a (ground arith)))
