-- ===== src/Item/Board.antt =====
-- item-service as a board of statuses: the abstract machine that its operations implement.
use trabalho_devops.Prelude.{
  ℕ, ◌==◌, ◌≡◌, refl, ◌⊎◌, sym, ap, ◌∙◌, true, false, Bool-cases, inl, inr, Option, none, some,
  List, [], ◌∷◌, elem, arith,
}
use mathlib.Core.Path.{subst}
use trabalho_devops.Exec.{Result, ok, err}
use trabalho_devops.Table.{find, save, insert}
use trabalho_devops.Table.Laws.{find-save, find-insert}
use trabalho_devops.Item.Models.{ItemStatus, available, Item, item_key, ItemDb, Error}
use trabalho_devops.Item.Rules.{Mode, Allowed}
use trabalho_devops.Item.Recovery.{Settled}

-- The status of each item that there is.
abbrev pub Board : Type 0
Board = ℕ → Option ItemStatus

abbrev pub status_at : Option Item → Option ItemStatus
status_at none = none
status_at (some item) = some item.status

abbrev pub board : ItemDb → Board
board d k = status_at (find item_key k d.tables.items)

abbrev pub Same : Board → Board → Type 0
Same b b' = (k : ℕ) → b' k ≡ b k

-- A new item, AVAILABLE.
abbrev pub Adds : Board → Board → Type 0
Adds b b' =
    (id : ℕ) × (b id ≡ none) × (b' id ≡ some available) × ((k : ℕ) → (k == id) ≡ false → b' k ≡ b k)

-- All of the `ids` are on the board, and may make the move by the transition diagram.
abbrev pub MayMove : Mode → ItemStatus → List ℕ → Board → Type 0
MayMove m target ids b =
    (k : ℕ) → elem k ids ≡ true → (from : ItemStatus) × (b k ≡ some from) × Allowed m from target

abbrev pub HasMoved : ItemStatus → List ℕ → Board → Board → Type 0
HasMoved target ids b b' =
    (k : ℕ) → (elem k ids ≡ true → b' k ≡ some target) × (elem k ids ≡ false → b' k ≡ b k)

-- They move all at once if all of them may, and none of them otherwise.
abbrev pub Moves : Mode → ItemStatus → List ℕ → Board → Board → Type 0
Moves m target ids b b' =
    (MayMove m target ids b × HasMoved target ids b b') ⊎ ((¬ MayMove m target ids b) × Same b b')

pub found_item :
    (o : Option Item) (from : ItemStatus)
    → status_at o ≡ some from
    → (item : Item) × (o ≡ some item) × (item.status ≡ from)
found_item none from h = absurd (ground arith)
found_item (some item) from h = (item, refl, ground arith)

pub Settled-Moves :
    {A : Type 0} (m : Mode) (target : ItemStatus) (ids : List ℕ) (d d' : ItemDb)
    (r : Result Error A)
    → Settled m target ids d d' r
    → Moves m target ids (board d) (board d')
Settled-Moves m target ids d d' (err e) (refused, same) = inr (
  λ may. refused (λ k e.
      let (from, there, allowed) = may k e in
      let (item, here, status) = found_item (find item_key k d.tables.items) from there in
      (item, here, subst (λ st. Allowed m st target) (sym status) allowed)),
  λ k. ap (λ x. board x k) same,
)
Settled-Moves m target ids d d' (ok a) (may, moved) = inl (
  λ k e. let (item, here, allowed) = may k e in (item.status, ap status_at here, allowed),
  λ k. (
    λ e.
        let (item, here, allowed) = may k e in
        let (item', there, is_moved) = (moved k).1 item e here in
        ap status_at there ∙ ap some is_moved.status,
    λ other. ap status_at ((moved k).0 other),
  ),
)

module _ (d d' : ItemDb) where
  -- The status under a key, when one row has been inserted or saved.
  pub inserted-Adds :
      (item : Item)
      → find item_key item.id d.tables.items ≡ none
      → item.status ≡ available
      → d'.tables.items ≡ insert item d.tables.items
      → Adds (board d) (board d')
  inserted-Adds item fresh status rows = (
    item.id,
    ap status_at fresh,
    ap (λ xs. status_at (find item_key item.id xs)) rows ∙ ap status_at own_row ∙ ap some status,
    λ k other. ap (λ xs. status_at (find item_key k xs)) rows ∙ ap status_at (other_row k other),
  )
    where
      own_row : find item_key item.id (insert item d.tables.items) ≡ some item
      own_row = ground (arith, find-insert item_key item item.id d.tables.items, fresh)

      other_row :
          (k : ℕ)
          → (k == item.id) ≡ false
          → find item_key k (insert item d.tables.items) ≡ find item_key k d.tables.items
      other_row k other = ground (arith, find-insert item_key item k d.tables.items)

  saved_row :
      (item item' : Item)
      → find item_key item'.id d.tables.items ≡ some item
      → d'.tables.items ≡ save item_key item' d.tables.items
      → (k : ℕ)
      → ((item'.id == k) ≡ true → board d' k ≡ some item'.status)
        × ((item'.id == k) ≡ false → board d' k ≡ board d k)
  saved_row item item' here rows k = (
    (λ same. ap (λ xs. status_at (find item_key k xs)) rows ∙ ap status_at (own same)),
    (λ other. ap (λ xs. status_at (find item_key k xs)) rows ∙ ap status_at (elsewhere other)),
  )
    where
      own :
          (item'.id == k) ≡ true → find item_key k (save item_key item' d.tables.items) ≡ some item'
      own same = ground (arith, find-save item_key item' k d.tables.items, here)

      elsewhere :
          (item'.id == k) ≡ false
          → find item_key k (save item_key item' d.tables.items) ≡ find item_key k d.tables.items
      elsewhere other = ground (arith, find-save item_key item' k d.tables.items)

  pub kept-Same :
      (item item' : Item)
      → find item_key item'.id d.tables.items ≡ some item
      → item'.status ≡ item.status
      → d'.tables.items ≡ save item_key item' d.tables.items
      → Same (board d) (board d')
  kept-Same item item' here status rows = λ k. elim (Bool-cases (item'.id == k)) [
    | inl same ↦
        (saved_row item item' here rows k).0 same
        ∙ ap some status
        ∙ ap status_at (sym (found k same))
    | inr other ↦ (saved_row item item' here rows k).1 other
  ]
    where
      found : (k : ℕ) → (item'.id == k) ≡ true → find item_key k d.tables.items ≡ some item
      found k same = ground (arith, here)

  pub moved-Moves :
      (m : Mode) (item item' : Item)
      → find item_key item'.id d.tables.items ≡ some item
      → Allowed m item.status item'.status
      → d'.tables.items ≡ save item_key item' d.tables.items
      → Moves m item'.status (item'.id ∷ []) (board d) (board d')
  moved-Moves m item item' here allowed rows = inl (
    λ k e. (item.status, ap status_at (found k e), allowed),
    λ k. (
      λ e. (saved_row item item' here rows k).0 (ground arith),
      λ other. (saved_row item item' here rows k).1 (ground arith),
    ),
  )
    where
      found : (k : ℕ) → elem k (item'.id ∷ []) ≡ true → find item_key k d.tables.items ≡ some item
      found k e = ground (arith, here)
