-- ===== src/Item/Loop.antt =====
-- The loop of the three recovery operations: when it returns, and what it does to every item.
use trabalho_devops.Prelude.{
  ℕ, ◌==◌, ◌+◌, String, ◌≡◌, ◌≢◌, refl, ◌∙◌, true, false, Option, none, some, List, [], ◌∷◌, arith,
  All, elem, Bool-cases, inl, inr, if◌then◌else◌,
}
use mathlib.Core.Path.{subst, ap}
use trabalho_devops.Exec.{ok, pure, ◌>>=◌}
use trabalho_devops.Exec.Laws.{bind-keeps, bind-ok, bind-eq}
use trabalho_devops.Store.{Session}
use trabalho_devops.Table.{find, dict_get}
use trabalho_devops.Table.Laws.{find-save}
use trabalho_devops.Messaging.{Settings}
use trabalho_devops.Item.Models.{ItemStatus, status_eq, Item, item_key, ItemDb}
use trabalho_devops.Item.Transitions.{validate_transition}
use trabalho_devops.Item.Rules.{
  Mode, mode_name, Allowed, validate_transition-Allowed, Allowed-validate_transition,
}
use trabalho_devops.Item.Effects.{
  Moved, apply_status_transition_error, apply_status_transition-Stepped,
}
use trabalho_devops.Item.Records.{Op, missing_ids}
use trabalho_devops.Item.Loading.{IsLoaded}
use trabalho_devops.Item.Service.{apply_status_transition, transition_each}
use trabalho_devops.Item.Sound.{Stepped-IsLoaded}

-- A transition of the diagram is never from a status to itself, so it passes the first guard.
Allowed-ne : (m : Mode) (s t : ItemStatus) → Allowed m s t → status_eq s t ≡ false
unfolding validate_transition
Allowed-ne m s t a = ground (arith, Allowed-validate_transition m s t a)

module _ (settings : Settings) (target : ItemStatus) (reason : String) (actor : Option ℕ)
    (m : Mode) where
  pub apply_status_transition_returns :
      (item : Item) (s : Session ItemDb)
      → Allowed m item.status target
      → (r : ItemStatus × Item) × ((apply_status_transition settings item target reason actor
            (mode_name m)
            s).0
          ≡ ok r)
  unfolding apply_status_transition
  apply_status_transition_returns item s a = (
    (
      item.status,
      record item {
        status = target;
        version = item.version + 1;
        updated_at = s.env.times s.env.ticks;
      },
    ),
    ground (
      arith,
      Allowed-ne m item.status target a,
      Allowed-validate_transition m item.status target a,
    ),
  )

  abbrev pub loop : List Item → Op (List Item)
  loop = transition_each settings target reason actor (mode_name m)

  -- What a successful loop has done to the item under a key.
  abbrev pub Outcome : Option Item → Option Item → Option Item → Type 0
  Outcome none before after = after ≡ before
  Outcome (some i) before after = (i' : Item) × (after ≡ some i') × Moved target i i'

  Outcome-step :
      (item item' : Item) (k : ℕ) (rest before between after : Option Item)
      → Moved target item item'
      → between
        ≡ (if item'.id == k then elim before [ none ↦ none | some _ ↦ some item' ] else before)
      → (item.id ≡ k → before ≡ some item)
      → (item.id ≡ k → rest ≡ none)
      → Outcome rest between after
      → Outcome (if item.id == k then some item else rest) before after
  Outcome-step item item' k rest before between after moved b here once o =
      elim (Bool-cases (item.id == k)) [
        | inl same ↦
            let unmoved : after ≡ between =
              subst (λ r. Outcome r between after) (once (ground arith)) o in
            rw same (item', unmoved ∙ b ∙ ground (arith, here (ground arith), moved.same_id), moved)
        | inr other ↦
            let skipped : between ≡ before = b ∙ ground (arith, moved.same_id) in
            rw other (subst (λ x. Outcome rest x after) skipped o)
      ]

  pub loop_committed :
      (items : List Item) (s : Session ItemDb) → (loop items s).1.committed ≡ s.committed
  unfolding transition_each
  loop_committed [] s = refl
  loop_committed (item ∷ items) s =
      let step = apply_status_transition settings item target reason actor (mode_name m) in
      bind-keeps (λ moved. loop items >>= λ rest. pure (moved.1 ∷ rest)) step s
        (λ t. t.committed ≡ s.committed)
        (λ e raised.
          ap (λ (t : Session ItemDb). t.committed)
            (apply_status_transition_error settings item target reason actor (mode_name m) s e
              raised))
        (λ r done.
          let before =
            (apply_status_transition-Stepped settings item target reason actor (mode_name m) s r
              done).committed in
          bind-keeps (λ rest. pure (r.1 ∷ rest)) (loop items) (step s).1
            (λ t. t.committed ≡ s.committed) (λ e raised. loop_committed items (step s).1 ∙ before)
            (λ rest done. loop_committed items (step s).1 ∙ before))

  -- A loop that returns has moved each of its items by a transition of the diagram, and no other.
  pub loop_returned :
      (items : List Item) (s : Session ItemDb) (out : List Item)
      → IsLoaded items s.working
      → (loop items s).0 ≡ ok out
      → All (λ (i : Item). Allowed m i.status target) items
        × ((k : ℕ)
            → Outcome
                (find item_key k items)
                (find item_key k s.working.tables.items)
                (find item_key k (loop items s).1.working.tables.items))
  unfolding transition_each
  loop_returned [] s out l h = (tt, λ k. refl)
  loop_returned (item ∷ items) s out l h =
      let step = apply_status_transition settings item target reason actor (mode_name m) in
      let (r, done, h', e) =
        bind-ok (λ moved. loop items >>= λ rest. pure (moved.1 ∷ rest)) step s out h in
      let s' = (step s).1 in
      let t =
        apply_status_transition-Stepped settings item target reason actor (mode_name m) s r done in
      let (rest, done', _, e') = bind-ok (λ rest. pure (r.1 ∷ rest)) (loop items) s' out h' in
      let (valid, outcome) =
        loop_returned items s' rest
          (l.0.1, Stepped-IsLoaded (mode_name m) target item r.1 s s' t items l.0.0 l.1.1) done' in
      (
        (validate_transition-Allowed m item.status target t.valid, valid),
        λ k.
            rw (e, e')
              (Outcome-step item r.1 k (find item_key k items)
                (find item_key k s.working.tables.items) (find item_key k s'.working.tables.items)
                (find item_key k (loop items s').1.working.tables.items) t.moved
                (ap (find item_key k) t.items ∙ find-save item_key r.1 k s.working.tables.items)
                (λ q. simp (← q) l.1.0) (λ q. simp (← q) l.0.0) (outcome k)),
      )

  -- A loop over items that may all move returns.
  pub loop_returns :
      (items : List Item) (s : Session ItemDb)
      → All (λ (i : Item). Allowed m i.status target) items
      → (out : List Item) × ((loop items s).0 ≡ ok out)
  unfolding transition_each
  loop_returns [] s a = ([], refl)
  loop_returns (item ∷ items) s a =
      let step = apply_status_transition settings item target reason actor (mode_name m) in
      let (r, done) = apply_status_transition_returns item s a.0 in
      let (rest, done') = loop_returns items (step s).1 a.1 in
      (
        r.1 ∷ rest,
        ap (λ x. x.0)
              (bind-eq step (λ moved. loop items >>= λ rest. pure (moved.1 ∷ rest)) s r done)
            ∙ ap (λ x. x.0)
                (bind-eq (loop items) (λ rest. pure (r.1 ∷ rest)) (step s).1 rest done'),
      )

-- A database in which every one of the `ids` names an item that may move.
abbrev pub AllMayMove : Mode → ItemStatus → List ℕ → ItemDb → Type 0
AllMayMove m target ids d =
    (k : ℕ)
    → elem k ids ≡ true
    → (item : Item) × (find item_key k d.tables.items ≡ some item) × Allowed m item.status target

-- How an operation that moves the `ids` changes the database: their items move, no other does.
abbrev pub AllMoved : ItemStatus → List ℕ → ItemDb → ItemDb → Type 0
AllMoved target ids d d' =
    (k : ℕ)
    → (elem k ids ≡ false → find item_key k d'.tables.items ≡ find item_key k d.tables.items)
      × ((item : Item)
          → elem k ids ≡ true
          → find item_key k d.tables.items ≡ some item
          → (item' : Item) × (find item_key k d'.tables.items ≡ some item')
            × Moved target item item')

pub missing_none :
    (rows : List Item) (k : ℕ) (ids : List ℕ)
    → missing_ids rows ids ≡ []
    → elem k ids ≡ true
    → dict_get item_key k rows ≢ none
missing_none rows k [] h e = cc
missing_none rows k (j ∷ ids) h e = ground (arith, missing_none rows k ids)

pub none_missing :
    (rows : List Item) (ids : List ℕ)
    → ((k : ℕ) → elem k ids ≡ true → dict_get item_key k rows ≢ none)
    → missing_ids rows ids ≡ []
none_missing rows [] h = refl
none_missing rows (j ∷ ids) h =
    ground (arith, h j, none_missing rows ids (λ k e. h k (ground arith)))
