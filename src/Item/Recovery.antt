-- ===== src/Item/Recovery.antt =====
-- The internal interface of item-service, `open_recovery`, `cancel_recovery` and
-- `complete_recovery`: each moves all of its items or none.
use trabalho_devops.Prelude.{
  ℕ, ◌≡◌, refl, sym, ◌∙◌, Option-cases, ◌⊎◌, inl, inr, [], true, Option, none, some, List, arith,
  All, elem, from_keys, text_or, if◌then◌else◌, String,
}
use mathlib.Core.Path.{subst, ap₂}
use trabalho_devops.Keys.{elem-from_keys}
use trabalho_devops.Exec.{Result, ok, err, pure, ◌>>=◌, ◌>>◌}
use trabalho_devops.Exec.Laws.{bind-eq, bind-eq_err, Result-cases}
use trabalho_devops.Store.{Session, commit, close, in_session}
use trabalho_devops.Table.{find, IsUnique}
use trabalho_devops.Table.Laws.{All-find, find-All}
use trabalho_devops.Messaging.{Settings}
use trabalho_devops.Item.Models.{
  ItemStatus, in_recovery, recovered, Item, item_key, ItemDb, Error, RecoveryOpenRequest,
  RecoveryCancelRequest, RecoveryCompleteRequest,
}
use trabalho_devops.Item.Rules.{Mode, by_open, by_cancel, by_complete, Allowed}
use trabalho_devops.Item.Records.{Op, missing_ids, pick, get_items_or_raise}
use trabalho_devops.Item.Loading.{
  rows_of, dict_get-rows_of, pick-IsLoaded, find-loaded, get_items_or_raise_unchanged,
  get_items_or_raise_ok, get_items_or_raise-missing, get_items_or_raise_returns,
}
use trabalho_devops.Item.Service.{open_recovery, cancel_recovery, complete_recovery}
use trabalho_devops.Item.Sound.{recovery_body}
use trabalho_devops.Item.Loop.{
  loop, Outcome, loop_committed, loop_returned, loop_returns, AllMayMove, AllMoved, missing_none,
  none_missing,
}

-- How an operation on the `ids` ends, from the database `d` to `d'`: it returns, every one of its
-- items could move, and exactly these have moved; or it raises, some item is missing or could not
-- move, and the database is as it was.
abbrev pub Settled :
    {A : Type 0} → Mode → ItemStatus → List ℕ → ItemDb → ItemDb → Result Error A → Type 0
Settled m target ids d d' (ok _) = AllMayMove m target ids d × AllMoved target ids d d'
Settled m target ids d d' (err _) = (¬ AllMayMove m target ids d) × (d' ≡ d)

module _ (settings : Settings) (target : ItemStatus) (reason : String) (actor : Option ℕ) (m : Mode)
    (ids : List ℕ) (s : Session ItemDb) (u : IsUnique item_key s.working.tables.items) where
  abbrev rows : List Item
  rows = rows_of (from_keys [] ids) s.working.tables.items

  abbrev items : List Item
  items = pick rows (from_keys [] ids)

  find-items :
      (k : ℕ)
      → find item_key k items
        ≡ (if elem k ids then find item_key k s.working.tables.items else none)
  find-items k =
      find-loaded (from_keys [] ids) s.working u k ids ∙ ground (arith, elem-from_keys k [] ids)

  abbrev run : List Item → Op (List Item)
  run = loop settings target reason actor m

  abbrev body : Op (List Item)
  body = recovery_body settings target reason actor m ids

  abbrev after_load : List Item → Op (List Item)
  after_load loaded = run loaded >>= λ moved. commit >> pure moved

  -- The items that may move are all there, and their loop returns.
  none_missing_of_may_move :
      AllMayMove m target ids s.working → missing_ids rows (from_keys [] ids) ≡ []
  none_missing_of_may_move may = none_missing rows (from_keys [] ids) (λ k e absent.
      let (item, here, _) = may k (ground (arith, elem-from_keys k [] ids)) in
      ground (arith, dict_get-rows_of k (from_keys [] ids) s.working.tables.items u))

  items_may_move :
      AllMayMove m target ids s.working → All (λ (i : Item). Allowed m i.status target) items
  items_may_move may =
      find-All item_key (λ (i : Item). Allowed m i.status target) items
        (pick-IsLoaded (from_keys [] ids) s.working u ids).0
        (λ k item here.
          let (stored, there, allowed) = may k (ground (arith, find-items k)) in
          let same : stored ≡ item = ground (arith, find-items k) in
          subst (λ (i : Item). Allowed m i.status target) same allowed)

  loaded_outcome :
      (out : List Item)
      → missing_ids rows (from_keys [] ids) ≡ []
      → (run items s).0 ≡ ok out
      → AllMayMove m target ids s.working × AllMoved target ids s.working (run items s).1.working
  loaded_outcome out none_gone done =
      let (valid, outcome) =
        loop_returned settings target reason actor m items s out
          (pick-IsLoaded (from_keys [] ids) s.working u ids) done in
      (
        λ k e. may valid k e (Option-cases (find item_key k s.working.tables.items)),
        λ k. (
          λ other.
              let absent : find item_key k items ≡ none = find-items k ∙ ground arith in
              subst (AtKey k) absent (outcome k),
          λ item e here.
              let present : find item_key k items ≡ some item = find-items k ∙ ground arith in
              subst (AtKey k) present (outcome k),
        ),
      )
    where
      AtKey : ℕ → Option Item → Type 0
      AtKey k o =
          Outcome settings target reason actor m o (find item_key k s.working.tables.items)
            (find item_key k (run items s).1.working.tables.items)

      may :
          All (λ (i : Item). Allowed m i.status target) items
          → (k : ℕ) → elem k ids ≡ true
          → (find item_key k s.working.tables.items ≡ none)
            ⊎ ((i : Item) × (find item_key k s.working.tables.items ≡ some i))
          → (item : Item) × (find item_key k s.working.tables.items ≡ some item)
            × Allowed m item.status target
      may valid k e (inl absent) = absurd (
          missing_none rows k (from_keys [] ids) none_gone (ground (arith, elem-from_keys k [] ids))
            (ground (arith, dict_get-rows_of k (from_keys [] ids) s.working.tables.items u)))
      may valid k e (inr (item, here)) = (
        item,
        here,
        All-find item_key (λ (i : Item). Allowed m i.status target) items k item valid
            (find-items k ∙ ground arith),
      )

  body-Settled :
      s.committed ≡ s.working → Settled m target ids s.working (body s).1.committed (body s).0
  body-Settled clean = elim (Result-cases (get_items_or_raise ids s).0) [
    | inr (e, raised) ↦
        subst (λ x. Settled m target ids s.working x.1.committed x.0)
          (sym (bind-eq_err (get_items_or_raise ids) after_load s e raised))
          (
            λ may. ground (arith, get_items_or_raise_returns ids s (none_missing_of_may_move may)),
            rw (get_items_or_raise_unchanged ids s) clean,
          )
    | inl (loaded, found) ↦
        subst (λ x. Settled m target ids s.working x.1.committed x.0) (sym (loaded-eq loaded found))
          (after_load-Settled (get_items_or_raise-missing ids s loaded found)
            (Result-cases (run items s).0))
  ]
    where
      loaded-eq :
          (loaded : List Item)
          → (get_items_or_raise ids s).0 ≡ ok loaded
          → body s ≡ after_load items s
      loaded-eq loaded found =
          bind-eq (get_items_or_raise ids) after_load s loaded found
          ∙ ap₂ after_load (get_items_or_raise_ok ids s loaded found)
              (get_items_or_raise_unchanged ids s)

      after_load-Settled :
          missing_ids rows (from_keys [] ids) ≡ []
          → ((out : List Item) × ((run items s).0 ≡ ok out))
            ⊎ ((e : Error) × ((run items s).0 ≡ err e))
          → Settled m target ids s.working (after_load items s).1.committed (after_load items s).0
      after_load-Settled none_gone (inl (out, done)) =
          subst (λ x. Settled m target ids s.working x.1.committed x.0)
            (sym (bind-eq (run items) (λ moved. commit >> pure moved) s out done))
            (loaded_outcome out none_gone done)
      after_load-Settled none_gone (inr (e, raised)) =
          subst (λ x. Settled m target ids s.working x.1.committed x.0)
            (sym (bind-eq_err (run items) (λ moved. commit >> pure moved) s e raised))
            (
              λ may.
                  ground (
                    arith,
                    loop_returns settings target reason actor m items s (items_may_move may),
                  ),
              loop_committed settings target reason actor m items s ∙ clean,
            )

-- The three operations, each in a session of its own.
module _ (settings : Settings) (s : Session ItemDb)
    (u : IsUnique item_key s.committed.tables.items) where
  -- Opening a recovery either moves every one of its items to IN_RECOVERY, which it does exactly
  -- when all of them exist and are AVAILABLE or MATCHED, and touches no other item; or it raises
  -- and leaves the database as it was. The ids of the items are taken to be unique.
  pub open_recovery-Settled :
      (payload : RecoveryOpenRequest)
      → let (r, s') = in_session (open_recovery settings payload) s in
        Settled by_open in_recovery payload.item_ids s.committed s'.committed r
  unfolding open_recovery
  open_recovery-Settled payload =
      body-Settled settings in_recovery (text_or payload.reason "Recovery case opened")
        payload.actor_user_id by_open payload.item_ids (close s) u refl

  -- Cancelling a recovery either moves every one of its items to the requested status, which it
  -- does exactly when all of them exist and are IN_RECOVERY and the requested status is AVAILABLE
  -- or MATCHED, and touches no other item; or it raises and leaves the database as it was. The ids
  -- of the items are taken to be unique.
  pub cancel_recovery-Settled :
      (payload : RecoveryCancelRequest)
      → let (r, s') = in_session (cancel_recovery settings payload) s in
        Settled by_cancel payload.target_status payload.item_ids s.committed s'.committed r
  unfolding cancel_recovery
  cancel_recovery-Settled payload =
      body-Settled settings payload.target_status (text_or payload.reason "Recovery case cancelled")
        payload.actor_user_id by_cancel payload.item_ids (close s) u refl

  -- Completing a recovery either moves every one of its items to RECOVERED, which it does exactly
  -- when all of them exist and are IN_RECOVERY, and touches no other item; or it raises and leaves
  -- the database as it was. The ids of the items are taken to be unique.
  pub complete_recovery-Settled :
      (payload : RecoveryCompleteRequest)
      → let (r, s') = in_session (complete_recovery settings payload) s in
        Settled by_complete recovered payload.item_ids s.committed s'.committed r
  unfolding complete_recovery
  complete_recovery-Settled payload =
      body-Settled settings recovered (text_or payload.reason "Recovery case completed")
        payload.actor_user_id by_complete payload.item_ids (close s) u refl
