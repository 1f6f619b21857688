-- ===== src/Item/Sound.antt =====
-- Every operation of item-service keeps its database consistent.
use trabalho_devops.Prelude.{
  ℕ, String, ◌≡◌, Option, none, some, List, [], ◌∷◌, arith, All, from_keys, text_or,
}
use trabalho_devops.Exec.Laws.{bind-keeps}
use trabalho_devops.Exec.{pure, ◌>>=◌, ◌>>◌}
use trabalho_devops.Store.{Session, commit, close}
use trabalho_devops.Table.{find}
use trabalho_devops.Table.Laws.{find-save}
use trabalho_devops.Messaging.{Settings}
use trabalho_devops.Item.Models.{
  ItemStatus, in_recovery, Item, item_key, ItemDb, recovered, RecoveryOpenRequest,
  RecoveryCancelRequest, RecoveryCompleteRequest,
}
use trabalho_devops.Item.Rules.{
  Mode, by_open, by_cancel, by_complete, mode_name, validate_transition-Allowed,
}
use trabalho_devops.Item.Effects.{
  Stepped, apply_status_transition_error, apply_status_transition-Stepped,
}
use trabalho_devops.Item.Invariant.{
  IsSound, transition, change-IsConsistent, IsFresh-save, IsFresh-later, event_unused,
}
use trabalho_devops.Item.Numbering.{saved-IsNumbered}
use trabalho_devops.Item.Loading.{
  IsLoaded, pick-IsLoaded, get_items_or_raise_unchanged, get_items_or_raise_ok,
}
use trabalho_devops.Item.Records.{Op, get_items_or_raise}
use trabalho_devops.Item.Service.{
  apply_status_transition, transition_each, open_recovery, cancel_recovery, complete_recovery,
}

-- A transition of a stored item keeps the session sound.
pub Stepped-IsSound :
    (m : Mode) (target : ItemStatus) (item item' : Item) (s s' : Session ItemDb)
    → Stepped target (mode_name m) item item' s s'
    → find item_key item.id s.working.tables.items ≡ some item
    → IsSound s
    → IsSound s'
Stepped-IsSound m target item item' s s' t here v = record {
  distinct = rw t.uuids v.distinct;
  committed = rw t.committed v.committed;
  committed_numbered = rw t.committed v.committed_numbered;
  committed_fresh =
      rw t.committed (IsFresh-later s.env s'.env s.committed t.uuids t.drawn v.committed_fresh);
  working =
      change-IsConsistent item item' s.working s'.working (rw t.moved.same_id here) t.items
        v.working t.recorded t.announced
        (rw t.moved.status (transition (validate_transition-Allowed m item.status target t.valid)));
  working_fresh =
      IsFresh-save s.env s'.env item' s.working s'.working t.announced v.working_fresh v.distinct
        t.uuids t.items;
  working_numbered =
      saved-IsNumbered s.env s'.env item' s.working s'.working t.announced
        (event_unused s.env s'.env item' s.working s'.working t.announced v.working_fresh)
        v.working_numbered item (rw t.moved.same_id here) t.items t.moved.version;
}

-- The items that are still to move stay as loaded.
pub Stepped-IsLoaded :
    (mode : String) (target : ItemStatus) (item item' : Item) (s s' : Session ItemDb)
    → Stepped target mode item item' s s'
    → (items : List Item) → find item_key item.id items ≡ none
    → All (λ (i : Item). find item_key i.id s.working.tables.items ≡ some i) items
    → All (λ (i : Item). find item_key i.id s'.working.tables.items ≡ some i) items
Stepped-IsLoaded mode target item item' s s' t [] absent loaded = tt
Stepped-IsLoaded mode target item item' s s' t (i ∷ items) absent loaded = (
  rw t.items (
      ground (
        arith,
        find-save item_key item' i.id s.working.tables.items,
        t.moved.same_id,
        absent,
        loaded.0,
      )),
  Stepped-IsLoaded mode target item item' s s' t items (ground arith) loaded.1,
)

module _ (settings : Settings) (target : ItemStatus) (reason : String) (actor : Option ℕ)
    (m : Mode) where
  transition_each-IsSound :
      (items : List Item) (s : Session ItemDb)
      → IsLoaded items s.working
      → IsSound s
      → IsSound (transition_each settings target reason actor (mode_name m) items s).1
  unfolding transition_each
  transition_each-IsSound [] s l v = v
  transition_each-IsSound (item ∷ items) s l v =
      let step = apply_status_transition settings item target reason actor (mode_name m) in
      let loop = transition_each settings target reason actor (mode_name m) items in
      bind-keeps (λ moved. loop >>= λ rest. pure (moved.1 ∷ rest)) step s IsSound
        (λ e raised.
          rw
            (apply_status_transition_error settings item target reason actor (mode_name m) s e
              raised)
            v)
        (λ r done.
          let s' = (step s).1 in
          let t =
            apply_status_transition-Stepped settings item target reason actor (mode_name m) s r
              done in
          let after =
            transition_each-IsSound items s'
              (l.0.1, Stepped-IsLoaded (mode_name m) target item r.1 s s' t items l.0.0 l.1.1)
              (Stepped-IsSound m target item r.1 s s' t l.1.0 v) in
          bind-keeps (λ rest. pure (r.1 ∷ rest)) loop s' IsSound (λ e raised. after)
            (λ rest done'. after))

-- A commit keeps the session sound, and so does its end.
pub commit-IsSound : (s : Session ItemDb) → IsSound s → IsSound (record s { committed = s.working })
commit-IsSound s v = record {
  distinct = v.distinct;
  committed = v.working;
  committed_fresh = v.working_fresh;
  committed_numbered = v.working_numbered;
  working = v.working;
  working_fresh = v.working_fresh;
  working_numbered = v.working_numbered;
}

pub close-IsSound : (s : Session ItemDb) → IsSound s → IsSound (close s)
close-IsSound s v = record {
  distinct = v.distinct;
  committed = v.committed;
  committed_fresh = v.committed_fresh;
  committed_numbered = v.committed_numbered;
  working = v.committed;
  working_fresh = v.committed_fresh;
  working_numbered = v.committed_numbered;
}

module _ (settings : Settings) (target : ItemStatus) (reason : String) (actor : Option ℕ) (m : Mode)
    (ids : List ℕ) where
  -- The body that the three recovery operations share.
  abbrev pub recovery_body : Op (List Item)
  recovery_body = do
    items ← get_items_or_raise ids
    moved ← transition_each settings target reason actor (mode_name m) items
    commit
    pure moved

  recovery_body-IsSound : (s : Session ItemDb) → IsSound s → IsSound (recovery_body s).1
  recovery_body-IsSound s v =
      let same = get_items_or_raise_unchanged ids s in
      bind-keeps
        (λ items. transition_each settings target reason actor (mode_name m) items >>= λ moved.
          commit >> pure moved)
        (get_items_or_raise ids) s IsSound (λ e raised. rw same v)
        (λ items found.
          let after =
            transition_each-IsSound settings target reason actor m items s
              (rw (get_items_or_raise_ok ids s items found)
                (pick-IsLoaded (from_keys [] ids) s.working v.working.unique ids))
              v in
          rw same (
            bind-keeps (λ moved. commit >> pure moved)
              (transition_each settings target reason actor (mode_name m) items) s IsSound
              (λ e raised. after) (λ moved done. commit-IsSound _ after)))

pub open_recovery-IsSound :
    (settings : Settings) (payload : RecoveryOpenRequest) (s : Session ItemDb)
    → IsSound s
    → IsSound (open_recovery settings payload s).1
unfolding open_recovery
open_recovery-IsSound settings payload s v =
    recovery_body-IsSound settings in_recovery (text_or payload.reason "Recovery case opened")
      payload.actor_user_id by_open payload.item_ids s v

pub cancel_recovery-IsSound :
    (settings : Settings) (payload : RecoveryCancelRequest) (s : Session ItemDb)
    → IsSound s
    → IsSound (cancel_recovery settings payload s).1
unfolding cancel_recovery
cancel_recovery-IsSound settings payload s v =
    recovery_body-IsSound settings payload.target_status
      (text_or payload.reason "Recovery case cancelled") payload.actor_user_id by_cancel
      payload.item_ids s v

pub complete_recovery-IsSound :
    (settings : Settings) (payload : RecoveryCompleteRequest) (s : Session ItemDb)
    → IsSound s
    → IsSound (complete_recovery settings payload s).1
unfolding complete_recovery
complete_recovery-IsSound settings payload s v =
    recovery_body-IsSound settings recovered (text_or payload.reason "Recovery case completed")
      payload.actor_user_id by_complete payload.item_ids s v
