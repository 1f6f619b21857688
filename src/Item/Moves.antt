-- ===== src/Item/Moves.antt =====
-- What the operations of a user (create_item, update_item, update_item_status) do to the board.
use trabalho_devops.Prelude.{
  ℕ, ◌+◌, ◌≡◌, refl, sym, ◌∙◌, ap, some, [], ◌∷◌, arith, Bool, true, false, inl, inr, Option-cases,
}
use mathlib.Core.Path.{subst}
use trabalho_devops.Exec.{pure, raise_if, raise_unless, ◌>>=◌, ◌>>◌}
use trabalho_devops.Exec.Laws.{bind-keeps, raise_if-keeps, raise_unless-keeps}
use trabalho_devops.Store.{Session, commit}
use trabalho_devops.Table.{find}
use trabalho_devops.Table.Laws.{key-find}
use trabalho_devops.Messaging.{Settings}
use trabalho_devops.Item.Models.{
  ItemStatus, available, in_recovery, recovered, Item, item_key, ItemDb, ItemCreateRequest,
  ItemUpdateRequest, ItemStatusUpdateRequest, invalid_update,
}
use trabalho_devops.Item.Transitions.{status_in}
use trabalho_devops.Item.Rules.{
  by_user, Allowed, match_item, unmatch_item, cancel_item, close_item, close_recovered,
  validate_transition-Allowed,
}
use trabalho_devops.Item.Records.{Op, get_item_or_raise}
use trabalho_devops.Item.Service.{create_item, update_item_status, apply_status_transition}
use trabalho_devops.Item.Update.{changes_of, apply_changes, is_empty, finish_update, update_item}
use trabalho_devops.Item.Effects.{apply_status_transition_error, apply_status_transition-Stepped}
use trabalho_devops.Item.Edits.{get_item_or_raise_unchanged, get_item_or_raise-find}
use trabalho_devops.Item.Updating.{apply_changes-SameIdentity}
use trabalho_devops.Item.Invariant.{IsSound}
use trabalho_devops.Item.Board.{
  board, Same, Adds, Moves, found_item, inserted-Adds, kept-Same, moved-Moves,
}
use trabalho_devops.Item.Loop.{apply_status_transition_returns}

-- No user moves an item to IN_RECOVERY or RECOVERED.
forbidden_target :
    {from target : ItemStatus}
    → Allowed by_user from target
    → status_in target (in_recovery ∷ recovered ∷ []) ≡ true
    → ⊥
forbidden_target match_item h = ground arith
forbidden_target unmatch_item h = ground arith
forbidden_target (cancel_item i) h = ground arith
forbidden_target (close_item i) h = ground arith
forbidden_target close_recovered h = ground arith

module _ (settings : Settings) (s : Session ItemDb) (v : IsSound s)
    (clean : s.committed ≡ s.working) where
  abbrev Kept : Session ItemDb → Type 0
  Kept s' = Same (board s.working) (board s'.committed)

  still : Kept s
  still = λ k. ap (λ d. board d k) clean

  pub create_item-Adds :
      (payload : ItemCreateRequest)
      → Adds (board s.working) (board (create_item settings payload s).1.committed)
  unfolding create_item
  create_item-Adds payload =
      inserted-Adds s.working (create_item settings payload s).1.committed
        (record {
          id = s.env.uuids s.env.drawn;
          classification = payload.classification;
          title = payload.title;
          description = payload.description;
          category = payload.category;
          color = payload.color;
          location_description = payload.location_description;
          approximate_date = payload.approximate_date;
          reporter_user_id = payload.reporter_user_id;
          status = available;
          version = 1;
          created_at = s.env.times s.env.ticks;
          updated_at = s.env.times s.env.ticks;
        })
        ((v.working_fresh s.env.drawn (omega arith)).0) refl refl

  finish_update-Same :
      (item changed : Item)
      → find item_key changed.id s.working.tables.items ≡ some item
      → changed.status ≡ item.status
      → Kept (finish_update settings changed s).1
  unfolding finish_update
  finish_update-Same item changed here status =
      kept-Same s.working (finish_update settings changed s).1.committed item
        (record changed { version = changed.version + 1; updated_at = s.env.times s.env.ticks })
        here status refl

  pub update_item-Same :
      (id : ℕ) (payload : ItemUpdateRequest) → Kept (update_item settings id payload s).1
  unfolding update_item
  update_item-Same id payload =
      let changes = changes_of payload in
      let finish : Item → Op Item = λ item. finish_update settings (apply_changes changes item).0 in
      bind-keeps
        (λ item.
          raise_if (is_empty changes) invalid_update
          >> (raise_unless (apply_changes changes item).1 invalid_update >> finish item))
        (get_item_or_raise id) s Kept (λ e raised. rw (get_item_or_raise_unchanged id s) still)
        (λ item found. rw (get_item_or_raise_unchanged id s) (
          raise_if-keeps Kept invalid_update
            (raise_unless (apply_changes changes item).1 invalid_update >> finish item) s
            (is_empty changes) still
            (λ given.
              raise_unless-keeps Kept invalid_update (finish item) s (apply_changes changes item).1
                still
                (λ effective.
                  let here = get_item_or_raise-find id s item found in
                  let same = apply_changes-SameIdentity changes item in
                  finish_update-Same item (apply_changes changes item).0
                    (rw same.id (simp (key-find item_key id s.working.tables.items item here) here))
                    same.status))))

  -- Only the diagram's own targets may be asked for.
  abbrev Moved : ℕ → ItemStatusUpdateRequest → Session ItemDb → Type 0
  Moved id payload s' =
      Moves by_user payload.status (id ∷ []) (board s.working) (board s'.committed)

  refused :
      (id : ℕ) (payload : ItemStatusUpdateRequest)
      → ((item : Item)
          → find item_key id s.working.tables.items ≡ some item
          → ¬ Allowed by_user item.status payload.status)
      → Moved id payload s
  refused id payload never = inr (
    λ may.
        let (from, there, allowed) = may id (ground arith) in
        let (item, here, status) =
          found_item (find item_key id s.working.tables.items) from there in
        never item here (subst (λ st. Allowed by_user st payload.status) (sym status) allowed),
    still,
  )

  transition-Moves :
      (id : ℕ) (payload : ItemStatusUpdateRequest) (item : Item)
      → find item_key id s.working.tables.items ≡ some item
      → Moved id payload
          ((apply_status_transition settings item payload.status payload.reason
                payload.actor_user_id "public"
              >>= λ moved. commit >> pure moved.1)
            s).1
  transition-Moves id payload item here =
      let step =
        apply_status_transition settings item payload.status payload.reason payload.actor_user_id
          "public" in
      bind-keeps (λ moved. commit >> pure moved.1) step s (Moved id payload)
        (λ e raised.
          rw
            (apply_status_transition_error settings item payload.status payload.reason
              payload.actor_user_id "public" s e raised)
            (refused id payload (λ x there allowed.
              let same : x ≡ item = ground (arith, here, there) in
              let (r, returned) =
                apply_status_transition_returns settings payload.status payload.reason
                  payload.actor_user_id by_user item s
                  (subst (λ (y : Item). Allowed by_user y.status payload.status) same allowed) in
              ground (arith, returned, raised))))
        (λ r moved.
          let st =
            apply_status_transition-Stepped settings item payload.status payload.reason
              payload.actor_user_id "public" s r moved in
          let own : item.id ≡ id = key-find item_key id s.working.tables.items item here in
          subst
            (λ i.
              Moves by_user payload.status (i ∷ []) (board s.working) (board (step s).1.working))
            (st.moved.same_id ∙ own)
            (subst
              (λ target.
                Moves by_user target (r.1.id ∷ []) (board s.working) (board (step s).1.working))
              st.moved.status
              (moved-Moves s.working (step s).1.working by_user item r.1
                (rw st.moved.same_id (simp own here))
                (rw st.moved.status
                  (validate_transition-Allowed by_user item.status payload.status st.valid))
                st.items)))

  stored-Moves :
      (id : ℕ) (payload : ItemStatusUpdateRequest) (item : Item) (forbidden : Bool)
      → find item_key id s.working.tables.items ≡ some item
      → status_in payload.status (in_recovery ∷ recovered ∷ []) ≡ forbidden
      → Moved id payload (update_item_status settings id payload s).1
  unfolding update_item_status
  stored-Moves id payload item true here e =
      simp (here, e) (refused id payload (λ x there allowed. forbidden_target allowed e))
  stored-Moves id payload item false here e = simp (here, e) (transition-Moves id payload item here)

  pub update_item_status-Moves :
      (id : ℕ) (payload : ItemStatusUpdateRequest)
      → Moved id payload (update_item_status settings id payload s).1
  unfolding update_item_status
  update_item_status-Moves id payload =
      elim (Option-cases (find item_key id s.working.tables.items)) [
        | inl absent ↦
            simp absent (refused id payload (λ x there allowed. ground (arith, absent, there)))
        | inr (item, here) ↦ stored-Moves id payload item _ here refl
      ]
