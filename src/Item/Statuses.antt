-- ===== src/Item/Statuses.antt =====
-- What the endpoints of item-service answer: the statuses of their refusals, and what is committed.
use trabalho_devops.Prelude.{
  ℕ, text_or, ◌≡◌, refl, ap, ◌⊎◌, inl, inr, String, Option, none, some, from_keys, List, [], ◌∷◌,
  arith,
}
use trabalho_devops.Exec.{pure, reraise, raise_if, raise_unless, or_raise, ◌>>=◌, ◌>>◌}
use trabalho_devops.Store.{Session, commit}
use trabalho_devops.Store.Outcomes.{
  Outcome, RaisesOnly, Ends, Checks, bind-Ends, bind-Checks, raise_if-Ends, raise_unless-Ends,
  commit-Ends, reraise-Ends, pure-Ends,
}
use trabalho_devops.Messaging.{Settings}
use trabalho_devops.Item.Models.{
  ItemStatus, in_recovery, recovered, Item, item_key, ItemDb, ItemUpdateRequest,
  ItemStatusUpdateRequest, Error, invalid_transition, invalid_update, not_found,
}
use trabalho_devops.Item.Transitions.{status_in, validate_transition}
use trabalho_devops.Item.Records.{
  Op, get_item_or_raise, get_items_by_ids, get_items_or_raise, raise_missing, missing_ids, pick,
}
use trabalho_devops.Item.Edits.{get_item_or_raise_unchanged}
use trabalho_devops.Table.{find}
use trabalho_devops.Item.Service.{
  create_item, update_item_status, transition_each, apply_status_transition, open_recovery,
  cancel_recovery, complete_recovery,
}
use trabalho_devops.Item.Update.{changes_of, apply_changes, is_empty, finish_update, update_item}
use trabalho_devops.Item.Requests.{
  Request, FitsColumns, create, update, update_status, open_case, cancel_case, complete_case,
}
use trabalho_devops.Item.Api.{
  RecoveryOperationResponse, respond, patch_status, transition_status, recovery_status,
  create_item_endpoint, patch_item_endpoint, patch_item_status_endpoint, open_recovery_endpoint,
  cancel_recovery_endpoint, complete_recovery_endpoint,
}

-- The status of a refusal, in place of the framework's 500.
abbrev pub IsRefusal : ℕ → Type 0
IsRefusal code = (code ≡ 404) ⊎ (code ≡ 400)

module _ (P : Error → Type 0) (missing : (ids : List ℕ) → P (not_found ids)) where
  or_raise-RaisesOnly :
      (ids : List ℕ) (o : Option Item) (s : Session ItemDb)
      → RaisesOnly P (or_raise o (not_found ids) s).0
  or_raise-RaisesOnly ids none s = missing ids
  or_raise-RaisesOnly ids (some item) s = tt

  get_item_or_raise-Checks : (id : ℕ) → Checks P (get_item_or_raise id)
  unfolding get_item_or_raise
  get_item_or_raise-Checks id s = (
    or_raise-RaisesOnly (id ∷ []) (find item_key id s.working.tables.items) s,
    ap (λ (x : Session ItemDb). x.committed) (get_item_or_raise_unchanged id s),
  )

  raise_missing-Checks : (ids : List ℕ) → Checks P (raise_missing ids)
  unfolding raise_missing
  raise_missing-Checks [] s = (tt, refl)
  raise_missing-Checks (id ∷ ids) s = (missing (id ∷ ids), refl)

  get_items_or_raise-Checks : (ids : List ℕ) → Checks P (get_items_or_raise ids)
  unfolding get_items_or_raise get_items_by_ids
  get_items_or_raise-Checks ids =
      let wanted = from_keys [] ids in
      let after : List Item → Op (List Item) =
        λ items. raise_missing (missing_ids items wanted) >> pure (pick items wanted) in
      bind-Checks P after (get_items_by_ids wanted) (λ s. (tt, refl))
        (λ items.
          bind-Checks P (λ _. pure (pick items wanted)) (raise_missing (missing_ids items wanted))
            (raise_missing-Checks (missing_ids items wanted)) (λ u s. (tt, refl)))

  module _ (invalid : P invalid_transition) (settings : Settings) (target : ItemStatus)
      (reason : String) (actor : Option ℕ) (mode : String) where
    apply_status_transition-Checks :
        (item : Item) → Checks P (apply_status_transition settings item target reason actor mode)
    unfolding apply_status_transition validate_transition
    apply_status_transition-Checks item s = ground (arith, invalid)

    transition_each-Checks :
        (items : List Item) → Checks P (transition_each settings target reason actor mode items)
    unfolding transition_each
    transition_each-Checks [] = λ s. (tt, refl)
    transition_each-Checks (item ∷ items) =
        let rest = transition_each settings target reason actor mode items in
        bind-Checks P (λ moved. rest >>= λ more. pure (moved.1 ∷ more))
          (apply_status_transition settings item target reason actor mode)
          (apply_status_transition-Checks item)
          (λ moved.
            bind-Checks P (λ more. pure (moved.1 ∷ more)) rest (transition_each-Checks items)
              (λ more s. (tt, refl)))

module _ (settings : Settings) where
  update_item-Ends :
      (id : ℕ) (payload : ItemUpdateRequest)
      → Ends (λ e. IsRefusal (patch_status e)) (update_item settings id payload)
  unfolding update_item finish_update
  update_item-Ends id payload =
      let P : Error → Type 0 = λ e. IsRefusal (patch_status e) in
      let changes = changes_of payload in
      let checked : Item → Op Item = λ item.
        raise_unless (apply_changes changes item).1 invalid_update
        >> finish_update settings (apply_changes changes item).0 in
      bind-Ends P (λ item. raise_if (is_empty changes) invalid_update >> checked item)
        (get_item_or_raise id) (get_item_or_raise-Checks P (λ ids. inl refl) id)
        (λ item. raise_if-Ends P (is_empty changes) invalid_update (checked item) (inr refl) (
          raise_unless-Ends P (apply_changes changes item).1 invalid_update
            (finish_update settings (apply_changes changes item).0) (inr refl) (λ s. refl)))

  update_item_status-Ends :
      (id : ℕ) (payload : ItemStatusUpdateRequest)
      → Ends (λ e. IsRefusal (transition_status e)) (update_item_status settings id payload)
  unfolding update_item_status
  update_item_status-Ends id payload =
      let P : Error → Type 0 = λ e. IsRefusal (transition_status e) in
      let reserved = status_in payload.status (in_recovery ∷ recovered ∷ []) in
      let step : Item → Op (ItemStatus × Item) = λ item.
        apply_status_transition settings item payload.status payload.reason payload.actor_user_id
          "public" in
      let move : Item → Op Item = λ item. step item >>= λ moved. commit >> pure moved.1 in
      bind-Ends P (λ item. raise_if reserved invalid_transition >> move item) (get_item_or_raise id)
        (get_item_or_raise-Checks P (λ ids. inl refl) id)
        (λ item. raise_if-Ends P reserved invalid_transition (move item) (inr refl) (
          bind-Ends P (λ moved. commit >> pure moved.1) (step item)
            (apply_status_transition-Checks P (λ ids. inl refl) (inr refl) settings payload.status
              payload.reason payload.actor_user_id "public" item)
            (λ moved. commit-Ends P moved.1)))

  -- The body of the three recovery operations.
  recovery-Ends :
      (target : ItemStatus) (reason : String) (actor : Option ℕ) (mode : String) (ids : List ℕ)
      → Ends
          (λ e. IsRefusal (recovery_status e))
          (get_items_or_raise ids >>= λ items.
            transition_each settings target reason actor mode items >>= λ moved.
            commit >> pure moved)
  recovery-Ends target reason actor mode ids =
      let P : Error → Type 0 = λ e. IsRefusal (recovery_status e) in
      let step : List Item → Op (List Item) =
        λ items. transition_each settings target reason actor mode items in
      bind-Ends P (λ items. step items >>= λ moved. commit >> pure moved) (get_items_or_raise ids)
        (get_items_or_raise-Checks P (λ ids. inr refl) ids)
        (λ items.
          bind-Ends P (λ moved. commit >> pure moved) (step items)
            (transition_each-Checks P (λ ids. inr refl) (inr refl) settings target reason actor mode
              items)
            (λ moved. commit-Ends P moved))

  recovery_response :
      (operation : String) (body : Op (List Item))
      → Ends (λ e. IsRefusal (recovery_status e)) body
      → Ends IsRefusal (
          reraise recovery_status body
          >>= (λ items. pure (record { operation = operation; items = items }))
          >>= λ (r : RecoveryOperationResponse). pure r.items)
  recovery_response operation body ends =
      let respond_with : List Item → RecoveryOperationResponse =
        λ items. record { operation = operation; items = items } in
      pure-Ends IsRefusal (λ (r : RecoveryOperationResponse). r.items)
        (reraise recovery_status body >>= λ items. pure (respond_with items))
        (pure-Ends IsRefusal respond_with (reraise recovery_status body)
          (reraise-Ends IsRefusal recovery_status body ends))

  -- If the category and the colour that a request asks for have at most 100 characters, as their
  -- columns, then each endpoint of item-service that changes items ends in one of two ways: it
  -- answers, and all that it wrote is committed; or it refuses with the status 404 or 400, never the
  -- 500 of an exception that it does not catch, and the database is as it was.
  pub respond-Outcome :
      (r : Request) (s : Session ItemDb)
      → FitsColumns r
      → Outcome IsRefusal s (respond settings r s).1 (respond settings r s).0
  unfolding respond create_item create_item_endpoint patch_item_endpoint patch_item_status_endpoint
      open_recovery_endpoint cancel_recovery_endpoint complete_recovery_endpoint open_recovery
      cancel_recovery complete_recovery
  respond-Outcome (create payload) s fits = refl
  respond-Outcome (update id payload) s fits =
      pure-Ends IsRefusal (λ (item : Item). item ∷ []) (patch_item_endpoint settings id payload)
        (reraise-Ends IsRefusal patch_status (update_item settings id payload)
          (update_item-Ends id payload))
        s
  respond-Outcome (update_status id payload) s fits =
      pure-Ends IsRefusal (λ (item : Item). item ∷ [])
        (patch_item_status_endpoint settings id payload)
        (reraise-Ends IsRefusal transition_status (update_item_status settings id payload)
          (update_item_status-Ends id payload))
        s
  respond-Outcome (open_case payload) s fits =
      recovery_response "open" (open_recovery settings payload)
        (recovery-Ends in_recovery (text_or payload.reason "Recovery case opened")
          payload.actor_user_id "internal_open" payload.item_ids)
        s
  respond-Outcome (cancel_case payload) s fits =
      recovery_response "cancel" (cancel_recovery settings payload)
        (recovery-Ends payload.target_status (text_or payload.reason "Recovery case cancelled")
          payload.actor_user_id "internal_cancel" payload.item_ids)
        s
  respond-Outcome (complete_case payload) s fits =
      recovery_response "complete" (complete_recovery settings payload)
        (recovery-Ends recovered (text_or payload.reason "Recovery case completed")
          payload.actor_user_id "internal_complete" payload.item_ids)
        s
