-- ===== src/Item/Api.antt =====
-- The endpoints of app/api/items.py that change an item, and those of app/api/internal_recovery.py:
-- what they answer, and with which status they refuse. `ItemResponse` has the fields of an item.
use trabalho_devops.Prelude.{ℕ, String, List, [], ◌∷◌}
use trabalho_devops.Exec.{Exec, pure, reraise, ◌>>=◌}
use trabalho_devops.Store.{Session}
use trabalho_devops.Messaging.{Settings}
use trabalho_devops.Item.Models.{
  Item, ItemDb, ItemCreateRequest, ItemUpdateRequest, ItemStatusUpdateRequest, RecoveryOpenRequest,
  RecoveryCancelRequest, RecoveryCompleteRequest, Error, invalid_transition, invalid_update,
  not_found,
}
use trabalho_devops.Item.Records.{get_item_or_raise}
use trabalho_devops.Item.Service.{
  create_item, update_item_status, open_recovery, cancel_recovery, complete_recovery,
}
use trabalho_devops.Item.Update.{update_item}
use trabalho_devops.Item.Requests.{
  Request, create, update, update_status, open_case, cancel_case, complete_case,
}

pub record RecoveryOperationResponse : Type 0 where
  pub operation : String
  pub items : List Item

-- The status of an HTTPException, or of the framework's answer to any other exception.
abbrev pub Handler : Type 0 → Type 0
Handler A = Exec ℕ (Session ItemDb) A

-- An endpoint with no `except` clause.
abbrev pub uncaught : Error → ℕ
uncaught e = 500

-- The `except` clauses of the others.
abbrev pub patch_status : Error → ℕ
patch_status (not_found ids) = 404
patch_status invalid_update = 400
patch_status invalid_transition = 500

abbrev pub transition_status : Error → ℕ
transition_status (not_found ids) = 404
transition_status invalid_transition = 400
transition_status invalid_update = 500

abbrev pub recovery_status : Error → ℕ
recovery_status (not_found ids) = 400
recovery_status invalid_transition = 400
recovery_status invalid_update = 500

unfoldable pub get_item_endpoint : ℕ → Handler Item
get_item_endpoint item_id = reraise patch_status (get_item_or_raise item_id)

module _ (settings : Settings) where
  unfoldable pub create_item_endpoint : ItemCreateRequest → Handler Item
  create_item_endpoint payload = reraise uncaught (create_item settings payload)

  unfoldable pub patch_item_endpoint : ℕ → ItemUpdateRequest → Handler Item
  patch_item_endpoint item_id payload = reraise patch_status (update_item settings item_id payload)

  unfoldable pub patch_item_status_endpoint : ℕ → ItemStatusUpdateRequest → Handler Item
  patch_item_status_endpoint item_id payload =
      reraise transition_status (update_item_status settings item_id payload)

  unfoldable pub open_recovery_endpoint : RecoveryOpenRequest → Handler RecoveryOperationResponse
  open_recovery_endpoint payload = do
    items ← reraise recovery_status (open_recovery settings payload)
    pure (record { operation = "open"; items = items })

  unfoldable pub cancel_recovery_endpoint :
      RecoveryCancelRequest → Handler RecoveryOperationResponse
  cancel_recovery_endpoint payload = do
    items ← reraise recovery_status (cancel_recovery settings payload)
    pure (record { operation = "cancel"; items = items })

  unfoldable pub complete_recovery_endpoint :
      RecoveryCompleteRequest → Handler RecoveryOperationResponse
  complete_recovery_endpoint payload = do
    items ← reraise recovery_status (complete_recovery settings payload)
    pure (record { operation = "complete"; items = items })

  -- The endpoint of each request, and the items in its response.
  unfoldable pub respond : Request → Handler (List Item)
  respond (create payload) = do item ← create_item_endpoint payload; pure (item ∷ [])
  respond (update id payload) = do item ← patch_item_endpoint id payload; pure (item ∷ [])
  respond (update_status id payload) = do
    item ← patch_item_status_endpoint id payload
    pure (item ∷ [])
  respond (open_case payload) = do response ← open_recovery_endpoint payload; pure response.items
  respond (cancel_case payload) = do
    response ← cancel_recovery_endpoint payload
    pure response.items
  respond (complete_case payload) = do
    response ← complete_recovery_endpoint payload
    pure response.items
