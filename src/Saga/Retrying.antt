-- ===== src/Saga/Retrying.antt =====
-- The opening of a recovery case when item-service has done its part and the answer is lost.
use trabalho_devops.Prelude.{ℕ, ◌≡◌, refl, ap, ◌∙◌, String, false, some, List, [], ◌∷◌, arith}
use mathlib.Core.Path.{subst}
use trabalho_devops.Exec.{Result, ok, err, continue, pure, reraised}
use trabalho_devops.Store.{Session, close}
use trabalho_devops.Table.{find, IsUnique}
use trabalho_devops.Messaging.{Settings, EventEnvelope}
use trabalho_devops.Item.Models.{
  Item, item_key, ItemDb, ItemStatus, RecoveryOpenRequest, in_recovery,
}
use trabalho_devops.Item.Models as Items
use trabalho_devops.Item.Rules.{by_open, Allowed, Allowed-validate_transition}
use trabalho_devops.Item.Transitions.{validate_transition}
use trabalho_devops.Item.Service.{open_recovery}
use trabalho_devops.Item.Loop.{AllMayMove, AllMoved}
use trabalho_devops.Item.Recovery.{Settled, open_recovery-Settled}
use trabalho_devops.Item.Api.{RecoveryOperationResponse, recovery_status, open_recovery_endpoint}
use trabalho_devops.Recovery.Models.{
  RecoveryCase, MatchAcceptedPayload, Error, integration, Node, violates_indexes,
}
use trabalho_devops.Recovery.Consume.{open_at_item_service}
use trabalho_devops.Recovery.Service.{abandon_opening}
use trabalho_devops.Recovery.Calling.{opening_request}
use trabalho_devops.Saga.Client.{
  Fate, answered, unreachable, unanswered, Link, post_by, http_client,
}
use trabalho_devops.Saga.Opening.{opened}

same_row :
    (k : ℕ) {d d' : ItemDb} {i j : Item}
    → d ≡ d'
    → find item_key k d.tables.items ≡ some i
    → find item_key k d'.tables.items ≡ some j
    → i ≡ j
same_row k e here there = cc (ap (λ (x : ItemDb). find item_key k x.tables.items) e, here, there)

-- Items that are IN_RECOVERY cannot be opened.
not_twice : (s : ItemStatus) → s ≡ in_recovery → ¬ Allowed by_open s in_recovery
unfolding validate_transition
not_twice s e allowed =
    let accepted =
      subst (λ x. validate_transition x in_recovery "internal_open" ≡ ok tt) e
        (Allowed-validate_transition by_open s in_recovery allowed) in
    absurd (ground arith)

-- A call whose items cannot be moved ends in an exception and moves none, whatever becomes of it.
refused_by :
    (fate : Fate) (keys : List ℕ) (s : Session ItemDb) (w : Link)
    (r : Result Items.Error (List Item))
    → Settled by_open in_recovery keys w.items.committed s.committed r
    → (¬ AllMayMove by_open in_recovery keys w.items.committed)
    → let (a, s') = continue (reraised recovery_status r) (λ items. pure (opened items)) s in
      let (outcome, w') = post_by fate (a, close s') w in
      ((text : String) × (outcome ≡ err text)) × (w'.items.committed ≡ w.items.committed)
refused_by answered keys s w (ok items) h no_move = absurd (no_move h.0)
refused_by answered keys s w (err e) h no_move = ((_, refl), h.1)
refused_by unreachable keys s w r h no_move = ((_, refl), refl)
refused_by unanswered keys s w (ok items) h no_move = absurd (no_move h.0)
refused_by unanswered keys s w (err e) h no_move = ((_, refl), h.1)

-- One whose answer is lost has moved them all, if it could.
moved_by :
    (keys : List ℕ) (s : Session ItemDb) (w : Link) (r : Result Items.Error (List Item))
    → Settled by_open in_recovery keys w.items.committed s.committed r
    → AllMayMove by_open in_recovery keys w.items.committed
    → let (a, s') = continue (reraised recovery_status r) (λ items. pure (opened items)) s in
      let (outcome, w') = post_by unanswered (a, close s') w in
      ((text : String) × (outcome ≡ err text))
      × AllMoved in_recovery keys w.items.committed w'.items.committed
moved_by keys s w (ok items) h may = ((_, refl), h.1)
moved_by keys s w (err e) h may = absurd (h.0 may)

module _ (settings : Settings) (envelope : EventEnvelope MatchAcceptedPayload) (c : RecoveryCase)
    (n : Node RecoveryOperationResponse Link) where
  abbrev call : Result String RecoveryOperationResponse × Link
  call =
      (http_client settings).open_recovery
        (opening_request settings (http_client settings) envelope c n) n.remote

  abbrev payload : RecoveryOpenRequest
  payload = record {
    item_ids = c.lost_item_id ∷ c.found_item_id ∷ [];
    actor_user_id = c.opened_by_user_id;
    reason = some "Recovery case opened from MatchAccepted";
  }

  -- What item-service does with the call.
  abbrev served : Result Items.Error (List Item) × Session ItemDb
  served = open_recovery settings payload (close n.remote.items)

  served-Settled :
      IsUnique item_key n.remote.items.committed.tables.items
      → Settled by_open in_recovery payload.item_ids n.remote.items.committed served.1.committed
          served.0
  served-Settled unique = open_recovery-Settled settings n.remote.items unique payload

  call-refused :
      IsUnique item_key n.remote.items.committed.tables.items
      → (¬ AllMayMove by_open in_recovery payload.item_ids n.remote.items.committed)
      → ((text : String) × (call.0 ≡ err text))
        × (call.1.items.committed ≡ n.remote.items.committed)
  unfolding http_client open_recovery_endpoint
  call-refused unique no_move =
      refused_by (n.remote.fates n.remote.calls) payload.item_ids served.1 n.remote served.0
        (served-Settled unique) no_move

  call-moved :
      IsUnique item_key n.remote.items.committed.tables.items
      → n.remote.fates n.remote.calls ≡ unanswered
      → AllMayMove by_open in_recovery payload.item_ids n.remote.items.committed
      → ((text : String) × (call.0 ≡ err text))
        × AllMoved in_recovery payload.item_ids n.remote.items.committed call.1.items.committed
  unfolding http_client open_recovery_endpoint
  call-moved unique lost may =
      rw lost (moved_by payload.item_ids served.1 n.remote served.0 (served-Settled unique) may)

  -- The handler raises after a call that has.
  call_raised :
      (text : String)
      → violates_indexes n.session.working.tables.cases ≡ false
      → call.0 ≡ err text
      → ((open_at_item_service settings (http_client settings) envelope c n).0
          ≡ err (integration text))
        × ((open_at_item_service settings (http_client settings) envelope c n).1.remote ≡ call.1)
  unfolding open_at_item_service abandon_opening
  call_raised text clean raised = rw (clean, raised) (refl, refl)

module _ (settings : Settings) (envelope again : EventEnvelope MatchAcceptedPayload)
    (c c' : RecoveryCase) (n n' : Node RecoveryOperationResponse Link) where
  -- If item-service can move the items of a case, and does, but its answer is lost, the opening
  -- raises; and a later opening of a case of the same lost item, on item-service's database as the first
  -- has left it, raises too and moves nothing, whatever becomes of its call. No index of the cases
  -- is violated at either, and the ids of the items are unique.
  pub open_at_item_service_stuck :
      violates_indexes n.session.working.tables.cases ≡ false
      → IsUnique item_key n.remote.items.committed.tables.items
      → AllMayMove by_open in_recovery
          (c.lost_item_id ∷ c.found_item_id ∷ [])
          n.remote.items.committed
      → n.remote.fates n.remote.calls ≡ unanswered
      → violates_indexes n'.session.working.tables.cases ≡ false
      → IsUnique item_key n'.remote.items.committed.tables.items
      → n'.remote.items.committed
        ≡ (open_at_item_service settings
            (http_client settings)
            envelope
            c
            n).1.remote.items.committed
      → c'.lost_item_id ≡ c.lost_item_id
      → ((e : Error) × ((open_at_item_service settings (http_client settings) envelope c n).0
            ≡ err e))
        × ((e : Error) × ((open_at_item_service settings (http_client settings) again c' n').0
              ≡ err e))
        × ((open_at_item_service settings
              (http_client settings)
              again
              c'
              n').1.remote.items.committed
            ≡ n'.remote.items.committed)
  open_at_item_service_stuck clean unique may lost clean' unique' left same_lost =
      let ((text, raised), moved) = call-moved settings envelope c n unique lost may in
      let (raised_first, kept_first) = call_raised settings envelope c n text clean raised in
      let no_move : ¬ AllMayMove by_open in_recovery (c'.lost_item_id ∷ c'.found_item_id ∷ [])
          n'.remote.items.committed =
        λ may'.
          let (item, here, allowed) = may c.lost_item_id (ground arith) in
          let (item', here', is_moved) = (moved c.lost_item_id).1 item (ground arith) here in
          let (item2, here2, allowed2) = may' c.lost_item_id (ground (arith, same_lost)) in
          let same : item2 ≡ item' =
            same_row c.lost_item_id (left ∙ ap (λ (w : Link). w.items.committed) kept_first) here2
              here' in
          not_twice item2.status (ap (λ (i : Item). i.status) same ∙ is_moved.status) allowed2 in
      let ((text', raised'), unchanged) = call-refused settings again c' n' unique' no_move in
      let (raised_second, kept_second) = call_raised settings again c' n' text' clean' raised' in
      (
        (_, raised_first),
        (_, raised_second),
        ap (λ (w : Link). w.items.committed) kept_second ∙ unchanged,
      )
