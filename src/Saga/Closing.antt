-- ===== src/Saga/Closing.antt =====
-- The cancellation and the completion of a recovery case at both of their ends: the case in
-- recovery-case-service, and the items in item-service.
use trabalho_devops.Prelude.{ℕ, ◌≡◌, refl, inl, inr, String, some, arith, text_or, Option-cases}
use trabalho_devops.Exec.{Result}
use trabalho_devops.Store.{close}
use trabalho_devops.Table.{find, IsUnique}
use trabalho_devops.Messaging.{Settings}
use trabalho_devops.Item.Models.{
  item_key, recovered, RecoveryCancelRequest, RecoveryCompleteRequest,
}
use trabalho_devops.Item.Rules.{by_cancel, by_complete}
use trabalho_devops.Item.Service.{cancel_recovery, complete_recovery}
use trabalho_devops.Item.Recovery.{cancel_recovery-Settled, complete_recovery-Settled}
use trabalho_devops.Item.Api.{
  RecoveryOperationResponse, cancel_recovery_endpoint, complete_recovery_endpoint,
}
use trabalho_devops.Recovery.Models.{
  RecoveryCase, RecoveryCaseStatus, case_key, is_active, open_case, in_progress, cancelled,
  completed, cancel_request, complete_request, Node, RecoveryCaseCancelRequest,
  RecoveryCaseCompleteRequest,
}
use trabalho_devops.Recovery.Records.{start_saga_step, cancel_step_name, complete_step_name}
use trabalho_devops.Recovery.Calling.{cancelling, completing, step_of}
use trabalho_devops.Recovery.Decide.{cancel_recovery_case, complete_recovery_case}
use trabalho_devops.Recovery.Invariant.{IsSound}
use trabalho_devops.Saga.Answers.{Ended, answered-Ended}
use trabalho_devops.Saga.Client.{answered, Link, target_of, http_client}
use trabalho_devops.Saga.Agreement.{
  items_of, is_in_progress, cases, items, begun, Concurs, refused, after_cancel-Concurs,
  after_complete-Concurs,
}

module _ (settings : Settings) (id : ℕ) (n : Node RecoveryOperationResponse Link) where
  -- The requests of item-service, and their outcomes.
  module _ (c : RecoveryCase) (unique : IsUnique item_key (items n).tables.items)
      (fate : n.remote.fates n.remote.calls ≡ answered) where
    abbrev cancel_call : RecoveryCaseCancelRequest → Result String RecoveryOperationResponse × Link
    cancel_call payload = (http_client settings).cancel_recovery (cancelling c payload) n.remote

    cancel_call-Ended :
        (payload : RecoveryCaseCancelRequest)
        → Ended by_cancel
            (target_of payload.target_status)
            (items_of c)
            (items n)
            (cancel_call payload).1.items.committed
            (cancel_call payload).0
    unfolding http_client cancel_recovery_endpoint
    cancel_call-Ended payload =
        let request : RecoveryCancelRequest = record {
          item_ids = items_of c;
          actor_user_id = payload.actor_user_id;
          reason = some (text_or payload.reason "Recovery case cancelled");
          target_status = target_of payload.target_status;
        } in
        let (r, s) = cancel_recovery settings request (close n.remote.items) in
        rw fate (
          answered-Ended by_cancel request.target_status "cancel" (items_of c) (items n) s _ r
            (cancel_recovery-Settled settings n.remote.items unique request))

    abbrev complete_call :
        RecoveryCaseCompleteRequest → Result String RecoveryOperationResponse × Link
    complete_call payload = (http_client settings).complete_recovery (completing c payload) n.remote

    complete_call-Ended :
        (payload : RecoveryCaseCompleteRequest)
        → Ended by_complete recovered
            (items_of c)
            (items n)
            (complete_call payload).1.items.committed
            (complete_call payload).0
    unfolding http_client complete_recovery_endpoint
    complete_call-Ended payload =
        let request : RecoveryCompleteRequest = record {
          item_ids = items_of c;
          actor_user_id = payload.actor_user_id;
          reason = some (text_or payload.reason "Recovery case completed");
        } in
        let (r, s) = complete_recovery settings request (close n.remote.items) in
        rw fate (
          answered-Ended by_complete recovered "complete" (items_of c) (items n) s _ r
            (complete_recovery-Settled settings n.remote.items unique request))

  module _ (v : IsSound n.session) (unique : IsUnique item_key (items n).tables.items)
      (fate : n.remote.fates n.remote.calls ≡ answered) where
    cancel_stored :
        (c : RecoveryCase) (payload : RecoveryCaseCancelRequest) (st : RecoveryCaseStatus)
        → find case_key id (cases n) ≡ some c
        → c.status ≡ st
        → Concurs id n is_active by_cancel
            (target_of payload.target_status)
            cancelled
            (cancel_recovery_case settings (http_client settings) id payload (begun n))
    unfolding cancel_recovery_case start_saga_step
    cancel_stored c payload cancelled found e =
        rw (found, e)
          (
            refused id n c found is_active by_cancel (target_of payload.target_status) (rw e refl),
            refl,
            refl,
          )
    cancel_stored c payload completed found e =
        rw (found, e)
          (
            refused id n c found is_active by_cancel (target_of payload.target_status) (rw e refl),
            refl,
            refl,
          )
    cancel_stored c payload open_case found e =
        rw (found, e, v.committed.exclusive)
          (after_cancel-Concurs id n c found settings _ refl
            (step_of (begun n).session c cancel_step_name (cancel_request (cancelling c payload)))
            payload (target_of payload.target_status) _ _ (rw e refl)
            (cancel_call-Ended c unique fate payload))
    cancel_stored c payload in_progress found e =
        rw (found, e, v.committed.exclusive)
          (after_cancel-Concurs id n c found settings _ refl
            (step_of (begun n).session c cancel_step_name (cancel_request (cancelling c payload)))
            payload (target_of payload.target_status) _ _ (rw e refl)
            (cancel_call-Ended c unique fate payload))

    complete_stored :
        (c : RecoveryCase) (payload : RecoveryCaseCompleteRequest) (st : RecoveryCaseStatus)
        → find case_key id (cases n) ≡ some c
        → c.status ≡ st
        → Concurs id n is_in_progress by_complete recovered completed
            (complete_recovery_case settings (http_client settings) id payload (begun n))
    unfolding complete_recovery_case start_saga_step
    complete_stored c payload cancelled found e =
        rw (found, e)
          (refused id n c found is_in_progress by_complete recovered (rw e refl), refl, refl)
    complete_stored c payload completed found e =
        rw (found, e)
          (refused id n c found is_in_progress by_complete recovered (rw e refl), refl, refl)
    complete_stored c payload open_case found e =
        rw (found, e)
          (refused id n c found is_in_progress by_complete recovered (rw e refl), refl, refl)
    complete_stored c payload in_progress found e =
        rw (found, e, v.committed.exclusive)
          (after_complete-Concurs id n c found settings _ refl
            (step_of (begun n).session c complete_step_name
              (complete_request (completing c payload)))
            _ _ (rw e refl) (complete_call-Ended c unique fate payload))

    -- If the call of item-service is answered, the ids of its items are unique, and the database of
    -- recovery-case-service is well-formed: cancelling a case either returns, and then the case was
    -- OPEN or IN_PROGRESS, the committed one is CANCELLED, and exactly its two items have been moved
    -- to the requested status, which they could be; or it raises, and then there is no such case, or
    -- it had ended, or one of its items is missing or could not be moved, and the cases and
    -- item-service's database are as they were.
    pub cancel_recovery_case-Concurs :
        (payload : RecoveryCaseCancelRequest)
        → Concurs id n is_active by_cancel
            (target_of payload.target_status)
            cancelled
            (cancel_recovery_case settings (http_client settings) id payload (begun n))
    unfolding cancel_recovery_case
    cancel_recovery_case-Concurs payload = elim (Option-cases (find case_key id (cases n))) [
      | inl absent ↦ rw absent (λ (c, e). absurd (ground (arith, absent, e.0)), refl, refl)
      | inr (c, found) ↦ cancel_stored c payload c.status found refl
    ]

    -- If the call of item-service is answered, the ids of its items are unique, and the database of
    -- recovery-case-service is well-formed: completing a case either returns, and then the case was
    -- IN_PROGRESS, the committed one is COMPLETED, and exactly its two items have been moved to
    -- RECOVERED, which they could be; or it raises, and then there is no such case, or it was not
    -- IN_PROGRESS, or one of its items is missing or could not be moved, and the cases and
    -- item-service's database are as they were.
    pub complete_recovery_case-Concurs :
        (payload : RecoveryCaseCompleteRequest)
        → Concurs id n is_in_progress by_complete recovered completed
            (complete_recovery_case settings (http_client settings) id payload (begun n))
    unfolding complete_recovery_case
    complete_recovery_case-Concurs payload = elim (Option-cases (find case_key id (cases n))) [
      | inl absent ↦ rw absent (λ (c, e). absurd (ground (arith, absent, e.0)), refl, refl)
      | inr (c, found) ↦ complete_stored c payload c.status found refl
    ]
