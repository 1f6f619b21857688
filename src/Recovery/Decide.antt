-- ===== src/Recovery/Decide.antt =====
-- `cancel_recovery_case` and `complete_recovery_case` of app/services/recovery_case_service.py.
use trabalho_devops.Prelude.{ℕ, String, none, some, [], ◌∷◌, text_or}
use trabalho_devops.Exec.{Result, ok, err, pure, raise, raise_if, raise_unless, ◌>>=◌, ◌>>◌}
use trabalho_devops.Store.{uuid4, utc_now, commit}
use trabalho_devops.Messaging.{Settings}
use trabalho_devops.Recovery.Models.{
  in_progress, cancelled, completed, case_status_eq, is_active, RecoveryCase, SagaStep,
  cancel_request, complete_request, response, error, ItemRecoveryCancelRequest,
  ItemRecoveryCompleteRequest, RecoveryCaseCancelRequest, RecoveryCaseCompleteRequest,
  invalid_transition, integration, ItemRecoveryClient,
}
use trabalho_devops.Recovery.Records.{
  Local, cancel_step_name, complete_step_name, save_case, retrieve_recovery_case, flush_cases,
  start_saga_step, finish_saga_step, fail_saga_step, record_recovery_case_event,
}
use trabalho_devops.Recovery.Service.{Op, local, attempt}

module _ {R : Type 0} where
  -- The handler of a failed call, up to its `raise`.
  unfoldable pub abandon_step : SagaStep R → String → Local R RecoveryCase
  unfolding fail_saga_step
  abandon_step step exc = do fail_saga_step step (error exc); commit; raise (integration exc)

  unfoldable pub conclude_cancelling :
      Settings → RecoveryCaseCancelRequest → RecoveryCase → SagaStep R → R → Local R RecoveryCase
  unfolding finish_saga_step save_case record_recovery_case_event
  conclude_cancelling settings payload c step answer = do
    finish_saga_step step (response answer)
    now ← utc_now
    let ended : RecoveryCase = record c {
      status = cancelled;
      cancellation_reason = some (text_or payload.reason "Recovery case cancelled");
      updated_at = now;
    }
    save_case ended
    correlation_id ← uuid4
    record_recovery_case_event settings ended "RecoveryCaseCancelled" correlation_id none
    commit
    pure ended

  unfoldable pub conclude_completing :
      Settings → RecoveryCase → SagaStep R → R → Local R RecoveryCase
  unfolding finish_saga_step save_case record_recovery_case_event
  conclude_completing settings c step answer = do
    finish_saga_step step (response answer)
    now ← utc_now
    let ended : RecoveryCase = record c {
      status = completed;
      completed_at = some now;
      updated_at = now;
    }
    save_case ended
    correlation_id ← uuid4
    record_recovery_case_event settings ended "RecoveryCaseCompleted" correlation_id none
    commit
    pure ended

module _ {R W : Type 0} (settings : Settings) (client : ItemRecoveryClient R W) where
  abbrev pub after_cancel :
      RecoveryCaseCancelRequest → RecoveryCase → SagaStep R → Result String R → Op R W RecoveryCase
  after_cancel payload c step (err exc) = local (abandon_step step exc)
  after_cancel payload c step (ok answer) =
      local (conclude_cancelling settings payload c step answer)

  unfoldable pub cancel_recovery_case : ℕ → RecoveryCaseCancelRequest → Op R W RecoveryCase
  unfolding retrieve_recovery_case start_saga_step flush_cases abandon_step conclude_cancelling
  cancel_recovery_case case_id payload = do
    c ← local (retrieve_recovery_case case_id)
    raise_if (case_status_eq c.status cancelled) invalid_transition
    raise_if (case_status_eq c.status completed) invalid_transition
    raise_unless (is_active c.status) invalid_transition
    let request : ItemRecoveryCancelRequest = record {
      item_ids = c.lost_item_id ∷ c.found_item_id ∷ [];
      actor_user_id = payload.actor_user_id;
      reason = some (text_or payload.reason "Recovery case cancelled");
      target_status = payload.target_status;
    }
    step ← local (start_saga_step c.id cancel_step_name (cancel_request request))
    local flush_cases
    outcome ← attempt (client.cancel_recovery request)
    after_cancel payload c step outcome

  abbrev pub after_complete : RecoveryCase → SagaStep R → Result String R → Op R W RecoveryCase
  after_complete c step (err exc) = local (abandon_step step exc)
  after_complete c step (ok answer) = local (conclude_completing settings c step answer)

  unfoldable pub complete_recovery_case : ℕ → RecoveryCaseCompleteRequest → Op R W RecoveryCase
  unfolding retrieve_recovery_case start_saga_step flush_cases abandon_step conclude_completing
  complete_recovery_case case_id payload = do
    c ← local (retrieve_recovery_case case_id)
    raise_if (case_status_eq c.status cancelled) invalid_transition
    raise_if (case_status_eq c.status completed) invalid_transition
    raise_unless (case_status_eq c.status in_progress) invalid_transition
    let request : ItemRecoveryCompleteRequest = record {
      item_ids = c.lost_item_id ∷ c.found_item_id ∷ [];
      actor_user_id = payload.actor_user_id;
      reason = some (text_or payload.reason "Recovery case completed");
    }
    step ← local (start_saga_step c.id complete_step_name (complete_request request))
    local flush_cases
    outcome ← attempt (client.complete_recovery request)
    after_complete c step outcome
