-- ===== src/Recovery/Consume.antt =====
-- `consume_match_accepted` of app/services/recovery_case_service.py.
use trabalho_devops.Prelude.{String, Bool, true, false, not, Option, none, some, [], ◌∷◌}
use trabalho_devops.Exec.{Result, ok, err, or_raise, ◌>>=◌, ◌>>◌}
use trabalho_devops.Store.{commit}
use trabalho_devops.Messaging.{
  Settings, EventEnvelope, has_been_processed, register_processed_event,
}
use trabalho_devops.Recovery.Models.{
  RecoveryCase, SagaStep, open_request, ItemRecoveryOpenRequest, MatchAcceptedPayload, conflict,
  ItemRecoveryClient,
}
use trabalho_devops.Recovery.Records.{
  open_step_name, get_recovery_case_by_match_id, is_retryable_failed_open, start_saga_step,
  flush_cases, parse_match_accepted_envelope,
}
use trabalho_devops.Recovery.Service.{
  Op, local, attempt, abandon_opening, conclude_opening, prepare_case,
}

-- `existing_case is not None and not is_retryable_failed_open(existing_case)`
abbrev pub stands : Option RecoveryCase → Bool
stands none = false
stands (some c) = not (is_retryable_failed_open c)

module _ {R W : Type 0} (settings : Settings) (client : ItemRecoveryClient R W) where
  -- After the call: the branch of the handler, and that of the return.
  abbrev pub after_call :
      EventEnvelope MatchAcceptedPayload
      → RecoveryCase
      → SagaStep R
      → Result String R
      → Op R W RecoveryCase
  after_call envelope c step (err exc) = local (abandon_opening c step exc)
  after_call envelope c step (ok answer) = local (conclude_opening settings envelope c step answer)

  -- From the case that was prepared to the end: the saga step, and the call of item-service.
  unfoldable pub open_at_item_service :
      EventEnvelope MatchAcceptedPayload → RecoveryCase → Op R W RecoveryCase
  unfolding start_saga_step flush_cases abandon_opening conclude_opening
  open_at_item_service envelope c = do
    let request : ItemRecoveryOpenRequest = record {
      item_ids = c.lost_item_id ∷ c.found_item_id ∷ [];
      actor_user_id = c.opened_by_user_id;
      reason = some "Recovery case opened from MatchAccepted";
    }
    step ← local (start_saga_step c.id open_step_name (open_request request))
    local flush_cases
    outcome ← attempt (client.open_recovery request)
    after_call envelope c step outcome

  -- The case of the match stands: the event is only registered.
  unfoldable pub keep_case :
      EventEnvelope MatchAcceptedPayload → Option RecoveryCase → Op R W RecoveryCase
  unfolding register_processed_event
  keep_case envelope existing_case =
      local (register_processed_event envelope >> commit >> or_raise existing_case conflict)

  -- It does not, or there is none.
  unfoldable pub open_new_case :
      EventEnvelope MatchAcceptedPayload → Option RecoveryCase → Op R W RecoveryCase
  unfolding prepare_case open_at_item_service
  open_new_case envelope existing_case = do
    c ← local (prepare_case envelope existing_case)
    open_at_item_service envelope c

  -- The ways to go on: the event was seen, the case of its match stands, or neither.
  abbrev pub choose :
      Bool → Bool → EventEnvelope MatchAcceptedPayload → Option RecoveryCase → Op R W RecoveryCase
  choose true _ envelope existing_case = local (or_raise existing_case conflict)
  choose false true envelope existing_case = keep_case envelope existing_case
  choose false false envelope existing_case = open_new_case envelope existing_case

  unfoldable pub consume_typed : EventEnvelope MatchAcceptedPayload → Op R W RecoveryCase
  unfolding has_been_processed get_recovery_case_by_match_id keep_case open_new_case
      is_retryable_failed_open
  consume_typed typed = do
    seen ← local (has_been_processed typed)
    existing_case ← local (get_recovery_case_by_match_id typed.payload.id)
    choose seen (stands existing_case) typed existing_case

  module _ {J : Type 0} (model_validate : J → Option MatchAcceptedPayload) where
    unfoldable pub consume_match_accepted : EventEnvelope J → Op R W RecoveryCase
    unfolding parse_match_accepted_envelope consume_typed
    consume_match_accepted envelope = do
      typed ← local (parse_match_accepted_envelope model_validate envelope)
      consume_typed typed
