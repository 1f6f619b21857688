-- ===== src/Recovery/Calling.antt =====
-- The calls of item-service: their requests, the saga step that is started before each, and the node
-- in which the answer of an opening is taken.
use trabalho_devops.Prelude.{String, text_or, ◌≡◌, true, false, none, some, [], ◌∷◌}
use trabalho_devops.Exec.{err}
use trabalho_devops.Store.{Session}
use trabalho_devops.Messaging.{Settings, EventEnvelope}
use trabalho_devops.Recovery.Models.{
  started, integrity_error, RecoveryCase, violates_indexes, SagaStep, open_request, RecoveryDb,
  ItemRecoveryOpenRequest, ItemRecoveryCancelRequest, ItemRecoveryCompleteRequest,
  RecoveryCaseCancelRequest, RecoveryCaseCompleteRequest, RequestPayload, MatchAcceptedPayload,
  Node, ItemRecoveryClient,
}
use trabalho_devops.Recovery.Records.{open_step_name, start_saga_step}
use trabalho_devops.Recovery.Consume.{after_call, open_at_item_service}

-- What item-service is asked when a case is cancelled, and when it is completed.
abbrev pub cancelling : RecoveryCase → RecoveryCaseCancelRequest → ItemRecoveryCancelRequest
cancelling c payload = record {
  item_ids = c.lost_item_id ∷ c.found_item_id ∷ [];
  actor_user_id = payload.actor_user_id;
  reason = some (text_or payload.reason "Recovery case cancelled");
  target_status = payload.target_status;
}

abbrev pub completing : RecoveryCase → RecoveryCaseCompleteRequest → ItemRecoveryCompleteRequest
completing c payload = record {
  item_ids = c.lost_item_id ∷ c.found_item_id ∷ [];
  actor_user_id = payload.actor_user_id;
  reason = some (text_or payload.reason "Recovery case completed");
}

-- The saga step that a session starts.
abbrev pub step_of :
    {R : Type 0} → Session (RecoveryDb R) → RecoveryCase → String → RequestPayload → SagaStep R
step_of s c name request = record {
  id = s.env.uuids s.env.drawn;
  case_id = c.id;
  step_name = name;
  step_status = started;
  request_payload = request;
  response_payload = none;
  occurred_at = s.env.times s.env.ticks;
}

module _ {R W : Type 0} (settings : Settings) (client : ItemRecoveryClient R W)
    (envelope : EventEnvelope MatchAcceptedPayload) (c : RecoveryCase) (n : Node R W) where
  abbrev pub opening_request : ItemRecoveryOpenRequest
  opening_request = record {
    item_ids = c.lost_item_id ∷ c.found_item_id ∷ [];
    actor_user_id = c.opened_by_user_id;
    reason = some "Recovery case opened from MatchAccepted";
  }

  -- The saga step that is started, the session with it, and the outcome of the call.
  abbrev pub opening_step : SagaStep R
  opening_step = step_of n.session c open_step_name (open_request opening_request)

  abbrev pub opening_node : Node R W
  opening_node = record {
    session = (start_saga_step c.id open_step_name (open_request opening_request) n.session).1;
    remote = (client.open_recovery opening_request n.remote).1;
  }

  pub open_at_item_service_lem :
      violates_indexes n.session.working.tables.cases ≡ false
      → open_at_item_service settings client envelope c n
        ≡ after_call settings client envelope c opening_step
            (client.open_recovery opening_request n.remote).0
            opening_node
  unfolding open_at_item_service
  open_at_item_service_lem h = rw h

  pub open_at_item_service_refused :
      violates_indexes n.session.working.tables.cases ≡ true
      → (open_at_item_service settings client envelope c n).0 ≡ err integrity_error
  unfolding open_at_item_service
  open_at_item_service_refused h = rw h
