-- ===== src/Recovery/Records.antt =====
-- The tables of recovery-case-service (app/repositories), its saga steps and its events: the
-- helpers of app/services/recovery_case_service.py that read and record.
use trabalho_devops.Prelude.{
  ℕ, ◌==◌, String, Bool, ◌&&◌, Option, none, some, List, [], ◌∷◌, str_eq, starts_with,
  if◌then◌else◌, get_or,
}
use trabalho_devops.Exec.{Exec, pure, raise, raise_if, raise_unless, or_raise, ◌>>=◌, ◌>>◌}
use trabalho_devops.Store.{Session, uuid4, utc_now, query, write}
use trabalho_devops.Table
use trabalho_devops.Table.{find, save, order_by, order_by_desc}
use trabalho_devops.Messaging.{Settings, EventEnvelope, enqueue_broker_message}
use trabalho_devops.Messaging.Topology
use trabalho_devops.Recovery.Models.{
  cancelled, case_status_eq, is_active, RecoveryCase, case_key, violates_indexes, started,
  succeeded, failed, SagaStep, RequestPayload, ResponsePayload, RecoveryCaseEventPayload, CaseEvent,
  MatchAcceptedPayload, Error, conflict, not_found, validation_error, integrity_error, RecoveryDb,
}

abbrev pub Local : Type 0 → Type 0 → Type 0
Local R A = Exec Error (Session (RecoveryDb R)) A

abbrev pub open_failure_prefix : String
open_failure_prefix = "OPEN_FAILED:"

abbrev pub open_step_name : String
open_step_name = "item_service.open_recovery"

abbrev pub cancel_step_name : String
cancel_step_name = "item_service.cancel_recovery"

abbrev pub complete_step_name : String
complete_step_name = "item_service.complete_recovery"

-- The first case of a match, and the first active one of a found item.
abbrev pub find_match : ℕ → List RecoveryCase → Option RecoveryCase
find_match m [] = none
find_match m (c ∷ cs) = if c.match_id == m then some c else find_match m cs

abbrev pub find_active : ℕ → List RecoveryCase → Option RecoveryCase
find_active f [] = none
find_active f (c ∷ cs) =
    if c.found_item_id == f && is_active c.status then some c else find_active f cs

module _ {R : Type 0} where
  unfoldable pub add_recovery_case : RecoveryCase → Local R (Unit {0})
  add_recovery_case c =
      write λ d. record d { tables = record d.tables { cases = Table.insert c d.tables.cases } }

  -- An assignment to the fields of a loaded case, which the session writes back.
  unfoldable pub save_case : RecoveryCase → Local R (Unit {0})
  save_case c =
      write λ d. record d { tables = record d.tables { cases = save case_key c d.tables.cases } }

  unfoldable pub get_recovery_case_by_id : ℕ → Local R (Option RecoveryCase)
  get_recovery_case_by_id id = query λ d. find case_key id d.tables.cases

  unfoldable pub get_recovery_case_by_match_id : ℕ → Local R (Option RecoveryCase)
  get_recovery_case_by_match_id match_id = query λ d. find_match match_id d.tables.cases

  unfoldable pub get_active_case_for_found_item : ℕ → Local R (Option RecoveryCase)
  get_active_case_for_found_item found_item_id = query λ d. find_active found_item_id d.tables.cases

  unfoldable pub retrieve_recovery_case : ℕ → Local R RecoveryCase
  unfolding get_recovery_case_by_id
  retrieve_recovery_case case_id = do or_raise (← get_recovery_case_by_id case_id) not_found

  -- `session.flush()`: the statements are sent, and the unique indexes checked.
  unfoldable pub flush_cases : Local R (Unit {0})
  flush_cases s = raise_if (violates_indexes s.working.tables.cases) integrity_error s

  -- The test of an active case against the allowed one, if there are such.
  abbrev check_active : Option RecoveryCase → Option ℕ → Local R (Unit {0})
  check_active none allowed = pure tt
  check_active (some c) none = raise conflict
  check_active (some c) (some allowed) = raise_unless (c.id == allowed) conflict

  -- `none` as the allowed case is the default.
  unfoldable pub ensure_found_item_is_available_for_case : ℕ → Option ℕ → Local R (Unit {0})
  unfolding get_active_case_for_found_item
  ensure_found_item_is_available_for_case found_item_id allowed_case_id = do
    active_case ← get_active_case_for_found_item found_item_id
    check_active active_case allowed_case_id

  unfoldable pub start_saga_step : ℕ → String → RequestPayload → Local R (SagaStep R)
  start_saga_step case_id step_name request_payload = do
    id ← uuid4
    occurred_at ← utc_now
    let step : SagaStep R = record {
      id = id;
      case_id = case_id;
      step_name = step_name;
      step_status = started;
      request_payload = request_payload;
      response_payload = none;
      occurred_at = occurred_at;
    }
    write (λ d. record d {
      tables = record d.tables { saga_steps = Table.insert step d.tables.saga_steps };
    })
    pure step

  abbrev save_saga_step : SagaStep R → Local R (Unit {0})
  save_saga_step step = write λ d. record d {
    tables = record d.tables {
      saga_steps = save (λ (x : SagaStep R). x.id) step d.tables.saga_steps;
    };
  }

  unfoldable pub finish_saga_step : SagaStep R → ResponsePayload R → Local R (Unit {0})
  finish_saga_step step response_payload =
      save_saga_step
        (record step { step_status = succeeded; response_payload = some response_payload })

  unfoldable pub fail_saga_step : SagaStep R → ResponsePayload R → Local R (Unit {0})
  fail_saga_step step response_payload =
      save_saga_step
        (record step { step_status = failed; response_payload = some response_payload })

-- `CANCELLED`, with a reason that begins with the prefix.
unfoldable pub is_retryable_failed_open : RecoveryCase → Bool
is_retryable_failed_open c =
    case_status_eq c.status cancelled
    && starts_with (get_or c.cancellation_reason "") open_failure_prefix

unfoldable pub to_recovery_case_event_payload : RecoveryCase → RecoveryCaseEventPayload
to_recovery_case_event_payload c = record {
  id = c.id;
  match_id = c.match_id;
  lost_item_id = c.lost_item_id;
  found_item_id = c.found_item_id;
  status = c.status;
  opened_by_user_id = c.opened_by_user_id;
  cancellation_reason = c.cancellation_reason;
  created_at = c.created_at;
  updated_at = c.updated_at;
  completed_at = c.completed_at;
}

abbrev event_types : List (String × String)
event_types =
    ("RecoveryCaseOpened", Topology.recovery_case_opened)
    ∷ ("RecoveryCaseCancelled", Topology.recovery_case_cancelled)
    ∷ ("RecoveryCaseCompleted", Topology.recovery_case_completed)
    ∷ []

-- `routing_key_map[event_type]`, if it is one of the supported event types.
abbrev pub routing_key_of : String → List (String × String) → Option String
routing_key_of event_type [] = none
routing_key_of event_type ((name, routing_key) ∷ rest) =
    if str_eq event_type name then some routing_key else routing_key_of event_type rest

module _ {R : Type 0} where
  unfoldable pub add_case_event : CaseEvent → Local R (Unit {0})
  add_case_event event = write λ d. record d {
    tables = record d.tables { case_events = Table.insert event d.tables.case_events };
  }

  unfoldable pub record_recovery_case_event :
      Settings → RecoveryCase → String → ℕ → Option ℕ → Local R (Unit {0})
  unfolding to_recovery_case_event_payload add_case_event enqueue_broker_message
  record_recovery_case_event settings c event_type correlation_id causation_id = do
    routing_key ← or_raise (routing_key_of event_type event_types) conflict
    id ← uuid4
    occurred_at ← utc_now
    add_case_event (record {
      id = id;
      case_id = c.id;
      event_type = event_type;
      payload_json = to_recovery_case_event_payload c;
      occurred_at = occurred_at;
    })
    event_id ← uuid4
    envelope_time ← utc_now
    enqueue_broker_message (record {
      envelope = record {
        event_id = event_id;
        event_type = event_type;
        aggregate_id = c.id;
        aggregate_version = 1;
        occurred_at = envelope_time;
        correlation_id = correlation_id;
        causation_id = causation_id;
        payload = to_recovery_case_event_payload c;
      };
      routing_key = routing_key;
      exchange_name = settings.rabbitmq_events_exchange;
      headers = [];
    })
    pure tt

-- `event_type != "MatchAccepted"` raises; then pydantic validates the payload, of a type `J`.
module _ {R J : Type 0} (model_validate : J → Option MatchAcceptedPayload) where
  unfoldable pub parse_match_accepted_envelope :
      EventEnvelope J → Local R (EventEnvelope MatchAcceptedPayload)
  parse_match_accepted_envelope envelope = do
    raise_unless (str_eq envelope.event_type "MatchAccepted") conflict
    payload ← or_raise (model_validate envelope.payload) validation_error
    pure (record {
      event_id = envelope.event_id;
      event_type = envelope.event_type;
      aggregate_id = envelope.aggregate_id;
      aggregate_version = envelope.aggregate_version;
      occurred_at = envelope.occurred_at;
      correlation_id = envelope.correlation_id;
      causation_id = envelope.causation_id;
      payload = payload;
    })
