-- ===== src/Recovery/Models.antt =====
-- The data of recovery-case-service: app/models/recovery_case.py, app/models/saga_step.py,
-- app/models/case_event.py, app/schemas/recovery_case.py, app/schemas/match_event.py,
-- app/schemas/item_service.py, app/core/exceptions.py.
use trabalho_devops.Prelude.{ℕ, ◌==◌, String, Bool, true, false, ◌&&◌, ◌||◌, Option, List, [], ◌∷◌}
use trabalho_devops.Exec.{Exec}
use trabalho_devops.Store.{Session}
use trabalho_devops.Messaging.{Db}

pub data RecoveryCaseStatus : Type 0 where
  open_case in_progress cancelled completed : RecoveryCaseStatus

abbrev pub case_status_eq : RecoveryCaseStatus → RecoveryCaseStatus → Bool
case_status_eq open_case open_case = true
case_status_eq in_progress in_progress = true
case_status_eq cancelled cancelled = true
case_status_eq completed completed = true
case_status_eq _ _ = false

-- `status in ACTIVE_RECOVERY_CASE_STATUSES`
abbrev pub is_active : RecoveryCaseStatus → Bool
is_active open_case = true
is_active in_progress = true
is_active cancelled = false
is_active completed = false

pub record RecoveryCase : Type 0 where
  pub id : ℕ
  pub match_id : ℕ
  pub lost_item_id : ℕ
  pub found_item_id : ℕ
  pub status : RecoveryCaseStatus
  pub opened_by_user_id : Option ℕ
  pub cancellation_reason : Option String
  pub completed_at : Option ℕ
  pub created_at : ℕ
  pub updated_at : ℕ

abbrev pub case_key : RecoveryCase → ℕ
case_key c = c.id

-- What the unique indexes on `match_id`, and on `found_item_id` among the active cases, forbid.
abbrev pub conflicts : RecoveryCase → RecoveryCase → Bool
conflicts a b =
    a.match_id == b.match_id
    || (is_active a.status && is_active b.status && a.found_item_id == b.found_item_id)

abbrev pub conflicts_any : RecoveryCase → List RecoveryCase → Bool
conflicts_any a [] = false
conflicts_any a (b ∷ bs) = conflicts a b || conflicts_any a bs

abbrev pub violates_indexes : List RecoveryCase → Bool
violates_indexes [] = false
violates_indexes (c ∷ cs) = conflicts_any c cs || violates_indexes cs

pub data SagaStepStatus : Type 0 where
  started succeeded failed : SagaStepStatus

pub data TargetStatus : Type 0 where
  available matched : TargetStatus

pub record ItemRecoveryOpenRequest : Type 0 where
  pub item_ids : List ℕ
  pub actor_user_id : Option ℕ
  pub reason : Option String

pub record ItemRecoveryCancelRequest : Type 0 where
  pub item_ids : List ℕ
  pub actor_user_id : Option ℕ
  pub reason : Option String
  pub target_status : TargetStatus

pub record ItemRecoveryCompleteRequest : Type 0 where
  pub item_ids : List ℕ
  pub actor_user_id : Option ℕ
  pub reason : Option String

-- The request that a saga step stores.
pub data RequestPayload : Type 0 where
  open_request : ItemRecoveryOpenRequest → RequestPayload
  cancel_request : ItemRecoveryCancelRequest → RequestPayload
  complete_request : ItemRecoveryCompleteRequest → RequestPayload

-- And the response: that of item-service, of a type `R` that is never inspected, or the error.
pub data ResponsePayload (R : Type 0) : Type 0 where
  response : R → ResponsePayload R
  error : String → ResponsePayload R

pub record SagaStep (R : Type 0) : Type 0 where
  pub id : ℕ
  pub case_id : ℕ
  pub step_name : String
  pub step_status : SagaStepStatus
  pub request_payload : RequestPayload
  pub response_payload : Option (ResponsePayload R)
  pub occurred_at : ℕ

pub record RecoveryCaseEventPayload : Type 0 where
  pub id : ℕ
  pub match_id : ℕ
  pub lost_item_id : ℕ
  pub found_item_id : ℕ
  pub status : RecoveryCaseStatus
  pub opened_by_user_id : Option ℕ
  pub cancellation_reason : Option String
  pub created_at : ℕ
  pub updated_at : ℕ
  pub completed_at : Option ℕ

pub record CaseEvent : Type 0 where
  pub id : ℕ
  pub case_id : ℕ
  pub event_type : String
  pub payload_json : RecoveryCaseEventPayload
  pub occurred_at : ℕ

-- The part of a MatchAccepted payload that the service reads.
pub record MatchAcceptedPayload : Type 0 where
  pub id : ℕ
  pub lost_item_id : ℕ
  pub found_item_id : ℕ
  pub decided_by_user_id : Option ℕ

pub record RecoveryCaseCancelRequest : Type 0 where
  pub actor_user_id : Option ℕ
  pub reason : Option String
  pub target_status : TargetStatus

pub record RecoveryCaseCompleteRequest : Type 0 where
  pub actor_user_id : Option ℕ
  pub reason : Option String

-- The exceptions: those of the service, pydantic's ValidationError and SQLAlchemy's
-- IntegrityError. Only the text of the integration error is read again.
pub data Error : Type 0 where
  invalid_transition conflict not_found validation_error integrity_error : Error
  integration : String → Error

-- The tables `recovery_cases`, `saga_steps` and `case_events`.
pub record Tables (R : Type 0) : Type 0 where
  pub cases : List RecoveryCase
  pub saga_steps : List (SagaStep R)
  pub case_events : List CaseEvent

abbrev pub RecoveryDb : Type 0 → Type 0
RecoveryDb R = Db RecoveryCaseEventPayload (Tables R)

-- The service's session, and the system behind its client of item-service.
pub record Node (R W : Type 0) : Type 0 where
  pub session : Session (RecoveryDb R)
  pub remote : W

-- `ItemRecoveryClient`: a call returns a response, or raises ItemServiceIntegrationError with a
-- text, and may change the remote system either way.
pub record ItemRecoveryClient (R W : Type 0) : Type 0 where
  pub open_recovery : ItemRecoveryOpenRequest → Exec String W R
  pub cancel_recovery : ItemRecoveryCancelRequest → Exec String W R
  pub complete_recovery : ItemRecoveryCompleteRequest → Exec String W R
