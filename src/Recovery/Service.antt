-- ===== src/Recovery/Service.antt =====
-- The operations of app/services/recovery_case_service.py that change state, over a client of
-- item-service.
use Prim.Native.String.{◌++◌}
use trabalho_devops.Prelude.{String, Option, none, some, if◌then◌else◌}
use trabalho_devops.Exec.{Exec, Result, ok, pure, raise, ◌>>=◌, ◌>>◌}
use trabalho_devops.Store.{uuid4, utc_now, commit, rollback}
use trabalho_devops.Messaging.{Settings, EventEnvelope, register_processed_event}
use trabalho_devops.Recovery.Models.{
  open_case, in_progress, cancelled, RecoveryCase, violates_indexes, SagaStep, response, error,
  MatchAcceptedPayload, Error, conflict, integration, Node,
}
use trabalho_devops.Recovery.Records.{
  Local, open_failure_prefix, add_recovery_case, save_case, ensure_found_item_is_available_for_case,
  finish_saga_step, fail_saga_step, record_recovery_case_event,
}

abbrev pub Op : Type 0 → Type 0 → Type 0 → Type 0
Op R W A = Exec Error (Node R W) A

module _ {R W A : Type 0} where
  -- A step on the service's own session.
  abbrev pub local : Local R A → Op R W A
  local m n = let (r, s) = m n.session in (r, record n { session = s })

  -- A call of the client inside `try`: its exception is handed on as a value.
  abbrev pub attempt : Exec String W A → Op R W (Result String A)
  attempt call n = let (r, w) = call n.remote in (ok r, record n { remote = w })

module _ {R : Type 0} where
  -- The last commit of `consume_match_accepted`, in its own `try`.
  unfoldable pub commit_or_conflict : Local R (Unit {0})
  commit_or_conflict s =
      (if violates_indexes s.working.tables.cases then rollback >> raise conflict else commit) s

  -- The handler of a failed call, up to its `raise`.
  unfoldable pub abandon_opening : RecoveryCase → SagaStep R → String → Local R RecoveryCase
  unfolding fail_saga_step save_case
  abandon_opening c step exc = do
    fail_saga_step step (error exc)
    now ← utc_now
    save_case (record c {
      status = cancelled;
      cancellation_reason = some (open_failure_prefix ++ " " ++ exc);
      updated_at = now;
    })
    commit
    raise (integration exc)

  -- What follows the call when it has returned.
  unfoldable pub conclude_opening :
      Settings
      → EventEnvelope MatchAcceptedPayload
      → RecoveryCase
      → SagaStep R
      → R
      → Local R RecoveryCase
  unfolding finish_saga_step save_case record_recovery_case_event register_processed_event
      commit_or_conflict
  conclude_opening settings envelope c step answer = do
    finish_saga_step step (response answer)
    now ← utc_now
    let opened : RecoveryCase = record c { status = in_progress; updated_at = now }
    save_case opened
    record_recovery_case_event settings opened "RecoveryCaseOpened" envelope.correlation_id
        (some envelope.event_id)
    register_processed_event envelope
    commit_or_conflict
    pure opened

  -- The case of an event whose match has none that stands: a new one, or the failed one again.
  unfoldable pub prepare_case :
      EventEnvelope MatchAcceptedPayload → Option RecoveryCase → Local R RecoveryCase
  unfolding ensure_found_item_is_available_for_case add_recovery_case save_case
  prepare_case envelope none = do
    id ← uuid4
    created_at ← utc_now
    updated_at ← utc_now
    let c : RecoveryCase = record {
      id = id;
      match_id = envelope.payload.id;
      lost_item_id = envelope.payload.lost_item_id;
      found_item_id = envelope.payload.found_item_id;
      status = open_case;
      opened_by_user_id = envelope.payload.decided_by_user_id;
      cancellation_reason = none;
      completed_at = none;
      created_at = created_at;
      updated_at = updated_at;
    }
    ensure_found_item_is_available_for_case c.found_item_id none
    add_recovery_case c
    pure c
  prepare_case envelope (some c) = do
    ensure_found_item_is_available_for_case c.found_item_id (some c.id)
    now ← utc_now
    let again : RecoveryCase = record c {
      status = open_case;
      cancellation_reason = none;
      updated_at = now;
    }
    save_case again
    pure again
