-- ===== src/Recovery/Opening.antt =====
-- What is kept when the call of item-service for a new case fails.
use Prim.Native.String.{◌++◌}
use text.Mathlib.TextPositions.{starts_with-append}
use trabalho_devops.Prelude.{◌+◌, ◌≡◌, refl, true, false, some, String}
use trabalho_devops.Exec.{Result, err}
use trabalho_devops.Table.{insert, save}
use trabalho_devops.Messaging.{Settings, EventEnvelope}
use trabalho_devops.Recovery.Models.{
  Error, cancelled, RecoveryCase, case_key, violates_indexes, failed, SagaStep, error,
  MatchAcceptedPayload, integration, Node, ItemRecoveryClient,
}
use trabalho_devops.Recovery.Records.{open_failure_prefix, is_retryable_failed_open}
use trabalho_devops.Recovery.Service.{abandon_opening}
use trabalho_devops.Recovery.Consume.{open_at_item_service}
use trabalho_devops.Recovery.Calling.{opening_request, opening_step}

-- Any cancelled case whose reason begins with the prefix may be opened again, whoever wrote it.
pub is_retryable_of_prefix :
    (c : RecoveryCase) (text : String)
    → c.status ≡ cancelled
    → c.cancellation_reason ≡ some (open_failure_prefix ++ text)
    → is_retryable_failed_open c ≡ true
unfolding is_retryable_failed_open
is_retryable_of_prefix c text s r = rw (s, r) (starts_with-append open_failure_prefix text)

module _ {R W : Type 0} (settings : Settings) (client : ItemRecoveryClient R W)
    (envelope : EventEnvelope MatchAcceptedPayload) (c : RecoveryCase) (n : Node R W) where
  -- The case as the handler leaves it.
  abbrev pub failed_case : String → RecoveryCase
  failed_case exc = record c {
    status = cancelled;
    cancellation_reason = some (open_failure_prefix ++ " " ++ exc);
    updated_at = n.session.env.times (n.session.env.ticks + 1);
  }

  pub failed_case_retryable : (exc : String) → is_retryable_failed_open (failed_case exc) ≡ true
  failed_case_retryable exc = is_retryable_of_prefix (failed_case exc) (" " ++ exc) refl refl

  -- How the opening ends when the call has raised: with an integration error; all is committed; the
  -- event is not registered, nothing is announced; the case is cancelled, and the step has failed.
  abbrev pub Abandoned : String → Result Error RecoveryCase × Node R W → Type 0
  Abandoned exc (r, n') =
      (r ≡ err (integration exc))
      × (n'.session.committed ≡ n'.session.working)
      × (n'.session.committed.processed ≡ n.session.working.processed)
      × (n'.session.committed.outbox ≡ n.session.working.outbox)
      × (n'.session.committed.tables.case_events ≡ n.session.working.tables.case_events)
      × (n'.session.committed.tables.cases
          ≡ save case_key (failed_case exc) n.session.working.tables.cases)
      × (n'.session.committed.tables.saga_steps
          ≡ save (λ (x : SagaStep R). x.id)
              (record (opening_step settings client envelope c n) {
                step_status = failed;
                response_payload = some (error exc);
              })
              (insert (opening_step settings client envelope c n)
                n.session.working.tables.saga_steps))
      × (is_retryable_failed_open (failed_case exc) ≡ true)

  -- When the call of item-service for a case raises ItemServiceIntegrationError, and no index is
  -- violated, the exception is raised again, and what is committed is: the case CANCELLED with the
  -- error as its reason, its saga step FAILED with the error, no event registered as processed and
  -- none put in the outbox, so that the next delivery of MatchAccepted may open the case again.
  pub open_at_item_service_failed :
      (exc : String)
      → violates_indexes n.session.working.tables.cases ≡ false
      → (client.open_recovery (opening_request settings client envelope c n) n.remote).0 ≡ err exc
      → Abandoned exc (open_at_item_service settings client envelope c n)
  unfolding abandon_opening open_at_item_service
  open_at_item_service_failed exc clean raised =
      rw (clean, raised) (refl, refl, refl, refl, refl, refl, refl, failed_case_retryable exc)
