-- ===== src/Tests/Cases.antt =====
-- recovery-case-service on concrete events, against an item-service that counts its calls and
-- answers with the count, or refuses.
use trabalho_devops.Prelude.{ℕ, ◌+◌, String, ◌≡◌, refl, none, some, Option, [], ◌∷◌, List}
use trabalho_devops.Exec.{Exec, ok, err}
use trabalho_devops.Store.{Env}
use trabalho_devops.Messaging.{Settings, EventEnvelope}
use trabalho_devops.Recovery.Models.{
  open_case, in_progress, RecoveryCase, RecoveryDb, Node, ItemRecoveryClient, MatchAcceptedPayload,
  available, cancelled, completed, is_active, RecoveryCaseCancelRequest,
  RecoveryCaseCompleteRequest,
}
use trabalho_devops.Recovery.Consume.{consume_match_accepted, open_at_item_service}
use trabalho_devops.Recovery.Exclusion.{IsExclusive}
use trabalho_devops.Recovery.Requests.{
  Request, match_accepted, cancel, serve, new_db, new_node, serve-IsExclusive,
}
use trabalho_devops.Recovery.Delivery.{in_node, consume_redelivered}
use trabalho_devops.Recovery.Api.{cancel_recovery_case_endpoint, complete_recovery_case_endpoint}
use trabalho_devops.Recovery.Statuses.{Answered, is_in_progress, endings-Answered}
use trabalho_devops.Recovery.Opening.{Abandoned, open_at_item_service_failed}

abbrev settings : Settings
settings = record {
  rabbitmq_events_exchange = "domain.events";
  outbox_publish_batch_size = 2;
  outbox_publish_retry_delay = 1000;
  outbox_publish_max_attempts = 3;
}

abbrev env : Env
env = record { uuids = λ n. n; drawn = 0; times = λ n. n; ticks = 0 }

abbrev count : Exec String ℕ ℕ
count n = (ok n, n + 1)

abbrev refuse : Exec String ℕ ℕ
refuse n = (err "item-service is down", n)

abbrev counting : ItemRecoveryClient ℕ ℕ
counting = record {
  open_recovery = λ r. count;
  cancel_recovery = λ r. count;
  complete_recovery = λ r. count;
}

abbrev refusing : ItemRecoveryClient ℕ ℕ
refusing = record {
  open_recovery = λ r. refuse;
  cancel_recovery = λ r. refuse;
  complete_recovery = λ r. refuse;
}

-- The payloads are taken as they are.
abbrev accept : MatchAcceptedPayload → Option MatchAcceptedPayload
accept p = some p

abbrev event : ℕ → ℕ → ℕ → EventEnvelope MatchAcceptedPayload
event event_id match_id found_item_id = record {
  event_id = event_id;
  event_type = "MatchAccepted";
  aggregate_id = match_id;
  aggregate_version = 1;
  occurred_at = 5;
  correlation_id = 900;
  causation_id = none;
  payload = record {
    id = match_id;
    lost_item_id = 61;
    found_item_id = found_item_id;
    decided_by_user_id = some 7;
  };
}

-- Two matches of one found item, a cancellation, and the second event again.
abbrev requests : List (Request MatchAcceptedPayload)
requests =
    match_accepted (event 100 70 62)
    ∷ match_accepted (event 101 71 62)
    ∷ cancel 0 (record { actor_user_id = none; reason = none; target_status = available })
    ∷ match_accepted (event 101 71 62)
    ∷ []

abbrev start : Node ℕ ℕ
start = new_node env 0

serve-IsExclusive_example :
    IsExclusive (serve settings counting accept requests start).session.committed.tables.cases
serve-IsExclusive_example = serve-IsExclusive settings counting accept requests env 0 (λ i j e. e)

abbrev opened_case : RecoveryCase
opened_case = record {
  id = 0;
  match_id = 70;
  lost_item_id = 61;
  found_item_id = 62;
  status = in_progress;
  opened_by_user_id = some 7;
  cancellation_reason = none;
  completed_at = none;
  created_at = 0;
  updated_at = 3;
}

abbrev after_delivery : Node ℕ ℕ
after_delivery =
    (in_node (consume_match_accepted settings counting accept (event 100 70 62)) start).1

first_delivery :
    (consume_match_accepted settings counting accept (event 100 70 62) start).0 ≡ ok opened_case
unfolding consume_match_accepted
first_delivery = refl

consume_redelivered_example :
    (in_node (consume_match_accepted settings counting accept (event 100 70 62)) after_delivery).1
    ≡ after_delivery
consume_redelivered_example =
    consume_redelivered settings counting accept (event 100 70 62) start opened_case first_delivery

abbrev new_case : RecoveryCase
new_case = record opened_case { status = open_case; updated_at = 1 }

abbrev with_case : RecoveryDb ℕ
with_case = record new_db {
  tables = record { cases = new_case ∷ []; saga_steps = []; case_events = [] };
}

abbrev prepared : Node ℕ ℕ
prepared = record {
  session = record { committed = with_case; working = with_case; env = env };
  remote = 0;
}

open_at_item_service_failed_example :
    Abandoned settings refusing
      (event 100 70 62)
      new_case
      prepared
      "item-service is down"
      (open_at_item_service settings refusing (event 100 70 62) new_case prepared)
open_at_item_service_failed_example =
    open_at_item_service_failed settings refusing (event 100 70 62) new_case prepared
      "item-service is down" refl refl

abbrev cancelling : RecoveryCaseCancelRequest
cancelling = record { actor_user_id = none; reason = none; target_status = available }

abbrev completing : RecoveryCaseCompleteRequest
completing = record { actor_user_id = none; reason = none }

-- The case is OPEN: it can be cancelled, but not completed.
endings-Answered_example :
    Answered is_active cancelled
      (some new_case)
      (cancel_recovery_case_endpoint settings counting 0 cancelling prepared).0
    × Answered is_in_progress completed
        (some new_case)
        (complete_recovery_case_endpoint settings counting 0 completing prepared).0
endings-Answered_example = endings-Answered settings counting 0 prepared refl cancelling completing
