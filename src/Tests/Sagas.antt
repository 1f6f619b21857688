-- ===== src/Tests/Sagas.antt =====
-- A recovery case of the items 0 and 4, with item-service behind a network that answers, or that
-- loses the answer.
use trabalho_devops.Prelude.{ℕ, ◌==◌, ◌≡◌, refl, inl, inr, Bool-cases, none, some, [], ◌∷◌, arith}
use trabalho_devops.Exec.{err}
use trabalho_devops.Store.{Env}
use trabalho_devops.Table.{IsUnique}
use trabalho_devops.Messaging.{Settings, EventEnvelope}
use trabalho_devops.Item.Models.{lost, matched, in_recovery, Item, ItemDb, item_key}
use trabalho_devops.Item.Rules.{by_open, by_cancel, by_complete, open_case, idle_matched}
use trabalho_devops.Item.Transitions.{validate_transition}
use trabalho_devops.Item.Records.{get_items_or_raise}
use trabalho_devops.Item.Service.{open_recovery, transition_each, apply_status_transition}
use trabalho_devops.Recovery.Service.{abandon_opening}
use trabalho_devops.Item.Loop.{AllMayMove}
use trabalho_devops.Item.Api.{open_recovery_endpoint, RecoveryOperationResponse}
use trabalho_devops.Item.Models as Items
use trabalho_devops.Recovery.Models as Cases
use trabalho_devops.Recovery.Models.{
  RecoveryCase, MatchAcceptedPayload, RecoveryDb, Node, Error, is_active,
}
use trabalho_devops.Recovery.Consume.{open_at_item_service}
use trabalho_devops.Recovery.Preparing.{IsPrepared}
use trabalho_devops.Recovery.Invariant.{IsSound}
use trabalho_devops.Recovery.Decide.{cancel_recovery_case, complete_recovery_case}
use trabalho_devops.Saga.Agreement.{is_in_progress, begun, Concurs}
use trabalho_devops.Saga.Closing.{cancel_recovery_case-Concurs, complete_recovery_case-Concurs}
use trabalho_devops.Saga.Client.{Fate, answered, unanswered, Link, http_client}
use trabalho_devops.Saga.Opening.{Agrees, open_at_item_service-Agrees}
use trabalho_devops.Saga.Retrying.{open_at_item_service_stuck}

abbrev settings : Settings
settings = record {
  rabbitmq_events_exchange = "domain.events";
  outbox_publish_batch_size = 2;
  outbox_publish_retry_delay = 1000;
  outbox_publish_max_attempts = 3;
}

abbrev env : Env
env = record { uuids = λ n. n; drawn = 5; times = λ n. n; ticks = 0 }

abbrev an_item : ℕ → Item
an_item id = record {
  id = id;
  classification = lost;
  title = [];
  description = [];
  category = [];
  color = [];
  location_description = [];
  approximate_date = 0;
  reporter_user_id = 7;
  status = matched;
  version = 1;
  created_at = id;
  updated_at = id;
}

abbrev items : ItemDb
items = record {
  outbox = [];
  processed = [];
  tables = record { items = an_item 0 ∷ an_item 4 ∷ []; history = [] };
}

abbrev link : Fate → Link
link fate = record {
  items = record { committed = items; working = items; env = env };
  fates = λ k. fate;
  texts = λ k. "timed out";
  calls = 0;
}

abbrev event : EventEnvelope MatchAcceptedPayload
event = record {
  event_id = 100;
  event_type = "MatchAccepted";
  aggregate_id = 70;
  aggregate_version = 1;
  occurred_at = 5;
  correlation_id = 900;
  causation_id = none;
  payload = record { id = 70; lost_item_id = 0; found_item_id = 4; decided_by_user_id = some 7 };
}

abbrev new_case : RecoveryCase
new_case = record {
  id = 0;
  match_id = 70;
  lost_item_id = 0;
  found_item_id = 4;
  status = Cases.RecoveryCaseStatus.open_case;
  opened_by_user_id = some 7;
  cancellation_reason = none;
  completed_at = none;
  created_at = 0;
  updated_at = 0;
}

abbrev with_case : RecoveryDb RecoveryOperationResponse
with_case = record {
  outbox = [];
  processed = [];
  tables = record { cases = new_case ∷ []; saga_steps = []; case_events = [] };
}

abbrev node : Fate → Node RecoveryOperationResponse Link
node fate = record {
  session = record { committed = with_case; working = with_case; env = env };
  remote = link fate;
}

prepared : IsPrepared new_case (node answered).session
prepared = record {
  here = refl;
  status = refl;
  sound = record {
    distinct = λ i j e. e;
    committed = record { unique = (refl, tt); exclusive = refl; fresh = λ n h. ground arith };
    working = record { unique = (refl, tt); exclusive = refl; fresh = λ n h. ground arith };
  };
}

open_at_item_service-Agrees_example :
    Agrees settings event new_case
      (node answered)
      (open_at_item_service settings (http_client settings) event new_case (node answered))
open_at_item_service-Agrees_example =
    open_at_item_service-Agrees settings event new_case (node answered) prepared (refl, (refl, tt))
      refl

may_move : AllMayMove by_open in_recovery (0 ∷ 4 ∷ []) items
may_move k h = elim (Bool-cases (k == 0)) [
  | inl first ↦ (an_item 0, ground arith, open_case idle_matched)
  | inr other ↦ (an_item 4, ground arith, open_case idle_matched)
]

-- The event again, when item-service answers again.
abbrev later : Node RecoveryOperationResponse Link
later = record (node answered) {
  remote =
      record (open_at_item_service settings (http_client settings) event new_case
        (node unanswered)).1.remote { fates = λ k. answered };
}

later-IsUnique : IsUnique item_key later.remote.items.committed.tables.items
unfolding open_at_item_service open_recovery_endpoint open_recovery get_items_or_raise
    transition_each apply_status_transition validate_transition http_client abandon_opening
later-IsUnique = (refl, (refl, tt))

open_at_item_service_stuck_example :
    ((e : Error) × ((open_at_item_service settings
          (http_client settings)
          event
          new_case
          (node unanswered)).0
        ≡ err e))
    × ((e : Error) × ((open_at_item_service settings (http_client settings) event new_case later).0
          ≡ err e))
    × ((open_at_item_service settings
          (http_client settings)
          event
          new_case
          later).1.remote.items.committed
        ≡ later.remote.items.committed)
open_at_item_service_stuck_example =
    open_at_item_service_stuck settings event event new_case new_case (node unanswered) later refl
      (refl, (refl, tt)) may_move refl refl later-IsUnique refl refl

-- The case IN_PROGRESS, with both items IN_RECOVERY.
abbrev held : Node RecoveryOperationResponse Link
held = record (node answered) {
  session = record { committed = running; working = running; env = env };
  remote = record (link answered) {
    items = record { committed = held_items; working = held_items; env = env };
  };
}
  where
    running : RecoveryDb RecoveryOperationResponse
    running = record with_case {
      tables = record with_case.tables {
        cases = record new_case { status = Cases.RecoveryCaseStatus.in_progress } ∷ [];
      };
    }

    held_items : ItemDb
    held_items = record items {
      tables = record items.tables {
        items =
            record (an_item 0) { status = in_recovery }
            ∷ record (an_item 4) { status = in_recovery }
            ∷ [];
      };
    }

held-IsSound : IsSound held.session
held-IsSound = record {
  distinct = λ i j e. e;
  committed = record { unique = (refl, tt); exclusive = refl; fresh = λ n h. ground arith };
  working = record { unique = (refl, tt); exclusive = refl; fresh = λ n h. ground arith };
}

cancel_recovery_case-Concurs_example :
    Concurs 0 held is_active by_cancel Items.ItemStatus.matched Cases.RecoveryCaseStatus.cancelled (
      cancel_recovery_case settings
        (http_client settings)
        0
        (record {
          actor_user_id = some 7;
          reason = none;
          target_status = Cases.TargetStatus.matched;
        })
        (begun held))
cancel_recovery_case-Concurs_example =
    cancel_recovery_case-Concurs settings 0 held held-IsSound (refl, (refl, tt)) refl
      (record { actor_user_id = some 7; reason = none; target_status = Cases.TargetStatus.matched })

complete_recovery_case-Concurs_example :
    Concurs 0 held is_in_progress by_complete Items.ItemStatus.recovered
      Cases.RecoveryCaseStatus.completed
      (complete_recovery_case settings
        (http_client settings)
        0
        (record { actor_user_id = some 7; reason = none })
        (begun held))
complete_recovery_case-Concurs_example =
    complete_recovery_case-Concurs settings 0 held held-IsSound (refl, (refl, tt)) refl
      (record { actor_user_id = some 7; reason = none })
