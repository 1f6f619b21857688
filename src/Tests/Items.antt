-- ===== src/Tests/Items.antt =====
-- item-service on concrete requests.
use trabalho_devops.Prelude.{inl, arith, ℕ, ◌≡◌, ◌↔◌, refl, none, some, [], ◌∷◌, List}
use trabalho_devops.Exec.{ok, err}
use trabalho_devops.Store.{Env, Session, in_session}
use trabalho_devops.Messaging.{Settings}
use trabalho_devops.Item.Models.{
  lost, available, matched, in_recovery, recovered, cancelled, Item, ItemStatus, ItemDb,
  ItemCreateRequest, ItemUpdateRequest, RecoveryOpenRequest, RecoveryCancelRequest,
  RecoveryCompleteRequest, invalid_transition,
}
use trabalho_devops.Item.Transitions.{validate_transition}
use trabalho_devops.Item.Rules.{by_open, by_cancel, by_complete, Allowed, validate_transition_iff}
use trabalho_devops.Item.Records.{get_items_or_raise}
use trabalho_devops.Item.Service.{
  transition_each, apply_status_transition, open_recovery, cancel_recovery, complete_recovery,
}
use trabalho_devops.Item.Terminal.{apply_status_transition_terminal}
use trabalho_devops.Item.Invariant.{IsConsistent}
use trabalho_devops.Item.Requests.{
  Request, create, open_case, cancel_case, complete_case, serve, new_session, serve-IsConsistent,
}
use trabalho_devops.Item.Api.{complete_recovery_endpoint, respond}
use trabalho_devops.Item.Statuses.{IsRefusal, respond-Outcome}
use trabalho_devops.Store.Outcomes.{Outcome}
use trabalho_devops.Item.Update.{update_item}
use trabalho_devops.Item.Merges.{Merged, update_item-Merged}
use trabalho_devops.Item.Recovery.{
  Settled, open_recovery-Settled, cancel_recovery-Settled, complete_recovery-Settled,
}

abbrev settings : Settings
settings = record {
  rabbitmq_events_exchange = "domain.events";
  outbox_publish_batch_size = 2;
  outbox_publish_retry_delay = 1000;
  outbox_publish_max_attempts = 3;
}

abbrev env : Env
env = record { uuids = λ n. n; drawn = 0; times = λ n. n; ticks = 0 }

abbrev draft : ItemCreateRequest
draft = record {
  classification = lost;
  title = 98 ∷ 97 ∷ 103 ∷ [];
  description = 98 ∷ [];
  category = 98 ∷ [];
  color = 114 ∷ [];
  location_description = 104 ∷ [];
  approximate_date = 20;
  reporter_user_id = 7;
}

abbrev opening : RecoveryOpenRequest
opening = record { item_ids = 0 ∷ 4 ∷ 0 ∷ []; actor_user_id = some 7; reason = none }

abbrev cancelling : RecoveryCancelRequest
cancelling = record {
  item_ids = 0 ∷ 4 ∷ [];
  actor_user_id = none;
  reason = some "";
  target_status = available;
}

abbrev completing : RecoveryCompleteRequest
completing = record { item_ids = 0 ∷ 9 ∷ []; actor_user_id = none; reason = none }

abbrev requests : List Request
requests =
    create draft
    ∷ create draft
    ∷ open_case opening
    ∷ cancel_case cancelling
    ∷ complete_case completing
    ∷ []

serve-IsConsistent_example : IsConsistent (serve settings requests (new_session env)).committed
serve-IsConsistent_example = serve-IsConsistent settings requests env (λ i j e. e)

abbrev an_item : ℕ → ItemStatus → Item
an_item id status = record {
  id = id;
  classification = lost;
  title = [];
  description = [];
  category = [];
  color = [];
  location_description = [];
  approximate_date = 0;
  reporter_user_id = 7;
  status = status;
  version = 1;
  created_at = id;
  updated_at = id;
}

abbrev db_with : ItemStatus → ItemDb
db_with status = record {
  outbox = [];
  processed = [];
  tables = record { items = an_item 0 status ∷ an_item 4 status ∷ []; history = [] };
}

abbrev session_with : ItemStatus → Session ItemDb
session_with status = record { committed = db_with status; working = db_with status; env = env }

-- The items' ids are 0 and 4: the first request names one twice, the last names one that is missing.
opened :
    (in_session (open_recovery settings opening) (session_with matched)).1.committed.tables.items
    ≡ record (an_item 0 in_recovery) { version = 2; updated_at = 0 }
      ∷ record (an_item 4 in_recovery) { version = 2; updated_at = 3 }
      ∷ []
unfolding open_recovery get_items_or_raise transition_each apply_status_transition
    validate_transition
opened = refl

open_recovery-Settled_example :
    let (r, s') = in_session (open_recovery settings opening) (session_with matched) in
    Settled by_open in_recovery (0 ∷ 4 ∷ 0 ∷ []) (db_with matched) s'.committed r
open_recovery-Settled_example =
    open_recovery-Settled settings (session_with matched) (refl, (refl, tt)) opening

cancel_recovery-Settled_example :
    let (r, s') = in_session (cancel_recovery settings cancelling) (session_with in_recovery) in
    Settled by_cancel available (0 ∷ 4 ∷ []) (db_with in_recovery) s'.committed r
cancel_recovery-Settled_example =
    cancel_recovery-Settled settings (session_with in_recovery) (refl, (refl, tt)) cancelling

complete_recovery-Settled_example :
    let (r, s') = in_session (complete_recovery settings completing) (session_with in_recovery) in
    Settled by_complete recovered (0 ∷ 9 ∷ []) (db_with in_recovery) s'.committed r
complete_recovery-Settled_example =
    complete_recovery-Settled settings (session_with in_recovery) (refl, (refl, tt)) completing

validate_transition_iff_example :
    (validate_transition matched in_recovery "internal_open" ≡ ok tt)
    ↔ Allowed by_open matched in_recovery
validate_transition_iff_example = validate_transition_iff by_open matched in_recovery

apply_status_transition_terminal_example :
    apply_status_transition settings
      (an_item 0 cancelled)
      available
      "again"
      (some 7)
      "public"
      (session_with cancelled)
    ≡ (err invalid_transition, session_with cancelled)
apply_status_transition_terminal_example =
    apply_status_transition_terminal settings (an_item 0 cancelled) available "again" (some 7)
      "public" (session_with cancelled) (inl refl)

-- A refused completion: one of its items is missing.
refused : (respond settings (complete_case completing) (session_with available)).0 ≡ err 400
unfolding respond complete_recovery_endpoint complete_recovery get_items_or_raise
refused = refl

respond-Outcome_example :
    Outcome IsRefusal
      (session_with available)
      (respond settings (complete_case completing) (session_with available)).1
      (respond settings (complete_case completing) (session_with available)).0
respond-Outcome_example =
    respond-Outcome settings (complete_case completing) (session_with available) tt

-- A new title and the old category.
abbrev renaming : ItemUpdateRequest
renaming = record {
  title = some (98 ∷ []);
  description = none;
  category = some [];
  color = none;
  location_description = none;
  approximate_date = none;
  reporter_user_id = none;
}

update_item-Merged_example :
    let (r, s') = in_session (update_item settings 4 renaming) (session_with matched) in
    Merged renaming 4 (some (an_item 4 matched)) (db_with matched) s'.committed r
update_item-Merged_example =
    update_item-Merged settings 4 renaming (session_with matched) (omega arith, tt)
