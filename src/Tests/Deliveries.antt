-- ===== src/Tests/Deliveries.antt =====
-- matching-service from an empty database: a lost wallet is announced, then a found one.
use trabalho_devops.Prelude.{ℕ, ◌+◌, ◌≡◌, refl, true, false, Option, none, some, [], ◌∷◌}
use trabalho_devops.Table.{find}
use trabalho_devops.Store.{Env, Session}
use trabalho_devops.Messaging.{Settings, EventEnvelope}
use trabalho_devops.Matching.Models.{
  ItemClassification, lost, found, available, ItemEventPayload, suggested, MatchSuggestion,
  match_key, compared, MatchDb,
}
use trabalho_devops.Matching.Scoring.{is_match_candidate_pair}
use trabalho_devops.Matching.Service.{reject_match}
use trabalho_devops.Matching.Suggest.{consume_item_event}
use trabalho_devops.Matching.Decisions.{still_candidate}
use trabalho_devops.Matching.Requests.{
  item_event, reject, handle, serve, new_session, serve-AllFair,
}

abbrev settings : Settings
settings = record {
  rabbitmq_events_exchange = "domain.events";
  outbox_publish_batch_size = 2;
  outbox_publish_retry_delay = 1000;
  outbox_publish_max_attempts = 3;
}

-- The payloads are taken as they are.
abbrev validate : ItemEventPayload → Option ItemEventPayload
validate p = some p

abbrev created : ℕ → ItemClassification → ℕ → EventEnvelope ItemEventPayload
created id classification day = record {
  event_id = 100 + id;
  event_type = "ItemCreated";
  aggregate_id = id;
  aggregate_version = 1;
  occurred_at = 60;
  correlation_id = 101;
  causation_id = none;
  payload = record {
    id = id;
    classification = classification;
    title = 67 ∷ 97 ∷ 114 ∷ 116 ∷ 101 ∷ 105 ∷ 114 ∷ 97 ∷ [];
    description = [];
    category = 65 ∷ 98 ∷ [];
    color = [];
    location_description = [];
    approximate_date = day;
    reporter_user_id = 8;
    status = available;
    version = 1;
    created_at = 60;
    updated_at = 60;
  };
}

abbrev env : Env
env = record { uuids = λ n. n; drawn = 40; times = λ n. n; ticks = 50 }

abbrev after : Session MatchDb
after =
    serve settings validate
      (item_event (created 1 lost 10)
        ∷ item_event (created 2 found 12)
        ∷ reject 7 (record { decided_by_user_id = 9 })
        ∷ [])
      (new_session env)

abbrev waiting : MatchSuggestion
waiting = record {
  id = 40;
  lost_item_id = 1;
  found_item_id = 2;
  score = 85;
  criteria_snapshot_json = compared (record {
    color_matched = true;
    location_matched = false;
    location_overlap = [];
    date_matched = true;
    days_difference = 2;
    keywords_matched = true;
    keywords_overlap = (99 ∷ 97 ∷ 114 ∷ 116 ∷ 101 ∷ 105 ∷ 114 ∷ 97 ∷ []) ∷ [];
    eligible = true;
    score = 85;
  });
  status = suggested;
  decided_by_user_id = none;
  created_at = 50;
  updated_at = 50;
}

announced : find match_key 40 after.committed.tables.suggestions ≡ some waiting
unfolding serve handle consume_item_event reject_match is_match_candidate_pair
announced = refl

serve-AllFair_example : still_candidate waiting after.committed ≡ true
serve-AllFair_example =
    serve-AllFair settings validate
      (item_event (created 1 lost 10)
        ∷ item_event (created 2 found 12)
        ∷ reject 7 (record { decided_by_user_id = 9 })
        ∷ [])
      env (λ i j e. e) 40 waiting announced refl
