-- ===== src/Tests/Matches.antt =====
-- matching-service on a lost and a found wallet.
use trabalho_devops.Prelude.{ℕ, ◌≡◌, ◌≤◌, ◌⊎◌, ◌↔◌, refl, true, false, Option, none, some, [], ◌∷◌}
use trabalho_devops.Exec.{ok}
use trabalho_devops.Store.{Session, in_session}
use trabalho_devops.Messaging.{Settings, EventEnvelope}
use trabalho_devops.Matching.Models.{
  ItemClassification, lost, found, available, ItemProjection, ItemEventPayload, suggested, accepted,
  rejected, MatchSuggestion, refused, compared, category_mismatch, MatchDecisionRequest, MatchDb,
}
use trabalho_devops.Matching.Scoring.{is_match_candidate_pair}
use trabalho_devops.Matching.Service.{accept_match, reject_match}
use trabalho_devops.Matching.Service.{upsert_item_projection}
use trabalho_devops.Matching.Projections.{NotBack, upsert_item_projection_monotone}
use trabalho_devops.Matching.Suggest.{consume_item_event}
use trabalho_devops.Matching.Verdicts.{
  IsCandidate, is_match_candidate_pair_iff, is_match_candidate_pair-score,
}
use trabalho_devops.Matching.Api.{accept_match_endpoint, reject_match_endpoint}
use trabalho_devops.Matching.Statuses.{Answered, decision-Answered}
use trabalho_devops.Matching.Decisions.{Decided, accept_match-Decided, reject_match-Decided}
use trabalho_devops.Matching.Finality.{Refused, accept_match_final, reject_match_final}
use trabalho_devops.Matching.Delivery.{consume, consume_item_event_redelivered}

abbrev settings : Settings
settings = record {
  rabbitmq_events_exchange = "domain.events";
  outbox_publish_batch_size = 2;
  outbox_publish_retry_delay = 1000;
  outbox_publish_max_attempts = 3;
}

abbrev wallet : ℕ → ItemClassification → ℕ → ItemProjection
wallet id classification day = record {
  id = id;
  classification = classification;
  title = 67 ∷ 97 ∷ 114 ∷ 116 ∷ 101 ∷ 105 ∷ 114 ∷ 97 ∷ [];
  description = 112 ∷ 114 ∷ 101 ∷ 116 ∷ 97 ∷ [];
  category = 32 ∷ 65 ∷ 98 ∷ [];
  color = 80 ∷ [];
  location_description = 100 ∷ 97 ∷ 32 ∷ 80 ∷ 114 ∷ 97 ∷ 231 ∷ 97 ∷ [];
  approximate_date = day;
  reporter_user_id = 7;
  status = available;
  version = 1;
  created_at = id;
  updated_at = id;
  last_event_id = id;
  last_seen_at = id;
}

-- Five days apart: 40 + 20 + 15 + 10 + 10.
score_of_wallets :
    (is_match_candidate_pair (some (wallet 1 lost 10)) (some (wallet 2 found 15))).score ≡ 95
unfolding is_match_candidate_pair
score_of_wallets = refl

is_match_candidate_pair_iff_example :
    ((is_match_candidate_pair (some (wallet 1 lost 10)) (some (wallet 2 found 15))).is_candidate
      ≡ true)
    ↔ IsCandidate (wallet 1 lost 10) (wallet 2 found 15)
is_match_candidate_pair_iff_example =
    is_match_candidate_pair_iff (wallet 1 lost 10) (wallet 2 found 15)

is_match_candidate_pair-score_example :
    let v = is_match_candidate_pair (some (wallet 1 lost 10)) (some (wallet 2 found 15)) in
    ((v.is_candidate ≡ true) × (50 ≤ v.score) × (v.score ≤ 100))
    ⊎ ((v.is_candidate ≡ false) × (v.score ≡ 0))
is_match_candidate_pair-score_example =
    is_match_candidate_pair-score (some (wallet 1 lost 10)) (some (wallet 2 found 15))

abbrev suggestion : MatchSuggestion
suggestion = record {
  id = 30;
  lost_item_id = 1;
  found_item_id = 2;
  score = 95;
  criteria_snapshot_json = refused category_mismatch;
  status = suggested;
  decided_by_user_id = none;
  created_at = 1;
  updated_at = 1;
}

abbrev db : MatchDb
db = record {
  outbox = [];
  processed = [];
  tables = record {
    projections = wallet 1 lost 10 ∷ wallet 2 found 15 ∷ [];
    suggestions = suggestion ∷ [];
  };
}

abbrev start : Session MatchDb
start = record {
  committed = db;
  working = db;
  env = record { uuids = λ n. n; drawn = 40; times = λ n. n; ticks = 50 };
}

abbrev by_seven : MatchDecisionRequest
by_seven = record { decided_by_user_id = 7 }

accept_match-Decided_example :
    let (r, s') = in_session (accept_match settings 30 by_seven) start in
    Decided accepted "match.accepted" 30 7 db s'.committed r
accept_match-Decided_example = accept_match-Decided settings 30 by_seven start

reject_match-Decided_example :
    let (r, s') = in_session (reject_match settings 30 by_seven) start in
    Decided rejected "match.rejected" 30 7 db s'.committed r
reject_match-Decided_example = reject_match-Decided settings 30 by_seven start

abbrev after_acceptance : Session MatchDb
after_acceptance = (in_session (accept_match settings 30 by_seven) start).1

abbrev after_rejection : Session MatchDb
after_rejection = (in_session (reject_match settings 30 by_seven) start).1

abbrev accepted_suggestion : MatchSuggestion
accepted_suggestion = record suggestion {
  status = accepted;
  decided_by_user_id = some 7;
  updated_at = 50;
}

abbrev rejected_suggestion : MatchSuggestion
rejected_suggestion = record suggestion {
  status = rejected;
  decided_by_user_id = some 7;
  updated_at = 50;
}

acceptance : (in_session (accept_match settings 30 by_seven) start).0 ≡ ok accepted_suggestion
unfolding accept_match is_match_candidate_pair
acceptance = refl

rejection : (in_session (reject_match settings 30 by_seven) start).0 ≡ ok rejected_suggestion
unfolding reject_match is_match_candidate_pair
rejection = refl

accept_match_final_example :
    Refused after_acceptance.committed
      (in_session (accept_match settings 30 by_seven) after_acceptance)
    × Refused after_acceptance.committed
        (in_session (reject_match settings 30 by_seven) after_acceptance)
accept_match_final_example =
    accept_match_final settings 30 by_seven after_acceptance by_seven start accepted_suggestion
      acceptance refl

reject_match_final_example :
    Refused after_rejection.committed
      (in_session (accept_match settings 30 by_seven) after_rejection)
    × Refused after_rejection.committed
        (in_session (reject_match settings 30 by_seven) after_rejection)
reject_match_final_example =
    reject_match_final settings 30 by_seven after_rejection by_seven start rejected_suggestion
      rejection refl

-- The payloads are taken as they are.
abbrev accept : ItemEventPayload → Option ItemEventPayload
accept p = some p

-- Another found wallet, which matches the lost one too.
abbrev event : EventEnvelope ItemEventPayload
event = record {
  event_id = 100;
  event_type = "ItemCreated";
  aggregate_id = 3;
  aggregate_version = 1;
  occurred_at = 60;
  correlation_id = 101;
  causation_id = none;
  payload = record {
    id = 3;
    classification = found;
    title = (wallet 3 found 12).title;
    description = [];
    category = (wallet 3 found 12).category;
    color = [];
    location_description = [];
    approximate_date = 12;
    reporter_user_id = 8;
    status = available;
    version = 1;
    created_at = 60;
    updated_at = 60;
  };
}

abbrev after_event : Session MatchDb
after_event = (in_session (consume settings accept event) start).1

abbrev new_suggestion : MatchSuggestion
new_suggestion = record {
  id = 40;
  lost_item_id = 1;
  found_item_id = 3;
  score = 65;
  criteria_snapshot_json = compared (record {
    color_matched = false;
    location_matched = false;
    location_overlap = [];
    date_matched = true;
    days_difference = 2;
    keywords_matched = true;
    keywords_overlap = (99 ∷ 97 ∷ 114 ∷ 116 ∷ 101 ∷ 105 ∷ 114 ∷ 97 ∷ []) ∷ [];
    eligible = true;
    score = 65;
  });
  status = suggested;
  decided_by_user_id = none;
  created_at = 50;
  updated_at = 50;
}

event_delivered : (consume_item_event settings accept event start).0 ≡ ok (new_suggestion ∷ [])
unfolding consume_item_event is_match_candidate_pair
event_delivered = refl

consume_item_event_redelivered_example :
    (in_session (consume settings accept event) after_event).1 ≡ after_event
consume_item_event_redelivered_example =
    consume_item_event_redelivered settings accept event start (new_suggestion ∷ []) event_delivered

-- A later version of the lost wallet.
abbrev newer_event : EventEnvelope ItemEventPayload
newer_event = record event {
  aggregate_id = 1;
  aggregate_version = 2;
  payload = record event.payload { id = 1; version = 2 };
}

upsert_item_projection_monotone_example :
    NotBack 1
      (wallet 1 lost 10)
      (upsert_item_projection newer_event start).1.working.tables.projections
upsert_item_projection_monotone_example =
    upsert_item_projection_monotone newer_event start refl 1 (wallet 1 lost 10) refl

decision-Answered_example :
    Answered start (some suggestion) (accept_match_endpoint settings 30 by_seven start).0
    × Answered start (some suggestion) (reject_match_endpoint settings 30 by_seven start).0
decision-Answered_example = decision-Answered settings start 30 by_seven
