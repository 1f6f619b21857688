-- ===== src/Matching/Suggest.antt =====
-- `generate_match_suggestions_for_item` and `consume_item_event` of
-- app/services/matching_service.py. The metrics that are counted at the end are left out.
use trabalho_devops.Prelude.{ℕ, ◌+◌, ◌||◌, Option, none, some, List, [], ◌∷◌, str_eq, if◌then◌else◌}
use trabalho_devops.Exec.{pure, raise_unless, or_raise, ◌>>=◌, ◌>>◌}
use trabalho_devops.Store.{uuid4, utc_now, commit}
use trabalho_devops.Messaging.{
  Settings, EventEnvelope, has_been_processed, register_processed_event,
}
use trabalho_devops.Matching.Models.{
  ItemClassification, lost, found, ItemProjection, ItemEventPayload, MatchStatus, suggested,
  accepted, rejected, expired, is_suggested, MatchSuggestion, invalid_match, validation_error,
}
use trabalho_devops.Matching.Scoring.{Verdict, is_match_candidate_pair, is_item_eligible}
use trabalho_devops.Matching.Records.{
  Op, save_suggestion, list_candidate_item_projections, add_match_suggestion,
  get_match_suggestion_by_pair, list_suggested_matches_for_item, record_match_event,
}
use trabalho_devops.Matching.Service.{
  expire_match, upsert_item_projection, expire_invalid_matches_for_item,
}

abbrev pub opposite : ItemClassification → ItemClassification
opposite lost = found
opposite found = lost

-- `normalize_pair`: the lost item first.
abbrev pub normalize_pair : ItemProjection → ItemProjection → ItemProjection × ItemProjection
normalize_pair item_a item_b = elim item_a.classification [
  | lost ↦ (item_a, item_b)
  | found ↦ (item_b, item_a)
]

-- The pair is no candidate: a suggestion of it expires.
unfoldable pub drop_pair : Option MatchSuggestion → Op ℕ
unfolding expire_match
drop_pair none = pure 0
drop_pair (some m) = (if is_suggested m.status then expire_match m else pure tt) >> pure 0

module _ (settings : Settings) where
  -- It is one: a suggestion is added, or refreshed, or taken up again; a decision stands.
  unfoldable pub suggest_existing : Verdict → MatchSuggestion → MatchStatus → Op ℕ
  unfolding save_suggestion record_match_event
  suggest_existing verdict m suggested = do
    now ← utc_now
    save_suggestion (record m {
      score = verdict.score;
      criteria_snapshot_json = verdict.snapshot;
      updated_at = now;
    })
    pure 0
  suggest_existing verdict m expired = do
    now ← utc_now
    let again : MatchSuggestion = record m {
      status = suggested;
      score = verdict.score;
      criteria_snapshot_json = verdict.snapshot;
      decided_by_user_id = none;
      updated_at = now;
    }
    save_suggestion again
    record_match_event settings again "MatchSuggested"
    pure 1
  suggest_existing verdict m accepted = pure 0
  suggest_existing verdict m rejected = pure 0

  -- `created_at` and `updated_at` are the server's defaults, one time.
  unfoldable pub suggest_pair :
      ItemProjection → ItemProjection → Verdict → Option MatchSuggestion → Op ℕ
  unfolding add_match_suggestion record_match_event suggest_existing
  suggest_pair lost_item found_item verdict none = do
    id ← uuid4
    now ← utc_now
    let suggestion : MatchSuggestion = record {
      id = id;
      lost_item_id = lost_item.id;
      found_item_id = found_item.id;
      score = verdict.score;
      criteria_snapshot_json = verdict.snapshot;
      status = suggested;
      decided_by_user_id = none;
      created_at = now;
      updated_at = now;
    }
    add_match_suggestion suggestion
    record_match_event settings suggestion "MatchSuggested"
    pure 1
  suggest_pair lost_item found_item verdict (some m) = suggest_existing verdict m m.status

  unfoldable pub settle_pair : ItemProjection × ItemProjection → Op ℕ
  unfolding get_match_suggestion_by_pair drop_pair suggest_pair
  settle_pair (lost_item, found_item) = do
    existing ← get_match_suggestion_by_pair lost_item.id found_item.id
    let verdict = is_match_candidate_pair (some lost_item) (some found_item)
    if verdict.is_candidate
        then suggest_pair lost_item found_item verdict existing
        else drop_pair existing

  unfoldable pub generate_each : ItemProjection → List ItemProjection → Op ℕ
  unfolding settle_pair
  generate_each item [] = pure 0
  generate_each item (candidate ∷ candidates) = do
    one ← settle_pair (normalize_pair item candidate)
    more ← generate_each item candidates
    pure (one + more)

  unfoldable pub generate_match_suggestions_for_item : ItemProjection → Op ℕ
  unfolding list_candidate_item_projections generate_each
  generate_match_suggestions_for_item item = do
    candidates ← list_candidate_item_projections (opposite item.classification) item.id
    generate_each item candidates

  -- What a newer event leads to.
  unfoldable pub refresh_matches : ItemProjection → Op ℕ
  unfolding expire_invalid_matches_for_item generate_match_suggestions_for_item is_item_eligible
  refresh_matches item =
      expire_invalid_matches_for_item item.id
      >> (if is_item_eligible item then generate_match_suggestions_for_item item else pure 0)

  -- The end of `consume_item_event`.
  unfoldable pub finish_event : EventEnvelope ItemEventPayload → ℕ → Op (List MatchSuggestion)
  unfolding register_processed_event list_suggested_matches_for_item
  finish_event typed item_id =
      register_processed_event typed >> commit >> list_suggested_matches_for_item item_id

  unfoldable pub process_item_event : EventEnvelope ItemEventPayload → Op (List MatchSuggestion)
  unfolding upsert_item_projection refresh_matches finish_event
  process_item_event typed = do
    upserted ← upsert_item_projection typed
    (if upserted.1 then refresh_matches upserted.0 else pure 0)
    finish_event typed upserted.0.id

  -- pydantic validates the payload, of a type `J`.
  module _ {J : Type 0} (model_validate : J → Option ItemEventPayload) where
    unfoldable pub parse_item_event_envelope : EventEnvelope J → Op (EventEnvelope ItemEventPayload)
    parse_item_event_envelope envelope = do
      raise_unless
          (str_eq envelope.event_type "ItemCreated" || str_eq envelope.event_type "ItemUpdated")
          invalid_match
      payload ← or_raise (model_validate envelope.payload) validation_error
      pure (record {
        event_id = envelope.event_id;
        event_type = envelope.event_type;
        aggregate_id = envelope.aggregate_id;
        aggregate_version = envelope.aggregate_version;
        occurred_at = envelope.occurred_at;
        correlation_id = envelope.correlation_id;
        causation_id = envelope.causation_id;
        payload = payload;
      })

    unfoldable pub consume_item_event : EventEnvelope J → Op (List MatchSuggestion)
    unfolding parse_item_event_envelope has_been_processed process_item_event
    consume_item_event envelope = do
      typed ← parse_item_event_envelope envelope
      seen ← has_been_processed typed
      if seen then pure [] else process_item_event typed
