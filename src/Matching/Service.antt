-- ===== src/Matching/Service.antt =====
-- The operations of app/services/matching_service.py.
use trabalho_devops.Prelude.{
  ℕ, String, Bool, true, false, Option, none, some, List, [], ◌∷◌, leb, if◌then◌else◌,
}
use trabalho_devops.Exec.{pure, raise, raise_if, raise_unless, ◌>>=◌, ◌>>◌}
use trabalho_devops.Store.{utc_now, commit}
use trabalho_devops.Table.{dict_get}
use trabalho_devops.Messaging.{Settings, EventEnvelope}
use trabalho_devops.Matching.Models.{
  ItemProjection, projection_key, ItemEventPayload, MatchStatus, accepted, rejected, expired,
  is_suggested, MatchSuggestion, MatchDecisionRequest, invalid_decision, integrity_error,
}
use trabalho_devops.Matching.Scoring.{is_match_candidate_pair}
use trabalho_devops.Matching.Records.{
  Op, get_item_projection_by_id, add_item_projection, save_projection, save_suggestion,
  get_item_projections_by_ids, list_suggested_matches_for_item, retrieve_match_suggestion,
  record_match_event,
}

unfoldable pub expire_match : MatchSuggestion → Op (Unit {0})
unfolding save_suggestion
expire_match m = do now ← utc_now; save_suggestion (record m { status = expired; updated_at = now })

-- The end of `ensure_match_can_be_decided`, from the verdict on the pair.
unfoldable pub require_candidate : MatchSuggestion → Bool → Op (Unit {0})
unfolding expire_match
require_candidate m true = pure tt
require_candidate m false = expire_match m >> commit >> raise invalid_decision

unfoldable pub ensure_match_can_be_decided : MatchSuggestion → Op (Unit {0})
unfolding get_item_projection_by_id require_candidate
ensure_match_can_be_decided m = do
  raise_unless (is_suggested m.status) invalid_decision
  lost_item ← get_item_projection_by_id m.lost_item_id
  found_item ← get_item_projection_by_id m.found_item_id
  require_candidate m (is_match_candidate_pair lost_item found_item).is_candidate

module _ (settings : Settings) where
  -- The common part of the two decisions.
  unfoldable pub decide : MatchStatus → String → ℕ → MatchDecisionRequest → Op MatchSuggestion
  unfolding retrieve_match_suggestion ensure_match_can_be_decided save_suggestion record_match_event
  decide status event_type match_id payload = do
    m ← retrieve_match_suggestion match_id
    ensure_match_can_be_decided m
    now ← utc_now
    let decided : MatchSuggestion = record m {
      status = status;
      decided_by_user_id = some payload.decided_by_user_id;
      updated_at = now;
    }
    save_suggestion decided
    record_match_event settings decided event_type
    commit
    pure decided

  unfoldable pub accept_match : ℕ → MatchDecisionRequest → Op MatchSuggestion
  unfolding decide
  accept_match = decide accepted "MatchAccepted"

  unfoldable pub reject_match : ℕ → MatchDecisionRequest → Op MatchSuggestion
  unfolding decide
  reject_match = decide rejected "MatchRejected"

-- The projection that an event describes.
abbrev pub projection_of : EventEnvelope ItemEventPayload → ℕ → ItemProjection
projection_of envelope id = record {
  id = id;
  classification = envelope.payload.classification;
  title = envelope.payload.title;
  description = envelope.payload.description;
  category = envelope.payload.category;
  color = envelope.payload.color;
  location_description = envelope.payload.location_description;
  approximate_date = envelope.payload.approximate_date;
  reporter_user_id = envelope.payload.reporter_user_id;
  status = envelope.payload.status;
  version = envelope.payload.version;
  created_at = envelope.payload.created_at;
  updated_at = envelope.payload.updated_at;
  last_event_id = envelope.event_id;
  last_seen_at = envelope.occurred_at;
}

-- `flush` refuses a second row under an id.
abbrev pub is_present : {A : Type 0} → Option A → Bool
is_present none = false
is_present (some _) = true

unfoldable pub upsert_found :
    EventEnvelope ItemEventPayload → Option ItemProjection → Op (ItemProjection × Bool)
unfolding add_item_projection save_projection get_item_projection_by_id
upsert_found envelope none = do
  stored ← get_item_projection_by_id envelope.payload.id
  raise_if (is_present stored) integrity_error
  add_item_projection (projection_of envelope envelope.payload.id)
  pure (projection_of envelope envelope.payload.id, true)
upsert_found envelope (some existing) =
    if leb envelope.aggregate_version existing.version
    then pure (existing, false)
    else save_projection (projection_of envelope existing.id)
      >> pure (projection_of envelope existing.id, true)

unfoldable pub upsert_item_projection : EventEnvelope ItemEventPayload → Op (ItemProjection × Bool)
unfolding get_item_projection_by_id upsert_found
upsert_item_projection envelope = do
  existing ← get_item_projection_by_id envelope.aggregate_id
  upsert_found envelope existing

abbrev pub related_ids : ℕ → List MatchSuggestion → List ℕ
related_ids item_id [] = item_id ∷ []
related_ids item_id (m ∷ ms) = m.lost_item_id ∷ m.found_item_id ∷ related_ids item_id ms

-- The loop of `expire_invalid_matches_for_item`, over the projections that were read.
unfoldable pub expire_each : List ItemProjection → List MatchSuggestion → Op (Unit {0})
unfolding expire_match
expire_each projections [] = pure tt
expire_each projections (m ∷ ms) =
    (if (is_match_candidate_pair (dict_get projection_key m.lost_item_id projections)
        (dict_get projection_key m.found_item_id projections)).is_candidate
      then pure tt
      else expire_match m)
    >> expire_each projections ms

unfoldable pub expire_invalid_matches_for_item : ℕ → Op (Unit {0})
unfolding list_suggested_matches_for_item get_item_projections_by_ids expire_each
expire_invalid_matches_for_item item_id = do
  suggestions ← list_suggested_matches_for_item item_id
  projections ← get_item_projections_by_ids (related_ids item_id suggestions)
  expire_each projections suggestions
