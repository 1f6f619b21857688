-- ===== src/Matching/Records.antt =====
-- The tables of matching-service (app/repositories/item_projection_repository.py,
-- app/repositories/match_suggestion_repository.py) and its events.
use trabalho_devops.Prelude.{
  ℕ, String, ◌==◌, ◌&&◌, ◌||◌, not, Option, none, some, List, [], ◌∷◌, str_eq, if◌then◌else◌,
  select, elem,
}
use trabalho_devops.Exec.{Exec, pure, or_raise, ◌>>=◌, ◌>>◌}
use trabalho_devops.Store.{Session, uuid4, utc_now, query, write}
use trabalho_devops.Table
use trabalho_devops.Table.{find, save, order_by}
use trabalho_devops.Messaging.{Settings, enqueue_broker_message}
use trabalho_devops.Messaging.Topology
use trabalho_devops.Matching.Models.{
  ItemClassification, classification_eq, ItemProjection, projection_key, MatchSuggestion, match_key,
  is_suggested, MatchDb, Error, not_found, invalid_match,
}

abbrev pub Op : Type 0 → Type 0
Op A = Exec Error (Session MatchDb) A

unfoldable pub get_item_projection_by_id : ℕ → Op (Option ItemProjection)
get_item_projection_by_id item_id = query λ d. find projection_key item_id d.tables.projections

unfoldable pub add_item_projection : ItemProjection → Op (Unit {0})
add_item_projection p =
    write λ d. record d {
      tables = record d.tables { projections = Table.insert p d.tables.projections };
    }

-- An assignment to the fields of a loaded projection, or suggestion.
unfoldable pub save_projection : ItemProjection → Op (Unit {0})
save_projection p = write λ d. record d {
  tables = record d.tables { projections = save projection_key p d.tables.projections };
}

unfoldable pub save_suggestion : MatchSuggestion → Op (Unit {0})
save_suggestion m = write λ d. record d {
  tables = record d.tables { suggestions = save match_key m d.tables.suggestions };
}

unfoldable pub list_candidate_item_projections : ItemClassification → ℕ → Op (List ItemProjection)
list_candidate_item_projections classification exclude_item_id = query λ d.
    order_by (λ (p : ItemProjection). p.created_at)
      (select
        (λ (p : ItemProjection).
          classification_eq p.classification classification && not (p.id == exclude_item_id))
        d.tables.projections)

unfoldable pub get_item_projections_by_ids : List ℕ → Op (List ItemProjection)
get_item_projections_by_ids item_ids =
    query λ d. select (λ (p : ItemProjection). elem p.id item_ids) d.tables.projections

unfoldable pub add_match_suggestion : MatchSuggestion → Op (Unit {0})
add_match_suggestion m =
    write λ d. record d {
      tables = record d.tables { suggestions = Table.insert m d.tables.suggestions };
    }

unfoldable pub get_match_suggestion_by_id : ℕ → Op (Option MatchSuggestion)
get_match_suggestion_by_id match_id = query λ d. find match_key match_id d.tables.suggestions

-- The suggestion of a pair, of which the table has one at most.
abbrev pub find_pair : ℕ → ℕ → List MatchSuggestion → Option MatchSuggestion
find_pair lost_item_id found_item_id [] = none
find_pair lost_item_id found_item_id (m ∷ ms) =
    let rest = find_pair lost_item_id found_item_id ms in
    if m.lost_item_id == lost_item_id && m.found_item_id == found_item_id then some m else rest

unfoldable pub get_match_suggestion_by_pair : ℕ → ℕ → Op (Option MatchSuggestion)
get_match_suggestion_by_pair lost_item_id found_item_id =
    query λ d. find_pair lost_item_id found_item_id d.tables.suggestions

unfoldable pub list_suggested_matches_for_item : ℕ → Op (List MatchSuggestion)
list_suggested_matches_for_item item_id = query λ d.
    order_by (λ (m : MatchSuggestion). m.created_at)
      (select
        (λ (m : MatchSuggestion).
          is_suggested m.status && (m.lost_item_id == item_id || m.found_item_id == item_id))
        d.tables.suggestions)

unfoldable pub retrieve_match_suggestion : ℕ → Op MatchSuggestion
unfolding get_match_suggestion_by_id
retrieve_match_suggestion match_id = do or_raise (← get_match_suggestion_by_id match_id) not_found

abbrev pub event_types : List (String × String)
event_types =
    ("MatchSuggested", Topology.match_suggested)
    ∷ ("MatchAccepted", Topology.match_accepted)
    ∷ ("MatchRejected", Topology.match_rejected)
    ∷ []

abbrev pub routing_key_of : String → List (String × String) → Option String
routing_key_of event_type [] = none
routing_key_of event_type ((name, routing_key) ∷ rest) =
    if str_eq event_type name then some routing_key else routing_key_of event_type rest

unfoldable pub record_match_event : Settings → MatchSuggestion → String → Op (Unit {0})
unfolding enqueue_broker_message
record_match_event settings m event_type = do
  routing_key ← or_raise (routing_key_of event_type event_types) invalid_match
  correlation_id ← uuid4
  event_id ← uuid4
  occurred_at ← utc_now
  enqueue_broker_message (record {
    envelope = record {
      event_id = event_id;
      event_type = event_type;
      aggregate_id = m.id;
      aggregate_version = 1;
      occurred_at = occurred_at;
      correlation_id = correlation_id;
      causation_id = none;
      payload = m;
    };
    routing_key = routing_key;
    exchange_name = settings.rabbitmq_events_exchange;
    headers = [];
  })
  pure tt
