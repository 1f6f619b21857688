-- ===== src/Matching/Models.antt =====
-- The data of matching-service: app/models/item_projection.py, app/models/match_suggestion.py,
-- app/schemas/item_event.py, app/schemas/match.py, app/schemas/match_event.py,
-- app/core/exceptions.py. Dates are numbers of days.
use trabalho_devops.Prelude.{ℕ, Bool, true, false, Option, List, Text}
use trabalho_devops.Messaging.{Db}

pub data ItemClassification : Type 0 where
  lost found : ItemClassification

abbrev pub classification_eq : ItemClassification → ItemClassification → Bool
classification_eq lost lost = true
classification_eq found found = true
classification_eq _ _ = false

pub data ExternalItemStatus : Type 0 where
  available matched in_recovery recovered cancelled closed : ExternalItemStatus

-- `status in ELIGIBLE_ITEM_STATUSES`
abbrev pub is_eligible_status : ExternalItemStatus → Bool
is_eligible_status available = true
is_eligible_status _ = false

pub record ItemProjection : Type 0 where
  pub id : ℕ
  pub classification : ItemClassification
  pub title : Text
  pub description : Text
  pub category : Text
  pub color : Text
  pub location_description : Text
  pub approximate_date : ℕ
  pub reporter_user_id : ℕ
  pub status : ExternalItemStatus
  pub version : ℕ
  pub created_at : ℕ
  pub updated_at : ℕ
  pub last_event_id : ℕ
  pub last_seen_at : ℕ

abbrev pub projection_key : ItemProjection → ℕ
projection_key p = p.id

pub record ItemEventPayload : Type 0 where
  pub id : ℕ
  pub classification : ItemClassification
  pub title : Text
  pub description : Text
  pub category : Text
  pub color : Text
  pub location_description : Text
  pub approximate_date : ℕ
  pub reporter_user_id : ℕ
  pub status : ExternalItemStatus
  pub version : ℕ
  pub created_at : ℕ
  pub updated_at : ℕ

-- Why a pair was not compared.
pub data Reason : Type 0 where
  missing_item_projection item_not_eligible pair_must_be_lost_and_found category_mismatch : Reason

-- The criteria beside the category, which has matched; `eligible` false comes with the reason
-- "missing_additional_criteria". The constant weights are left out.
pub record Criteria : Type 0 where
  pub color_matched : Bool
  pub location_matched : Bool
  pub location_overlap : List Text
  pub date_matched : Bool
  pub days_difference : ℕ
  pub keywords_matched : Bool
  pub keywords_overlap : List Text
  pub eligible : Bool
  pub score : ℕ

pub data CriteriaSnapshot : Type 0 where
  refused : Reason → CriteriaSnapshot
  compared : Criteria → CriteriaSnapshot

pub data MatchStatus : Type 0 where
  suggested accepted rejected expired : MatchStatus

abbrev pub is_suggested : MatchStatus → Bool
is_suggested suggested = true
is_suggested _ = false

pub record MatchSuggestion : Type 0 where
  pub id : ℕ
  pub lost_item_id : ℕ
  pub found_item_id : ℕ
  pub score : ℕ
  pub criteria_snapshot_json : CriteriaSnapshot
  pub status : MatchStatus
  pub decided_by_user_id : Option ℕ
  pub created_at : ℕ
  pub updated_at : ℕ

abbrev pub match_key : MatchSuggestion → ℕ
match_key m = m.id

-- The payload of the match events has the fields of the suggestion.
abbrev pub MatchEventPayload : Type 0
MatchEventPayload = MatchSuggestion

pub record MatchDecisionRequest : Type 0 where
  pub decided_by_user_id : ℕ

-- The exceptions, pydantic's ValidationError and SQLAlchemy's IntegrityError among them, without their
-- message texts.
pub data Error : Type 0 where
  not_found invalid_match invalid_decision validation_error integrity_error : Error

-- The tables `item_projections` and `match_suggestions`.
pub record Tables : Type 0 where
  pub projections : List ItemProjection
  pub suggestions : List MatchSuggestion

abbrev pub MatchDb : Type 0
MatchDb = Db MatchEventPayload Tables
