-- ===== src/Matching/Scoring.antt =====
-- `is_match_candidate_pair` of app/services/matching_service.py and its helpers.
use trabalho_devops.Prelude.{
  ℕ, ◌+◌, ◌-◌, Bool, true, false, ◌&&◌, ◌||◌, not, Option, none, some, List, [], ◌∷◌, ◌++◌, leb,
  if◌then◌else◌, take, Text, text_eq,
}
use trabalho_devops.Matching.Models.{
  lost, found, classification_eq, is_eligible_status, ItemProjection, Reason,
  missing_item_projection, item_not_eligible, pair_must_be_lost_and_found, category_mismatch,
  Criteria, CriteriaSnapshot, refused, compared,
}
use trabalho_devops.Matching.Tokens.{normalize_value, tokenize, overlap}

-- Both classifications are eligible.
unfoldable pub is_item_eligible : ItemProjection → Bool
is_item_eligible item = is_eligible_status item.status

pub record Verdict : Type 0 where
  pub is_candidate : Bool
  pub snapshot : CriteriaSnapshot
  pub score : ℕ

abbrev pub refusal : Reason → Verdict
refusal reason = record { is_candidate = false; snapshot = refused reason; score = 0 }

abbrev pub nonempty : List Text → Bool
nonempty [] = false
nonempty (_ ∷ _) = true

-- `abs((a - b).days)`
abbrev pub days_apart : ℕ → ℕ → ℕ
days_apart a b = if leb a b then b - a else a - b

-- What a criterion adds to the score.
abbrev pub points : Bool → ℕ → ℕ
points matched weight = if matched then weight else 0

abbrev pub date_points : ℕ → ℕ
date_points days = if leb days 3 then 15 else if leb days 7 then 10 else 0

-- `f"{item.title} {item.description}"`
abbrev pub keywords_text : ItemProjection → Text
keywords_text item = item.title ++ 32 ∷ item.description

unfoldable pub criteria_of : ItemProjection → ItemProjection → Criteria
unfolding normalize_value tokenize overlap
criteria_of lost_item found_item =
    let color = text_eq (normalize_value lost_item.color) (normalize_value found_item.color) in
    let location_overlap =
      overlap (tokenize lost_item.location_description)
        (tokenize found_item.location_description) in
    let days = days_apart lost_item.approximate_date found_item.approximate_date in
    let keywords_overlap =
      overlap (tokenize (keywords_text lost_item)) (tokenize (keywords_text found_item)) in
    let location = nonempty location_overlap in
    let date = leb days 7 in
    let keywords = nonempty keywords_overlap in
    let additional = color || location || date || keywords in
    record {
      color_matched = color;
      location_matched = location;
      location_overlap = location_overlap;
      date_matched = date;
      days_difference = days;
      keywords_matched = keywords;
      keywords_overlap = take 10 keywords_overlap;
      eligible = additional;
      score =
          if additional
          then 40 + points color 20 + points location 15 + date_points days + points keywords 10
          else 0;
    }

unfoldable pub compare_items : ItemProjection → ItemProjection → Verdict
unfolding normalize_value is_item_eligible criteria_of
compare_items lost_item found_item =
    if not (is_item_eligible lost_item && is_item_eligible found_item)
    then refusal item_not_eligible
    else if not (
        classification_eq lost_item.classification lost
        && classification_eq found_item.classification found)
    then refusal pair_must_be_lost_and_found
    else if not (text_eq (normalize_value lost_item.category) (normalize_value found_item.category))
    then refusal category_mismatch
    else record {
      is_candidate = (criteria_of lost_item found_item).eligible;
      snapshot = compared (criteria_of lost_item found_item);
      score = (criteria_of lost_item found_item).score;
    }

unfoldable pub is_match_candidate_pair : Option ItemProjection → Option ItemProjection → Verdict
unfolding compare_items
is_match_candidate_pair none found_item = refusal missing_item_projection
is_match_candidate_pair (some lost_item) none = refusal missing_item_projection
is_match_candidate_pair (some lost_item) (some found_item) = compare_items lost_item found_item
