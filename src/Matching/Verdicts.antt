-- ===== src/Matching/Verdicts.antt =====
-- What `is_match_candidate_pair` decides, and its score.
use trabalho_devops.Prelude.{
  ◌≤◌, ◌≡◌, ◌↔◌, refl, ◌⊎◌, inl, inr, Bool, true, false, Option, none, some, arith, Text, text_eq,
}
use trabalho_devops.Matching.Models.{lost, found, available, ItemProjection}
use trabalho_devops.Matching.Tokens.{normalize_value, tokenize, overlap}
use trabalho_devops.Matching.Alike.{Alike, Shared, normalize_value-Alike, overlap_iff}
use trabalho_devops.Matching.Scoring.{
  is_item_eligible, nonempty, days_apart, keywords_text, criteria_of, compare_items,
  is_match_candidate_pair,
}

-- A criterion beside the category is met.
abbrev pub HasCriterion : ItemProjection → ItemProjection → Type 0
HasCriterion l f =
    Alike l.color f.color
    ⊎ Shared (tokenize l.location_description) (tokenize f.location_description)
    ⊎ (days_apart l.approximate_date f.approximate_date ≤ 7)
    ⊎ Shared (tokenize (keywords_text l)) (tokenize (keywords_text f))

-- The rule: an available lost item and an available found one, of one category, and something more.
pub record IsCandidate (l f : ItemProjection) : Type 0 where
  pub lost_available : l.status ≡ available
  pub found_available : f.status ≡ available
  pub is_lost : l.classification ≡ lost
  pub is_found : f.classification ≡ found
  pub same_category : Alike l.category f.category
  pub criterion : HasCriterion l f

-- The criteria as the code tests them.
abbrev shares : Text → Text → Bool
shares a b = nonempty (overlap (tokenize a) (tokenize b))

abbrev alike : Text → Text → Bool
alike a b = text_eq (normalize_value a) (normalize_value b)

abbrev Tested : ItemProjection → ItemProjection → Type 0
Tested l f =
    (alike l.color f.color ≡ true)
    ⊎ (shares l.location_description f.location_description ≡ true)
    ⊎ (days_apart l.approximate_date f.approximate_date ≤ 7)
    ⊎ (shares (keywords_text l) (keywords_text f) ≡ true)

Tested-HasCriterion : (l f : ItemProjection) → Tested l f → HasCriterion l f
Tested-HasCriterion l f (inl h) = inl ((normalize_value-Alike l.color f.color).0 h)
Tested-HasCriterion l f (inr (inl h)) = inr (inl ((overlap_iff _ _).0 h))
Tested-HasCriterion l f (inr (inr (inl h))) = inr (inr (inl h))
Tested-HasCriterion l f (inr (inr (inr h))) = inr (inr (inr ((overlap_iff _ _).0 h)))

HasCriterion-Tested : (l f : ItemProjection) → HasCriterion l f → Tested l f
HasCriterion-Tested l f (inl h) = inl ((normalize_value-Alike l.color f.color).1 h)
HasCriterion-Tested l f (inr (inl h)) = inr (inl ((overlap_iff _ _).1 h))
HasCriterion-Tested l f (inr (inr (inl h))) = inr (inr (inl h))
HasCriterion-Tested l f (inr (inr (inr h))) = inr (inr (inr ((overlap_iff _ _).1 h)))

candidate-Tested :
    (l f : ItemProjection)
    → (is_match_candidate_pair (some l) (some f)).is_candidate ≡ true
    → Tested l f
unfolding is_match_candidate_pair compare_items is_item_eligible criteria_of
candidate-Tested l f h = ground arith

-- Two projections are a candidate pair exactly when both are AVAILABLE, the first LOST and the second
-- FOUND, their categories the same up to case and outer spaces, and their colours as well, or a token
-- that `tokenize` finds in both places or in both titles and descriptions, or their dates at most
-- seven days apart.
pub is_match_candidate_pair_iff :
    (l f : ItemProjection)
    → ((is_match_candidate_pair (some l) (some f)).is_candidate ≡ true) ↔ IsCandidate l f
unfolding is_match_candidate_pair compare_items is_item_eligible criteria_of
is_match_candidate_pair_iff l f = (
  λ h. record {
    lost_available = ground arith;
    found_available = ground arith;
    is_lost = ground arith;
    is_found = ground arith;
    same_category = (normalize_value-Alike l.category f.category).0 (ground arith);
    criterion = Tested-HasCriterion l f (candidate-Tested l f h);
  },
  λ c.
      let category : alike l.category f.category ≡ true =
        (normalize_value-Alike l.category f.category).1 c.same_category in
      ground (
        arith,
        c.lost_available,
        c.found_available,
        c.is_lost,
        c.is_found,
        category,
        HasCriterion-Tested l f c.criterion,
      ),
)

-- The score is 0 for a pair that is no candidate, and 50 to 100 for one that is.
pub is_match_candidate_pair-score :
    (l f : Option ItemProjection)
    → let v = is_match_candidate_pair l f in
      ((v.is_candidate ≡ true) × (50 ≤ v.score) × (v.score ≤ 100))
      ⊎ ((v.is_candidate ≡ false) × (v.score ≡ 0))
unfolding is_match_candidate_pair compare_items criteria_of
is_match_candidate_pair-score none f = inr (refl, refl)
is_match_candidate_pair-score (some l) none = inr (refl, refl)
is_match_candidate_pair-score (some l) (some f) = ground arith
