-- ===== src/Matching/Api.antt =====
-- The endpoints of app/api/matches.py about one match. `MatchResponse` has the fields of a
-- suggestion.
use trabalho_devops.Prelude.{ℕ}
use trabalho_devops.Exec.{Exec, reraise}
use trabalho_devops.Store.{Session}
use trabalho_devops.Messaging.{Settings}
use trabalho_devops.Matching.Models.{
  MatchSuggestion, MatchDb, MatchDecisionRequest, Error, not_found, invalid_match, invalid_decision,
  validation_error, integrity_error,
}
use trabalho_devops.Matching.Records.{retrieve_match_suggestion}
use trabalho_devops.Matching.Service.{accept_match, reject_match}

-- The status of an HTTPException, or of the framework's answer to any other exception.
abbrev pub Handler : Type 0 → Type 0
Handler A = Exec ℕ (Session MatchDb) A

-- The `except` clauses: of a look-up, and of a decision.
abbrev pub lookup_status : Error → ℕ
lookup_status not_found = 404
lookup_status invalid_match = 500
lookup_status invalid_decision = 500
lookup_status validation_error = 500
lookup_status integrity_error = 500

abbrev pub decision_status : Error → ℕ
decision_status not_found = 404
decision_status invalid_match = 500
decision_status invalid_decision = 400
decision_status validation_error = 500
decision_status integrity_error = 500

unfoldable pub get_match_endpoint : ℕ → Handler MatchSuggestion
get_match_endpoint match_id = reraise lookup_status (retrieve_match_suggestion match_id)

module _ (settings : Settings) where
  unfoldable pub accept_match_endpoint : ℕ → MatchDecisionRequest → Handler MatchSuggestion
  accept_match_endpoint match_id payload =
      reraise decision_status (accept_match settings match_id payload)

  unfoldable pub reject_match_endpoint : ℕ → MatchDecisionRequest → Handler MatchSuggestion
  reject_match_endpoint match_id payload =
      reraise decision_status (reject_match settings match_id payload)
