-- ===== src/Matching/Statuses.antt =====
-- What the endpoints of matching-service answer to a decision.
use trabalho_devops.Prelude.{
  ℕ, ◌≡◌, refl, sym, ◌&&◌, inl, inr, Bool, true, false, Option, some, none, Option-cases, String,
}
use mathlib.Core.Path.{subst}
use trabalho_devops.Exec.{Result, ok, err, reraised}
use trabalho_devops.Store.{Session}
use trabalho_devops.Table.{find}
use trabalho_devops.Messaging.{Settings}
use trabalho_devops.Matching.Models.{
  MatchStatus, accepted, rejected, suggested, expired, MatchSuggestion, match_key, is_suggested,
  MatchDb, MatchDecisionRequest,
}
use trabalho_devops.Matching.Records.{event_types, routing_key_of}
use trabalho_devops.Matching.Service.{accept_match, reject_match, decide}
use trabalho_devops.Matching.Decisions.{still_candidate}
use trabalho_devops.Matching.Api.{decision_status, accept_match_endpoint, reject_match_endpoint}

-- The answer by the match that there is: with the status 404 if there is none; a decision only of
-- one that waited for it and is of a candidate pair; and else with the status 400.
abbrev pub Answered : Session MatchDb → Option MatchSuggestion → Result ℕ MatchSuggestion → Type 0
Answered s none r = r ≡ err 404
Answered s (some m) (ok m') =
    ((is_suggested m.status && still_candidate m s.working) ≡ true) × (m'.id ≡ m.id)
Answered s (some m) (err code) =
    (code ≡ 400) × ((is_suggested m.status && still_candidate m s.working) ≡ false)

module _ (settings : Settings) (s : Session MatchDb) where
  decide_stored-Answered :
      (status : MatchStatus) (event_type routing_key : String) (id : ℕ)
      (payload : MatchDecisionRequest) (m : MatchSuggestion) (st : MatchStatus) (c : Bool)
      → routing_key_of event_type event_types ≡ some routing_key
      → find match_key id s.working.tables.suggestions ≡ some m
      → m.status ≡ st
      → still_candidate m s.working ≡ c
      → Answered s
          (some m)
          (reraised decision_status (decide settings status event_type id payload s).0)
  unfolding decide
  decide_stored-Answered status event_type routing_key id payload m suggested true known here e
        still =
      simp (here, e, still, known) (refl, refl)
  decide_stored-Answered status event_type routing_key id payload m suggested false known here e
        still =
      simp (here, e, still) (refl, refl)
  decide_stored-Answered status event_type routing_key id payload m accepted c known here e still =
      simp (here, e) (refl, refl)
  decide_stored-Answered status event_type routing_key id payload m rejected c known here e still =
      simp (here, e) (refl, refl)
  decide_stored-Answered status event_type routing_key id payload m expired c known here e still =
      simp (here, e) (refl, refl)

  decide-Answered :
      (status : MatchStatus) (event_type routing_key : String) (id : ℕ)
      (payload : MatchDecisionRequest)
      → routing_key_of event_type event_types ≡ some routing_key
      → Answered s
          (find match_key id s.working.tables.suggestions)
          (reraised decision_status (decide settings status event_type id payload s).0)
  unfolding decide
  decide-Answered status event_type routing_key id payload known =
      elim (Option-cases (find match_key id s.working.tables.suggestions)) [
        | inl absent ↦ rw absent refl
        | inr (m, here) ↦
            subst
              (λ o.
                Answered s o
                  (reraised decision_status (decide settings status event_type id payload s).0))
              (sym here)
              (decide_stored-Answered status event_type routing_key id payload m m.status
                (still_candidate m s.working) known here refl refl)
      ]

  -- Accepting and rejecting a match answer alike. Without such a match the status is 404. Else the
  -- decision is returned, only where the match was SUGGESTED and of items that are a candidate
  -- pair; or the status is 400, only where it was not both.
  pub decision-Answered :
      (id : ℕ) (payload : MatchDecisionRequest)
      → Answered s
          (find match_key id s.working.tables.suggestions)
          (accept_match_endpoint settings id payload s).0
        × Answered s
            (find match_key id s.working.tables.suggestions)
            (reject_match_endpoint settings id payload s).0
  unfolding accept_match_endpoint reject_match_endpoint accept_match reject_match
  decision-Answered id payload = (
    decide-Answered accepted "MatchAccepted" "match.accepted" id payload refl,
    decide-Answered rejected "MatchRejected" "match.rejected" id payload refl,
  )
