-- ===== src/Matching/Untouched.antt =====
-- A decision on a suggestion leaves the projections and the processed events as they are.
use trabalho_devops.Prelude.{ℕ, ◌≡◌, refl, inl, inr, Bool, true, false, some, String, Option-cases}
use trabalho_devops.Store.{Session}
use trabalho_devops.Table.{find}
use trabalho_devops.Messaging.{Settings}
use trabalho_devops.Matching.Models.{
  MatchStatus, accepted, rejected, suggested, expired, MatchSuggestion, match_key, MatchDb,
  MatchDecisionRequest,
}
use trabalho_devops.Matching.Records.{event_types, routing_key_of}
use trabalho_devops.Matching.Service.{decide}
use trabalho_devops.Matching.Decisions.{still_candidate}

-- What a decision leaves alone.
abbrev pub SameItems : MatchDb → MatchDb → Type 0
SameItems d d' = (d'.processed ≡ d.processed) × (d'.tables.projections ≡ d.tables.projections)

module _ (settings : Settings) (s : Session MatchDb) (clean : s.committed ≡ s.working) where
  decide_stored-SameItems :
      (status : MatchStatus) (event_type routing_key : String) (id : ℕ)
      (payload : MatchDecisionRequest) (m : MatchSuggestion) (st : MatchStatus) (c : Bool)
      → routing_key_of event_type event_types ≡ some routing_key
      → find match_key id s.working.tables.suggestions ≡ some m
      → m.status ≡ st
      → still_candidate m s.working ≡ c
      → SameItems s.working (decide settings status event_type id payload s).1.committed
  unfolding decide
  decide_stored-SameItems status event_type routing_key id payload m suggested true known here e
        still =
      simp (here, e, still, known) (refl, refl)
  decide_stored-SameItems status event_type routing_key id payload m suggested false known here e
        still =
      simp (here, e, still) (refl, refl)
  decide_stored-SameItems status event_type routing_key id payload m accepted c known here e still =
      simp (here, e, clean) (refl, refl)
  decide_stored-SameItems status event_type routing_key id payload m rejected c known here e still =
      simp (here, e, clean) (refl, refl)
  decide_stored-SameItems status event_type routing_key id payload m expired c known here e still =
      simp (here, e, clean) (refl, refl)

  pub decide-SameItems :
      (status : MatchStatus) (event_type routing_key : String) (id : ℕ)
      (payload : MatchDecisionRequest)
      → routing_key_of event_type event_types ≡ some routing_key
      → SameItems s.working (decide settings status event_type id payload s).1.committed
  unfolding decide
  decide-SameItems status event_type routing_key id payload known =
      elim (Option-cases (find match_key id s.working.tables.suggestions)) [
        | inl absent ↦ simp (absent, clean) (refl, refl)
        | inr (m, here) ↦
            decide_stored-SameItems status event_type routing_key id payload m m.status
              (still_candidate m s.working) known here refl refl
      ]
