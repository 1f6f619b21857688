-- ===== src/Matching/Decisions.antt =====
-- The decision of a user about a suggested match.
use trabalho_devops.Prelude.{
  ℕ, ◌+◌, ◌≡◌, refl, ◌⊎◌, inl, inr, String, Bool, true, false, Option, none, some, [], Option-cases,
  arith,
}
use mathlib.Core.Path.{subst}
use trabalho_devops.Exec.{Result, ok, err}
use trabalho_devops.Store.{Session, in_session}
use trabalho_devops.Table.{find, save, insert}
use trabalho_devops.Messaging.{Settings, OutboxEvent, outbox_row}
use trabalho_devops.Matching.Models.{
  projection_key, MatchStatus, suggested, accepted, rejected, expired, MatchSuggestion, match_key,
  is_suggested, MatchDb, MatchDecisionRequest, Error,
}
use trabalho_devops.Matching.Scoring.{is_match_candidate_pair}
use trabalho_devops.Matching.Records.{event_types, routing_key_of}
use trabalho_devops.Matching.Service.{accept_match, reject_match, decide}

-- The items of the suggestion are a candidate pair now.
abbrev pub still_candidate : MatchSuggestion → MatchDb → Bool
still_candidate m d =
    (is_match_candidate_pair (find projection_key m.lost_item_id d.tables.projections)
      (find projection_key m.found_item_id d.tables.projections)).is_candidate

-- The match `id` may be decided: it is SUGGESTED, and its items are a candidate pair.
abbrev pub IsOpenAs : Option MatchSuggestion → MatchDb → MatchSuggestion → Type 0
IsOpenAs stored d m = (stored ≡ some m) × (m.status ≡ suggested) × (still_candidate m d ≡ true)

abbrev pub IsOpen : ℕ → MatchDb → MatchSuggestion → Type 0
IsOpen id d = IsOpenAs (find match_key id d.tables.suggestions) d

-- How a decision to `status` on the match `id` ends, from the database `d` to `d'`. It returns: the
-- match could be decided, it is stored with the decision, and one event
-- carries it. It raises: it could not be decided, and nothing has changed, or the match was SUGGESTED for a pair that is none any
-- more, and has expired; no event is added.
abbrev pub Decided :
    MatchStatus → String → ℕ → ℕ → MatchDb → MatchDb → Result Error MatchSuggestion → Type 0
Decided status routing_key id user d d' (ok m') =
    (m : MatchSuggestion) × IsOpen id d m
    × (m'
        ≡ record m { status = status; decided_by_user_id = some user; updated_at = m'.updated_at })
    × (d'.tables.suggestions ≡ save match_key m' d.tables.suggestions)
    × ((e : OutboxEvent MatchSuggestion) × (d'.outbox ≡ insert e d.outbox)
        × (e.payload ≡ m')
        × (e.routing_key ≡ routing_key))
Decided status routing_key id user d d' (err _) =
    (¬ ((m : MatchSuggestion) × IsOpen id d m))
    × (d'.outbox ≡ d.outbox)
    × ((d' ≡ d)
        ⊎ ((m : MatchSuggestion) × (find match_key id d.tables.suggestions ≡ some m)
            × (m.status ≡ suggested)
            × (still_candidate m d ≡ false)
            × (t : ℕ) × (d'.tables.suggestions
                ≡ save match_key (record m { status = expired; updated_at = t })
                    d.tables.suggestions)))

module _ (settings : Settings) (id : ℕ) (payload : MatchDecisionRequest) (s : Session MatchDb) where
  module _ (status : MatchStatus) (event_type routing_key : String)
      (known : routing_key_of event_type event_types ≡ some routing_key) where
    abbrev run : Result Error MatchSuggestion × Session MatchDb
    run = in_session (decide settings status event_type id payload) s

    abbrev Ended : Type 0
    Ended =
        Decided status routing_key id payload.decided_by_user_id s.committed run.1.committed run.0

    shut :
        (m : MatchSuggestion)
        → (is_suggested m.status ≡ false) ⊎ (still_candidate m s.committed ≡ false)
        → ¬ ((x : MatchSuggestion) × IsOpenAs (some m) s.committed x)
    shut m bad (x, o) =
        let same : x ≡ m = ground (arith, o.0) in
        let status : m.status ≡ suggested =
          subst (λ (y : MatchSuggestion). y.status ≡ suggested) same o.1 in
        let still : still_candidate m s.committed ≡ true =
          subst (λ (y : MatchSuggestion). still_candidate y s.committed ≡ true) same o.2 in
        elim bad [
          | inl decided ↦ ground (arith, decided, status)
          | inr stale ↦ ground (arith, stale, still)
        ]

    decide_stored :
        (m : MatchSuggestion) (st : MatchStatus) (c : Bool)
        → find match_key id s.committed.tables.suggestions ≡ some m
        → m.status ≡ st
        → still_candidate m s.committed ≡ c
        → Ended
    unfolding decide
    decide_stored m suggested true here e still =
        simp (here, e, still, known) (m, (refl, e, still), refl, refl, (event, refl, refl, refl))
      where
        event : OutboxEvent MatchSuggestion
        event =
            outbox_row
              (record {
                event_id = s.env.uuids (s.env.drawn + 1);
                event_type = event_type;
                aggregate_id = m.id;
                aggregate_version = 1;
                occurred_at = s.env.times (s.env.ticks + 1);
                correlation_id = s.env.uuids s.env.drawn;
                causation_id = none;
                payload = record m {
                  status = status;
                  decided_by_user_id = some payload.decided_by_user_id;
                  updated_at = s.env.times s.env.ticks;
                };
              })
              routing_key settings.rabbitmq_events_exchange (some [])
              (s.env.times (s.env.ticks + 1 + 1))
    decide_stored m suggested false here e still =
        simp (here, e, still)
          (shut m (inr still), refl, inr (m, refl, e, still, s.env.times s.env.ticks, refl))
    decide_stored m accepted c here e still =
        simp (here, e) (shut m (inl (rw e refl)), refl, inl refl)
    decide_stored m rejected c here e still =
        simp (here, e) (shut m (inl (rw e refl)), refl, inl refl)
    decide_stored m expired c here e still =
        simp (here, e) (shut m (inl (rw e refl)), refl, inl refl)

    decide-Decided : Ended
    unfolding decide
    decide-Decided = elim (Option-cases (find match_key id s.committed.tables.suggestions)) [
      | inl absent ↦ simp absent ((λ (m, o). absurd (ground (arith, o.0))), refl, inl refl)
      | inr (m, here) ↦ decide_stored m m.status (still_candidate m s.committed) here refl refl
    ]

  -- Accepting a match either returns it: it was stored as SUGGESTED, its items are a candidate pair
  -- by their current projections, it is now stored as ACCEPTED by the user and otherwise unchanged,
  -- and one event was added to the outbox, MatchAccepted's, which carries it; or it raises, which it
  -- does only if there is no such match, or it is not SUGGESTED, or its items are no candidate pair,
  -- adds no event, and leaves the database as it was, but for a SUGGESTED match whose items are no candidate
  -- pair any more, which has become EXPIRED.
  pub accept_match-Decided :
      let (r, s') = in_session (accept_match settings id payload) s in
      Decided accepted "match.accepted" id payload.decided_by_user_id s.committed s'.committed r
  unfolding accept_match
  accept_match-Decided = decide-Decided accepted "MatchAccepted" "match.accepted" refl

  -- Rejecting a match either returns it: it was stored as SUGGESTED, its items are a candidate pair
  -- by their current projections, it is now stored as REJECTED by the user and otherwise unchanged,
  -- and one event was added to the outbox, MatchRejected's, which carries it; or it raises, which it
  -- does only if there is no such match, or it is not SUGGESTED, or its items are no candidate pair,
  -- adds no event, and leaves the database as it was, but for a SUGGESTED match whose items are no candidate
  -- pair any more, which has become EXPIRED.
  pub reject_match-Decided :
      let (r, s') = in_session (reject_match settings id payload) s in
      Decided rejected "match.rejected" id payload.decided_by_user_id s.committed s'.committed r
  unfolding reject_match
  reject_match-Decided = decide-Decided rejected "MatchRejected" "match.rejected" refl
