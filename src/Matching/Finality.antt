-- ===== src/Matching/Finality.antt =====
-- A decision about a match is final.
use trabalho_devops.Prelude.{ℕ, ◌≡◌, refl, sym, ap, ◌∙◌, String, false, some, arith}
use mathlib.Core.Path.{subst}
use trabalho_devops.Exec.{Result, ok, err}
use trabalho_devops.Store.{Session, in_session}
use trabalho_devops.Table.{find}
use trabalho_devops.Table.Laws.{find-save, key-find}
use trabalho_devops.Messaging.{Settings}
use trabalho_devops.Matching.Models.{
  MatchStatus, accepted, rejected, is_suggested, MatchSuggestion, match_key, MatchDb,
  MatchDecisionRequest, Error, invalid_decision,
}
use trabalho_devops.Matching.Service.{accept_match, reject_match, decide}
use trabalho_devops.Matching.Decisions.{Decided, accept_match-Decided, reject_match-Decided}

-- A decision is refused, and the database stays as it is.
abbrev pub Refused : {A : Type 0} → MatchDb → Result Error A × Session MatchDb → Type 0
Refused d (r, s) = (r ≡ err invalid_decision) × (s.committed ≡ d)

module _ (settings : Settings) (id : ℕ) where
  decide-Refused :
      (status : MatchStatus) (event_type : String) (payload : MatchDecisionRequest)
      (s : Session MatchDb) (m : MatchSuggestion)
      → find match_key id s.committed.tables.suggestions ≡ some m
      → is_suggested m.status ≡ false
      → Refused s.committed (in_session (decide settings status event_type id payload) s)
  unfolding decide
  decide-Refused status event_type payload s m here done = simp (here, done) (refl, refl)

  -- What a decision has stored.
  Decided-find :
      (status : MatchStatus) (routing_key : String) (user : ℕ) (d d' : MatchDb)
      (r : Result Error MatchSuggestion) (m' : MatchSuggestion)
      → Decided status routing_key id user d d' r
      → r ≡ ok m'
      → (find match_key id d'.tables.suggestions ≡ some m') × (m'.status ≡ status)
  Decided-find status routing_key user d d' (ok x) m' (m, o, change, saved, _) e =
      let one : x ≡ m' = ground arith in
      let i : x.id ≡ id =
        ap (λ (y : MatchSuggestion). y.id) change
        ∙ key-find match_key id d.tables.suggestions m o.0 in
      let st : x.status ≡ status = ap (λ (y : MatchSuggestion). y.status) change in
      subst (λ y. (find match_key id d'.tables.suggestions ≡ some y) × (y.status ≡ status)) one
        (ground (arith, saved, o.0, i, find-save match_key x id d.tables.suggestions), st)
  Decided-find status routing_key user d d' (err x) m' h e = absurd (ground arith)

  module _ (again : MatchDecisionRequest) (later : Session MatchDb) where
    both-Refused :
        (m : MatchSuggestion)
        → find match_key id later.committed.tables.suggestions ≡ some m
        → is_suggested m.status ≡ false
        → Refused later.committed (in_session (accept_match settings id again) later)
          × Refused later.committed (in_session (reject_match settings id again) later)
    unfolding accept_match reject_match
    both-Refused m here done = (
      decide-Refused accepted "MatchAccepted" again later m here done,
      decide-Refused rejected "MatchRejected" again later m here done,
    )

    -- Once a match has been accepted, each further decision about it, by whatever user and in a later
    -- session on the database that the acceptance left, is refused with InvalidMatchDecisionError and
    -- leaves the database as it was.
    pub accept_match_final :
        (payload : MatchDecisionRequest) (s : Session MatchDb) (m : MatchSuggestion)
        → (in_session (accept_match settings id payload) s).0 ≡ ok m
        → later.committed ≡ (in_session (accept_match settings id payload) s).1.committed
        → Refused later.committed (in_session (accept_match settings id again) later)
          × Refused later.committed (in_session (reject_match settings id again) later)
    accept_match_final payload s m done same =
        let (here, st) =
          Decided-find accepted "match.accepted" payload.decided_by_user_id s.committed _ _ m
            (accept_match-Decided settings id payload s) done in
        both-Refused m
          (subst (λ (d : MatchDb). find match_key id d.tables.suggestions ≡ some m) (sym same) here)
          (ground arith)

    -- Once a match has been rejected, each further decision about it, by whatever user and in a later
    -- session on the database that the rejection left, is refused with InvalidMatchDecisionError and
    -- leaves the database as it was.
    pub reject_match_final :
        (payload : MatchDecisionRequest) (s : Session MatchDb) (m : MatchSuggestion)
        → (in_session (reject_match settings id payload) s).0 ≡ ok m
        → later.committed ≡ (in_session (reject_match settings id payload) s).1.committed
        → Refused later.committed (in_session (accept_match settings id again) later)
          × Refused later.committed (in_session (reject_match settings id again) later)
    reject_match_final payload s m done same =
        let (here, st) =
          Decided-find rejected "match.rejected" payload.decided_by_user_id s.committed _ _ m
            (reject_match-Decided settings id payload s) done in
        both-Refused m
          (subst (λ (d : MatchDb). find match_key id d.tables.suggestions ≡ some m) (sym same) here)
          (ground arith)
