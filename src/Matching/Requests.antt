-- ===== src/Matching/Requests.antt =====
-- The events and requests that change the database of matching-service, each run as
-- app/messaging/consumer.py and app/api/matches.py run it: in a session of its own, which is closed
-- at the end.
use trabalho_devops.Prelude.{
  ℕ, ◌||◌, ◌≡◌, refl, sym, inl, inr, Bool, true, false, Option, some, List, [], ◌∷◌, arith,
  Bool-cases, Option-cases, str_eq, String,
}
use mathlib.Core.Path.{subst}
use trabalho_devops.Store.{Env, Session, close}
use trabalho_devops.Store.Later.{Later}
use trabalho_devops.Table.{find, save}
use trabalho_devops.Messaging.{Settings, EventEnvelope, ProcessedEvent}
use trabalho_devops.Matching.Models.{
  ItemEventPayload, MatchStatus, accepted, rejected, suggested, expired, MatchSuggestion, match_key,
  is_suggested, MatchDb, MatchDecisionRequest,
}
use trabalho_devops.Matching.Records.{event_types, routing_key_of}
use trabalho_devops.Matching.Service.{accept_match, reject_match, decide}
use trabalho_devops.Matching.Suggest.{consume_item_event}
use trabalho_devops.Matching.Decisions.{still_candidate}
use trabalho_devops.Matching.Fairness.{
  IsKeyed, IsFairIn, AllFair, IsSound, saved-IsKeyed, saved-Waiting,
}
use trabalho_devops.Matching.Delivery.{typed}
use trabalho_devops.Matching.Refreshing.{process_item_event-IsSound}

pub data Request (J : Type 0) : Type 0 where
  item_event : EventEnvelope J → Request J
  accept : ℕ → MatchDecisionRequest → Request J
  reject : ℕ → MatchDecisionRequest → Request J

pub close-IsSound : (s : Session MatchDb) → IsSound s → IsSound (close s)
close-IsSound s v = record {
  distinct = v.distinct;
  committed_keyed = v.committed_keyed;
  committed_fair = v.committed_fair;
  working_keyed = v.committed_keyed;
  working_fair = v.committed_fair;
}

module _ (settings : Settings) (s : Session MatchDb) (v : IsSound s) where
  -- A suggestion that has been decided, or has expired, is saved and all is committed.
  saved-IsSound :
      (m : MatchSuggestion) (s' : Session MatchDb)
      → is_suggested m.status ≡ false
      → Later s.env s'.env
      → s'.working.tables
        ≡ record s.working.tables { suggestions = save match_key m s.working.tables.suggestions }
      → s'.committed ≡ s'.working
      → IsSound s'
  saved-IsSound m s' idle l e c =
      let keyed : IsKeyed s'.env s'.working.tables =
        subst (IsKeyed s'.env) (sym e)
          (saved-IsKeyed s.env s'.env m s.working.tables l v.working_keyed) in
      let fair : AllFair s'.working.tables =
        subst AllFair (sym e)
          (saved-Waiting (IsFairIn s.working.tables) m s.working.tables (λ w. cc) v.working_fair) in
      record {
        distinct = rw l.uuids v.distinct;
        committed_keyed = subst (λ (d : MatchDb). IsKeyed s'.env d.tables) (sym c) keyed;
        committed_fair = subst (λ (d : MatchDb). AllFair d.tables) (sym c) fair;
        working_keyed = keyed;
        working_fair = fair;
      }

  decide_stored-IsSound :
      (status : MatchStatus) (event_type routing_key : String) (id : ℕ)
      (payload : MatchDecisionRequest) (m : MatchSuggestion) (st : MatchStatus) (c : Bool)
      → routing_key_of event_type event_types ≡ some routing_key
      → is_suggested status ≡ false
      → find match_key id s.working.tables.suggestions ≡ some m
      → m.status ≡ st
      → still_candidate m s.working ≡ c
      → IsSound (decide settings status event_type id payload s).1
  unfolding decide
  decide_stored-IsSound status event_type routing_key id payload m suggested true known idle here e
        still =
      let decided : MatchSuggestion = record m {
        status = status;
        decided_by_user_id = some payload.decided_by_user_id;
        updated_at = s.env.times s.env.ticks;
      } in
      simp (here, e, still, known)
        (saved-IsSound decided _ idle (record { uuids = refl; drawn = omega arith }) refl refl)
  decide_stored-IsSound status event_type routing_key id payload m suggested false known idle here e
        still =
      let gone : MatchSuggestion = record m {
        status = expired;
        updated_at = s.env.times s.env.ticks;
      } in
      simp (here, e, still)
        (saved-IsSound gone _ refl (record { uuids = refl; drawn = omega arith }) refl refl)
  decide_stored-IsSound status event_type routing_key id payload m accepted c known idle here e
        still =
      simp (here, e) v
  decide_stored-IsSound status event_type routing_key id payload m rejected c known idle here e
        still =
      simp (here, e) v
  decide_stored-IsSound status event_type routing_key id payload m expired c known idle here e
        still =
      simp (here, e) v

  decide-IsSound :
      (status : MatchStatus) (event_type routing_key : String) (id : ℕ)
      (payload : MatchDecisionRequest)
      → routing_key_of event_type event_types ≡ some routing_key
      → is_suggested status ≡ false
      → IsSound (decide settings status event_type id payload s).1
  unfolding decide
  decide-IsSound status event_type routing_key id payload known idle =
      elim (Option-cases (find match_key id s.working.tables.suggestions)) [
        | inl absent ↦ simp absent v
        | inr (m, here) ↦
            decide_stored-IsSound status event_type routing_key id payload m m.status
              (still_candidate m s.working) known idle here refl refl
      ]

-- The empty database, and a session on it.
abbrev pub new_db : MatchDb
new_db = record {
  outbox = [];
  processed = [];
  tables = record { projections = []; suggestions = [] };
}

abbrev pub new_session : Env → Session MatchDb
new_session env = record { committed = new_db; working = new_db; env = env }

empty-IsKeyed : (env : Env) → IsKeyed env new_db.tables
empty-IsKeyed env = record { projections = tt; suggestions = tt; fresh = λ n h. refl }

pub new_session-IsSound :
    (env : Env) → ((i j : ℕ) → env.uuids i ≡ env.uuids j → i ≡ j) → IsSound (new_session env)
new_session-IsSound env distinct = record {
  distinct = distinct;
  committed_keyed = empty-IsKeyed env;
  committed_fair = λ k m here waits. absurd (ground arith);
  working_keyed = empty-IsKeyed env;
  working_fair = λ k m here waits. absurd (ground arith);
}

module _ {J : Type 0} (settings : Settings) (model_validate : J → Option ItemEventPayload) where
  unfoldable pub handle : Request J → Session MatchDb → Session MatchDb
  handle (item_event envelope) s = (consume_item_event settings model_validate envelope s).1
  handle (accept id payload) s = (accept_match settings id payload s).1
  handle (reject id payload) s = (reject_match settings id payload s).1

  unfoldable pub serve : List (Request J) → Session MatchDb → Session MatchDb
  serve [] s = s
  serve (r ∷ rs) s = serve rs (close (handle r (close s)))

  consume-IsSound :
      (envelope : EventEnvelope J) (s : Session MatchDb)
      → IsSound s
      → IsSound (consume_item_event settings model_validate envelope s).1
  unfolding consume_item_event
  consume-IsSound envelope s v =
      elim (Bool-cases
        (str_eq envelope.event_type "ItemCreated" || str_eq envelope.event_type "ItemUpdated")) [
          | inr wrong ↦ rw wrong v
          | inl right ↦ elim (Option-cases (model_validate envelope.payload)) [
            | inl invalid ↦ rw (right, invalid) v
            | inr (p, valid) ↦
                elim (Option-cases (
                  find (λ (x : ProcessedEvent). x.event_id) envelope.event_id
                    s.working.processed)) [
                      | inr (q, seen) ↦ rw (right, valid, seen) v
                      | inl fresh ↦
                          rw (right, valid, fresh)
                            (process_item_event-IsSound settings
                              (typed settings model_validate envelope p) s v)
                    ]
          ]
        ]

  pub handle-IsSound : (r : Request J) (s : Session MatchDb) → IsSound s → IsSound (handle r s)
  unfolding handle accept_match reject_match
  handle-IsSound (item_event envelope) s v = consume-IsSound envelope s v
  handle-IsSound (accept id payload) s v =
      decide-IsSound settings s v accepted "MatchAccepted" "match.accepted" id payload refl refl
  handle-IsSound (reject id payload) s v =
      decide-IsSound settings s v rejected "MatchRejected" "match.rejected" id payload refl refl

  serve-IsSound : (rs : List (Request J)) (s : Session MatchDb) → IsSound s → IsSound (serve rs s)
  unfolding serve
  serve-IsSound [] s v = v
  serve-IsSound (r ∷ rs) s v =
      serve-IsSound rs (close (handle r (close s)))
        (close-IsSound (handle r (close s)) (handle-IsSound r (close s) (close-IsSound s v)))

  -- Whatever item events and decisions matching-service takes from an empty database, in whatever
  -- order and whether accepted or refused, if the identifiers that `uuid4` draws are distinct: each
  -- suggestion in the database that still waits for a decision is of two items that are a candidate
  -- pair by their current projections.
  pub serve-AllFair :
      (rs : List (Request J)) (env : Env)
      → ((i j : ℕ) → env.uuids i ≡ env.uuids j → i ≡ j)
      → (k : ℕ) (m : MatchSuggestion)
      → find match_key k (serve rs (new_session env)).committed.tables.suggestions ≡ some m
      → is_suggested m.status ≡ true
      → still_candidate m (serve rs (new_session env)).committed ≡ true
  serve-AllFair rs env distinct =
      (serve-IsSound rs (new_session env) (new_session-IsSound env distinct)).committed_fair
