-- ===== src/Recovery/Requests.antt =====
-- The requests that change the database of recovery-case-service, each run as
-- app/api/recovery_cases.py and app/messaging/consumer.py run it: in a session of its own, which is
-- closed at the end.
use trabalho_devops.Prelude.{
  ℕ, ◌≡◌, refl, inl, inr, List, [], ◌∷◌, Option, str_eq, Option-cases, Bool-cases,
}
use trabalho_devops.Store.{Env, close}
use trabalho_devops.Messaging.{Settings, EventEnvelope}
use trabalho_devops.Recovery.Models.{
  MatchAcceptedPayload, RecoveryDb, RecoveryCaseCancelRequest, RecoveryCaseCompleteRequest, Node,
  ItemRecoveryClient,
}
use trabalho_devops.Recovery.Consume.{consume_match_accepted}
use trabalho_devops.Recovery.Decide.{cancel_recovery_case, complete_recovery_case}
use trabalho_devops.Recovery.Invariant.{IsOrderly, IsSound}
use trabalho_devops.Recovery.Exclusion.{IsExclusive, IsExclusive-violates_indexes}
use trabalho_devops.Recovery.Exclusive.{consume_typed-IsSound}
use trabalho_devops.Recovery.Ending.{cancel_recovery_case-IsSound, complete_recovery_case-IsSound}

-- A MatchAccepted event that the consumer receives, or a request of a user.
pub data Request (J : Type 0) : Type 0 where
  match_accepted : EventEnvelope J → Request J
  cancel : ℕ → RecoveryCaseCancelRequest → Request J
  complete : ℕ → RecoveryCaseCompleteRequest → Request J

-- The empty database, and a service that starts with it.
abbrev pub new_db : {R : Type 0} → RecoveryDb R
new_db = record {
  outbox = [];
  processed = [];
  tables = record { cases = []; saga_steps = []; case_events = [] };
}

abbrev pub new_node : {R W : Type 0} → Env → W → Node R W
new_node env remote = record {
  session = record { committed = new_db; working = new_db; env = env };
  remote = remote;
}

module _ {R W J : Type 0} (settings : Settings) (client : ItemRecoveryClient R W)
    (model_validate : J → Option MatchAcceptedPayload) where
  unfoldable pub handle : Request J → Node R W → Node R W
  handle (match_accepted envelope) n =
      (consume_match_accepted settings client model_validate envelope n).1
  handle (cancel id payload) n = (cancel_recovery_case settings client id payload n).1
  handle (complete id payload) n = (complete_recovery_case settings client id payload n).1

  abbrev close_node : Node R W → Node R W
  close_node n = record n { session = close n.session }

  unfoldable pub serve : List (Request J) → Node R W → Node R W
  serve [] n = n
  serve (r ∷ rs) n = serve rs (close_node (handle r (close_node n)))

  consume-IsSound :
      (envelope : EventEnvelope J) (n : Node R W)
      → IsSound n.session
      → IsSound (consume_match_accepted settings client model_validate envelope n).1.session
  unfolding consume_match_accepted
  consume-IsSound envelope n v = elim (Bool-cases (str_eq envelope.event_type "MatchAccepted")) [
    | inr wrong ↦ rw wrong v
    | inl right ↦ elim (Option-cases (model_validate envelope.payload)) [
      | inl invalid ↦ rw (right, invalid) v
      | inr (p, valid) ↦ rw (right, valid) (consume_typed-IsSound settings client _ n v)
    ]
  ]

  handle-IsSound : (r : Request J) (n : Node R W) → IsSound n.session → IsSound (handle r n).session
  unfolding handle
  handle-IsSound (match_accepted envelope) n v = consume-IsSound envelope n v
  handle-IsSound (cancel id payload) n v =
      cancel_recovery_case-IsSound settings client id payload n v
  handle-IsSound (complete id payload) n v =
      complete_recovery_case-IsSound settings client id payload n v

  close-IsSound : (n : Node R W) → IsSound n.session → IsSound (close_node n).session
  close-IsSound n v = record {
    distinct = v.distinct;
    committed = v.committed;
    working = v.committed;
  }

  serve-IsSound :
      (rs : List (Request J)) (n : Node R W) → IsSound n.session → IsSound (serve rs n).session
  unfolding serve
  serve-IsSound [] n v = v
  serve-IsSound (r ∷ rs) n v = serve-IsSound rs (close_node (handle r (close_node n))) (
      close-IsSound (handle r (close_node n)) (handle-IsSound r (close_node n) (close-IsSound n v)))

  empty-IsOrderly : (env : Env) → IsOrderly env []
  empty-IsOrderly env = record { unique = tt; exclusive = refl; fresh = λ n h. refl }

  -- Whatever MatchAccepted events and requests recovery-case-service takes from an empty database,
  -- accepted, refused or failed at item-service, if the identifiers that `uuid4` draws are distinct:
  -- in the database two cases of one match are the same case, and so are two active cases of one
  -- found item.
  pub serve-IsExclusive :
      (rs : List (Request J)) (env : Env) (remote : W)
      → ((i j : ℕ) → env.uuids i ≡ env.uuids j → i ≡ j)
      → IsExclusive (serve rs (new_node env remote)).session.committed.tables.cases
  serve-IsExclusive rs env remote distinct = IsExclusive-violates_indexes _ (
      (serve-IsSound rs (new_node env remote) record {
        distinct = distinct;
        committed = empty-IsOrderly env;
        working = empty-IsOrderly env;
      }).committed.exclusive)
