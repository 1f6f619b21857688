-- ===== src/Item/Requests.antt =====
-- The requests that change the database of item-service, each run as the endpoints of
-- app/api/items.py and app/api/internal_recovery.py run it: in a session of its own, which is
-- closed at the end whatever was raised.
use trabalho_devops.Prelude.{
  Text, length, ◌≤◌, Option, none, some, arith, ℕ, ◌≡◌, List, [], ◌∷◌, refl,
}
use trabalho_devops.Store.{Env, Session, close}
use trabalho_devops.Messaging.{Settings}
use trabalho_devops.Item.Models.{
  ItemDb, ItemCreateRequest, ItemUpdateRequest, ItemStatusUpdateRequest, RecoveryOpenRequest,
  RecoveryCancelRequest, RecoveryCompleteRequest,
}
use trabalho_devops.Item.Service.{
  create_item, update_item_status, open_recovery, cancel_recovery, complete_recovery,
}
use trabalho_devops.Item.Update.{update_item}
use trabalho_devops.Item.Numbering.{IsNumbered}
use trabalho_devops.Item.Invariant.{IsConsistent, IsSound}
use trabalho_devops.Item.Invariant
use trabalho_devops.Item.Sound.{
  close-IsSound, open_recovery-IsSound, cancel_recovery-IsSound, complete_recovery-IsSound,
}
use trabalho_devops.Item.Edits.{update_item_status-IsSound}
use trabalho_devops.Item.Creation.{create_item-IsSound}
use trabalho_devops.Item.Updating.{update_item-IsSound}

pub data Request : Type 0 where
  create : ItemCreateRequest → Request
  update : ℕ → ItemUpdateRequest → Request
  update_status : ℕ → ItemStatusUpdateRequest → Request
  open_case : RecoveryOpenRequest → Request
  cancel_case : RecoveryCancelRequest → Request
  complete_case : RecoveryCompleteRequest → Request

-- A text for a column of at most 100 characters: `String(100)` of models/item.py.
abbrev pub FitsColumn : Text → Type 0
FitsColumn value = length value ≤ 100

abbrev pub OptionFitsColumn : Option Text → Type 0
OptionFitsColumn none = Unit
OptionFitsColumn (some value) = FitsColumn value

-- The category and the colour that a request asks for fit their columns.
abbrev pub FitsColumns : Request → Type 0
FitsColumns (create payload) = FitsColumn payload.category × FitsColumn payload.color
FitsColumns (update id payload) = OptionFitsColumn payload.category × OptionFitsColumn payload.color
FitsColumns (update_status id payload) = Unit
FitsColumns (open_case payload) = Unit
FitsColumns (cancel_case payload) = Unit
FitsColumns (complete_case payload) = Unit

-- The empty database, and a session on it.
abbrev pub new_db : ItemDb
new_db = record { outbox = []; processed = []; tables = record { items = []; history = [] } }

abbrev pub new_session : Env → Session ItemDb
new_session env = record { committed = new_db; working = new_db; env = env }

new_db-IsConsistent : IsConsistent new_db
new_db-IsConsistent = record {
  unique = tt;
  tracked = λ k. refl;
  announced = λ k. refl;
  lawful = Invariant.IsLawful.empty;
}

new_db-IsNumbered : IsNumbered new_db
new_db-IsNumbered = record {
  told = λ k e h. absurd (ground arith);
  newest = λ k item h. absurd (ground arith);
}

pub new_session-IsSound :
    (env : Env) → ((i j : ℕ) → env.uuids i ≡ env.uuids j → i ≡ j) → IsSound (new_session env)
new_session-IsSound env distinct = record {
  distinct = distinct;
  committed = new_db-IsConsistent;
  committed_fresh = λ n h. (refl, refl);
  committed_numbered = new_db-IsNumbered;
  working = new_db-IsConsistent;
  working_fresh = λ n h. (refl, refl);
  working_numbered = new_db-IsNumbered;
}

module _ (settings : Settings) where
  -- The session after a request's body, before it is closed.
  unfoldable pub handle : Request → Session ItemDb → Session ItemDb
  handle (create payload) s = (create_item settings payload s).1
  handle (update id payload) s = (update_item settings id payload s).1
  handle (update_status id payload) s = (update_item_status settings id payload s).1
  handle (open_case payload) s = (open_recovery settings payload s).1
  handle (cancel_case payload) s = (cancel_recovery settings payload s).1
  handle (complete_case payload) s = (complete_recovery settings payload s).1

  unfoldable pub serve : List Request → Session ItemDb → Session ItemDb
  serve [] s = s
  serve (r ∷ rs) s = serve rs (close (handle r (close s)))

  pub handle-IsSound : (r : Request) (s : Session ItemDb) → IsSound s → IsSound (handle r s)
  unfolding handle
  handle-IsSound (create payload) s v = create_item-IsSound settings payload s v
  handle-IsSound (update id payload) s v = update_item-IsSound settings id payload s v
  handle-IsSound (update_status id payload) s v = update_item_status-IsSound settings id payload s v
  handle-IsSound (open_case payload) s v = open_recovery-IsSound settings payload s v
  handle-IsSound (cancel_case payload) s v = cancel_recovery-IsSound settings payload s v
  handle-IsSound (complete_case payload) s v = complete_recovery-IsSound settings payload s v

  pub serve-IsSound : (rs : List Request) (s : Session ItemDb) → IsSound s → IsSound (serve rs s)
  unfolding serve
  serve-IsSound [] s v = v
  serve-IsSound (r ∷ rs) s v =
      serve-IsSound rs _ (close-IsSound _ (handle-IsSound r (close s) (close-IsSound s v)))

  -- Whatever requests item-service serves from an empty database, accepted or refused, if
  -- the identifiers that `uuid4` draws are distinct: in the database no two items share an id, the
  -- last history entry of each item leads to the status that it has, the last event in the outbox
  -- about each item carries exactly the item's current state, and the history is made of creations
  -- and of transitions of the diagram, each from where the item's last one ended.
  pub serve-IsConsistent :
      (rs : List Request) (env : Env)
      → ((i j : ℕ) → env.uuids i ≡ env.uuids j → i ≡ j)
      → IsConsistent (serve rs (new_session env)).committed
  serve-IsConsistent rs env distinct =
      (serve-IsSound rs (new_session env) (new_session-IsSound env distinct)).committed

  -- The events of the outbox follow the versions of the items.
  pub serve-IsNumbered :
      (rs : List Request) (env : Env)
      → ((i j : ℕ) → env.uuids i ≡ env.uuids j → i ≡ j)
      → IsNumbered (serve rs (new_session env)).committed
  serve-IsNumbered rs env distinct =
      (serve-IsSound rs (new_session env) (new_session-IsSound env distinct)).committed_numbered
