-- ===== src/Item/Edits.antt =====
-- The operations of the public interface of item-service that change an item keep its database
-- consistent.
use trabalho_devops.Prelude.{ℕ, ◌≡◌, some, [], ◌∷◌, arith}
use trabalho_devops.Exec.{Result, ok, pure, raise_if, ◌>>=◌, ◌>>◌}
use trabalho_devops.Exec.Laws.{bind-keeps, raise_if-keeps}
use trabalho_devops.Store.{Session, commit}
use trabalho_devops.Table.{find}
use trabalho_devops.Table.Laws.{key-find}
use trabalho_devops.Messaging.{Settings}
use trabalho_devops.Item.Models.{
  ItemStatus, in_recovery, recovered, Item, item_key, ItemDb, ItemStatusUpdateRequest, Error,
  invalid_transition,
}
use trabalho_devops.Item.Transitions.{status_in}
use trabalho_devops.Item.Rules.{by_user}
use trabalho_devops.Item.Effects.{apply_status_transition_error, apply_status_transition-Stepped}
use trabalho_devops.Item.Invariant.{IsSound}
use trabalho_devops.Item.Records.{get_item_or_raise}
use trabalho_devops.Item.Service.{update_item_status, apply_status_transition}
use trabalho_devops.Item.Sound.{Stepped-IsSound, commit-IsSound}

-- `get_item_or_raise` changes nothing, and returns the stored item.
pub get_item_or_raise_unchanged : (id : ℕ) (s : Session ItemDb) → (get_item_or_raise id s).1 ≡ s
unfolding get_item_or_raise
get_item_or_raise_unchanged id s = ground arith

pub get_item_or_raise-find :
    (id : ℕ) (s : Session ItemDb) (item : Item)
    → (get_item_or_raise id s).0 ≡ ok item
    → find item_key id s.working.tables.items ≡ some item
unfolding get_item_or_raise
get_item_or_raise-find id s item h = ground arith

module _ (settings : Settings) (id : ℕ) (payload : ItemStatusUpdateRequest) where
  pub update_item_status-IsSound :
      (s : Session ItemDb) → IsSound s → IsSound (update_item_status settings id payload s).1
  unfolding update_item_status
  update_item_status-IsSound s v =
      bind-keeps
        (λ item.
          raise_if (status_in payload.status (in_recovery ∷ recovered ∷ [])) invalid_transition
          >> (step item >>= λ moved. commit >> pure moved.1))
        (get_item_or_raise id) s IsSound (λ e raised. rw (get_item_or_raise_unchanged id s) v)
        (λ item found. rw (get_item_or_raise_unchanged id s) (
          raise_if-keeps IsSound invalid_transition (step item >>= λ moved. commit >> pure moved.1)
            s (status_in payload.status (in_recovery ∷ recovered ∷ [])) v
            (λ passed. transition item (get_item_or_raise-find id s item found))))
    where
      step : Item → Session ItemDb → Result Error (ItemStatus × Item) × Session ItemDb
      step item =
          apply_status_transition settings item payload.status payload.reason payload.actor_user_id
            "public"

      transition :
          (item : Item)
          → find item_key id s.working.tables.items ≡ some item
          → IsSound ((step item >>= λ moved. commit >> pure moved.1) s).1
      transition item here =
          bind-keeps (λ moved. commit >> pure moved.1) (step item) s IsSound
            (λ e raised.
              rw
                (apply_status_transition_error settings item payload.status payload.reason
                  payload.actor_user_id "public" s e raised)
                v)
            (λ r done. commit-IsSound (step item s).1 (
              Stepped-IsSound by_user payload.status item r.1 s (step item s).1
                (apply_status_transition-Stepped settings item payload.status payload.reason
                  payload.actor_user_id "public" s r done)
                (simp (key-find item_key id s.working.tables.items item here) here) v))
